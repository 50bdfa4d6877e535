-- ===== src/Context/Classes.antt =====
-- The literal context table of internal/core/context.go, its modes UTF8 and Signed.
use go_brrr.Prelude.{ℕ, List, [], ◌∷◌}

unfoldable pub utf8_p1 : List ℕ
utf8_p1 =
    0 ∷ 0 ∷ 0 ∷ 0 ∷ 0 ∷ 0 ∷ 0 ∷ 0 ∷ 0 ∷ 4 ∷ 4 ∷ 0 ∷ 0 ∷ 4 ∷ 0 ∷ 0 ∷ 0 ∷ 0 ∷ 0 ∷ 0 ∷ 0 ∷ 0 ∷ 0 ∷ 0
    ∷ 0 ∷ 0 ∷ 0 ∷ 0 ∷ 0 ∷ 0 ∷ 0 ∷ 0 ∷ 8 ∷ 12 ∷ 16 ∷ 12 ∷ 12 ∷ 20 ∷ 12 ∷ 16 ∷ 24 ∷ 28 ∷ 12 ∷ 12 ∷ 32
    ∷ 12 ∷ 36 ∷ 12 ∷ 44 ∷ 44 ∷ 44 ∷ 44 ∷ 44 ∷ 44 ∷ 44 ∷ 44 ∷ 44 ∷ 44 ∷ 32 ∷ 32 ∷ 24 ∷ 40 ∷ 28 ∷ 12
    ∷ 12 ∷ 48 ∷ 52 ∷ 52 ∷ 52 ∷ 48 ∷ 52 ∷ 52 ∷ 52 ∷ 48 ∷ 52 ∷ 52 ∷ 52 ∷ 52 ∷ 52 ∷ 48 ∷ 52 ∷ 52 ∷ 52
    ∷ 52 ∷ 52 ∷ 48 ∷ 52 ∷ 52 ∷ 52 ∷ 52 ∷ 52 ∷ 24 ∷ 12 ∷ 28 ∷ 12 ∷ 12 ∷ 12 ∷ 56 ∷ 60 ∷ 60 ∷ 60 ∷ 56
    ∷ 60 ∷ 60 ∷ 60 ∷ 56 ∷ 60 ∷ 60 ∷ 60 ∷ 60 ∷ 60 ∷ 56 ∷ 60 ∷ 60 ∷ 60 ∷ 60 ∷ 60 ∷ 56 ∷ 60 ∷ 60 ∷ 60
    ∷ 60 ∷ 60 ∷ 24 ∷ 12 ∷ 28 ∷ 12 ∷ 0 ∷ 0 ∷ 1 ∷ 0 ∷ 1 ∷ 0 ∷ 1 ∷ 0 ∷ 1 ∷ 0 ∷ 1 ∷ 0 ∷ 1 ∷ 0 ∷ 1 ∷ 0
    ∷ 1 ∷ 0 ∷ 1 ∷ 0 ∷ 1 ∷ 0 ∷ 1 ∷ 0 ∷ 1 ∷ 0 ∷ 1 ∷ 0 ∷ 1 ∷ 0 ∷ 1 ∷ 0 ∷ 1 ∷ 0 ∷ 1 ∷ 0 ∷ 1 ∷ 0 ∷ 1 ∷ 0
    ∷ 1 ∷ 0 ∷ 1 ∷ 0 ∷ 1 ∷ 0 ∷ 1 ∷ 0 ∷ 1 ∷ 0 ∷ 1 ∷ 0 ∷ 1 ∷ 0 ∷ 1 ∷ 0 ∷ 1 ∷ 0 ∷ 1 ∷ 0 ∷ 1 ∷ 0 ∷ 1 ∷ 0
    ∷ 1 ∷ 2 ∷ 3 ∷ 2 ∷ 3 ∷ 2 ∷ 3 ∷ 2 ∷ 3 ∷ 2 ∷ 3 ∷ 2 ∷ 3 ∷ 2 ∷ 3 ∷ 2 ∷ 3 ∷ 2 ∷ 3 ∷ 2 ∷ 3 ∷ 2 ∷ 3 ∷ 2
    ∷ 3 ∷ 2 ∷ 3 ∷ 2 ∷ 3 ∷ 2 ∷ 3 ∷ 2 ∷ 3 ∷ 2 ∷ 3 ∷ 2 ∷ 3 ∷ 2 ∷ 3 ∷ 2 ∷ 3 ∷ 2 ∷ 3 ∷ 2 ∷ 3 ∷ 2 ∷ 3 ∷ 2
    ∷ 3 ∷ 2 ∷ 3 ∷ 2 ∷ 3 ∷ 2 ∷ 3 ∷ 2 ∷ 3 ∷ 2 ∷ 3 ∷ 2 ∷ 3 ∷ 2 ∷ 3 ∷ 2 ∷ 3 ∷ []

unfoldable pub utf8_p2 : List ℕ
utf8_p2 =
    0 ∷ 0 ∷ 0 ∷ 0 ∷ 0 ∷ 0 ∷ 0 ∷ 0 ∷ 0 ∷ 0 ∷ 0 ∷ 0 ∷ 0 ∷ 0 ∷ 0 ∷ 0 ∷ 0 ∷ 0 ∷ 0 ∷ 0 ∷ 0 ∷ 0 ∷ 0 ∷ 0
    ∷ 0 ∷ 0 ∷ 0 ∷ 0 ∷ 0 ∷ 0 ∷ 0 ∷ 0 ∷ 0 ∷ 1 ∷ 1 ∷ 1 ∷ 1 ∷ 1 ∷ 1 ∷ 1 ∷ 1 ∷ 1 ∷ 1 ∷ 1 ∷ 1 ∷ 1 ∷ 1 ∷ 1
    ∷ 2 ∷ 2 ∷ 2 ∷ 2 ∷ 2 ∷ 2 ∷ 2 ∷ 2 ∷ 2 ∷ 2 ∷ 1 ∷ 1 ∷ 1 ∷ 1 ∷ 1 ∷ 1 ∷ 1 ∷ 2 ∷ 2 ∷ 2 ∷ 2 ∷ 2 ∷ 2 ∷ 2
    ∷ 2 ∷ 2 ∷ 2 ∷ 2 ∷ 2 ∷ 2 ∷ 2 ∷ 2 ∷ 2 ∷ 2 ∷ 2 ∷ 2 ∷ 2 ∷ 2 ∷ 2 ∷ 2 ∷ 2 ∷ 2 ∷ 2 ∷ 1 ∷ 1 ∷ 1 ∷ 1 ∷ 1
    ∷ 1 ∷ 3 ∷ 3 ∷ 3 ∷ 3 ∷ 3 ∷ 3 ∷ 3 ∷ 3 ∷ 3 ∷ 3 ∷ 3 ∷ 3 ∷ 3 ∷ 3 ∷ 3 ∷ 3 ∷ 3 ∷ 3 ∷ 3 ∷ 3 ∷ 3 ∷ 3 ∷ 3
    ∷ 3 ∷ 3 ∷ 3 ∷ 1 ∷ 1 ∷ 1 ∷ 1 ∷ 0 ∷ 0 ∷ 0 ∷ 0 ∷ 0 ∷ 0 ∷ 0 ∷ 0 ∷ 0 ∷ 0 ∷ 0 ∷ 0 ∷ 0 ∷ 0 ∷ 0 ∷ 0 ∷ 0
    ∷ 0 ∷ 0 ∷ 0 ∷ 0 ∷ 0 ∷ 0 ∷ 0 ∷ 0 ∷ 0 ∷ 0 ∷ 0 ∷ 0 ∷ 0 ∷ 0 ∷ 0 ∷ 0 ∷ 0 ∷ 0 ∷ 0 ∷ 0 ∷ 0 ∷ 0 ∷ 0 ∷ 0
    ∷ 0 ∷ 0 ∷ 0 ∷ 0 ∷ 0 ∷ 0 ∷ 0 ∷ 0 ∷ 0 ∷ 0 ∷ 0 ∷ 0 ∷ 0 ∷ 0 ∷ 0 ∷ 0 ∷ 0 ∷ 0 ∷ 0 ∷ 0 ∷ 0 ∷ 0 ∷ 0 ∷ 0
    ∷ 0 ∷ 0 ∷ 0 ∷ 0 ∷ 0 ∷ 0 ∷ 0 ∷ 0 ∷ 0 ∷ 0 ∷ 0 ∷ 0 ∷ 0 ∷ 0 ∷ 0 ∷ 0 ∷ 0 ∷ 0 ∷ 0 ∷ 0 ∷ 0 ∷ 0 ∷ 0 ∷ 0
    ∷ 0 ∷ 0 ∷ 0 ∷ 0 ∷ 0 ∷ 0 ∷ 0 ∷ 0 ∷ 2 ∷ 2 ∷ 2 ∷ 2 ∷ 2 ∷ 2 ∷ 2 ∷ 2 ∷ 2 ∷ 2 ∷ 2 ∷ 2 ∷ 2 ∷ 2 ∷ 2 ∷ 2
    ∷ 2 ∷ 2 ∷ 2 ∷ 2 ∷ 2 ∷ 2 ∷ 2 ∷ 2 ∷ 2 ∷ 2 ∷ 2 ∷ 2 ∷ 2 ∷ 2 ∷ 2 ∷ 2 ∷ []

unfoldable pub signed_p1 : List ℕ
signed_p1 =
    0 ∷ 8 ∷ 8 ∷ 8 ∷ 8 ∷ 8 ∷ 8 ∷ 8 ∷ 8 ∷ 8 ∷ 8 ∷ 8 ∷ 8 ∷ 8 ∷ 8 ∷ 8 ∷ 16 ∷ 16 ∷ 16 ∷ 16 ∷ 16 ∷ 16 ∷ 16
    ∷ 16 ∷ 16 ∷ 16 ∷ 16 ∷ 16 ∷ 16 ∷ 16 ∷ 16 ∷ 16 ∷ 16 ∷ 16 ∷ 16 ∷ 16 ∷ 16 ∷ 16 ∷ 16 ∷ 16 ∷ 16 ∷ 16
    ∷ 16 ∷ 16 ∷ 16 ∷ 16 ∷ 16 ∷ 16 ∷ 16 ∷ 16 ∷ 16 ∷ 16 ∷ 16 ∷ 16 ∷ 16 ∷ 16 ∷ 16 ∷ 16 ∷ 16 ∷ 16 ∷ 16
    ∷ 16 ∷ 16 ∷ 16 ∷ 24 ∷ 24 ∷ 24 ∷ 24 ∷ 24 ∷ 24 ∷ 24 ∷ 24 ∷ 24 ∷ 24 ∷ 24 ∷ 24 ∷ 24 ∷ 24 ∷ 24 ∷ 24
    ∷ 24 ∷ 24 ∷ 24 ∷ 24 ∷ 24 ∷ 24 ∷ 24 ∷ 24 ∷ 24 ∷ 24 ∷ 24 ∷ 24 ∷ 24 ∷ 24 ∷ 24 ∷ 24 ∷ 24 ∷ 24 ∷ 24
    ∷ 24 ∷ 24 ∷ 24 ∷ 24 ∷ 24 ∷ 24 ∷ 24 ∷ 24 ∷ 24 ∷ 24 ∷ 24 ∷ 24 ∷ 24 ∷ 24 ∷ 24 ∷ 24 ∷ 24 ∷ 24 ∷ 24
    ∷ 24 ∷ 24 ∷ 24 ∷ 24 ∷ 24 ∷ 24 ∷ 24 ∷ 24 ∷ 24 ∷ 24 ∷ 32 ∷ 32 ∷ 32 ∷ 32 ∷ 32 ∷ 32 ∷ 32 ∷ 32 ∷ 32
    ∷ 32 ∷ 32 ∷ 32 ∷ 32 ∷ 32 ∷ 32 ∷ 32 ∷ 32 ∷ 32 ∷ 32 ∷ 32 ∷ 32 ∷ 32 ∷ 32 ∷ 32 ∷ 32 ∷ 32 ∷ 32 ∷ 32
    ∷ 32 ∷ 32 ∷ 32 ∷ 32 ∷ 32 ∷ 32 ∷ 32 ∷ 32 ∷ 32 ∷ 32 ∷ 32 ∷ 32 ∷ 32 ∷ 32 ∷ 32 ∷ 32 ∷ 32 ∷ 32 ∷ 32
    ∷ 32 ∷ 32 ∷ 32 ∷ 32 ∷ 32 ∷ 32 ∷ 32 ∷ 32 ∷ 32 ∷ 32 ∷ 32 ∷ 32 ∷ 32 ∷ 32 ∷ 32 ∷ 32 ∷ 32 ∷ 40 ∷ 40
    ∷ 40 ∷ 40 ∷ 40 ∷ 40 ∷ 40 ∷ 40 ∷ 40 ∷ 40 ∷ 40 ∷ 40 ∷ 40 ∷ 40 ∷ 40 ∷ 40 ∷ 40 ∷ 40 ∷ 40 ∷ 40 ∷ 40
    ∷ 40 ∷ 40 ∷ 40 ∷ 40 ∷ 40 ∷ 40 ∷ 40 ∷ 40 ∷ 40 ∷ 40 ∷ 40 ∷ 40 ∷ 40 ∷ 40 ∷ 40 ∷ 40 ∷ 40 ∷ 40 ∷ 40
    ∷ 40 ∷ 40 ∷ 40 ∷ 40 ∷ 40 ∷ 40 ∷ 40 ∷ 40 ∷ 48 ∷ 48 ∷ 48 ∷ 48 ∷ 48 ∷ 48 ∷ 48 ∷ 48 ∷ 48 ∷ 48 ∷ 48
    ∷ 48 ∷ 48 ∷ 48 ∷ 48 ∷ 56 ∷ []

unfoldable pub signed_p2 : List ℕ
signed_p2 =
    0 ∷ 1 ∷ 1 ∷ 1 ∷ 1 ∷ 1 ∷ 1 ∷ 1 ∷ 1 ∷ 1 ∷ 1 ∷ 1 ∷ 1 ∷ 1 ∷ 1 ∷ 1 ∷ 2 ∷ 2 ∷ 2 ∷ 2 ∷ 2 ∷ 2 ∷ 2 ∷ 2
    ∷ 2 ∷ 2 ∷ 2 ∷ 2 ∷ 2 ∷ 2 ∷ 2 ∷ 2 ∷ 2 ∷ 2 ∷ 2 ∷ 2 ∷ 2 ∷ 2 ∷ 2 ∷ 2 ∷ 2 ∷ 2 ∷ 2 ∷ 2 ∷ 2 ∷ 2 ∷ 2 ∷ 2
    ∷ 2 ∷ 2 ∷ 2 ∷ 2 ∷ 2 ∷ 2 ∷ 2 ∷ 2 ∷ 2 ∷ 2 ∷ 2 ∷ 2 ∷ 2 ∷ 2 ∷ 2 ∷ 2 ∷ 3 ∷ 3 ∷ 3 ∷ 3 ∷ 3 ∷ 3 ∷ 3 ∷ 3
    ∷ 3 ∷ 3 ∷ 3 ∷ 3 ∷ 3 ∷ 3 ∷ 3 ∷ 3 ∷ 3 ∷ 3 ∷ 3 ∷ 3 ∷ 3 ∷ 3 ∷ 3 ∷ 3 ∷ 3 ∷ 3 ∷ 3 ∷ 3 ∷ 3 ∷ 3 ∷ 3 ∷ 3
    ∷ 3 ∷ 3 ∷ 3 ∷ 3 ∷ 3 ∷ 3 ∷ 3 ∷ 3 ∷ 3 ∷ 3 ∷ 3 ∷ 3 ∷ 3 ∷ 3 ∷ 3 ∷ 3 ∷ 3 ∷ 3 ∷ 3 ∷ 3 ∷ 3 ∷ 3 ∷ 3 ∷ 3
    ∷ 3 ∷ 3 ∷ 3 ∷ 3 ∷ 3 ∷ 3 ∷ 3 ∷ 3 ∷ 4 ∷ 4 ∷ 4 ∷ 4 ∷ 4 ∷ 4 ∷ 4 ∷ 4 ∷ 4 ∷ 4 ∷ 4 ∷ 4 ∷ 4 ∷ 4 ∷ 4 ∷ 4
    ∷ 4 ∷ 4 ∷ 4 ∷ 4 ∷ 4 ∷ 4 ∷ 4 ∷ 4 ∷ 4 ∷ 4 ∷ 4 ∷ 4 ∷ 4 ∷ 4 ∷ 4 ∷ 4 ∷ 4 ∷ 4 ∷ 4 ∷ 4 ∷ 4 ∷ 4 ∷ 4 ∷ 4
    ∷ 4 ∷ 4 ∷ 4 ∷ 4 ∷ 4 ∷ 4 ∷ 4 ∷ 4 ∷ 4 ∷ 4 ∷ 4 ∷ 4 ∷ 4 ∷ 4 ∷ 4 ∷ 4 ∷ 4 ∷ 4 ∷ 4 ∷ 4 ∷ 4 ∷ 4 ∷ 4 ∷ 4
    ∷ 5 ∷ 5 ∷ 5 ∷ 5 ∷ 5 ∷ 5 ∷ 5 ∷ 5 ∷ 5 ∷ 5 ∷ 5 ∷ 5 ∷ 5 ∷ 5 ∷ 5 ∷ 5 ∷ 5 ∷ 5 ∷ 5 ∷ 5 ∷ 5 ∷ 5 ∷ 5 ∷ 5
    ∷ 5 ∷ 5 ∷ 5 ∷ 5 ∷ 5 ∷ 5 ∷ 5 ∷ 5 ∷ 5 ∷ 5 ∷ 5 ∷ 5 ∷ 5 ∷ 5 ∷ 5 ∷ 5 ∷ 5 ∷ 5 ∷ 5 ∷ 5 ∷ 5 ∷ 5 ∷ 5 ∷ 5
    ∷ 6 ∷ 6 ∷ 6 ∷ 6 ∷ 6 ∷ 6 ∷ 6 ∷ 6 ∷ 6 ∷ 6 ∷ 6 ∷ 6 ∷ 6 ∷ 6 ∷ 6 ∷ 7 ∷ []
