-- ===== src/Transforms/Table.antt =====
-- The tables of internal/core/transforms.go: the prefix and suffix strings, byte by byte, and for
-- each of the 121 transforms its prefix, its type and its suffix. The types are numbers: 0 leaves
-- the word, 1 to 9 omit as many bytes at its end, 10 and 11 change the case of its first letter and
-- of all letters, 12 to 20 omit 1 to 9 bytes at its start.
use go_brrr.Prelude.{ℕ, List, [], ◌∷◌, ◌++◌}

unfoldable pub transform_prefix_suffix : List (List ℕ)
transform_prefix_suffix =
    (32 ∷ [])
    ∷ (44 ∷ 32 ∷ [])
    ∷ (32 ∷ 111 ∷ 102 ∷ 32 ∷ 116 ∷ 104 ∷ 101 ∷ 32 ∷ [])
    ∷ (32 ∷ 111 ∷ 102 ∷ 32 ∷ [])
    ∷ (115 ∷ 32 ∷ [])
    ∷ (46 ∷ [])
    ∷ (32 ∷ 97 ∷ 110 ∷ 100 ∷ 32 ∷ [])
    ∷ (32 ∷ 105 ∷ 110 ∷ 32 ∷ [])
    ∷ (34 ∷ [])
    ∷ (32 ∷ 116 ∷ 111 ∷ 32 ∷ [])
    ∷ (34 ∷ 62 ∷ [])
    ∷ (10 ∷ [])
    ∷ (46 ∷ 32 ∷ [])
    ∷ (93 ∷ [])
    ∷ (32 ∷ 102 ∷ 111 ∷ 114 ∷ 32 ∷ [])
    ∷ (32 ∷ 97 ∷ 32 ∷ [])
    ∷ (32 ∷ 116 ∷ 104 ∷ 97 ∷ 116 ∷ 32 ∷ [])
    ∷ (39 ∷ [])
    ∷ (32 ∷ 119 ∷ 105 ∷ 116 ∷ 104 ∷ 32 ∷ [])
    ∷ (32 ∷ 102 ∷ 114 ∷ 111 ∷ 109 ∷ 32 ∷ [])
    ∷ (32 ∷ 98 ∷ 121 ∷ 32 ∷ [])
    ∷ (40 ∷ [])
    ∷ (46 ∷ 32 ∷ 84 ∷ 104 ∷ 101 ∷ 32 ∷ [])
    ∷ (32 ∷ 111 ∷ 110 ∷ 32 ∷ [])
    ∷ (32 ∷ 97 ∷ 115 ∷ 32 ∷ [])
    ∷ (32 ∷ 105 ∷ 115 ∷ 32 ∷ [])
    ∷ (105 ∷ 110 ∷ 103 ∷ 32 ∷ [])
    ∷ (10 ∷ 9 ∷ [])
    ∷ (58 ∷ [])
    ∷ (101 ∷ 100 ∷ 32 ∷ [])
    ∷ (61 ∷ 34 ∷ [])
    ∷ (32 ∷ 97 ∷ 116 ∷ 32 ∷ [])
    ∷ (108 ∷ 121 ∷ 32 ∷ [])
    ∷ (44 ∷ [])
    ∷ (61 ∷ 39 ∷ [])
    ∷ (46 ∷ 99 ∷ 111 ∷ 109 ∷ 47 ∷ [])
    ∷ (46 ∷ 32 ∷ 84 ∷ 104 ∷ 105 ∷ 115 ∷ 32 ∷ [])
    ∷ (32 ∷ 110 ∷ 111 ∷ 116 ∷ 32 ∷ [])
    ∷ (101 ∷ 114 ∷ 32 ∷ [])
    ∷ (97 ∷ 108 ∷ 32 ∷ [])
    ∷ (102 ∷ 117 ∷ 108 ∷ 32 ∷ [])
    ∷ (105 ∷ 118 ∷ 101 ∷ 32 ∷ [])
    ∷ (108 ∷ 101 ∷ 115 ∷ 115 ∷ 32 ∷ [])
    ∷ (101 ∷ 115 ∷ 116 ∷ 32 ∷ [])
    ∷ (105 ∷ 122 ∷ 101 ∷ 32 ∷ [])
    ∷ (194 ∷ 160 ∷ [])
    ∷ (111 ∷ 117 ∷ 115 ∷ 32 ∷ [])
    ∷ (32 ∷ 116 ∷ 104 ∷ 101 ∷ 32 ∷ [])
    ∷ (101 ∷ 32 ∷ [])
    ∷ ([])
    ∷ []

unfoldable pub triplets_0 : List ℕ
triplets_0 =
    49 ∷ 0 ∷ 49 ∷ 49 ∷ 0 ∷ 0 ∷ 0 ∷ 0 ∷ 0 ∷ 49 ∷ 12 ∷ 49 ∷ 49 ∷ 10 ∷ 0 ∷ 49 ∷ 0 ∷ 47 ∷ 0 ∷ 0 ∷ 49 ∷ 4
    ∷ 0 ∷ 0 ∷ 49 ∷ 0 ∷ 3 ∷ 49 ∷ 10 ∷ 49 ∷ 49 ∷ 0 ∷ 6 ∷ 49 ∷ 13 ∷ 49 ∷ 49 ∷ 1 ∷ 49 ∷ 1 ∷ 0 ∷ 0 ∷ 49
    ∷ 0 ∷ 1 ∷ 0 ∷ 10 ∷ 0 ∷ 49 ∷ 0 ∷ 7 ∷ 49 ∷ 0 ∷ 9 ∷ 48 ∷ 0 ∷ 0 ∷ 49 ∷ 0 ∷ 8 ∷ 49 ∷ 0 ∷ 5 ∷ 49 ∷ 0
    ∷ 10 ∷ 49 ∷ 0 ∷ 11 ∷ 49 ∷ 3 ∷ 49 ∷ 49 ∷ 0 ∷ 13 ∷ 49 ∷ 0 ∷ 14 ∷ 49 ∷ 14 ∷ 49 ∷ 49 ∷ 2 ∷ 49 ∷ 49
    ∷ 0 ∷ 15 ∷ 49 ∷ 0 ∷ 16 ∷ 0 ∷ 10 ∷ 49 ∷ 49 ∷ 0 ∷ 12 ∷ 5 ∷ 0 ∷ 49 ∷ 0 ∷ 0 ∷ 1 ∷ 49 ∷ 15 ∷ 49 ∷ 49
    ∷ 0 ∷ 18 ∷ 49 ∷ 0 ∷ 17 ∷ 49 ∷ 0 ∷ 19 ∷ 49 ∷ 0 ∷ 20 ∷ 49 ∷ 16 ∷ 49 ∷ 49 ∷ 17 ∷ 49 ∷ []

unfoldable pub triplets_1 : List ℕ
triplets_1 =
    47 ∷ 0 ∷ 49 ∷ 49 ∷ 4 ∷ 49 ∷ 49 ∷ 0 ∷ 22 ∷ 49 ∷ 11 ∷ 49 ∷ 49 ∷ 0 ∷ 23 ∷ 49 ∷ 0 ∷ 24 ∷ 49 ∷ 0 ∷ 25
    ∷ 49 ∷ 7 ∷ 49 ∷ 49 ∷ 1 ∷ 26 ∷ 49 ∷ 0 ∷ 27 ∷ 49 ∷ 0 ∷ 28 ∷ 0 ∷ 0 ∷ 12 ∷ 49 ∷ 0 ∷ 29 ∷ 49 ∷ 20
    ∷ 49 ∷ 49 ∷ 18 ∷ 49 ∷ 49 ∷ 6 ∷ 49 ∷ 49 ∷ 0 ∷ 21 ∷ 49 ∷ 10 ∷ 1 ∷ 49 ∷ 8 ∷ 49 ∷ 49 ∷ 0 ∷ 31 ∷ 49
    ∷ 0 ∷ 32 ∷ 47 ∷ 0 ∷ 3 ∷ 49 ∷ 5 ∷ 49 ∷ 49 ∷ 9 ∷ 49 ∷ 0 ∷ 10 ∷ 1 ∷ 49 ∷ 10 ∷ 8 ∷ 5 ∷ 0 ∷ 21 ∷ 49
    ∷ 11 ∷ 0 ∷ 49 ∷ 10 ∷ 10 ∷ 49 ∷ 0 ∷ 30 ∷ 0 ∷ 0 ∷ 5 ∷ 35 ∷ 0 ∷ 49 ∷ 47 ∷ 0 ∷ 2 ∷ 49 ∷ 10 ∷ 17 ∷ 49
    ∷ 0 ∷ 36 ∷ 49 ∷ 0 ∷ 33 ∷ 5 ∷ 0 ∷ 0 ∷ 49 ∷ 10 ∷ 21 ∷ 49 ∷ 10 ∷ 5 ∷ 49 ∷ 0 ∷ 37 ∷ 0 ∷ 0 ∷ 30 ∷ []

unfoldable pub triplets_2 : List ℕ
triplets_2 =
    49 ∷ 0 ∷ 38 ∷ 0 ∷ 11 ∷ 0 ∷ 49 ∷ 0 ∷ 39 ∷ 0 ∷ 11 ∷ 49 ∷ 49 ∷ 0 ∷ 34 ∷ 49 ∷ 11 ∷ 8 ∷ 49 ∷ 10 ∷ 12
    ∷ 0 ∷ 0 ∷ 21 ∷ 49 ∷ 0 ∷ 40 ∷ 0 ∷ 10 ∷ 12 ∷ 49 ∷ 0 ∷ 41 ∷ 49 ∷ 0 ∷ 42 ∷ 49 ∷ 11 ∷ 17 ∷ 49 ∷ 0
    ∷ 43 ∷ 0 ∷ 10 ∷ 5 ∷ 49 ∷ 11 ∷ 10 ∷ 0 ∷ 0 ∷ 34 ∷ 49 ∷ 10 ∷ 33 ∷ 49 ∷ 0 ∷ 44 ∷ 49 ∷ 11 ∷ 5 ∷ 45
    ∷ 0 ∷ 49 ∷ 0 ∷ 0 ∷ 33 ∷ 49 ∷ 10 ∷ 30 ∷ 49 ∷ 11 ∷ 30 ∷ 49 ∷ 0 ∷ 46 ∷ 49 ∷ 11 ∷ 1 ∷ 49 ∷ 10 ∷ 34
    ∷ 0 ∷ 10 ∷ 33 ∷ 0 ∷ 11 ∷ 30 ∷ 0 ∷ 11 ∷ 1 ∷ 49 ∷ 11 ∷ 33 ∷ 49 ∷ 11 ∷ 21 ∷ 49 ∷ 11 ∷ 12 ∷ 0 ∷ 11
    ∷ 5 ∷ 49 ∷ 11 ∷ 34 ∷ 0 ∷ 11 ∷ 12 ∷ 0 ∷ 10 ∷ 30 ∷ 0 ∷ 11 ∷ 34 ∷ 0 ∷ 10 ∷ 34 ∷ []

unfoldable pub transform_triplets : List ℕ
transform_triplets = triplets_0 ++ (triplets_1 ++ triplets_2)

unfoldable pub transform_cut_offs : List ℕ
transform_cut_offs = 0 ∷ 12 ∷ 27 ∷ 23 ∷ 42 ∷ 63 ∷ 56 ∷ 48 ∷ 59 ∷ 64 ∷ []
