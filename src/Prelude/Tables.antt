-- ===== src/Prelude/Tables.antt =====
-- Claims over a finite range, checked by evaluation.
use Prim.Native.Nat.{ℕ, zero, suc, ◌<◌}
use mathlib.Core.Path.{◌≡◌}
use mathlib.Core.Bool.{Bool, true, ◌&&◌}
use native.Mathlib.Omega.{arith}

unfoldable pub all_below : ℕ → (ℕ → Bool) → Bool
all_below zero test = true
all_below (suc n) test = all_below n test && test n

pub all_below_sound :
    (n : ℕ) (test : ℕ → Bool) (x : ℕ) (every : all_below n test ≡ true) (below : x < n)
    → test x ≡ true
unfolding all_below
all_below_sound (suc n) test x every below = ground (arith, all_below_sound n test x)
all_below_sound zero test x every below = elim below [ ]
