-- ===== src/Resumable/Alike.antt =====
-- Runs of a resumable decoder from states that differ in what no case reads.
use go_brrr.Prelude.{ℕ, zero, suc, ◌≡◌, Option, some, none, subst}
use go_brrr.BitReader.{BitReader, safe_read_bits}
use go_brrr.Resumable.{
  Machine, Next, proceed, finish, Status, done, needs_more_input, out_of_fuel, run, after_read,
  after_case,
}

pub data NextAlike {S R : Type 0} (Same : S → S → Type 0) : Next S R → Next S R → Type 0 where
  both_proceed : {s t : S} → Same s t → NextAlike Same (proceed s) (proceed t)
  both_finish : {s t : S} (r : R) → Same s t → NextAlike Same (finish s r) (finish t r)

-- The same status and reader, with states that are the same but for that.
pub data OutAlike {S R : Type 0} (Same : S → S → Type 0)
    : Status R × (S × BitReader) → Status R × (S × BitReader) → Type 0 where
  alike :
      {s t : S} (status : Status R) (br : BitReader)
      → Same s t
      → OutAlike Same (status, (s, br)) (status, (t, br))

module _ {S R : Type 0} (m : Machine S R) (Same : S → S → Type 0)
    (widths : (s t : S) → Same s t → m.width s ≡ m.width t)
    (steps : (s t : S) (v : ℕ) → Same s t → NextAlike Same (m.step s v) (m.step t v)) where
  pub run-OutAlike :
      (f : ℕ) (s t : S) (br : BitReader) → Same s t → OutAlike Same (run m f s br) (run m f t br)
  unfolding run after_read after_case
  run-OutAlike zero s t br h = alike out_of_fuel br h
  run-OutAlike (suc f) s t br h =
      subst
        (λ (w : ℕ).
          OutAlike Same (after_read m s (run m f) (safe_read_bits (m.width s) br))
            (after_read m t (run m f) (safe_read_bits w br)))
        (widths s t h) (read (run-OutAlike f) (safe_read_bits (m.width s) br))
    where
      next :
          ((s t : S) (br : BitReader) → Same s t → OutAlike Same (run m f s br) (run m f t br))
          → (br : BitReader) (a b : Next S R) → NextAlike Same a b
          → OutAlike Same (after_case m (run m f) br a) (after_case m (run m f) br b)
      next ih br _ _ (both_proceed {s} {t} g) = ih s t br g
      next ih br _ _ (both_finish r g) = alike (done r) br g

      read :
          ((s t : S) (br : BitReader) → Same s t → OutAlike Same (run m f s br) (run m f t br))
          → (x : Option ℕ × BitReader)
          → OutAlike Same (after_read m s (run m f) x) (after_read m t (run m f) x)
      read ih (none, br) = alike needs_more_input br h
      read ih (some v, br) = next ih br (m.step s v) (m.step t v) (steps s t v h)
