-- ===== src/Resumable.antt =====
-- The shape of decode.go's resumable header decoders: a loop over a substate, in which each case
-- reads some bits, and a read that finds too few leaves the substate for the next call.
pub mod Stream
pub mod Resume
pub mod Alike
pub mod ReadFields
use go_brrr.Prelude.{ℕ, zero, suc, List, Option, none, some}
use go_brrr.BitReader.{BitReader, safe_read_bits}

-- What a case of the switch does once it has its bits.
pub data Next (S R : Type 0) : Type 0 where
  proceed : S → Next S R
  finish : S → R → Next S R

pub data Status (R : Type 0) : Type 0 where
  done : R → Status R
  needs_more_input : Status R
  out_of_fuel : Status R

-- The number of bits that each substate reads, and its case.
pub record Machine (S R : Type 0) : Type 0 where
  pub width : S → ℕ
  pub step : S → ℕ → Next S R

module _ {S R : Type 0} (m : Machine S R) where
  unfoldable pub after_case :
      (S → BitReader → Status R × (S × BitReader))
      → BitReader
      → Next S R
      → Status R × (S × BitReader)
  after_case continue br (finish s r) = (done r, (s, br))
  after_case continue br (proceed s) = continue s br

  -- One read, then the case.
  unfoldable pub after_read :
      S
      → (S → BitReader → Status R × (S × BitReader))
      → Option ℕ × BitReader
      → Status R × (S × BitReader)
  after_read s continue (none, br) = (needs_more_input, (s, br))
  after_read s continue (some v, br) = after_case continue br (m.step s v)

  unfoldable pub run : ℕ → S → BitReader → Status R × (S × BitReader)
  run zero s br = (out_of_fuel, (s, br))
  run (suc fuel) s br = after_read s (run fuel) (safe_read_bits (m.width s) br)
