-- ===== src/Resumable/ReadFields.antt =====
-- A resumable decoder over fields that were written in a row.
use go_brrr.Prelude.{ℕ, suc, ◌^◌, ◌<◌, ◌≡◌, List, ◌∷◌, ◌++◌, ap, sym, ◌∙◌, append_assoc}
use go_brrr.Prelude.BitStream.{to_bits}
use go_brrr.BitWriter.Fields.{field_bits}
use go_brrr.Resumable.{Machine}
use go_brrr.Resumable.Stream.{run_stream, stream_read, after_step}

-- The next case gets the next field.
pub run_stream-field :
    {S R : Type 0} (m : Machine S R) (fuel : ℕ) (s : S) (x : ℕ) (fields : List (ℕ × ℕ))
    (rest : List ℕ)
    → x < 2 ^ m.width s
    → run_stream m (suc fuel) s (field_bits ((m.width s, x) ∷ fields) ++ rest)
      ≡ after_step m (run_stream m fuel) (field_bits fields ++ rest) (m.step s x)
unfolding field_bits
run_stream-field m fuel s x fields rest h =
    ap (run_stream m (suc fuel) s) (append_assoc (to_bits (m.width s) x) (field_bits fields) rest)
    ∙ stream_read m fuel s x (field_bits fields ++ rest) h

-- The same for a field whose width is known otherwise.
pub run_stream-next :
    {S R : Type 0} (m : Machine S R) (fuel : ℕ) (s : S) (n x : ℕ) (fields : List (ℕ × ℕ))
    (rest : List ℕ)
    → m.width s ≡ n
    → x < 2 ^ n
    → run_stream m (suc fuel) s (field_bits ((n, x) ∷ fields) ++ rest)
      ≡ after_step m (run_stream m fuel) (field_bits fields ++ rest) (m.step s x)
run_stream-next m fuel s n x fields rest e h =
    ap (λ (w : ℕ). run_stream m (suc fuel) s (field_bits ((w, x) ∷ fields) ++ rest)) (sym e)
    ∙ run_stream-field m fuel s x fields rest (rw e h)
