-- ===== src/ContextMap.antt =====
-- The runs of zeros in a context map, between the move-to-front transform and the entropy code:
-- runLengthCodeZeros of internal/encoder/bitwriter.go and the loop of decodeContextMap in decode.go.
pub mod Trip
pub mod Whole
pub mod Filled
use go_brrr.Prelude.{
  ℕ, zero, suc, ◌+◌, ◌-◌, ◌*◌, ◌/◌, ◌%◌, ◌^◌, List, [], ◌∷◌, ◌++◌, Bool, true, false, ◌==◌, ltb,
  if◌then◌else◌, min, max, length, drop, replicate, map,
}
use go_brrr.Prelude.BitOps.{bit_len}
use go_brrr.MoveToFront.{move_to_front_transform, inverse_move_to_front_transform}

-- How many zeros the list starts with.
unfoldable pub zero_run : List ℕ → ℕ
zero_run [] = 0
zero_run (x ∷ v) = let rest = zero_run v in if x == 0 then suc rest else 0

-- The first pass, on fuel: the longest run. A round for each entry is enough.
unfoldable pub longest_run : ℕ → List ℕ → ℕ
longest_run zero v = 0
longest_run (suc fuel) [] = 0
longest_run (suc fuel) (x ∷ v) =
    let reps = zero_run (x ∷ v) in
    if x == 0 then max reps (longest_run fuel (drop reps (x ∷ v))) else longest_run fuel v

-- `maxRunLenPrefix`.
unfoldable pub max_prefix : List ℕ → ℕ
max_prefix v =
    let max_reps = longest_run (length v) v in
    min (if max_reps == 0 then 0 else bit_len max_reps - 1) 6

-- The symbol in the lower 9 bits and the extra bits above it.
unfoldable pub pack : ℕ → ℕ → ℕ
pack symbol extra = (symbol + extra * 2 ^ 9) % 2 ^ 32

-- The symbols of a run, on fuel: the run's length is enough.
unfoldable pub emit_run : ℕ → ℕ → ℕ → List ℕ
emit_run zero m reps = []
emit_run (suc fuel) m zero = []
emit_run (suc fuel) m (suc n) =
    let reps = suc n in
    let prefix = bit_len reps - 1 in
    let rest = emit_run fuel m (reps - (2 * 2 ^ m - 1)) in
    if ltb reps (2 * 2 ^ m) then pack prefix (reps - 2 ^ prefix) ∷ [] else pack m (2 ^ m - 1) ∷ rest

-- The second pass, on fuel: a round for each entry is enough. The slice is overwritten behind the
-- place where it is read.
unfoldable pub encode_zero_runs : ℕ → ℕ → List ℕ → List ℕ
encode_zero_runs zero m v = []
encode_zero_runs (suc fuel) m [] = []
encode_zero_runs (suc fuel) m (x ∷ v) =
    let more = zero_run v in
    if x == 0
    then emit_run (suc more) m (suc more) ++ encode_zero_runs fuel m (drop more v)
    else (x + m) % 2 ^ 32 ∷ encode_zero_runs fuel m v

-- The packed symbols, and the largest prefix.
unfoldable pub run_length_code_zeros : List ℕ → List ℕ × ℕ
run_length_code_zeros v = let m = max_prefix v in (encode_zero_runs (length v) m v, m)

-- The symbol and the extra bits, as encodeContextMapBuf writes them.
unfoldable pub unpack : ℕ → ℕ × ℕ
unpack v = (v % 2 ^ 9, v / 2 ^ 9)

-- The map and the symbols that are left, or why it cannot be read.
pub data MapResult : Type 0 where
  decoded : List ℕ → List (ℕ × ℕ) → MapResult
  needs_more_input : MapResult
  repeat_overflow : MapResult

unfoldable pub prepend : List ℕ → MapResult → MapResult
prepend xs (decoded map rest) = decoded (xs ++ map) rest
prepend xs needs_more_input = needs_more_input
prepend xs repeat_overflow = repeat_overflow

-- The loop over `left` entries. A symbol is read with the extra bits, as many as the symbol says,
-- that come after it.
unfoldable pub decode_zero_runs : ℕ → ℕ → List (ℕ × ℕ) → MapResult
decode_zero_runs max_run_length_prefix zero symbols = decoded [] symbols
decode_zero_runs max_run_length_prefix (suc left) [] = needs_more_input
decode_zero_runs max_run_length_prefix (suc left) ((code, extra) ∷ symbols) =
    let reps = extra + 2 ^ code in
    let one = decode_zero_runs max_run_length_prefix left symbols in
    let run = decode_zero_runs max_run_length_prefix (suc left - reps) symbols in
    if code == 0
    then prepend (0 ∷ []) one
    else if ltb max_run_length_prefix code
    then prepend ((code - max_run_length_prefix) % 256 ∷ []) one
    else if ltb (suc left) reps
    then repeat_overflow
    else prepend (replicate reps 0) run

-- The symbols that encodeContextMapBuf codes for a map of at least two clusters, and `maxRunLenPrefix`.
unfoldable pub encode_context_map : List ℕ → List (ℕ × ℕ) × ℕ
encode_context_map context_map =
    let rle = run_length_code_zeros (move_to_front_transform context_map) in
    (map unpack rle.0, rle.1)

-- The step after the loop of decodeContextMap, with the bit that asks for the inverse transform.
unfoldable pub transform_map : Bool → MapResult → MapResult
transform_map true (decoded map rest) = decoded (inverse_move_to_front_transform map).0 rest
transform_map false (decoded map rest) = decoded map rest
transform_map bit needs_more_input = needs_more_input
transform_map bit repeat_overflow = repeat_overflow

unfoldable pub decode_context_map : ℕ → ℕ → Bool → List (ℕ × ℕ) → MapResult
decode_context_map max_run_length_prefix context_map_size bit symbols =
    transform_map bit (decode_zero_runs max_run_length_prefix context_map_size symbols)
