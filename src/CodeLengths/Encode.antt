-- ===== src/CodeLengths/Encode.antt =====
-- encodeHuffmanTree of internal/encoder/huffman_encode.go. The slices `tree` and `extraBitsData`,
-- written side by side, are one list of pairs (symbol, extra bits), the part of `depth` at and
-- after an index is the list of its entries.
use go_brrr.Prelude.{
  ℕ, zero, suc, ◌+◌, ◌-◌, ◌*◌, ◌/◌, ◌%◌, ◌^◌, List, [], ◌∷◌, ◌++◌, Bool, false, not, ◌&&◌, ◌||◌,
  ◌==◌, ltb, leb, if◌then◌else◌, replicate, drop, length, bit_and, bit_xor,
}

abbrev pub repeat_previous_code_length : ℕ
repeat_previous_code_length = 16

abbrev pub repeat_zero_code_length : ℕ
repeat_zero_code_length = 17

abbrev pub initial_repeated_code_length : ℕ
initial_repeated_code_length = 8

abbrev pub Code : Type 0
Code = ℕ × ℕ

-- `slices.Reverse`.
unfoldable pub reverse : List Code → List Code
reverse [] = []
reverse (x ∷ xs) = reverse xs ++ (x ∷ [])

-- The loop that writes `v`, the repetitions less 3, with n extra bits in each symbol, least
-- significant first, on fuel. v + 1 rounds are enough.
unfoldable pub repeat_codes : ℕ → ℕ → ℕ → ℕ → List Code
repeat_codes zero code n v = []
repeat_codes (suc fuel) code n v =
    let rest = repeat_codes fuel code n (v / 2 ^ n - 1) in
    (code, bit_and v (2 ^ n - 1)) ∷ (if v / 2 ^ n == 0 then [] else rest)

unfoldable pub plain_or_repeated : ℕ → ℕ → ℕ → ℕ → List Code
plain_or_repeated value code n repetitions =
    if ltb repetitions 3
    then replicate repetitions (value, 0)
    else reverse (repeat_codes (repetitions - 3 + 1) code n (repetitions - 3))

unfoldable pub encode_huffman_tree_repetitions : ℕ → ℕ → ℕ → List Code
encode_huffman_tree_repetitions prev_value value repetitions =
    let after = λ (left : ℕ).
      if left == 7
      then (value, 0) ∷ plain_or_repeated value repeat_previous_code_length 2 (left - 1)
      else plain_or_repeated value repeat_previous_code_length 2 left in
    if prev_value == value then after repetitions else (value, 0) ∷ after (repetitions - 1)

unfoldable pub encode_huffman_tree_repetitions_zeros : ℕ → List Code
encode_huffman_tree_repetitions_zeros repetitions =
    if repetitions == 11
    then (0, 0) ∷ plain_or_repeated 0 repeat_zero_code_length 3 (repetitions - 1)
    else plain_or_repeated 0 repeat_zero_code_length 3 repetitions

-- Eight bytes as a little-endian word: `loadU64LE`.
unfoldable pub load_u64_le : List ℕ → ℕ → ℕ
load_u64_le bytes zero = 0
load_u64_le [] (suc n) = 0
load_u64_le (b ∷ bytes) (suc n) = b + 256 * load_u64_le bytes n

-- `bits.TrailingZeros64` on a word that is not zero, on fuel: 64 rounds are enough.
unfoldable pub trailing_zeros : ℕ → ℕ → ℕ
trailing_zeros zero x = 0
trailing_zeros (suc fuel) x =
    let rest = trailing_zeros fuel (x / 2) in if x % 2 == 0 then suc rest else 0

unfoldable pub run_bytes : List ℕ → ℕ → ℕ
run_bytes [] value = 0
run_bytes (d ∷ depth) value = let rest = run_bytes depth value in if d == value then suc rest else 0

-- How many entries from the start of `depth` have `value`: eight at a time, then one by one. The
-- fuel is the rounds of the first loop: one for each entry is enough.
unfoldable pub run_words : ℕ → List ℕ → ℕ → ℕ
run_words zero depth value = run_bytes depth value
run_words (suc fuel) depth value =
    let rest = run_words fuel (drop 8 depth) value in
    let diff = bit_xor (load_u64_le depth 8) (value * 0x0101010101010101 % 2 ^ 64) in
    if leb 8 (length depth)
    then (if diff == 0 then 8 + rest else trailing_zeros 64 diff / 8)
    else run_bytes depth value

-- findRunEnd, as the distance from `start`.
unfoldable pub find_run_end : List ℕ → ℕ → ℕ
find_run_end depth value = run_words (length depth) depth value

pub record Reps : Type 0 where
  pub total_zero : ℕ
  pub count_zero : ℕ
  pub total_non_zero : ℕ
  pub count_non_zero : ℕ

unfoldable pub count_run : ℕ → ℕ → Reps → Reps
count_run value reps r =
    let zeros = leb 3 reps && value == 0 in
    let others = leb 4 reps && not (value == 0) in
    record {
      total_zero = if zeros then r.total_zero + reps else r.total_zero;
      count_zero = if zeros then r.count_zero + 1 else r.count_zero;
      total_non_zero = if others then r.total_non_zero + reps else r.total_non_zero;
      count_non_zero = if others then r.count_non_zero + 1 else r.count_non_zero;
    }

-- The loop over the runs, on fuel: one round for each entry is enough.
unfoldable pub count_runs : ℕ → List ℕ → Reps → Reps
count_runs zero depth r = r
count_runs (suc fuel) [] r = r
count_runs (suc fuel) (value ∷ depth) r =
    let more = find_run_end depth value in
    count_runs fuel (drop more depth) (count_run value (suc more) r)

-- (useNonZero, useZero).
unfoldable pub decide_over_rle_use : List ℕ → Bool × Bool
decide_over_rle_use depth =
    let r =
      count_runs (length depth) depth
        record { total_zero = 0; count_zero = 1; total_non_zero = 0; count_non_zero = 1 } in
    (ltb (r.count_non_zero * 2) r.total_non_zero, ltb (r.count_zero * 2) r.total_zero)

-- `newLength`: without the zeros at the end.
unfoldable pub trim : List ℕ → List ℕ
trim [] = []
trim (d ∷ depth) = elim (trim depth) [ [] ↦ if d == 0 then [] else d ∷ [] | x ∷ xs ↦ d ∷ (x ∷ xs) ]

-- The loop that writes the runs, on fuel: one round for each entry is enough.
unfoldable pub encode_runs : ℕ → Bool × Bool → ℕ → List ℕ → List Code
encode_runs zero rle prev_value depth = []
encode_runs (suc fuel) rle prev_value [] = []
encode_runs (suc fuel) rle prev_value (value ∷ depth) =
    let zero? = value == 0 in
    let more = if (not zero? && rle.0) || (zero? && rle.1) then find_run_end depth value else 0 in
    let rest = encode_runs fuel rle (if zero? then prev_value else value) (drop more depth) in
    (if zero?
      then encode_huffman_tree_repetitions_zeros (suc more)
      else encode_huffman_tree_repetitions prev_value value (suc more))
    ++ rest

unfoldable pub encode_huffman_tree : List ℕ → List Code
encode_huffman_tree depth =
    let kept = trim depth in
    let rle = if ltb 50 (length depth) then decide_over_rle_use kept else (false, false) in
    encode_runs (length kept) rle initial_repeated_code_length kept
