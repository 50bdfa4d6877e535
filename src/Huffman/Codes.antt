-- ===== src/Huffman/Codes.antt =====
-- convertBitDepthsToSymbols and reverseBits of internal/encoder/huffman_encode.go. The arrays of 16
-- counts and codes are functions of the index, `symbols` is the slice up to its capacity, and none
-- is Go's panic when it is too short.
use go_brrr.Prelude.{
  ℕ, zero, suc, ◌+◌, ◌-◌, ◌*◌, ◌/◌, ◌%◌, ◌^◌, List, [], ◌∷◌, ◌==◌, ltb, if◌then◌else◌, length,
  Option, none, some,
}
use go_brrr.CodeLengths.Decode.{update}
use go_brrr.Huffman.Reverse.{reverse_width}

-- `blCount[d&0x0F]++` on a uint16.
unfoldable pub bump : (ℕ → ℕ) → ℕ → ℕ → ℕ
bump counts d = update counts (d % 16) ((counts (d % 16) + 1) % 2 ^ 16)

unfoldable pub tally : List ℕ → (ℕ → ℕ) → ℕ → ℕ
tally [] counts = counts
tally (d ∷ depth) counts = tally depth (bump counts d)

-- The loop over four histograms at once, the one over what is left, and their sum.
unfoldable pub interleave : List ℕ → (ℕ → ℕ) → (ℕ → ℕ) → (ℕ → ℕ) → (ℕ → ℕ) → ℕ → ℕ
interleave (a ∷ b ∷ c ∷ d ∷ depth) c0 c1 c2 c3 =
    interleave depth (bump c0 a) (bump c1 b) (bump c2 c) (bump c3 d)
interleave (a ∷ b ∷ c ∷ []) c0 c1 c2 c3 =
    λ j. (tally (a ∷ b ∷ c ∷ []) c0 j + (c1 j + c2 j + c3 j) % 2 ^ 16) % 2 ^ 16
interleave (a ∷ b ∷ []) c0 c1 c2 c3 =
    λ j. (tally (a ∷ b ∷ []) c0 j + (c1 j + c2 j + c3 j) % 2 ^ 16) % 2 ^ 16
interleave (a ∷ []) c0 c1 c2 c3 =
    λ j. (tally (a ∷ []) c0 j + (c1 j + c2 j + c3 j) % 2 ^ 16) % 2 ^ 16
interleave [] c0 c1 c2 c3 = λ j. (c0 j + (c1 j + c2 j + c3 j) % 2 ^ 16) % 2 ^ 16

-- `code` after l rounds of the loop over the lengths.
unfoldable pub first_codes : (ℕ → ℕ) → ℕ → ℕ
first_codes counts zero = 0
first_codes counts (suc l) = (first_codes counts l + counts l) * 2

unfoldable pub reverse_bits : ℕ → ℕ → ℕ
reverse_bits num_bits val = reverse_width 16 val / 2 ^ (16 - num_bits)

-- The loop that hands out the codes.
unfoldable pub assign_codes : List ℕ → (ℕ → ℕ) → List ℕ → List ℕ
assign_codes [] next symbols = symbols
assign_codes (d ∷ depth) next [] = []
assign_codes (d ∷ depth) next (s ∷ symbols) =
    let dm = d % 16 in
    (if d == 0 then s else reverse_bits dm (next dm))
    ∷ assign_codes depth (if d == 0 then next else update next dm ((next dm + 1) % 2 ^ 16)) symbols

unfoldable pub convert_bit_depths_to_symbols : List ℕ → List ℕ → Option (List ℕ)
convert_bit_depths_to_symbols depth symbols =
    let zeros : ℕ → ℕ = λ j. 0 in
    let counts = update (interleave depth zeros zeros zeros zeros) 0 0 in
    if ltb (length symbols) (length depth)
    then none
    else some (assign_codes depth (λ l. first_codes counts l % 2 ^ 16) symbols)
