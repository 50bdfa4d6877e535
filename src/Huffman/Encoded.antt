-- ===== src/Huffman/Encoded.antt =====
-- The codes of convertBitDepthsToSymbols of internal/encoder/huffman_encode.go: those of complete
-- depths fit, and each is its canonical code in the opposite order of bits.
use native.Mathlib.Nat.{pow-suc, one-le-pow, pow-le-pow_right}
use go_brrr.Prelude.{
  ℕ, zero, suc, ◌+◌, ◌-◌, ◌*◌, ◌/◌, ◌%◌, ◌^◌, ◌≤◌, ◌<◌, ◌≡◌, refl, ap, sym, ◌∙◌, ◌==◌, List, arith,
  false, get_or, ltb, All, length, take, some, [], ◌∷◌,
}
use go_brrr.Prelude.BitOps.{pow-add}
use go_brrr.CodeLengths.Decode.{update}
use go_brrr.CodeLengths.Loop.{space_taken}
use go_brrr.Huffman.Reverse.{reverse_width, reverse_width-wide}
use go_brrr.Huffman.Codes.{
  first_codes, interleave, reverse_bits, convert_bit_depths_to_symbols, assign_codes,
}
use go_brrr.Huffman.Counts.{count_of, interleave-count, get_or-assign_codes, get_or-positions}
use go_brrr.Huffman.Kraft.{
  counts_of, first_codes-space, space_below, space_below_mono, space_below-taken,
}

-- Codes of complete depths fit their lengths.
pub codes_fit :
    (depth : List ℕ)
    → All (λ d. d ≤ 15) depth
    → space_taken depth ≡ 32768
    → (l : ℕ) → l ≤ 15
    → first_codes (counts_of depth) l + counts_of depth l ≤ 2 ^ l
unfolding first_codes
codes_fit depth a e l h =
    let all : suc l + (15 - l) ≡ 16 = omega arith in
    let below = space_below_mono (counts_of depth) (suc l) (15 - l) in
    let space = first_codes-space (counts_of depth) (suc l) (omega arith) in
    let p = one-le-pow (15 - l) 2 in
    let rest : 16 - suc l ≡ 15 - l = omega arith in
    let share : first_codes (counts_of depth) (suc l) * 2 ^ (15 - l) ≤ 2 ^ suc l * 2 ^ (15 - l) =
      omega (
        arith,
        ap (λ (r : ℕ). first_codes (counts_of depth) (suc l) * 2 ^ r) (sym rest),
        space,
        below,
        ap (space_below (counts_of depth)) all,
        space_below-taken depth a,
        e,
        sym (pow-add (suc l) (15 - l)) ∙ ap (λ (k : ℕ). 2 ^ k) all,
      ) in
    omega (
      arith,
      cancel (first_codes (counts_of depth) (suc l)) (2 ^ suc l) (2 ^ (15 - l)) (omega (arith, p))
          share,
      pow-suc 2 l,
    )
  where
    cancel : (a b p : ℕ) → 1 ≤ p → a * p ≤ b * p → a ≤ b
    cancel a b p h le = grind arith

pub counts_of-zero_depth : (depth : List ℕ) → counts_of depth 0 ≡ 0
unfolding counts_of
counts_of-zero_depth depth = refl

pub counts_of-some : (depth : List ℕ) (l : ℕ) → 1 ≤ l → counts_of depth l ≡ count_of l depth
unfolding counts_of
counts_of-some depth l h = ground arith

count_of-le : (l : ℕ) (depth : List ℕ) → count_of l depth ≤ length depth
unfolding count_of
count_of-le l [] = omega arith
count_of-le l (d ∷ depth) = ground (arith, count_of-le l depth)

reverse_bits-width : (l c : ℕ) → l ≤ 15 → c < 2 ^ l → reverse_bits l c ≡ reverse_width l c
unfolding reverse_bits
reverse_bits-width l c h lt =
    let width : 16 ≡ l + (16 - l) = omega arith in
    ap (λ (r : ℕ). r / 2 ^ (16 - l))
      (ap (λ (w : ℕ). reverse_width w c) width ∙ reverse_width-wide l (16 - l) c lt)
    ∙ div_field (reverse_width l c) (2 ^ (16 - l)) (omega (arith, one-le-pow (16 - l) 2))
  where
    div_field : (a p : ℕ) → 1 ≤ p → a * p / p ≡ a
    div_field a p h = grind arith

-- The counts of the encoder, of at most 65535 depths.
interleaved :
    (depth : List ℕ) (l : ℕ)
    → All (λ d. d ≤ 15) depth
    → length depth ≤ 65535
    → (zeros : ℕ → ℕ) → ((j : ℕ) → zeros j ≡ 0)
    → update (interleave depth zeros zeros zeros zeros) 0 0 l ≡ counts_of depth l
unfolding counts_of update
interleaved depth zero a h zeros z = refl
interleaved depth (suc l) a h zeros z =
    let apart : (0 == suc l) ≡ false = ground arith in
    let apart' : (suc l == 0) ≡ false = ground arith in
    rw (apart, apart')
      (omega (
        arith,
        interleave-count depth zeros zeros zeros zeros (suc l) a,
        z (suc l),
        count_of-le (suc l) depth,
        h,
      ))

-- What the encoder writes for the symbol i.
pub get_or-convert :
    (depth symbols : List ℕ) (i l : ℕ)
    → All (λ d. d ≤ 15) depth
    → space_taken depth ≡ 32768
    → length depth ≤ 65535
    → length depth ≤ length symbols
    → i < length depth
    → get_or depth i 0 ≡ l
    → 1 ≤ l
    → l ≤ 15
    → (codes : List ℕ) × (convert_bit_depths_to_symbols depth symbols ≡ some codes)
      × (get_or codes i 0
          ≡ reverse_width l (first_codes (counts_of depth) l + count_of l (take i depth)))
unfolding convert_bit_depths_to_symbols
get_or-convert depth symbols i l a e b n h d p q =
    let zeros : ℕ → ℕ = λ j. 0 in
    let counts : update (interleave depth zeros zeros zeros zeros) 0 0 ≡ counts_of depth =
      λ t j. interleaved depth j a b zeros (λ k. refl) t in
    let next : ℕ → ℕ = λ j. first_codes (counts_of depth) j % 2 ^ 16 in
    let c = first_codes (counts_of depth) l + count_of l (take i depth) in
    let room : ltb (length symbols) (length depth) ≡ false = ground (arith, n) in
    let rank = (get_or-positions depth 0 i l h d).0 in
    let wide : 2 ^ l ≤ 2 ^ 15 = pow-le-pow_right {n = 2} (omega arith) {j = 15} q in
    let small : c < 2 ^ l =
      omega (arith, rank, codes_fit depth a e l q, counts_of-some depth l p) in
    (
      assign_codes depth next symbols,
      rw (counts, room) refl,
      get_or-assign_codes depth next symbols i l a n h d p (omega arith)
          ∙ ap (reverse_bits l) {y = c} (omega (arith, small, wide))
          ∙ reverse_bits-width l c q small,
    )
