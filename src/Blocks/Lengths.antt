-- ===== src/Blocks/Lengths.antt =====
-- Block lengths and their prefix codes.
use go_brrr.Prelude.{
  ℕ, suc, ◌+◌, ◌-◌, ◌%◌, ◌^◌, ◌≤◌, ◌<◌, ◌≡◌, refl, ltb, leb, ◌==◌, ◌&&◌, get_or, arith, true, Bool,
  inl, inr, lt-cases, ◌∙◌,
}
use go_brrr.Prelude.Tables.{all_below, all_below_sound}
use go_brrr.Blocks.{
  block_length_offset, block_length_nbits, first_code, scan_code, get_block_length_prefix_code,
  block_length_of,
}

-- The extra bits fit, and with the code they give the length back.
abbrev good : ℕ → Bool
good n =
    let (code, (nbits, extra)) = get_block_length_prefix_code n in
    ltb code 26 && (ltb extra (2 ^ nbits) && (block_length_of code extra == n))

short_table : all_below 16625 (λ k. good (k + 1)) ≡ true
unfolding all_below get_block_length_prefix_code block_length_of scan_code first_code
    block_length_offset block_length_nbits
short_table = refl

good_parts :
    (n : ℕ)
    → good n ≡ true
    → let (code, (nbits, extra)) = get_block_length_prefix_code n in
      (code < 26) × (extra < 2 ^ nbits) × (block_length_of code extra ≡ n)
good_parts n h = ground arith

scan_next :
    (fuel n code : ℕ)
    → ltb code 25 ≡ true
    → leb (get_or block_length_offset (code + 1) 0) n ≡ true
    → scan_code (suc fuel) n code ≡ scan_code fuel n (code + 1)
unfolding scan_code
scan_next fuel n code e f = rw (scan_code, e, f) refl

-- The longest code is reached in five rounds.
last_code : (n : ℕ) → 16625 ≤ n → scan_code 26 n (first_code n) ≡ 25
unfolding scan_code first_code block_length_offset
last_code n h = rw start (
    scan_next 25 n 20 refl (over 1265 (omega arith))
    ∙ scan_next 24 n 21 refl (over 2289 (omega arith))
    ∙ scan_next 23 n 22 refl (over 4337 (omega arith))
    ∙ scan_next 22 n 23 refl (over 8433 (omega arith))
    ∙ scan_next 21 n 24 refl (over 16625 (omega arith)))
  where
    over : (k : ℕ) → k ≤ 16625 → leb k n ≡ true
    over k small = ground arith

    start : first_code n ≡ 20
    start = ground arith

-- For a block length from 1 to 16624 + 2 ^ 24, the extra bits fit their number, and the decoder's
-- block length from the code and the extra bits is the length.
pub block_length_of-prefix_code :
    (n : ℕ)
    → 0 < n
    → n < 16625 + 2 ^ 24
    → let (code, (nbits, extra)) = get_block_length_prefix_code n in
      (code < 26) × (extra < 2 ^ nbits) × (block_length_of code extra ≡ n)
unfolding get_block_length_prefix_code block_length_of block_length_offset block_length_nbits
block_length_of-prefix_code n p h = elim (lt-cases n 16625) [
  | inl short ↦ good_parts n (near short)
  | inr long ↦ rw (last_code n long) (far long)
]
  where
    near : n < 16625 → good n ≡ true
    near short =
        let step : n - 1 + 1 ≡ n = omega arith in
        rw⁻¹ step (all_below_sound 16625 (λ k. good (k + 1)) (n - 1) short_table (omega arith))

    far :
        16625 ≤ n
        → (25 < 26)
          × ((n + 2 ^ 32 - 16625) % 2 ^ 32 < 2 ^ 24)
          × (16625 + (n + 2 ^ 32 - 16625) % 2 ^ 32 ≡ n)
    far long = (omega arith, omega arith, omega arith)
