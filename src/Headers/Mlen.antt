-- ===== src/Headers/Mlen.antt =====
-- encodeMlen of internal/encoder/metablock.go.
use native.Mathlib.Nat.{pow-le-pow_right}
use go_brrr.Prelude.{
  ℕ, zero, suc, ◌+◌, ◌-◌, ◌*◌, ◌/◌, ◌^◌, ◌≤◌, ◌<◌, ◌≡◌, refl, ◌==◌, arith, ap, ◌∙◌, false, inl, inr,
  ◌⊎◌, max, lt-cases,
}
use go_brrr.Prelude.BitOps.{bit_len, bit_len_bounds}
use go_brrr.Headers.{MlenEncoding, encode_mlen}
use go_brrr.Headers.Nibbles.{TopNibble}

-- What encodeMlen promises: four to six nibbles that hold the length less one, the highest not
-- zero where there are more than four.
pub record Mlen (length : ℕ) (e : MlenEncoding) : Type 0 where
  pub size : ℕ
  pub least : 4 ≤ size
  pub most : size ≤ 6
  pub num_eq : e.num_bits ≡ size * 4
  pub nibble_eq : e.nibble_bits ≡ size - 4
  pub bits_eq : e.mlen_bits ≡ length - 1
  pub bits_lt : length - 1 < 2 ^ (size * 4)
  pub top : TopNibble size size (length - 1)

top_of : (n size w : ℕ) → (size ≤ 4) ⊎ (2 ^ ((n - 1) * 4) ≤ w) → TopNibble size n w
top_of zero size w h = tt
top_of (suc k) size w (inl h) = inl h
top_of (suc k) size w (inr h) =
    let e : (suc k - 1) * 4 ≡ k * 4 = omega arith in inr (omega (arith, ap (λ (n : ℕ). 2 ^ n) e))

nibbles_of :
    (length lg : ℕ)
    → lg ≤ 24
    → length - 1 < 2 ^ lg
    → (lg ≤ 16) ⊎ (2 ^ (lg - 1) ≤ length - 1)
    → let size = (max lg 16 + 3) / 4 in
      Mlen length record { mlen_bits = length - 1; num_bits = size * 4; nibble_bits = size - 4 }
nibbles_of length lg h lt t = record {
  size = (max lg 16 + 3) / 4;
  least = omega arith;
  most = omega arith;
  num_eq = refl;
  nibble_eq = refl;
  bits_eq = refl;
  bits_lt = wide;
  top = top_of ((max lg 16 + 3) / 4) ((max lg 16 + 3) / 4) (length - 1) highest;
}
  where
    wide : length - 1 < 2 ^ ((max lg 16 + 3) / 4 * 4)
    wide =
        let room : 2 ^ lg ≤ 2 ^ ((max lg 16 + 3) / 4 * 4) =
          pow-le-pow_right {n = 2} (omega arith) (omega arith) in
        omega (arith, room)

    above : 17 ≤ lg → 2 ^ (lg - 1) ≤ length - 1 → 2 ^ (((max lg 16 + 3) / 4 - 1) * 4) ≤ length - 1
    above g lo =
        let room : 2 ^ (((max lg 16 + 3) / 4 - 1) * 4) ≤ 2 ^ (lg - 1) =
          pow-le-pow_right {n = 2} (omega arith) (omega arith) in
        omega (arith, room)

    highest : ((max lg 16 + 3) / 4 ≤ 4) ⊎ (2 ^ (((max lg 16 + 3) / 4 - 1) * 4) ≤ length - 1)
    highest = elim (lt-cases lg 17) [
      | inl few ↦ inl (omega arith)
      | inr many ↦ elim t [ inl few ↦ inl (omega arith) | inr lo ↦ inr (above many lo) ]
    ]

bit_len-zero : bit_len 0 ≡ 0
unfolding bit_len
bit_len-zero = refl

-- A length of up to 2 ^ 24 bytes is encoded as promised.
pub encode_mlen-Mlen :
    (length : ℕ) → 0 < length → length ≤ 2 ^ 24 → Mlen length (encode_mlen length)
unfolding encode_mlen
encode_mlen-Mlen length p h = elim (lt-cases 0 (length - 1)) [
  | inr single ↦
      let z : length - 1 ≡ 0 = omega arith in
      let none : bit_len (length - 1) ≡ 0 = ap bit_len z ∙ bit_len-zero in
      rw none (nibbles_of length 1 (omega arith) (omega arith) (inl (omega arith)))
  | inl more ↦ longer more
]
  where
    few : (k : ℕ) → 2 ^ k ≤ length - 1 → k < 24
    few k lo = elim (lt-cases k 24) [
      | inl less ↦ less
      | inr over ↦
          let wide : 2 ^ 24 ≤ 2 ^ k = pow-le-pow_right {n = 2} (omega arith) over in
          absurd (omega (arith, wide))
    ]

    longer : 0 < length - 1 → Mlen length (encode_mlen length)
    longer more =
        let (k, e, b, lo, hi) = bit_len_bounds (length - 1) more (omega arith) in
        let some_digit : (suc k == 0) ≡ false = ground arith in
        let same : suc k - 1 ≡ k = omega arith in
        rw (e, some_digit) (nibbles_of length (suc k) (few k lo) hi (inr (rw same lo)))
