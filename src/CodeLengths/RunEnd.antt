-- ===== src/CodeLengths/RunEnd.antt =====
-- findRunEnd of internal/encoder/huffman_encode.go against the loop of its comment.
use go_brrr.Prelude.{
  ℕ, zero, suc, ◌+◌, ◌*◌, ◌/◌, ◌%◌, ◌^◌, ◌≤◌, ◌<◌, ◌≡◌, refl, ap, sym, ◌∙◌, List, [], ◌∷◌, ◌==◌,
  Bool-cases, inl, inr, ◌⊎◌, arith, true, false, ==_iff, leb, length, drop, All, All-drop, bit_xor,
}
use native.Mathlib.Nat.{pow-suc}
use go_brrr.Prelude.BitOps.{mul-pow-suc}
use go_brrr.Prelude.Xor.{bit_xor-split, bit_xor_self, bit_xor-bounds, bit_xor-differ}
use go_brrr.CodeLengths.Encode.{load_u64_le, trailing_zeros, run_bytes, run_words, find_run_end}

-- `value` in each of n bytes.
unfoldable repeated : ℕ → ℕ → ℕ
repeated value zero = 0
repeated value (suc n) = value + 256 * repeated value n

repeated_eight : (v : ℕ) → v < 256 → v * 0x0101010101010101 % 2 ^ 64 ≡ repeated v 8
unfolding repeated
repeated_eight v h = omega arith

trailing_zeros-byte : (fuel x : ℕ) → trailing_zeros (8 + fuel) (256 * x) ≡ 8 + trailing_zeros fuel x
unfolding trailing_zeros
trailing_zeros-byte fuel x = ground arith

trailing_zeros-low : (k fuel d y : ℕ) → 0 < d → d < 2 ^ k → trailing_zeros fuel (d + y * 2 ^ k) < k
unfolding trailing_zeros
trailing_zeros-low zero fuel d y p l = absurd (omega arith)
trailing_zeros-low (suc k) zero d y p l = omega arith
trailing_zeros-low (suc k) (suc fuel) d y p l =
    ground (arith, trailing_zeros-low k fuel (d / 2) y, mul-pow-suc y k, pow-suc 2 k)

xor-byte :
    (r q s t : ℕ)
    → r < 256
    → s < 256
    → bit_xor (r + 256 * q) (s + 256 * t) ≡ bit_xor r s + bit_xor q t * 2 ^ 8
xor-byte r q s t a b =
    let left : r + 256 * q ≡ r + q * 2 ^ 8 = omega arith in
    let right : s + 256 * t ≡ s + t * 2 ^ 8 = omega arith in
    rw (left, right) (bit_xor-split 8 r q s t a b)

pub run_bytes-same :
    (d : ℕ) (depth : List ℕ) (value : ℕ)
    → (d == value) ≡ true
    → run_bytes (d ∷ depth) value ≡ suc (run_bytes depth value)
unfolding run_bytes
run_bytes-same d depth value e = rw e refl

pub run_bytes-other :
    (d : ℕ) (depth : List ℕ) (value : ℕ) → (d == value) ≡ false → run_bytes (d ∷ depth) value ≡ 0
unfolding run_bytes
run_bytes-other d depth value e = rw e refl

bit_xor-positive :
    (d value : ℕ) → d < 256 → value < 256 → (d == value) ≡ false → 0 < bit_xor d value
bit_xor-positive d value b v e = ground (arith, bit_xor-differ 8 d value b v)

-- What a word of n bytes less the repeated value says of the run.
Agree : ℕ → List ℕ → ℕ → Type 0
Agree n depth value =
    let diff = bit_xor (load_u64_le depth n) (repeated value n) in
    ((diff ≡ 0) × (run_bytes depth value ≡ n + run_bytes (drop n depth) value))
    ⊎ ((0 < diff) × (trailing_zeros (8 * n) diff / 8 ≡ run_bytes depth value))

agree :
    (n : ℕ) (depth : List ℕ) (value : ℕ)
    → value < 256
    → All (λ d. d < 256) depth
    → n ≤ length depth
    → Agree n depth value
unfolding load_u64_le run_bytes Agree repeated
agree zero depth value v a l = inl (bit_xor_self 1 0 (omega arith), omega arith)
agree (suc n) [] value v a l = absurd (omega arith)
agree (suc n) (d ∷ depth) value v (b, a) l =
    let diff = bit_xor (load_u64_le depth n) (repeated value n) in
    let apart = xor-byte d (load_u64_le depth n) value (repeated value n) b v in
    let more = trailing_zeros-byte (8 * n) diff in
    let rounds : 8 * suc n ≡ 8 + 8 * n = omega arith in
    elim (Bool-cases (d == value)) [
      | inl e ↦
          let same : d ≡ value = (==_iff d value).0 e in
          let whole : bit_xor (d + 256 * load_u64_le depth n) (value + 256 * repeated value n)
              ≡ 256 * diff =
            omega
              (arith, apart, same, bit_xor_self 8 value v, ap (λ (t : ℕ). bit_xor t value) same) in
          elim (agree n depth value v a (omega arith)) [
            | inl (z, r) ↦
                inl (omega (arith, whole, z), run_bytes-same d depth value e ∙ omega (arith, r))
            | inr (p, r) ↦ inr (
              omega (arith, whole, p),
              rw (rounds, whole, more) (omega (arith, r, run_bytes-same d depth value e)),
            )
          ]
      | inr e ↦
          let positive = bit_xor-positive d value b v e in
          inr (
            omega (arith, apart, positive),
            rw (apart) (
                omega (
                  arith,
                  run_bytes-other d depth value e,
                  trailing_zeros-low 8 (8 * suc n) (bit_xor d value) diff positive
                      (bit_xor-bounds 8 d value b v),
                )),
          )
    ]

run_words-run_bytes :
    (fuel : ℕ) (depth : List ℕ) (value : ℕ)
    → value < 256
    → All (λ d. d < 256) depth
    → run_words fuel depth value ≡ run_bytes depth value
unfolding run_words Agree
run_words-run_bytes zero depth value v a = refl
run_words-run_bytes (suc fuel) depth value v a = elim (Bool-cases (leb 8 (length depth))) [
  | inr e ↦ rw (run_words, e) refl
  | inl e ↦
      rw (run_words, e, repeated_eight value v)
        (elim (agree 8 depth value v a (ground arith)) [
          | inl (z, r) ↦ rw z (
              ap (λ (n : ℕ). 8 + n)
                (run_words-run_bytes fuel (drop 8 depth) value v (All-drop _ 8 depth a))
              ∙ sym r)
          | inr (p, r) ↦
              let some : (bit_xor (load_u64_le depth 8) (repeated value 8) == 0) ≡ false =
                ground arith in
              rw some r
        ])
]

-- The search by words of eight bytes finds the end of the run that the search by single bytes
-- finds, for all bytes.
pub find_run_end-run_bytes :
    (depth : List ℕ) (value : ℕ)
    → value < 256
    → All (λ d. d < 256) depth
    → find_run_end depth value ≡ run_bytes depth value
unfolding find_run_end
find_run_end-run_bytes depth value v a = run_words-run_bytes (length depth) depth value v a
