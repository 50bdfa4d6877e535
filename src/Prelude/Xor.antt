-- ===== src/Prelude/Xor.antt =====
-- Go's `^` on unsigned words, as arithmetic.
use Prim.Native.Nat.{ℕ, zero, suc, ◌+◌, ◌*◌, ◌/◌, ◌%◌, ◌^◌, ◌<◌, bit_xor, differ, bit_xor-bitwise}
use native.Mathlib.Nat.{pow-suc}
use mathlib.Core.Path.{◌≡◌, refl, ap₂}
use mathlib.Core.Logic.{◌⊎◌, inl, inr}
use native.Mathlib.Omega.{arith}
use go_brrr.Prelude.BitOps.{mul-pow-suc, one_digit}

bit_xor_halve : (a b : ℕ) → bit_xor a b ≡ bit_xor (a / 2) (b / 2) * 2 + differ (a % 2) (b % 2)
bit_xor_halve zero b = simp bit_xor-bitwise (omega arith)
bit_xor_halve (suc a) b = simp bit_xor-bitwise (one_digit (λ y. y) differ a b)

below_two : (n : ℕ) → n < 2 → (n ≡ 0) ⊎ (n ≡ 1)
below_two n h = grind arith

-- The digits of two bits, as a number.
differ_bits :
    (x y : ℕ) → x < 2 → y < 2 → ((x ≡ y) × (differ x y ≡ 0)) ⊎ ((differ x y ≡ 1) × (x + y ≡ 1))
differ_bits x y l r = elim (below_two x l) [
  | inl a ↦ elim (below_two y r) [
    | inl b ↦ inl (omega (arith, a, b), rw (a, b) refl)
    | inr b ↦ inr (rw (a, b) refl, omega (arith, a, b))
  ]
  | inr a ↦ elim (below_two y r) [
    | inl b ↦ inr (rw (a, b) refl, omega (arith, a, b))
    | inr b ↦ inl (omega (arith, a, b), rw (a, b) refl)
  ]
]

bit_xor-zero : bit_xor 0 0 ≡ 0
bit_xor-zero = simp bit_xor-bitwise refl

-- Words of k low bits and the rest.
pub bit_xor-split :
    (k r q s t : ℕ)
    → r < 2 ^ k
    → s < 2 ^ k
    → bit_xor (r + q * 2 ^ k) (s + t * 2 ^ k) ≡ bit_xor r s + bit_xor q t * 2 ^ k
bit_xor-split zero r q s t a b =
    let none : r ≡ 0 = omega arith in
    let nil : s ≡ 0 = omega arith in
    let low : 0 + q * 2 ^ 0 ≡ q = omega arith in
    let high : 0 + t * 2 ^ 0 ≡ t = omega arith in
    rw (none, nil, low, high) (omega (arith, bit_xor-zero))
bit_xor-split (suc k) r q s t a b = ground (
  arith,
  bit_xor_halve (r + q * 2 ^ suc k) (s + t * 2 ^ suc k),
  bit_xor_halve r s,
  mul-pow-suc q k,
  mul-pow-suc t k,
  mul-pow-suc (bit_xor q t) k,
  pow-suc 2 k,
  bit_xor-split k (r / 2) q (s / 2) t (omega (arith, pow-suc 2 k)) (omega (arith, pow-suc 2 k)),
)

pub bit_xor_self : (k a : ℕ) → a < 2 ^ k → bit_xor a a ≡ 0
bit_xor_self zero a h = let none : a ≡ 0 = omega arith in rw none bit_xor-zero
bit_xor_self (suc k) a h =
    ground
      (arith, bit_xor_halve a a, bit_xor_self k (a / 2), pow-suc 2 k, differ_bits (a % 2) (a % 2))

pub bit_xor-bounds : (k a b : ℕ) → a < 2 ^ k → b < 2 ^ k → bit_xor a b < 2 ^ k
bit_xor-bounds zero a b l r =
    let none : a ≡ 0 = omega arith in
    let nil : b ≡ 0 = omega arith in omega (arith, ap₂ bit_xor none nil, bit_xor-zero)
bit_xor-bounds (suc k) a b l r = ground (
  arith,
  bit_xor_halve a b,
  bit_xor-bounds k (a / 2) (b / 2),
  pow-suc 2 k,
  differ_bits (a % 2) (b % 2),
)

pub bit_xor-differ : (k a b : ℕ) → a < 2 ^ k → b < 2 ^ k → bit_xor a b ≡ 0 → a ≡ b
bit_xor-differ zero a b l r h = omega arith
bit_xor-differ (suc k) a b l r h = ground (
  arith,
  bit_xor_halve a b,
  bit_xor-differ k (a / 2) (b / 2),
  pow-suc 2 k,
  differ_bits (a % 2) (b % 2),
)
