-- ===== src/Prelude/BitOps.antt =====
-- Go's `|`, `&` and `bits.Len` on unsigned words, as arithmetic at every width.
use Prim.Native.Nat.{digits, bitwise, bit_and-bitwise, bit_or-bitwise}
use native.Mathlib.Nat.{le_refl, one-le-pow, pow-suc, add-zero, add-suc}
use go_brrr.Prelude.Tests.{◌==◌, Bool-cases}
use Prim.Native.Nat.{
  ℕ, zero, suc, ◌+◌, ◌-◌, ◌*◌, ◌/◌, ◌%◌, ◌^◌, ◌≤◌, ◌<◌, min, max, bit_and, bit_or,
}
use mathlib.Core.Path.{◌≡◌, refl, ap}
use mathlib.Core.Bool.{true, false}
use mathlib.Core.Logic.{inl, inr}
use native.Mathlib.Omega.{arith}

-- The native operations are digit recursions on fuel; here the fuel goes away.
module _ (z : ℕ → ℕ) (f : ℕ → ℕ → ℕ) where
  digits_enough : (a b n m : ℕ) → (a ≤ n) × (a ≤ m) → digits z f n a b ≡ digits z f m a b
  digits_enough (suc a) b (suc n) (suc m) (l, r) =
      rw (digits_enough (suc a / 2) (b / 2) n m (omega arith, omega arith))
  digits_enough (suc a) b (suc n) zero (l, r) = absurd (omega (arith, r))
  digits_enough (suc a) b zero m (l, r) = absurd (omega (arith, l))
  digits_enough zero b (suc n) (suc m) h = refl
  digits_enough zero b (suc n) zero h = refl
  digits_enough zero b zero (suc m) h = refl
  digits_enough zero b zero zero h = refl

  -- One binary digit off, for a left operand that is not zero.
  pub one_digit :
      (a b : ℕ)
      → bitwise z f (suc a) b ≡ bitwise z f (suc a / 2) (b / 2) * 2 + f (suc a % 2) (b % 2)
  one_digit a b =
      let enough = digits_enough (suc a / 2) (b / 2) a (suc a / 2) (omega arith, le_refl _) in
      omega (arith, enough)

pub bit_or_halve : (a b : ℕ) → bit_or a b ≡ bit_or (a / 2) (b / 2) * 2 + max (a % 2) (b % 2)
bit_or_halve zero b = simp bit_or-bitwise (omega arith)
bit_or_halve (suc a) b = simp bit_or-bitwise (one_digit (λ y. y) max a b)

pub bit_and_halve : (a b : ℕ) → bit_and a b ≡ bit_and (a / 2) (b / 2) * 2 + min (a % 2) (b % 2)
bit_and_halve zero b = simp bit_and-bitwise (omega arith)
bit_and_halve (suc a) b = simp bit_and-bitwise (one_digit (λ y. 0) min a b)

zero-bit_or : (b : ℕ) → bit_or 0 b ≡ b
zero-bit_or b = bit_or-bitwise 0 b

bit_and-zero_below : (k a : ℕ) → a < k → bit_and a 0 ≡ 0
bit_and-zero_below zero a h = elim h [ ]
bit_and-zero_below (suc k) zero h = refl
bit_and-zero_below (suc k) (suc a) h =
    omega (arith, bit_and_halve (suc a) 0, bit_and-zero_below k (suc a / 2) (omega arith))

bit_and-zero : (a : ℕ) → bit_and a 0 ≡ 0
bit_and-zero a = bit_and-zero_below (suc a) a (omega arith)

pub mul-pow-suc : (q k : ℕ) → q * 2 ^ suc k ≡ 2 * (q * 2 ^ k)
mul-pow-suc q k = omega (arith, ap (λ (t : ℕ). q * t) (pow-suc 2 k))

-- Or with a field shifted past every set bit is a sum.
pub bit_or-shifted : (k r q : ℕ) → r < 2 ^ k → bit_or r (q * 2 ^ k) ≡ r + q * 2 ^ k
bit_or-shifted zero zero q h = rw zero-bit_or (omega arith)
bit_or-shifted zero (suc r) q h = absurd (omega arith)
bit_or-shifted (suc k) r q h = ground (
  arith,
  bit_or_halve r (q * 2 ^ suc k),
  mul-pow-suc q k,
  pow-suc 2 k,
  bit_or-shifted k (r / 2) q (omega (arith, pow-suc 2 k)),
)

-- The same with the shifted field first.
bit_or-zero_below : (k a : ℕ) → a < k → bit_or a 0 ≡ a
bit_or-zero_below zero a h = elim h [ ]
bit_or-zero_below (suc k) zero h = refl
bit_or-zero_below (suc k) (suc a) h =
    omega (arith, bit_or_halve (suc a) 0, bit_or-zero_below k (suc a / 2) (omega arith))

pub bit_or-zero : (a : ℕ) → bit_or a 0 ≡ a
bit_or-zero a = bit_or-zero_below (suc a) a (omega arith)

pub shifted-bit_or : (k q r : ℕ) → r < 2 ^ k → bit_or (q * 2 ^ k) r ≡ q * 2 ^ k + r
shifted-bit_or zero q zero h = rw bit_or-zero_one (omega arith)
  where
    bit_or-zero_one : bit_or (q * 2 ^ 0) 0 ≡ q * 2 ^ 0
    bit_or-zero_one = bit_or-zero (q * 2 ^ 0)
shifted-bit_or zero q (suc r) h = absurd (omega arith)
shifted-bit_or (suc k) q r h = ground (
  arith,
  bit_or_halve (q * 2 ^ suc k) r,
  mul-pow-suc q k,
  pow-suc 2 k,
  shifted-bit_or k q (r / 2) (omega (arith, pow-suc 2 k)),
)

bit_and_low : (k q r : ℕ) → r < 2 ^ k → bit_and (r + q * 2 ^ k) (2 ^ k - 1) ≡ r
bit_and_low zero q r h = rw bit_and-zero (omega arith)
bit_and_low (suc k) q r h = ground (
  arith,
  bit_and_halve (r + q * 2 ^ suc k) (2 ^ suc k - 1),
  mul-pow-suc q k,
  pow-suc 2 k,
  one-le-pow k 2,
  bit_and_low k q (r / 2) (omega (arith, pow-suc 2 k)),
)

-- And with k ones is the remainder by 2 ^ k.
pub bit_and_mask : (k a : ℕ) → bit_and a (2 ^ k - 1) ≡ a % 2 ^ k
bit_and_mask k a = ground (arith, one-le-pow k 2, bit_and_low k (a / 2 ^ k) (a % 2 ^ k))

-- `bits.Len`: the number of binary digits, on fuel. 64 rounds are enough for a uint64.
bit_len_from : ℕ → ℕ → ℕ
bit_len_from zero n = 0
bit_len_from (suc fuel) n = elim (n == 0) [ true ↦ 0 | false ↦ suc (bit_len_from fuel (n / 2)) ]

unfoldable pub bit_len : ℕ → ℕ
unfolding bit_len_from
bit_len n = bit_len_from 64 n

bit_len_from_bounds :
    (fuel n : ℕ)
    → 0 < n
    → n < 2 ^ fuel
    → (k : ℕ) × (bit_len_from fuel n ≡ suc k) × (k < fuel) × (2 ^ k ≤ n) × (n < 2 ^ suc k)
unfolding bit_len_from
bit_len_from_bounds zero n p h = absurd (omega arith)
bit_len_from_bounds (suc fuel) n p h = elim (Bool-cases (n / 2 == 0)) [
  | inl small ↦ (0, ground (arith, short fuel small), omega arith, omega arith, ground arith)
  | inr large ↦
      let (k, e, b, lo, hi) =
        bit_len_from_bounds fuel (n / 2) (ground arith) (omega (arith, pow-suc 2 fuel)) in
      (
        suc k,
        ground arith,
        omega arith,
        omega (arith, pow-suc 2 k),
        omega (arith, pow-suc 2 (suc k)),
      )
]
  where
    short : (f : ℕ) → (n / 2 == 0) ≡ true → bit_len_from f (n / 2) ≡ 0
    short zero e = refl
    short (suc f) e = ground arith

-- A non-zero uint64 lies between two powers of two, and `bits.Len` tells which.
pub bit_len_bounds :
    (n : ℕ)
    → 0 < n
    → n < 2 ^ 64
    → (k : ℕ) × (bit_len n ≡ suc k) × (k < 64) × (2 ^ k ≤ n) × (n < 2 ^ suc k)
unfolding bit_len
bit_len_bounds n p h = bit_len_from_bounds 64 n p h

pub pow-add : (a b : ℕ) → 2 ^ (a + b) ≡ 2 ^ a * 2 ^ b
pow-add a zero = rw add-zero (omega arith)
pow-add a (suc b) = rw add-suc (
    omega (
      arith,
      pow-suc 2 (a + b),
      ap (λ (t : ℕ). t * 2) (pow-add a b),
      ap (λ (t : ℕ). 2 ^ a * t) (pow-suc 2 b),
    ))
