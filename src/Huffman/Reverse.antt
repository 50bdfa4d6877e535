-- ===== src/Huffman/Reverse.antt =====
-- Go's bits.Reverse8 and bits.Reverse16 at every width.
use native.Mathlib.Nat.{pow-suc, one-le-pow, mul_assoc, add-mul}
use go_brrr.Prelude.{
  ℕ, zero, suc, ◌+◌, ◌*◌, ◌/◌, ◌%◌, ◌^◌, ◌<◌, ◌≡◌, refl, ap, ap₂, sym, ◌∙◌, arith,
}
use go_brrr.Prelude.BitOps.{mul-pow-suc, pow-add}

-- The low n bits of v in the opposite order.
unfoldable pub reverse_width : ℕ → ℕ → ℕ
reverse_width zero v = 0
reverse_width (suc n) v = v % 2 * 2 ^ n + reverse_width n (v / 2)

pub reverse_width-lt : (n v : ℕ) → reverse_width n v < 2 ^ n
unfolding reverse_width
reverse_width-lt zero v = omega arith
reverse_width-lt (suc n) v = bit (v % 2) (omega arith) (reverse_width-lt n (v / 2))
  where
    bit :
        (b : ℕ)
        → b < 2
        → reverse_width n (v / 2) < 2 ^ n
        → b * 2 ^ n + reverse_width n (v / 2) < 2 ^ suc n
    bit zero h lt = omega (arith, pow-suc 2 n)
    bit (suc zero) h lt = omega (arith, pow-suc 2 n)
    bit (suc (suc b)) h lt = absurd (omega arith)

-- A field of m bits below one of n bits.
pub reverse_width-add :
    (m n a b : ℕ)
    → a < 2 ^ m
    → reverse_width (m + n) (a + b * 2 ^ m) ≡ reverse_width m a * 2 ^ n + reverse_width n b
unfolding reverse_width
reverse_width-add zero n a b h =
    let width : 0 + n ≡ n = omega arith in
    let value : a + b * 2 ^ 0 ≡ b = omega arith in rw (width, value) (omega arith)
reverse_width-add (suc m) n a b h =
    let width : suc m + n ≡ suc (m + n) = omega arith in
    let first : (a + b * 2 ^ suc m) % 2 ≡ a % 2 = omega (arith, mul-pow-suc b m) in
    let others : (a + b * 2 ^ suc m) / 2 ≡ a / 2 + b * 2 ^ m = omega (arith, mul-pow-suc b m) in
    rw (width, first, others, reverse_width-add m n (a / 2) b (omega (arith, pow-suc 2 m)))
      (omega (
        arith,
        ap (λ (t : ℕ). a % 2 * t) (pow-add m n),
        mul_assoc (a % 2) (2 ^ m) (2 ^ n),
        add-mul (a % 2 * 2 ^ m) (reverse_width m (a / 2)) (2 ^ n),
      ))

reverse_width-zero : (n : ℕ) → reverse_width n 0 ≡ 0
unfolding reverse_width
reverse_width-zero zero = refl
reverse_width-zero (suc n) = omega (arith, reverse_width-zero n)

-- Clear bits below the field go above the reversed one, and the other way round.
pub reverse_width-shifted : (k l c : ℕ) → reverse_width (k + l) (c * 2 ^ k) ≡ reverse_width l c
reverse_width-shifted k l c =
    ap (reverse_width (k + l)) {x = c * 2 ^ k} {y = 0 + c * 2 ^ k} (omega arith)
    ∙ reverse_width-add k l 0 c (omega (arith, one-le-pow k 2))
    ∙ rw (reverse_width-zero k) (omega arith)

pub reverse_width-wide :
    (l k c : ℕ) → c < 2 ^ l → reverse_width (l + k) c ≡ reverse_width l c * 2 ^ k
reverse_width-wide l k c h =
    ap (reverse_width (l + k)) {x = c} {y = c + 0 * 2 ^ l} (omega arith)
    ∙ reverse_width-add l k c 0 h
    ∙ rw (reverse_width-zero k) (omega arith)

pub reverse_width-involutive : (n v : ℕ) → v < 2 ^ n → reverse_width n (reverse_width n v) ≡ v
unfolding reverse_width
reverse_width-involutive zero v h = omega arith
reverse_width-involutive (suc n) v h =
    let width : suc n ≡ n + 1 = omega arith in
    let swap : v % 2 * 2 ^ n + reverse_width n (v / 2) ≡ reverse_width n (v / 2) + v % 2 * 2 ^ n =
      omega arith in
    ap₂ reverse_width width swap
    ∙ reverse_width-add n 1 (reverse_width n (v / 2)) (v % 2) (reverse_width-lt n (v / 2))
    ∙ rw (reverse_width-involutive n (v / 2) (omega (arith, pow-suc 2 n))) (omega arith)

-- The high bits of a reversed number are the low ones reversed.
pub reverse_width-high : (l k v : ℕ) → reverse_width (l + k) v / 2 ^ k ≡ reverse_width l (v % 2 ^ l)
reverse_width-high l k v =
    let parts : v % 2 ^ l + v / 2 ^ l * 2 ^ l ≡ v = omega arith in
    let e =
      ap (reverse_width (l + k)) (sym parts)
      ∙ reverse_width-add l k (v % 2 ^ l) (v / 2 ^ l) (omega (arith, one-le-pow l 2)) in
    rw e (
      quotient (reverse_width l (v % 2 ^ l)) (reverse_width k (v / 2 ^ l)) (2 ^ k)
        (reverse_width-lt k (v / 2 ^ l)))
  where
    quotient : (a b p : ℕ) → b < p → (a * p + b) / p ≡ a
    quotient a b p h = grind arith
