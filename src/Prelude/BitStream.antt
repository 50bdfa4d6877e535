-- ===== src/Prelude/BitStream.antt =====
-- Streams of bits, least significant bit first, as the Brotli format packs them into bytes.
use native.Mathlib.Nat.{pow-suc, one-le-pow, mul-le-mul, le_refl, mul_comm, suc-mul}
use Prim.Native.Nat.{ℕ, zero, suc, ◌+◌, ◌-◌, ◌*◌, ◌/◌, ◌%◌, ◌^◌, ◌≤◌, ◌<◌}
use mathlib.Core.Path.{◌≡◌, refl, ap, ap₂, sym, ◌∙◌}
use go_brrr.Prelude.BitOps.{mul-pow-suc, pow-add}
use mathlib.Core.List.{List, [], ◌∷◌, ◌++◌, append_assoc}
use go_brrr.Prelude.Lists.{length, length-append, take, drop, All, All-append}
use native.Mathlib.Omega.{arith}

-- The low n bits of a number.
unfoldable pub to_bits : ℕ → ℕ → List ℕ
to_bits zero v = []
to_bits (suc n) v = v % 2 ∷ to_bits n (v / 2)

unfoldable pub from_bits : List ℕ → ℕ
from_bits [] = 0
from_bits (b ∷ bs) = b + 2 * from_bits bs

-- The bits of a list of bytes.
unfoldable pub stream : List ℕ → List ℕ
stream [] = []
stream (b ∷ bs) = to_bits 8 b ++ stream bs

pub stream-append : (xs ys : List ℕ) → stream (xs ++ ys) ≡ stream xs ++ stream ys
unfolding stream
stream-append [] ys = refl
stream-append (x ∷ xs) ys =
    rw (stream-append xs ys) (sym (append_assoc (to_bits 8 x) (stream xs) (stream ys)))

pub length-to_bits : (n v : ℕ) → length (to_bits n v) ≡ n
unfolding to_bits
length-to_bits zero v = refl
length-to_bits (suc n) v = ap suc (length-to_bits n (v / 2))

pub length-stream : (bytes : List ℕ) → length (stream bytes) ≡ 8 * length bytes
unfolding stream
length-stream [] = omega arith
length-stream (b ∷ bytes) =
    omega
      (arith, length-append (to_bits 8 b) (stream bytes), length-to_bits 8 b, length-stream bytes)

pub from_bits-to_bits : (n v : ℕ) → v < 2 ^ n → from_bits (to_bits n v) ≡ v
unfolding to_bits from_bits
from_bits-to_bits zero v h = omega arith
from_bits-to_bits (suc n) v h =
    omega (arith, from_bits-to_bits n (v / 2) (omega (arith, pow-suc 2 n)))

-- A field of m bits below one of n bits.
pub to_bits-add :
    (m n a b : ℕ) → a < 2 ^ m → to_bits (m + n) (a + b * 2 ^ m) ≡ to_bits m a ++ to_bits n b
unfolding to_bits
to_bits-add zero n a b h =
    let none : 0 + n ≡ n = omega arith in
    let high : a + b * 2 ^ 0 ≡ b = omega arith in rw (none, high) refl
to_bits-add (suc m) n a b h =
    let more : suc m + n ≡ suc (m + n) = omega arith in
    let first : (a + b * 2 ^ suc m) % 2 ≡ a % 2 = omega (arith, mul-pow-suc b m) in
    let others : (a + b * 2 ^ suc m) / 2 ≡ a / 2 + b * 2 ^ m = omega (arith, mul-pow-suc b m) in
    rw (more, first, others, to_bits-add m n (a / 2) b (omega (arith, pow-suc 2 m))) refl

-- The bits of a wider number: its low bits, then the others.
pub to_bits-split :
    (m w v : ℕ) → m ≤ w → to_bits w v ≡ to_bits m (v % 2 ^ m) ++ to_bits (w - m) (v / 2 ^ m)
to_bits-split m w v h =
    let width : w ≡ m + (w - m) = omega arith in
    let parts : v ≡ v % 2 ^ m + v / 2 ^ m * 2 ^ m = omega arith in
    ap₂ to_bits width parts
    ∙ to_bits-add m (w - m) (v % 2 ^ m) (v / 2 ^ m) (omega (arith, one-le-pow m 2))

-- Two fields side by side fit in their widths.
pub field_lt : (m n a b : ℕ) → a < 2 ^ m → b < 2 ^ n → a + b * 2 ^ m < 2 ^ (m + n)
field_lt m n a b h g =
    let top : suc b * 2 ^ m ≤ 2 ^ n * 2 ^ m = mul-le-mul g (le_refl (2 ^ m)) in
    omega (arith, pow-add m n, mul_comm (2 ^ m) (2 ^ n), suc-mul b (2 ^ m), top)

module _ {ℓ} {A : Type ℓ} where
  take-length : (xs ys : List A) → take (length xs) (xs ++ ys) ≡ xs
  take-length [] ys = refl
  take-length (x ∷ xs) ys = rw (take-length xs ys) refl

  drop-length : (xs ys : List A) → drop (length xs) (xs ++ ys) ≡ ys
  drop-length [] ys = refl
  drop-length (x ∷ xs) ys = drop-length xs ys

  pub take_exact : (n : ℕ) (xs ys : List A) → length xs ≡ n → take n (xs ++ ys) ≡ xs
  take_exact n xs ys h = rw (sym h) (take-length xs ys)

  pub drop_exact : (n : ℕ) (xs ys : List A) → length xs ≡ n → drop n (xs ++ ys) ≡ ys
  drop_exact n xs ys h = rw (sym h) (drop-length xs ys)

abbrev pub IsBit : ℕ → Type 0
IsBit b = b < 2

pub to_bits-IsBit : (n v : ℕ) → All IsBit (to_bits n v)
unfolding to_bits
to_bits-IsBit zero v = tt
to_bits-IsBit (suc n) v = (omega arith, to_bits-IsBit n (v / 2))

pub stream-IsBit : (xs : List ℕ) → All IsBit (stream xs)
unfolding stream
stream-IsBit [] = tt
stream-IsBit (x ∷ xs) =
    All-append IsBit (to_bits 8 x) (stream xs) (to_bits-IsBit 8 x) (stream-IsBit xs)

-- Any n bits are a field.
pub cut :
    (n : ℕ) (xs : List ℕ)
    → All IsBit xs
    → n ≤ length xs
    → (x : ℕ) × (ys : List ℕ) × (x < 2 ^ n) × (xs ≡ to_bits n x ++ ys) × All IsBit ys
unfolding to_bits
cut zero xs a h = (0, xs, omega arith, refl, a)
cut (suc n) [] a h = absurd (omega arith)
cut (suc n) (b ∷ xs) (bit, a) h =
    let (x, ys, lt, e, c) = cut n xs a (omega arith) in
    let low : (b + 2 * x) % 2 ≡ b = omega arith in
    let high : (b + 2 * x) / 2 ≡ x = omega arith in
    (b + 2 * x, ys, omega (arith, pow-suc 2 n), rw (low, high, sym e) refl, c)
