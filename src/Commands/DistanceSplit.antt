-- ===== src/Commands/DistanceSplit.antt =====
-- The parts that prefixEncodeCopyDistance cuts a distance into, as arithmetic.
use native.Mathlib.Nat.{
  pow-suc, pow-le-pow_right, one-le-pow, div-eq_of_lt-le, div-add-mod, mod-lt, div-lt_iff_lt-mul,
  mul-le-mul, add-mul-mod_self_right,
}
use go_brrr.Prelude.{
  ℕ, suc, ◌+◌, ◌-◌, ◌*◌, ◌/◌, ◌%◌, ◌^◌, ◌≤◌, ◌<◌, ◌≡◌, ◌⊎◌, inl, inr, arith, bit_and, ap, sym, ◌∙◌,
  lt-cases,
}
use go_brrr.Prelude.BitOps.{bit_len, bit_len_bounds, bit_and_mask, shifted-bit_or, pow-add}
use go_brrr.Commands.{encode_parts}

top_quotient :
    (n w : ℕ)
    → 2 * w ≤ n
    → n < 4 * w
    → ((n / w ≡ 2) × (n % w + 2 * w ≡ n)) ⊎ ((n / w ≡ 3) × (n % w + 3 * w ≡ n))
top_quotient n w lo hi = elim (lt-cases n (3 * w)) [
  | inl h ↦ inl (with_top 2 (omega arith) (omega arith))
  | inr h ↦ inr (with_top 3 (omega arith) (omega arith))
]
  where
    with_top : (t : ℕ) → t * w ≤ n → n < (t + 1) * w → (n / w ≡ t) × (n % w + t * w ≡ n)
    with_top t a b =
        let e = div-eq_of_lt-le {k = t} w {m = n} a b in
        (e, omega (arith, div-add-mod n w, ap (λ (u : ℕ). w * u) e))

pow_gap : (k m : ℕ) → 2 ^ k < 2 ^ m → k < m
pow_gap k m h = elim (lt-cases k m) [
  | inl g ↦ g
  | inr g ↦ absurd (omega (arith, pow-le-pow_right {n = 2} (omega arith) g))
]

-- What the encoder computes of a distance above the direct codes: its number of extra bits, the
-- two leading digits (2 or 3), the extra bits and the postfix.
pub record Split (dist p q : ℕ) : Type 0 where
  pub nbits : ℕ
  pub top : ℕ
  pub extra : ℕ
  pub postfix : ℕ
  pub bucket_is : bit_len dist - 2 ≡ nbits + p
  pub nbits_range : (1 ≤ nbits) × (nbits ≤ 24)
  pub top_range : (2 ≤ top) × (top ≤ 3)
  pub extra_lt : extra < 2 ^ nbits
  pub postfix_is : dist % q ≡ postfix
  pub postfix_lt : postfix < q
  pub top_is : dist / 2 ^ (nbits + p) ≡ top
  pub extra_is : (dist - top * 2 ^ (nbits + p)) / q ≡ extra
  pub dist_is : (top * 2 ^ nbits + extra) * q + postfix ≡ dist

module _ (dist p nb top : ℕ) (hb : bit_len dist - 2 ≡ nb + p) (hn : (1 ≤ nb) × (nb ≤ 24))
    (ht : (2 ≤ top) × (top ≤ 3)) (hd : dist / 2 ^ (nb + p) ≡ top)
    (hm : dist % 2 ^ (nb + p) + top * 2 ^ (nb + p) ≡ dist) where
  rest_lt : dist % 2 ^ (nb + p) < 2 ^ nb * 2 ^ p
  rest_lt = rw (← pow-add nb p) (mod-lt dist (one-le-pow (nb + p) 2 (omega arith)))

  rest_is : dist - top * 2 ^ (nb + p) ≡ dist % 2 ^ (nb + p)
  rest_is = omega arith

  postfix_eq : dist % 2 ^ p ≡ dist % 2 ^ (nb + p) % 2 ^ p
  postfix_eq =
      ap (λ (t : ℕ). t % 2 ^ p) (sym regroup) ∙ add-mul-mod_self_right _ (top * 2 ^ nb) (2 ^ p)
    where
      regroup : dist % 2 ^ (nb + p) + top * 2 ^ nb * 2 ^ p ≡ dist
      regroup = omega (arith, ap (λ (t : ℕ). top * t) (pow-add nb p))

  total : (top * 2 ^ nb + dist % 2 ^ (nb + p) / 2 ^ p) * 2 ^ p + dist % 2 ^ (nb + p) % 2 ^ p ≡ dist
  total = omega (
    arith,
    pow-add nb p,
    div-add-mod (dist % 2 ^ (nb + p)) (2 ^ p),
    ap (λ (t : ℕ). top * t) (pow-add nb p),
  )

  halves_at : Split dist p (2 ^ p)
  halves_at = record {
    nbits = nb;
    top = top;
    extra = dist % 2 ^ (nb + p) / 2 ^ p;
    postfix = dist % 2 ^ (nb + p) % 2 ^ p;
    bucket_is = hb;
    nbits_range = hn;
    top_range = ht;
    extra_lt = (div-lt_iff_lt-mul (one-le-pow p 2 (omega arith))).1 rest_lt;
    postfix_is = postfix_eq;
    postfix_lt = mod-lt _ (one-le-pow p 2 (omega arith));
    top_is = hd;
    extra_is = rw rest_is;
    dist_is = total;
  }

halves_below :
    (dist p nb : ℕ)
    → bit_len dist - 2 ≡ nb + p
    → (1 ≤ nb) × (nb ≤ 24)
    → 2 * 2 ^ (nb + p) ≤ dist
    → dist < 4 * 2 ^ (nb + p)
    → Split dist p (2 ^ p)
halves_below dist p nb hb hn lo hi = elim (top_quotient dist (2 ^ (nb + p)) lo hi) [
  | inl (d, m) ↦ halves_at dist p nb 2 hb hn (omega arith) d m
  | inr (d, m) ↦ halves_at dist p nb 3 hb hn (omega arith) d m
]

pub dist-Split :
    (dist p : ℕ) → 2 ^ (p + 2) ≤ dist → dist < 2 ^ (p + 26) → p ≤ 3 → Split dist p (2 ^ p)
dist-Split dist p lo hi hp =
    let wide : 2 ^ (p + 26) ≤ 2 ^ 64 =
      pow-le-pow_right {n = 2} (omega arith) {j = 64} (omega arith) in
    let pos : 0 < dist = omega (arith, one-le-pow (p + 2) 2 (omega arith)) in
    let (k, len, _, below, above) = bit_len_bounds dist pos (omega arith) in
    let g : p + 2 < suc k = pow_gap (p + 2) (suc k) (omega arith) in
    let g' : k < p + 26 = pow_gap k (p + 26) (omega arith) in
    let nb = k - 1 - p in
    let e : k ≡ suc (nb + p) = omega arith in
    let two : 2 ^ k ≡ 2 * 2 ^ (nb + p) =
      omega (arith, pow-suc 2 (nb + p), ap (λ (t : ℕ). 2 ^ t) e) in
    halves_below dist p nb (omega arith) (omega arith) (omega arith) (omega (arith, pow-suc 2 k))

pub symbol_lt :
    (nd p x r : ℕ) → p ≤ 3 → nd ≤ 120 → x ≤ 47 → r < 2 ^ p → 16 + nd + x * 2 ^ p + r < 2 ^ 10
symbol_lt nd p x r hp hd hx hr =
    let eight : 2 ^ p ≤ 8 = pow-le-pow_right {n = 2} (omega arith) {j = 3} hp in
    let big : x * 2 ^ p ≤ 47 * 8 = mul-le-mul hx eight in omega arith

-- The encoder's arithmetic on a distance whose parts are known.
pub encode-Split :
    (nd p dist : ℕ) (s : Split dist p (2 ^ p))
    → p ≤ 3
    → nd ≤ 120
    → encode_parts nd p dist ≡ (
      s.nbits * 2 ^ 10 + (16 + nd + (2 * (s.nbits - 1) + (s.top - 2)) * 2 ^ p + s.postfix),
      s.extra,
    )
unfolding encode_parts
encode-Split nd p dist s hp hd =
    rw (s.bucket_is, bit_and_mask p dist, s.postfix_is)
      (rw (prefix, off, less)
        (ground (arith, shifted-bit_or 10 s.nbits _ low, low, wide, s.extra_is)))
  where
    low : 16 + nd + (2 * (s.nbits - 1) + (s.top - 2)) * 2 ^ p + s.postfix < 2 ^ 10
    low = symbol_lt nd p _ s.postfix hp hd (omega arith) s.postfix_lt

    prefix : bit_and (dist / 2 ^ (s.nbits + p)) 1 ≡ s.top - 2
    prefix = omega (arith, bit_and_mask 1 (dist / 2 ^ (s.nbits + p)))

    off : (2 + (s.top - 2)) * 2 ^ (s.nbits + p) ≡ s.top * 2 ^ (s.nbits + p)
    off = ap (λ (t : ℕ). t * 2 ^ (s.nbits + p)) (omega arith)

    less : s.nbits + p - p ≡ s.nbits
    less = omega arith

    wide : 2 ^ s.nbits ≤ 2 ^ 32
    wide = pow-le-pow_right {n = 2} (omega arith) {j = 32} (omega arith)
