-- ===== src/Commands/Distances.antt =====
-- Distance prefix codes (prefixEncodeCopyDistance, prefixEncodeSimpleDistance, distanceCode).
use native.Mathlib.Nat.{
  pow-le-pow_right, one-le-pow, sub-zero, mul-one, div-one, mod-one, le_refl, mul-le-mul,
  add-mul-div_right, div-eq_of_lt, mod-eq_of_lt, add-mul-mod_self_right,
}
use go_brrr.Prelude.{
  ℕ, zero, suc, ◌+◌, ◌-◌, ◌*◌, ◌/◌, ◌%◌, ◌^◌, ◌≤◌, ◌<◌, ◌≡◌, refl, false, inl, inr, arith, ltb,
  bit_and, bit_or, ap, sym, ◌∙◌, lt-cases,
}
use go_brrr.Prelude.BitOps.{bit_len, bit_and_mask, pow-add}
use go_brrr.DistanceParams.{init_distance_params, distance_alphabet_size}
use go_brrr.Commands.DistanceSplit.{Split, dist-Split, symbol_lt, encode-Split}
use go_brrr.Commands.{
  Command, prefix_encode_simple_distance, prefix_encode_copy_distance, encode_parts, distance_code,
}

-- The intermediate codes that stand for a distance of fewer than 25 extra bits.
abbrev pub InRange : ℕ → ℕ → ℕ → Type 0
InRange dc nd p = dc + 2 ^ (p + 2) < 16 + nd + 2 ^ (p + 26)

pub max_distance-InRange :
    (dc nd p : ℕ)
    → p ≤ 3
    → nd ≤ 120
    → dc ≤ (init_distance_params p nd).max_distance + 15
    → InRange dc nd p
unfolding init_distance_params
max_distance-InRange dc nd zero hp hd h = omega arith
max_distance-InRange dc nd (suc zero) hp hd h = omega arith
max_distance-InRange dc nd (suc (suc zero)) hp hd h = omega arith
max_distance-InRange dc nd (suc (suc (suc zero))) hp hd h = omega arith
max_distance-InRange dc nd (suc (suc (suc (suc p)))) hp hd h = absurd (omega arith)

pub alphabet_room :
    (nd p : ℕ)
    → p ≤ 3
    → nd ≤ 120
    → (init_distance_params p nd).alphabet_size_limit ≡ 16 + nd + 48 * 2 ^ p
unfolding init_distance_params distance_alphabet_size
alphabet_room nd zero hp hd = omega arith
alphabet_room nd (suc zero) hp hd = omega arith
alphabet_room nd (suc (suc zero)) hp hd = omega arith
alphabet_room nd (suc (suc (suc zero))) hp hd = omega arith
alphabet_room nd (suc (suc (suc (suc p)))) hp hd = absurd (omega arith)

pub near_symbol :
    (dc nd p : ℕ)
    → dc < 16 + nd
    → nd ≤ 120
    → bit_and (prefix_encode_copy_distance dc nd p).0 0x3ff ≡ dc
unfolding prefix_encode_copy_distance
near_symbol dc nd p h hd = bit_and_mask 10 (prefix_encode_copy_distance dc nd p).0 ∙ ground arith

-- The distance symbol that a packed prefix holds.
decode_fields :
    (c : Command) (nd p nbits x r : ℕ)
    → p ≤ 3
    → nd ≤ 120
    → x ≤ 47
    → r < 2 ^ p
    → (1 ≤ nbits) × (nbits ≤ 24)
    → c.dist_prefix ≡ nbits * 2 ^ 10 + (16 + nd + x * 2 ^ p + r)
    → distance_code c nd p
      ≡ (((2 + x % 2) * 2 ^ nbits - 4 + c.dist_extra) * 2 ^ p + r + nd + 16) % 2 ^ 32
unfolding distance_code
decode_fields c nd p nbits x r hp hd hx hr range e =
    rw (dcode, far, count) (rw (base, mask) (rw (quotient, remainder, last, wrapped) refl))
  where
    low : 16 + nd + x * 2 ^ p + r < 2 ^ 10
    low = symbol_lt nd p x r hp hd hx hr

    q_pos : 0 < 2 ^ p
    q_pos = one-le-pow p 2 (omega arith)

    dcode : bit_and c.dist_prefix 0x3ff ≡ 16 + nd + x * 2 ^ p + r
    dcode = omega (arith, low, bit_and_mask 10 c.dist_prefix)

    far : ltb (16 + nd + x * 2 ^ p + r) (16 + nd) ≡ false
    far = ground arith

    count : c.dist_prefix / 2 ^ 10 ≡ nbits
    count = omega (arith, low)

    base : 16 + nd + x * 2 ^ p + r - nd - 16 ≡ r + x * 2 ^ p
    base = omega arith

    mask : bit_and (r + x * 2 ^ p) (2 ^ p - 1) ≡ (r + x * 2 ^ p) % 2 ^ p
    mask = bit_and_mask p _

    quotient : (r + x * 2 ^ p) / 2 ^ p ≡ x
    quotient = add-mul-div_right r x q_pos ∙ ap (λ (t : ℕ). t + x) (div-eq_of_lt hr) ∙ omega arith

    remainder : (r + x * 2 ^ p) % 2 ^ p ≡ r
    remainder = add-mul-mod_self_right r x (2 ^ p) ∙ mod-eq_of_lt hr

    last : bit_and x 1 ≡ x % 2
    last = bit_and_mask 1 x

    two : 2 * 1 ≤ 2 ^ nbits
    two = pow-le-pow_right {n = 2} (omega arith) {i = 1} range.0

    wide : 2 ^ nbits ≤ 2 ^ 24
    wide = pow-le-pow_right {n = 2} (omega arith) {j = 24} range.1

    top_least : 2 * 2 ≤ (2 + x % 2) * 2 ^ nbits
    top_least = let low_digit : 2 ≤ 2 + x % 2 = omega arith in mul-le-mul low_digit two

    top_most : (2 + x % 2) * 2 ^ nbits ≤ 3 * 2 ^ 24
    top_most = let high_digit : 2 + x % 2 ≤ 3 = omega arith in mul-le-mul high_digit wide

    wrapped : ((2 + x % 2) * 2 ^ nbits + 2 ^ 32 - 4) % 2 ^ 32 ≡ (2 + x % 2) * 2 ^ nbits - 4
    wrapped = omega (arith, top_least, top_most)

pub far_encode :
    (dc nd p : ℕ)
    → 16 + nd ≤ dc
    → prefix_encode_copy_distance dc nd p ≡ encode_parts nd p (2 ^ (p + 2) + (dc - 16 - nd))
unfolding prefix_encode_copy_distance
far_encode dc nd p h = ground arith

-- The arithmetic that undoes the split.
pub rejoin :
    (nd p dist : ℕ) (s : Split dist p (2 ^ p))
    → ((2 + (2 * (s.nbits - 1) + (s.top - 2)) % 2) * 2 ^ s.nbits - 4 + s.extra) * 2 ^ p
        + s.postfix
        + 2 ^ (p + 2)
      ≡ dist
rejoin nd p dist s = rw digit (omega (arith, pow-add p 2, ap (λ (t : ℕ). t * 2 ^ p) (sum four)))
  where
    digit : 2 + (2 * (s.nbits - 1) + (s.top - 2)) % 2 ≡ s.top
    digit = omega arith

    two : 2 * 1 ≤ 2 ^ s.nbits
    two = pow-le-pow_right {n = 2} (omega arith) {i = 1} s.nbits_range.0

    four : 2 * 2 ≤ s.top * 2 ^ s.nbits
    four = mul-le-mul s.top_range.0 two

    sum :
        2 * 2 ≤ s.top * 2 ^ s.nbits
        → s.top * 2 ^ s.nbits - 4 + s.extra + 4 ≡ s.top * 2 ^ s.nbits + s.extra
    sum h = omega arith

pub dist_above :
    (dc nd p : ℕ)
    → InRange dc nd p
    → p ≤ 3
    → 16 + nd ≤ dc
    → Split (2 ^ (p + 2) + (dc - 16 - nd)) p (2 ^ p)
dist_above dc nd p hc hp h = dist-Split _ p (omega arith) (omega arith) hp

restore :
    (nd p dist : ℕ) (s : Split dist p (2 ^ p)) (c : Command) {dc : ℕ}
    → c.dist_extra ≡ s.extra
    → dc + 2 ^ (p + 2) ≡ dist + nd + 16
    → dc < 2 ^ 32
    → (((2 + (2 * (s.nbits - 1) + (s.top - 2)) % 2) * 2 ^ s.nbits - 4 + c.dist_extra) * 2 ^ p
          + s.postfix
          + nd
          + 16)
        % 2 ^ 32
      ≡ dc
restore nd p dist s c e d h = rw e (omega (arith, rejoin nd p dist s))

near :
    (dc nd p : ℕ) (c : Command)
    → dc < 16 + nd
    → nd ≤ 120
    → (c.dist_prefix, c.dist_extra) ≡ prefix_encode_copy_distance dc nd p
    → distance_code c nd p ≡ dc
unfolding distance_code prefix_encode_copy_distance
near dc nd p c h hd e = ground (arith, bit_and_mask 10 c.dist_prefix)

-- The distance code can be read back from the packed prefix and the extra bits, for every valid
-- choice of parameters and every code up to their largest distance.
pub distance_code-prefix_encode :
    (dc nd p : ℕ) (c : Command)
    → p ≤ 3
    → nd ≤ 120
    → dc ≤ (init_distance_params p nd).max_distance + 15
    → (c.dist_prefix, c.dist_extra) ≡ prefix_encode_copy_distance dc nd p
    → distance_code c nd p ≡ dc
distance_code-prefix_encode dc nd p c hp hd hm e = elim (lt-cases dc (16 + nd)) [
  | inl short ↦ near dc nd p c short hd e
  | inr far ↦
      let dist = 2 ^ (p + 2) + (dc - 16 - nd) in
      let s = dist_above dc nd p hc hp far in
      let parts = e ∙ far_encode dc nd p far ∙ encode-Split nd p dist s hp hd in
      decode_fields c nd p s.nbits _ s.postfix hp hd (omega arith) s.postfix_lt s.nbits_range
        (ap (λ t. t.0) parts)
      ∙ restore nd p dist s c (ap (λ t. t.1) parts) (omega arith) (omega (arith, wide, hc))
]
  where
    wide : 2 ^ (p + 26) ≤ 2 ^ 29
    wide = pow-le-pow_right {n = 2} (omega arith) {j = 29} (omega arith)

    hc : InRange dc nd p
    hc = max_distance-InRange dc nd p hp hd hm

-- The distance symbol of every encoded distance lies in the alphabet of these parameters.
pub prefix_encode-lt-alphabet :
    (dc nd p : ℕ)
    → p ≤ 3
    → nd ≤ 120
    → dc ≤ (init_distance_params p nd).max_distance + 15
    → bit_and (prefix_encode_copy_distance dc nd p).0 0x3ff
      < (init_distance_params p nd).alphabet_size_limit
prefix_encode-lt-alphabet dc nd p hp hd hm = elim (lt-cases dc (16 + nd)) [
  | inl short ↦ omega (arith, near_symbol dc nd p short hd, alphabet_room nd p hp hd)
  | inr far ↦
      let s = dist_above dc nd p (max_distance-InRange dc nd p hp hd hm) hp far in
      let x = 2 * (s.nbits - 1) + (s.top - 2) in
      let parts = far_encode dc nd p far ∙ encode-Split nd p _ s hp hd in
      let low = symbol_lt nd p x s.postfix hp hd (omega arith) s.postfix_lt in
      let room : x * 2 ^ p ≤ 47 * 2 ^ p = mul-le-mul (omega arith) (le_refl _) in
      rw (ap (λ t. t.0) parts) (
        omega (
          arith,
          low,
          bit_and_mask 10 (s.nbits * 2 ^ 10 + (16 + nd + x * 2 ^ p + s.postfix)),
          s.postfix_lt,
          room,
          alphabet_room nd p hp hd,
        ))
]

simple_parts :
    (d : ℕ)
    → encode_parts 0 0 d ≡ (
        let bucket = bit_len d - 2 in
        let prefix = bit_and (d / 2 ^ bucket) 1 in
        (
          bit_or (bucket * 2 ^ 10) (16 + 2 * (bucket - 1) + prefix) % 2 ^ 16,
          (d - (2 + prefix) * 2 ^ bucket) % 2 ^ 32,
        ))
unfolding encode_parts
simple_parts d =
    let bucket = bit_len d - 2 in
    let prefix = bit_and (d / 2 ^ bucket) 1 in
    let extra = (d - (2 + prefix) * 2 ^ bucket) % 2 ^ 32 in
    rw (sub-zero, mul-one, div-one, bit_and_mask 0 d, mod-one)
      (ap {B = ℕ × ℕ} (λ (t : ℕ). (bit_or (bucket * 2 ^ 10) t % 2 ^ 16, extra)) (omega arith))

-- The specialisation for no direct codes and no postfix computes what the general function does.
pub prefix_encode_simple-copy :
    (dc : ℕ) → prefix_encode_simple_distance dc ≡ prefix_encode_copy_distance dc 0 0
unfolding prefix_encode_simple_distance
prefix_encode_simple-copy dc = elim (lt-cases dc 16) [
  | inl short ↦ unfold prefix_encode_copy_distance in ground arith
  | inr far ↦ rw (above far) (
      sym (simple_parts (4 + dc - 16))
      ∙ ap (encode_parts 0 0) {x = 4 + dc - 16} {y = 4 + (dc - 16 - 0)} (omega arith)
      ∙ sym (far_encode dc 0 0 far))
]
  where
    above : 16 ≤ dc → ltb dc 16 ≡ false
    above far = ground arith
