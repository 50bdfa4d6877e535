-- ===== src/Distance/Lut.antt =====
-- The table of calculateDistanceLut of decode.go: every code's entry.
use native.Mathlib.Nat.{one-le-pow, suc-mul, mul-le-mul, le_refl}
use go_brrr.Prelude.{
  ℕ, zero, suc, ◌+◌, ◌-◌, ◌*◌, ◌/◌, ◌%◌, ◌^◌, ◌≤◌, ◌<◌, ◌≡◌, arith, ap, subst, ltb, ◌==◌, true,
  false, Bool-cases, inl, inr, lt-cases,
}
use go_brrr.CodeLengths.Decode.{update}
use go_brrr.Distance.{DistanceLut, put_code, fill_codes, fill_regular, calculate_distance_lut}

-- A code's number of extra bits and its offset.
pub record Entry (lut : DistanceLut) (code bits offset : ℕ) : Type 0 where
  pub bits_is : lut.dist_extra_bits code ≡ bits
  pub offset_is : lut.dist_offset code ≡ offset

put_code-at :
    (i bits offset : ℕ) (lut : DistanceLut) → Entry (put_code i bits offset lut) i bits offset
unfolding put_code update
put_code-at i bits offset lut = record { bits_is = ground arith; offset_is = ground arith }

put_code-other :
    (i bits offset b o k : ℕ) (lut : DistanceLut)
    → k < i
    → Entry lut k b o
    → Entry (put_code i bits offset lut) k b o
unfolding put_code update
put_code-other i bits offset b o k lut h e =
    let other : (i == k) ≡ false = ground (arith, h) in
    record { bits_is = rw other e.bits_is; offset_is = rw other e.offset_is }

fill_codes-other :
    (left i bits offset b o k : ℕ) (lut : DistanceLut)
    → k < i
    → Entry lut k b o
    → Entry (fill_codes left i bits offset lut) k b o
unfolding fill_codes
fill_codes-other zero i bits offset b o k lut h e = e
fill_codes-other (suc left) i bits offset b o k lut h e =
    fill_codes-other left (i + 1) bits (offset + 1) b o k (put_code i bits offset lut) (omega arith)
      (put_code-other i bits offset b o k lut h e)

fill_codes-at :
    (left i bits offset r : ℕ) (lut : DistanceLut)
    → r < left
    → Entry (fill_codes left i bits offset lut) (i + r) bits (offset + r)
unfolding fill_codes
fill_codes-at zero i bits offset r lut h = absurd (omega (arith, h))
fill_codes-at (suc left) i bits offset zero lut h =
    let same : i + 0 ≡ i = omega arith in
    let first : offset + 0 ≡ offset = omega arith in
    rw (same, first)
      (fill_codes-other left (i + 1) bits (offset + 1) bits offset i (put_code i bits offset lut)
        (omega arith) (put_code-at i bits offset lut))
fill_codes-at (suc left) i bits offset (suc r) lut h =
    let same : i + suc r ≡ i + 1 + r = omega arith in
    let next : offset + suc r ≡ offset + 1 + r = omega arith in
    rw (same, next)
      (fill_codes-at left (i + 1) bits (offset + 1) r (put_code i bits offset lut)
        (omega (arith, h)))

fill_regular-other :
    (fuel nd p limit i bits half b o k : ℕ) (lut : DistanceLut)
    → k < i
    → Entry lut k b o
    → Entry (fill_regular fuel nd p limit i bits half lut) k b o
unfolding fill_regular
fill_regular-other zero nd p limit i bits half b o k lut h e = e
fill_regular-other (suc fuel) nd p limit i bits half b o k lut h e =
    elim (Bool-cases (ltb i limit)) [
      | inr done ↦ rw (done, fill_regular) e
      | inl more ↦
          let base = nd + ((2 + half) * 2 ^ bits - 4) * 2 ^ p + 1 in
          rw (more, fill_regular)
            (fill_regular-other fuel nd p limit (i + 2 ^ p) (bits + half) ((half + 1) % 2) b o k
              (fill_codes (2 ^ p) i (bits % 2 ^ 8) base lut) (omega (arith, h))
              (fill_codes-other (2 ^ p) i (bits % 2 ^ 8) base b o k lut h e))
    ]

-- The group x of codes, when the loop is at the group y.
fill_regular-at :
    (fuel nd p limit x y r : ℕ) (lut : DistanceLut)
    → y ≤ x
    → x < y + fuel
    → x ≤ 47
    → r < 2 ^ p
    → 16 + nd + x * 2 ^ p + r < limit
    → Entry
        (fill_regular fuel nd p limit (16 + nd + y * 2 ^ p) (1 + y / 2) (y % 2) lut)
        (16 + nd + x * 2 ^ p + r)
        (1 + x / 2)
        (nd + ((2 + x % 2) * 2 ^ (1 + x / 2) - 4) * 2 ^ p + 1 + r)
unfolding fill_regular
fill_regular-at zero nd p limit x y r lut le f small h lt = absurd (omega (arith, le, f))
fill_regular-at (suc fuel) nd p limit x y r lut le f small h lt = elim (lt-cases y x) [
  | inl later ↦
      let group : 16 + nd + y * 2 ^ p + 2 ^ p ≡ 16 + nd + suc y * 2 ^ p =
        omega (arith, suc-mul y (2 ^ p)) in
      let mono : suc y * 2 ^ p ≤ x * 2 ^ p = mul-le-mul later (le_refl (2 ^ p)) in
      let more : ltb (16 + nd + y * 2 ^ p) limit ≡ true =
        ground (arith, lt, mono, suc-mul y (2 ^ p)) in
      let bits : 1 + y / 2 + y % 2 ≡ 1 + suc y / 2 = omega arith in
      let half : (y % 2 + 1) % 2 ≡ suc y % 2 = omega arith in
      rw (more, fill_regular)
        (rw (group, bits, half)
          (fill_regular-at fuel nd p limit x (suc y) r _ (omega (arith, later)) (omega (arith, f))
            small h lt))
  | inr now ↦
      let same : x ≡ y = omega (arith, le, now) in
      let base = nd + ((2 + y % 2) * 2 ^ (1 + y / 2) - 4) * 2 ^ p + 1 in
      let i = 16 + nd + y * 2 ^ p in
      let more : ltb i limit ≡ true = ground (arith, lt, ap (λ z. z * 2 ^ p) same) in
      let byte : (1 + y / 2) % 2 ^ 8 ≡ 1 + y / 2 = omega (arith, small, same) in
      rw same (
        rw (more, fill_regular)
          (fill_regular-other fuel nd p limit (i + 2 ^ p) (1 + y / 2 + y % 2) ((y % 2 + 1) % 2)
            (1 + y / 2) (base + r) (i + r) (fill_codes (2 ^ p) i ((1 + y / 2) % 2 ^ 8) base lut)
            (omega (arith, h)) (rw byte (fill_codes-at (2 ^ p) i (1 + y / 2) base r lut h))))
]

pub direct-Entry :
    (nd p limit j : ℕ) (lut : DistanceLut)
    → j < nd
    → Entry (calculate_distance_lut p nd limit lut) (16 + j) 0 (1 + j)
unfolding calculate_distance_lut
direct-Entry nd p limit j lut h =
    fill_regular-other limit nd p limit (16 + nd) 1 0 0 (1 + j) (16 + j) (fill_codes nd 16 0 1 lut)
      (omega (arith, h)) (fill_codes-at nd 16 0 1 j lut h)

pub regular-Entry :
    (nd p limit x r : ℕ) (lut : DistanceLut)
    → x ≤ 47
    → r < 2 ^ p
    → 16 + nd + x * 2 ^ p + r < limit
    → Entry
        (calculate_distance_lut p nd limit lut)
        (16 + nd + x * 2 ^ p + r)
        (1 + x / 2)
        (nd + ((2 + x % 2) * 2 ^ (1 + x / 2) - 4) * 2 ^ p + 1 + r)
unfolding calculate_distance_lut
regular-Entry nd p limit x r lut small h lt =
    let first : 16 + nd + 0 * 2 ^ p ≡ 16 + nd = omega arith in
    let least : x * 1 ≤ x * 2 ^ p = mul-le-mul (le_refl x) (one-le-pow p 2 (omega arith)) in
    let old = fill_codes nd 16 0 1 lut in
    subst
      (λ (t : DistanceLut).
        Entry t (16 + nd + x * 2 ^ p + r) (1 + x / 2)
          (nd + ((2 + x % 2) * 2 ^ (1 + x / 2) - 4) * 2 ^ p + 1 + r))
      (ap (λ (i : ℕ). fill_regular limit nd p limit i 1 0 old) first)
      (fill_regular-at limit nd p limit x 0 r old (omega arith) (omega (arith, least, lt)) small h
        lt)
