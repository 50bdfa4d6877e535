-- ===== src/Distance/Symbol.antt =====
-- Distance symbols: readDistance of decode.go undoes prefixEncodeCopyDistance of
-- internal/encoder/command.go.
use native.Mathlib.Nat.{mod-eq_of_lt, add-mul-mod_self_right, mul-le-mul, le_refl, add-mul}
use go_brrr.Prelude.{
  ℕ, ◌+◌, ◌-◌, ◌*◌, ◌/◌, ◌%◌, ◌^◌, ◌≤◌, ◌<◌, ◌≡◌, refl, arith, ap, sym, ◌∙◌, ltb, true, false, inl,
  inr, lt-cases, bit_and, subst,
}
use go_brrr.Prelude.BitOps.{bit_and_mask}
use go_brrr.DistanceParams.{init_distance_params}
use go_brrr.Commands.{prefix_encode_copy_distance}
use go_brrr.Commands.DistanceSplit.{symbol_lt, encode-Split}
use go_brrr.Commands.Distances.{
  max_distance-InRange, alphabet_room, near_symbol, far_encode, rejoin, dist_above,
}
use go_brrr.Distance.{Ring, DistanceLut, read_distance, calculate_distance_lut}
use go_brrr.Distance.Code.{receive_distance}
use go_brrr.Distance.Lut.{Entry, direct-Entry, regular-Entry}

-- The symbol of a distance code, and the reader's bits from its extra bits on, with what follows.
abbrev pub symbol_of : ℕ → ℕ → ℕ → ℕ
symbol_of code nd p = bit_and (prefix_encode_copy_distance code nd p).0 0x3ff

abbrev pub bits_of : ℕ → ℕ → ℕ → ℕ → ℕ
bits_of code nd p next =
    let (prefix, extra) = prefix_encode_copy_distance code nd p in
    extra + next * 2 ^ (prefix / 2 ^ 10)

-- The decoder's table for the encoder's parameters.
abbrev pub table_of : ℕ → ℕ → DistanceLut → DistanceLut
table_of nd p lut = calculate_distance_lut p nd (init_distance_params p nd).alphabet_size_limit lut

-- An entry and the bits that follow its symbol.
read-Entry :
    (lut : DistanceLut) (p symbol nbits offset extra next : ℕ) (r : Ring)
    → 16 ≤ symbol
    → Entry lut symbol nbits offset
    → extra < 2 ^ nbits
    → read_distance lut p symbol (extra + next * 2 ^ nbits) r
      ≡ (offset + extra * 2 ^ p, record r { context = 0 })
unfolding read_distance
read-Entry lut p symbol nbits offset extra next r h e lt =
    let long : ltb symbol 16 ≡ false = ground (arith, h) in
    let field : bit_and (extra + next * 2 ^ nbits) (2 ^ nbits - 1) ≡ extra =
      bit_and_mask nbits (extra + next * 2 ^ nbits)
      ∙ add-mul-mod_self_right extra next (2 ^ nbits)
      ∙ mod-eq_of_lt lt in
    rw (long, e.bits_is, e.offset_is, field) refl

explicit-receive :
    (code : ℕ) (r : Ring)
    → 16 ≤ code
    → receive_distance r code ≡ (code - 15, record r { context = 0 })
unfolding receive_distance
explicit-receive code r h = let more : ltb code 16 ≡ false = ground (arith, h) in rw more refl

short-receive :
    (lut : DistanceLut) (code p val : ℕ) (r : Ring)
    → code < 16
    → read_distance lut p code val r ≡ receive_distance r code
unfolding read_distance receive_distance
short-receive lut code p val r h = let less : ltb code 16 ≡ true = ground (arith, h) in rw less refl

near-bits :
    (code nd p next : ℕ) → nd ≤ 120 → code < 16 + nd → bits_of code nd p next ≡ 0 + next * 2 ^ 0
unfolding prefix_encode_copy_distance
near-bits code nd p next hd h =
    let less : ltb code (16 + nd) ≡ true = ground (arith, h) in
    let none : code % 2 ^ 16 / 2 ^ 10 ≡ 0 = omega (arith, h, hd) in rw (less, none) refl

read_near :
    (code nd p next : ℕ) (lut : DistanceLut) (r : Ring)
    → nd ≤ 120
    → code < 16 + nd
    → read_distance (table_of nd p lut) p (symbol_of code nd p) (bits_of code nd p next) r
      ≡ receive_distance r code
read_near code nd p next lut r hd h =
    let symbol : symbol_of code nd p ≡ code = near_symbol code nd p h hd in
    let bits : bits_of code nd p next ≡ 0 + next * 2 ^ 0 = near-bits code nd p next hd h in
    elim (lt-cases code 16) [
      | inl short ↦
          rw symbol (short-receive (table_of nd p lut) code p (bits_of code nd p next) r short)
      | inr long ↦
          let j = code - 16 in
          let at : 16 + j ≡ code = omega (arith, long) in
          let entry =
            direct-Entry nd p (init_distance_params p nd).alphabet_size_limit j lut
              (omega (arith, h, long)) in
          let value : 1 + j + 0 * 2 ^ p ≡ code - 15 = omega (arith, at) in
          rw (symbol, bits)
            (ap (λ (k : ℕ). read_distance (table_of nd p lut) p k (0 + next * 2 ^ 0) r) (sym at)
              ∙ read-Entry (table_of nd p lut) p (16 + j) 0 (1 + j) 0 next r (omega arith) entry
                  (omega arith)
              ∙ ap (λ (d : ℕ). (d, record r { context = 0 })) value
              ∙ sym (explicit-receive code r long))
    ]

read_far :
    (code nd p next : ℕ) (lut : DistanceLut) (r : Ring)
    → p ≤ 3
    → nd ≤ 120
    → code ≤ (init_distance_params p nd).max_distance + 15
    → 16 + nd ≤ code
    → read_distance (table_of nd p lut) p (symbol_of code nd p) (bits_of code nd p next) r
      ≡ receive_distance r code
read_far code nd p next lut r hp hd hm far =
    let dist = 2 ^ (p + 2) + (code - 16 - nd) in
    let s = dist_above code nd p (max_distance-InRange code nd p hp hd hm) hp far in
    let x = 2 * (s.nbits - 1) + (s.top - 2) in
    let k = 16 + nd + x * 2 ^ p + s.postfix in
    let offset = nd + ((2 + x % 2) * 2 ^ (1 + x / 2) - 4) * 2 ^ p + 1 + s.postfix in
    let parts : prefix_encode_copy_distance code nd p ≡ (s.nbits * 2 ^ 10 + k, s.extra) =
      far_encode code nd p far ∙ encode-Split nd p dist s hp hd in
    let low : k < 2 ^ 10 =
      symbol_lt nd p x s.postfix hp hd (omega (arith, s.nbits_range, s.top_range)) s.postfix_lt in
    let symbol : symbol_of code nd p ≡ k =
      ap (λ (t : ℕ × ℕ). bit_and t.0 0x3ff) parts
      ∙ omega (arith, low, bit_and_mask 10 (s.nbits * 2 ^ 10 + k)) in
    let count : (s.nbits * 2 ^ 10 + k) / 2 ^ 10 ≡ s.nbits = omega (arith, low) in
    let bits : bits_of code nd p next ≡ s.extra + next * 2 ^ s.nbits =
      ap (λ (t : ℕ × ℕ). t.1 + next * 2 ^ (t.0 / 2 ^ 10)) parts
      ∙ ap (λ (n : ℕ). s.extra + next * 2 ^ n) count in
    let group : 1 + x / 2 ≡ s.nbits = omega (arith, s.nbits_range, s.top_range) in
    let room : x * 2 ^ p ≤ 47 * 2 ^ p =
      mul-le-mul (omega (arith, s.nbits_range, s.top_range)) (le_refl (2 ^ p)) in
    let entry : Entry (table_of nd p lut) k s.nbits offset =
      subst (λ (n : ℕ). Entry (table_of nd p lut) k n offset) group
        (regular-Entry nd p (init_distance_params p nd).alphabet_size_limit x s.postfix lut
          (omega (arith, s.nbits_range, s.top_range)) s.postfix_lt
          (omega (arith, alphabet_room nd p hp hd, room, s.postfix_lt))) in
    let digits = (2 + x % 2) * 2 ^ s.nbits - 4 in
    let same : ((2 + x % 2) * 2 ^ (1 + x / 2) - 4) * 2 ^ p ≡ digits * 2 ^ p =
      ap (λ (n : ℕ). ((2 + x % 2) * 2 ^ n - 4) * 2 ^ p) group in
    let value : offset + s.extra * 2 ^ p ≡ code - 15 =
      omega (arith, same, add-mul digits s.extra (2 ^ p), rejoin nd p dist s, far) in
    rw (symbol, bits)
      (read-Entry (table_of nd p lut) p k s.nbits offset s.extra next r (omega arith) entry
          s.extra_lt
        ∙ ap (λ (d : ℕ). (d, record r { context = 0 })) value
        ∙ sym (explicit-receive code r (omega (arith, far))))

-- The decoder takes the distance of a symbol and its extra bits, as the code says.
pub read_distance-prefix_encode :
    (code nd p next : ℕ) (lut : DistanceLut) (r : Ring)
    → p ≤ 3
    → nd ≤ 120
    → code ≤ (init_distance_params p nd).max_distance + 15
    → read_distance (table_of nd p lut) p (symbol_of code nd p) (bits_of code nd p next) r
      ≡ receive_distance r code
read_distance-prefix_encode code nd p next lut r hp hd hm = elim (lt-cases code (16 + nd)) [
  | inl near ↦ read_near code nd p next lut r hd near
  | inr far ↦ read_far code nd p next lut r hp hd hm far
]
