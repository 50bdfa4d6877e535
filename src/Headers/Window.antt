-- ===== src/Headers/Window.antt =====
-- encodeWindowBits, read back by decodeWindowBits.
use go_brrr.Prelude.{
  ℕ, ◌+◌, ◌-◌, ◌*◌, ◌^◌, ◌≤◌, ◌<◌, ◌≡◌, refl, List, ◌++◌, arith, ap, sym, ◌∙◌, some, ltb, ◌==◌,
  true, false, ◌%◌, bit_or, subst, Bool-cases, inl, inr, append_assoc,
}
use go_brrr.Prelude.BitStream.{to_bits, to_bits-add}
use go_brrr.Prelude.BitOps.{shifted-bit_or}
use go_brrr.BitReader.{BitReader, take_bits, drop_bits}
use go_brrr.BitReader.Unread.{unread, IsReader, take_bits-unread}
use go_brrr.BitReader.Read.{same_bits}
use go_brrr.Headers.{encode_window_bits, decode_window_bits}

-- A field of the accumulator.
take_field :
    (n v : ℕ) (rest : List ℕ) (br : BitReader)
    → IsReader br
    → n ≤ br.bit_pos
    → n < 64
    → v < 2 ^ n
    → unread br ≡ to_bits n v ++ rest
    → let (x, br') = take_bits n br in
      (x ≡ v) × IsReader br' × (unread br' ≡ rest) × (br'.bit_pos ≡ br.bit_pos - n)
unfolding take_bits drop_bits
take_field n v rest br w h lt small e =
    let (bound, u, w', i) = take_bits-unread n br w h lt in
    let (same, tail) =
      same_bits n v (take_bits n br).0 rest (unread (take_bits n br).1) small bound (sym e ∙ u) in
    (sym same, w', sym tail, left)
  where
    left : (take_bits n br).1.bit_pos ≡ br.bit_pos - n
    left = omega (arith, h, lt, w.room)

-- The three forms of the header, by the fields that they hold.
module _ (br : BitReader) (rest : List ℕ) (w : IsReader br) (seven : 7 ≤ br.bit_pos) where
  abbrev Gives : ℕ → Type 0
  Gives lgwin = ((decode_window_bits br).0 ≡ some lgwin) × (unread (decode_window_bits br).1 ≡ rest)

  short_form : unread br ≡ to_bits 1 0 ++ rest → Gives 16
  unfolding decode_window_bits
  short_form e =
      let (x, w1, u1, b1) = take_field 1 0 rest br w (omega arith) (omega arith) (omega arith) e in
      rw x (refl, u1)

  large_form :
      (n : ℕ) → 0 < n → n < 8 → unread br ≡ to_bits 1 1 ++ (to_bits 3 n ++ rest) → Gives (17 + n)
  unfolding decode_window_bits
  large_form n p h e =
      let (x, w1, u1, b1) = take_field 1 1 _ br w (omega arith) (omega arith) (omega arith) e in
      let (y, w2, u2, b2) = take_field 3 n rest _ w1 (omega arith) (omega arith) h u1 in
      let some_n : (n == 0) ≡ false = ground arith in
      let small : (17 + n) % 64 ≡ 17 + n = omega arith in
      rw x (rw y (rw (some_n, small) (refl, u2)))

  small_form :
      (n : ℕ)
      → 1 < n
      → n < 8
      → unread br ≡ to_bits 1 1 ++ (to_bits 3 0 ++ (to_bits 3 n ++ rest))
      → Gives (8 + n)
  unfolding decode_window_bits
  small_form n p h e =
      let (x, w1, u1, b1) = take_field 1 1 _ br w (omega arith) (omega arith) (omega arith) e in
      let (y, w2, u2, b2) = take_field 3 0 _ _ w1 (omega arith) (omega arith) (omega arith) u1 in
      let (z, w3, u3, b3) = take_field 3 n rest _ w2 (omega arith) (omega arith) h u2 in
      let not_zero : (n == 0) ≡ false = ground arith in
      let not_one : (n == 1) ≡ false = ground arith in
      let small : (8 + n) % 64 ≡ 8 + n = omega arith in
      rw x (rw y (rw z (rw (not_one, not_zero, small) (refl, u3))))

  seventeen_form : unread br ≡ to_bits 1 1 ++ (to_bits 3 0 ++ (to_bits 3 0 ++ rest)) → Gives 17
  unfolding decode_window_bits
  seventeen_form e =
      let (x, w1, u1, b1) = take_field 1 1 _ br w (omega arith) (omega arith) (omega arith) e in
      let (y, w2, u2, b2) = take_field 3 0 _ _ w1 (omega arith) (omega arith) (omega arith) u1 in
      let (z, w3, u3, b3) = take_field 3 0 rest _ w2 (omega arith) (omega arith) (omega arith) u2 in
      rw x (rw y (rw z (refl, u3)))

large_bits : (n : ℕ) → to_bits 4 (bit_or (n * 2) 1) ≡ to_bits 1 1 ++ to_bits 3 n
large_bits n =
    let value : bit_or (n * 2) 1 ≡ 1 + n * 2 = shifted-bit_or 1 n 1 (omega arith) ∙ omega arith in
    ap (to_bits 4) value ∙ to_bits-add 1 3 1 n (omega arith)

small_bits :
    (n : ℕ) → to_bits 7 (bit_or (n * 2 ^ 4) 1) ≡ to_bits 1 1 ++ (to_bits 3 0 ++ to_bits 3 n)
small_bits n =
    let value : bit_or (n * 2 ^ 4) 1 ≡ 1 + (0 + n * 2 ^ 3) * 2 =
      shifted-bit_or 4 n 1 (omega arith) ∙ omega arith in
    ap (to_bits 7) value
    ∙ to_bits-add 1 6 1 (0 + n * 2 ^ 3) (omega arith)
    ∙ ap (λ (t : List ℕ). to_bits 1 1 ++ t) (to_bits-add 3 3 0 n (omega arith))

-- For every window of 10 to 24 bits, decodeWindowBits returns the number of bits that
-- encodeWindowBits wrote at the head of the stream, and leaves the bits that follow.
pub decode-encode_window_bits :
    (lgwin : ℕ) (br : BitReader) (rest : List ℕ)
    → 10 ≤ lgwin
    → lgwin ≤ 24
    → IsReader br
    → 7 ≤ br.bit_pos
    → unread br ≡ to_bits (encode_window_bits lgwin).1 (encode_window_bits lgwin).0 ++ rest
    → ((decode_window_bits br).0 ≡ some lgwin) × (unread (decode_window_bits br).1 ≡ rest)
unfolding encode_window_bits
decode-encode_window_bits lgwin br rest lo hi w seven e = elim (Bool-cases (lgwin == 16)) [
  | inl a ↦
      let is : 16 ≡ lgwin = ground arith in
      subst (Gives br rest w seven) is (short_form br rest w seven (sixteen a))
  | inr a ↦ elim (Bool-cases (lgwin == 17)) [
    | inl b ↦
        let is : 17 ≡ lgwin = ground arith in
        subst (Gives br rest w seven) is (seventeen_form br rest w seven (seventeen a b))
    | inr b ↦ elim (Bool-cases (ltb 17 lgwin)) [
      | inl c ↦
          let is : 17 + (lgwin - 17) ≡ lgwin = ground arith in
          subst (Gives br rest w seven) is
            (large_form br rest w seven (lgwin - 17) (ground arith) (ground arith) (large a b c))
      | inr c ↦
          let is : 8 + (lgwin - 8) ≡ lgwin = omega arith in
          subst (Gives br rest w seven) is
            (small_form br rest w seven (lgwin - 8) (ground arith) (ground arith) (small a b c))
    ]
  ]
]
  where
    sixteen : (lgwin == 16) ≡ true → unread br ≡ to_bits 1 0 ++ rest
    sixteen a = e ∙ rw a refl

    seventeen :
        (lgwin == 16) ≡ false
        → (lgwin == 17) ≡ true
        → unread br ≡ to_bits 1 1 ++ (to_bits 3 0 ++ (to_bits 3 0 ++ rest))
    seventeen a b = e ∙ rw (a, b) (unfold to_bits in refl)

    large :
        (lgwin == 16) ≡ false
        → (lgwin == 17) ≡ false
        → ltb 17 lgwin ≡ true
        → unread br ≡ to_bits 1 1 ++ (to_bits 3 (lgwin - 17) ++ rest)
    large a b c =
        e
        ∙ rw (a, b, c)
            (ap (λ (t : List ℕ). t ++ rest) (large_bits (lgwin - 17))
              ∙ append_assoc (to_bits 1 1) (to_bits 3 (lgwin - 17)) rest)

    small :
        (lgwin == 16) ≡ false
        → (lgwin == 17) ≡ false
        → ltb 17 lgwin ≡ false
        → unread br ≡ to_bits 1 1 ++ (to_bits 3 0 ++ (to_bits 3 (lgwin - 8) ++ rest))
    small a b c =
        e
        ∙ rw (a, b, c)
            (ap (λ (t : List ℕ). t ++ rest) (small_bits (lgwin - 8))
              ∙ append_assoc (to_bits 1 1) (to_bits 3 0 ++ to_bits 3 (lgwin - 8)) rest
              ∙ ap (λ (t : List ℕ). to_bits 1 1 ++ t)
                  (append_assoc (to_bits 3 0) (to_bits 3 (lgwin - 8)) rest))
