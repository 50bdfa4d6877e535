-- ===== src/BitWriter/Align.antt =====
-- byteAlign and writeBytes of internal/encoder/bitwriter.go, on the stream written so far.
use go_brrr.Prelude.{
  ℕ, ◌+◌, ◌-◌, ◌*◌, ◌/◌, ◌%◌, ◌^◌, ◌≤◌, ◌<◌, ◌≡◌, refl, List, [], ◌∷◌, ◌++◌, length, drop, take,
  arith, true, sym, ap, ◌∙◌, append_assoc, append-nil, some, length-append, ltb, inl, inr, lt-cases,
  ap₂,
}
use native.Mathlib.Nat.{mod-eq_of_lt, div-eq_of_lt}
use go_brrr.Prelude.BitStream.{
  to_bits, length-to_bits, length-stream, stream, to_bits-split, stream-append, take_exact,
}
use go_brrr.BitWriter.{BitWriter, byte_align, write_bytes}
use go_brrr.BitWriter.Written.{Written}

-- The clear bits after n bits, up to the next byte.
unfoldable pub padding : ℕ → ℕ
padding n = (8 - n % 8) % 8

-- The bytes before the aligned position hold what was written, and clear bits.
Aligned : BitWriter → List ℕ → Type 0
Aligned b bits =
    (front : List ℕ) × (back : List ℕ) × (b.buf ≡ front ++ back)
    × ((byte_align b).bit_offset ≡ 8 * length front)
    × (stream front ≡ bits ++ to_bits (padding (length bits)) 0)

last_byte :
    (r last : ℕ) → r < 8 → last < 2 ^ r → to_bits 8 last ≡ to_bits r last ++ to_bits (8 - r) 0
last_byte r last h l =
    let small : last % 2 ^ r ≡ last = mod-eq_of_lt l in
    let clear : last / 2 ^ r ≡ 0 = div-eq_of_lt l in
    to_bits-split r 8 last (omega arith) ∙ rw (small, clear) refl

Written-length :
    (b : BitWriter) (bits : List ℕ) (w : Written b bits) → length bits ≡ 8 * length w.done + w.r
Written-length b bits w =
    ap length w.written
    ∙ length-append (stream w.done) (to_bits w.r w.last)
    ∙ ap₂ (λ (x y : ℕ). x + y) (length-stream w.done) (length-to_bits w.r w.last)

align-Written : (b : BitWriter) (bits : List ℕ) → Written b bits → Aligned b bits
unfolding Aligned byte_align padding
align-Written b bits w =
    let total = Written-length b bits w in
    elim (lt-cases 0 w.r) [
      | inr nil ↦
          let clear : w.r ≡ 0 = omega arith in
          let pad : (8 - length bits % 8) % 8 ≡ 0 = omega (arith, total, clear) in
          (
            w.done,
            w.last ∷ w.rest,
            w.buffer,
            omega (arith, w.offset, clear),
            sym (
                rw (pad, w.written, clear)
                  (unfold to_bits in
                    append-nil (stream w.done ++ []) ∙ append-nil (stream w.done))),
          )
      | inl part ↦
          let pad : (8 - length bits % 8) % 8 ≡ 8 - w.r = omega (arith, total, part, w.r_lt) in
          (
            w.done ++ (w.last ∷ []),
            w.rest,
            w.buffer ∙ sym (append_assoc w.done (w.last ∷ []) w.rest),
            omega (arith, w.offset, w.r_lt, part, length-append w.done (w.last ∷ [])),
            rw pad (
                stream-append w.done (w.last ∷ [])
                ∙ ap (λ (l : List ℕ). stream w.done ++ l)
                    (one_byte w.last ∙ last_byte w.r w.last w.r_lt w.last_lt)
                ∙ sym (append_assoc (stream w.done) (to_bits w.r w.last) (to_bits (8 - w.r) 0))
                ∙ ap (λ (l : List ℕ). l ++ to_bits (8 - w.r) 0) (sym w.written)),
          )
    ]
  where
    one_byte : (x : ℕ) → stream (x ∷ []) ≡ to_bits 8 x
    one_byte x = unfold stream in append-nil (to_bits 8 x)

-- After byteAlign, writeBytes appends clear bits up to the next byte and then the bytes, and leaves
-- the buffer as the next write needs it, when the buffer has room for one byte more.
pub write_bytes-Written :
    (b : BitWriter) (bits bytes : List ℕ)
    → Written b bits
    → b.bit_offset + 8 * length bytes + 16 ≤ 8 * length b.buf
    → (b' : BitWriter) × (write_bytes bytes (byte_align b) ≡ some b')
      × Written b' (bits ++ (to_bits (padding (length bits)) 0 ++ stream bytes))
unfolding write_bytes Aligned
write_bytes-Written b bits bytes w h =
    let (front, back, buffer, offset, shown) = align-Written b bits w in
    let at : (byte_align b).bit_offset / 8 ≡ length front = omega (arith, offset) in
    let near : (byte_align b).bit_offset ≤ b.bit_offset + 7 = unfold byte_align in omega arith in
    let same : (byte_align b).buf ≡ b.buf = unfold byte_align in refl in
    let before : take (length front) b.buf ≡ front =
      ap (take (length front)) buffer ∙ take_exact (length front) front back refl in
    let room : ltb (length front + length bytes) (length b.buf) ≡ true =
      ground (arith, offset, near, h) in
    (
      record {
        buf = (front ++ bytes) ++ (0 ∷ drop (length front + length bytes + 1) b.buf);
        bit_offset = (byte_align b).bit_offset + length bytes * 8;
      },
      rw (same, at, room, before)
          (ap
            (λ (l : List ℕ).
              some record { buf = l; bit_offset = (byte_align b).bit_offset + length bytes * 8 })
            (sym (append_assoc front bytes (0 ∷ drop (length front + length bytes + 1) b.buf)))),
      record {
        done = front ++ bytes;
        last = 0;
        rest = drop (length front + length bytes + 1) b.buf;
        r = 0;
        buffer = refl;
        offset = omega (arith, offset, length-append front bytes);
        r_lt = omega arith;
        last_lt = omega arith;
        written =
            sym (append_assoc bits (to_bits (padding (length bits)) 0) (stream bytes))
            ∙ ap (λ (l : List ℕ). l ++ stream bytes) (sym shown)
            ∙ sym (stream-append front bytes)
            ∙ sym (unfold to_bits in append-nil (stream (front ++ bytes)));
      },
    )
