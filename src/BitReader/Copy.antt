-- ===== src/BitReader/Copy.antt =====
-- jumpToByteBoundary and copyBytes of bitreader.go, on the stream of bits that is left.
use go_brrr.Prelude.{
  ℕ, zero, suc, ◌+◌, ◌-◌, ◌*◌, ◌%◌, ◌^◌, ◌≤◌, ◌<◌, ◌≡◌, refl, List, ◌++◌, length, drop, take, arith,
  true, false, sym, ap, ◌∙◌, append_assoc, some, leb, leb→le, ltb, ltb→lt, ◌==◌, ==_iff, ◌⊎◌, inl,
  inr, All, All-append, All-take, All-drop, Bool-cases, bit_and, length-append, length-take,
  length-drop, drop-drop, take-append-drop, ap₂,
}
use native.Mathlib.Nat.{mod-eq_of_lt}
use go_brrr.Prelude.BitOps.{bit_and_mask}
use go_brrr.Prelude.BitStream.{to_bits, stream, stream-append, length-stream}
use go_brrr.BitReader.{
  BitReader, bit_mask, drop_bits, take_bits, normalize, jump_to_byte_boundary, drain, copy_bytes,
}
use go_brrr.BitReader.Unread.{unread, IsReader, take_bits-unread}

-- A reader between two reads has no stray bits to clear.
pub normalize-same : (br : BitReader) → IsReader br → normalize br ≡ br
unfolding normalize bit_mask
normalize-same br v = elim (Bool-cases (ltb br.bit_pos 64)) [
  | inl e ↦
      let small : br.bit_pos % 64 ≡ br.bit_pos = omega (arith, ltb→lt _ _ e) in
      let held : bit_and br.val (2 ^ br.bit_pos - 1) ≡ br.val =
        bit_and_mask br.bit_pos br.val ∙ mod-eq_of_lt v.held in
      rw (e, small, held) refl
  | inr e ↦ rw e refl
]

-- After the jump the reader holds whole bytes.
unfoldable pub IsAligned : BitReader → Type 0
IsAligned br = br.bit_pos % 8 ≡ 0

drop_bits-bit_pos :
    (n : ℕ) (br : BitReader)
    → n ≤ br.bit_pos
    → br.bit_pos ≤ 64
    → (drop_bits n br).bit_pos ≡ br.bit_pos - n
unfolding drop_bits
drop_bits-bit_pos n br h b = omega arith

-- The jump drops the bits up to the next byte, and tells whether they are clear.
pub jump_to_byte_boundary-unread :
    (br : BitReader)
    → IsReader br
    → (x : ℕ) × (br' : BitReader) × (jump_to_byte_boundary br ≡ ((x == 0), br'))
      × (x < 2 ^ (br.bit_pos % 8))
      × (unread br ≡ to_bits (br.bit_pos % 8) x ++ unread br')
      × IsReader br'
      × IsAligned br'
unfolding jump_to_byte_boundary IsAligned
jump_to_byte_boundary-unread br v =
    let low : bit_and br.bit_pos 7 ≡ br.bit_pos % 8 = bit_and_mask 3 br.bit_pos in
    elim (Bool-cases (br.bit_pos % 8 == 0)) [
      | inl e ↦
          let none : br.bit_pos % 8 ≡ 0 = (==_iff _ _).0 e in
          (
            0,
            br,
            rw (low, e, normalize-same br v) refl,
            rw none (omega arith),
            rw none (unfold to_bits in refl),
            v,
            none,
          )
      | inr e ↦
          let (lt, split, next, same) =
            take_bits-unread (br.bit_pos % 8) br v (omega arith) (omega arith) in
          (
            (take_bits (br.bit_pos % 8) br).0,
            (take_bits (br.bit_pos % 8) br).1,
            rw (low, e, normalize-same _ next) refl,
            lt,
            split,
            next,
            unfold take_bits in
                omega (arith, drop_bits-bit_pos (br.bit_pos % 8) br (omega arith) v.room),
          )
    ]

-- A byte of the accumulator.
drop_byte :
    (br : BitReader)
    → IsReader br
    → IsAligned br
    → 8 ≤ br.bit_pos
    → (unread br ≡ to_bits 8 (br.val % 256) ++ unread (drop_bits 8 br))
      × IsReader (drop_bits 8 br)
      × IsAligned (drop_bits 8 br)
unfolding IsAligned take_bits bit_mask
drop_byte br v a h =
    let (lt, split, next, same) = take_bits-unread 8 br v h (omega arith) in
    (
      split ∙ ap (λ (b : ℕ). to_bits 8 b ++ unread (drop_bits 8 br)) (bit_and_mask 8 br.val),
      next,
      omega (arith, drop_bits-bit_pos 8 br h v.room, a),
    )

-- The bytes that the accumulator gives.
drain-unread :
    (num : ℕ) (br : BitReader)
    → IsReader br
    → IsAligned br
    → let d = drain num br in
      (unread br ≡ stream d.0 ++ unread d.1)
      × IsReader d.1
      × (length d.0 ≤ num)
      × ((length d.0 ≡ num) ⊎ (d.1.bit_pos ≡ 0))
      × All (λ b. b < 256) d.0
unfolding drain stream IsAligned
drain-unread zero br v a = (refl, v, omega arith, inl refl, tt)
drain-unread (suc num) br v a = elim (Bool-cases (leb 8 br.bit_pos)) [
  | inr e ↦ rw e (refl, v, omega arith, inr (empty e), tt)
  | inl e ↦
      let (split, next, aligned) = drop_byte br v a (leb→le _ _ e) in
      let (r, reader, short, end, each) = drain-unread num (drop_bits 8 br) next aligned in
      rw e (
        split
            ∙ ap (λ (l : List ℕ). to_bits 8 (br.val % 256) ++ l) r
            ∙ sym
                (append_assoc (to_bits 8 (br.val % 256)) (stream (drain num (drop_bits 8 br)).0) _),
        reader,
        omega (arith, short),
        elim end [ inl n ↦ inl (ap suc n) | inr z ↦ inr z ],
        (omega arith, each),
      )
]
  where
    empty : leb 8 br.bit_pos ≡ false → br.bit_pos ≡ 0
    empty e = ground (arith, a)

-- The stream of a reader with no bits is that of its input.
unread-empty : (br : BitReader) → br.bit_pos ≡ 0 → unread br ≡ stream (drop br.pos br.input)
unfolding unread
unread-empty br z = rw z (unfold to_bits in refl)

-- The bytes of the input, past an empty accumulator.
copy_rest :
    (left : ℕ) (br : BitReader)
    → IsReader br
    → br.bit_pos ≡ 0
    → br.pos + left ≤ length br.input
    → (unread br
        ≡ stream (take left (drop br.pos br.input)) ++ unread record br { pos = br.pos + left })
      × IsReader record br { pos = br.pos + left }
      × (length (take left (drop br.pos br.input)) ≡ left)
copy_rest left br v z h =
    let later = drop br.pos br.input in
    (
      unread-empty br z
          ∙ sym (ap stream (take-append-drop left later))
          ∙ stream-append (take left later) (drop left later)
          ∙ ap (λ (l : List ℕ). stream (take left later) ++ l)
              (ap stream (drop-drop br.pos left br.input)
                ∙ sym (unread-empty record br { pos = br.pos + left } z)),
      record { held = v.held; room = v.room; inside = h; bytes = v.bytes },
      omega (arith, length-take left later, length-drop br.pos br.input),
    )

-- A reader that holds whole bytes hands out the bytes of the stream, if it has that many, and none
-- of the others.
pub copy_bytes-unread :
    (num : ℕ) (br : BitReader)
    → IsReader br
    → IsAligned br
    → 8 * num ≤ length (unread br)
    → (bytes : List ℕ) × (br' : BitReader) × (copy_bytes num br ≡ some (bytes, br'))
      × (length bytes ≡ num)
      × All (λ b. b < 256) bytes
      × (unread br ≡ stream bytes ++ unread br')
      × IsReader br'
unfolding copy_bytes
copy_bytes-unread num br v a h =
    let (r, reader, short, end, each) = drain-unread num br v a in
    let d = drain num br in
    let left = num - length d.0 in
    elim (Bool-cases (left == 0)) [
      | inl e ↦ (d.0, d.1, rw (normalize-same d.1 reader, e) refl, ground arith, each, r, reader)
      | inr e ↦
          let nil : d.1.bit_pos ≡ 0 = elim end [ inl n ↦ absurd (ground arith) | inr z ↦ z ] in
          let total =
            ap length r
            ∙ length-append (stream d.0) (unread d.1)
            ∙ ap₂ (λ (x y : ℕ). x + y) (length-stream d.0)
                (ap length (unread-empty d.1 nil) ∙ length-stream (drop d.1.pos d.1.input)) in
          let fits : d.1.pos + left ≤ length d.1.input =
            omega (arith, total, h, length-drop d.1.pos d.1.input, reader.inside, short) in
          let room : leb (d.1.pos + left) (length d.1.input) ≡ true = ground arith in
          let (s, next, count) = copy_rest left d.1 reader nil fits in
          let others = take left (drop d.1.pos d.1.input) in
          (
            d.0 ++ others,
            record d.1 { pos = d.1.pos + left },
            rw (normalize-same d.1 reader, e, room) refl,
            omega (arith, length-append d.0 others, count, short),
            All-append _ d.0 others each (
                All-take _ left (drop d.1.pos d.1.input)
                  (All-drop _ d.1.pos d.1.input reader.bytes)),
            r
                ∙ ap (λ (l : List ℕ). stream d.0 ++ l) s
                ∙ sym (append_assoc (stream d.0) (stream others) _)
                ∙ ap (λ (l : List ℕ). l ++ unread record d.1 { pos = d.1.pos + left })
                    (sym (stream-append d.0 others)),
            next,
          )
    ]
