-- ===== src/BitReader/Unread.antt =====
-- The bits that a reader has not handed out yet.
use native.Mathlib.Nat.{pow-le-pow_right, one-le-pow, div-lt_iff_lt-mul}
use go_brrr.Prelude.{
  ℕ, suc, ◌+◌, ◌-◌, ◌*◌, ◌/◌, ◌%◌, ◌^◌, ◌≤◌, ◌<◌, ◌≡◌, refl, List, ◌++◌, length, drop, All, arith,
  true, false, sym, ap, ◌∙◌, bit_or, append_assoc, get_or, leb, some, none, drop_cons, drop-all,
  append-nil, get_or-All,
}
use go_brrr.Prelude.BitOps.{bit_and_mask, bit_or-shifted, pow-add}
use go_brrr.Prelude.BitStream.{to_bits, stream, to_bits-add, to_bits-split, field_lt}
use go_brrr.BitReader.{BitReader, bit_mask, drop_bits, take_bits, pull_byte}

unfoldable pub unread : BitReader → List ℕ
unread br = to_bits br.bit_pos br.val ++ stream (drop br.pos br.input)

-- A reader between two reads: no bits above the valid ones, and bytes for input.
pub record IsReader (br : BitReader) : Type 0 where
  pub held : br.val < 2 ^ br.bit_pos
  pub room : br.bit_pos ≤ 64
  pub inside : br.pos ≤ length br.input
  pub bytes : All (λ b. b < 256) br.input

byte_at : (br : BitReader) → IsReader br → br.pos < length br.input → get_or br.input br.pos 0 < 256
byte_at br v h = get_or-All (λ (b : ℕ). b < 256) br.input br.pos 0 v.bytes h

byte_small : (b k : ℕ) → b < 256 → k ≤ 56 → b * 2 ^ k < 2 ^ 64
byte_small b k hb hk =
    let wide : 2 ^ (k + 8) ≤ 2 ^ 64 =
      pow-le-pow_right {n = 2} (omega arith) {j = 64} (omega arith) in
    omega (arith, field_lt k 8 0 b (one-le-pow k 2 (omega arith)) hb, wide)

-- The accumulator after a byte.
with_byte :
    (br : BitReader)
    → IsReader br
    → br.bit_pos ≤ 56
    → br.pos < length br.input
    → let b = get_or br.input br.pos 0 in
      bit_or br.val (b * 2 ^ br.bit_pos % 2 ^ 64) ≡ br.val + b * 2 ^ br.bit_pos
with_byte br v h lt =
    let b = get_or br.input br.pos 0 in
    let whole : b * 2 ^ br.bit_pos % 2 ^ 64 ≡ b * 2 ^ br.bit_pos =
      omega (arith, byte_small b br.bit_pos (byte_at br v lt) h) in
    rw whole (bit_or-shifted br.bit_pos br.val b v.held)

-- One byte more in the accumulator is the same stream.
pub pull_byte-unread :
    (br : BitReader)
    → IsReader br
    → br.bit_pos ≤ 56
    → br.pos < length br.input
    → (br' : BitReader) × (pull_byte br ≡ some br')
      × IsReader br'
      × (unread br' ≡ unread br)
      × (br'.bit_pos ≡ br.bit_pos + 8)
      × (br'.input ≡ br.input)
unfolding pull_byte unread stream
pull_byte-unread br v h lt =
    let b = get_or br.input br.pos 0 in
    (
      record {
        input = br.input;
        pos = br.pos + 1;
        val = br.val + b * 2 ^ br.bit_pos;
        bit_pos = br.bit_pos + 8;
      },
      rw (more, with_byte br v h lt) refl,
      record {
        held = field_lt br.bit_pos 8 br.val b v.held (byte_at br v lt);
        room = omega arith;
        inside = omega arith;
        bytes = v.bytes;
      },
      same,
      refl,
      refl,
    )
  where
    more : leb (length br.input) br.pos ≡ false
    more = ground arith

    same :
        to_bits (br.bit_pos + 8) (br.val + get_or br.input br.pos 0 * 2 ^ br.bit_pos)
          ++ stream (drop (br.pos + 1) br.input)
        ≡ to_bits br.bit_pos br.val ++ stream (drop br.pos br.input)
    same =
        let next : br.pos + 1 ≡ suc br.pos = omega arith in
        rw
          (
            next,
            drop_cons br.input br.pos 0 lt,
            to_bits-add br.bit_pos 8 br.val (get_or br.input br.pos 0) v.held,
          )
          (append_assoc (to_bits br.bit_pos br.val) _ _)

-- At the end of the input there is no byte, and fewer bits than asked for.
pub pull_byte-end :
    (br : BitReader)
    → IsReader br
    → length br.input ≤ br.pos
    → (pull_byte br ≡ none) × (unread br ≡ to_bits br.bit_pos br.val)
unfolding pull_byte unread stream
pull_byte-end br v h =
    let over : leb (length br.input) br.pos ≡ true = ground arith in
    (rw over refl, rw (drop-all br.input br.pos h) (append-nil _))

-- n bits of the accumulator are the first n of the stream.
pub take_bits-unread :
    (n : ℕ) (br : BitReader)
    → IsReader br
    → n ≤ br.bit_pos
    → n < 64
    → let (x, br') = take_bits n br in
      (x < 2 ^ n) × (unread br ≡ to_bits n x ++ unread br') × IsReader br' × (br'.input ≡ br.input)
unfolding take_bits unread drop_bits bit_mask
take_bits-unread n br v h lt =
    let small : n % 64 ≡ n = omega arith in
    let left : (br.bit_pos + 2 ^ 64 - n) % 2 ^ 64 ≡ br.bit_pos - n = omega (arith, v.room) in
    let split : br.bit_pos ≡ n + (br.bit_pos - n) = omega arith in
    rw (small, left, bit_and_mask n br.val)
      (
        omega (arith, one-le-pow n 2),
        rw (to_bits-split n br.bit_pos br.val h) (
            append_assoc (to_bits n (br.val % 2 ^ n)) (to_bits (br.bit_pos - n) (br.val / 2 ^ n))
              _),
        record { held = shorter; room = omega (arith, v.room); inside = v.inside; bytes = v.bytes },
        refl,
      )
  where
    shorter : br.val / 2 ^ n < 2 ^ (br.bit_pos - n)
    shorter =
        let whole : 2 ^ (br.bit_pos - n) * 2 ^ n ≡ 2 ^ br.bit_pos =
          sym (pow-add (br.bit_pos - n) n) ∙ ap (λ (k : ℕ). 2 ^ k) (omega arith) in
        (div-lt_iff_lt-mul (one-le-pow n 2 (omega arith))).1 (omega (arith, whole, v.held))
