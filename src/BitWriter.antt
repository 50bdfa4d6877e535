-- ===== src/BitWriter.antt =====
-- The encoder's bit writer (internal/encoder/bitwriter.go, and writeBits of
-- internal/encoder/le_generic.go, which the other byte orders' variants equal). The buffer is the
-- slice up to its capacity; a write that does not fit, where Go panics, is none.
pub mod Written
pub mod Fields
pub mod Align
use go_brrr.Prelude.{
  ℕ, zero, suc, ◌+◌, ◌-◌, ◌*◌, ◌/◌, ◌%◌, ◌^◌, bit_and, bit_or, List, [], ◌∷◌, ◌++◌, leb,
  if◌then◌else◌, get_or, set, take, drop, length, Option, none, some, ◌==◌, ltb,
}

pub record BitWriter : Type 0 where
  pub buf : List ℕ
  pub bit_offset : ℕ

-- `binary.LittleEndian.PutUint64`, for k bytes.
unfoldable pub le_bytes : ℕ → ℕ → List ℕ
le_bytes zero v = []
le_bytes (suc k) v = v % 256 ∷ le_bytes k (v / 256)

-- The eight bytes at the writer's position.
unfoldable pub put_word : ℕ → ℕ → List ℕ → List ℕ
put_word at v buf = take at buf ++ (le_bytes 8 v ++ drop (at + 8) buf)

unfoldable pub write_bits : ℕ → ℕ → BitWriter → Option BitWriter
write_bits nbits value b =
    let byte_pos = b.bit_offset / 8 in
    let bit_off = b.bit_offset % 8 in
    if leb (byte_pos + 8) (length b.buf)
    then (let v = bit_or (get_or b.buf byte_pos 0) (value * 2 ^ bit_off % 2 ^ 64) in
        some record { buf = put_word byte_pos v b.buf; bit_offset = b.bit_offset + nbits })
    else none

-- `(b.bitOffset + 7) &^ 7`.
unfoldable pub byte_align : BitWriter → BitWriter
byte_align b = record b { bit_offset = b.bit_offset + 7 - (b.bit_offset + 7) % 8 }

-- The byte after the data is cleared, and has to be there.
unfoldable pub write_bytes : List ℕ → BitWriter → Option BitWriter
write_bytes bytes b =
    let off = b.bit_offset / 8 in
    if ltb (off + length bytes) (length b.buf)
    then some record {
      buf = take off b.buf ++ (bytes ++ (0 ∷ drop (off + length bytes + 1) b.buf));
      bit_offset = b.bit_offset + length bytes * 8;
    }
    else none

-- `mask` keeps the bits before the position.
unfoldable pub rewind_to : ℕ → BitWriter → BitWriter
rewind_to bit_offset b =
    let mask = 2 ^ (bit_offset % 8) - 1 in
    let at = bit_offset / 8 in
    record { buf = set b.buf at (bit_and (get_or b.buf at 0) mask); bit_offset = bit_offset }
