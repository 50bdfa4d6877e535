-- ===== src/Headers/Uncompressed.antt =====
-- writeUncompressedMetaBlock of internal/encoder/encoder.go, read back by decodeMetaBlockLength,
-- jumpToByteBoundary and copyBytes of decode.go and bitreader.go.
use go_brrr.Prelude.{
  ℕ, ◌+◌, ◌*◌, ◌%◌, ◌^◌, ◌≤◌, ◌<◌, ◌≡◌, ap₂, List, ◌++◌, arith, ap, sym, ◌∙◌, true, false, some,
  All, append_assoc, length,
}
use go_brrr.Prelude.BitStream.{to_bits, stream}
use go_brrr.BitReader.{BitReader, jump_to_byte_boundary, copy_bytes}
use go_brrr.BitReader.Unread.{unread, IsReader}
use go_brrr.BitReader.Padding.{copy_bytes-padding}
use go_brrr.BitWriter.{BitWriter}
use go_brrr.BitWriter.Written.{Written}
use go_brrr.BitWriter.Fields.{field_bits, write_fields-Written}
use go_brrr.BitWriter.Align.{padding, write_bytes-Written}
use go_brrr.Resumable.{Status, run, done}
use go_brrr.Resumable.Resume.{run-ends, outcome}
use go_brrr.Headers.{
  HeaderState, HeaderResult, enter, leave, leave_state, header_none, header_success, header_machine,
  decode_meta_block_length, write_uncompressed_meta_block,
}
use go_brrr.Headers.Mlen.{encode_mlen-Mlen}
use go_brrr.Headers.MetaBlock.{AnyState, header_rank, header_machine-IsMachine}
use go_brrr.Headers.MetaBlockTrip.{
  header_fields, Describes, decode-write_meta_block_header, write-write_fields, fields_ok,
}

-- What is written for the bytes after the bits.
unfoldable pub uncompressed_bits : List ℕ → List ℕ → List ℕ
uncompressed_bits bits bytes =
    let header = field_bits (header_fields (length bytes) false true) in
    header ++ (to_bits (padding (length (bits ++ header))) 0 ++ stream bytes)

write_uncompressed-Written :
    (bytes bits : List ℕ) (b : BitWriter)
    → 0 < length bytes
    → length bytes ≤ 2 ^ 24
    → Written b bits
    → b.bit_offset + 8 * length bytes + 92 ≤ 8 * length b.buf
    → (b' : BitWriter) × (write_uncompressed_meta_block bytes b ≡ some b')
      × Written b' (bits ++ uncompressed_bits bits bytes)
unfolding write_uncompressed_meta_block uncompressed_bits
write_uncompressed-Written bytes bits b p h w room =
    let mlen = encode_mlen-Mlen (length bytes) p h in
    let (ok, narrow) = fields_ok (length bytes) false true mlen in
    let fields = header_fields (length bytes) false true in
    let (b1, run1, w1, l, o) =
      write_fields-Written fields b bits w ok (omega (arith, room, narrow)) in
    let (b2, run2, w2) =
      write_bytes-Written b1 (bits ++ field_bits fields) bytes w1
        (omega (arith, l, o, room, narrow)) in
    let run = write-write_fields (length bytes) false true b ∙ run1 in
    (
      b2,
      rw (run) run2,
      rw
          (sym (
            append_assoc bits (field_bits fields)
              (to_bits (padding (length (bits ++ field_bits fields))) 0 ++ stream bytes)))
          w2,
    )

-- A call that ends, seen on bits, ends with a reader that has the bits left.
decode-ends :
    (s s' : HeaderState) (br : BitReader) (r : HeaderResult) (rest : List ℕ)
    → IsReader br
    → outcome (decode_meta_block_length s br) ≡ (done r, (s', rest))
    → (br' : BitReader) × (decode_meta_block_length s br ≡ (done r, (s', br')))
      × (unread br' ≡ rest)
      × IsReader br'
unfolding decode_meta_block_length leave
decode-ends s s' br r rest v e =
    let y = run header_machine 16 (enter s) br in
    let status : y.0 ≡ done r = ap (λ x. x.0) e in
    let bits : unread y.1.1 ≡ rest = ap (λ x. x.1.1) e in
    let (br', ends, left, v') =
      run-ends header_machine AnyState header_rank header_machine-IsMachine 16 (enter s) y.1.0 br r
        rest tt v (ap₂ (λ (a : Status HeaderResult) (xs : List ℕ). (a, (y.1.0, xs))) status bits) in
    let state : leave_state (done r) y.1.0 ≡ s' =
      ap (λ a. leave_state a y.1.0) (sym status) ∙ ap (λ x. x.1.0) e in
    (br', ap leave ends ∙ ap (λ (t : HeaderState). (done r, (t, br'))) state, left, v')

-- For 1 to 2 ^ 24 bytes and a buffer with room, writeUncompressedMetaBlock appends a header, clear
-- bits up to the next byte, and the bytes. When a reader's stream starts with what it appends and
-- goes on with whole bytes, decodeMetaBlockLength finds the number of bytes and the flag for an
-- uncompressed meta-block, jumpToByteBoundary finds no set bit, and copyBytes gives the bytes and
-- leaves the stream after them.
pub decode-write_uncompressed_meta_block :
    (bytes bits rest : List ℕ) (s : HeaderState) (b : BitWriter) (br : BitReader)
    → 0 < length bytes
    → length bytes ≤ 2 ^ 24
    → All (λ x. x < 256) bytes
    → Written b bits
    → b.bit_offset + 8 * length bytes + 92 ≤ 8 * length b.buf
    → IsReader br
    → length rest % 8 ≡ 0
    → unread br ≡ uncompressed_bits bits bytes ++ rest
    → ((b' : BitWriter) × (write_uncompressed_meta_block bytes b ≡ some b')
        × Written b' (bits ++ uncompressed_bits bits bytes))
      × ((s' : HeaderState) × (br1 : BitReader) × (br2 : BitReader) × (br3 : BitReader)
          × (decode_meta_block_length record s { substate = header_none } br
              ≡ (done header_success, (s', br1)))
          × Describes (length bytes) false true s'
          × (jump_to_byte_boundary br1 ≡ (true, br2))
          × (copy_bytes (length bytes) br2 ≡ some (bytes, br3))
          × (unread br3 ≡ rest)
          × IsReader br3)
unfolding decode_meta_block_length uncompressed_bits padding
decode-write_uncompressed_meta_block bytes bits rest s b br p h each w room v whole e =
    let header = field_bits (header_fields (length bytes) false true) in
    let pad = padding (length (bits ++ header)) in
    let clear = to_bits pad 0 in
    let follows = clear ++ (stream bytes ++ rest) in
    let split : unread br ≡ header ++ follows =
      e
      ∙ append_assoc header (clear ++ stream bytes) rest
      ∙ ap (λ (l : List ℕ). header ++ l) (append_assoc clear (stream bytes) rest) in
    let trip =
      decode-write_meta_block_header (length bytes) false true s b br bits follows p h w
        (omega (arith, room)) v split in
    let (s', out, describes) = trip.1 in
    let (br1, run1, left, v1) =
      decode-ends record s { substate = header_none } s' br header_success follows v out in
    let (br2, br3, jump, copy, after, v3) =
      copy_bytes-padding br1 pad bytes rest v1 (omega arith) each whole left in
    (
      write_uncompressed-Written bytes bits b p h w room,
      (s', br1, br2, br3, run1, describes, jump, copy, after, v3),
    )
