-- ===== src/Tests/Raw.antt =====
-- An uncompressed meta-block.
use go_brrr.Prelude.{◌≡◌, refl, [], ◌∷◌, ◌++◌, arith, true, false, some}
use go_brrr.Prelude.BitStream.{to_bits, stream}
use go_brrr.Prelude.BitOps.{bit_len}
use go_brrr.BitReader.{BitReader, jump_to_byte_boundary, copy_bytes}
use go_brrr.BitReader.Unread.{unread, IsReader}
use go_brrr.BitWriter.{BitWriter}
use go_brrr.BitWriter.Written.{Written}
use go_brrr.BitWriter.Fields.{field_bits}
use go_brrr.BitWriter.Align.{padding}
use go_brrr.Resumable.{done}
use go_brrr.Headers.{
  HeaderState, header_none, header_success, decode_meta_block_length, encode_mlen,
  write_uncompressed_meta_block,
}
use go_brrr.Headers.MetaBlockTrip.{header_fields, Describes}
use go_brrr.Headers.Uncompressed.{uncompressed_bits, decode-write_uncompressed_meta_block}

-- Sixteen bytes, of which five bits are written.
abbrev buffer : BitWriter
buffer = record {
  buf = 0x15 ∷ 0 ∷ 0 ∷ 0 ∷ 0 ∷ 0 ∷ 0 ∷ 0 ∷ 0 ∷ 0 ∷ 0 ∷ 0 ∷ 0 ∷ 0 ∷ 0 ∷ 0 ∷ [];
  bit_offset = 5;
}

buffer-Written : Written buffer (to_bits 5 0x15)
unfolding stream
buffer-Written = record {
  done = [];
  last = 0x15;
  rest = 0 ∷ 0 ∷ 0 ∷ 0 ∷ 0 ∷ 0 ∷ 0 ∷ 0 ∷ 0 ∷ 0 ∷ 0 ∷ 0 ∷ 0 ∷ 0 ∷ 0 ∷ [];
  r = 5;
  buffer = refl;
  offset = refl;
  r_lt = omega arith;
  last_lt = omega arith;
  written = refl;
}

-- Five bits into the first byte: the header of three bytes, the bytes 7, 8, 9, and one more byte.
abbrev raw_reader : BitReader
raw_reader = record { input = 2 ∷ 0 ∷ 1 ∷ 7 ∷ 8 ∷ 9 ∷ 255 ∷ []; pos = 0; val = 0; bit_pos = 3 }

raw_reader-IsReader : IsReader raw_reader
raw_reader-IsReader = record {
  held = omega arith;
  room = omega arith;
  inside = omega arith;
  bytes = (
    omega arith,
    (omega arith, (omega arith, (omega arith, (omega arith, (omega arith, (omega arith, tt)))))),
  );
}

abbrev first_header : HeaderState
first_header = record {
  substate = header_none;
  is_last_metablock = false;
  is_uncompressed = false;
  is_metadata = false;
  remaining_len = 0;
  size_nibbles = 0;
  loop_counter = 0;
  i = 0;
}

decode-write_uncompressed_meta_block_example :
    ((b' : BitWriter) × (write_uncompressed_meta_block (7 ∷ 8 ∷ 9 ∷ []) buffer ≡ some b')
      × Written b' (to_bits 5 0x15 ++ uncompressed_bits (to_bits 5 0x15) (7 ∷ 8 ∷ 9 ∷ [])))
    × ((s' : HeaderState) × (br1 : BitReader) × (br2 : BitReader) × (br3 : BitReader)
        × (decode_meta_block_length record first_header { substate = header_none } raw_reader
            ≡ (done header_success, (s', br1)))
        × Describes 3 false true s'
        × (jump_to_byte_boundary br1 ≡ (true, br2))
        × (copy_bytes 3 br2 ≡ some (7 ∷ 8 ∷ 9 ∷ [], br3))
        × (unread br3 ≡ to_bits 8 255)
        × IsReader br3)
unfolding unread stream to_bits field_bits header_fields encode_mlen bit_len uncompressed_bits
    padding
decode-write_uncompressed_meta_block_example =
    decode-write_uncompressed_meta_block (7 ∷ 8 ∷ 9 ∷ []) (to_bits 5 0x15) (to_bits 8 255)
      first_header buffer raw_reader (omega arith) (omega arith)
      (omega arith, (omega arith, (omega arith, tt))) buffer-Written (omega arith)
      raw_reader-IsReader refl refl
