-- ===== src/Tests/Streams.antt =====
-- Bit streams and headers.
use go_brrr.Prelude.{true, ℕ, ◌+◌, ◌≡◌, ◌≢◌, refl, List, [], ◌∷◌, ◌++◌, arith, length, some, false}
use go_brrr.Prelude.BitOps.{bit_len}
use go_brrr.Prelude.BitStream.{to_bits, stream}
use go_brrr.BitReader.{
  BitReader, safe_read_bits, set_input, pull_byte, pull_bits, take_bits, drop_bits, bit_mask,
}
use go_brrr.BitReader.Unread.{unread, IsReader}
use go_brrr.BitReader.Read.{ReadBits, safe_read_bits-ReadBits}
use go_brrr.BitWriter.{BitWriter, write_bits}
use go_brrr.BitWriter.Written.{Written, HasRoom, write_bits-Written}
use go_brrr.BitWriter.Fields.{field_bits}
use go_brrr.Resumable.{done, needs_more_input, out_of_fuel, run, after_read, after_case}
use go_brrr.Resumable.Resume.{outcome, extend}
use go_brrr.Headers.{
  HeaderState, enter, leave, leave_state, in_loop, header_none, header_size,
  decode_meta_block_length, header_width, header_step, size_step, uint8_none, decode_var_len_uint8,
  store_var_len_uint8,
}
use go_brrr.Headers.MetaBlockTrip.{header_fields, Describes, decode-write_meta_block_header}
use go_brrr.Headers.{write_meta_block_header, encode_mlen, header_success}
use go_brrr.Headers.{encode_window_bits, decode_window_bits}
use go_brrr.Headers.Window.{decode-encode_window_bits}
use go_brrr.Headers.VarLen.{uint8_fields, decode-store_var_len_uint8}
use go_brrr.Headers.MetaBlock.{decode_meta_block_length-settles}
use go_brrr.Headers.Resuming.{view, decode_meta_block_length-resumes}

abbrev reader : List ℕ → BitReader
reader bytes = record { input = bytes; pos = 0; val = 0; bit_pos = 0 }

reader-IsReader : IsReader (reader (0x2b ∷ 0x00 ∷ 0x6c ∷ []))
reader-IsReader = record {
  held = omega arith;
  room = omega arith;
  inside = omega arith;
  bytes = (omega arith, (omega arith, (omega arith, tt)));
}

safe_read_bits-ReadBits_example :
    ReadBits 11
      (reader (0x2b ∷ 0x00 ∷ 0x6c ∷ []))
      (safe_read_bits 11 (reader (0x2b ∷ 0x00 ∷ 0x6c ∷ [])))
safe_read_bits-ReadBits_example =
    safe_read_bits-ReadBits 11 (reader (0x2b ∷ 0x00 ∷ 0x6c ∷ [])) reader-IsReader (omega arith)

-- Sixteen bytes, of which five bits are written.
abbrev writer : BitWriter
writer = record {
  buf = 0x15 ∷ 0 ∷ 0 ∷ 0 ∷ 0 ∷ 0 ∷ 0 ∷ 0 ∷ 0 ∷ 0 ∷ 0 ∷ 0 ∷ 0 ∷ 0 ∷ 0 ∷ 0 ∷ [];
  bit_offset = 5;
}

writer-Written : Written writer (to_bits 5 0x15)
unfolding stream
writer-Written = record {
  done = [];
  last = 0x15;
  rest = 0 ∷ 0 ∷ 0 ∷ 0 ∷ 0 ∷ 0 ∷ 0 ∷ 0 ∷ 0 ∷ 0 ∷ 0 ∷ 0 ∷ 0 ∷ 0 ∷ 0 ∷ [];
  r = 5;
  buffer = refl;
  offset = refl;
  r_lt = omega arith;
  last_lt = omega arith;
  written = refl;
}

write_bits-Written_example :
    (b' : BitWriter) × (write_bits 11 700 writer ≡ some b')
    × Written b' (to_bits 5 0x15 ++ to_bits 11 700)
    × HasRoom b' 2
    × (length b'.buf ≡ length writer.buf)
    × (b'.bit_offset ≡ writer.bit_offset + 11)
write_bits-Written_example =
    write_bits-Written writer (to_bits 5 0x15) 11 700 2 writer-Written (omega arith) (omega arith)
      (omega arith)

-- The value 5: a one, the number of digits 2, then 1, with five bits after them.
code-IsReader : IsReader (reader (0x15 ∷ []))
code-IsReader = record {
  held = omega arith;
  room = omega arith;
  inside = omega arith;
  bytes = (omega arith, tt);
}

decode-store_var_len_uint8_example :
    ((b' : BitWriter) × (store_var_len_uint8 5 writer ≡ some b')
      × Written b' (to_bits 5 0x15 ++ field_bits (uint8_fields 5)))
    × (outcome
          (decode_var_len_uint8 record { substate = uint8_none; value = 0 } (reader (0x15 ∷ [])))
        ≡ (done tt, (record { substate = uint8_none; value = 5 }, 0 ∷ 0 ∷ [])))
unfolding unread stream to_bits field_bits uint8_fields bit_len
decode-store_var_len_uint8_example =
    decode-store_var_len_uint8 5 0 writer (reader (0x15 ∷ [])) (to_bits 5 0x15) (0 ∷ 0 ∷ [])
      (omega arith) writer-Written (omega arith) code-IsReader refl

abbrev start : HeaderState
start = record {
  substate = header_none;
  is_last_metablock = false;
  is_uncompressed = false;
  is_metadata = false;
  remaining_len = 0;
  size_nibbles = 0;
  loop_counter = 0;
  i = 0;
}

decode_meta_block_length-settles_example :
    (decode_meta_block_length start (reader (0x2b ∷ 0x00 ∷ 0x6c ∷ []))).0 ≢ out_of_fuel
decode_meta_block_length-settles_example =
    decode_meta_block_length-settles start (reader (0x2b ∷ 0x00 ∷ 0x6c ∷ [])) refl reader-IsReader

-- A byte is not enough for a header: the loop over the nibbles waits for its second one.
abbrev waiting : HeaderState
waiting = record start { substate = header_size; size_nibbles = 4; loop_counter = 1 }

abbrev drained : BitReader
drained = record { input = 0 ∷ []; pos = 1; val = 0; bit_pos = 1 }

zero-IsReader : IsReader (reader (0 ∷ []))
zero-IsReader = record {
  held = omega arith;
  room = omega arith;
  inside = omega arith;
  bytes = (omega arith, tt);
}

one_byte : decode_meta_block_length start (reader (0 ∷ [])) ≡ (needs_more_input, (waiting, drained))
unfolding decode_meta_block_length run after_read after_case safe_read_bits pull_bits pull_byte
    take_bits drop_bits bit_mask header_width header_step size_step enter leave leave_state in_loop
one_byte = refl

decode_meta_block_length-resumes_example :
    view (outcome (decode_meta_block_length waiting (set_input (0 ∷ 0 ∷ []) drained)))
    ≡ view (outcome (decode_meta_block_length start (extend (0 ∷ 0 ∷ []) (reader (0 ∷ [])))))
decode_meta_block_length-resumes_example =
    decode_meta_block_length-resumes start waiting (reader (0 ∷ [])) drained (0 ∷ 0 ∷ []) refl
      zero-IsReader (omega arith, (omega arith, tt)) one_byte

-- A block of 300 bytes, uncompressed and not the last.
trip_reader-IsReader : IsReader (reader (0x58 ∷ 0x09 ∷ 0x08 ∷ []))
trip_reader-IsReader = record {
  held = omega arith;
  room = omega arith;
  inside = omega arith;
  bytes = (omega arith, (omega arith, (omega arith, tt)));
}

decode-write_meta_block_header_example :
    ((b' : BitWriter) × (write_meta_block_header 300 false true writer ≡ some b')
      × Written b' (to_bits 5 0x15 ++ field_bits (header_fields 300 false true)))
    × ((s' : HeaderState) × (outcome (
            decode_meta_block_length
              record start { substate = header_none }
              (reader (0x58 ∷ 0x09 ∷ 0x08 ∷ [])))
          ≡ (done header_success, (s', 0 ∷ 0 ∷ 0 ∷ 0 ∷ [])))
        × Describes 300 false true s')
unfolding unread stream to_bits field_bits header_fields encode_mlen bit_len
decode-write_meta_block_header_example =
    decode-write_meta_block_header 300 false true start writer (reader (0x58 ∷ 0x09 ∷ 0x08 ∷ []))
      (to_bits 5 0x15) (0 ∷ 0 ∷ 0 ∷ 0 ∷ []) (omega arith) (omega arith) writer-Written (omega arith)
      trip_reader-IsReader refl

-- A window of 22 bits, of which the reader holds the first byte.
abbrev warm : BitReader
warm = record { input = 0x2b ∷ []; pos = 1; val = 0x2b; bit_pos = 8 }

warm-IsReader : IsReader warm
warm-IsReader = record {
  held = omega arith;
  room = omega arith;
  inside = omega arith;
  bytes = (omega arith, tt);
}

decode-encode_window_bits_example :
    ((decode_window_bits warm).0 ≡ some 22)
    × (unread (decode_window_bits warm).1 ≡ 0 ∷ 1 ∷ 0 ∷ 0 ∷ [])
unfolding unread stream to_bits encode_window_bits
decode-encode_window_bits_example =
    decode-encode_window_bits 22 warm (0 ∷ 1 ∷ 0 ∷ 0 ∷ []) (omega arith) (omega arith) warm-IsReader
      (omega arith) refl
