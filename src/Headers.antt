-- ===== src/Headers.antt =====
-- The headers of a stream and of its meta-blocks: encodeWindowBits, writeMetaBlockHeader,
-- encodeMlen and storeVarLenUint8 of internal/encoder, decodeWindowBits, decodeVarLenUint8 and
-- decodeMetaBlockLength of decode.go. In the decoders `loopCounter` is kept after every round of
-- its loop and not only when the input runs out.
pub mod VarLen
pub mod MetaBlock
pub mod Resuming
pub mod Nibbles
pub mod Mlen
pub mod MetaBlockTrip
pub mod Window
pub mod Uncompressed
use go_brrr.Prelude.{
  ℕ, zero, suc, ◌+◌, ◌-◌, ◌*◌, ◌/◌, ◌%◌, ◌^◌, bit_or, Bool, true, false, not, ltb, leb, ◌==◌, ◌&&◌,
  if◌then◌else◌, Option, none, some, max, ◌>>=◌, List, length,
}
use go_brrr.Prelude.BitOps.{bit_len}
use go_brrr.BitReader.{BitReader, take_bits}
use go_brrr.BitWriter.{BitWriter, write_bits, byte_align, write_bytes}
use go_brrr.Resumable.{
  Machine, Next, proceed, finish, Status, done, needs_more_input, out_of_fuel, run,
}

-- encodeWindowBits: the bits, and how many. For 10 ≤ lgwin ≤ 24.
unfoldable pub encode_window_bits : ℕ → ℕ × ℕ
encode_window_bits lgwin =
    if lgwin == 16
    then (0, 1)
    else if lgwin == 17
    then (1, 7)
    else if ltb 17 lgwin
    then (bit_or ((lgwin - 17) * 2) 1, 4)
    else (bit_or ((lgwin - 8) * 2 ^ 4) 1, 7)

-- decodeWindowBits; none is the error.
unfoldable pub decode_window_bits : BitReader → Option ℕ × BitReader
decode_window_bits br0 =
    let (n, br1) = take_bits 1 br0 in
    if n == 0
    then (some 16, br1)
    else (let (n, br2) = take_bits 3 br1 in
        if not (n == 0)
        then (some ((17 + n) % 64), br2)
        else (let (n, br3) = take_bits 3 br2 in
            if n == 1
            then (none, br3)
            else if not (n == 0)
            then (some ((8 + n) % 64), br3)
            else (some 17, br3)))

pub record MlenEncoding : Type 0 where
  pub mlen_bits : ℕ
  pub num_bits : ℕ
  pub nibble_bits : ℕ

-- For a length from 1 on.
unfoldable pub encode_mlen : ℕ → MlenEncoding
encode_mlen length =
    let lg = (let n = bit_len (length - 1) in if n == 0 then 1 else n) in
    let mnibbles = (max lg 16 + 3) / 4 in
    record { mlen_bits = length - 1; num_bits = mnibbles * 4; nibble_bits = mnibbles - 4 }

unfoldable pub write_meta_block_header : ℕ → Bool → Bool → BitWriter → Option BitWriter
write_meta_block_header length is_last uncompressed b =
    let mlen = encode_mlen length in
    if is_last
    then (do
      b ← write_bits 1 1 b
      b ← write_bits 1 0 b
      b ← write_bits 2 mlen.nibble_bits b
      write_bits mlen.num_bits mlen.mlen_bits b)
    else (do
      b ← write_bits 1 0 b
      b ← write_bits 2 mlen.nibble_bits b
      b ← write_bits mlen.num_bits mlen.mlen_bits b
      write_bits 1 (if uncompressed then 1 else 0) b)

unfoldable pub write_uncompressed_meta_block : List ℕ → BitWriter → Option BitWriter
write_uncompressed_meta_block bytes b = do
  b ← write_meta_block_header (length bytes) false true b
  write_bytes bytes (byte_align b)

unfoldable pub store_var_len_uint8 : ℕ → BitWriter → Option BitWriter
store_var_len_uint8 n b =
    if n == 0
    then write_bits 1 0 b
    else (let nbits = bit_len n - 1 in
        do b ← write_bits 1 1 b; b ← write_bits 3 nbits b; write_bits nbits (n - 2 ^ nbits) b)

-- decodeVarLenUint8. The state is the substate with `*value`.
pub data Uint8Substate : Type 0 where
  uint8_none : Uint8Substate
  uint8_short : Uint8Substate
  uint8_long : Uint8Substate

pub record Uint8State : Type 0 where
  pub substate : Uint8Substate
  pub value : ℕ

unfoldable pub uint8_width : Uint8State → ℕ
uint8_width s = elim s.substate [ uint8_none ↦ 1 | uint8_short ↦ 3 | uint8_long ↦ s.value ]

unfoldable pub uint8_step : Uint8State → ℕ → Next Uint8State (Unit {0})
uint8_step s bits = elim s.substate [
  | uint8_none ↦
      if bits == 0
      then finish record { substate = uint8_none; value = 0 } tt
      else proceed record s { substate = uint8_short }
  | uint8_short ↦
      if bits == 0
      then finish record { substate = uint8_none; value = 1 } tt
      else proceed record { substate = uint8_long; value = bits }
  | uint8_long ↦ finish record { substate = uint8_none; value = 2 ^ s.value + bits } tt
]

abbrev pub uint8_machine : Machine Uint8State (Unit {0})
uint8_machine = record { width = uint8_width; step = uint8_step }

-- At most three reads.
unfoldable pub decode_var_len_uint8 :
    Uint8State → BitReader → Status (Unit {0}) × (Uint8State × BitReader)
decode_var_len_uint8 s br = run uint8_machine 4 s br

-- decodeMetaBlockLength.
pub data HeaderSubstate : Type 0 where
  header_none : HeaderSubstate
  header_empty : HeaderSubstate
  header_nibbles : HeaderSubstate
  header_size : HeaderSubstate
  header_uncompressed : HeaderSubstate
  header_reserved : HeaderSubstate
  header_bytes : HeaderSubstate
  header_metadata : HeaderSubstate

-- `i` is the local variable of the loops over nibbles and bytes; between calls it is 0.
pub record HeaderState : Type 0 where
  pub substate : HeaderSubstate
  pub is_last_metablock : Bool
  pub is_uncompressed : Bool
  pub is_metadata : Bool
  pub remaining_len : ℕ
  pub size_nibbles : ℕ
  pub loop_counter : ℕ
  pub i : ℕ

pub data HeaderResult : Type 0 where
  header_success : HeaderResult
  exuberant_nibble : HeaderResult
  reserved_bit : HeaderResult
  exuberant_metadata_nibble : HeaderResult

-- Where the loop over nibbles or bytes is over, the case reads nothing.
unfoldable pub header_width : HeaderState → ℕ
header_width s = elim s.substate [
  | header_none ↦ 1
  | header_empty ↦ 1
  | header_nibbles ↦ 2
  | header_size ↦ if ltb s.i s.size_nibbles then 4 else 0
  | header_uncompressed ↦ if s.is_last_metablock then 0 else 1
  | header_reserved ↦ 1
  | header_bytes ↦ 2
  | header_metadata ↦ if ltb s.i s.size_nibbles then 8 else 0
]

unfoldable pub size_step : HeaderState → ℕ → Next HeaderState HeaderResult
size_step s bits =
    let i = s.i in
    if ltb i s.size_nibbles
    then (if (i + 1 == s.size_nibbles) && ltb 4 s.size_nibbles && (bits == 0)
        then finish s exuberant_nibble
        else proceed
            record s { remaining_len = bit_or s.remaining_len (bits * 2 ^ (i * 4)); i = i + 1 })
    else proceed record s { substate = header_uncompressed }

unfoldable pub metadata_step : HeaderState → ℕ → Next HeaderState HeaderResult
metadata_step s bits =
    let i = s.i in
    if ltb i s.size_nibbles
    then (if (i + 1 == s.size_nibbles) && ltb 1 s.size_nibbles && (bits == 0)
        then finish s exuberant_metadata_nibble
        else proceed
            record s { remaining_len = bit_or s.remaining_len (bits * 2 ^ (i * 8)); i = i + 1 })
    else finish record s { substate = header_none; remaining_len = s.remaining_len + 1 }
        header_success

unfoldable pub header_step : HeaderState → ℕ → Next HeaderState HeaderResult
header_step s bits = elim s.substate [
  | header_none ↦ proceed record s {
    substate = if bits == 0 then header_nibbles else header_empty;
    is_last_metablock = not (bits == 0);
    remaining_len = 0;
    is_uncompressed = false;
    is_metadata = false;
  }
  | header_empty ↦
      if bits == 0
      then proceed record s { substate = header_nibbles }
      else finish record s { substate = header_none } header_success
  | header_nibbles ↦
      if bits == 3
      then proceed record s {
        substate = header_reserved;
        size_nibbles = bits + 4;
        loop_counter = 0;
        i = 0;
        is_metadata = true;
      }
      else proceed
          record s { substate = header_size; size_nibbles = bits + 4; loop_counter = 0; i = 0 }
  | header_size ↦ size_step s bits
  | header_uncompressed ↦
      finish
        record s {
          substate = header_none;
          is_uncompressed = if s.is_last_metablock then s.is_uncompressed else not (bits == 0);
          remaining_len = s.remaining_len + 1;
        }
        header_success
  | header_reserved ↦
      if bits == 0 then proceed record s { substate = header_bytes } else finish s reserved_bit
  | header_bytes ↦
      if bits == 0
      then finish record s { substate = header_none } header_success
      else proceed
          record s { substate = header_metadata; size_nibbles = bits; loop_counter = 0; i = 0 }
  | header_metadata ↦ metadata_step s bits
]

abbrev pub header_machine : Machine HeaderState HeaderResult
header_machine = record { width = header_width; step = header_step }

-- `i := s.loopCounter`, for a call that goes on with a loop.
unfoldable pub enter : HeaderState → HeaderState
enter s = record s { i = s.loop_counter }

-- The substates in which a loop is under way.
unfoldable pub in_loop : HeaderSubstate → Bool
in_loop header_none = false
in_loop header_empty = false
in_loop header_nibbles = false
in_loop header_size = true
in_loop header_uncompressed = false
in_loop header_reserved = false
in_loop header_bytes = false
in_loop header_metadata = true

-- `s.loopCounter = i`, only where input runs out in a loop.
unfoldable pub leave_state : Status HeaderResult → HeaderState → HeaderState
leave_state (done r) s = record s { i = 0 }
leave_state needs_more_input s =
    if in_loop s.substate then record s { loop_counter = s.i; i = 0 } else record s { i = 0 }
leave_state out_of_fuel s = record s { i = 0 }

unfoldable pub leave :
    {X : Type 0} → Status HeaderResult × (HeaderState × X) → Status HeaderResult × (HeaderState × X)
leave (status, (s, x)) = (status, (leave_state status s, x))

-- At most 12 reads.
unfoldable pub decode_meta_block_length :
    HeaderState → BitReader → Status HeaderResult × (HeaderState × BitReader)
decode_meta_block_length s br = leave (run header_machine 16 (enter s) br)
