-- ===== src/Huffman/Table.antt =====
-- BuildHuffmanTable, nextTableBitSize and replicateValue of internal/core/huffman.go and mem.go, and
-- decodeSymbol of decode.go. An array is a function of the index; the slice `table` of the source is
-- the array `rootTable` from `base` on. `lists` is the storage of the SymbolList, in which the index
-- i of the source is the slot i + 16. A bit length is at most 15, so it fits its byte.
use go_brrr.Prelude.{
  ℕ, zero, suc, Option, none, some, bit_and, ◌+◌, ◌-◌, ◌*◌, ◌/◌, ◌%◌, ◌^◌, ◌==◌, ◌&&◌, true, false,
  ltb, leb, if◌then◌else◌,
}
use go_brrr.CodeLengths.Decode.{update}
use go_brrr.Huffman.Reverse.{reverse_width}
use go_brrr.BitReader.{BitReader, drop_bits, normalize, bit_mask, safe_get_bits}

pub record HuffmanCode : Type 0 where
  pub bits : ℕ
  pub value : ℕ

abbrev pub Table : Type 0
Table = ℕ → HuffmanCode

unfoldable pub put : Table → ℕ → HuffmanCode → Table
put table i code j = if i == j then code else table j

-- `end` is a multiple of `step`, and no round is left once it is 0.
unfoldable pub replicate_value : ℕ → Table → ℕ → HuffmanCode → ℕ → ℕ → Table
replicate_value zero table at code step end = table
replicate_value (suc fuel) table at code step end =
    let table' = put table (at + (end - step)) code in
    let rest = replicate_value fuel table' at code step (end - step) in
    if (end - step) == 0 then table' else rest

-- The scan for the longest code that is in use.
unfoldable pub max_length : ℕ → (ℕ → ℕ) → ℕ
max_length zero lists = 0
max_length (suc l) lists =
    let rest = max_length l lists in if lists (suc l) == 0xFFFF then rest else suc l

-- The symbols of one length in the root table, with the key after them.
unfoldable pub root_row :
    (n : ℕ) (lists : ℕ → ℕ) (slot bit_len table_size key : ℕ) → Table → Table × ℕ
root_row zero lists slot bit_len table_size key table = (table, key)
root_row (suc n) lists slot bit_len table_size key table =
    let sym = lists slot in
    let code : HuffmanCode = record { bits = bit_len; value = sym } in
    root_row n lists (sym + 16) bit_len table_size (key + 2 ^ (8 - bit_len))
      (replicate_value table_size table (reverse_width 8 key) code (2 ^ bit_len) table_size)

-- n lengths from bit_len on. `step` is 2 ^ bit_len, and `keyStep` is 2 ^ (8 - bit_len).
unfoldable pub root_rows :
    (n : ℕ) (lists count : ℕ → ℕ) (bit_len table_size key : ℕ) → Table → Table × ℕ
root_rows zero lists count bit_len table_size key table = (table, key)
root_rows (suc n) lists count bit_len table_size key table =
    let row = root_row (count bit_len) lists bit_len bit_len table_size key table in
    root_rows n lists count (bit_len + 1) table_size row.1 row.0

-- The copies that fill the root table when no code is as long as its width.
unfoldable pub fill_root : ℕ → (total_size table_size : ℕ) → Table → Table
fill_root zero total_size table_size table = table
fill_root (suc fuel) total_size table_size table = elim (total_size == table_size) [
  | true ↦ table
  | false ↦
      fill_root fuel total_size (table_size * 2) (λ j.
        if leb table_size j && ltb j (table_size * 2) then table (j - table_size) else table j)
]

-- The loop of nextTableBitSize: `rounds` is 15 - length.
unfoldable pub grow : (rounds : ℕ) (count : ℕ → ℕ) (left length : ℕ) → ℕ
grow zero count left length = length
grow (suc rounds) count left length =
    let rest = grow rounds count ((left - count length) * 2) (length + 1) in
    if leb left (count length) then length else rest

unfoldable pub next_table_bit_size : (ℕ → ℕ) → ℕ → ℕ → ℕ
next_table_bit_size count length root_bits =
    grow (15 - length) count (2 ^ (length - root_bits)) length - root_bits

pub record SecondLevel : Type 0 where
  pub table : Table
  pub base : ℕ
  pub table_bits : ℕ
  pub table_size : ℕ
  pub total_size : ℕ
  pub key : ℕ
  pub sub_key : ℕ

-- The next second-level table, and the pointer to it.
unfoldable pub open_table : (ℕ → ℕ) → (code_len root_bits : ℕ) → SecondLevel → SecondLevel
open_table count code_len root_bits s =
    let table_bits = next_table_bit_size count code_len root_bits in
    let sub_key = reverse_width 8 s.key in
    let base = s.base + s.table_size in
    let pointer : HuffmanCode = record {
      bits = table_bits + root_bits;
      value = (base + 2 ^ 16 - sub_key) % 2 ^ 16;
    } in
    record {
      table = put s.table sub_key pointer;
      base = base;
      table_bits = table_bits;
      table_size = 2 ^ table_bits;
      total_size = s.total_size + 2 ^ table_bits;
      key = s.key + 2 ^ 7 / 2 ^ (root_bits - 1);
      sub_key = 0;
    }

unfoldable pub place_symbol : (code_len root_bits sym : ℕ) → SecondLevel → SecondLevel
place_symbol code_len root_bits sym s = record s {
  table =
      replicate_value s.table_size s.table (s.base + reverse_width 8 s.sub_key)
        record { bits = code_len - root_bits; value = sym } (2 ^ (code_len - root_bits))
        s.table_size;
  sub_key = s.sub_key + 2 ^ (8 - (code_len - root_bits));
}

-- The symbols of one length; `n` is count[codeLen], which the source counts down.
unfoldable pub second_row :
    (n : ℕ) (lists count : ℕ → ℕ) (slot code_len root_bits : ℕ) → SecondLevel → SecondLevel
second_row zero lists count slot code_len root_bits s = s
second_row (suc n) lists count slot code_len root_bits s =
    let ready =
      if s.sub_key == 256
      then open_table (update count code_len (suc n)) code_len root_bits s
      else s in
    let sym = lists slot in
    second_row n lists count (sym + 16) code_len root_bits
      (place_symbol code_len root_bits sym ready)

unfoldable pub second_rows :
    (n : ℕ) (lists count : ℕ → ℕ) (code_len root_bits : ℕ) → SecondLevel → SecondLevel
second_rows zero lists count code_len root_bits s = s
second_rows (suc n) lists count code_len root_bits s =
    second_rows n lists count (code_len + 1) root_bits
      (second_row (count code_len) lists count code_len code_len root_bits s)

unfoldable pub root_width : ℕ → ℕ → ℕ
root_width root_bits longest = if ltb longest root_bits then longest else root_bits

unfoldable pub build_huffman_table : (root_bits : ℕ) (lists count : ℕ → ℕ) → Table → Table × ℕ
build_huffman_table root_bits lists count table =
    let longest = max_length 15 lists in
    let table_bits = root_width root_bits longest in
    let root = root_rows table_bits lists count 1 (2 ^ table_bits) 0 table in
    let filled = fill_root 8 (2 ^ root_bits) (2 ^ table_bits) root.0 in
    let second = second_rows (longest - root_bits) lists count (root_bits + 1) root_bits record {
      table = filled;
      base = 0;
      table_bits = table_bits;
      table_size = 2 ^ root_bits;
      total_size = 2 ^ root_bits;
      key = root.1;
      sub_key = 256;
    } in
    (second.table, second.total_size)

-- The symbol and the length of its code.
unfoldable pub symbol_entry : ℕ → Table → ℕ × ℕ
symbol_entry bits table =
    let idx = bits % 256 in
    let entry = table idx in
    let entry2 = table (idx + entry.value + bits / 256 % 2 ^ (entry.bits - 8)) in
    if ltb 8 entry.bits then (entry2.value, 8 + entry2.bits) else (entry.value, entry.bits)

unfoldable pub decode_symbol : ℕ → Table → BitReader → ℕ × BitReader
decode_symbol bits table br =
    let (value, drop) = symbol_entry bits table in (value, drop_bits drop br)

-- The read when fewer than 15 bits are there; none when the symbol's code is not there as a whole.
unfoldable pub safe_decode_symbol : Table → BitReader → Option ℕ × BitReader
safe_decode_symbol table br =
    let avail_bits = br.bit_pos in
    let br' = normalize br in
    let idx = br'.val % 256 in
    let entry = table idx in
    let sub = bit_and br'.val (bit_mask entry.bits) / 256 in
    let entry2 = table (idx + entry.value + sub) in
    if avail_bits == 0
    then (if (table 0).bits == 0 then (some (table 0).value, br) else (none, br))
    else if leb entry.bits 8
    then (if leb entry.bits avail_bits
        then (some entry.value, drop_bits entry.bits br')
        else (none, br'))
    else if leb avail_bits 8
    then (none, br')
    else if ltb (avail_bits - 8) entry2.bits
    then (none, br')
    else (some entry2.value, drop_bits (8 + entry2.bits) br')

unfoldable pub symbol_of_bits : Table → Option ℕ × BitReader → Option ℕ × BitReader
symbol_of_bits table (none, br) = safe_decode_symbol table br
symbol_of_bits table (some bits, br) =
    let (value, br') = decode_symbol bits table br in (some value, br')

unfoldable pub safe_read_symbol : Table → BitReader → Option ℕ × BitReader
safe_read_symbol table br = symbol_of_bits table (safe_get_bits 15 br)
