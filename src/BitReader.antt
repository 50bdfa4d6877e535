-- ===== src/BitReader.antt =====
-- bitreader.go: the decoder's bit reader, with an accumulator in front of the input bytes. The
-- fields `inputLen` and `fastEnd` are the length of the input and 32 less; `inputBase` is a second
-- pointer to the same bytes. A word has 64 bits.
pub mod Unread
pub mod Read
pub mod Copy
pub mod Padding
use go_brrr.Prelude.{
  ℕ, zero, suc, ◌+◌, ◌-◌, ◌*◌, ◌/◌, ◌%◌, ◌^◌, bit_and, bit_or, List, [], ◌∷◌, Bool, true, false,
  ltb, leb, ◌==◌, if◌then◌else◌, get_or, length, drop, Option, none, some, take, ◌++◌, min, ◌&&◌,
}

pub record BitReader : Type 0 where
  pub input : List ℕ
  pub pos : ℕ
  pub val : ℕ
  pub bit_pos : ℕ

unfoldable pub init : BitReader
init = record { input = []; pos = 0; val = 0; bit_pos = 0 }

unfoldable pub set_input : List ℕ → BitReader → BitReader
set_input bytes br = record br { input = bytes; pos = 0 }

-- The snapshot holds all but the input.
unfoldable pub restore_state : BitReader → BitReader → BitReader
restore_state saved br = record br { pos = saved.pos; val = saved.val; bit_pos = saved.bit_pos }

unfoldable pub avail_in : BitReader → ℕ
avail_in br = length br.input - br.pos

unfoldable pub remaining_bytes : BitReader → ℕ
remaining_bytes br = if ltb (2 ^ 30) (avail_in br) then 2 ^ 30 else avail_in br + br.bit_pos / 8

unfoldable pub check_input_amount : BitReader → Bool
check_input_amount br = leb (br.pos + 32) (length br.input)

unfoldable pub bit_mask : ℕ → ℕ
bit_mask n = 2 ^ (n % 64) - 1

unfoldable pub drop_bits : ℕ → BitReader → BitReader
drop_bits n br = record br {
  val = br.val / 2 ^ (n % 64);
  bit_pos = (br.bit_pos + 2 ^ 64 - n) % 2 ^ 64;
}

unfoldable pub take_bits : ℕ → BitReader → ℕ × BitReader
take_bits n br = (bit_and br.val (bit_mask n), drop_bits n br)

-- None when there is no byte left.
unfoldable pub pull_byte : BitReader → Option BitReader
pull_byte br =
    if leb (length br.input) br.pos
    then none
    else some record br {
      val = bit_or br.val (get_or br.input br.pos 0 * 2 ^ br.bit_pos % 2 ^ 64);
      bit_pos = br.bit_pos + 8;
      pos = br.pos + 1;
    }

unfoldable pub warmup : BitReader → Bool × BitReader
warmup br =
    if br.bit_pos == 0
    then elim (pull_byte record br { val = 0 }) [
      | none ↦ (false, record br { val = 0 })
      | some br' ↦ (true, br')
    ]
    else (true, br)

-- The loop that pulls bytes until n bits are there, on fuel; `false` when the input ran out.
unfoldable pub pull_bits : ℕ → ℕ → BitReader → Bool × BitReader
pull_bits zero n br = (leb n br.bit_pos, br)
pull_bits (suc fuel) n br = elim (ltb br.bit_pos n) [
  | false ↦ (true, br)
  | true ↦ elim (pull_byte br) [ none ↦ (false, br) | some br' ↦ pull_bits fuel n br' ]
]

-- Four bytes are enough for 24 bits.
abbrev pub pull_fuel : ℕ
pull_fuel = 4

unfoldable pub safe_get_bits : ℕ → BitReader → Option ℕ × BitReader
safe_get_bits n br =
    let (ok, br') = pull_bits pull_fuel n br in
    if ok then (some (bit_and br'.val (bit_mask n)), br') else (none, br')

unfoldable pub safe_read_bits : ℕ → BitReader → Option ℕ × BitReader
safe_read_bits n br =
    let (ok, br') = pull_bits pull_fuel n br in
    if ok then (let (v, br'') = take_bits n br' in (some v, br'')) else (none, br')

unfoldable pub safe_read_bits_32_slow : ℕ → BitReader → Option ℕ × BitReader
safe_read_bits_32_slow n br =
    let (low, br1) = safe_read_bits 16 br in
    elim low [
      | none ↦ (none, restore_state br br1)
      | some low_val ↦
          let (high, br2) = safe_read_bits (n - 16) br1 in
          elim high [
            | none ↦ (none, restore_state br br2)
            | some high_val ↦ (some (bit_or low_val (high_val * 2 ^ 16)), br2)
          ]
    ]

unfoldable pub safe_read_bits_32 : ℕ → BitReader → Option ℕ × BitReader
safe_read_bits_32 n br = if leb n 24 then safe_read_bits n br else safe_read_bits_32_slow n br

unfoldable pub load32 : List ℕ → ℕ → ℕ
load32 b i = bit_or (get_or b i 0) (
    bit_or (get_or b (i + 1) 0 * 2 ^ 8)
      (bit_or (get_or b (i + 2) 0 * 2 ^ 16) (get_or b (i + 3) 0 * 2 ^ 24)))

-- The input holds four more bytes wherever this is called.
unfoldable pub fill_bit_window : BitReader → BitReader
fill_bit_window br =
    if ltb br.bit_pos 32
    then record br {
      val = bit_or br.val (load32 br.input br.pos * 2 ^ br.bit_pos % 2 ^ 64);
      bit_pos = br.bit_pos + 32;
      pos = br.pos + 4;
    }
    else br

unfoldable pub read_bits : ℕ → BitReader → ℕ × BitReader
read_bits n br = take_bits n (fill_bit_window br)

unfoldable pub normalize : BitReader → BitReader
normalize br =
    if ltb br.bit_pos 64 then record br { val = bit_and br.val (bit_mask br.bit_pos) } else br

unfoldable pub unload : BitReader → BitReader
unload br =
    let unused_bytes = br.bit_pos / 8 in
    normalize record br { pos = br.pos - unused_bytes; bit_pos = br.bit_pos - unused_bytes * 8 }

-- `false` when a skipped padding bit is set.
unfoldable pub jump_to_byte_boundary : BitReader → Bool × BitReader
jump_to_byte_boundary br =
    let pad_bits_count = bit_and br.bit_pos 7 in
    let (pad_bits, br') = if pad_bits_count == 0 then (0, br) else take_bits pad_bits_count br in
    (pad_bits == 0, normalize br')

unfoldable pub drop_bytes : ℕ → BitReader → BitReader
drop_bytes n br = record br { pos = br.pos + n }

-- The loop of copyBytes over the accumulator: the bytes that are still missing come after it.
unfoldable pub drain : ℕ → BitReader → List ℕ × BitReader
drain zero br = ([], br)
drain (suc num) br =
    let rest = drain num (drop_bits 8 br) in
    if leb 8 br.bit_pos then (br.val % 256 ∷ rest.0, rest.1) else ([], br)

-- None where Go panics: past the end of the input.
unfoldable pub copy_bytes : ℕ → BitReader → Option (List ℕ × BitReader)
copy_bytes num br =
    let (bytes, drained) = drain num br in
    let br = normalize drained in
    let left = num - length bytes in
    if left == 0
    then some (bytes, br)
    else if leb (br.pos + left) (length br.input)
    then some (bytes ++ take left (drop br.pos br.input), record br { pos = br.pos + left })
    else none
