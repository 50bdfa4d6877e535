-- ===== src/Commands.antt =====
-- The insert-and-copy commands of internal/encoder/command.go, their length and distance codes,
-- and the lookup tables that command.go fills at start-up. A Go `uint` is a natural number below
-- 2 ^ 64; what a conversion to a shorter word drops is written out.
pub mod Lengths
pub mod DistanceSplit
pub mod Distances
pub mod Grid
pub mod Packing
use go_brrr.Prelude.{
  ℕ, zero, suc, ◌+◌, ◌-◌, ◌*◌, ◌/◌, ◌%◌, ◌^◌, bit_and, bit_or, Bool, true, false, ◌&&◌, ◌||◌, List,
  [], ◌∷◌, ltb, leb, ◌==◌, if◌then◌else◌, get_or,
}
use go_brrr.Prelude.BitOps.{bit_len}
use go_brrr.Prelude.Int.{ℤ, to_word}

-- The 16 short codes that refer to recent distances.
abbrev pub num_distance_short_codes : ℕ
num_distance_short_codes = 16

pub record Command : Type 0 where
  pub insert_len : ℕ
  pub copy_len : ℕ
  pub dist_extra : ℕ
  pub cmd_prefix : ℕ
  pub dist_prefix : ℕ

pub record CommandConfig : Type 0 where
  pub insert_len : ℕ
  pub copy_len : ℕ
  pub copy_len_delta : ℤ
  pub distance_code : ℕ
  pub num_direct_codes : ℕ
  pub postfix_bits : ℕ

abbrev pub combine_length_codes_base : List (List ℕ)
combine_length_codes_base =
    (128 ∷ 192 ∷ 384 ∷ []) ∷ (256 ∷ 320 ∷ 512 ∷ []) ∷ (448 ∷ 576 ∷ 640 ∷ []) ∷ []

unfoldable pub get_insert_len_code_slow : ℕ → ℕ
get_insert_len_code_slow insert_len =
    if ltb insert_len 6
    then insert_len
    else if ltb insert_len 130
    then (let nbits = bit_len (insert_len - 2) - 2 in nbits * 2 + (insert_len - 2) / 2 ^ nbits + 2)
    else if ltb insert_len 2114
    then bit_len (insert_len - 66) + 9
    else if ltb insert_len 6210
    then 21
    else if ltb insert_len 22594
    then 22
    else 23

-- `copyLen - 2` is only taken for copies of at least two bytes; below, Go's result wraps.
unfoldable pub get_copy_len_code_slow : ℕ → ℕ
get_copy_len_code_slow copy_len =
    if ltb copy_len 10
    then (copy_len + 2 ^ 64 - 2) % 2 ^ 16
    else if ltb copy_len 134
    then (let nbits = bit_len (copy_len - 6) - 2 in nbits * 2 + (copy_len - 6) / 2 ^ nbits + 4)
    else if ltb copy_len 2118
    then bit_len (copy_len - 70) + 11
    else 23

-- The list f i, f (i + 1), ... of n entries.
unfoldable pub tabulate : (ℕ → ℕ) → ℕ → ℕ → List ℕ
tabulate f i zero = []
tabulate f i (suc n) = f i ∷ tabulate f (i + 1) n

unfoldable pub insert_len_code_lut : List ℕ
insert_len_code_lut = tabulate get_insert_len_code_slow 0 130

unfoldable pub copy_len_code_lut : List ℕ
copy_len_code_lut = 0 ∷ 0 ∷ tabulate get_copy_len_code_slow 2 132

unfoldable pub get_insert_len_code : ℕ → ℕ
get_insert_len_code insert_len =
    if ltb insert_len 130
    then get_or insert_len_code_lut insert_len 0
    else get_insert_len_code_slow insert_len

unfoldable pub get_copy_len_code : ℕ → ℕ
get_copy_len_code copy_len =
    if ltb copy_len 134 && leb 2 copy_len
    then get_or copy_len_code_lut copy_len 0
    else get_copy_len_code_slow copy_len

-- The insert-and-copy symbol. `>> 3` is `/ 8` and `<< 3` is `* 8`.
unfoldable pub combine_length_codes : ℕ → ℕ → Bool → ℕ
combine_length_codes ins_code copy_code use_last_distance =
    let low = bit_or (bit_and copy_code 7) (bit_and ins_code 7 * 8) in
    if use_last_distance && ltb ins_code 8 && ltb copy_code 16
    then (if ltb copy_code 8 then low else bit_or low 64)
    else bit_or (get_or (get_or combine_length_codes_base (ins_code / 8) []) (copy_code / 8) 0) low

-- The packed distance symbol (its number of extra bits in the high six bits) and the extra bits.
unfoldable pub prefix_encode_simple_distance : ℕ → ℕ × ℕ
prefix_encode_simple_distance distance_code =
    if ltb distance_code num_distance_short_codes
    then (distance_code % 2 ^ 16, 0)
    else (let dist = 4 + distance_code - num_distance_short_codes in
        let bucket = bit_len dist - 2 in
        let prefix = bit_and (dist / 2 ^ bucket) 1 in
        let offset = (2 + prefix) * 2 ^ bucket in
        (
          bit_or (bucket * 2 ^ 10) (num_distance_short_codes + 2 * (bucket - 1) + prefix) % 2 ^ 16,
          (dist - offset) % 2 ^ 32,
        ))

-- What prefixEncodeCopyDistance computes of `dist`, its distance above the direct codes.
unfoldable pub encode_parts : ℕ → ℕ → ℕ → ℕ × ℕ
encode_parts num_direct_codes postfix_bits dist =
    let bucket = bit_len dist - 2 in
    let postfix_mask = 2 ^ postfix_bits - 1 in
    let postfix = bit_and dist postfix_mask in
    let prefix = bit_and (dist / 2 ^ bucket) 1 in
    let offset = (2 + prefix) * 2 ^ bucket in
    let nbits = bucket - postfix_bits in
    (
      bit_or (nbits * 2 ^ 10) (
            num_distance_short_codes
            + num_direct_codes
            + (2 * (nbits - 1) + prefix) * 2 ^ postfix_bits
            + postfix)
          % 2 ^ 16,
      (dist - offset) / 2 ^ postfix_bits % 2 ^ 32,
    )

unfoldable pub prefix_encode_copy_distance : ℕ → ℕ → ℕ → ℕ × ℕ
prefix_encode_copy_distance distance_code num_direct_codes postfix_bits =
    if ltb distance_code (num_distance_short_codes + num_direct_codes)
    then (distance_code % 2 ^ 16, 0)
    else encode_parts num_direct_codes postfix_bits
        (2 ^ (postfix_bits + 2) + (distance_code - num_distance_short_codes - num_direct_codes))

-- `delta << 25` keeps the low seven bits of the delta in a uint32.
unfoldable pub new_command : CommandConfig → Command
new_command cfg =
    let delta = to_word 8 cfg.copy_len_delta in
    let (dist_prefix, dist_extra) =
      prefix_encode_copy_distance cfg.distance_code cfg.num_direct_codes cfg.postfix_bits in
    let effective_copy_len = (cfg.copy_len + to_word 64 cfg.copy_len_delta) % 2 ^ 64 in
    let ins_code = get_insert_len_code cfg.insert_len in
    let copy_code = get_copy_len_code effective_copy_len in
    record {
      insert_len = cfg.insert_len % 2 ^ 32;
      copy_len = bit_or (cfg.copy_len % 2 ^ 32) (delta * 2 ^ 25 % 2 ^ 32);
      dist_extra = dist_extra;
      cmd_prefix = combine_length_codes ins_code copy_code (bit_and dist_prefix 0x3ff == 0);
      dist_prefix = dist_prefix;
    }

unfoldable pub new_insert_command : ℕ → Command
new_insert_command insert_len =
    let ins_code = get_insert_len_code insert_len in
    let copy_code = get_copy_len_code 4 in
    record {
      insert_len = insert_len % 2 ^ 32;
      copy_len = 4 * 2 ^ 25;
      dist_extra = 0;
      cmd_prefix = combine_length_codes ins_code copy_code false;
      dist_prefix = num_distance_short_codes;
    }

unfoldable pub uses_last_distance : Command → Bool
uses_last_distance c = ltb c.cmd_prefix 128

-- The context of a distance, from the symbol of its command.
unfoldable pub context_of : ℕ → ℕ
context_of cmd_prefix =
    let r = cmd_prefix / 64 in
    let col = bit_and cmd_prefix 7 in
    if (r == 0 || r == 2 || r == 4 || r == 7) && leb col 2 then col else 3

unfoldable pub distance_context : Command → ℕ
distance_context c = context_of c.cmd_prefix

unfoldable pub copy_length : Command → ℕ
copy_length c = bit_and c.copy_len 0x1ffffff

unfoldable pub dist_prefix_code : Command → ℕ
dist_prefix_code c = bit_and c.dist_prefix 0x3ff

-- An int8 bit pattern as an int32 one.
abbrev pub sign_extend : ℕ → ℕ
sign_extend b = if ltb b 128 then b else b + (2 ^ 32 - 256)

unfoldable pub copy_len_code : Command → ℕ
copy_len_code c =
    let modifier = c.copy_len / 2 ^ 25 in
    let delta = bit_or modifier (bit_and modifier 0x40 * 2) % 256 in
    (bit_and c.copy_len 0x1ffffff + sign_extend delta) % 2 ^ 32

unfoldable pub distance_code : Command → ℕ → ℕ → ℕ
distance_code c num_direct_codes postfix_bits =
    let dcode = bit_and c.dist_prefix 0x3ff in
    if ltb dcode (num_distance_short_codes + num_direct_codes)
    then dcode
    else (let nbits = c.dist_prefix / 2 ^ 10 in
        let postfix_mask = 2 ^ postfix_bits - 1 in
        let base = dcode - num_direct_codes - num_distance_short_codes in
        let hcode = base / 2 ^ postfix_bits in
        let lcode = bit_and base postfix_mask in
        let offset = ((2 + bit_and hcode 1) * 2 ^ nbits + 2 ^ 32 - 4) % 2 ^ 32 in
        ((offset + c.dist_extra) * 2 ^ postfix_bits
          + lcode
          + num_direct_codes
          + num_distance_short_codes)
        % 2 ^ 32)
