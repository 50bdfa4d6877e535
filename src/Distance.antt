-- ===== src/Distance.antt =====
-- Recent distances. The encoder keeps the last four in a cache (internal/encoder/encoder.go,
-- computeDistanceCode, and the update in createBackwardReferences of internal/encoder/hash5.go);
-- the decoder of decode.go keeps a ring of four and an index (takeDistanceFromRingBuffer), reads
-- other distances by a table (calculateDistanceLut, readDistance), and refuses some of them where
-- they are used (processCommands). Words have 64 bits, as on the targets that the README measures.
pub mod Lut
pub mod Code
pub mod Symbol
pub mod Sync
pub mod Steps
pub mod Step
pub mod Stream
use go_brrr.Prelude.{
  ℕ, ◌+◌, ◌-◌, ◌*◌, ◌/◌, ◌%◌, ◌^◌, bit_and, List, [], ◌∷◌, ltb, leb, ◌==◌, if◌then◌else◌, get_or,
  set, ◌&&◌, Bool, true, false, Option, some, none, take, drop, length, zero, suc,
}
use go_brrr.CodeLengths.Decode.{update}
use go_brrr.Transforms.Word.{transform_dictionary_word}

pub record Cache : Type 0 where
  pub dist_0 : ℕ
  pub dist_1 : ℕ
  pub dist_2 : ℕ
  pub dist_3 : ℕ

abbrev pub word_sub : ℕ → ℕ → ℕ
word_sub a b = (a + 2 ^ 64 - b) % 2 ^ 64

unfoldable pub compute_distance_code : ℕ → ℕ → Cache → ℕ
compute_distance_code distance max_distance cache =
    let dp3 = distance + 3 in
    let offset_0 = word_sub dp3 cache.dist_0 in
    let offset_1 = word_sub dp3 cache.dist_1 in
    if leb distance max_distance
    then (if distance == cache.dist_0
        then 0
        else if distance == cache.dist_1
        then 1
        else if ltb offset_0 7
        then bit_and (0x9750468 / 2 ^ (4 * offset_0)) 0xf
        else if ltb offset_1 7
        then bit_and (0xfdb1ace / 2 ^ (4 * offset_1)) 0xf
        else if distance == cache.dist_2
        then 2
        else if distance == cache.dist_3
        then 3
        else distance + 16 - 1)
    else distance + 16 - 1

-- The cache after a command: a dictionary reference or a repeat of the last distance leaves it.
unfoldable pub update_cache : ℕ → ℕ → ℕ → Cache → Cache
update_cache distance max_distance code cache =
    if leb distance max_distance && ltb 0 code
    then record {
      dist_0 = distance;
      dist_1 = cache.dist_0;
      dist_2 = cache.dist_1;
      dist_3 = cache.dist_2;
    }
    else cache

-- `distRB` and `distRBIdx`, with what the last distance symbol left in `distanceContext`.
pub record Ring : Type 0 where
  pub slots : List ℕ
  pub index : ℕ
  pub context : ℕ

abbrev pub slot : Ring → ℕ → ℕ
slot r i = get_or r.slots (bit_and i 3) 0

-- A distance that is not positive becomes 0x7fffffff.
abbrev pub shifted_distance : ℕ → ℕ → ℕ
shifted_distance last nibble = if leb (last + nibble) 3 then 0x7fffffff else last + nibble - 3

unfoldable pub take_distance_from_ring_buffer : Ring → ℕ → ℕ × Ring
take_distance_from_ring_buffer r code =
    if leb code 3
    then (let context = if code == 0 then 1 else 0 in
        (
          slot r ((r.index + 3 - code) % 2 ^ 64),
          record r { index = word_sub r.index context; context = context },
        ))
    else (let index_delta = if ltb code 10 then 3 else 2 in
        let base = if ltb code 10 then code - 4 else code - 10 in
        let nibble = bit_and (0x605142 / 2 ^ (4 * base)) 0xf in
        (
          shifted_distance (slot r ((r.index + index_delta) % 2 ^ 64)) nibble,
          record r { context = 0 },
        ))

-- `distExtraBits` and `distOffset`.
pub record DistanceLut : Type 0 where
  pub dist_extra_bits : ℕ → ℕ
  pub dist_offset : ℕ → ℕ

unfoldable pub put_code : ℕ → ℕ → ℕ → DistanceLut → DistanceLut
put_code i bits offset lut = record {
  dist_extra_bits = update lut.dist_extra_bits i bits;
  dist_offset = update lut.dist_offset i offset;
}

-- Codes from i on with the same number of extra bits, and offsets that go up by one.
unfoldable pub fill_codes : (left : ℕ) → ℕ → ℕ → ℕ → DistanceLut → DistanceLut
fill_codes zero i bits offset lut = lut
fill_codes (suc left) i bits offset lut =
    fill_codes left (i + 1) bits (offset + 1) (put_code i bits offset lut)

-- The loop over the regular codes, with a round of fuel for each group.
unfoldable pub fill_regular : (fuel : ℕ) → ℕ → ℕ → ℕ → ℕ → ℕ → ℕ → DistanceLut → DistanceLut
fill_regular zero ndirect npostfix limit i bits half lut = lut
fill_regular (suc fuel) ndirect npostfix limit i bits half lut =
    let base = ndirect + ((2 + half) * 2 ^ bits - 4) * 2 ^ npostfix + 1 in
    let rest =
      fill_regular fuel ndirect npostfix limit (i + 2 ^ npostfix) (bits + half) ((half + 1) % 2)
        (fill_codes (2 ^ npostfix) i (bits % 2 ^ 8) base lut) in
    if ltb i limit then rest else lut

-- calculateDistanceLut when the parameters have changed. The numbers of bits stay far below 64.
unfoldable pub calculate_distance_lut : ℕ → ℕ → ℕ → DistanceLut → DistanceLut
calculate_distance_lut npostfix ndirect limit lut =
    fill_regular limit ndirect npostfix limit (16 + ndirect) 1 0 (fill_codes ndirect 16 0 1 lut)

-- A command whose insert-and-copy symbol brings a distance code, 0 in cmdLUT, reuses the last
-- distance.
unfoldable pub implicit_distance : ℕ → Ring → ℕ × Ring
implicit_distance code r =
    let index = word_sub r.index 1 in
    (slot r index, record r { index = index; context = if code == 0 then 1 else 0 })

-- A distance symbol, with the number that the reader's bits after it stand for.
unfoldable pub read_distance : DistanceLut → ℕ → ℕ → ℕ → Ring → ℕ × Ring
read_distance lut postfix_bits symbol val r =
    if ltb symbol 16 then take_distance_from_ring_buffer r symbol else (
      lut.dist_offset symbol + bit_and val (2 ^ lut.dist_extra_bits symbol - 1) * 2 ^ postfix_bits,
      record r { context = 0 },
    )

-- After a copy from the ring buffer the distance goes into the ring.
unfoldable pub record_distance : ℕ → Ring → Ring
record_distance distance r = record r {
  slots = set r.slots (bit_and r.index 3) distance;
  index = (r.index + 1) % 2 ^ 64;
}

-- After a dictionary word the index moves back to where it was.
unfoldable pub skip_dictionary : Ring → Ring
skip_dictionary r = record r { index = (r.index + r.context) % 2 ^ 64 }

pub data DistanceError : Type 0 where
  invalid_backward_reference : DistanceError
  invalid_compound_reference : DistanceError
  invalid_static_reference : DistanceError
  invalid_transform : DistanceError
  invalid_word_length : DistanceError
  out_of_range : DistanceError

-- Where a distance is used: the largest distance into the window, the size of the compound
-- dictionary, the copy's length, the bytes of the static dictionary (a file that the build embeds)
-- and the ring buffer from the position on.
pub record Place : Type 0 where
  pub max_distance : ℕ
  pub compound_size : ℕ
  pub copy_length : ℕ
  pub dict_data : List ℕ
  pub output : List ℕ

abbrev pub max_allowed_distance : ℕ
max_allowed_distance = 0x7ffffffc

abbrev pub dict_size_bits_by_length : List ℕ
dict_size_bits_by_length =
    0 ∷ 0 ∷ 0 ∷ 0 ∷ 10 ∷ 10 ∷ 11 ∷ 11 ∷ 10 ∷ 10 ∷ 10 ∷ 10 ∷ 10 ∷ 9 ∷ 9 ∷ 8 ∷ 7 ∷ 7 ∷ 8 ∷ 7 ∷ 7 ∷ 6
    ∷ 6 ∷ 5 ∷ 5 ∷ 0 ∷ 0 ∷ 0 ∷ 0 ∷ 0 ∷ 0 ∷ 0 ∷ []

abbrev pub dict_offsets_by_length : List ℕ
dict_offsets_by_length =
    0 ∷ 0 ∷ 0 ∷ 0 ∷ 0 ∷ 4096 ∷ 9216 ∷ 21504 ∷ 35840 ∷ 44032 ∷ 53248 ∷ 63488 ∷ 74752 ∷ 87040 ∷ 93696
    ∷ 100864 ∷ 104704 ∷ 106752 ∷ 108928 ∷ 113536 ∷ 115968 ∷ 118528 ∷ 119872 ∷ 121280 ∷ 122016
    ∷ 122784 ∷ 122784 ∷ 122784 ∷ 122784 ∷ 122784 ∷ 122784 ∷ 122784 ∷ []

-- The transform of a dictionary word: an empty word is an error at a distance up to 120.
unfoldable pub transform_error : ℕ → Option (List ℕ × ℕ) → Option DistanceError
transform_error distance none = some out_of_range
transform_error distance (some (dst, i)) =
    if (i == 0) && leb distance 120 then some invalid_transform else none

-- The error of a reference to the static dictionary, if there is one.
unfoldable pub word_error : Place → ℕ → Option DistanceError
word_error p distance =
    let address = distance - p.max_distance - 1 - p.compound_size in
    let shift = get_or dict_size_bits_by_length p.copy_length 0 in
    let word_idx = bit_and address (2 ^ shift - 1) in
    let transform_idx = address / 2 ^ shift in
    let offset = get_or dict_offsets_by_length p.copy_length 0 + word_idx * p.copy_length in
    let word = take p.copy_length (drop offset p.dict_data) in
    if shift == 0
    then some invalid_static_reference
    else if leb 121 transform_idx
    then some invalid_transform
    else if ltb (length p.dict_data) (offset + p.copy_length)
    then some out_of_range
    else if transform_idx == 0
    then none
    else transform_error distance (transform_dictionary_word p.output word transform_idx)

-- The error of a distance, if there is one.
unfoldable pub distance_error : Place → ℕ → Option DistanceError
distance_error p distance =
    let behind = distance - p.max_distance in
    if leb distance p.max_distance
    then none
    else if ltb max_allowed_distance distance
    then some invalid_backward_reference
    else if leb behind p.compound_size
    then (if ltb p.compound_size (p.compound_size - behind + p.copy_length)
        then some invalid_compound_reference
        else none)
    else if leb 4 p.copy_length && leb p.copy_length 24
    then word_error p distance
    else some invalid_word_length

pub data Received : Type 0 where
  failed : DistanceError → Received
  used : ℕ → Ring → Received

-- What processCommands does with a distance. A copy from the window or from the compound dictionary
-- behind it goes into the ring (the latter in initCopy), a word of the static dictionary does not.
unfoldable pub follow : Place → ℕ × Ring → Received
follow p (distance, r) = elim (distance_error p distance) [
  | some e ↦ failed e
  | none ↦ used distance (
      if leb distance (p.max_distance + p.compound_size)
      then record_distance distance r
      else skip_dictionary r)
]

-- A distance symbol, and what follows.
unfoldable pub receive : DistanceLut → ℕ → Place → ℕ → ℕ → Ring → Received
receive lut postfix_bits p symbol val r = follow p (read_distance lut postfix_bits symbol val r)

-- The same for a command that brings its distance code.
unfoldable pub receive_implicit : Place → ℕ → Ring → Received
receive_implicit p code r = follow p (implicit_distance code r)
