-- ===== src/Tests/Coding.antt =====
-- Commands, distances and contexts.
use go_brrr.Prelude.{◌^◌, ◌<◌, ◌≡◌, refl, List, [], ◌∷◌, arith, bit_and, false, some}
use go_brrr.Prelude.Int.{negsuc}
use go_brrr.DistanceParams.{init_distance_params, distance_alphabet_size}
use go_brrr.Commands.{
  Command, CommandConfig, new_command, prefix_encode_copy_distance, prefix_encode_simple_distance,
  distance_code, combine_length_codes, get_insert_len_code, get_copy_len_code,
  get_insert_len_code_slow, get_copy_len_code_slow,
}
use go_brrr.Commands.Lengths.{
  Covers, insert_offset, insert_extra, copy_offset, copy_extra, get_insert_len_code-Covers,
  get_copy_len_code-Covers, get_insert_len_code-slow, get_copy_len_code-slow,
}
use go_brrr.Commands.Grid.{CellIs, combine_length_codes-CellIs}
use go_brrr.Commands.Distances.{
  distance_code-prefix_encode, prefix_encode-lt-alphabet, prefix_encode_simple-copy,
}
use go_brrr.Commands.Packing.{IsCommandConfig, Decodes, new_command-Decodes}
use go_brrr.Distance.{
  Cache, Ring, Place, DistanceLut, used, invalid_transform, out_of_range, distance_error,
  word_error, compute_distance_code, update_cache, receive, receive_implicit,
}
use go_brrr.Distance.Symbol.{symbol_of, bits_of, table_of}
use go_brrr.Distance.Sync.{InSync, IsValid}
use go_brrr.Distance.Stream.{
  Sent, accepted, verdict, farthest, send_all, receive_all, receive_all-send_all,
  receive-compute_distance_code, receive_implicit-receive,
}
use go_brrr.Blocks.{get_block_length_prefix_code, block_length_of, init_block_type_code_calc}
use go_brrr.Blocks.Types.{switch_types, type_codes, ring_of, switch_types-type_codes}
use go_brrr.Blocks.Lengths.{block_length_of-prefix_code}
use go_brrr.MoveToFront.{move_to_front_transform, inverse_move_to_front_transform}
use go_brrr.MoveToFront.Trip.{inverse-move_to_front_transform}
use go_brrr.Context.{context_lookup}
use go_brrr.Context.Ids.{context_id, context_lookup-context_id}

-- An insert of 10 bytes and a copy of 20, coded as one of 18, from a distance of 1000.
abbrev config : CommandConfig
config = record {
  insert_len = 10;
  copy_len = 20;
  copy_len_delta = negsuc 1;
  distance_code = 1015;
  num_direct_codes = 8;
  postfix_bits = 1;
}

config-IsCommandConfig : IsCommandConfig config
unfolding init_distance_params distance_alphabet_size
config-IsCommandConfig = record {
  insert_lt = omega arith;
  copy_lt = omega arith;
  delta_fits = omega arith;
  coded_ge = omega arith;
  coded_lt = omega arith;
  postfix_le = omega arith;
  direct_le = omega arith;
  distance_le = omega arith;
}

new_command-Decodes_example : Decodes config (new_command config)
new_command-Decodes_example = new_command-Decodes config config-IsCommandConfig

get_insert_len_code-Covers_example : Covers insert_offset insert_extra (get_insert_len_code 100) 100
get_insert_len_code-Covers_example = get_insert_len_code-Covers 100 (omega arith)

get_copy_len_code-Covers_example : Covers copy_offset copy_extra (get_copy_len_code 3000) 3000
get_copy_len_code-Covers_example = get_copy_len_code-Covers 3000 (omega arith) (omega arith)

get_insert_len_code-slow_example : get_insert_len_code 77 ≡ get_insert_len_code_slow 77
get_insert_len_code-slow_example = get_insert_len_code-slow 77

get_copy_len_code-slow_example : get_copy_len_code 77 ≡ get_copy_len_code_slow 77
get_copy_len_code-slow_example = get_copy_len_code-slow 77

combine_length_codes-CellIs_example : CellIs 3 17 false (combine_length_codes 3 17 false)
combine_length_codes-CellIs_example =
    combine_length_codes-CellIs false 3 17 (omega arith) (omega arith)

-- The command of that distance.
abbrev packed : Command
packed = new_command config

distance_code-prefix_encode_example : distance_code packed 8 1 ≡ 1015
unfolding new_command
distance_code-prefix_encode_example =
    distance_code-prefix_encode 1015 8 1 packed (omega arith) (omega arith)
      (config-IsCommandConfig.distance_le) refl

prefix_encode-lt-alphabet_example :
    bit_and (prefix_encode_copy_distance 1015 8 1).0 0x3ff
    < (init_distance_params 1 8).alphabet_size_limit
prefix_encode-lt-alphabet_example =
    prefix_encode-lt-alphabet 1015 8 1 (omega arith) (omega arith)
      (config-IsCommandConfig.distance_le)

prefix_encode_simple-copy_example :
    prefix_encode_simple_distance 500 ≡ prefix_encode_copy_distance 500 0 0
prefix_encode_simple-copy_example = prefix_encode_simple-copy 500

-- The start of a stream, in the encoder and in the decoder.
abbrev start_cache : Cache
start_cache = record { dist_0 = 4; dist_1 = 11; dist_2 = 15; dist_3 = 16 }

abbrev start_ring : Ring
start_ring = record { slots = 16 ∷ 15 ∷ 11 ∷ 4 ∷ []; index = 0; context = 0 }

start-InSync : InSync start_cache start_ring
start-InSync = record {
  four = refl;
  index_lt = omega arith;
  recent_0 = refl;
  recent_1 = refl;
  recent_2 = refl;
  recent_3 = refl;
}

start-IsValid : IsValid start_cache
start-IsValid = record {
  range_0 = (omega arith, omega arith);
  range_1 = (omega arith, omega arith);
  range_2 = (omega arith, omega arith);
  range_3 = (omega arith, omega arith);
}

-- Near the start of the output: 1000 bytes to copy from, no compound dictionary, and a static
-- dictionary that has nothing in it.
abbrev here : Place
here = record {
  max_distance = 1000;
  compound_size = 0;
  copy_length = 5;
  dict_data = [];
  output = 0 ∷ [];
}

-- A new distance, a near one, a repeat, an old one, and one whose dictionary word is not there.
abbrev distances : List Sent
distances =
    record { distance = 100; place = here; next = 3 }
    ∷ record { distance = 102; place = here; next = 0 }
    ∷ record { distance = 102; place = here; next = 1 }
    ∷ record { distance = 100; place = here; next = 9 }
    ∷ record { distance = 70000; place = here; next = 0 }
    ∷ []

abbrev empty_lut : DistanceLut
empty_lut = record { dist_extra_bits = λ i. 0; dist_offset = λ i. 0 }

distance_error-test : distance_error here 3000000 ≡ some invalid_transform
unfolding distance_error word_error
distance_error-test = refl

accepted-test : accepted distances ≡ (100 ∷ 102 ∷ 102 ∷ 100 ∷ [], some out_of_range)
unfolding accepted distance_error word_error init_distance_params
accepted-test = refl

receive_all-send_all_example :
    receive_all (table_of 0 0 empty_lut) 0 (send_all 0 0 distances start_cache) start_ring
    ≡ (100 ∷ 102 ∷ 102 ∷ 100 ∷ [], some out_of_range)
unfolding accepted distance_error word_error init_distance_params
receive_all-send_all_example =
    receive_all-send_all distances start_cache start_ring 0 0 empty_lut start-InSync start-IsValid
      (omega arith) (omega arith)
      (
        (omega arith, omega arith),
        (
          (omega arith, omega arith),
          (
            (omega arith, omega arith),
            ((omega arith, omega arith), ((omega arith, omega arith), tt)),
          ),
        ),
      )

receive-compute_distance_code_example :
    let code = compute_distance_code 13 (farthest here) start_cache in
    let c' = update_cache 13 (farthest here) code start_cache in
    (r' : Ring) × (receive
        (table_of 0 0 empty_lut)
        0
        here
        (symbol_of code 0 0)
        (bits_of code 0 0 6)
        start_ring
      ≡ used 13 r')
    × InSync c' r'
    × IsValid c'
unfolding verdict distance_error init_distance_params
receive-compute_distance_code_example =
    receive-compute_distance_code start_cache start_ring here 13 6 0 0 empty_lut start-InSync
      start-IsValid (omega arith) (omega arith) (omega arith) (omega arith)

receive_implicit-receive_example :
    receive_implicit here 0 start_ring ≡ receive empty_lut 0 here 0 5 start_ring
receive_implicit-receive_example =
    receive_implicit-receive empty_lut 0 5 here start_ring (omega arith)

context_lookup-context_id_example : context_lookup 2 101 32 ≡ context_id 2 101 32
context_lookup-context_id_example =
    context_lookup-context_id 2 101 32 (omega arith) (omega arith) (omega arith)

switch_types-type_codes_example :
    switch_types 4
      (type_codes (0 ∷ 1 ∷ 0 ∷ 3 ∷ 3 ∷ 0 ∷ []) init_block_type_code_calc)
      (ring_of init_block_type_code_calc)
    ≡ 0 ∷ 1 ∷ 0 ∷ 3 ∷ 3 ∷ 0 ∷ []
switch_types-type_codes_example =
    switch_types-type_codes 4 (0 ∷ 1 ∷ 0 ∷ 3 ∷ 3 ∷ 0 ∷ []) init_block_type_code_calc
      (omega arith, (omega arith, (omega arith, (omega arith, (omega arith, (omega arith, tt))))))

block_length_of-prefix_code_example :
    let (code, (nbits, extra)) = get_block_length_prefix_code 20000 in
    (code < 26) × (extra < 2 ^ nbits) × (block_length_of code extra ≡ 20000)
block_length_of-prefix_code_example = block_length_of-prefix_code 20000 (omega arith) (omega arith)

inverse-move_to_front_transform_example :
    (inverse_move_to_front_transform (move_to_front_transform (2 ∷ 0 ∷ 2 ∷ 2 ∷ 5 ∷ []))).0
    ≡ 2 ∷ 0 ∷ 2 ∷ 2 ∷ 5 ∷ []
inverse-move_to_front_transform_example =
    inverse-move_to_front_transform (2 ∷ 0 ∷ 2 ∷ 2 ∷ 5 ∷ [])
      (omega arith, (omega arith, (omega arith, (omega arith, (omega arith, tt)))))
