-- ===== src/DistanceParams.antt =====
-- internal/encoder/distance_params.go: the parameters of the distance alphabet.
use go_brrr.Prelude.{ℕ, ◌+◌, ◌-◌, ◌*◌, ◌%◌, ◌^◌}
use go_brrr.Commands.{num_distance_short_codes}

pub record DistanceParams : Type 0 where
  pub postfix_bits : ℕ
  pub num_direct_codes : ℕ
  pub alphabet_size_max : ℕ
  pub alphabet_size_limit : ℕ
  pub max_distance : ℕ

abbrev pub max_distance_bits : ℕ
max_distance_bits = 24

-- `maxnbits << (npostfix + 1)` in a uint32.
unfoldable pub distance_alphabet_size : ℕ → ℕ → ℕ → ℕ
distance_alphabet_size npostfix ndirect maxnbits =
    (num_distance_short_codes + ndirect + maxnbits * 2 ^ (npostfix + 1)) % 2 ^ 32

unfoldable pub init_distance_params : ℕ → ℕ → DistanceParams
init_distance_params npostfix ndirect =
    let alphabet_size_max = distance_alphabet_size npostfix ndirect max_distance_bits in
    record {
      postfix_bits = npostfix;
      num_direct_codes = ndirect;
      alphabet_size_max = alphabet_size_max;
      alphabet_size_limit = alphabet_size_max;
      max_distance =
          (ndirect + 2 ^ (max_distance_bits + npostfix + 2) - 2 ^ (npostfix + 2)) % 2 ^ 32;
    }
