-- ===== src/Tests/Maps.antt =====
-- Context maps.
use go_brrr.Prelude.{ℕ, ◌≡◌, ◌<◌, refl, List, [], ◌∷◌, ◌++◌, arith, length, true, false}
use go_brrr.ContextMap.{
  decoded, repeat_overflow, encode_context_map, decode_context_map, decode_zero_runs, transform_map,
}
use go_brrr.ContextMap.Whole.{decode-encode_context_map}
use go_brrr.ContextMap.Filled.{IsFilled, decode_context_map-IsFilled}

abbrev sample_map : List ℕ
sample_map = 1 ∷ 1 ∷ 1 ∷ 1 ∷ 1 ∷ 1 ∷ 2 ∷ 0 ∷ 0 ∷ []

decode-encode_context_map_example :
    let sent = encode_context_map sample_map in
    decode_context_map sent.1 (length sample_map) true (sent.0 ++ ((9, 0) ∷ []))
    ≡ decoded sample_map ((9, 0) ∷ [])
decode-encode_context_map_example =
    let small : 1 < 256 = omega arith in
    decode-encode_context_map sample_map ((9, 0) ∷ [])
      (
        small,
        (
          small,
          (small, (small, (small, (small, (omega arith, (omega arith, (omega arith, tt))))))),
        ),
      )
      (omega arith)

-- A run of 4 + 3 zeros does not fit in 5 entries.
decode_context_map-overflows : decode_context_map 3 5 false ((2, 3) ∷ []) ≡ repeat_overflow
unfolding decode_context_map decode_zero_runs transform_map
decode_context_map-overflows = refl

decode_context_map-IsFilled_example :
    IsFilled 5 (decode_context_map 3 5 true ((2, 0) ∷ (7, 0) ∷ []))
decode_context_map-IsFilled_example = decode_context_map-IsFilled 3 5 true ((2, 0) ∷ (7, 0) ∷ [])
