-- ===== src/ContextMap/Whole.antt =====
-- The whole context map: encodeContextMapBuf of internal/encoder/bitwriter.go, read back by
-- decodeContextMap of decode.go.
use go_brrr.Prelude.{
  ℕ, suc, ◌^◌, ◌<◌, ◌≡◌, refl, ap, sym, List, [], ◌∷◌, ◌++◌, true, length, All, arith,
}
use go_brrr.MoveToFront.{encode_loop, find_position, to_front, move_to_front_transform}
use go_brrr.MoveToFront.Trip.{inverse-move_to_front_transform, move_to_front_transform-bytes}
use go_brrr.ContextMap.{decoded, encode_context_map, decode_context_map, transform_map}
use go_brrr.ContextMap.Trip.{decode-run_length_code_zeros}

length-encode_loop : (v mtf : List ℕ) → length (encode_loop v mtf) ≡ length v
unfolding encode_loop
length-encode_loop [] mtf = refl
length-encode_loop (x ∷ v) mtf =
    ap suc (length-encode_loop v (to_front (find_position x mtf) x mtf))

length-move_to_front_transform : (v : List ℕ) → length (move_to_front_transform v) ≡ length v
unfolding move_to_front_transform
length-move_to_front_transform v = length-encode_loop v _

-- For a map of fewer than 2 ^ 32 bytes, decodeContextMap, with the bit for the inverse transform
-- set, reads the map from the symbols and prefix of encodeContextMap, and leaves the symbols after
-- them.
pub decode-encode_context_map :
    (context_map : List ℕ) (rest : List (ℕ × ℕ))
    → All (λ x. x < 256) context_map
    → length context_map < 2 ^ 32
    → let sent = encode_context_map context_map in
      decode_context_map sent.1 (length context_map) true (sent.0 ++ rest)
      ≡ decoded context_map rest
unfolding encode_context_map decode_context_map
decode-encode_context_map v rest a b =
    let moved = move_to_front_transform v in
    let same = length-move_to_front_transform v in
    let read =
      decode-run_length_code_zeros moved rest (move_to_front_transform-bytes v a)
        (omega (arith, same, b)) in
    rw (sym same, read)
      (unfold transform_map in
        ap (λ (l : List ℕ). decoded l rest) (inverse-move_to_front_transform v a))
