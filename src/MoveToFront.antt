-- ===== src/MoveToFront.antt =====
-- The move-to-front transform of context maps: moveToFrontTransform of
-- internal/encoder/bitwriter.go and inverseMoveToFrontTransform of decode.go. Both keep a list of
-- 256 bytes. A value that is not in the encoder's list, where Go would run past its end, gives the
-- list's length.
pub mod Trip
use go_brrr.Prelude.{
  ℕ, zero, suc, ◌+◌, ◌-◌, ◌/◌, List, [], ◌∷◌, ◌++◌, ◌==◌, get_or, take, drop, replicate, max,
  bit_or, true, false,
}

-- i, i + 1, ... of n entries.
unfoldable pub range : ℕ → ℕ → List ℕ
range i zero = []
range i (suc n) = i ∷ range (i + 1) n

-- `val` in front, the entries before its position moved back by one.
unfoldable pub to_front : ℕ → ℕ → List ℕ → List ℕ
to_front pos val mtf = val ∷ (take pos mtf ++ drop (pos + 1) mtf)

unfoldable pub find_position : ℕ → List ℕ → ℕ
find_position val [] = 0
find_position val (x ∷ mtf) =
    let later = find_position val mtf in elim (x == val) [ true ↦ 0 | false ↦ suc later ]

unfoldable pub max_value : List ℕ → ℕ
max_value [] = 0
max_value (x ∷ v) = max x (max_value v)

unfoldable pub encode_loop : List ℕ → List ℕ → List ℕ
encode_loop [] mtf = []
encode_loop (x ∷ v) mtf = let pos = find_position x mtf in pos ∷ encode_loop v (to_front pos x mtf)

-- The list starts with 0 up to the largest value, and zeros after it.
unfoldable pub move_to_front_transform : List ℕ → List ℕ
move_to_front_transform v =
    let max_val = max_value v in
    encode_loop v (range 0 (max_val + 1) ++ replicate (255 - max_val) 0)

unfoldable pub decode_loop : List ℕ → List ℕ → List ℕ
decode_loop [] list = []
decode_loop (idx ∷ v) list =
    let val = get_or list idx 0 in val ∷ decode_loop v (to_front idx val list)

unfoldable pub or_all : List ℕ → ℕ → ℕ
or_all [] upper_bound = upper_bound
or_all (idx ∷ v) upper_bound = or_all v (bit_or upper_bound idx)

-- The values, and the new `mtfUpperBound`.
unfoldable pub inverse_move_to_front_transform : List ℕ → List ℕ × ℕ
inverse_move_to_front_transform v = (decode_loop v (range 0 256), or_all v 0 / 4)
