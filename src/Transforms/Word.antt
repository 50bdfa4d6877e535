-- ===== src/Transforms/Word.antt =====
-- TransformDictionaryWord and toUpperCase of internal/core/transforms.go. Strings and slices are
-- lists of bytes. Where Go panics, out of a table or of `dst`, the result is none; `dst` is taken to
-- end with its array.
use go_brrr.Prelude.{
  ℕ, zero, suc, ◌+◌, ◌-◌, ◌*◌, List, [], ◌∷◌, ◌++◌, Option, none, some, ◌>>=◌, ◌&&◌, ◌==◌, ltb, leb,
  if◌then◌else◌, min, bit_xor, length, take, drop, get_elem?,
}
use go_brrr.Transforms.Table.{transform_prefix_suffix, transform_triplets}

-- `copy(dst[at:], src)`, and how many bytes it copies.
unfoldable pub copy_into : List ℕ → ℕ → List ℕ → List ℕ × ℕ
copy_into dst at src =
    let n = min (length dst - at) (length src) in
    (take at dst ++ (take n src ++ drop (at + n) dst), n)

-- A change of the `len` bytes of `dst` from `at`.
unfoldable pub change : (List ℕ → List ℕ) → List ℕ → ℕ → ℕ → List ℕ
change f dst at len = take at dst ++ (f (take len (drop at dst)) ++ drop (at + len) dst)

unfoldable pub flip_first : ℕ → List ℕ → List ℕ
flip_first mask [] = []
flip_first mask (c ∷ p) = bit_xor c mask ∷ p

unfoldable pub flip_second : ℕ → List ℕ → List ℕ
flip_second mask [] = []
flip_second mask (c ∷ p) = c ∷ flip_first mask p

-- The bytes, and how many the character has.
unfoldable pub to_upper_case : List ℕ → List ℕ × ℕ
to_upper_case [] = ([], 0)
to_upper_case (c ∷ p) =
    if ltb c 0xC0
    then ((if leb 97 c && leb c 122 then bit_xor c 32 else c) ∷ p, 1)
    else if ltb c 0xE0
    then (c ∷ flip_first 32 p, 2)
    else (c ∷ flip_second 5 p, 3)

-- The loop of TransformUppercaseAll, on fuel: a round for each byte is enough.
unfoldable pub upper_all : ℕ → List ℕ → List ℕ
upper_all zero p = p
upper_all (suc fuel) [] = []
upper_all (suc fuel) (c ∷ p) =
    let upper = to_upper_case (c ∷ p) in
    let n = min upper.1 (length (c ∷ p)) in take n upper.0 ++ upper_all fuel (drop n upper.0)

-- `wordStart` and `wordLen` for the type.
unfoldable pub word_range : ℕ → ℕ → ℕ × ℕ
word_range t len =
    let skip = min (t - 11) len in
    if leb t 9 then (0, len - t) else if leb 12 t && leb t 20 then (skip, len - skip) else (0, len)

unfoldable pub change_case : ℕ → List ℕ → List ℕ
change_case t p =
    if t == 10 then (to_upper_case p).0 else if t == 11 then upper_all (length p) p else p

-- What is in `dst` after it, and `idx`.
unfoldable pub write_transformed : List ℕ → List ℕ → ℕ → List ℕ → List ℕ → Option (List ℕ × ℕ)
write_transformed dst prefix t suffix word =
    let (dst, idx) = copy_into dst 0 prefix in
    let (word_start, word_len) = word_range t (length word) in
    if ltb (length dst) (idx + word_len)
    then none
    else let dst = (copy_into dst idx (take word_len (drop word_start word))).0 in
      let dst = change (change_case t) dst idx word_len in
      let (dst, copied) = copy_into dst (idx + word_len) suffix in
      some (dst, idx + word_len + copied)

unfoldable pub transform_dictionary_word : List ℕ → List ℕ → ℕ → Option (List ℕ × ℕ)
transform_dictionary_word dst word transform_idx = do
  p ← get_elem? transform_triplets (transform_idx * 3)
  prefix ← get_elem? transform_prefix_suffix p
  t ← get_elem? transform_triplets (transform_idx * 3 + 1)
  s ← get_elem? transform_triplets (transform_idx * 3 + 2)
  suffix ← get_elem? transform_prefix_suffix s
  write_transformed dst prefix t suffix word
