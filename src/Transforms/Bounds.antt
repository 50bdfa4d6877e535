-- ===== src/Transforms/Bounds.antt =====
-- The 121 transforms of internal/core/transforms.go, how long they make a word, and the cut-offs.
use go_brrr.Prelude.{
  ℕ, zero, suc, ◌+◌, ◌-◌, ◌*◌, ◌≤◌, ◌<◌, ◌≡◌, refl, ap, ◌∙◌, List, [], ◌∷◌, ◌++◌, some, true, false,
  ◌&&◌, ◌==◌, ltb, leb, length, take, drop, get_elem?, get_or, arith, Bool, append-nil,
}
use go_brrr.Prelude.Tables.{all_below, all_below_sound}
use go_brrr.Transforms.Table.{
  transform_prefix_suffix, transform_triplets, triplets_0, triplets_1, triplets_2,
  transform_cut_offs,
}
use go_brrr.Transforms.Word.{transform_dictionary_word, word_range, change_case}
use go_brrr.Transforms.Written.{
  transformed, length-transformed, write_transformed-transformed, used_part,
}

abbrev triplet : ℕ → ℕ → ℕ
triplet transform_idx k = get_or transform_triplets (transform_idx * 3 + k) 0

abbrev affix : ℕ → List ℕ
affix i = get_or transform_prefix_suffix i []

-- The word under one of the transforms, without a buffer.
unfoldable pub word_form : ℕ → List ℕ → List ℕ
word_form transform_idx word =
    transformed (affix (triplet transform_idx 0)) (triplet transform_idx 1)
      (affix (triplet transform_idx 2)) word

known {ℓ} :
    {A : Type ℓ} (xs : List A) (i : ℕ) (d : A)
    → i < length xs
    → get_elem? xs i ≡ some (get_or xs i d)
known [] i d h = elim h [ ]
known (x ∷ xs) zero d h = refl
known (x ∷ xs) (suc i) d h = known xs i d (omega arith)

-- Every row names strings of the table, of 13 bytes at most together.
row_holds : ℕ → Bool
row_holds i =
    ltb (triplet i 0) 50
    && ltb (triplet i 2) 50
    && leb (length (affix (triplet i 0)) + length (affix (triplet i 2))) 13

rows_hold : all_below 121 row_holds ≡ true
unfolding all_below row_holds transform_prefix_suffix transform_triplets triplets_0 triplets_1
    triplets_2
rows_hold = refl

row-facts :
    (i : ℕ)
    → i < 121
    → (triplet i 0 < 50)
      × (triplet i 2 < 50)
      × (length (affix (triplet i 0)) + length (affix (triplet i 2)) ≤ 13)
unfolding row_holds
row-facts i h = let e = all_below_sound 121 row_holds i rows_hold h in ground (arith, e)

triplets-length : length transform_triplets ≡ 363
unfolding transform_triplets triplets_0 triplets_1 triplets_2
triplets-length = refl

affixes-length : length transform_prefix_suffix ≡ 50
unfolding transform_prefix_suffix
affixes-length = refl

word_range-short : (t len : ℕ) → (word_range t len).1 ≤ len
unfolding word_range
word_range-short t len = ground arith

-- Each of the 121 transforms adds at most 13 bytes to a word.
pub length-word_form :
    (transform_idx : ℕ) (word : List ℕ)
    → transform_idx < 121
    → length (word_form transform_idx word) ≤ length word + 13
unfolding word_form
length-word_form i word h =
    let (p, s, sum) = row-facts i h in
    omega (
      arith,
      sum,
      length-transformed (affix (triplet i 0)) (triplet i 1) (affix (triplet i 2)) word,
      word_range-short (triplet i 1) (length word),
    )

-- For each of the 121 transforms and any word, in a buffer that has room for the word and 13 bytes
-- more, TransformDictionaryWord does not panic: it leaves the prefix, the part of the word that the
-- transform keeps with its case changed, and the suffix at the start of the buffer, the rest of the
-- buffer as it was, and returns their length.
pub transform_dictionary_word-word_form :
    (dst word : List ℕ) (transform_idx : ℕ)
    → transform_idx < 121
    → length word + 13 ≤ length dst
    → transform_dictionary_word dst word transform_idx
      ≡ some (
        word_form transform_idx word ++ drop (length (word_form transform_idx word)) dst,
        length (word_form transform_idx word),
      )
unfolding transform_dictionary_word word_form
transform_dictionary_word-word_form dst word i h b =
    let (p, s, sum) = row-facts i h in
    let first : get_elem? transform_triplets (i * 3) ≡ some (triplet i 0) =
      known transform_triplets (i * 3) 0 (omega (arith, triplets-length))
      ∙ ap (λ (k : ℕ). some (get_or transform_triplets k 0)) (omega arith) in
    let second = known transform_triplets (i * 3 + 1) 0 (omega (arith, triplets-length)) in
    let third = known transform_triplets (i * 3 + 2) 0 (omega (arith, triplets-length)) in
    let prefix =
      known transform_prefix_suffix (triplet i 0) [] (omega (arith, affixes-length, p)) in
    let suffix =
      known transform_prefix_suffix (triplet i 2) [] (omega (arith, affixes-length, s)) in
    rw (first, prefix, second, third, suffix)
      (write_transformed-transformed dst (affix (triplet i 0)) (triplet i 1) (affix (triplet i 2))
        word (omega (arith, length-word_form i word h, b)))

cut_off_row : ℕ → Bool
cut_off_row n =
    let i = get_or transform_cut_offs n 0 in
    triplet i 0 == 49 && triplet i 1 == n && triplet i 2 == 49

cut_off_rows : all_below 10 cut_off_row ≡ true
unfolding all_below cut_off_row transform_cut_offs transform_triplets triplets_0 triplets_1
    triplets_2
cut_off_rows = refl

no_affix : affix 49 ≡ []
unfolding transform_prefix_suffix
no_affix = refl

cut_off-facts :
    (n : ℕ)
    → n < 10
    → (triplet (get_or transform_cut_offs n 0) 0 ≡ 49)
      × (triplet (get_or transform_cut_offs n 0) 1 ≡ n)
      × (triplet (get_or transform_cut_offs n 0) 2 ≡ 49)
unfolding cut_off_row
cut_off-facts n h = let e = all_below_sound 10 cut_off_row n cut_off_rows h in ground (arith, e)

only_cut : (n : ℕ) (word : List ℕ) → n < 10 → transformed [] n [] word ≡ take (length word - n) word
unfolding transformed change_case used_part word_range
only_cut n word h =
    let small : leb n 9 ≡ true = ground arith in
    let first : (n == 10) ≡ false = ground arith in
    let every : (n == 11) ≡ false = ground arith in
    rw (small, first, every) (append-nil (take (length word - n) word))

-- The transform that TransformCutOffs gives for n from 0 to 9 takes the last n bytes off a word, or
-- all of a shorter one, and adds nothing.
pub word_form-transform_cut_offs :
    (n : ℕ) (word : List ℕ)
    → n < 10
    → word_form (get_or transform_cut_offs n 0) word ≡ take (length word - n) word
unfolding word_form
word_form-transform_cut_offs n word h =
    let (p, t, s) = cut_off-facts n h in rw (p, t, s, no_affix) (only_cut n word h)
