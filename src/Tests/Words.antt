-- ===== src/Tests/Words.antt =====
-- Dictionary words.
use go_brrr.Prelude.{
  ℕ, ◌-◌, ◌≡◌, ◌≤◌, ◌+◌, refl, List, [], ◌∷◌, ◌++◌, some, none, arith, replicate, drop, take,
  length, get_or,
}
use go_brrr.Transforms.Table.{
  transform_prefix_suffix, transform_triplets, triplets_0, triplets_1, triplets_2,
  transform_cut_offs,
}
use go_brrr.Transforms.Word.{
  transform_dictionary_word, write_transformed, copy_into, change, word_range, change_case,
  to_upper_case, upper_all, flip_first, flip_second,
}
use go_brrr.Transforms.Bounds.{
  word_form, length-word_form, transform_dictionary_word-word_form, word_form-transform_cut_offs,
}

abbrev time_word : List ℕ
time_word = 116 ∷ 105 ∷ 109 ∷ 101 ∷ []

-- "time" becomes "Time ".
transform_dictionary_word-test :
    transform_dictionary_word (replicate 7 0) time_word 4
    ≡ some (84 ∷ 105 ∷ 109 ∷ 101 ∷ 32 ∷ 0 ∷ 0 ∷ [], 5)
unfolding transform_dictionary_word transform_prefix_suffix transform_triplets triplets_0 triplets_1
    triplets_2 write_transformed copy_into change word_range change_case to_upper_case upper_all
    flip_first flip_second
transform_dictionary_word-test = refl

-- There are 121 transforms, and the word must fit.
transform_dictionary_word-panics :
    (transform_dictionary_word (replicate 7 0) time_word 121 ≡ none)
    × (transform_dictionary_word (replicate 3 0) time_word 0 ≡ none)
unfolding transform_dictionary_word transform_prefix_suffix transform_triplets triplets_0 triplets_1
    triplets_2 write_transformed copy_into word_range
transform_dictionary_word-panics = (refl, refl)

transform_dictionary_word-word_form_example :
    transform_dictionary_word (replicate 20 0) time_word 4
    ≡ some (
      word_form 4 time_word ++ drop (length (word_form 4 time_word)) (replicate 20 0),
      length (word_form 4 time_word),
    )
transform_dictionary_word-word_form_example =
    transform_dictionary_word-word_form (replicate 20 0) time_word 4 (omega arith) (omega arith)

length-word_form_example : length (word_form 73 time_word) ≤ length time_word + 13
length-word_form_example = length-word_form 73 time_word (omega arith)

word_form-transform_cut_offs_example :
    word_form (get_or transform_cut_offs 3 0) time_word ≡ take (length time_word - 3) time_word
word_form-transform_cut_offs_example = word_form-transform_cut_offs 3 time_word (omega arith)
