-- ===== src/Transforms/Written.antt =====
-- What TransformDictionaryWord of internal/core/transforms.go leaves in a buffer.
use go_brrr.Prelude.{
  ℕ, zero, suc, ◌+◌, ◌-◌, ◌≤◌, ◌≡◌, refl, ap, ap₂, sym, ◌∙◌, List, [], ◌∷◌, ◌++◌, some, false, ◌==◌,
  ltb, min, drop-past, drop-drop, length, take, drop, arith, Bool-cases, inl, inr, length-append,
  length-take, length-drop, append_assoc,
}
use go_brrr.Prelude.BitStream.{take_exact, drop_exact}
use go_brrr.Transforms.Word.{
  copy_into, change, flip_first, flip_second, to_upper_case, upper_all, word_range, change_case,
  write_transformed,
}

length-flip_first : (mask : ℕ) (p : List ℕ) → length (flip_first mask p) ≡ length p
unfolding flip_first
length-flip_first mask [] = refl
length-flip_first mask (c ∷ p) = refl

length-flip_second : (mask : ℕ) (p : List ℕ) → length (flip_second mask p) ≡ length p
unfolding flip_second
length-flip_second mask [] = refl
length-flip_second mask (c ∷ p) = ap suc (length-flip_first mask p)

length-to_upper_case : (p : List ℕ) → length (to_upper_case p).0 ≡ length p
unfolding to_upper_case
length-to_upper_case [] = refl
length-to_upper_case (c ∷ p) = elim (Bool-cases (ltb c 0xC0)) [
  | inl e ↦ rw e refl
  | inr e ↦ elim (Bool-cases (ltb c 0xE0)) [
    | inl d ↦ rw (e, d) (ap suc (length-flip_first 32 p))
    | inr d ↦ rw (e, d) (ap suc (length-flip_second 5 p))
  ]
]

length-upper_all : (fuel : ℕ) (p : List ℕ) → length (upper_all fuel p) ≡ length p
unfolding upper_all
length-upper_all zero p = refl
length-upper_all (suc fuel) [] = refl
length-upper_all (suc fuel) (c ∷ p) =
    let upper = to_upper_case (c ∷ p) in
    let n = min upper.1 (length (c ∷ p)) in
    omega (
      arith,
      length-append (take n upper.0) (upper_all fuel (drop n upper.0)),
      length-take n upper.0,
      length-drop n upper.0,
      length-upper_all fuel (drop n upper.0),
      length-to_upper_case (c ∷ p),
    )

length-change_case : (t : ℕ) (p : List ℕ) → length (change_case t p) ≡ length p
unfolding change_case
length-change_case t p = elim (Bool-cases (t == 10)) [
  | inl e ↦ rw e (length-to_upper_case p)
  | inr e ↦ elim (Bool-cases (t == 11)) [
    | inl d ↦ rw (e, d) (length-upper_all (length p) p)
    | inr d ↦ rw (e, d) refl
  ]
]

take_whole : (xs : List ℕ) → take (length xs) xs ≡ xs
take_whole [] = refl
take_whole (x ∷ xs) = ap (λ (t : List ℕ). x ∷ t) (take_whole xs)

copy_into-fits :
    (a b src : List ℕ) (n : ℕ)
    → length a ≡ n
    → length src ≤ length b
    → copy_into (a ++ b) n src ≡ (a ++ (src ++ drop (length src) b), length src)
unfolding copy_into
copy_into-fits a b src n l h =
    let count : min (length (a ++ b) - n) (length src) ≡ length src =
      omega (arith, length-append a b, l) in
    rw (count, take_exact n a b l, take_whole src, sym l, drop-past a b (length src)) refl

change-middle :
    (f : List ℕ → List ℕ) (a p r : List ℕ) (n k : ℕ)
    → length a ≡ n
    → length p ≡ k
    → change f (a ++ (p ++ r)) n k ≡ a ++ (f p ++ r)
unfolding change
change-middle f a p r n k l h =
    rw (take_exact n a (p ++ r) l, drop_exact n a (p ++ r) l, take_exact k p r h)
      (ap (λ (t : List ℕ). a ++ (f p ++ t))
        (ap (λ (m : ℕ). drop (m + k) (a ++ (p ++ r))) (sym l)
          ∙ drop-past a (p ++ r) k
          ∙ drop_exact k p r h))

-- The bytes of the word that are used.
unfoldable pub used_part : ℕ → List ℕ → List ℕ
used_part t word = let r = word_range t (length word) in take r.1 (drop r.0 word)

word_range-fits : (t len : ℕ) → (word_range t len).0 + (word_range t len).1 ≤ len
unfolding word_range
word_range-fits t len = ground arith

length-used_part :
    (t : ℕ) (word : List ℕ) → length (used_part t word) ≡ (word_range t (length word)).1
unfolding used_part
length-used_part t word =
    let r = word_range t (length word) in
    omega (
      arith,
      length-take r.1 (drop r.0 word),
      length-drop r.0 word,
      word_range-fits t (length word),
    )

-- The prefix, the used part of the word with its case changed, and the suffix.
unfoldable pub transformed : List ℕ → ℕ → List ℕ → List ℕ → List ℕ
transformed prefix t suffix word = prefix ++ (change_case t (used_part t word) ++ suffix)

pub length-transformed :
    (prefix : List ℕ) (t : ℕ) (suffix word : List ℕ)
    → length (transformed prefix t suffix word)
      ≡ length prefix + (word_range t (length word)).1 + length suffix
unfolding transformed
length-transformed prefix t suffix word = omega (
  arith,
  length-append prefix (change_case t (used_part t word) ++ suffix),
  length-append (change_case t (used_part t word)) suffix,
  length-change_case t (used_part t word),
  length-used_part t word,
)

pub write_transformed-transformed :
    (dst prefix : List ℕ) (t : ℕ) (suffix word : List ℕ)
    → length (transformed prefix t suffix word) ≤ length dst
    → write_transformed dst prefix t suffix word
      ≡ some (
        transformed prefix t suffix word ++ drop (length (transformed prefix t suffix word)) dst,
        length (transformed prefix t suffix word),
      )
unfolding write_transformed used_part transformed
write_transformed-transformed dst prefix t suffix word h =
    let whole = length-transformed prefix t suffix word in
    let part = used_part t word in
    let cased = change_case t part in
    let lp = length prefix in
    let wl = (word_range t (length word)).1 in
    let r = drop lp dst in
    let r' = drop (length part) r in
    let part-length = length-used_part t word in
    let first : copy_into dst 0 prefix ≡ (prefix ++ r, lp) =
      copy_into-fits [] dst prefix 0 refl (omega (arith, whole, h)) in
    let room : ltb (length (prefix ++ r)) (lp + wl) ≡ false =
      ground (arith, length-append prefix r, length-drop lp dst, whole, h) in
    let second : copy_into (prefix ++ r) lp (take wl (drop (word_range t (length word)).0 word))
        ≡ (prefix ++ (part ++ r'), length part) =
      copy_into-fits prefix r part lp refl
        (omega (arith, whole, h, length-drop lp dst, part-length)) in
    let third = change-middle (change_case t) prefix part r' lp wl refl part-length in
    let at : length (prefix ++ cased) ≡ lp + wl =
      omega (arith, length-append prefix cased, length-change_case t part, part-length) in
    let fourth =
      copy_into-fits (prefix ++ cased) r' suffix (lp + wl) at
        (omega (arith, whole, h, length-drop lp dst, length-drop (length part) r, part-length)) in
    let regroup = sym (append_assoc prefix cased r') in
    let rest : drop (length suffix) r' ≡ drop (length (transformed prefix t suffix word)) dst =
      ap (drop (length suffix)) (drop-drop lp (length part) dst)
      ∙ drop-drop (lp + length part) (length suffix) dst
      ∙ ap (λ (n : ℕ). drop n dst) (omega (arith, whole, part-length)) in
    rw (first, room, second, third, regroup, fourth)
      (ap₂ (λ (l : List ℕ) (n : ℕ). some (l, n))
        (sym (append_assoc (prefix ++ cased) suffix (drop (length suffix) r'))
          ∙ ap (λ (l : List ℕ). l ++ drop (length suffix) r') (append_assoc prefix cased suffix)
          ∙ ap (λ (l : List ℕ). transformed prefix t suffix word ++ l) rest)
        (sym whole))
