-- ===== src/Context/Ids.antt =====
-- What the contexts are, in place of the table.
use go_brrr.Prelude.{
  ℕ, ◌+◌, ◌*◌, ◌/◌, ◌%◌, ◌-◌, ◌<◌, ◌≡◌, refl, Bool, true, ◌&&◌, ◌||◌, ltb, leb, ◌==◌, if◌then◌else◌,
  List, get_or, bit_or, arith, ap₂, ==_iff, ◌∙◌, suc, zero,
}
use go_brrr.Prelude.BitOps.{bit_or-zero, shifted-bit_or}
use go_brrr.Prelude.Tables.{all_below, all_below_sound}
use go_brrr.Context.Simple.{lsb6_p1, lsb6_p2, msb6_p1, msb6_p2}
use go_brrr.Context.Classes.{utf8_p1, utf8_p2, signed_p1, signed_p2}
use go_brrr.Context.{context_lookup_table, context_lookup}

between : ℕ → ℕ → ℕ → Bool
between lo hi b = leb lo b && leb b hi

-- The vowels, as offsets from the letter a.
vowel : ℕ → Bool
vowel o = o == 0 || o == 4 || o == 8 || o == 14 || o == 20

-- The class of a last byte that is a character: white space, the sorts of punctuation, digits,
-- vowels and consonants in upper and lower case.
character_class : ℕ → ℕ
unfolding between vowel
character_class b =
    if b == 9 || b == 10 || b == 13
    then 1
    else if ltb b 32 || b == 127
    then 0
    else if b == 32
    then 2
    else if b == 34 || b == 39
    then 4
    else if b == 37
    then 5
    else if b == 40 || b == 60 || b == 91 || b == 123
    then 6
    else if b == 41 || b == 62 || b == 93 || b == 125
    then 7
    else if b == 44 || b == 58 || b == 59
    then 8
    else if b == 46
    then 9
    else if b == 61
    then 10
    else if between 48 57 b
    then 11
    else if between 65 90 b
    then (if vowel (b - 65) then 12 else 13)
    else if between 97 122 b
    then (if vowel (b - 97) then 14 else 15)
    else 3

-- Of a multi-byte sequence: a continuation byte gives 0 or 1, a lead byte 2 or 3.
unfoldable pub utf8_last : ℕ → ℕ
unfolding character_class
utf8_last b = if ltb b 128 then character_class b * 4 else if ltb b 192 then b % 2 else 2 + b % 2

-- Of the byte before: space and control, punctuation, digits and upper case, lower case; from 224
-- on, 2.
unfoldable pub utf8_before : ℕ → ℕ
unfolding between
utf8_before b =
    if leb b 32 || between 127 223 b
    then 0
    else if between 97 122 b
    then 3
    else if between 48 57 b || between 65 90 b || leb 224 b
    then 2
    else 1

-- Eight ranges of a signed byte.
unfoldable pub magnitude : ℕ → ℕ
magnitude b =
    if b == 0
    then 0
    else if ltb b 16
    then 1
    else if ltb b 64
    then 2
    else if ltb b 128
    then 3
    else if ltb b 192
    then 4
    else if ltb b 240
    then 5
    else if ltb b 255
    then 6
    else 7

-- The context of two bytes in a mode.
unfoldable pub context_id : ℕ → ℕ → ℕ → ℕ
context_id mode p1 p2 =
    if mode == 0
    then p1 % 64
    else if mode == 1
    then p1 / 4
    else if mode == 2
    then bit_or (utf8_last p1) (utf8_before p2)
    else magnitude p1 * 8 + magnitude p2

-- A region of the table is a function of the byte.
region :
    (xs : List ℕ) (f : ℕ → ℕ) (b : ℕ)
    → all_below 256 (λ x. get_or xs x 0 == f x) ≡ true
    → b < 256
    → get_or xs b 0 ≡ f b
region xs f b t h = (==_iff _ _).0 (all_below_sound 256 (λ x. get_or xs x 0 == f x) b t h)

lsb6_p1_table : all_below 256 (λ x. get_or lsb6_p1 x 0 == x % 64) ≡ true
unfolding all_below lsb6_p1
lsb6_p1_table = refl

lsb6_p2_table : all_below 256 (λ x. get_or lsb6_p2 x 0 == 0) ≡ true
unfolding all_below lsb6_p2
lsb6_p2_table = refl

msb6_p1_table : all_below 256 (λ x. get_or msb6_p1 x 0 == x / 4) ≡ true
unfolding all_below msb6_p1
msb6_p1_table = refl

msb6_p2_table : all_below 256 (λ x. get_or msb6_p2 x 0 == 0) ≡ true
unfolding all_below msb6_p2
msb6_p2_table = refl

utf8_p1_table : all_below 256 (λ x. get_or utf8_p1 x 0 == utf8_last x) ≡ true
unfolding all_below utf8_p1 utf8_last
utf8_p1_table = refl

utf8_p2_table : all_below 256 (λ x. get_or utf8_p2 x 0 == utf8_before x) ≡ true
unfolding all_below utf8_p2 utf8_before
utf8_p2_table = refl

signed_p1_table : all_below 256 (λ x. get_or signed_p1 x 0 == magnitude x * 8) ≡ true
unfolding all_below signed_p1 magnitude
signed_p1_table = refl

signed_p2_table : all_below 256 (λ x. get_or signed_p2 x 0 == magnitude x) ≡ true
unfolding all_below signed_p2 magnitude
signed_p2_table = refl

magnitude_lt : (b : ℕ) → magnitude b < 8
unfolding magnitude
magnitude_lt b = ground arith

-- For each of the four modes and any two bytes, the table's context is the one that the mode
-- describes: the low six bits, the high six bits, the character classes, or the ranges of two
-- signed bytes.
pub context_lookup-context_id :
    (mode p1 p2 : ℕ)
    → mode < 4
    → p1 < 256
    → p2 < 256
    → context_lookup mode p1 p2 ≡ context_id mode p1 p2
unfolding context_lookup context_lookup_table context_id
context_lookup-context_id zero p1 p2 m h g =
    ap₂ bit_or (region lsb6_p1 (λ x. x % 64) p1 lsb6_p1_table h)
      (region lsb6_p2 (λ x. 0) p2 lsb6_p2_table g)
    ∙ bit_or-zero (p1 % 64)
context_lookup-context_id (suc zero) p1 p2 m h g =
    ap₂ bit_or (region msb6_p1 (λ x. x / 4) p1 msb6_p1_table h)
      (region msb6_p2 (λ x. 0) p2 msb6_p2_table g)
    ∙ bit_or-zero (p1 / 4)
context_lookup-context_id (suc (suc zero)) p1 p2 m h g =
    ap₂ bit_or (region utf8_p1 utf8_last p1 utf8_p1_table h)
      (region utf8_p2 utf8_before p2 utf8_p2_table g)
context_lookup-context_id (suc (suc (suc zero))) p1 p2 m h g =
    ap₂ bit_or (region signed_p1 (λ x. magnitude x * 8) p1 signed_p1_table h)
      (region signed_p2 magnitude p2 signed_p2_table g)
    ∙ shifted-bit_or 3 (magnitude p1) (magnitude p2) (magnitude_lt p2)
context_lookup-context_id (suc (suc (suc (suc mode)))) p1 p2 m h g = absurd (omega arith)
