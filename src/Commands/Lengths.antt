-- ===== src/Commands/Lengths.antt =====
-- Insert and copy length codes (getInsertLenCode, getCopyLenCode) against the ranges of RFC 7932,
-- section 5.
use go_brrr.Prelude.{
  ℕ, zero, suc, ◌+◌, ◌-◌, ◌^◌, ◌≤◌, ◌<◌, ◌≡◌, refl, Bool, true, ◌&&◌, List, [], ◌∷◌, ltb, leb,
  get_or, arith, Bool-cases, lt-cases, inl, inr, ap, ◌∙◌,
}
use go_brrr.Prelude.BitOps.{bit_len}
use go_brrr.Prelude.Tables.{all_below, all_below_sound}
use go_brrr.Commands.{
  tabulate, get_insert_len_code_slow, get_copy_len_code_slow, insert_len_code_lut,
  copy_len_code_lut, get_insert_len_code, get_copy_len_code,
}

abbrev pub insert_offset : List ℕ
insert_offset =
    0 ∷ 1 ∷ 2 ∷ 3 ∷ 4 ∷ 5 ∷ 6 ∷ 8 ∷ 10 ∷ 14 ∷ 18 ∷ 26 ∷ 34 ∷ 50 ∷ 66 ∷ 98 ∷ 130 ∷ 194 ∷ 322 ∷ 578
    ∷ 1090 ∷ 2114 ∷ 6210 ∷ 22594 ∷ []

abbrev pub insert_extra : List ℕ
insert_extra =
    0 ∷ 0 ∷ 0 ∷ 0 ∷ 0 ∷ 0 ∷ 1 ∷ 1 ∷ 2 ∷ 2 ∷ 3 ∷ 3 ∷ 4 ∷ 4 ∷ 5 ∷ 5 ∷ 6 ∷ 7 ∷ 8 ∷ 9 ∷ 10 ∷ 12 ∷ 14
    ∷ 24 ∷ []

-- The first length of each copy code, as the RFC's table has it.
abbrev pub copy_offset : List ℕ
copy_offset =
    2 ∷ 3 ∷ 4 ∷ 5 ∷ 6 ∷ 7 ∷ 8 ∷ 9 ∷ 10 ∷ 12 ∷ 14 ∷ 18 ∷ 22 ∷ 30 ∷ 38 ∷ 54 ∷ 70 ∷ 102 ∷ 134 ∷ 198
    ∷ 326 ∷ 582 ∷ 1094 ∷ 2118 ∷ []

-- The source keeps these as float32 numbers.
abbrev pub copy_extra : List ℕ
copy_extra =
    0 ∷ 0 ∷ 0 ∷ 0 ∷ 0 ∷ 0 ∷ 0 ∷ 0 ∷ 1 ∷ 1 ∷ 2 ∷ 2 ∷ 3 ∷ 3 ∷ 4 ∷ 4 ∷ 5 ∷ 5 ∷ 6 ∷ 7 ∷ 8 ∷ 9 ∷ 10 ∷ 24
    ∷ []

-- Code `c` of an alphabet stands for the 2 ^ extra lengths from its offset on.
abbrev pub Covers : List ℕ → List ℕ → ℕ → ℕ → Type 0
Covers offsets extras c n =
    (c < 24) × (get_or offsets c 0 ≤ n) × (n < get_or offsets c 0 + 2 ^ get_or extras c 0)

abbrev covers : List ℕ → List ℕ → ℕ → ℕ → Bool
covers offsets extras c n =
    ltb c 24 && (leb (get_or offsets c 0) n && ltb n (get_or offsets c 0 + 2 ^ get_or extras c 0))

covers-Covers :
    (offsets extras : List ℕ) (c n : ℕ)
    → covers offsets extras c n ≡ true
    → Covers offsets extras c n
covers-Covers offsets extras c n h = ground arith

get_or-tabulate : (f : ℕ → ℕ) (i n j : ℕ) → j < n → get_or (tabulate f i n) j 0 ≡ f (i + j)
unfolding tabulate
get_or-tabulate f i zero j h = elim h [ ]
get_or-tabulate f i (suc n) zero h = cc (i_zero)
  where
    i_zero : i ≡ i + 0
    i_zero = omega arith
get_or-tabulate f i (suc n) (suc j) h = cc (get_or-tabulate f (i + 1) n j (omega arith), shift)
  where
    shift : i + 1 + j ≡ i + suc j
    shift = omega arith

insert_lut_lookup : (n : ℕ) → n < 130 → get_or insert_len_code_lut n 0 ≡ get_insert_len_code_slow n
unfolding insert_len_code_lut
insert_lut_lookup n h =
    get_or-tabulate get_insert_len_code_slow 0 130 n h
    ∙ ap get_insert_len_code_slow {x = 0 + n} {y = n} (omega arith)

-- The insert length table gives what the slow function computes.
pub get_insert_len_code-slow : (n : ℕ) → get_insert_len_code n ≡ get_insert_len_code_slow n
unfolding get_insert_len_code
get_insert_len_code-slow n = elim (Bool-cases (ltb n 130)) [
  | inl h ↦ rw h (insert_lut_lookup n (ground arith))
  | inr h ↦ rw h
]

copy_lut_lookup :
    (n : ℕ) → n < 134 → 2 ≤ n → get_or copy_len_code_lut n 0 ≡ get_copy_len_code_slow n
unfolding copy_len_code_lut
copy_lut_lookup zero p h = absurd (omega arith)
copy_lut_lookup (suc zero) p h = absurd (omega arith)
copy_lut_lookup (suc (suc n)) p h =
    get_or-tabulate get_copy_len_code_slow 2 132 n (omega arith)
    ∙ ap get_copy_len_code_slow {x = 2 + n} {y = suc (suc n)} (omega arith)

-- The copy length table gives what the slow function computes.
pub get_copy_len_code-slow : (n : ℕ) → get_copy_len_code n ≡ get_copy_len_code_slow n
unfolding get_copy_len_code
get_copy_len_code-slow n = elim (Bool-cases (ltb n 134 && leb 2 n)) [
  | inl h ↦ rw h (copy_lut_lookup n (ground arith) (ground arith))
  | inr h ↦ rw h
]

insert_table :
    all_below 2114 (λ n. covers insert_offset insert_extra (get_insert_len_code_slow n) n) ≡ true
unfolding all_below get_insert_len_code_slow bit_len
insert_table = refl

-- The code for an insert length covers it, up to the longest insert that the format can say.
pub get_insert_len_code-Covers :
    (n : ℕ) → n < 22594 + 2 ^ 24 → Covers insert_offset insert_extra (get_insert_len_code n) n
get_insert_len_code-Covers n h = rw get_insert_len_code-slow (elim (lt-cases n 2114) [
  | inl p ↦
      covers-Covers insert_offset insert_extra (get_insert_len_code_slow n) n
        (all_below_sound 2114 _ n insert_table p)
  | inr p ↦ long p
])
  where
    long : 2114 ≤ n → Covers insert_offset insert_extra (get_insert_len_code_slow n) n
    long p = unfold get_insert_len_code_slow in ground arith

copy_table :
    all_below 2116 (λ n. covers copy_offset copy_extra (get_copy_len_code_slow (n + 2)) (n + 2))
    ≡ true
unfolding all_below get_copy_len_code_slow bit_len
copy_table = refl

-- The code for a copy length covers it, from two bytes to the longest copy of the format.
pub get_copy_len_code-Covers :
    (n : ℕ) → 2 ≤ n → n < 2118 + 2 ^ 24 → Covers copy_offset copy_extra (get_copy_len_code n) n
get_copy_len_code-Covers n l h = rw get_copy_len_code-slow (elim (lt-cases n 2118) [
  | inl p ↦ covers-Covers copy_offset copy_extra (get_copy_len_code_slow n) n (short p)
  | inr p ↦ unfold get_copy_len_code_slow in ground arith
])
  where
    back : n - 2 + 2 ≡ n
    back = omega arith

    short : n < 2118 → covers copy_offset copy_extra (get_copy_len_code_slow n) n ≡ true
    short p = rw back at (all_below_sound 2116 _ (n - 2) copy_table (omega arith))
