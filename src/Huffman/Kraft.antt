-- ===== src/Huffman/Kraft.antt =====
-- The first codes of the lengths of convertBitDepthsToSymbols of internal/encoder/huffman_encode.go,
-- as shares of the whole code space.
use native.Mathlib.Nat.{pow-suc, add-mul}
use go_brrr.Prelude.{
  ℕ, zero, suc, ◌+◌, ◌-◌, ◌*◌, ◌/◌, ◌^◌, ◌≤◌, ◌<◌, ◌≡◌, refl, ap, sym, ◌∙◌, List, [], ◌∷◌, ◌==◌,
  ltb, if◌then◌else◌, All, arith, Bool-cases, true, false, inl, inr, ==_iff,
}
use go_brrr.Prelude.Tables.{all_below, all_below_sound}
use go_brrr.CodeLengths.Loop.{space_taken}
use go_brrr.Huffman.Codes.{first_codes}
use go_brrr.Huffman.Counts.{count_of}

-- The counts of the lengths, none for the depth 0.
unfoldable pub counts_of : List ℕ → ℕ → ℕ
unfolding count_of
counts_of depth l = if l == 0 then 0 else count_of l depth

-- The space, of 2 ^ 16, of the lengths below l.
unfoldable pub space_below : (ℕ → ℕ) → ℕ → ℕ
space_below counts zero = 0
space_below counts (suc l) = space_below counts l + counts l * 2 ^ (16 - l)

doubled : (a b p s : ℕ) → a * (2 * p) ≡ s → (a + b) * 2 * p ≡ s + b * (2 * p)
doubled a b p s h = grind arith

pub first_codes-space :
    (counts : ℕ → ℕ) (l : ℕ) → l ≤ 16 → first_codes counts l * 2 ^ (16 - l) ≡ space_below counts l
unfolding first_codes space_below
first_codes-space counts zero h = omega arith
first_codes-space counts (suc l) h =
    let width : 16 - l ≡ suc (15 - l) = omega arith in
    let rest : 16 - suc l ≡ 15 - l = omega arith in
    let before = first_codes-space counts l (omega arith) in
    let double : 2 ^ (16 - l) ≡ 2 * 2 ^ (15 - l) =
      ap (λ (t : ℕ). 2 ^ t) width ∙ omega (arith, pow-suc 2 (15 - l)) in
    rw (rest, double)
      (doubled (first_codes counts l) (counts l) (2 ^ (15 - l)) (space_below counts l)
        (ap (λ (t : ℕ). first_codes counts l * t) (sym double) ∙ before))

pub space_below_mono :
    (counts : ℕ → ℕ) (l n : ℕ) → space_below counts l ≤ space_below counts (l + n)
unfolding space_below
space_below_mono counts l zero = let e : l + 0 ≡ l = omega arith in rw e (omega arith)
space_below_mono counts l (suc n) =
    let e : l + suc n ≡ suc (l + n) = omega arith in
    rw e (omega (arith, space_below_mono counts l n))

counts_of-cons :
    (d : ℕ) (depth : List ℕ) (l : ℕ)
    → 1 ≤ d
    → counts_of (d ∷ depth) l ≡ counts_of depth l + (if d == l then 1 else 0)
unfolding counts_of count_of
counts_of-cons d depth l h = ground arith

-- The terms of one length, with its share of 2 ^ (16 - l) each.
one_length :
    (d l s s' c c' : ℕ)
    → s' ≡ s + (if ltb d l then 2 ^ (16 - d) else 0)
    → c' ≡ c + (if d == l then 1 else 0)
    → s' + c' * 2 ^ (16 - l) ≡ s + c * 2 ^ (16 - l) + (if ltb d (suc l) then 2 ^ (16 - d) else 0)
one_length d l s s' c c' e f = elim (Bool-cases (d == l)) [
  | inl at ↦ rw (e, f, at) (equal d ((==_iff d l).0 at))
  | inr other ↦ rw (e, f, other) (ground (arith, apart))
]
  where
    equal :
        (d : ℕ)
        → d ≡ l
        → s + (if ltb d l then 2 ^ (16 - d) else 0) + (c + 1) * 2 ^ (16 - l)
          ≡ s + c * 2 ^ (16 - l) + (if ltb d (suc l) then 2 ^ (16 - d) else 0)
    equal d same =
        let here : ltb l l ≡ false = ground arith in
        let later : ltb l (suc l) ≡ true = ground arith in
        rw (same, here, later) (omega (arith, add-mul c 1 (2 ^ (16 - l))))

    apart : c + 0 ≡ c
    apart = omega arith

-- One depth more takes its share.
space_below-cons :
    (d : ℕ) (depth : List ℕ) (l : ℕ)
    → 1 ≤ d
    → space_below (counts_of (d ∷ depth)) l
      ≡ space_below (counts_of depth) l + (if ltb d l then 2 ^ (16 - d) else 0)
unfolding space_below
space_below-cons d depth zero h = let none : ltb d 0 ≡ false = ground arith in rw none (omega arith)
space_below-cons d depth (suc l) h =
    one_length d l (space_below (counts_of depth) l) _ (counts_of depth l) _
      (space_below-cons d depth l h) (counts_of-cons d depth l h)

share : (d : ℕ) → d < 16 → 2 ^ (16 - d) ≡ 2 * (32768 / 2 ^ d)
unfolding all_below
share d h = (==_iff _ _).0 (all_below_sound 16 (λ d. 2 ^ (16 - d) == 2 * (32768 / 2 ^ d)) d refl h)

-- A depth 0 counts for nothing.
counts_of-zero : (depth : List ℕ) (l : ℕ) → counts_of (0 ∷ depth) l ≡ counts_of depth l
unfolding counts_of count_of
counts_of-zero depth l = ground arith

none_of : (l : ℕ) → counts_of [] l ≡ 0
unfolding counts_of count_of
none_of l = ground arith

no_space : (l : ℕ) → space_below (counts_of []) l ≡ 0
unfolding space_below
no_space zero = refl
no_space (suc l) = let e : counts_of [] l ≡ 0 = none_of l in rw e (omega (arith, no_space l))

-- Twice the space that the decoder counts down from 2 ^ 15.
pub space_below-taken :
    (depth : List ℕ)
    → All (λ d. d ≤ 15) depth
    → space_below (counts_of depth) 16 ≡ 2 * space_taken depth
unfolding space_taken
space_below-taken [] a = no_space 16
space_below-taken (zero ∷ depth) a =
    ap (λ (f : ℕ → ℕ). space_below f 16) (λ i l. counts_of-zero depth l i)
    ∙ space_below-taken depth a.1
space_below-taken (suc d ∷ depth) a =
    let some : (suc d == 0) ≡ false = ground arith in
    let low : ltb (suc d) 16 ≡ true = ground (arith, a.0) in
    rw some (
      space_below-cons (suc d) depth 16 (omega arith)
      ∙ rw low (omega (arith, space_below-taken depth a.1, share (suc d) (omega (arith, a.0)))))
