-- ===== src/CodeLengths/Loop.antt =====
-- The loop of readSymbolCodeLengths of decode.go: it stops after the last length of a complete
-- code, where the space is used up.
use go_brrr.Prelude.{
  ℕ, zero, suc, ◌+◌, ◌/◌, ◌^◌, ◌≤◌, ◌<◌, ◌≡◌, refl, ap, subst, ◌∙◌, List, [], ◌∷◌, ◌++◌, ◌==◌,
  arith, replicate, if◌then◌else◌, true, false, length, All, All-after, Bool, ltb, ltb→lt, ◌&&◌,
  length-append,
}
use go_brrr.Prelude.Tables.{all_below, all_below_sound}
use go_brrr.CodeLengths.Encode.{Code}
use go_brrr.CodeLengths.Decode.{
  Assigned, LengthReader, assign, sub64, process, read_symbol_code_lengths,
}
use go_brrr.CodeLengths.Assign.{assign_all}
use go_brrr.CodeLengths.Reads.{Reads, symbol-assign_all}

-- The space that the lengths take, of 2 ^ 15: 2 ^ (15 - l) for a length l, none for 0.
unfoldable pub space_taken : List ℕ → ℕ
space_taken [] = 0
space_taken (d ∷ depth) =
    let rest = space_taken depth in if d == 0 then rest else 32768 / 2 ^ d + rest

unfoldable pub EndsPlain : List ℕ → Type 0
EndsPlain [] = Unit {0}
EndsPlain (d ∷ []) = (d == 0) ≡ false
EndsPlain (d ∷ e ∷ depth) = EndsPlain (e ∷ depth)

at_least_one : (d : ℕ) → d ≤ 15 → 0 < 32768 / 2 ^ d
unfolding all_below
at_least_one d h = ltb→lt _ _ (all_below_sound 16 (λ d. ltb 0 (32768 / 2 ^ d)) d refl (omega arith))

positive :
    (d : ℕ) (depth : List ℕ)
    → All (λ d. d ≤ 15) (d ∷ depth)
    → EndsPlain (d ∷ depth)
    → 0 < space_taken (d ∷ depth)
unfolding space_taken EndsPlain
positive d [] a e = rw e (omega (arith, at_least_one d a.0))
positive d (x ∷ depth) a e = ground (arith, positive x depth a.1 e)

ends-append : (ls ms : List ℕ) → EndsPlain (ls ++ ms) → EndsPlain ms
unfolding EndsPlain
ends-append [] ms e = e
ends-append (l ∷ []) [] e = tt
ends-append (l ∷ []) (m ∷ ms) e = e
ends-append (l ∷ k ∷ ls) ms e = ends-append (k ∷ ls) ms e

space-assign :
    (l : ℕ) (ms : List ℕ) (a : Assigned)
    → a.space ≡ space_taken (l ∷ ms)
    → a.space < 2 ^ 64
    → ((assign l a).space ≡ space_taken ms) × (space_taken ms ≤ a.space)
unfolding space_taken assign sub64
space-assign zero ms a e b = (e, omega (arith, e))
space-assign (suc l) ms a e b =
    let some : (suc l == 0) ≡ false = ground arith in
    let whole : a.space ≡ 32768 / 2 ^ suc l + space_taken ms =
      e
      ∙ ap (λ (t : Bool). if t then space_taken ms else 32768 / 2 ^ suc l + space_taken ms) some in
    rw some (omega (arith, whole, b), omega (arith, whole))

pub space-assign_all :
    (ls ms : List ℕ) (a : Assigned)
    → a.space ≡ space_taken (ls ++ ms)
    → a.space < 2 ^ 64
    → ((assign_all ls a).space ≡ space_taken ms) × (space_taken ms ≤ a.space)
unfolding assign_all
space-assign_all [] ms a e b = (e, omega (arith, e))
space-assign_all (l ∷ ls) ms a e b =
    let (f, c) = space-assign l (ls ++ ms) a e b in
    let (g, d) = space-assign_all ls ms (assign l a) f (omega (arith, f, c, b)) in
    (g, omega (arith, f, c, d))

-- The symbols that a loop starts with are read, and no more, when their lengths take the space and
-- the last of them takes some.
pub read_symbol_code_lengths-Reads :
    (m : ℕ) (h g : LengthReader) (codes more : List Code) (lens : List ℕ)
    → Reads m h codes lens g
    → All (λ d. d ≤ 15) lens
    → EndsPlain lens
    → h.assigned.space ≡ space_taken lens
    → h.assigned.space < 2 ^ 64
    → h.assigned.symbol + length lens ≤ m
    → read_symbol_code_lengths m (codes ++ more) h ≡ (more, g)
unfolding read_symbol_code_lengths Reads
read_symbol_code_lengths-Reads m h g [] [] lens (n, same) a e s b r = rw same refl
read_symbol_code_lengths-Reads m h g [] (c ∷ more) lens (n, same) a e s b r =
    let empty : h.assigned.space ≡ 0 = s ∙ ap space_taken n ∙ unfold space_taken in refl in
    let stop : (ltb h.assigned.symbol m && ltb 0 h.assigned.space) ≡ false = ground arith in
    rw stop (ap (λ (k : LengthReader). (c ∷ more, k)) same)
read_symbol_code_lengths-Reads m h g (c ∷ codes) more lens (l, n, rest, e, w, q) a p s b r =
    let each = subst (All (λ d. d ≤ 15)) e a in
    let ends = subst EndsPlain e p in
    let space = s ∙ ap space_taken e in
    let some = positive l (replicate n l ++ rest) each ends in
    let (left, fewer) = space-assign_all (replicate (suc n) l) rest h.assigned space b in
    let go_on : (ltb h.assigned.symbol m && ltb 0 h.assigned.space) ≡ true =
      ground (arith, space, some, r, ap length e) in
    rw go_on (
      read_symbol_code_lengths-Reads m (process m c h) g codes more rest q
        (All-after _ (replicate (suc n) l) rest each) (ends-append (replicate (suc n) l) rest ends)
        (ap (λ (k : Assigned). k.space) w ∙ left)
        (omega (arith, ap (λ (k : Assigned). k.space) w, left, fewer, b))
        (omega (
          arith,
          ap (λ (k : Assigned). k.symbol) w,
          symbol-assign_all (replicate (suc n) l) h.assigned,
          length-append (replicate (suc n) l) rest,
          ap length e,
          r,
        )))
