-- ===== src/Huffman/Counts.antt =====
-- The histogram of convertBitDepthsToSymbols of internal/encoder/huffman_encode.go, taken over four
-- arrays at once, against a plain count, and the codes handed out in order.
use go_brrr.Prelude.{
  ℕ, zero, suc, ◌+◌, ◌%◌, ◌^◌, ◌≤◌, ◌<◌, ◌≡◌, refl, ap, ◌∙◌, List, [], ◌∷◌, ◌==◌, if◌then◌else◌,
  length, All, arith, get_or, take, Bool-cases, inl, inr, ==_iff, false, true,
}
use go_brrr.CodeLengths.Decode.{update}
use go_brrr.CodeLengths.Symbols.{positions}
use go_brrr.Huffman.Codes.{bump, tally, interleave, assign_codes, reverse_bits}

-- How many depths are l.
unfoldable pub count_of : ℕ → List ℕ → ℕ
count_of l [] = 0
count_of l (d ∷ depth) = (if d == l then 1 else 0) + count_of l depth

pub length-positions : (l k : ℕ) (depth : List ℕ) → length (positions l k depth) ≡ count_of l depth
unfolding positions count_of
length-positions l k [] = refl
length-positions l k (d ∷ depth) = ground (arith, length-positions l (k + 1) depth)

bump-count :
    (c : ℕ → ℕ) (d j : ℕ)
    → d ≤ 15
    → bump c d j % 2 ^ 16 ≡ (c j + (if d == j then 1 else 0)) % 2 ^ 16
unfolding bump update
bump-count c d j h =
    let low : d % 16 ≡ d = omega arith in
    rw low (elim (Bool-cases (d == j)) [
      | inl e ↦ rw ((==_iff d j).0 e) (ground arith)
      | inr e ↦ rw e (omega arith)
    ])

tally-count :
    (depth : List ℕ) (c : ℕ → ℕ) (j : ℕ)
    → All (λ d. d ≤ 15) depth
    → tally depth c j % 2 ^ 16 ≡ (c j + count_of j depth) % 2 ^ 16
unfolding tally count_of
tally-count [] c j a = omega arith
tally-count (d ∷ depth) c j a =
    omega (arith, tally-count depth (bump c d) j a.1, bump-count c d j a.0)

-- The four histograms together count every depth.
pub interleave-count :
    (depth : List ℕ) (c0 c1 c2 c3 : ℕ → ℕ) (j : ℕ)
    → All (λ d. d ≤ 15) depth
    → interleave depth c0 c1 c2 c3 j ≡ (c0 j + c1 j + c2 j + c3 j + count_of j depth) % 2 ^ 16
unfolding interleave count_of
interleave-count [] c0 c1 c2 c3 j h = omega arith
interleave-count (a ∷ []) c0 c1 c2 c3 j h = omega (arith, tally-count (a ∷ []) c0 j h)
interleave-count (a ∷ b ∷ []) c0 c1 c2 c3 j h = omega (arith, tally-count (a ∷ b ∷ []) c0 j h)
interleave-count (a ∷ b ∷ c ∷ []) c0 c1 c2 c3 j h =
    omega (arith, tally-count (a ∷ b ∷ c ∷ []) c0 j h)
interleave-count (a ∷ b ∷ c ∷ d ∷ depth) c0 c1 c2 c3 j (ha, (hb, (hc, (hd, h)))) = omega (
  arith,
  interleave-count depth (bump c0 a) (bump c1 b) (bump c2 c) (bump c3 d) j h,
  bump-count c0 a j ha,
  bump-count c1 b j hb,
  bump-count c2 c j hc,
  bump-count c3 d j hd,
)

pub next_of : ℕ → (ℕ → ℕ) → ℕ → ℕ
next_of d next = if d == 0 then next else update next (d % 16) ((next (d % 16) + 1) % 2 ^ 16)

next_of-count :
    (d l : ℕ) (next : ℕ → ℕ)
    → d ≤ 15
    → 1 ≤ l
    → next l < 2 ^ 16
    → next_of d next l ≡ (next l + (if d == l then 1 else 0)) % 2 ^ 16
unfolding next_of update
next_of-count d l next h p b =
    let low : d % 16 ≡ d = omega arith in
    rw low (elim (Bool-cases (d == l)) [
      | inl e ↦ rw ((==_iff d l).0 e) (ground arith)
      | inr e ↦ rw e (ground arith)
    ])

-- Each symbol with a code gets the first code of its length plus its rank in the length.
pub get_or-assign_codes :
    (depth : List ℕ) (next : ℕ → ℕ) (symbols : List ℕ) (i l : ℕ)
    → All (λ d. d ≤ 15) depth
    → length depth ≤ length symbols
    → i < length depth
    → get_or depth i 0 ≡ l
    → 1 ≤ l
    → next l < 2 ^ 16
    → get_or (assign_codes depth next symbols) i 0
      ≡ reverse_bits l ((next l + count_of l (take i depth)) % 2 ^ 16)
unfolding assign_codes count_of next_of
get_or-assign_codes [] next symbols i l a s h e p b = elim h [ ]
get_or-assign_codes (d ∷ depth) next [] i l a s h e p b = absurd (omega arith)
get_or-assign_codes (d ∷ depth) next (s ∷ symbols) zero l a r h e p b =
    let some : (d == 0) ≡ false = ground arith in
    let low : d % 16 ≡ l = omega (arith, a.0, e) in
    let start : (next l + 0) % 2 ^ 16 ≡ next l = omega arith in rw (some, low, start) refl
get_or-assign_codes (d ∷ depth) next (s ∷ symbols) (suc i) l a r h e p b =
    let after = next_of-count d l next a.0 p b in
    get_or-assign_codes depth (next_of d next) symbols i l a.1 (omega (arith, r)) (omega (arith, h))
      e p (omega (arith, after))
    ∙ ap (reverse_bits l) (omega (arith, after))

-- The symbol of a rank in its length.
pub get_or-positions :
    (depth : List ℕ) (k i l : ℕ)
    → i < length depth
    → get_or depth i 0 ≡ l
    → (count_of l (take i depth) < count_of l depth)
      × (get_or (positions l k depth) (count_of l (take i depth)) 0 ≡ k + i)
unfolding positions count_of
get_or-positions [] k i l h e = elim h [ ]
get_or-positions (d ∷ depth) k zero l h e =
    let same : (d == l) ≡ true = ground arith in rw same (omega arith, omega arith)
get_or-positions (d ∷ depth) k (suc i) l h e =
    let (lt, at) = get_or-positions depth (k + 1) i l (omega arith) e in
    elim (Bool-cases (d == l)) [
      | inl same ↦ rw same (
        omega arith,
        let step : 1 + count_of l (take i depth) ≡ suc (count_of l (take i depth)) = omega arith in
            rw step (at ∙ omega arith),
      )
      | inr apart ↦ rw apart (
        omega arith,
        let same : 0 + count_of l (take i depth) ≡ count_of l (take i depth) = omega arith in
            rw same (at ∙ omega arith),
      )
    ]
