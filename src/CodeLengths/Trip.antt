-- ===== src/CodeLengths/Trip.antt =====
-- encodeHuffmanTree of internal/encoder/huffman_encode.go and the decoder's loop of decode.go
-- together.
use go_brrr.Prelude.{
  ℕ, zero, suc, ◌+◌, ◌≤◌, ◌≡◌, refl, ap, sym, subst, ◌∙◌, List, [], ◌∷◌, ◌++◌, ◌==◌, Bool-cases,
  inl, inr, arith, replicate, if◌then◌else◌, ==_iff, false, length, length-append, All, ltb,
  All-before, append-nil,
}
use go_brrr.CodeLengths.Encode.{
  Code, trim, encode_runs, encode_huffman_tree, decide_over_rle_use, initial_repeated_code_length,
}
use go_brrr.CodeLengths.Decode.{
  Assigned, read_symbol_code_lengths, initial_reader, initial_assigned,
}
use go_brrr.CodeLengths.Reads.{Reads-assign_all}
use go_brrr.CodeLengths.Repeats.{Fresh}
use go_brrr.CodeLengths.Tree.{FreshFor, encode_runs-Reads}
use go_brrr.CodeLengths.Loop.{
  space_taken, EndsPlain, space-assign_all, read_symbol_code_lengths-Reads,
}
use go_brrr.CodeLengths.Symbols.{symbols_of, positions}
use go_brrr.CodeLengths.Linked.{symbols_of-assign_all}

-- Only zeros are trimmed.
trim-split : (depth : List ℕ) → (k : ℕ) × (depth ≡ trim depth ++ replicate k 0)
unfolding trim
trim-split [] = (0, refl)
trim-split (d ∷ depth) = go (trim depth) (trim-split depth)
  where
    go :
        (t : List ℕ)
        → ((k : ℕ) × (depth ≡ t ++ replicate k 0))
        → (k : ℕ) × (d ∷ depth
            ≡ (elim t [ [] ↦ if d == 0 then [] else d ∷ [] | x ∷ xs ↦ d ∷ (x ∷ xs) ])
              ++ replicate k 0)
    go [] (k, e) = elim (Bool-cases (d == 0)) [
      | inl z ↦ rw z (
        suc k,
        ap (λ (t : List ℕ). d ∷ t) e ∙ ap (λ (t : ℕ). t ∷ replicate k 0) ((==_iff d 0).0 z),
      )
      | inr n ↦ rw n (k, ap (λ (t : List ℕ). d ∷ t) e)
    ]
    go (x ∷ xs) (k, e) = (k, ap (λ (t : List ℕ). d ∷ t) e)

trim-EndsPlain : (depth : List ℕ) → EndsPlain (trim depth)
unfolding trim EndsPlain
trim-EndsPlain [] = tt
trim-EndsPlain (d ∷ depth) = go (trim depth) (trim-EndsPlain depth)
  where
    go :
        (t : List ℕ)
        → EndsPlain t
        → EndsPlain (elim t [ [] ↦ if d == 0 then [] else d ∷ [] | x ∷ xs ↦ d ∷ (x ∷ xs) ])
    go [] e = elim (Bool-cases (d == 0)) [ inl z ↦ rw z tt | inr n ↦ rw n n ]
    go (x ∷ xs) e = e

positions-zeros :
    (l k n : ℕ) (depth : List ℕ)
    → 1 ≤ l
    → positions l k (depth ++ replicate n 0) ≡ positions l k depth
unfolding positions
positions-zeros l k zero [] h = refl
positions-zeros l k (suc n) [] h =
    let apart : (0 == l) ≡ false = ground arith in rw apart (positions-zeros l (k + 1) n [] h)
positions-zeros l k n (d ∷ depth) h = rw (positions-zeros l (k + 1) n depth h) refl

space_taken-zeros :
    (n : ℕ) (depth : List ℕ) → space_taken (depth ++ replicate n 0) ≡ space_taken depth
unfolding space_taken
space_taken-zeros zero [] = refl
space_taken-zeros (suc n) [] = space_taken-zeros n []
space_taken-zeros n (d ∷ depth) = rw (space_taken-zeros n depth) refl

first : (old : ℕ → ℕ) (depth : List ℕ) → FreshFor (initial_reader old) depth
unfolding FreshFor Fresh initial_reader
first old [] = tt
first old (d ∷ depth) = inl refl

-- For at most 65535 depths of at most 15, as many as the alphabet has or fewer, that make a
-- complete code, the decoder's loop reads the symbols of the encoded tree and none of those after
-- them, and is left with no space, and the list of each length from 1 to 15 has the symbols with
-- this depth, in order.
pub read_symbol_code_lengths-encode_huffman_tree :
    (alphabet_size l : ℕ) (old : ℕ → ℕ) (depth : List ℕ) (more : List Code)
    → All (λ d. d ≤ 15) depth
    → space_taken depth ≡ 32768
    → length depth ≤ alphabet_size
    → length depth ≤ 65535
    → 1 ≤ l
    → l ≤ 15
    → let r =
        read_symbol_code_lengths alphabet_size
          (encode_huffman_tree depth ++ more)
          (initial_reader old) in
      (r.0 ≡ more) × (r.1.assigned.space ≡ 0) × (symbols_of l r.1.assigned ≡ positions l 0 depth)
unfolding encode_huffman_tree initial_reader initial_assigned space_taken
read_symbol_code_lengths-encode_huffman_tree m l old depth more a s b c p q =
    let (n, e) = trim-split depth in
    let kept = trim depth in
    let rle = if ltb 50 (length depth) then decide_over_rle_use kept else (false, false) in
    let codes = encode_runs (length kept) rle initial_repeated_code_length kept in
    let short = ap length e ∙ length-append kept (replicate n 0) in
    let each = All-before _ kept (replicate n 0) (subst (All (λ d. d ≤ 15)) e a) in
    let space = sym s ∙ ap space_taken e ∙ space_taken-zeros n kept in
    let (g, r) =
      encode_runs-Reads (length kept) rle m initial_repeated_code_length (initial_reader old) kept
        (omega arith) each refl (first old kept) (omega (arith, short, b)) in
    let loop =
      read_symbol_code_lengths-Reads m (initial_reader old) g codes more kept r each
        (trim-EndsPlain depth) space (omega arith) (omega (arith, short, b)) in
    let lists = Reads-assign_all m (initial_reader old) g codes kept r in
    let used =
      space-assign_all kept [] (initial_assigned old)
        (space ∙ ap space_taken (sym (append-nil kept))) (omega arith) in
    rw loop (
      refl,
      ap (λ (a : Assigned). a.space) lists ∙ used.0,
      ap (symbols_of l) lists
          ∙ symbols_of-assign_all old kept l each (omega (arith, short, c)) p q
          ∙ sym (positions-zeros l 0 n kept p)
          ∙ ap (positions l 0) (sym e),
    )
