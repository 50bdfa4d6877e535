-- ===== src/Huffman/Rows.antt =====
-- What BuildHuffmanTable of internal/core/huffman.go finds in the lists of symbols that the decoder
-- linked, and the table it makes of them.
use go_brrr.Prelude.{
  ℕ, zero, suc, ◌+◌, ◌-◌, ◌%◌, ◌^◌, ◌≤◌, ◌<◌, ◌≡◌, refl, ap, sym, ◌∙◌, ◌==◌, List, if◌then◌else◌,
  arith, inl, inr, ◌⊎◌, subst, lt-cases, get_or, All, length, [], ◌∷◌, Bool, Bool-cases,
}
use go_brrr.CodeLengths.Decode.{Assigned}
use go_brrr.CodeLengths.Loop.{space_taken}
use go_brrr.CodeLengths.Symbols.{follow, symbols_of, positions}
use go_brrr.Huffman.Reverse.{reverse_width, reverse_width-lt}
use go_brrr.Huffman.Codes.{first_codes}
use go_brrr.Huffman.Counts.{count_of, length-positions}
use go_brrr.Huffman.Kraft.{counts_of}
use go_brrr.Huffman.Table.{Table, build_huffman_table}
use go_brrr.Huffman.Second.{Decodes}
use go_brrr.Huffman.Fill.{reverse_width-half, reverse_width-low}
use go_brrr.Huffman.Build.{Starts-unique, build_huffman_table-decoded}
use go_brrr.Huffman.Kraft.{first_codes-space, space_below-taken}
use go_brrr.Huffman.Encoded.{codes_fit, counts_of-zero_depth, counts_of-some}

length-follow : (n : ℕ) (lists : ℕ → ℕ) (slot : ℕ) → length (follow n lists slot) ≡ n
unfolding follow
length-follow zero lists slot = refl
length-follow (suc n) lists slot = ap suc (length-follow n lists (lists slot + 16))

follow-head :
    (n : ℕ) (lists : ℕ → ℕ) (slot : ℕ) → 0 < n → get_or (follow n lists slot) 0 0 ≡ lists slot
unfolding follow
follow-head zero lists slot h = elim h [ ]
follow-head (suc n) lists slot h = refl

first-position :
    (l k : ℕ) (depth : List ℕ)
    → 0 < count_of l depth
    → get_or (positions l k depth) 0 0 < k + length depth
unfolding positions count_of
first-position l k [] h = elim h [ ]
first-position l k (d ∷ depth) h = elim (Bool-cases (d == l)) [
  | inl e ↦ rw e (omega arith)
  | inr e ↦
      let some : 0 < count_of l depth =
        omega (arith, h, ap (λ (b : Bool). (if b then 1 else 0) + count_of l depth) e) in
      rw e (omega (arith, first-position l (k + 1) depth some))
]

-- Every sequence of bits starts with the code of one symbol, which its first bits alone tell.
unfoldable pub IsPrefixTable : Table → Type 0
IsPrefixTable t =
    (v : ℕ)
    → (symbol : ℕ) × (l : ℕ) × (1 ≤ l)
      × (l ≤ 15)
      × ((w : ℕ) → w % 2 ^ l ≡ v % 2 ^ l → Decodes w t symbol l)

module _ (depth : List ℕ) (a : Assigned) (table : Table) (each : All (λ d. d ≤ 15) depth)
    (complete : space_taken depth ≡ 32768) (few : length depth ≤ 65535)
    (rows : (m : ℕ) → 1 ≤ m → m ≤ 15 → symbols_of m a ≡ positions m 0 depth) where
  histo : (m : ℕ) → 1 ≤ m → m ≤ 15 → a.code_length_histo m ≡ counts_of depth m
  unfolding symbols_of
  histo m p q =
      sym (length-follow (a.code_length_histo m) a.symbol_lists m)
      ∙ ap length (rows m p q)
      ∙ length-positions m 0 depth
      ∙ sym (counts_of-some depth m p)

  row : (m : ℕ) → 1 ≤ m → m ≤ 15 → follow (counts_of depth m) a.symbol_lists m ≡ positions m 0 depth
  unfolding symbols_of
  row m p q = ap (λ (n : ℕ). follow n a.symbol_lists m) (sym (histo m p q)) ∙ rows m p q

  heads : (m : ℕ) → 1 ≤ m → m ≤ 15 → a.symbol_lists m ≡ 0xFFFF → counts_of depth m ≡ 0
  heads m p q e = elim (lt-cases 0 (counts_of depth m)) [
    | inl used ↦
        let head =
          sym (follow-head (counts_of depth m) a.symbol_lists m used)
          ∙ ap (λ (t : List ℕ). get_or t 0 0) (row m p q) in
        absurd (
          omega (
            arith,
            head,
            e,
            few,
            first-position m 0 depth (omega (arith, used, counts_of-some depth m p)),
          ))
    | inr none ↦ omega (arith, none)
  ]

  abbrev pub built : Table
  built = (build_huffman_table 8 a.symbol_lists a.code_length_histo table).0

  pub starts-Decodes :
      (v l k : ℕ)
      → 1 ≤ l
      → l ≤ 15
      → k < counts_of depth l
      → reverse_width l v ≡ first_codes (counts_of depth) l + k
      → Decodes v built (get_or (positions l 0 depth) k 0) l
  starts-Decodes v l k p q lt e =
      let s =
        Starts-unique (counts_of depth) a.symbol_lists v l k (codes_fit depth each complete)
          (counts_of-zero_depth depth) lt e in
      subst (λ (t : ℕ). Decodes v built t l) (ap (λ (t : List ℕ). get_or t k 0) (row l p q))
        (build_huffman_table-decoded (counts_of depth) a.code_length_histo a.symbol_lists v l _ s
          histo p q (omega (arith, e, lt)) (omega (arith, e)) heads
          (λ none. absurd (omega (arith, none, lt))) table)

  -- All codes of 15 bits are used up.
  whole : first_codes (counts_of depth) 15 + counts_of depth 15 ≡ 2 ^ 15
  unfolding first_codes
  whole = omega (
    arith,
    first_codes-space (counts_of depth) 16 (omega arith),
    space_below-taken depth each,
    complete,
  )

  -- The code that v starts with, searched by its length.
  code_up_to :
      (v n : ℕ)
      → ((l : ℕ) × (k : ℕ) × (1 ≤ l)
          × (l ≤ n)
          × (k < counts_of depth l)
          × (reverse_width l v ≡ first_codes (counts_of depth) l + k))
        ⊎ (first_codes (counts_of depth) n + counts_of depth n ≤ reverse_width n v)
  unfolding first_codes
  code_up_to v zero = inr (omega (arith, counts_of-zero_depth depth))
  code_up_to v (suc n) = elim (code_up_to v n) [
    | inl (l, k, p, q, lt, e) ↦ inl (l, k, p, omega (arith, q), lt, e)
    | inr past ↦
        let c = first_codes (counts_of depth) (suc n) in
        let from : c ≤ reverse_width (suc n) v = omega (arith, past, reverse_width-half n v) in
        elim (lt-cases (reverse_width (suc n) v) (c + counts_of depth (suc n))) [
          | inl here ↦ inl (
            suc n,
            reverse_width (suc n) v - c,
            omega arith,
            omega arith,
            omega (arith, here, from),
            omega (arith, from),
          )
          | inr beyond ↦ inr beyond
        ]
  ]

  pub built-IsPrefixTable : IsPrefixTable built
  unfolding IsPrefixTable
  built-IsPrefixTable v = elim (code_up_to v 15) [
    | inr none ↦ absurd (omega (arith, none, whole, reverse_width-lt 15 v))
    | inl (l, k, p, q, lt, e) ↦ (
      get_or (positions l 0 depth) k 0,
      l,
      p,
      q,
      λ w same.
          starts-Decodes w l k p q lt
            (sym (reverse_width-low l w) ∙ ap (reverse_width l) same ∙ reverse_width-low l v ∙ e),
    )
  ]
