-- ===== src/CodeLengths/Runs.antt =====
-- encodeHuffmanTreeRepetitions and encodeHuffmanTreeRepetitionsZeros of
-- internal/encoder/huffman_encode.go: the decoder reads back the run.
use go_brrr.Prelude.{
  ℕ, zero, suc, ◌+◌, ◌-◌, ◌≤◌, ◌≡◌, refl, ap, sym, subst, ◌∙◌, List, ◌∷◌, ◌==◌, Bool-cases, inl,
  inr, ◌⊎◌, arith, replicate, if◌then◌else◌, true, false, ltb, ==_iff,
}
use go_brrr.CodeLengths.Encode.{
  Code, plain_or_repeated, encode_huffman_tree_repetitions, encode_huffman_tree_repetitions_zeros,
}
use go_brrr.CodeLengths.Decode.{LengthReader, assign, process, process_single_code_length}
use go_brrr.CodeLengths.Assign.{assign_all}
use go_brrr.CodeLengths.Reads.{Reads}
use go_brrr.CodeLengths.Repeats.{IsRepeat, previous-IsRepeat, zero-IsRepeat, Fresh, Ran, chain}

-- From `h` the symbols are the run of n lengths `value`; the decoder then goes on with it at most
-- when it has 3 of them, and `prev` is its last length other than 0.
unfoldable pub Out : ℕ → LengthReader → List Code → ℕ → ℕ → ℕ → LengthReader → Type 0
Out m h codes value n prev g =
    Reads m h codes (replicate n value) g
    × ((g.repeat ≡ 0) ⊎ ((g.repeat_code_len ≡ value) × (3 ≤ n)))
    × (g.prev_code_len ≡ prev)

process-single :
    (m value : ℕ) (h : LengthReader)
    → value ≤ 15
    → process m (value, 0) h ≡ process_single_code_length value h
unfolding process
process-single m value h l = let plain : ltb value 16 ≡ true = ground arith in rw plain refl

single_then :
    (m value n prev : ℕ) (h g : LengthReader) (codes : List Code)
    → value ≤ 15
    → Out m (process_single_code_length value h) codes value n prev g
    → Out m h ((value, 0) ∷ codes) value (suc n) prev g
unfolding Out Reads
single_then m value n prev h g codes l (r, f, p) =
    let single = process-single m value h l in
    (
      (
        value,
        0,
        replicate n value,
        refl,
        ap (λ (k : LengthReader). k.assigned) single
            ∙ unfold process_single_code_length assign_all in refl,
        subst (λ (k : LengthReader). Reads m k codes (replicate n value) g) (sym single) r,
      ),
      elim f [ inl z ↦ inl z | inr (c, b) ↦ inr (c, omega arith) ],
      p,
    )

single-symbol :
    (value : ℕ) (h : LengthReader)
    → (process_single_code_length value h).assigned.symbol ≡ h.assigned.symbol + 1
unfolding process_single_code_length assign
single-symbol value h = elim (Bool-cases (value == 0)) [ inl e ↦ rw e refl | inr e ↦ rw e refl ]

single-repeat : (value : ℕ) (h : LengthReader) → (process_single_code_length value h).repeat ≡ 0
unfolding process_single_code_length
single-repeat value h = refl

single-prev :
    (value prev : ℕ) (h : LengthReader)
    → (if value == 0 then h.prev_code_len else value) ≡ prev
    → (process_single_code_length value h).prev_code_len ≡ prev
unfolding process_single_code_length
single-prev value prev h p = p

Fresh-after : (value any : ℕ) (h : LengthReader) → Fresh (process_single_code_length value h) any
unfolding Fresh
Fresh-after value any h = inl (single-repeat value h)

singles :
    (m value prev n : ℕ) (h : LengthReader)
    → value ≤ 15
    → h.prev_code_len ≡ prev
    → (if value == 0 then prev else value) ≡ prev
    → (h.repeat ≡ 0) ⊎ (1 ≤ n)
    → (g : LengthReader) × Out m h (replicate n (value, 0)) value n prev g
unfolding Out Reads
singles m value prev zero h l p s f =
    (h, ((refl, refl), elim f [ inl z ↦ inl z | inr b ↦ absurd (omega arith) ], p))
singles m value prev (suc n) h l p s f =
    let k = process_single_code_length value h in
    let (g, o) =
      singles m value prev n k l
        (single-prev value prev h (ap (λ (t : ℕ). if value == 0 then t else value) p ∙ s)) s
        (inl (single-repeat value h)) in
    (g, single_then m value n prev h g (replicate n (value, 0)) l o)

Ran-Out :
    (m value k n prev : ℕ) (h g : LengthReader) (codes : List Code)
    → k ≡ n
    → 3 ≤ n
    → h.prev_code_len ≡ prev
    → Ran m value k h codes g
    → Out m h codes value n prev g
unfolding Out Ran
Ran-Out m value k n prev h g codes e t p (r, a, c, d) =
    (subst (λ (n : ℕ). Reads m h codes (replicate n value) g) e r, inr (c, t), d ∙ p)

plain-Out :
    (m value code x prev n : ℕ) (h : LengthReader)
    → IsRepeat m code x value prev
    → value ≤ 15
    → h.prev_code_len ≡ prev
    → (if value == 0 then prev else value) ≡ prev
    → Fresh h value
    → (h.repeat ≡ 0) ⊎ (1 ≤ n)
    → h.assigned.symbol + n ≤ m
    → (g : LengthReader) × Out m h (plain_or_repeated value code x n) value n prev g
unfolding plain_or_repeated
plain-Out m value code x prev n h r l p s f z b = elim (Bool-cases (ltb n 3)) [
  | inl e ↦ rw e (singles m value prev n h l p s z)
  | inr e ↦
      let three : n - 3 + 3 ≡ n = ground arith in
      let (g, o) =
        chain (n - 3 + 1) (n - 3) m code x value prev h r p l f (omega arith)
          (omega (arith, three, b)) in
      rw e (g, Ran-Out m value (n - 3 + 3) n prev h g _ three (omega arith) p o)
]

left-Out :
    (m value n : ℕ) (h : LengthReader)
    → value ≤ 15
    → (value == 0) ≡ false
    → h.prev_code_len ≡ value
    → Fresh h value
    → (h.repeat ≡ 0) ⊎ (1 ≤ n)
    → h.assigned.symbol + n ≤ m
    → (g : LengthReader) × Out m h
        (if n == 7
          then (value, 0) ∷ plain_or_repeated value 16 2 (n - 1)
          else plain_or_repeated value 16 2 n)
        value
        n
        value
        g
left-Out m value n h l v p f z b = elim (Bool-cases (n == 7)) [
  | inl e ↦
      let k = process_single_code_length value h in
      let (g, o) =
        plain-Out m value 16 2 value (n - 1) k (previous-IsRepeat m value) l
          (single-prev value value h (rw v refl)) (rw v refl) (Fresh-after value value h)
          (inl (single-repeat value h))
          (omega (arith, single-symbol value h, (==_iff n 7).0 e, b)) in
      let whole : n ≡ suc (n - 1) = ground arith in
      rw e (
        g,
        subst
            (λ (t : ℕ). Out m h ((value, 0) ∷ plain_or_repeated value 16 2 (n - 1)) value t value g)
            (sym whole) (single_then m value (n - 1) value h g _ l o),
      )
  | inr e ↦
      rw e (plain-Out m value 16 2 value n h (previous-IsRepeat m value) l p (rw v refl) f z b)
]

-- The symbols for a run of a length other than 0 are read back as the run.
pub encode_huffman_tree_repetitions-Out :
    (m prev_value value n : ℕ) (h : LengthReader)
    → value ≤ 15
    → (value == 0) ≡ false
    → h.prev_code_len ≡ prev_value
    → Fresh h value
    → h.assigned.symbol + suc n ≤ m
    → (g : LengthReader) × Out m h
        (encode_huffman_tree_repetitions prev_value value (suc n))
        value
        (suc n)
        value
        g
unfolding encode_huffman_tree_repetitions
encode_huffman_tree_repetitions-Out m prev_value value n h l v p f b =
    elim (Bool-cases (prev_value == value)) [
      | inl e ↦ rw e (
          left-Out m value (suc n) h l v (p ∙ (==_iff prev_value value).0 e) f (inr (omega arith))
            b)
      | inr e ↦
          let less : suc n - 1 ≡ n = omega arith in
          let (g, o) =
            left-Out m value n (process_single_code_length value h) l v
              (single-prev value value h (rw v refl)) (Fresh-after value value h)
              (inl (single-repeat value h)) (omega (arith, single-symbol value h, b)) in
          rw (e, less) (g, single_then m value n value h g _ l o)
    ]

-- The symbols for a run of zeros are read back as the run.
pub encode_huffman_tree_repetitions_zeros-Out :
    (m prev n : ℕ) (h : LengthReader)
    → h.prev_code_len ≡ prev
    → Fresh h 0
    → h.assigned.symbol + suc n ≤ m
    → (g : LengthReader) × Out m h (encode_huffman_tree_repetitions_zeros (suc n)) 0 (suc n) prev g
unfolding encode_huffman_tree_repetitions_zeros
encode_huffman_tree_repetitions_zeros-Out m prev n h p f b = elim (Bool-cases (suc n == 11)) [
  | inl e ↦
      let less : suc n - 1 ≡ n = omega arith in
      let (g, o) =
        plain-Out m 0 17 3 prev n (process_single_code_length 0 h) (zero-IsRepeat m prev)
          (omega arith) (single-prev 0 prev h p) refl (Fresh-after 0 0 h) (inl (single-repeat 0 h))
          (omega (arith, single-symbol 0 h, b)) in
      rw (e, less) (g, single_then m 0 n prev h g _ (omega arith) o)
  | inr e ↦ rw e (
      plain-Out m 0 17 3 prev (suc n) h (zero-IsRepeat m prev) (omega arith) p refl f
        (inr (omega arith)) b)
]
