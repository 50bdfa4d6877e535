-- ===== src/CodeLengths/Tree.antt =====
-- encodeHuffmanTree of internal/encoder/huffman_encode.go: the decoder reads the symbols back as
-- the depths without the zeros at the end.
use go_brrr.Prelude.{
  ℕ, zero, suc, ◌+◌, ◌≤◌, ◌<◌, ◌≡◌, ◌≢◌, refl, ap, sym, subst, ◌∙◌, List, [], ◌∷◌, ◌++◌, ◌==◌, Bool,
  Bool-cases, inl, inr, ◌⊎◌, arith, replicate, if◌then◌else◌, true, false, ==_iff, length,
  length-drop, drop, All, All-drop, ◌&&◌, ◌||◌, not,
}
use go_brrr.CodeLengths.Encode.{
  Code, encode_huffman_tree_repetitions, encode_huffman_tree_repetitions_zeros, run_bytes,
  find_run_end, encode_runs,
}
use go_brrr.CodeLengths.Decode.{LengthReader}
use go_brrr.CodeLengths.Reads.{Reads, Reads-append, Reads-same}
use go_brrr.CodeLengths.Repeats.{Fresh, symbol-replicate}
use go_brrr.CodeLengths.Runs.{
  Out, encode_huffman_tree_repetitions-Out, encode_huffman_tree_repetitions_zeros-Out,
}
use go_brrr.CodeLengths.RunEnd.{find_run_end-run_bytes}

-- What comes next is not `value`.
Differs : ℕ → List ℕ → Type 0
Differs value [] = Unit {0}
Differs value (d ∷ depth) = value ≢ d

-- `more` values, and what comes next.
Taken : List ℕ → ℕ → ℕ → Type 0
Taken depth value more = (depth ≡ replicate more value ++ drop more depth) × (more ≤ length depth)

run_bytes-Taken :
    (depth : List ℕ) (value : ℕ)
    → Taken depth value (run_bytes depth value) × Differs value (drop (run_bytes depth value) depth)
unfolding Taken Differs run_bytes
run_bytes-Taken [] value = ((refl, omega arith), tt)
run_bytes-Taken (d ∷ depth) value = elim (Bool-cases (d == value)) [
  | inl e ↦
      let (taken, next) = run_bytes-Taken depth value in
      let same : d ≡ value = (==_iff d value).0 e in
      rw e (
        (
          ap (λ (t : List ℕ). d ∷ t) taken.0
              ∙ ap
                  (λ (t : ℕ).
                    t
                    ∷ (replicate (run_bytes depth value) value
                        ++ drop (run_bytes depth value) depth))
                  same,
          omega (arith, taken.1),
        ),
        next,
      )
  | inr e ↦ rw e ((refl, omega arith), λ h. ground arith)
]

unfoldable pub FreshFor : LengthReader → List ℕ → Type 0
FreshFor h [] = Unit {0}
FreshFor h (d ∷ depth) = Fresh h d

next-FreshFor :
    (m value n prev : ℕ) (h g : LengthReader) (codes : List Code) (depth : List ℕ)
    → Out m h codes value n prev g
    → (n ≡ 1) ⊎ Differs value depth
    → FreshFor g depth
unfolding FreshFor Out Fresh Differs
next-FreshFor m value n prev h g codes [] o d = tt
next-FreshFor m value n prev h g codes (x ∷ depth) (r, f, p) d = elim f [
  | inl z ↦ inl z
  | inr (c, three) ↦ elim d [
    | inl one ↦ absurd (omega arith)
    | inr w ↦ inr (λ same. w (sym c ∙ same))
  ]
]

-- Whatever the use of runs, the first run of the loop.
first_run :
    (rle : Bool) (depth : List ℕ) (value : ℕ)
    → value ≤ 15
    → All (λ d. d ≤ 15) depth
    → (more : ℕ) × ((if rle then find_run_end depth value else 0) ≡ more)
      × Taken depth value more
      × ((suc more ≡ 1) ⊎ Differs value (drop more depth))
unfolding Taken
first_run false depth value v a = (0, refl, (refl, omega arith), inl refl)
first_run true depth value v a =
    let (taken, next) = run_bytes-Taken depth value in
    (
      run_bytes depth value,
      find_run_end-run_bytes depth value (omega arith) (bytes depth a),
      taken,
      inr next,
    )
  where
    bytes : (depth : List ℕ) → All (λ d. d ≤ 15) depth → All (λ d. d < 256) depth
    bytes [] a = tt
    bytes (d ∷ depth) a = (omega (arith, a.0), bytes depth a.1)

one_run :
    (m prev value n : ℕ) (h : LengthReader)
    → value ≤ 15
    → h.prev_code_len ≡ prev
    → Fresh h value
    → h.assigned.symbol + suc n ≤ m
    → (g : LengthReader) × Out m h
        (if value == 0
          then encode_huffman_tree_repetitions_zeros (suc n)
          else encode_huffman_tree_repetitions prev value (suc n))
        value
        (suc n)
        (if value == 0 then prev else value)
        g
one_run m prev value n h v p f b = elim (Bool-cases (value == 0)) [
  | inl e ↦
      let zero : value ≡ 0 = (==_iff value 0).0 e in
      rw zero (encode_huffman_tree_repetitions_zeros-Out m prev n h p (subst (Fresh h) zero f) b)
  | inr e ↦ rw e (encode_huffman_tree_repetitions-Out m prev value n h v e p f b)
]

pub encode_runs-Reads :
    (fuel : ℕ) (rle : Bool × Bool) (m prev : ℕ) (h : LengthReader) (depth : List ℕ)
    → length depth ≤ fuel
    → All (λ d. d ≤ 15) depth
    → h.prev_code_len ≡ prev
    → FreshFor h depth
    → h.assigned.symbol + length depth ≤ m
    → (g : LengthReader) × Reads m h (encode_runs fuel rle prev depth) depth g
unfolding encode_runs Reads Taken Out FreshFor
encode_runs-Reads zero rle m prev h [] l a p f b = (h, (refl, refl))
encode_runs-Reads zero rle m prev h (d ∷ depth) l a p f b = absurd (omega arith)
encode_runs-Reads (suc fuel) rle m prev h [] l a p f b = (h, (refl, refl))
encode_runs-Reads (suc fuel) rle m prev h (value ∷ depth) l a p f b =
    let used = (not (value == 0) && rle.0) || (value == 0 && rle.1) in
    let (more, e, taken, next) = first_run used depth value a.0 a.1 in
    let (g, o) = one_run m prev value more h a.0 p f (omega (arith, taken.1, b)) in
    let (r, c, q) = o in
    let (k, s) =
      encode_runs-Reads fuel rle m (if value == 0 then prev else value) g (drop more depth)
        (omega (arith, length-drop more depth, l)) (All-drop _ more depth a.1) q
        (next-FreshFor m value (suc more) _ h g _ (drop more depth) o next)
        (omega (
          arith,
          length-drop more depth,
          symbol-replicate (suc more) value m h g _ r,
          taken.1,
          b,
        )) in
    rw e (
      k,
      Reads-same m h k _ (sym (ap (λ (t : List ℕ). value ∷ t) taken.0))
          (Reads-append m h g k _ _ (replicate (suc more) value) (drop more depth) r s),
    )
