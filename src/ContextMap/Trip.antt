-- ===== src/ContextMap/Trip.antt =====
-- The decoder's loop of decode.go undoes runLengthCodeZeros of internal/encoder/bitwriter.go.
use go_brrr.Prelude.{
  ℕ, zero, suc, ◌+◌, ◌-◌, ◌*◌, ◌%◌, ◌^◌, ◌≤◌, ◌<◌, ◌≡◌, refl, ap, ap₂, sym, ◌∙◌, List, [], ◌∷◌,
  ◌++◌, true, false, ◌==◌, ==_iff, ltb, ltb→lt, length, drop, replicate, map, All, All-drop,
  Bool-cases, inl, inr, arith, append_assoc, length-drop, replicate-add, lt-cases,
}
use native.Mathlib.Nat.{pow-suc, one-le-pow, pow-le-pow_right}
use mathlib.Core.List.{map-append}
use go_brrr.Prelude.BitOps.{bit_len, bit_len_bounds}
use go_brrr.ContextMap.{
  zero_run, max_prefix, pack, emit_run, encode_zero_runs, run_length_code_zeros, unpack, MapResult,
  decoded, needs_more_input, repeat_overflow, prepend, decode_zero_runs,
}

prepend-prepend :
    (xs ys : List ℕ) (r : MapResult) → prepend xs (prepend ys r) ≡ prepend (xs ++ ys) r
unfolding prepend
prepend-prepend xs ys (decoded map rest) =
    ap (λ (l : List ℕ). decoded l rest) (sym (append_assoc xs ys map))
prepend-prepend xs ys needs_more_input = refl
prepend-prepend xs ys repeat_overflow = refl

prepend-nil : (r : MapResult) → prepend [] r ≡ r
unfolding prepend
prepend-nil (decoded map rest) = refl
prepend-nil needs_more_input = refl
prepend-nil repeat_overflow = refl

-- One symbol is one run, of as many zeros as it stands for.
decode-run :
    (m p reps left : ℕ) (rest : List (ℕ × ℕ))
    → p ≤ m
    → 2 ^ p ≤ reps
    → reps < 2 ^ suc p
    → reps ≤ left
    → decode_zero_runs m left ((p, reps - 2 ^ p) ∷ rest)
      ≡ prepend (replicate reps 0) (decode_zero_runs m (left - reps) rest)
unfolding decode_zero_runs
decode-run m p reps zero rest h lo hi b = absurd (omega (arith, one-le-pow p 2))
decode-run m zero reps (suc left) rest h lo hi b =
    let one : reps ≡ 1 = omega arith in
    let less : suc left - 1 ≡ left = omega arith in rw (one, less) refl
decode-run m (suc p) reps (suc left) rest h lo hi b =
    let positive : (suc p == 0) ≡ false = ground arith in
    let code : ltb m (suc p) ≡ false = ground arith in
    let whole : reps - 2 ^ suc p + 2 ^ suc p ≡ reps = omega arith in
    let room : ltb (suc left) reps ≡ false = ground arith in rw (positive, code, whole, room) refl

unpack-pack :
    (symbol extra : ℕ)
    → symbol < 2 ^ 9
    → extra < 2 ^ 23
    → unpack (pack symbol extra) ≡ (symbol, extra)
unfolding unpack pack
unpack-pack symbol extra a b = ap₂ (λ (s e : ℕ). (s, e)) (omega arith) (omega arith)

small_pow : (m : ℕ) → m ≤ 6 → 2 ^ m ≤ 64
small_pow m h = pow-le-pow_right two_positive h
  where
    two_positive : 0 < 2
    two_positive = omega arith

exponent-lt : (p m : ℕ) → 2 ^ p < 2 ^ m → p < m
exponent-lt p m h = elim (lt-cases p m) [
  | inl l ↦ l
  | inr g ↦ absurd (omega (arith, h, pow-le-pow_right (two_positive) g))
]
  where
    two_positive : 0 < 2
    two_positive = omega arith

-- The symbols of a run are read as the run.
decode-emit_run :
    (fuel m reps left : ℕ) (rest : List (ℕ × ℕ))
    → m ≤ 6
    → reps ≤ fuel
    → reps ≤ left
    → left < 2 ^ 32
    → decode_zero_runs m left (map unpack (emit_run fuel m reps) ++ rest)
      ≡ prepend (replicate reps 0) (decode_zero_runs m (left - reps) rest)
unfolding emit_run
decode-emit_run zero m zero left rest h f l w =
    let same : left - 0 ≡ left = omega arith in rw (same, prepend-nil) refl
decode-emit_run (suc fuel) m zero left rest h f l w =
    let same : left - 0 ≡ left = omega arith in rw (same, prepend-nil) refl
decode-emit_run zero m (suc n) left rest h f l w = absurd (omega arith)
decode-emit_run (suc fuel) m (suc n) left rest h f l w =
    elim (Bool-cases (ltb (suc n) (2 * 2 ^ m))) [
      | inl e ↦
          let (p, b, s, lo, hi) = bit_len_bounds (suc n) (omega arith) (omega arith) in
          let prefix : bit_len (suc n) - 1 ≡ p = omega (arith, b) in
          let short = ltb→lt (suc n) (2 * 2 ^ m) e in
          let small = exponent-lt p (suc m) (omega (arith, lo, short, pow-suc 2 m)) in
          rw
            (
              e,
              prefix,
              unpack-pack p (suc n - 2 ^ p) (omega arith) (omega (arith, short, small_pow m h)),
            )
            (decode-run m p (suc n) left rest (omega (arith, small)) lo hi l)
      | inr e ↦
          let one = 2 * 2 ^ m - 1 in
          let some = one-le-pow m 2 (omega arith) in
          let long : one < suc n = ground arith in
          let extra : 2 ^ m - 1 ≡ one - 2 ^ m = omega (arith, some) in
          let more = map unpack (emit_run fuel m (suc n - one)) ++ rest in
          let whole : one + (suc n - one) ≡ suc n = omega (arith, long) in
          let left' : left - one - (suc n - one) ≡ left - suc n = omega (arith, long) in
          rw (e, unpack-pack m (2 ^ m - 1) (omega arith) (omega (arith, small_pow m h)), extra)
            (decode-run m m one left more (omega arith) (omega (arith, some))
                (omega (arith, some, pow-suc 2 m)) (omega (arith, long, l))
              ∙ ap (prepend (replicate one 0)) (
                  decode-emit_run fuel m (suc n - one) (left - one) rest h (omega (arith, f, some))
                    (omega (arith, l)) (omega (arith, w)))
              ∙ prepend-prepend (replicate one 0) (replicate (suc n - one) 0) _
              ∙ ap₂ (λ (xs : List ℕ) (k : ℕ). prepend xs (decode_zero_runs m k rest))
                  (sym (replicate-add one (suc n - one) 0) ∙ ap (λ (k : ℕ). replicate k 0) whole)
                  left')
    ]

zero_run-taken :
    (v : List ℕ) → (v ≡ replicate (zero_run v) 0 ++ drop (zero_run v) v) × (zero_run v ≤ length v)
unfolding zero_run
zero_run-taken [] = (refl, omega arith)
zero_run-taken (x ∷ v) = elim (Bool-cases (x == 0)) [
  | inl e ↦
      let (split, short) = zero_run-taken v in
      rw e (
        ap (λ (l : List ℕ). x ∷ l) split
            ∙ ap (λ (y : ℕ). y ∷ (replicate (zero_run v) 0 ++ drop (zero_run v) v))
                ((==_iff x 0).0 e),
        omega (arith, short),
      )
  | inr e ↦ rw e (refl, omega arith)
]

decode-value :
    (m x left : ℕ) (rest : List (ℕ × ℕ))
    → (x == 0) ≡ false
    → x < 256
    → m ≤ 6
    → decode_zero_runs m (suc left) (unpack ((x + m) % 2 ^ 32) ∷ rest)
      ≡ prepend (x ∷ []) (decode_zero_runs m left rest)
unfolding decode_zero_runs unpack
decode-value m x left rest e b h =
    let symbol : (x + m) % 2 ^ 32 % 2 ^ 9 ≡ x + m = omega arith in
    let some : (x + m == 0) ≡ false = ground arith in
    let value : ltb m (x + m) ≡ true = ground arith in
    let back : (x + m - m) % 256 ≡ x = omega arith in rw (symbol, some, value, back) refl

decode-encode_zero_runs :
    (fuel m : ℕ) (v : List ℕ) (rest : List (ℕ × ℕ))
    → m ≤ 6
    → All (λ x. x < 256) v
    → length v ≤ fuel
    → length v < 2 ^ 32
    → decode_zero_runs m (length v) (map unpack (encode_zero_runs fuel m v) ++ rest)
      ≡ decoded v rest
unfolding encode_zero_runs
decode-encode_zero_runs zero m [] rest h a f b = unfold decode_zero_runs in refl
decode-encode_zero_runs zero m (x ∷ v) rest h a f b = absurd (omega arith)
decode-encode_zero_runs (suc fuel) m [] rest h a f b = unfold decode_zero_runs in refl
decode-encode_zero_runs (suc fuel) m (x ∷ v) rest h a f b = elim (Bool-cases (x == 0)) [
  | inl e ↦
      let (split, short) = zero_run-taken v in
      let more = zero_run v in
      let later = map unpack (encode_zero_runs fuel m (drop more v)) in
      let left : suc (length v) - suc more ≡ length (drop more v) =
        omega (arith, length-drop more v) in
      let ih =
        decode-encode_zero_runs fuel m (drop more v) rest h (All-drop _ more v a.1)
          (omega (arith, length-drop more v, f)) (omega (arith, length-drop more v, b)) in
      let nil : 0 ≡ x = sym ((==_iff x 0).0 e) in
      rw
        (
          e,
          map-append unpack (emit_run (suc more) m (suc more))
              (encode_zero_runs fuel m (drop more v)),
          append_assoc (map unpack (emit_run (suc more) m (suc more))) later rest,
        )
        (decode-emit_run (suc more) m (suc more) (suc (length v)) (later ++ rest) h (omega arith)
            (omega (arith, short)) b
          ∙ ap (λ (k : ℕ). prepend (replicate (suc more) 0) (decode_zero_runs m k (later ++ rest)))
              left
          ∙ ap (prepend (replicate (suc more) 0)) ih
          ∙ unfold prepend in ap₂ (λ (y : ℕ) (l : List ℕ). decoded (y ∷ l) rest) nil (sym split))
  | inr e ↦ rw e (
      decode-value m x (length v) _ e a.0 h
      ∙ ap (prepend (x ∷ []))
          (decode-encode_zero_runs fuel m v rest h a.1 (omega (arith, f)) (omega arith))
      ∙ unfold prepend in refl)
]

max_prefix-le : (v : List ℕ) → max_prefix v ≤ 6
unfolding max_prefix
max_prefix-le v = omega arith

-- The loop reads from the symbols of runLengthCodeZeros the bytes, and leaves the symbols after them.
pub decode-run_length_code_zeros :
    (v : List ℕ) (rest : List (ℕ × ℕ))
    → All (λ x. x < 256) v
    → length v < 2 ^ 32
    → decode_zero_runs
        (run_length_code_zeros v).1
        (length v)
        (map unpack (run_length_code_zeros v).0 ++ rest)
      ≡ decoded v rest
unfolding run_length_code_zeros
decode-run_length_code_zeros v rest a b =
    decode-encode_zero_runs (length v) (max_prefix v) v rest (max_prefix-le v) a (omega arith) b
