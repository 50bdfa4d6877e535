-- ===== src/ContextMap/Filled.antt =====
-- Whatever symbols a stream has, decodeContextMap of decode.go fills the map or reports an error.
use go_brrr.Prelude.{
  ℕ, zero, suc, ◌+◌, ◌-◌, ◌^◌, ◌≡◌, refl, ap, ◌∙◌, List, [], ◌∷◌, ◌==◌, ltb, Bool, true, false,
  Bool-cases, inl, inr, length, replicate, arith, length-append, length-replicate, get_or,
}
use go_brrr.MoveToFront.{decode_loop, to_front, inverse_move_to_front_transform}
use go_brrr.ContextMap.{
  MapResult, decoded, needs_more_input, repeat_overflow, prepend, decode_zero_runs, transform_map,
  decode_context_map,
}

-- A map that is decoded has as many entries as asked for.
unfoldable pub IsFilled : ℕ → MapResult → Type 0
IsFilled size (decoded map rest) = length map ≡ size
IsFilled size needs_more_input = Unit {0}
IsFilled size repeat_overflow = Unit {0}

prepend-IsFilled :
    (xs : List ℕ) (n size : ℕ) (r : MapResult)
    → length xs + n ≡ size
    → IsFilled n r
    → IsFilled size (prepend xs r)
unfolding IsFilled prepend
prepend-IsFilled xs n size (decoded map rest) e f = omega (arith, length-append xs map, f, e)
prepend-IsFilled xs n size needs_more_input e f = tt
prepend-IsFilled xs n size repeat_overflow e f = tt

decode_zero_runs-IsFilled :
    (symbols : List (ℕ × ℕ)) (m left : ℕ) → IsFilled left (decode_zero_runs m left symbols)
unfolding decode_zero_runs
decode_zero_runs-IsFilled [] m zero = unfold IsFilled in refl
decode_zero_runs-IsFilled [] m (suc left) = unfold IsFilled in tt
decode_zero_runs-IsFilled ((code, extra) ∷ symbols) m zero = unfold IsFilled in refl
decode_zero_runs-IsFilled ((code, extra) ∷ symbols) m (suc left) =
    let one = decode_zero_runs-IsFilled symbols m left in
    let reps = extra + 2 ^ code in
    elim (Bool-cases (code == 0)) [
      | inl e ↦ rw e (prepend-IsFilled (0 ∷ []) left (suc left) _ (omega arith) one)
      | inr e ↦ elim (Bool-cases (ltb m code)) [
        | inl d ↦ rw (e, d) (prepend-IsFilled (_ ∷ []) left (suc left) _ (omega arith) one)
        | inr d ↦ elim (Bool-cases (ltb (suc left) reps)) [
          | inl c ↦ rw (e, d, c) (unfold IsFilled in tt)
          | inr c ↦
              let fits : length (replicate reps 0) + (suc left - reps) ≡ suc left =
                ground (arith, length-replicate {A = ℕ} reps 0) in
              rw (e, d, c)
                (prepend-IsFilled (replicate reps 0) (suc left - reps) (suc left) _ fits
                  (decode_zero_runs-IsFilled symbols m (suc left - reps)))
        ]
      ]
    ]

length-decode_loop : (v list : List ℕ) → length (decode_loop v list) ≡ length v
unfolding decode_loop
length-decode_loop [] list = refl
length-decode_loop (i ∷ v) list = ap suc (length-decode_loop v (to_front i (get_or list i 0) list))

transform_map-IsFilled :
    (bit : Bool) (size : ℕ) (r : MapResult) → IsFilled size r → IsFilled size (transform_map bit r)
unfolding transform_map IsFilled inverse_move_to_front_transform
transform_map-IsFilled true size (decoded map rest) f = length-decode_loop map _ ∙ f
transform_map-IsFilled false size (decoded map rest) f = f
transform_map-IsFilled true size needs_more_input f = tt
transform_map-IsFilled false size needs_more_input f = tt
transform_map-IsFilled true size repeat_overflow f = tt
transform_map-IsFilled false size repeat_overflow f = tt

-- Whatever symbols are read, with whatever prefix and bit for the inverse transform,
-- decodeContextMap writes exactly the entries of the map, or reports that a run does not fit or
-- that it needs more input.
pub decode_context_map-IsFilled :
    (max_run_length_prefix context_map_size : ℕ) (bit : Bool) (symbols : List (ℕ × ℕ))
    → IsFilled context_map_size
        (decode_context_map max_run_length_prefix context_map_size bit symbols)
unfolding decode_context_map
decode_context_map-IsFilled m size bit symbols =
    transform_map-IsFilled bit size (decode_zero_runs m size symbols)
      (decode_zero_runs-IsFilled symbols m size)
