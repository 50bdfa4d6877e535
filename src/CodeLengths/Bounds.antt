-- ===== src/CodeLengths/Bounds.antt =====
-- Whatever symbols a stream has, the decoder's loop of decode.go stays inside its arrays.
use go_brrr.Prelude.{
  ℕ, zero, suc, ◌+◌, ◌-◌, ◌%◌, ◌^◌, ◌≤◌, ◌<◌, ◌≡◌, refl, ◌∙◌, List, [], ◌∷◌, ◌==◌, ◌⊎◌, Bool-cases,
  inl, inr, arith, replicate, if◌then◌else◌, true, All, ltb, ltb→lt, ◌&&◌, Bool,
}
use go_brrr.CodeLengths.Encode.{Code}
use go_brrr.CodeLengths.Decode.{
  Assigned, LengthReader, update, assign, assign_run, process, process_single_code_length,
  process_repeated_code_length, extend_repeat, read_symbol_code_lengths, initial_reader,
  initial_assigned,
}
use go_brrr.CodeLengths.Assign.{assign_all, assign_run-assign_all}
use go_brrr.CodeLengths.Reads.{symbol-assign}
use go_brrr.CodeLengths.Symbols.{update-other}

-- At most m symbols, every next slot is one of a symbol before or a first one, and the slots after
-- those of m symbols are as in `old`.
Within : ℕ → (ℕ → ℕ) → Assigned → Type 0
Within m old a =
    (a.symbol ≤ m)
    × ((l : ℕ) → l ≤ 15 → a.next_symbol l < a.symbol + 16)
    × ((slot : ℕ) → m + 16 ≤ slot → a.symbol_lists slot ≡ old slot)

update-cases : (f : ℕ → ℕ) (i v j : ℕ) → (update f i v j ≡ v) ⊎ (update f i v j ≡ f j)
unfolding update
update-cases f i v j = elim (Bool-cases (i == j)) [
  | inl e ↦ inl (rw e refl)
  | inr e ↦ inr (rw e refl)
]

assign-Within :
    (m : ℕ) (old : ℕ → ℕ) (l : ℕ) (a : Assigned)
    → l ≤ 15
    → a.symbol < m
    → Within m old a
    → Within m old (assign l a)
unfolding Within assign
assign-Within m old l a h b (s, n, o) = elim (Bool-cases (l == 0)) [
  | inl e ↦ rw e (omega arith, (λ k q. omega (arith, n k q)), o)
  | inr e ↦ rw e (
    omega arith,
    (λ k q. elim (update-cases a.next_symbol l (a.symbol + 16) k) [
      | inl new ↦ omega (arith, new)
      | inr was ↦ omega (arith, was, n k q)
    ]),
    (λ slot q.
        update-other a.symbol_lists (a.next_symbol l) (a.symbol % 2 ^ 16) slot
          (λ same. ground (arith, same, n l h, q, s))
        ∙ o slot q),
  )
]

run-Within :
    (m : ℕ) (old : ℕ → ℕ) (l n : ℕ) (a : Assigned)
    → l ≤ 15
    → a.symbol + n ≤ m
    → Within m old a
    → Within m old (assign_all (replicate n l) a)
unfolding assign_all
run-Within m old l zero a h b w = w
run-Within m old l (suc n) a h b w =
    run-Within m old l n (assign l a) h (omega (arith, symbol-assign l a, b))
      (assign-Within m old l a h (omega (arith, b)) w)

and_left : (x y : Bool) → (x && y) ≡ true → x ≡ true
and_left x y e = ground arith

-- Every repetition adds to the run.
grows : (old x e : ℕ) → (x ≡ 2) ⊎ (x ≡ 3) → (n : ℕ) × (extend_repeat old x e - old ≡ suc n)
unfolding extend_repeat
grows old x e (inl two) = rw two (extend_repeat old 2 e - old - 1, ground arith)
grows old x e (inr three) = rw three (extend_repeat old 3 e - old - 1, ground arith)

guarded-Within :
    (m : ℕ) (old : ℕ → ℕ) (l delta : ℕ) (a : Assigned)
    → l ≤ 15
    → ((n : ℕ) × (delta ≡ suc n))
    → Within m old a
    → Within m old (
        if ltb m (a.symbol + delta)
        then record a { symbol = m; space = 0xFFFFF }
        else assign_run l delta a)
guarded-Within m old l delta a h (n, e) w = elim (Bool-cases (ltb m (a.symbol + delta))) [
  | inl t ↦ rw t (unfold Within in (omega arith, (λ k q. omega (arith, w.1 k q, w.0)), w.2))
  | inr t ↦
      rw (t, e, assign_run-assign_all l n a h) (run-Within m old l (suc n) a h (ground arith) w)
]

IsSafe : ℕ → (ℕ → ℕ) → LengthReader → Type 0
IsSafe m old h = (h.prev_code_len ≤ 15) × Within m old h.assigned

process-IsSafe :
    (m : ℕ) (old : ℕ → ℕ) (c : Code) (h : LengthReader)
    → c.0 ≤ 17
    → h.assigned.symbol < m
    → IsSafe m old h
    → IsSafe m old (process m c h)
unfolding IsSafe process process_single_code_length process_repeated_code_length
process-IsSafe m old c h v b (p, w) = elim (Bool-cases (ltb c.0 16)) [
  | inl e ↦ rw e (
    single_prev c.0 h.prev_code_len (ground arith) p,
    assign-Within m old c.0 h.assigned (ground arith) b w,
  )
  | inr e ↦ rw e (elim (Bool-cases (c.0 == 16)) [
    | inl d ↦
        rw d (p, guarded-Within m old h.prev_code_len _ h.assigned p (grows _ 2 c.1 (inl refl)) w)
    | inr d ↦
        rw d (p, guarded-Within m old 0 _ h.assigned (omega arith) (grows _ 3 c.1 (inr refl)) w)
  ])
]
  where
    single_prev : (l prev : ℕ) → l ≤ 15 → prev ≤ 15 → (if l == 0 then prev else l) ≤ 15
    single_prev l prev a b = ground arith

read_symbol_code_lengths-IsSafe :
    (m : ℕ) (old : ℕ → ℕ) (codes : List Code) (h : LengthReader)
    → All (λ c. c.0 ≤ 17) codes
    → IsSafe m old h
    → IsSafe m old (read_symbol_code_lengths m codes h).1
unfolding read_symbol_code_lengths
read_symbol_code_lengths-IsSafe m old [] h a s = s
read_symbol_code_lengths-IsSafe m old (c ∷ codes) h a s =
    elim (Bool-cases (ltb h.assigned.symbol m && ltb 0 h.assigned.space)) [
      | inl e ↦ rw e (
          read_symbol_code_lengths-IsSafe m old codes (process m c h) a.1
            (process-IsSafe m old c h a.0 (ltb→lt _ _ (and_left _ _ e)) s))
      | inr e ↦ rw e s
    ]

-- Whatever symbols up to 17 are read, the loop assigns at most as many symbols as the alphabet
-- has, changes no slot of the lists past those of as many symbols, and keeps the last length and
-- the tails of the lists, which it uses as indices, within their arrays.
pub read_symbol_code_lengths-bounds :
    (alphabet_size slot l : ℕ) (old : ℕ → ℕ) (codes : List Code)
    → All (λ c. c.0 ≤ 17) codes
    → alphabet_size + 16 ≤ slot
    → l ≤ 15
    → let g = (read_symbol_code_lengths alphabet_size codes (initial_reader old)).1 in
      (g.assigned.symbol ≤ alphabet_size)
      × (g.assigned.symbol_lists slot ≡ old slot)
      × (g.prev_code_len ≤ 15)
      × (g.assigned.next_symbol l < alphabet_size + 16)
unfolding IsSafe Within initial_reader initial_assigned
read_symbol_code_lengths-bounds m slot l old codes a b h =
    let (p, (s, n, o)) =
      read_symbol_code_lengths-IsSafe m old codes (initial_reader old) a
        (omega arith, (omega arith, (λ k q. omega arith), λ i q. high i (omega arith))) in
    (s, o slot b, p, omega (arith, n l h, s))
  where
    high : (i : ℕ) → 16 ≤ i → (if ltb i 16 then 0xFFFF else old i) ≡ old i
    high i q = ground arith
