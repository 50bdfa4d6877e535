-- ===== src/CodeLengths/Linked.antt =====
-- The lists of symbols that processSingleCodeLength of decode.go links, for all depths.
use go_brrr.Prelude.{
  ℕ, zero, suc, ◌+◌, ◌-◌, ◌%◌, ◌^◌, ◌≤◌, ◌<◌, ◌≡◌, ◌≢◌, refl, ap, sym, subst, ◌∙◌, List, [], ◌∷◌,
  ◌++◌, ◌==◌, Bool-cases, inl, inr, arith, if◌then◌else◌, true, false, ==_iff, length,
  length-append, append_assoc, append-nil, get_or, get_or-append, ltb, All,
}
use go_brrr.CodeLengths.Decode.{Assigned, assign, initial_assigned}
use go_brrr.CodeLengths.Assign.{assign_all, update-at}
use go_brrr.CodeLengths.Reads.{symbol-assign}
use go_brrr.CodeLengths.Symbols.{
  last-owner, update-Chain, extend-Chain, follow-Chain, symbols_of, positions, Chain, update-other,
}

-- The symbols `rows` of each length are linked and counted.
IsLinked : (ℕ → ℕ) → Assigned → (ℕ → List ℕ) → Type 0
IsLinked owner a rows =
    (l : ℕ)
    → 1 ≤ l
    → l ≤ 15
    → Chain owner a.symbol_lists l l (rows l) (a.next_symbol l)
      × (a.code_length_histo l ≡ length (rows l))
      × (a.next_symbol l < a.symbol + 16)
      × (length (rows l) ≤ a.symbol)

with_symbol : ℕ → ℕ → (ℕ → List ℕ) → ℕ → List ℕ
with_symbol d k rows l = if d == l then rows l ++ (k ∷ []) else rows l

assign-IsLinked :
    (owner : ℕ → ℕ) (d : ℕ) (a : Assigned) (rows : ℕ → List ℕ)
    → d ≤ 15
    → a.symbol < 65535
    → owner (a.symbol + 16) ≡ d
    → IsLinked owner a rows
    → IsLinked owner (assign d a) (with_symbol d a.symbol rows)
unfolding IsLinked assign with_symbol
assign-IsLinked owner zero a rows h b w i l p q =
    let apart : (0 == l) ≡ false = ground arith in
    let (c, n, t, u) = i l p q in rw apart (c, n, omega (arith, t), omega (arith, u))
assign-IsLinked owner (suc d) a rows h b w i l p q =
    let some : (suc d == 0) ≡ false = ground arith in
    let small : a.symbol % 2 ^ 16 ≡ a.symbol = omega arith in
    let (c, n, t, u) = i l p q in
    elim (Bool-cases (suc d == l)) [
      | inl e ↦
          let same : suc d ≡ l = (==_iff (suc d) l).0 e in
          rw (some, e, small, same, update-at, update-at)
            (
              extend-Chain owner l a.symbol_lists a.symbol l (rows l) (a.next_symbol l) (w ∙ same) t
                  c,
              omega (arith, length-append (rows l) (a.symbol ∷ []), n, u, b),
              omega arith,
              omega (arith, length-append (rows l) (a.symbol ∷ []), u),
            )
      | inr e ↦
          let c' = (i (suc d) (omega arith) h).0 in
          let other : suc d ≢ l = λ same. ground arith in
          let next = update-other a.next_symbol (suc d) (a.symbol + 16) l other in
          let count =
            update-other a.code_length_histo (suc d) ((a.code_length_histo (suc d) + 1) % 2 ^ 16) l
              other in
          rw (some, e, next, count)
            (
              update-Chain owner l a.symbol_lists (a.next_symbol (suc d)) (a.symbol % 2 ^ 16) l
                  (rows l) (a.next_symbol l)
                  (λ same. other (
                    sym (
                      last-owner owner (suc d) a.symbol_lists (suc d) (rows (suc d))
                        (a.next_symbol (suc d)) c')
                    ∙ same))
                  c,
              n,
              omega (arith, t),
              omega (arith, u),
            )
    ]

Owns : (ℕ → ℕ) → ℕ → List ℕ → Type 0
Owns owner k [] = Unit {0}
Owns owner k (d ∷ depth) = (owner (k + 16) ≡ d) × Owns owner (k + 1) depth

rows-positions :
    (l d k : ℕ) (rows : ℕ → List ℕ) (depth : List ℕ)
    → with_symbol d k rows l ++ positions l (k + 1) depth ≡ rows l ++ positions l k (d ∷ depth)
unfolding with_symbol positions
rows-positions l d k rows depth = elim (Bool-cases (d == l)) [
  | inl e ↦ rw (e, append_assoc (rows l) (k ∷ []) (positions l (k + 1) depth)) refl
  | inr e ↦ rw e refl
]

assign_all-symbols_of :
    (owner : ℕ → ℕ) (depth : List ℕ) (a : Assigned) (rows : ℕ → List ℕ) (l : ℕ)
    → All (λ d. d ≤ 15) depth
    → a.symbol + length depth ≤ 65535
    → Owns owner a.symbol depth
    → IsLinked owner a rows
    → 1 ≤ l
    → l ≤ 15
    → symbols_of l (assign_all depth a) ≡ rows l ++ positions l a.symbol depth
unfolding assign_all symbols_of IsLinked positions Owns
assign_all-symbols_of owner [] a rows l h b w i p q =
    let (c, n, t, u) = i l p q in
    rw n (follow-Chain owner l a.symbol_lists l (rows l) (a.next_symbol l) c)
    ∙ sym (append-nil (rows l))
assign_all-symbols_of owner (d ∷ depth) a rows l h b w i p q =
    let next : (assign d a).symbol ≡ a.symbol + 1 = symbol-assign d a in
    assign_all-symbols_of owner depth (assign d a) (with_symbol d a.symbol rows) l h.1
      (omega (arith, next, b)) (subst (λ (k : ℕ). Owns owner k depth) (sym next) w.1)
      (assign-IsLinked owner d a rows h.0 (omega (arith, b)) w.0 i) p q
    ∙ ap (λ (k : ℕ). with_symbol d a.symbol rows l ++ positions l k depth) next
    ∙ rows-positions l d a.symbol rows depth

owner_of : List ℕ → ℕ → ℕ
owner_of depth slot = if ltb slot 16 then slot else get_or depth (slot - 16) 0

owner_of-Owns : (before depth : List ℕ) → Owns (owner_of (before ++ depth)) (length before) depth
unfolding Owns owner_of
owner_of-Owns before [] = tt
owner_of-Owns before (d ∷ depth) =
    let high : ltb (length before + 16) 16 ≡ false = ground arith in
    let at : length before + 16 - 16 ≡ length before = omega arith in
    let more = owner_of-Owns (before ++ (d ∷ [])) depth in
    (
      rw (high, at) (get_or-append before d depth 0),
      subst (λ (t : List ℕ). Owns (owner_of t) (length before + 1) depth)
          (append_assoc before (d ∷ []) depth)
          (subst (λ (k : ℕ). Owns (owner_of (before ++ (d ∷ []) ++ depth)) k depth)
            (length-append before (d ∷ [])) more),
    )

initial-IsLinked :
    (old : ℕ → ℕ) (depth : List ℕ) → IsLinked (owner_of depth) (initial_assigned old) (λ l. [])
unfolding IsLinked initial_assigned owner_of Chain
initial-IsLinked old depth l p q =
    let low : ltb l 16 ≡ true = ground arith in
    rw low ((refl, refl), refl, omega arith, omega arith)

-- For at most 65535 depths of at most 15, once they are assigned one by one, the list of each
-- length from 1 to 15, as long as its count says, has the symbols with this depth, in order.
pub symbols_of-assign_all :
    (old : ℕ → ℕ) (depth : List ℕ) (l : ℕ)
    → All (λ d. d ≤ 15) depth
    → length depth ≤ 65535
    → 1 ≤ l
    → l ≤ 15
    → symbols_of l (assign_all depth (initial_assigned old)) ≡ positions l 0 depth
unfolding initial_assigned
symbols_of-assign_all old depth l h b p q =
    assign_all-symbols_of (owner_of depth) depth (initial_assigned old) (λ l. []) l h
      (omega (arith, b)) (owner_of-Owns [] depth) (initial-IsLinked old depth) p q
