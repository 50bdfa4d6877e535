-- ===== src/CodeLengths/Symbols.antt =====
-- The linked lists of symbols of each code length in `symbolLists` of decode.go, as
-- BuildHuffmanTable of internal/core/huffman.go walks them.
use go_brrr.Prelude.{
  ℕ, zero, suc, ◌+◌, ◌≤◌, ◌<◌, ◌≡◌, ◌≢◌, refl, ap, sym, ◌∙◌, List, [], ◌∷◌, ◌++◌, ◌==◌, arith,
  if◌then◌else◌, length,
}
use go_brrr.CodeLengths.Decode.{Assigned, update}
use go_brrr.CodeLengths.Assign.{update-at}

-- `count` symbols, each in the slot of the one before.
unfoldable pub follow : ℕ → (ℕ → ℕ) → ℕ → List ℕ
follow zero lists slot = []
follow (suc count) lists slot = let symbol = lists slot in symbol ∷ follow count lists (symbol + 16)

-- The symbols with code length l.
unfoldable pub symbols_of : ℕ → Assigned → List ℕ
symbols_of l a = follow (a.code_length_histo l) a.symbol_lists l

-- Where a value stands in the depths, counted from k.
unfoldable pub positions : ℕ → ℕ → List ℕ → List ℕ
positions l k [] = []
positions l k (d ∷ depth) =
    let rest = positions l (k + 1) depth in if d == l then k ∷ rest else rest

-- From `slot` to `last` through the symbols, in the slots that `owner` says are of length l.
unfoldable pub Chain : (ℕ → ℕ) → (ℕ → ℕ) → ℕ → ℕ → List ℕ → ℕ → Type 0
Chain owner lists l slot [] last = (owner slot ≡ l) × (slot ≡ last)
Chain owner lists l slot (x ∷ xs) last =
    (owner slot ≡ l) × (slot < x + 16) × (lists slot ≡ x) × Chain owner lists l (x + 16) xs last

pub update-other : (f : ℕ → ℕ) (i v j : ℕ) → i ≢ j → update f i v j ≡ f j
unfolding update
update-other f i v j h = ground arith

module _ (owner : ℕ → ℕ) (l : ℕ) where
  pub last-owner :
      (lists : ℕ → ℕ) (slot : ℕ) (xs : List ℕ) (last : ℕ)
      → Chain owner lists l slot xs last
      → owner last ≡ l
  unfolding Chain
  last-owner lists slot [] last (o, e) = ap owner (sym e) ∙ o
  last-owner lists slot (x ∷ xs) last (o, i, e, c) = last-owner lists (x + 16) xs last c

  before_last :
      (lists : ℕ → ℕ) (slot : ℕ) (xs : List ℕ) (last : ℕ)
      → Chain owner lists l slot xs last
      → slot ≤ last
  unfolding Chain
  before_last lists slot [] last (o, e) = omega (arith, e)
  before_last lists slot (x ∷ xs) last (o, i, e, c) =
      omega (arith, i, before_last lists (x + 16) xs last c)

  pub update-Chain :
      (lists : ℕ → ℕ) (at v slot : ℕ) (xs : List ℕ) (last : ℕ)
      → owner at ≢ l
      → Chain owner lists l slot xs last
      → Chain owner (update lists at v) l slot xs last
  unfolding Chain
  update-Chain lists at v slot [] last n c = c
  update-Chain lists at v slot (x ∷ xs) last n (o, i, e, c) = (
    o,
    i,
    update-other lists at v slot (λ same. n (ap owner same ∙ o)) ∙ e,
    update-Chain lists at v (x + 16) xs last n c,
  )

  pub extend-Chain :
      (lists : ℕ → ℕ) (k slot : ℕ) (xs : List ℕ) (last : ℕ)
      → owner (k + 16) ≡ l
      → last < k + 16
      → Chain owner lists l slot xs last
      → Chain owner (update lists last k) l slot (xs ++ (k ∷ [])) (k + 16)
  unfolding Chain
  extend-Chain lists k slot [] last w b (o, e) =
      (o, omega (arith, e, b), ap (update lists last k) e ∙ update-at lists last k, (w, refl))
  extend-Chain lists k slot (x ∷ xs) last w b (o, i, e, c) =
      let after = before_last lists (x + 16) xs last c in
      (
        o,
        i,
        update-other lists last k slot (λ same. ground (arith, same, i, after)) ∙ e,
        extend-Chain lists k (x + 16) xs last w b c,
      )

  pub follow-Chain :
      (lists : ℕ → ℕ) (slot : ℕ) (xs : List ℕ) (last : ℕ)
      → Chain owner lists l slot xs last
      → follow (length xs) lists slot ≡ xs
  unfolding Chain follow
  follow-Chain lists slot [] last c = refl
  follow-Chain lists slot (x ∷ xs) last (o, i, e, c) =
      rw e (ap (λ (t : List ℕ). x ∷ t) (follow-Chain lists (x + 16) xs last c))
