-- ===== src/Huffman/Root.antt =====
-- The root table of BuildHuffmanTable of internal/core/huffman.go.
use native.Mathlib.Nat.{pow-suc, one-le-pow, add-mul}
use go_brrr.Prelude.{
  ℕ, zero, suc, ◌+◌, ◌-◌, ◌*◌, ◌%◌, ◌^◌, ◌≤◌, ◌<◌, ◌≡◌, refl, ap, sym, ◌∙◌, arith, inl, inr,
  lt-cases, get_or,
}
use go_brrr.CodeLengths.Symbols.{follow}
use go_brrr.Huffman.Reverse.{reverse_width, reverse_width-lt, reverse_width-shifted}
use go_brrr.Huffman.Codes.{first_codes}
use go_brrr.Huffman.Table.{Table, HuffmanCode, root_row, root_rows, replicate_value}
use go_brrr.Huffman.Fill.{
  mod_narrow, placed-at, placed-other, reverse_width-half, reverse_width-code, code-reverse_width,
}

-- The entry of the k-th symbol of a length, in the linked list from `slot`.
pub entry_of : (n : ℕ) (lists : ℕ → ℕ) (slot l k : ℕ) → HuffmanCode
entry_of n lists slot l k = record { bits = l; value = get_or (follow n lists slot) k 0 }

pow-suc' : (k : ℕ) → 2 ^ suc k ≡ 2 * 2 ^ k
pow-suc' k = omega (arith, pow-suc 2 k)

module _ (width v : ℕ) (target : HuffmanCode) (narrow : width ≤ 8) where
  -- Once the keys have passed the first l bits of v, the slot for v has its entry.
  unfoldable pub Placed : ℕ → ℕ → Table → Type 0
  Placed l c t = reverse_width l v < c → t (v % 2 ^ width) ≡ target

  place-Placed :
      (l c symbol : ℕ) (t : Table)
      → l ≤ width
      → c < 2 ^ l
      → (reverse_width l v ≡ c → target ≡ record { bits = l; value = symbol })
      → Placed l c t
      → Placed l (c + 1) (
          replicate_value
            (2 ^ width)
            t
            (reverse_width 8 (c * 2 ^ (8 - l)))
            record { bits = l; value = symbol }
            (2 ^ l)
            (2 ^ width))
  unfolding Placed
  place-Placed l c symbol t h b hit before lt =
      let shift : 8 ≡ (8 - l) + l = omega (arith, narrow) in
      let at : reverse_width 8 (c * 2 ^ (8 - l)) ≡ 0 + reverse_width l c =
        ap (λ (w : ℕ). reverse_width w (c * 2 ^ (8 - l))) shift
        ∙ reverse_width-shifted (8 - l) l c
        ∙ omega arith in
      let slot : v % 2 ^ width ≡ 0 + v % 2 ^ width = omega arith in
      let code : HuffmanCode = record { bits = l; value = symbol } in
      let low = mod_narrow l width v h in
      rw (at, slot)
        (elim (lt-cases (reverse_width l v) c) [
          | inl earlier ↦
              placed-other width l (reverse_width l c) 0 code t h (reverse_width-lt l c)
                (v % 2 ^ width)
                (λ e. absurd (omega (arith, earlier, code-reverse_width l c v b (sym low ∙ e))))
              ∙ rw (sym slot) (before earlier)
          | inr last ↦
              let same : reverse_width l v ≡ c = omega (arith, last, lt) in
              placed-at width l (reverse_width l c) 0 code t h (reverse_width-lt l c)
                (v % 2 ^ width) (omega (arith, one-le-pow width 2))
                (low ∙ reverse_width-code l c v same)
              ∙ sym (hit same)
        ])

  pub root_row-Placed :
      (n l slot c key : ℕ) (lists : ℕ → ℕ) (t : Table)
      → l ≤ width
      → c + n ≤ 2 ^ l
      → key ≡ c * 2 ^ (8 - l)
      → ((k : ℕ) → k < n → reverse_width l v ≡ c + k → target ≡ entry_of n lists slot l k)
      → Placed l c t
      → Placed l (c + n) (root_row n lists slot l (2 ^ width) key t).0
        × ((root_row n lists slot l (2 ^ width) key t).1 ≡ (c + n) * 2 ^ (8 - l))
  unfolding root_row Placed entry_of follow
  root_row-Placed zero l slot c key lists t h b e hit before = (
    λ lt. before (omega (arith, lt)),
    e ∙ ap (λ (t : ℕ). t * 2 ^ (8 - l)) {x = c} {y = c + 0} (omega arith),
  )
  root_row-Placed (suc n) l slot c key lists t h b e hit before =
      let next : c + 1 + n ≡ c + suc n = omega arith in
      rw (e, sym next)
        (root_row-Placed n l (lists slot + 16) (c + 1) (c * 2 ^ (8 - l) + 2 ^ (8 - l)) lists _ h
          (omega (arith, b)) (omega (arith, add-mul c 1 (2 ^ (8 - l))))
          (λ k lt at. hit (suc k) (omega (arith, lt)) (omega (arith, at)))
          (place-Placed l c (lists slot) t h (omega (arith, b))
            (λ at. hit 0 (omega arith) (omega (arith, at))) before))

halve : (key c p : ℕ) → key * 2 ≡ c * (2 * p) → key ≡ c * p
halve key c p h = grind arith

-- The symbol `symbol` of length `len` is the one whose code v starts with.
pub record Starts (counts lists : ℕ → ℕ) (v len symbol : ℕ) : Type 0 where
  pub fits : (l : ℕ) → l ≤ 15 → first_codes counts l + counts l ≤ 2 ^ l
  pub none_zero : counts 0 ≡ 0
  pub hit :
      (l k : ℕ)
      → 1 ≤ l
      → l ≤ 15
      → k < counts l
      → reverse_width l v ≡ first_codes counts l + k
      → (len ≡ l) × (symbol ≡ get_or (follow (counts l) lists l) k 0)

module _ (counts count lists : ℕ → ℕ) (v len symbol : ℕ) (s : Starts counts lists v len symbol)
    (same : (l : ℕ) → 1 ≤ l → l ≤ 15 → count l ≡ counts l) where
  abbrev pub target : HuffmanCode
  target = record { bits = len; value = symbol }

  pub row_hit :
      (l k : ℕ)
      → 1 ≤ l
      → l ≤ 15
      → k < count l
      → reverse_width l v ≡ first_codes counts l + k
      → target ≡ entry_of (count l) lists l l k
  unfolding entry_of
  row_hit l k p q lt e =
      let (a, b) = s.hit l k p q (omega (arith, lt, same l p q)) e in rw (a, b, same l p q) refl

  module _ (width : ℕ) (narrow : width ≤ 8) where
    next_level :
        (l n : ℕ) (t : Table)
        → n ≡ counts l
        → Placed width v target narrow l (first_codes counts l + n) t
        → Placed width v target narrow (suc l) (first_codes counts (suc l)) t
    unfolding Placed first_codes
    next_level l n t e before lt = before (omega (arith, lt, e, reverse_width-half l v))

    double_key :
        {l : ℕ} (c n m q : ℕ)
        → n ≡ m
        → first_codes counts l ≡ c
        → counts l ≡ m
        → (c + n) * q * 2 ≡ first_codes counts (suc l) * q
    unfolding first_codes
    double_key c n m q e f g = rw (e, f, g) (grind arith)

    pub root_rows-Placed :
        (n l key : ℕ) (t : Table)
        → 1 ≤ l
        → l + n ≤ suc width
        → key * 2 ≡ first_codes counts l * 2 ^ (9 - l)
        → Placed width v target narrow l (first_codes counts l) t
        → Placed width v target narrow
            (l + n)
            (first_codes counts (l + n))
            (root_rows n lists count l (2 ^ width) key t).0
          × ((root_rows n lists count l (2 ^ width) key t).1 * 2
              ≡ first_codes counts (l + n) * 2 ^ (9 - (l + n)))
    unfolding root_rows
    root_rows-Placed zero l key t p h e before =
        let none : l + 0 ≡ l = omega arith in rw none (before, e)
    root_rows-Placed (suc n) l key t p h e before =
        let c = first_codes counts l in
        let double : 2 ^ (9 - l) ≡ 2 * 2 ^ (8 - l) =
          ap (λ (t : ℕ). 2 ^ t) {x = 9 - l} {y = suc (8 - l)} (omega arith) ∙ pow-suc' (8 - l) in
        let key_at : key ≡ c * 2 ^ (8 - l) =
          halve key c (2 ^ (8 - l)) (e ∙ ap (λ (t : ℕ). c * t) double) in
        let (placed, key') =
          root_row-Placed width v target narrow (count l) l l c key lists t (omega arith)
            (omega (arith, s.fits l (omega (arith, narrow)), same l p (omega (arith, narrow))))
            key_at (λ k lt at. row_hit l k p (omega (arith, narrow)) lt at) before in
        let all = same l p (omega (arith, narrow)) in
        let one : l + 1 ≡ suc l = omega arith in
        let rest : 9 - suc l ≡ 8 - l = omega arith in
        let next : l + 1 + n ≡ l + suc n = omega arith in
        let row = root_row (count l) lists l l (2 ^ width) key t in
        let ih =
          root_rows-Placed n (l + 1) row.1 row.0 (omega arith) (omega (arith, h))
            (rw (one, rest, key') (double_key c (count l) (counts l) (2 ^ (8 - l)) all refl refl))
            (rw one (next_level l (count l) row.0 all placed)) in
        rw (sym next) ih
