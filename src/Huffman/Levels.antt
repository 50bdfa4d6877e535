-- ===== src/Huffman/Levels.antt =====
-- The second-level tables of BuildHuffmanTable of internal/core/huffman.go, all lengths in turn.
use native.Mathlib.Nat.{pow-suc, one-le-pow, mul_assoc}
use go_brrr.Prelude.{
  ℕ, zero, suc, ◌+◌, ◌-◌, ◌*◌, ◌^◌, ◌≤◌, ◌<◌, ◌≡◌, refl, ap, sym, ◌∙◌, ◌==◌, arith, inl, inr, true,
  false, lt-cases, subst, get_or,
}
use go_brrr.Prelude.BitOps.{pow-add}
use go_brrr.CodeLengths.Decode.{update}
use go_brrr.CodeLengths.Symbols.{follow}
use go_brrr.Huffman.Reverse.{reverse_width}
use go_brrr.Huffman.Codes.{first_codes}
use go_brrr.Huffman.Table.{SecondLevel, second_row, second_rows, open_table, place_symbol, grow}
use go_brrr.Huffman.Fill.{reverse_width-half}
use go_brrr.Huffman.Grow.{grow-next}
use go_brrr.Huffman.Second.{Decodes, Filling, opened-Filling}
use go_brrr.Huffman.Place.{next-Filling}
use go_brrr.Huffman.Root.{Starts}

module _ (count lists : ℕ → ℕ) (v len symbol j : ℕ) (j_pos : 1 ≤ j) (j_le : j ≤ 7) where
  -- The k-th symbol of a row, if v starts with its code, is the one meant.
  Hits : (n slot c : ℕ) → Type 0
  Hits n slot c =
      (k : ℕ)
      → k < n
      → reverse_width (8 + j) v ≡ c + k
      → (len ≡ 8 + j) × (symbol ≡ get_or (follow n lists slot) k 0)

  full : (used : ℕ) → used ≡ 2 ^ j → used * 2 ^ (8 - j) ≡ 256
  full used e =
      ap (λ (t : ℕ). t * 2 ^ (8 - j)) e
      ∙ sym (pow-add j (8 - j))
      ∙ ap (λ (k : ℕ). 2 ^ k) {x = j + (8 - j)} {y = 8} (omega arith)

  not_full : (used : ℕ) → used < 2 ^ j → (used * 2 ^ (8 - j) == 256) ≡ false
  not_full used lt =
      let whole = full (2 ^ j) refl in
      let some = one-le-pow (8 - j) 2 in
      let less : used * 2 ^ (8 - j) < 256 = less_of used (2 ^ j) (2 ^ (8 - j)) lt some whole in
      ground arith
    where
      less_of : (a p q : ℕ) → a < p → (0 < 2 → 1 ≤ q) → p * q ≡ 256 → a * q < 256
      less_of a p q h s e = grind arith

  second_row-Filling :
      (n slot c used : ℕ) (s : SecondLevel)
      → c + n ≤ 2 ^ (8 + j)
      → Hits n slot c
      → Filling count v len symbol j c n used s
      → (used' : ℕ) × Filling count v len symbol j
          (c + n)
          0
          used'
          (second_row n lists count slot (8 + j) 8 s)
  unfolding second_row Hits follow
  second_row-Filling zero slot c used s b hit f =
      let none : c + 0 ≡ c = omega arith in (used, rw none f)
  second_row-Filling (suc n) slot c used s b hit f =
      let next : c + 1 + n ≡ c + suc n = omega arith in
      let go =
        λ (u : ℕ) (t : SecondLevel) (lt : u < 2 ^ j)
            (g : Filling count v len symbol j c (suc n) u t).
          second_row-Filling n (lists slot + 16) (c + 1) (u + 1)
            (place_symbol (8 + j) 8 (lists slot) t) (omega (arith, b))
            (λ k lt at. hit (suc k) (omega (arith, lt)) (omega (arith, at)))
            (next-Filling count v len symbol j c n u (lists slot) t j_pos j_le lt g
              (λ at. hit 0 (omega arith) (omega (arith, at)))) in
      elim (lt-cases used (2 ^ j)) [
        | inl room ↦
            let test : (s.sub_key == 256) ≡ false = rw f.sub (not_full used room) in
            rw (test, sym next) (go used s room f)
        | inr none ↦
            let all : used ≡ 2 ^ j = omega (arith, none, f.used_le) in
            let last = f.sub ∙ full used all in
            let test : (s.sub_key == 256) ≡ true = ground arith in
            let f' = subst (λ (u : ℕ). Filling count v len symbol j c (suc n) u s) all f in
            rw (test, sym next)
              (go 0 (open_table (update count (8 + j) (suc n)) (8 + j) 8 s)
                (omega (arith, one-le-pow j 2))
                (opened-Filling count v len symbol j c n s j_pos j_le (omega (arith, b)) f'))
      ]

  -- What is left of it when no symbol of the length is left.
  next_level :
      (c used : ℕ) (s : SecondLevel)
      → suc j ≤ 7
      → Filling count v len symbol j c 0 used s
      → Filling count v len symbol (suc j) (c * 2) (count (8 + suc j)) (used * 2) s
  next_level c used s h f =
      let p = pow-suc 2 j in
      let q : 2 ^ (8 - j) ≡ 2 ^ (8 - suc j) * 2 =
        ap (λ (k : ℕ). 2 ^ k) {x = 8 - j} {y = suc (8 - suc j)} (omega arith)
        ∙ pow-suc 2 (8 - suc j) in
      let step : 8 + suc j ≡ 8 + j + 1 = omega arith in
      record {
        used_le = omega (arith, p, f.used_le);
        place = omega (arith, p, f.place, ap (λ (t : ℕ). s.key * t) p, mul_assoc s.key (2 ^ j) 2);
        sub = f.sub ∙ ap (λ (t : ℕ). used * t) q ∙ swap used (2 ^ (8 - suc j));
        size = f.size;
        room = f.room;
        high = f.high;
        closed = λ e. f.closed (omega (arith, e, p));
        open_ = λ lt. f.open_ (omega (arith, lt, p));
        grows = λ lt.
            let left : 2 ^ suc j - used * 2 ≡ (2 ^ j - used) * 2 = omega (arith, p) in
            let rounds : 7 - j ≡ suc (7 - suc j) = omega arith in
            rw (left, step)
              (sym (grow-next (7 - suc j) count (2 ^ j - used) (8 + j) (omega (arith, lt, p)))
                ∙ ap (λ (r : ℕ). grow r (update count (8 + j) 0) (2 ^ j - used) (8 + j))
                    (sym rounds)
                ∙ f.grows (omega (arith, lt, p)));
        decoded = λ lt. f.decoded (
            omega (
              arith,
              lt,
              reverse_width-half (8 + j) v,
              ap (λ (w : ℕ). reverse_width w v) {x = 8 + suc j} {y = suc (8 + j)} (omega arith),
            ));
      }
    where
      swap : (a b : ℕ) → a * (b * 2) ≡ a * 2 * b
      swap a b = grind arith

module _ (counts count lists : ℕ → ℕ) (v len symbol : ℕ) (s : Starts counts lists v len symbol)
    (same : (l : ℕ) → 1 ≤ l → l ≤ 15 → count l ≡ counts l) where
  row-Filling :
      (j used : ℕ) (t : SecondLevel)
      → 1 ≤ j
      → j ≤ 7
      → Filling count v len symbol j (first_codes counts (8 + j)) (count (8 + j)) used t
      → (used' : ℕ) × Filling count v len symbol j
          (first_codes counts (8 + j) + counts (8 + j))
          0
          used'
          (second_row (count (8 + j)) lists count (8 + j) (8 + j) 8 t)
  unfolding Hits
  row-Filling j used t p h f =
      let e = same (8 + j) (omega arith) (omega (arith, h)) in
      rw (sym e) (
        second_row-Filling count lists v len symbol j p h (count (8 + j)) (8 + j)
          (first_codes counts (8 + j)) used t (omega (arith, e, s.fits (8 + j) (omega (arith, h))))
          (λ k lt at.
            rw e (s.hit (8 + j) k (omega arith) (omega (arith, h)) (omega (arith, e, lt)) at))
          f)

  first_codes-step :
      (j : ℕ) → first_codes counts (8 + suc j) ≡ (first_codes counts (8 + j) + counts (8 + j)) * 2
  unfolding first_codes
  first_codes-step j = ap (first_codes counts) {x = 8 + suc j} {y = suc (8 + j)} (omega arith)

  -- All lengths from 8 + j on, as far as they go.
  pub second_rows-decoded :
      (n j used : ℕ) (t : SecondLevel)
      → 1 ≤ j
      → j + n ≤ 8
      → Filling count v len symbol j (first_codes counts (8 + j)) (count (8 + j)) used t
      → reverse_width (8 + j + n) v < first_codes counts (8 + j + n)
      → Decodes v (second_rows n lists count (8 + j) 8 t).table symbol len
  unfolding second_rows
  second_rows-decoded zero j used t p h f lt =
      let none : 8 + j + 0 ≡ 8 + j = omega arith in
      f.decoded (subst (λ (l : ℕ). reverse_width l v < first_codes counts l) none lt)
  second_rows-decoded (suc zero) j used t p h f lt =
      let (used', f') = row-Filling j used t p (omega arith) f in
      let one : 8 + j + 1 ≡ suc (8 + j) = omega arith in
      let one' : 8 + j + 1 ≡ 8 + suc j = omega arith in
      f'.decoded (
        omega (
          arith,
          lt,
          ap (first_codes counts) one' ∙ first_codes-step j,
          ap (λ (l : ℕ). reverse_width l v) one,
          reverse_width-half (8 + j) v,
        ))
  second_rows-decoded (suc (suc n)) j used t p h f lt =
      let (used', f') = row-Filling j used t p (omega arith) f in
      let one : 8 + j + 1 ≡ 8 + suc j = omega arith in
      let all : 8 + j + suc (suc n) ≡ 8 + suc j + suc n = omega arith in
      let g = next_level count lists v len symbol j p (omega arith) _ used' _ (omega arith) f' in
      let t' = second_row (count (8 + j)) lists count (8 + j) (8 + j) 8 t in
      subst (λ (l : ℕ). Decodes v (second_rows (suc n) lists count l 8 t').table symbol len)
        (sym one)
        (second_rows-decoded (suc n) (suc j) (used' * 2) t' (omega arith) (omega (arith, h))
          (rw (first_codes-step j) g)
          (subst (λ (l : ℕ). reverse_width l v < first_codes counts l) all lt))
