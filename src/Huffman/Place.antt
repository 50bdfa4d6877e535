-- ===== src/Huffman/Place.antt =====
-- One symbol placed in a second-level table of BuildHuffmanTable of internal/core/huffman.go.
use native.Mathlib.Nat.{one-le-pow, add-mul, mul-le-mul, le_refl}
use go_brrr.Prelude.{
  ℕ, suc, ◌+◌, ◌-◌, ◌*◌, ◌/◌, ◌%◌, ◌^◌, ◌≤◌, ◌<◌, ◌≡◌, refl, ap, sym, ◌∙◌, arith, inl, inr,
  lt-cases,
}
use go_brrr.CodeLengths.Decode.{update}
use go_brrr.Huffman.Reverse.{reverse_width, reverse_width-lt, reverse_width-shifted}
use go_brrr.Huffman.Table.{
  Table, HuffmanCode, SecondLevel, replicate_value, place_symbol, symbol_entry, grow,
}
use go_brrr.Huffman.Fill.{
  mod_narrow, placed-at, placed-other, placed-below, reverse_width-code, code-reverse_width,
}
use go_brrr.Huffman.Grow.{grow_bounds, grow-place}
use go_brrr.Huffman.Second.{
  IsOpen, Filling, reverse_width-split, Decodes, Decodes-kept, IsOpen-IsClosed, high_lt,
  Located-kept, symbol_entry-pointer,
}

earlier : (a k p r w c : ℕ) → c + p ≡ k * p + w → a + 1 < k → r < p → a * p + r < c
earlier a k p r w c e h lt =
    let top : (a + 2) * p ≤ k * p = mul-le-mul (omega arith) (le_refl p) in
    omega (arith, e, lt, top, add-mul a 2 p)

module _ (count : ℕ → ℕ) (v len symbol j c n used sym' : ℕ) (s : SecondLevel) (j_pos : 1 ≤ j)
    (j_le : j ≤ 7) (used_lt : used < 2 ^ j) (f : Filling count v len symbol j c (suc n) used s)
    (hit : reverse_width (8 + j) v ≡ c → (len ≡ 8 + j) × (symbol ≡ sym')) where
  abbrev next : SecondLevel
  next = place_symbol (8 + j) 8 sym' s

  abbrev code : HuffmanCode
  code = record { bits = 8 + j - 8; value = sym' }

  o : IsOpen v s
  o = f.open_ used_lt

  fits : j ≤ s.table_bits
  fits = omega (
    arith,
    f.grows used_lt,
    grow_bounds (7 - j) (update count (8 + j) (suc n)) (2 ^ j - used) (8 + j),
  )

  -- The table after the writes, in the form of the lemmas on them.
  next-table :
      (a : ℕ)
      → next.table a
        ≡ replicate_value
            (2 ^ s.table_bits)
            s.table
            (s.base + reverse_width j used)
            record { bits = j; value = sym' }
            (2 ^ j)
            (2 ^ s.table_bits)
            a
  unfolding place_symbol
  next-table a =
      let width : 8 + j - 8 ≡ j = omega arith in
      let shift : 8 ≡ (8 - j) + j = omega arith in
      let at : reverse_width 8 (used * 2 ^ (8 - j)) ≡ reverse_width j used =
        ap (λ (w : ℕ). reverse_width w (used * 2 ^ (8 - j))) shift
        ∙ reverse_width-shifted (8 - j) j used in
      rw (f.sub, f.size, width, at) refl

  next-below : (a : ℕ) → a < s.base → next.table a ≡ s.table a
  next-below a lt =
      next-table a
      ∙ placed-below s.table_bits j (reverse_width j used) s.base _ s.table fits
          (reverse_width-lt j used) a lt

  next-IsOpen : IsOpen v next
  unfolding place_symbol
  next-IsOpen =
      let root = next-below (v % 256) (omega (arith, o.base_high)) in
      record {
        base_high = o.base_high;
        narrow = o.narrow;
        older = λ lt. Located-kept v s.base s.table next.table root (o.older lt);
        current = λ e. root ∙ o.current e;
      }

  next-size : next.table_size ≡ 2 ^ next.table_bits
  unfolding place_symbol
  next-size = f.size

  -- The rest of the bits after the first eight, as a code of j bits.
  abbrev rest : ℕ
  rest = reverse_width j (v / 256)

  before_last : reverse_width 8 v + 1 < s.key → reverse_width (8 + j) v < c
  before_last lt = omega (
    arith,
    reverse_width-split j v,
    earlier (reverse_width 8 v) s.key (2 ^ j) rest used c f.place lt (reverse_width-lt j (v / 256)),
  )

  in_last :
      s.key ≤ reverse_width 8 v + 1
      → reverse_width (8 + j) v < c + 1
      → reverse_width 8 v + 1 ≡ s.key
  in_last h lt =
      let below =
        high_lt (reverse_width 8 v) s.key (2 ^ j) rest
          (omega (arith, lt, reverse_width-split j v, f.place, used_lt)) in
      omega (arith, h, below)

  code_in_last : reverse_width 8 v + 1 ≡ s.key → reverse_width (8 + j) v + used ≡ c + rest
  code_in_last e =
      let key : s.key * 2 ^ j ≡ (reverse_width 8 v + 1) * 2 ^ j =
        ap (λ (k : ℕ). k * 2 ^ j) (sym e) in
      omega (arith, reverse_width-split j v, f.place, key, add-mul (reverse_width 8 v) 1 (2 ^ j))

  abbrev slot : ℕ
  slot = v / 256 % 2 ^ s.table_bits

  slot-code : slot % 2 ^ j ≡ v / 256 % 2 ^ j
  slot-code = mod_narrow j s.table_bits (v / 256) fits

  pointed :
      (t : Table)
      → t (v % 256) ≡ record { bits = s.table_bits + 8; value = s.base - v % 256 }
      → symbol_entry v t ≡ ((t (s.base + slot)).value, 8 + (t (s.base + slot)).bits)
  pointed t = symbol_entry-pointer v s.base s.table_bits t o.base_high (omega (arith, fits, j_pos))

  decoded_in_last :
      reverse_width 8 v + 1 ≡ s.key
      → reverse_width (8 + j) v < c + 1
      → Decodes v next.table symbol len
  unfolding Decodes
  decoded_in_last e lt =
      let root = next-below (v % 256) (omega (arith, o.base_high)) ∙ o.current e in
      let same = code_in_last e in
      elim (lt-cases (reverse_width (8 + j) v) c) [
        | inl old ↦
            let kept =
              next-table (s.base + slot)
              ∙ placed-other s.table_bits j (reverse_width j used) s.base _ s.table fits
                  (reverse_width-lt j used) slot
                  (λ d. absurd (
                    omega (
                      arith,
                      old,
                      same,
                      code-reverse_width j used (v / 256) used_lt (sym slot-code ∙ d),
                    ))) in
            (
              pointed next.table root
                  ∙ rw kept refl
                  ∙ sym (pointed s.table (o.current e))
                  ∙ (f.decoded old).0,
              λ h. rw (next-below (v % 256) (omega (arith, o.base_high))) ((f.decoded old).1 h),
              rw (next-below (v % 256) (omega (arith, o.base_high))) (f.decoded old).2,
            )
        | inr new ↦
            let at : reverse_width (8 + j) v ≡ c = omega (arith, new, lt) in
            let placed =
              next-table (s.base + slot)
              ∙ placed-at s.table_bits j (reverse_width j used) s.base _ s.table fits
                  (reverse_width-lt j used) slot (omega (arith, one-le-pow s.table_bits 2))
                  (slot-code ∙ reverse_width-code j used (v / 256) (omega (arith, at, same))) in
            (
              pointed next.table root ∙ rw (placed, (hit at).0, (hit at).1) refl,
              λ h. absurd (omega (arith, h, (hit at).0, j_pos)),
              rw root (omega (arith, o.narrow)),
            )
      ]

  next-decoded : reverse_width (8 + j) v < c + 1 → Decodes v next.table symbol len
  next-decoded lt = elim (lt-cases (reverse_width 8 v + 1) s.key) [
    | inl earlier ↦
        Decodes-kept v s.base symbol len s.table next.table
          (next-below (v % 256) (omega (arith, o.base_high))) (o.older earlier)
          (λ a _ high. next-below a high) (f.decoded (before_last earlier))
    | inr last ↦ decoded_in_last (in_last last lt) lt
  ]

  pub next-Filling : Filling count v len symbol j (c + 1) n (used + 1) next
  unfolding place_symbol
  next-Filling = record {
    used_le = omega (arith, used_lt);
    place = omega (arith, f.place);
    sub =
        let width : 8 + j - 8 ≡ j = omega arith in
        rw width (omega (arith, f.sub, add-mul used 1 (2 ^ (8 - j))));
    size = f.size;
    room = f.room;
    high = f.high;
    closed = λ _. IsOpen-IsClosed v next next-size next-IsOpen;
    open_ = λ _. next-IsOpen;
    grows = λ lt.
        let left : 2 ^ j - used ≡ suc (2 ^ j - (used + 1)) = omega (arith, lt) in
        sym (grow-place (7 - j) count (2 ^ j - (used + 1)) (8 + j) n)
        ∙ ap (λ (t : ℕ). grow (7 - j) (update count (8 + j) (suc n)) t (8 + j)) (sym left)
        ∙ f.grows used_lt;
    decoded = next-decoded;
  }
