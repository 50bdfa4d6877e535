-- ===== src/Huffman/Second.antt =====
-- The second-level tables of BuildHuffmanTable of internal/core/huffman.go: what holds while they
-- are filled, for one sequence v of bits.
use native.Mathlib.Nat.{one-le-pow, add-mul, pow-le-pow_right}
use go_brrr.Prelude.{
  ℕ, suc, ◌+◌, ◌-◌, ◌*◌, ◌/◌, ◌%◌, ◌^◌, ◌≤◌, ◌<◌, ◌≡◌, ◌≢◌, refl, ap, sym, ◌∙◌, arith, inl, inr,
  true, false, lt-cases, ◌⊎◌, ltb,
}
use go_brrr.Prelude.BitOps.{pow-add}
use go_brrr.CodeLengths.Decode.{update}
use go_brrr.Huffman.Reverse.{reverse_width, reverse_width-lt, reverse_width-add}
use go_brrr.Huffman.Table.{Table, SecondLevel, open_table, grow, next_table_bit_size, symbol_entry}
use go_brrr.Huffman.Fill.{
  put-at, put-other, reverse_width-code, code-reverse_width, reverse_width-low,
}
use go_brrr.Huffman.Grow.{grow_bounds}

-- v starts with the code of the symbol, of this length, and a short one is in the root table.
unfoldable pub Decodes : ℕ → Table → ℕ → ℕ → Type 0
Decodes v t symbol len =
    (symbol_entry v t ≡ (symbol, len))
    × (len ≤ 8 → (t (v % 256)).bits ≤ 8)
    × ((t (v % 256)).bits ≤ 15)

-- v is decoded by the root table alone, or from a slot after it and below the limit.
unfoldable pub Located : (v : ℕ) → Table → (limit : ℕ) → Type 0
Located v t limit =
    let e = t (v % 256) in
    let at = v % 256 + e.value + v / 256 % 2 ^ (e.bits - 8) in
    (e.bits ≤ 8) ⊎ ((256 ≤ at) × (at < limit))

-- All tables so far are full.
pub record IsClosed (v : ℕ) (s : SecondLevel) : Type 0 where
  pub located : reverse_width 8 v < s.key → Located v s.table (s.base + s.table_size)

-- The last table is being filled.
pub record IsOpen (v : ℕ) (s : SecondLevel) : Type 0 where
  pub base_high : 256 ≤ s.base
  pub narrow : s.table_bits ≤ 7
  pub older : reverse_width 8 v + 1 < s.key → Located v s.table s.base
  pub current :
      reverse_width 8 v + 1 ≡ s.key
      → s.table (v % 256) ≡ record { bits = s.table_bits + 8; value = s.base - v % 256 }

-- Before the canonical code c of length 8 + j is placed, with n symbols of the length left. `used`
-- is how far the last table is filled, of 2 ^ j.
pub record Filling (count : ℕ → ℕ) (v len symbol j c n used : ℕ) (s : SecondLevel) : Type 0 where
  pub used_le : used ≤ 2 ^ j
  pub place : c + 2 ^ j ≡ s.key * 2 ^ j + used
  pub sub : s.sub_key ≡ used * 2 ^ (8 - j)
  pub size : s.table_size ≡ 2 ^ s.table_bits
  pub room : s.base + s.table_size ≤ 256 + 128 * s.key
  pub high : 256 ≤ s.base + s.table_size
  pub closed : used ≡ 2 ^ j → IsClosed v s
  pub open_ : used < 2 ^ j → IsOpen v s
  pub grows :
      used < 2 ^ j → grow (7 - j) (update count (8 + j) n) (2 ^ j - used) (8 + j) ≡ 8 + s.table_bits
  pub decoded : reverse_width (8 + j) v < c → Decodes v s.table symbol len

pub reverse_width-split :
    (j v : ℕ) → reverse_width (8 + j) v ≡ reverse_width 8 v * 2 ^ j + reverse_width j (v / 256)
reverse_width-split j v =
    ap (reverse_width (8 + j)) {x = v} {y = v % 256 + v / 256 * 2 ^ 8} (omega arith)
    ∙ reverse_width-add 8 j (v % 256) (v / 256) (omega arith)
    ∙ ap (λ (t : ℕ). t * 2 ^ j + reverse_width j (v / 256)) (reverse_width-low 8 v)

-- The entry does not change where neither slot does.
symbol_entry-kept :
    (v limit : ℕ) (t t' : Table)
    → t' (v % 256) ≡ t (v % 256)
    → Located v t limit
    → ((a : ℕ) → 256 ≤ a → a < limit → t' a ≡ t a)
    → symbol_entry v t' ≡ symbol_entry v t
unfolding Located symbol_entry
symbol_entry-kept v limit t t' e (inl direct) same =
    let short : ltb 8 (t (v % 256)).bits ≡ false = ground arith in rw (e, short) refl
symbol_entry-kept v limit t t' e (inr (low, high)) same = rw (e, same _ low high) refl

pub pointer-slot :
    (v base table_bits : ℕ)
    → 256 ≤ base
    → v % 256 + (base - v % 256) + v / 256 % 2 ^ (table_bits + 8 - 8)
      ≡ base + v / 256 % 2 ^ table_bits
pointer-slot v base table_bits h =
    let width : table_bits + 8 - 8 ≡ table_bits = omega arith in rw width (omega arith)

pub Decodes-kept :
    (v limit symbol len : ℕ) (t t' : Table)
    → t' (v % 256) ≡ t (v % 256)
    → Located v t limit
    → ((a : ℕ) → 256 ≤ a → a < limit → t' a ≡ t a)
    → Decodes v t symbol len
    → Decodes v t' symbol len
unfolding Decodes
Decodes-kept v limit symbol len t t' e l same (d, short, low) =
    (symbol_entry-kept v limit t t' e l same ∙ d, rw e short, rw e low)

pub Located-kept :
    (v limit : ℕ) (t t' : Table)
    → t' (v % 256) ≡ t (v % 256)
    → Located v t limit
    → Located v t' limit
unfolding Located
Located-kept v limit t t' e l = rw e l

-- A symbol of the last table, at its slot.
pub symbol_entry-pointer :
    (v base table_bits : ℕ) (t : Table)
    → 256 ≤ base
    → 1 ≤ table_bits
    → t (v % 256) ≡ record { bits = table_bits + 8; value = base - v % 256 }
    → symbol_entry v t ≡ (
      (t (base + v / 256 % 2 ^ table_bits)).value,
      8 + (t (base + v / 256 % 2 ^ table_bits)).bits,
    )
unfolding symbol_entry
symbol_entry-pointer v base table_bits t h p e =
    let long : ltb 8 (table_bits + 8) ≡ true = ground arith in
    rw (e, long, pointer-slot v base table_bits h) refl

-- The last table closes as it stands.
pub IsOpen-IsClosed :
    (v : ℕ) (s : SecondLevel) → s.table_size ≡ 2 ^ s.table_bits → IsOpen v s → IsClosed v s
unfolding Located
IsOpen-IsClosed v s size o = record {
  located = λ lt. elim (lt-cases (reverse_width 8 v + 1) s.key) [
    | inl earlier ↦ elim (o.older earlier) [
      | inl direct ↦ inl direct
      | inr (low, high) ↦ inr (low, omega (arith, high))
    ]
    | inr last ↦
        let slot = pointer-slot v s.base s.table_bits o.base_high in
        let inside : v / 256 % 2 ^ s.table_bits < 2 ^ s.table_bits =
          omega (arith, one-le-pow s.table_bits 2) in
        rw (o.current (omega (arith, last, lt)), slot)
          (inr (omega (arith, o.base_high), omega (arith, size, inside)))
  ];
}

pub high_lt : (a k p r : ℕ) → a * p + r < k * p → a < k
high_lt a k p r h = grind arith

-- A new table is opened where the last one is full.
module _ (count : ℕ → ℕ) (v len symbol j c n : ℕ) (s : SecondLevel) (j_pos : 1 ≤ j) (j_le : j ≤ 7)
    (c_lt : c < 2 ^ (8 + j)) (f : Filling count v len symbol j c (suc n) (2 ^ j) s) where
  abbrev opened : SecondLevel
  opened = open_table (update count (8 + j) (suc n)) (8 + j) 8 s

  key_at : c ≡ s.key * 2 ^ j
  key_at = omega (arith, f.place)

  key_lt : s.key < 256
  key_lt =
      below s.key (2 ^ j) (omega (arith, one-le-pow j 2)) (omega (arith, key_at, c_lt, pow-add 8 j))
    where
      below : (k p : ℕ) → 1 ≤ p → k * p < 256 * p → k < 256
      below k p h lt = grind arith

  grown : 8 + opened.table_bits ≡ grow (7 - j) (update count (8 + j) (suc n)) (2 ^ j) (8 + j)
  unfolding open_table next_table_bit_size
  grown =
      let rounds : 15 - (8 + j) ≡ 7 - j = omega arith in
      let width : 8 + j - 8 ≡ j = omega arith in
      rw (rounds, width)
        (omega (arith, grow_bounds (7 - j) (update count (8 + j) (suc n)) (2 ^ j) (8 + j)))

  opened_bits : (j ≤ opened.table_bits) × (opened.table_bits ≤ 7)
  opened_bits =
      let b = grow_bounds (7 - j) (update count (8 + j) (suc n)) (2 ^ j) (8 + j) in
      (omega (arith, grown, b), omega (arith, grown, b))

  opened-apart : reverse_width 8 v < s.key → reverse_width 8 s.key ≢ v % 256
  opened-apart lt e = absurd (omega (arith, lt, code-reverse_width 8 s.key v key_lt (sym e)))

  opened-IsOpen : IsOpen v opened
  unfolding open_table Located
  opened-IsOpen = record {
    base_high = f.high;
    narrow = opened_bits.1;
    older = λ lt.
        rw
          (put-other s.table (reverse_width 8 s.key) (v % 256) _ (opened-apart (omega (arith, lt))))
          ((f.closed refl).located (omega (arith, lt)));
    current = λ e.
        let slot = reverse_width-code 8 s.key v (omega (arith, e)) in
        let r_lt = reverse_width-lt 8 s.key in
        let value : (s.base + s.table_size + 2 ^ 16 - reverse_width 8 s.key) % 2 ^ 16
            ≡ s.base + s.table_size - reverse_width 8 s.key =
          omega (arith, f.high, f.room, key_lt, r_lt) in
        rw (slot, put-at s.table (reverse_width 8 s.key), value) refl;
  }

  pub opened-Filling : Filling count v len symbol j c (suc n) 0 opened
  unfolding open_table
  opened-Filling = record {
    used_le = omega arith;
    place = omega (arith, key_at, add-mul s.key 1 (2 ^ j));
    sub = omega arith;
    size = refl;
    room =
        let wide : 2 ^ opened.table_bits ≤ 2 ^ 7 =
          pow-le-pow_right {n = 2} (omega arith) {j = 7} opened_bits.1 in
        omega (arith, f.room, wide);
    high = omega (arith, f.high);
    closed = λ e. absurd (omega (arith, e, one-le-pow j 2));
    open_ = λ _. opened-IsOpen;
    grows = λ _. let whole : 2 ^ j - 0 ≡ 2 ^ j = omega arith in rw whole (sym grown);
    decoded = λ lt.
        let before : reverse_width 8 v < s.key =
          high_lt (reverse_width 8 v) s.key (2 ^ j) (reverse_width j (v / 256))
            (omega (arith, lt, key_at, reverse_width-split j v)) in
        Decodes-kept v (s.base + s.table_size) symbol len s.table _
          (put-other s.table (reverse_width 8 s.key) (v % 256) _ (opened-apart before))
          ((f.closed refl).located before)
          (λ a low _.
            put-other s.table (reverse_width 8 s.key) a _
              (λ e. absurd (omega (arith, e, low, reverse_width-lt 8 s.key))))
          (f.decoded lt);
  }
