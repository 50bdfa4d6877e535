-- ===== src/Huffman/Build.antt =====
-- BuildHuffmanTable of internal/core/huffman.go as a whole: the entry for a sequence of bits that
-- starts with a symbol's code.
use go_brrr.Prelude.{
  ℕ, zero, suc, ◌+◌, ◌-◌, ◌*◌, ◌%◌, ◌^◌, ◌≤◌, ◌<◌, ◌≡◌, ◌≢◌, refl, ap, sym, ◌∙◌, ◌==◌,
  if◌then◌else◌, arith, inl, inr, true, false, lt-cases, subst, get_or, Bool-cases, ==_iff, ltb,
}
use go_brrr.CodeLengths.Symbols.{follow}
use go_brrr.Huffman.Reverse.{reverse_width}
use go_brrr.Huffman.Codes.{first_codes}
use go_brrr.Huffman.Table.{
  Table, HuffmanCode, SecondLevel, max_length, root_width, root_rows, fill_root, second_rows,
  build_huffman_table, symbol_entry,
}
use go_brrr.Huffman.Fill.{reverse_width-half, fill_root-mod, mod_narrow}
use go_brrr.Huffman.Root.{Starts, Placed, root_rows-Placed, target}
use go_brrr.Huffman.Second.{Decodes, Filling, Located}
use go_brrr.Huffman.Levels.{second_rows-decoded}

-- The scan passes over empty lists only.
max_length_bounds : (n : ℕ) (lists : ℕ → ℕ) → max_length n lists ≤ n
unfolding max_length
max_length_bounds zero lists = omega arith
max_length_bounds (suc n) lists = ground (arith, max_length_bounds n lists)

max_length-empty : (n l : ℕ) (lists : ℕ → ℕ) → max_length n lists < l → l ≤ n → lists l ≡ 0xFFFF
unfolding max_length
max_length-empty zero l lists h p = absurd (omega arith)
max_length-empty (suc n) l lists h p = elim (Bool-cases (lists (suc n) == 0xFFFF)) [
  | inl e ↦ elim (lt-cases l (suc n)) [
    | inl lower ↦ max_length-empty n l lists (ground arith) (omega (arith, lower))
    | inr last ↦
        let same : l ≡ suc n = omega (arith, last, p) in
        rw same ((==_iff (lists (suc n)) 0xFFFF).0 e)
  ]
  | inr e ↦
      let last : (if false then max_length n lists else suc n) < l = ground arith in
      absurd (omega (arith, last, p))
]

-- Past a code, the codes that come later are higher.
passed :
    (counts : ℕ → ℕ) (v l m : ℕ)
    → reverse_width l v < first_codes counts l + counts l
    → reverse_width (suc m + l) v < first_codes counts (suc m + l)
unfolding first_codes
passed counts v l zero h =
    let one : 1 + l ≡ suc l = omega arith in rw one (omega (arith, h, reverse_width-half l v))
passed counts v l (suc m) h =
    let more : suc (suc m) + l ≡ suc (suc m + l) = omega arith in
    rw more (omega (arith, passed counts v l m h, reverse_width-half (suc m + l) v))

-- At most one symbol starts v.
pub Starts-unique :
    (counts lists : ℕ → ℕ) (v len k : ℕ)
    → ((l : ℕ) → l ≤ 15 → first_codes counts l + counts l ≤ 2 ^ l)
    → counts 0 ≡ 0
    → k < counts len
    → reverse_width len v ≡ first_codes counts len + k
    → Starts counts lists v len (get_or (follow (counts len) lists len) k 0)
Starts-unique counts lists v len k fits z lt e = record {
  fits = fits;
  none_zero = z;
  hit = λ l k' p q lt' e'. elim (lt-cases l len) [
    | inl shorter ↦
        let m : suc (len - l - 1) + l ≡ len = omega (arith, shorter) in
        let h = passed counts v l (len - l - 1) (omega (arith, lt', e')) in
        absurd (omega (arith, e, subst (λ (w : ℕ). reverse_width w v < first_codes counts w) m h))
    | inr longer ↦ elim (lt-cases len l) [
      | inl after ↦
          let m : suc (l - len - 1) + len ≡ l = omega (arith, after) in
          let h = passed counts v len (l - len - 1) (omega (arith, lt, e)) in
          absurd
            (omega (arith, e', subst (λ (w : ℕ). reverse_width w v < first_codes counts w) m h))
      | inr before ↦
          let same : len ≡ l = omega (arith, longer, before) in
          let rank : k ≡ k' =
            omega (
              arith,
              e,
              e',
              ap (first_codes counts) same,
              ap (λ (w : ℕ). reverse_width w v) same,
            ) in
          (same, rw (rank, same) refl)
    ]
  ];
}

module _ (counts count lists : ℕ → ℕ) (v len symbol : ℕ) (s : Starts counts lists v len symbol)
    (same : (l : ℕ) → 1 ≤ l → l ≤ 15 → count l ≡ counts l) (len_pos : 1 ≤ len) (len_le : len ≤ 15)
    (reached : reverse_width len v < first_codes counts len + counts len)
    (at_least : first_codes counts len ≤ reverse_width len v)
    (heads : (l : ℕ) → 1 ≤ l → l ≤ 15 → lists l ≡ 0xFFFF → counts l ≡ 0) (used : counts len ≢ 0)
    (table : Table) where
  longest : ℕ
  longest = max_length 15 lists

  len_in : len ≤ longest
  unfolding longest
  len_in = elim (lt-cases longest len) [
    | inl out ↦
        let none = heads len len_pos len_le (max_length-empty 15 len lists out len_le) in
        absurd (used none)
    | inr within ↦ within
  ]

  abbrev entry : HuffmanCode
  entry = target counts count lists v len symbol s same

  roots :
      (width : ℕ) (narrow : width ≤ 8)
      → Placed width v entry narrow
          (1 + width)
          (first_codes counts (1 + width))
          (root_rows width lists count 1 (2 ^ width) 0 table).0
        × ((root_rows width lists count 1 (2 ^ width) 0 table).1 * 2
            ≡ first_codes counts (1 + width) * 2 ^ (9 - (1 + width)))
  unfolding Placed first_codes
  roots width narrow =
      let first : first_codes counts 1 ≡ 0 = omega (arith, s.none_zero) in
      root_rows-Placed counts count lists v len symbol s same width narrow width 1 0 table
        (omega arith) (omega arith) (rw first refl) (λ lt. absurd (omega (arith, lt, first)))

  direct : (t : Table) → len ≤ 8 → t (v % 256) ≡ entry → Decodes v t symbol len
  unfolding symbol_entry Decodes
  direct t h e =
      let short : ltb 8 len ≡ false = ground arith in
      (rw (e, short) refl, λ _. rw e h, rw e (omega (arith, h)))

  after : (m : ℕ) → len < m → reverse_width m v < first_codes counts m
  after m lt =
      let e : suc (m - len - 1) + len ≡ m = omega (arith, lt) in
      subst (λ (w : ℕ). reverse_width w v < first_codes counts w) e
        (passed counts v len (m - len - 1) reached)

  root_only : longest < 8 → Decodes v (build_huffman_table 8 lists count table).0 symbol len
  unfolding build_huffman_table root_width second_rows longest Placed
  root_only h =
      let test : ltb (max_length 15 lists) 8 ≡ true = ground (arith, h) in
      let none : max_length 15 lists - 8 ≡ 0 = omega (arith, h) in
      let root = root_rows longest lists count 1 (2 ^ longest) 0 table in
      let whole : longest + (8 - longest) ≡ 8 = omega (arith, h) in
      let copied : fill_root 8 256 (2 ^ longest) root.0 (v % 256) ≡ root.0 (v % 256 % 2 ^ longest) =
        ap (λ (w : ℕ). fill_root 8 (2 ^ w) (2 ^ longest) root.0 (v % 256)) (sym whole)
        ∙ fill_root-mod (8 - longest) 8 longest (v % 256) root.0 (omega arith)
            (rw whole (omega arith)) in
      rw (test, none)
        (direct (fill_root 8 256 (2 ^ longest) root.0) (omega (arith, h, len_in)) (
          copied
          ∙ ap root.0 (mod_narrow longest 8 v (omega (arith, h)))
          ∙ (roots longest (omega (arith, h))).0 (after (1 + longest) (omega (arith, len_in)))))

  -- The state before the second level.
  start : SecondLevel
  start = record {
    table = (root_rows 8 lists count 1 256 0 table).0;
    base = 0;
    table_bits = 8;
    table_size = 256;
    total_size = 256;
    key = (root_rows 8 lists count 1 256 0 table).1;
    sub_key = 256;
  }

  -- A code that the root table has passed is not longer than its width.
  short : reverse_width 9 v < first_codes counts 9 → len ≤ 8
  short lt = elim (lt-cases 8 len) [
    | inl long ↦ elim (lt-cases 9 len) [
      | inl longer ↦
          let e : suc (len - 9 - 1) + 9 ≡ len = omega (arith, longer) in
          let h = passed counts v 9 (len - 9 - 1) (omega (arith, lt)) in
          absurd (
            omega
              (arith, at_least, subst (λ (w : ℕ). reverse_width w v < first_codes counts w) e h))
      | inr nine ↦
          let e : len ≡ 9 = omega (arith, long, nine) in
          absurd (
            omega
              (arith, lt, subst (λ (w : ℕ). first_codes counts w ≤ reverse_width w v) e at_least))
    ]
    | inr within ↦ within
  ]

  start-Filling : Filling count v len symbol 1 (first_codes counts 9) (count 9) 2 start
  unfolding start Located Placed
  start-Filling =
      let (placed, key) = roots 8 (omega arith) in
      record {
        used_le = omega arith;
        place = omega (arith, key);
        sub = refl;
        size = refl;
        room = omega arith;
        high = omega arith;
        closed = λ _. record {
          located = λ lt.
              let passed9 : reverse_width 9 v < first_codes counts 9 =
                omega (arith, lt, key, reverse_width-half 8 v) in
              inl (rw (placed passed9) (short passed9));
        };
        open_ = λ lt. absurd (omega (arith, lt));
        grows = λ lt. absurd (omega (arith, lt));
        decoded = λ lt. direct (start.table) (short lt) (placed lt);
      }

  two_levels : 8 ≤ longest → Decodes v (build_huffman_table 8 lists count table).0 symbol len
  unfolding build_huffman_table root_width fill_root longest start
  two_levels h =
      let test : ltb (max_length 15 lists) 8 ≡ false = ground (arith, h) in
      rw test (
        second_rows-decoded counts count lists v len symbol s same (max_length 15 lists - 8) 1 2
          start (omega arith) (omega (arith, max_length_bounds 15 lists)) start-Filling
          (after (8 + 1 + (max_length 15 lists - 8)) (omega (arith, h, len_in))))

  pub build_huffman_table-decoded : Decodes v (build_huffman_table 8 lists count table).0 symbol len
  build_huffman_table-decoded = elim (lt-cases longest 8) [
    | inl h ↦ root_only h
    | inr h ↦ two_levels h
  ]
