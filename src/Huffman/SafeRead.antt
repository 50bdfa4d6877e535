-- ===== src/Huffman/SafeRead.antt =====
-- The branches of safeReadSymbol and safeDecodeSymbol of decode.go.
use go_brrr.Prelude.{
  ℕ, ◌+◌, ◌-◌, ◌%◌, ◌^◌, ◌≤◌, ◌<◌, ◌≡◌, refl, ap, sym, ◌∙◌, ◌==◌, List, if◌then◌else◌, arith, inl,
  inr, true, false, lt-cases, subst, ltb, leb, length, drop, some, none, Bool, bit_and,
}
use go_brrr.Prelude.BitOps.{bit_and_mask}
use go_brrr.Prelude.BitStream.{from_bits, length-to_bits, from_bits-to_bits}
use go_brrr.BitReader.{BitReader, drop_bits, bit_mask, safe_get_bits, pull_bits, pull_fuel}
use go_brrr.BitReader.Unread.{unread, IsReader, pull_byte-end}
use go_brrr.BitReader.Read.{Pulled, pull_bits-Pulled}
use go_brrr.Huffman.Table.{
  Table, HuffmanCode, symbol_entry, decode_symbol, safe_decode_symbol, safe_read_symbol,
  symbol_of_bits,
}
use go_brrr.Huffman.Fill.{mod_narrow}
use go_brrr.Huffman.Second.{Decodes}
use go_brrr.Huffman.Rows.{IsPrefixTable}
use go_brrr.Huffman.ReadSymbol.{
  got, starved, unread-low, normalize-valid, entry2_of, entry-cases, second_field, dropped,
  length-unread, long_of, ReadSymbol,
}

module _ (t : Table) (prefix : IsPrefixTable t) where
  -- Enough bits for any code.
  enough-ReadSymbol :
      (br br' : BitReader)
      → IsReader br'
      → unread br' ≡ unread br
      → 15 ≤ br'.bit_pos
      → let (value, br'') = decode_symbol (bit_and br'.val (bit_mask 15)) t br' in
        ReadSymbol t br (some value, br'')
  unfolding IsPrefixTable Decodes decode_symbol bit_mask
  enough-ReadSymbol br br' v e h =
      let (symbol, l, p, q, all) = prefix (from_bits (unread br)) in
      let low : bit_and br'.val (2 ^ 15 - 1) % 2 ^ l ≡ from_bits (unread br) % 2 ^ l =
        ap (λ (x : ℕ). x % 2 ^ l) (bit_and_mask 15 br'.val)
        ∙ mod_narrow l 15 br'.val q
        ∙ sym (unread-low l br' v (omega (arith, h, q)))
        ∙ ap (λ (s : List ℕ). from_bits s % 2 ^ l) e in
      let (left, valid) = dropped l br' v (omega (arith, h, q)) q in
      rw (all (bit_and br'.val (2 ^ 15 - 1)) low).0 (
        got symbol l (drop_bits l br') (all (from_bits (unread br)) refl).0
          (omega (arith, q, h, ap length e, length-unread br')) (left ∙ ap (drop l) e) valid)

  -- No bits at all: every code has some.
  no_bits : (symbol l : ℕ) → symbol_entry 0 t ≡ (symbol, l) → 1 ≤ l → ((t 0).bits == 0) ≡ false
  no_bits symbol l d p = elim (entry-cases 0 symbol l t d) [
    | inl (b, _, e) ↦ ground arith
    | inr (long, _, _) ↦ ground arith
  ]

  module _ (br br' : BitReader) (v : IsReader br') (symbol l : ℕ)
      (entry : symbol_entry (from_bits (unread br)) t ≡ (symbol, l)) (same : unread br' ≡ unread br)
      (all_held : length (unread br) ≡ br'.bit_pos) (l_le : l ≤ 15) where
    short-root :
        (t (br'.val % 256)).value ≡ symbol
        → (t (br'.val % 256)).bits ≡ l
        → ReadSymbol t br (
            if leb (t (br'.val % 256)).bits br'.bit_pos
            then (some (t (br'.val % 256)).value, drop_bits (t (br'.val % 256)).bits br')
            else (none, br'))
    short-root ev el = elim (lt-cases br'.bit_pos l) [
      | inl few ↦
          let test : leb l br'.bit_pos ≡ false = ground (arith, few) in
          rw (el, test) (starved symbol l br' entry (omega (arith, all_held, few)) same v)
      | inr there ↦
          let test : leb l br'.bit_pos ≡ true = ground (arith, there) in
          let (left, valid) = dropped l br' v there l_le in
          rw (el, ev, test)
            (got symbol l (drop_bits l br') entry (omega (arith, all_held, there))
              (left ∙ ap (drop l) same) valid)
    ]

    short-long :
        (e2 : HuffmanCode)
        → e2.value ≡ symbol
        → 8 + e2.bits ≡ l
        → 8 < l
        → ReadSymbol t br (
            if leb br'.bit_pos 8
            then (none, br')
            else if ltb (br'.bit_pos - 8) e2.bits
            then (none, br')
            else (some e2.value, drop_bits (8 + e2.bits) br'))
    short-long e2 ev el long = elim (lt-cases 8 br'.bit_pos) [
      | inr few ↦
          let test : leb br'.bit_pos 8 ≡ true = ground (arith, few) in
          rw test (starved symbol l br' entry (omega (arith, all_held, few, long)) same v)
      | inl more ↦
          let test : leb br'.bit_pos 8 ≡ false = ground (arith, more) in
          elim (lt-cases br'.bit_pos l) [
            | inl short ↦
                let test2 : ltb (br'.bit_pos - 8) e2.bits ≡ true = ground (arith, short, el) in
                rw (test, test2)
                  (starved symbol l br' entry (omega (arith, all_held, short)) same v)
            | inr there ↦
                let test2 : ltb (br'.bit_pos - 8) e2.bits ≡ false = ground (arith, there, el) in
                let (left, valid) = dropped l br' v there l_le in
                rw (test, test2, el, ev)
                  (got symbol l (drop_bits l br') entry (omega (arith, all_held, there))
                    (left ∙ ap (drop l) same) valid)
          ]
    ]

  short-ReadSymbol :
      (br br' : BitReader)
      → IsReader br'
      → unread br' ≡ unread br
      → br'.bit_pos < 15
      → length br'.input ≤ br'.pos
      → ReadSymbol t br (safe_decode_symbol t br')
  unfolding IsPrefixTable Decodes safe_decode_symbol entry2_of
  short-ReadSymbol br br' v e h p =
      let (symbol, l, p1, q1, all) = prefix br'.val in
      let (d, in_root, narrow) = all br'.val refl in
      let bits = sym e ∙ (pull_byte-end br' v p).1 in
      let held = ap from_bits bits ∙ from_bits-to_bits br'.bit_pos br'.val v.held in
      let entry = ap (λ (x : ℕ). symbol_entry x t) held ∙ d in
      let len = ap length bits ∙ length-to_bits br'.bit_pos br'.val in
      rw (normalize-valid br' v (omega (arith, h))) (elim (lt-cases 0 br'.bit_pos) [
        | inr none_held ↦
            let test : (br'.bit_pos == 0) ≡ true = ground (arith, none_held) in
            let pos : br'.bit_pos ≡ 0 = omega (arith, none_held) in
            let zero_val : br'.val ≡ 0 = omega (arith, v.held, ap (λ (k : ℕ). 2 ^ k) pos) in
            let no =
              no_bits symbol l (subst (λ (x : ℕ). symbol_entry x t ≡ (symbol, l)) zero_val d) p1 in
            rw (test, no) (starved symbol l br' entry (omega (arith, len, none_held, p1)) e v)
        | inl some_held ↦
            let test : (br'.bit_pos == 0) ≡ false = ground (arith, some_held) in
            elim (entry-cases br'.val symbol l t d) [
              | inl (b, ev, el) ↦
                  let root : leb (t (br'.val % 256)).bits 8 ≡ true = ground (arith, b) in
                  rw (test, root) (short-root br br' v symbol l entry e len q1 ev el)
              | inr (b, ev, el) ↦
                  let root : leb (t (br'.val % 256)).bits 8 ≡ false = ground (arith, b) in
                  let long : 8 < l = long_of l (t (br'.val % 256)).bits b in_root in
                  rw (test, root, second_field br'.val (t (br'.val % 256)).bits b narrow)
                    (short-long br br' v symbol l entry e len q1 _ ev el long)
            ]
      ])

  pub safe_read_symbol-ReadSymbol :
      (br : BitReader) → IsReader br → ReadSymbol t br (safe_read_symbol t br)
  unfolding safe_read_symbol safe_get_bits symbol_of_bits
  safe_read_symbol-ReadSymbol br v =
      step (pull_bits pull_fuel 15 br)
        (pull_bits-Pulled pull_fuel 15 br v (omega arith) (omega arith))
    where
      step :
          (r : Bool × BitReader)
          → Pulled 15 br r
          → ReadSymbol t br (
              symbol_of_bits t
                (if r.0 then (some (bit_and r.1.val (bit_mask 15)), r.1) else (none, r.1)))
      step _ (Pulled.enough br' w u i m) = enough-ReadSymbol br br' w u m
      step _ (Pulled.short br' w u i m q) = short-ReadSymbol br br' w u m q
