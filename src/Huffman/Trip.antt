-- ===== src/Huffman/Trip.antt =====
-- The codes of convertBitDepthsToSymbols of internal/encoder/huffman_encode.go, read by decodeSymbol
-- of decode.go from the table that BuildHuffmanTable of internal/core/huffman.go makes of the same
-- depths.
use native.Mathlib.Nat.{add-mul-mod_self_right, mod-eq_of_lt}
use go_brrr.Prelude.{
  ℕ, ◌+◌, ◌*◌, ◌^◌, ◌≤◌, ◌<◌, ◌≡◌, refl, ◌∙◌, List, arith, subst, get_or, All, length, take, some,
  get_or-All, ◌++◌,
}
use go_brrr.BitReader.{BitReader, drop_bits}
use go_brrr.CodeLengths.Decode.{Assigned, read_symbol_code_lengths, initial_reader}
use go_brrr.CodeLengths.Loop.{space_taken}
use go_brrr.CodeLengths.Symbols.{symbols_of, positions}
use go_brrr.Huffman.Reverse.{reverse_width, reverse_width-lt}
use go_brrr.Huffman.Codes.{first_codes, convert_bit_depths_to_symbols}
use go_brrr.Huffman.Counts.{count_of, get_or-positions}
use go_brrr.Huffman.Kraft.{counts_of}
use go_brrr.Huffman.Table.{safe_read_symbol, Table, build_huffman_table, decode_symbol}
use go_brrr.Huffman.Second.{Decodes}
use go_brrr.Huffman.Fill.{code-reverse_width}
use go_brrr.Huffman.Rows.{built, starts-Decodes, built-IsPrefixTable}
use go_brrr.Huffman.ReadSymbol.{ReadSymbol}
use go_brrr.Huffman.SafeRead.{safe_read_symbol-ReadSymbol}
use go_brrr.BitReader.Unread.{IsReader}
use go_brrr.Huffman.Encoded.{codes_fit, counts_of-some, get_or-convert}
use go_brrr.CodeLengths.Encode.{Code, encode_huffman_tree}
use go_brrr.CodeLengths.Trip.{read_symbol_code_lengths-encode_huffman_tree}

-- The table of any lists with the symbols of each length in order, at the bits of a symbol's code.
module _ (depth symbols : List ℕ) (a : Assigned) (table : Table) (i l rest : ℕ)
    (each : All (λ d. d ≤ 15) depth) (complete : space_taken depth ≡ 32768)
    (few : length depth ≤ 65535)
    (rows : (m : ℕ) → 1 ≤ m → m ≤ 15 → symbols_of m a ≡ positions m 0 depth)
    (within : i < length depth) (depth_at : get_or depth i 0 ≡ l) (l_pos : 1 ≤ l)
    (l_le : l ≤ 15) where
  abbrev rank : ℕ
  rank = count_of l (take i depth)

  abbrev code : ℕ
  code = first_codes (counts_of depth) l + rank

  rank_lt : rank < counts_of depth l
  rank_lt =
      omega (arith, (get_or-positions depth 0 i l within depth_at).0, counts_of-some depth l l_pos)

  code_lt : code < 2 ^ l
  code_lt = omega (arith, rank_lt, codes_fit depth each complete l l_le)

  abbrev bits : ℕ
  bits = reverse_width l code + rest * 2 ^ l

  starts : reverse_width l bits ≡ code
  starts = code-reverse_width l code bits code_lt (
      add-mul-mod_self_right (reverse_width l code) rest (2 ^ l)
      ∙ mod-eq_of_lt (reverse_width-lt l code))

  pub table-decoded :
      Decodes bits (build_huffman_table 8 a.symbol_lists a.code_length_histo table).0 i l
  table-decoded =
      subst (λ (t : ℕ). Decodes bits (built depth a table each complete few rows) t l)
        ((get_or-positions depth 0 i l within depth_at).1 ∙ omega arith)
        (starts-Decodes depth a table each complete few rows bits l rank l_pos l_le rank_lt starts)

-- For at most 65535 depths of at most 15 that make a complete code, as many as the alphabet has or
-- fewer, the encoder gives each symbol of a depth l that is not 0 a code of l bits, and the decoder,
-- with the table of the code lengths that it read back from the encoded tree, takes this code, with
-- any bits after it, for the symbol and drops l bits.
pub decode_symbol-convert_bit_depths_to_symbols :
    (alphabet_size i rest : ℕ) (old : ℕ → ℕ) (depth symbols : List ℕ) (more : List Code)
    (table : Table) (br : BitReader)
    → All (λ d. d ≤ 15) depth
    → space_taken depth ≡ 32768
    → length depth ≤ alphabet_size
    → length depth ≤ 65535
    → length depth ≤ length symbols
    → i < length depth
    → 1 ≤ get_or depth i 0
    → let read =
        read_symbol_code_lengths alphabet_size
          (encode_huffman_tree depth ++ more)
          (initial_reader old) in
      let a = read.1.assigned in
      let built = build_huffman_table 8 a.symbol_lists a.code_length_histo table in
      let l = get_or depth i 0 in
      (codes : List ℕ) × (convert_bit_depths_to_symbols depth symbols ≡ some codes)
      × (get_or codes i 0 < 2 ^ l)
      × (decode_symbol (get_or codes i 0 + rest * 2 ^ l) built.0 br ≡ (i, drop_bits l br))
unfolding decode_symbol Decodes
decode_symbol-convert_bit_depths_to_symbols m i rest old depth symbols more table br each complete b
      few room within p =
    let l = get_or depth i 0 in
    let q = get_or-All (λ d. d ≤ 15) depth i 0 each within in
    let a =
      (read_symbol_code_lengths m (encode_huffman_tree depth ++ more)
        (initial_reader old)).1.assigned in
    let (codes, e, c) = get_or-convert depth symbols i l each complete few room within refl p q in
    let rows = λ (k : ℕ) (u : 1 ≤ k) (w : k ≤ 15).
      (read_symbol_code_lengths-encode_huffman_tree m k old depth more each complete b few u w).2 in
    let entry =
      table-decoded depth symbols a table i l rest each complete few rows within refl p q in
    (codes, e, rw c (reverse_width-lt l _), rw (c, entry.0) refl)

-- With the table that the decoder builds of the code lengths it read back, for at most 65535 depths
-- of at most 15 that make a complete code, as many as the alphabet has or fewer, any valid reader
-- gives the symbol of the entry for its unread bits, with zeros after them, as soon as the whole code
-- is there, and is left with the bits after the code; until then it gives none and keeps its bits.
pub safe_read_symbol-build_huffman_table :
    (alphabet_size : ℕ) (old : ℕ → ℕ) (depth : List ℕ) (more : List Code) (table : Table)
    (br : BitReader)
    → All (λ d. d ≤ 15) depth
    → space_taken depth ≡ 32768
    → length depth ≤ alphabet_size
    → length depth ≤ 65535
    → IsReader br
    → let read =
        read_symbol_code_lengths alphabet_size
          (encode_huffman_tree depth ++ more)
          (initial_reader old) in
      let a = read.1.assigned in
      let t = (build_huffman_table 8 a.symbol_lists a.code_length_histo table).0 in
      ReadSymbol t br (safe_read_symbol t br)
safe_read_symbol-build_huffman_table m old depth more table br each complete b few v =
    let a =
      (read_symbol_code_lengths m (encode_huffman_tree depth ++ more)
        (initial_reader old)).1.assigned in
    let rows = λ (k : ℕ) (u : 1 ≤ k) (w : k ≤ 15).
      (read_symbol_code_lengths-encode_huffman_tree m k old depth more each complete b few u w).2 in
    safe_read_symbol-ReadSymbol (built depth a table each complete few rows)
      (built-IsPrefixTable depth a table each complete few rows) br v
