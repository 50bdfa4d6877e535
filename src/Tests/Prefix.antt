-- ===== src/Tests/Prefix.antt =====
-- Canonical Huffman codes.
use go_brrr.Prelude.{
  ℕ, zero, suc, true, false, leb, if◌then◌else◌, ◌≡◌, ◌<◌, ◌^◌, ◌*◌, ◌+◌, refl, List, [], ◌∷◌, ◌++◌,
  arith, get_or, replicate, some,
}
use go_brrr.BitReader.{BitReader, drop_bits}
use go_brrr.CodeLengths.Encode.{encode_huffman_tree}
use go_brrr.CodeLengths.Decode.{read_symbol_code_lengths, initial_reader, update}
use go_brrr.CodeLengths.Loop.{space_taken}
use go_brrr.Huffman.Codes.{
  convert_bit_depths_to_symbols, assign_codes, interleave, tally, bump, first_codes, reverse_bits,
}
use go_brrr.Huffman.Reverse.{reverse_width}
use go_brrr.Huffman.Table.{safe_read_symbol, Table, build_huffman_table, decode_symbol}
use go_brrr.Prelude.Int.{pos, negsuc}
use go_brrr.BitReader.Unread.{IsReader}
use go_brrr.Huffman.ReadSymbol.{ReadSymbol}
use go_brrr.HuffmanTree.{HuffmanTreeNode, set_depth}
use go_brrr.HuffmanTree.Leaves.{
  Tree, leaf, node, height, size, leaf_depths, IsTree, set_depth-leaf_depths,
}
use go_brrr.Huffman.Trip.{
  safe_read_symbol-build_huffman_table, decode_symbol-convert_bit_depths_to_symbols,
}

-- Codes longer than 8 bits, so that the table has a second level.
abbrev long_depths : List ℕ
long_depths = 1 ∷ 2 ∷ 3 ∷ 4 ∷ 5 ∷ 6 ∷ 7 ∷ 8 ∷ 9 ∷ 10 ∷ 10 ∷ []

abbrev empty_table : Table
empty_table i = record { bits = 0; value = 0 }

abbrev no_lists : ℕ → ℕ
no_lists i = 0

abbrev waiting : BitReader
waiting = record { input = []; val = 0; pos = 0; bit_pos = 32 }

convert_bit_depths_to_symbols-test :
    convert_bit_depths_to_symbols long_depths (replicate 11 0)
    ≡ some (0 ∷ 1 ∷ 3 ∷ 7 ∷ 15 ∷ 31 ∷ 63 ∷ 127 ∷ 255 ∷ 511 ∷ 1023 ∷ [])
unfolding convert_bit_depths_to_symbols assign_codes interleave tally bump first_codes reverse_bits
    reverse_width update
convert_bit_depths_to_symbols-test = refl

long_depths-space : space_taken long_depths ≡ 32768
unfolding space_taken
long_depths-space = refl

-- The symbol 9, by a pointer in the root table.
decode_symbol-convert_bit_depths_to_symbols_example :
    let read =
      read_symbol_code_lengths 704
        (encode_huffman_tree long_depths ++ ((3, 0) ∷ []))
        (initial_reader no_lists) in
    let a = read.1.assigned in
    let built = build_huffman_table 8 a.symbol_lists a.code_length_histo empty_table in
    let l = get_or long_depths 9 0 in
    (codes : List ℕ) × (convert_bit_depths_to_symbols long_depths (replicate 11 0) ≡ some codes)
    × (get_or codes 9 0 < 2 ^ l)
    × (decode_symbol (get_or codes 9 0 + 5 * 2 ^ l) built.0 waiting ≡ (9, drop_bits l waiting))
decode_symbol-convert_bit_depths_to_symbols_example =
    decode_symbol-convert_bit_depths_to_symbols 704 9 5 no_lists long_depths (replicate 11 0)
      ((3, 0) ∷ []) empty_table waiting (omega arith) long_depths-space (omega arith) (omega arith)
      (omega arith) (omega arith) (omega arith)

-- Seven of the ten bits of a code: too few.
abbrev cut_short : BitReader
cut_short = record { input = []; val = 127; pos = 0; bit_pos = 7 }

cut_short-IsReader : IsReader cut_short
cut_short-IsReader = record {
  held = omega arith;
  room = omega arith;
  inside = omega arith;
  bytes = tt;
}

safe_read_symbol-build_huffman_table_example :
    let read =
      read_symbol_code_lengths 704
        (encode_huffman_tree long_depths ++ [])
        (initial_reader no_lists) in
    let a = read.1.assigned in
    let t = (build_huffman_table 8 a.symbol_lists a.code_length_histo empty_table).0 in
    ReadSymbol t cut_short (safe_read_symbol t cut_short)
safe_read_symbol-build_huffman_table_example =
    safe_read_symbol-build_huffman_table 704 no_lists long_depths [] empty_table cut_short
      (omega arith) long_depths-space (omega arith) (omega arith) cut_short-IsReader

-- A root at 4 with the leaves 0 and 1 at 3 and the leaf 2 at 0.
abbrev three_leaves : ℕ → HuffmanTreeNode
three_leaves zero = record { total_count = 1; left = negsuc 0; right_or_value = pos 2 }
three_leaves (suc zero) = record { total_count = 2; left = negsuc 0; right_or_value = pos 1 }
three_leaves (suc (suc zero)) = record { total_count = 3; left = negsuc 0; right_or_value = pos 0 }
three_leaves (suc (suc (suc zero))) = record {
  total_count = 5;
  left = pos 1;
  right_or_value = pos 2;
}
three_leaves (suc (suc (suc (suc i)))) = record {
  total_count = 6;
  left = pos 0;
  right_or_value = pos 3;
}

abbrev their_tree : Tree
their_tree = node (leaf 2) (node (leaf 1) (leaf 0))

abbrev no_depths : ℕ → ℕ
no_depths i = 0

three_leaves-IsTree : IsTree three_leaves their_tree 4
unfolding IsTree
three_leaves-IsTree =
    (0, 3, refl, refl, (0, refl, refl), (1, 2, refl, refl, (0, refl, refl), (0, refl, refl)))

their_tree-size : size their_tree ≡ 5
unfolding size
their_tree-size = refl

set_depth-leaf_depths_example :
    (left : ℕ → ℕ) × (set_depth 5 three_leaves no_depths 4 1 ≡ (
      if leb (height their_tree) 1
      then some (true, leaf_depths their_tree 0 no_depths)
      else some (false, left)))
set_depth-leaf_depths_example =
    set_depth-leaf_depths three_leaves 1 their_tree 4 5 no_depths three_leaves-IsTree (omega arith)
      (omega (arith, their_tree-size))
