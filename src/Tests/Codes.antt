-- ===== src/Tests/Codes.antt =====
-- Code lengths.
use go_brrr.Prelude.{
  ℕ, ◌≡◌, ◌≤◌, refl, List, [], ◌∷◌, ◌++◌, arith, ◌<◌, All, replicate, Bool, true, ◌&&◌, leb,
}
use go_brrr.CodeLengths.Encode.{
  encode_huffman_tree, find_run_end, run_bytes, reverse, repeat_codes, encode_runs, trim,
  decide_over_rle_use, count_runs, count_run, run_words, load_u64_le, trailing_zeros,
  encode_huffman_tree_repetitions, encode_huffman_tree_repetitions_zeros, plain_or_repeated,
}
use go_brrr.CodeLengths.Decode.{
  initial_assigned, initial_reader, read_symbol_code_lengths, assign_run,
}
use go_brrr.CodeLengths.Assign.{assign_all, assign_run-assign_all}
use go_brrr.CodeLengths.RunEnd.{find_run_end-run_bytes}
use go_brrr.CodeLengths.Loop.{space_taken}
use go_brrr.CodeLengths.Symbols.{symbols_of, positions}
use go_brrr.CodeLengths.Trip.{read_symbol_code_lengths-encode_huffman_tree}
use go_brrr.CodeLengths.Bounds.{read_symbol_code_lengths-bounds}

at_most : ℕ → List ℕ → Bool
at_most m [] = true
at_most m (x ∷ xs) = leb x m && at_most m xs

-- A bound that a run of the test shows.
at_most-All : (m : ℕ) (xs : List ℕ) → at_most m xs ≡ true → All (λ d. d ≤ m) xs
unfolding at_most
at_most-All m [] h = tt
at_most-All m (x ∷ xs) h = (ground arith, at_most-All m xs (ground arith))

-- 64 symbols of 6 bits, in two runs between zeros: more than 50 lengths, so that runs are used.
abbrev tree_depths : List ℕ
tree_depths = replicate 5 0 ++ replicate 32 6 ++ replicate 12 0 ++ replicate 32 6 ++ replicate 3 0

abbrev no_lists : ℕ → ℕ
no_lists i = 0

encode_huffman_tree-test :
    encode_huffman_tree tree_depths
    ≡ (17, 2)
      ∷ (6, 0)
      ∷ (16, 0)
      ∷ (16, 2)
      ∷ (16, 0)
      ∷ (17, 0)
      ∷ (17, 1)
      ∷ (16, 0)
      ∷ (16, 2)
      ∷ (16, 1)
      ∷ []
unfolding encode_huffman_tree encode_runs trim decide_over_rle_use count_runs count_run find_run_end
    run_words run_bytes load_u64_le trailing_zeros encode_huffman_tree_repetitions
    encode_huffman_tree_repetitions_zeros plain_or_repeated reverse repeat_codes
encode_huffman_tree-test = refl

-- The lengths are read back up to the last 6, and the symbol after them is left.
read_symbol_code_lengths-encode_huffman_tree_example :
    let r =
      read_symbol_code_lengths 704
        (encode_huffman_tree tree_depths ++ ((3, 0) ∷ []))
        (initial_reader no_lists) in
    (r.0 ≡ (3, 0) ∷ [])
    × (r.1.assigned.space ≡ 0)
    × (symbols_of 6 r.1.assigned ≡ positions 6 0 tree_depths)
unfolding space_taken at_most
read_symbol_code_lengths-encode_huffman_tree_example =
    read_symbol_code_lengths-encode_huffman_tree 704 6 no_lists tree_depths ((3, 0) ∷ [])
      (at_most-All 15 tree_depths refl) refl (omega arith) (omega arith) (omega arith) (omega arith)

-- Repetitions past an alphabet of 5 symbols.
read_symbol_code_lengths-bounds_example :
    let g =
      (read_symbol_code_lengths 5 ((1, 0) ∷ (16, 3) ∷ (16, 3) ∷ []) (initial_reader no_lists)).1 in
    (g.assigned.symbol ≤ 5)
    × (g.assigned.symbol_lists 21 ≡ 0)
    × (g.prev_code_len ≤ 15)
    × (g.assigned.next_symbol 1 < 21)
read_symbol_code_lengths-bounds_example =
    read_symbol_code_lengths-bounds 5 21 1 no_lists ((1, 0) ∷ (16, 3) ∷ (16, 3) ∷ [])
      (omega arith, (omega arith, (omega arith, tt))) (omega arith) (omega arith)

abbrev run_of_nine : List ℕ
run_of_nine = 6 ∷ 6 ∷ 6 ∷ 6 ∷ 6 ∷ 6 ∷ 6 ∷ 6 ∷ 6 ∷ 5 ∷ []

find_run_end-run_bytes_example : find_run_end run_of_nine 6 ≡ run_bytes run_of_nine 6
find_run_end-run_bytes_example =
    let below : 6 < 256 = omega arith in
    find_run_end-run_bytes run_of_nine 6 below (
      below,
      (below, (below, (below, (below, (below, (below, (below, (below, (omega arith, tt))))))))),
    )

assign_run-assign_all_example :
    assign_run 3 4 (initial_assigned no_lists)
    ≡ assign_all (replicate 4 3) (initial_assigned no_lists)
assign_run-assign_all_example = assign_run-assign_all 3 3 (initial_assigned no_lists) (omega arith)
