-- ===== src/HuffmanTree.antt =====
-- The depths of a Huffman tree: setDepth of internal/encoder/huffman_encode.go walks a tree in an
-- array of nodes with a stack of 16 entries. The arrays are functions of the index, and an entry -1
-- of the stack is none. A child's index is an int16 that may be negative.
pub mod Leaves
use go_brrr.Prelude.{
  ℕ, zero, suc, ◌+◌, List, [], ◌∷◌, ◌==◌, ltb, if◌then◌else◌, Option, none, some, Bool, true, false,
}
use go_brrr.Prelude.Int.{ℤ, pos, negsuc}
use go_brrr.CodeLengths.Decode.{update}

pub record HuffmanTreeNode : Type 0 where
  pub total_count : ℕ
  pub left : ℤ
  pub right_or_value : ℤ

abbrev pub Stack : Type 0
Stack = ℕ → Option ℕ

unfoldable pub to_entry : ℤ → Option ℕ
to_entry (pos p) = some p
to_entry (negsuc _) = none

unfoldable pub push : Stack → ℕ → Option ℕ → Stack
push stack i x j = if i == j then x else stack j

unfoldable pub level_or : Option ℕ → ℕ → Option ℕ → Option ℕ
level_or none level below = below
level_or (some p) level below = some level

-- The highest level with an entry, from `level` down.
unfoldable pub pop : Stack → ℕ → Option ℕ
pop stack zero = level_or (stack 0) 0 none
pop stack (suc level) = level_or (stack (suc level)) (suc level) (pop stack level)

pub record Walk : Type 0 where
  pub depth : ℕ → ℕ
  pub stack : Stack
  pub level : ℕ

-- After a leaf: where the walk goes on, or its end.
unfoldable pub resume : Walk → Option (ℕ × Walk)
resume w = elim (pop w.stack w.level) [
  | none ↦ none
  | some level ↦ elim (w.stack level) [
    | none ↦ none
    | some p ↦ some (p, record w { stack = push w.stack level none; level = level })
  ]
]

-- The loop: false when a leaf is too deep. None when the fuel runs out, or where Go panics.
unfoldable pub walk_from :
    (fuel : ℕ) (pool : ℕ → HuffmanTreeNode) (max_depth p : ℕ) → Walk → Option (Bool × (ℕ → ℕ))
walk_from zero pool max_depth p w = none
walk_from (suc fuel) pool max_depth p w = elim (pool p).left [
  | pos left ↦
      if ltb max_depth (w.level + 1)
      then some (false, w.depth)
      else walk_from fuel pool max_depth left record w {
        stack = push w.stack (w.level + 1) (to_entry (pool p).right_or_value);
        level = w.level + 1;
      }
  | negsuc _ ↦ elim (pool p).right_or_value [
    | negsuc _ ↦ none
    | pos value ↦
        let depth = update w.depth value w.level in
        elim (resume record w { depth = depth }) [
          | none ↦ some (true, depth)
          | some (next, w') ↦ walk_from fuel pool max_depth next w'
        ]
  ]
]

-- Go clears the stack, and only its first entry is set to -1.
unfoldable pub set_depth :
    (fuel : ℕ) (pool : ℕ → HuffmanTreeNode) (depth : ℕ → ℕ) (p0 max_depth : ℕ)
    → Option (Bool × (ℕ → ℕ))
set_depth fuel pool depth p0 max_depth =
    let stack : Stack = λ i. if i == 0 then none else some 0 in
    if ltb 15 max_depth
    then none
    else walk_from fuel pool max_depth p0 record { depth = depth; stack = stack; level = 0 }
