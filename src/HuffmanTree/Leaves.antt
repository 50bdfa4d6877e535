-- ===== src/HuffmanTree/Leaves.antt =====
-- setDepth of internal/encoder/huffman_encode.go against a walk of the tree by recursion.
use go_brrr.Prelude.{
  ℕ, zero, suc, ◌+◌, ◌-◌, ◌≤◌, ◌<◌, ◌≡◌, refl, ap, sym, ◌∙◌, ◌==◌, ltb, leb, if◌then◌else◌, Option,
  none, some, Bool, true, false, max, arith, lt-cases, inl, inr, subst,
}
use go_brrr.Prelude.Int.{pos, negsuc}
use go_brrr.CodeLengths.Decode.{update}
use go_brrr.HuffmanTree.{
  HuffmanTreeNode, Stack, Walk, push, pop, resume, walk_from, set_depth, to_entry, level_or,
}

pub data Tree : Type 0 where
  leaf : ℕ → Tree
  node : Tree → Tree → Tree

unfoldable pub height : Tree → ℕ
height (leaf value) = 0
height (node l r) = suc (max (height l) (height r))

unfoldable pub size : Tree → ℕ
size (leaf value) = 1
size (node l r) = suc (size l + size r)

-- Each leaf's level, below a root at `level`.
unfoldable pub leaf_depths : Tree → ℕ → (ℕ → ℕ) → ℕ → ℕ
leaf_depths (leaf value) level depth = update depth value level
leaf_depths (node l r) level depth = leaf_depths r (level + 1) (leaf_depths l (level + 1) depth)

-- The tree that stands at p in the array.
unfoldable pub IsTree : (ℕ → HuffmanTreeNode) → Tree → ℕ → Type 0
IsTree pool (leaf value) p =
    (k : ℕ) × ((pool p).left ≡ negsuc k) × ((pool p).right_or_value ≡ pos value)
IsTree pool (node l r) p =
    (a : ℕ) × (b : ℕ) × ((pool p).left ≡ pos a)
    × ((pool p).right_or_value ≡ pos b)
    × IsTree pool l a
    × IsTree pool r b

pop-same : (s t : Stack) (level : ℕ) → ((j : ℕ) → j ≤ level → s j ≡ t j) → pop s level ≡ pop t level
unfolding pop level_or
pop-same s t zero h = rw (h 0 (omega arith)) refl
pop-same s t (suc level) h =
    rw (h (suc level) (omega arith), pop-same s t level (λ j le. h j (omega (arith, le)))) refl

pop-some : (s : Stack) (level b : ℕ) → s level ≡ some b → pop s level ≡ some level
unfolding pop level_or
pop-some s zero b e = rw e refl
pop-some s (suc level) b e = rw e refl

pop-none : (s : Stack) (level : ℕ) → s (level + 1) ≡ none → pop s (level + 1) ≡ pop s level
unfolding pop level_or
pop-none s level e =
    let one : level + 1 ≡ suc level = omega arith in
    let top : s (suc level) ≡ none = ap s (sym one) ∙ e in rw (one, top) refl

push-at : (s : Stack) (i : ℕ) (x : Option ℕ) → push s i x i ≡ x
unfolding push
push-at s i x = ground arith

push-below : (s : Stack) (i j : ℕ) (x : Option ℕ) → j < i → push s i x j ≡ s j
unfolding push
push-below s i j x h = ground arith

-- How the loop goes on after a subtree.
continue_from :
    (fuel : ℕ) (pool : ℕ → HuffmanTreeNode) (max_depth : ℕ) → Walk → Option (Bool × (ℕ → ℕ))
continue_from fuel pool max_depth w = elim (resume w) [
  | none ↦ some (true, w.depth)
  | some (next, w') ↦ walk_from fuel pool max_depth next w'
]

-- What a subtree leaves of the stack.
record Keeps (w w' : Walk) : Type 0 where
  pub same_pop : pop w'.stack w'.level ≡ pop w.stack w.level
  pub same_below : (j : ℕ) → j ≤ w.level → w'.stack j ≡ w.stack j

module _ (pool : ℕ → HuffmanTreeNode) (max_depth : ℕ) where
  walk-node :
      (p a b fuel : ℕ) (w : Walk)
      → (pool p).left ≡ pos a
      → (pool p).right_or_value ≡ pos b
      → w.level + 1 ≤ max_depth
      → walk_from (suc fuel) pool max_depth p w
        ≡ walk_from fuel pool max_depth a
            record w { stack = push w.stack (w.level + 1) (some b); level = w.level + 1 }
  unfolding walk_from to_entry
  walk-node p a b fuel w e v h =
      let within : ltb max_depth (w.level + 1) ≡ false = ground arith in
      rw (e, v, within, walk_from) refl

  -- After the left subtree the walk goes on with the right one.
  continue-sibling :
      (fuel b : ℕ) (w w2 : Walk)
      → Keeps record w { stack = push w.stack (w.level + 1) (some b); level = w.level + 1 } w2
      → continue_from fuel pool max_depth w2
        ≡ walk_from fuel pool max_depth b
            record w2 { stack = push w2.stack (w.level + 1) none; level = w.level + 1 }
  unfolding continue_from resume
  continue-sibling fuel b w w2 k =
      let top : pop w2.stack w2.level ≡ some (w.level + 1) =
        k.same_pop
        ∙ pop-some (push w.stack (w.level + 1) (some b)) (w.level + 1) b
            (push-at w.stack (w.level + 1) (some b)) in
      let entry =
        k.same_below (w.level + 1) (omega arith) ∙ push-at w.stack (w.level + 1) (some b) in
      rw (top, entry, continue_from, resume) refl

  walk-fits :
      (t : Tree) (p fuel : ℕ) (w : Walk)
      → IsTree pool t p
      → w.level + height t ≤ max_depth
      → (w' : Walk) × (walk_from (size t + fuel) pool max_depth p w
          ≡ continue_from fuel pool max_depth w')
        × (w'.depth ≡ leaf_depths t w.level w.depth)
        × Keeps w w'
  unfolding IsTree height size leaf_depths walk_from continue_from
  walk-fits (leaf value) p fuel w (k, e, v) h =
      let one : 1 + fuel ≡ suc fuel = omega arith in
      (
        record w { depth = update w.depth value w.level },
        rw (one, e, v, walk_from) refl,
        refl,
        record { same_pop = refl; same_below = λ j _. refl },
      )
  walk-fits (node l r) p fuel w (a, b, e, v, tl, tr) h =
      let under : Walk = record w {
        stack = push w.stack (w.level + 1) (some b);
        level = w.level + 1;
      } in
      let (w2, run2, depth2, keeps2) = walk-fits l a (size r + fuel) under tl (omega (arith, h)) in
      let over : Walk = record w2 {
        stack = push w2.stack (w.level + 1) none;
        level = w.level + 1;
      } in
      let below : (j : ℕ) → j ≤ w.level → push w2.stack (w.level + 1) none j ≡ w.stack j = λ j le.
        push-below w2.stack (w.level + 1) j none (omega (arith, le))
        ∙ keeps2.same_below j (omega (arith, le))
        ∙ push-below w.stack (w.level + 1) j (some b) (omega (arith, le)) in
      let (w4, run4, depth4, keeps4) = walk-fits r b fuel over tr (omega (arith, h)) in
      let step = walk-node p a b (size l + (size r + fuel)) w e v (omega (arith, h)) in
      let back = continue-sibling (size r + fuel) b w w2 keeps2 in
      let rounds : suc (size l + size r) + fuel ≡ suc (size l + (size r + fuel)) = omega arith in
      (
        w4,
        rw rounds (step ∙ run2 ∙ back ∙ run4),
        depth4 ∙ ap (leaf_depths r (w.level + 1)) depth2,
        record {
          same_pop =
              keeps4.same_pop
              ∙ pop-none (push w2.stack (w.level + 1) none) w.level
                  (push-at w2.stack (w.level + 1) none)
              ∙ pop-same (push w2.stack (w.level + 1) none) w.stack w.level below;
          same_below = λ j le. keeps4.same_below j (omega (arith, le)) ∙ below j le;
        },
      )

  -- A subtree with a leaf that is too deep ends the walk.
  walk-deep :
      (t : Tree) (p fuel : ℕ) (w : Walk)
      → IsTree pool t p
      → w.level ≤ max_depth
      → max_depth < w.level + height t
      → (depth : ℕ → ℕ) × (walk_from (size t + fuel) pool max_depth p w ≡ some (false, depth))
  unfolding IsTree height size walk_from
  walk-deep (leaf value) p fuel w (k, e, v) le h = absurd (omega (arith, le, h))
  walk-deep (node l r) p fuel w (a, b, e, v, tl, tr) le h =
      let rounds : suc (size l + size r) + fuel ≡ suc (size l + (size r + fuel)) = omega arith in
      let under : Walk = record w {
        stack = push w.stack (w.level + 1) (some b);
        level = w.level + 1;
      } in
      elim (lt-cases max_depth (w.level + 1)) [
        | inl full ↦
            let test : ltb max_depth (w.level + 1) ≡ true = ground (arith, full) in
            (w.depth, rw (rounds, e, v, test, walk_from) refl)
        | inr room ↦
            let step = walk-node p a b (size l + (size r + fuel)) w e v room in
            elim (lt-cases max_depth (w.level + 1 + height l)) [
              | inl left_deep ↦
                  let (depth, run) = walk-deep l a (size r + fuel) under tl room left_deep in
                  (depth, rw rounds (step ∙ run))
              | inr left_fits ↦
                  let (w2, run2, depth2, keeps2) =
                    walk-fits l a (size r + fuel) under tl left_fits in
                  let over : Walk = record w2 {
                    stack = push w2.stack (w.level + 1) none;
                    level = w.level + 1;
                  } in
                  let (depth, run) =
                    walk-deep r b fuel over tr room (omega (arith, h, left_fits)) in
                  (
                    depth,
                    rw rounds (step ∙ run2 ∙ continue-sibling (size r + fuel) b w w2 keeps2 ∙ run),
                  )
            ]
      ]

  walk-end :
      (fuel : ℕ) (w : Walk)
      → pop w.stack w.level ≡ none
      → continue_from fuel pool max_depth w ≡ some (true, w.depth)
  unfolding continue_from resume
  walk-end fuel w e = rw (e, continue_from, resume) refl

  set_depth-extra :
      (t : Tree) (p0 extra : ℕ) (depth : ℕ → ℕ)
      → IsTree pool t p0
      → max_depth ≤ 15
      → (left : ℕ → ℕ) × (set_depth (size t + extra) pool depth p0 max_depth ≡ (
          if leb (height t) max_depth
          then some (true, leaf_depths t 0 depth)
          else some (false, left)))
  unfolding set_depth pop level_or
  set_depth-extra t p0 extra depth i m =
      let w : Walk = record {
        depth = depth;
        stack = λ i. if i == 0 then none else some 0;
        level = 0;
      } in
      let test : ltb 15 max_depth ≡ false = ground (arith, m) in
      elim (lt-cases max_depth (height t)) [
        | inl deep ↦
            let (left, run) = walk-deep t p0 extra w i (omega arith) (omega (arith, deep)) in
            let no : leb (height t) max_depth ≡ false = ground (arith, deep) in
            (left, rw (test, no) run)
        | inr fits ↦
            let (w', run, written, keeps) = walk-fits t p0 extra w i (omega (arith, fits)) in
            let all : leb (height t) max_depth ≡ true = ground (arith, fits) in
            let end = walk-end extra w' (keeps.same_pop ∙ refl) in
            (depth, rw (test, all) (run ∙ end ∙ ap (λ (d : ℕ → ℕ). some (true, d)) written))
      ]

  -- For a tree that stands at p0 in the array, with a round of fuel for each node, the walk reports
  -- whether no leaf is deeper than max_depth, which is at most 15, and then has written the level of
  -- each leaf, in the order of the leaves, and nothing else.
  pub set_depth-leaf_depths :
      (t : Tree) (p0 fuel : ℕ) (depth : ℕ → ℕ)
      → IsTree pool t p0
      → max_depth ≤ 15
      → size t ≤ fuel
      → (left : ℕ → ℕ) × (set_depth fuel pool depth p0 max_depth ≡ (
          if leb (height t) max_depth
          then some (true, leaf_depths t 0 depth)
          else some (false, left)))
  set_depth-leaf_depths t p0 fuel depth i m f =
      subst
        (λ (rounds : ℕ).
          (left : ℕ → ℕ) × (set_depth rounds pool depth p0 max_depth ≡ (
            if leb (height t) max_depth
            then some (true, leaf_depths t 0 depth)
            else some (false, left))))
        {x = size t + (fuel - size t)} {y = fuel} (omega (arith, f))
        (set_depth-extra t p0 (fuel - size t) depth i m)
