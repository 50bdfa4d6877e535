-- ===== src/Huffman/Grow.antt =====
-- The width of a second-level table, nextTableBitSize of internal/core/huffman.go: how it changes
-- while symbols are placed.
use go_brrr.Prelude.{
  ℕ, zero, suc, ◌+◌, ◌-◌, ◌*◌, ◌≤◌, ◌<◌, ◌≡◌, refl, ap, sym, ◌∙◌, arith, Bool-cases, inl, inr, leb,
  ◌==◌, ==_iff, false,
}
use go_brrr.CodeLengths.Decode.{update}
use go_brrr.CodeLengths.Symbols.{update-other}
use go_brrr.CodeLengths.Assign.{update-at}
use go_brrr.Huffman.Table.{grow}

grow-ext :
    (rounds : ℕ) (c d : ℕ → ℕ) (left length : ℕ)
    → ((l : ℕ) → length ≤ l → c l ≡ d l)
    → grow rounds c left length ≡ grow rounds d left length
unfolding grow
grow-ext zero c d left length h = refl
grow-ext (suc rounds) c d left length h =
    rw
      (
        h length (omega arith),
        grow-ext rounds c d ((left - d length) * 2) (length + 1) (λ l p. h l (omega (arith, p))),
      )
      refl

pub grow_bounds :
    (rounds : ℕ) (c : ℕ → ℕ) (left length : ℕ)
    → (length ≤ grow rounds c left length) × (grow rounds c left length ≤ length + rounds)
unfolding grow
grow_bounds zero c left length = (omega arith, omega arith)
grow_bounds (suc rounds) c left length =
    ground (arith, grow_bounds rounds c ((left - c length) * 2) (length + 1))

-- One symbol of the length placed.
pub grow-place :
    (rounds : ℕ) (c : ℕ → ℕ) (left length n : ℕ)
    → grow rounds (update c length (suc n)) (suc left) length
      ≡ grow rounds (update c length n) left length
unfolding grow
grow-place zero c left length n = refl
grow-place (suc rounds) c left length n =
    let rest =
      grow-ext rounds (update c length (suc n)) (update c length n) ((left - n) * 2) (length + 1)
        (λ l p.
          update-other c length (suc n) l (λ e. absurd (omega (arith, p, e)))
          ∙ sym (update-other c length n l (λ e. absurd (omega (arith, p, e))))) in
    let same : suc left - suc n ≡ left - n = omega arith in
    rw (update-at, update-at, same, rest) (ground arith)

-- No symbol of the length left.
pub grow-next :
    (rounds : ℕ) (c : ℕ → ℕ) (left length : ℕ)
    → 0 < left
    → grow (suc rounds) (update c length 0) left length
      ≡ grow rounds (update c (length + 1) (c (length + 1))) (left * 2) (length + 1)
unfolding grow update
grow-next rounds c left length h =
    let none : leb left 0 ≡ false = ground arith in
    let whole : left - 0 ≡ left = omega arith in
    rw (update-at c length 0, none, whole)
      (grow-ext rounds _ _ (left * 2) (length + 1) (λ l p.
        update-other c length 0 l (λ e. absurd (omega (arith, p, e)))
        ∙ sym (itself c (length + 1) l)))
  where
    itself : (c : ℕ → ℕ) (i l : ℕ) → update c i (c i) l ≡ c l
    itself c i l = elim (Bool-cases (i == l)) [
      | inl e ↦ rw e (ap c ((==_iff i l).0 e))
      | inr e ↦ rw e refl
    ]
