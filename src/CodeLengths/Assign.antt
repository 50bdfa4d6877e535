-- ===== src/CodeLengths/Assign.antt =====
-- A run of symbols with one code length, which processRepeatedCodeLength of decode.go links at
-- once, is the symbols one by one.
use go_brrr.Prelude.{
  ℕ, zero, suc, ◌+◌, ◌-◌, ◌*◌, ◌/◌, ◌%◌, ◌^◌, ◌≤◌, ◌<◌, ◌≡◌, refl, ap, sym, ◌∙◌, List, [], ◌∷◌,
  ◌==◌, arith, replicate, false, ==_iff,
}
use native.Mathlib.Nat.{one-le-pow}
use go_brrr.Prelude.Tables.{all_below, all_below_sound}
use go_brrr.CodeLengths.Decode.{Assigned, update, sub64, assign, assign_run, link}

unfoldable pub assign_all : List ℕ → Assigned → Assigned
assign_all [] a = a
assign_all (d ∷ depth) a = assign_all depth (assign d a)

update-twice_at : (f : ℕ → ℕ) (i v w j : ℕ) → update (update f i v) i w j ≡ update f i w j
unfolding update
update-twice_at f i v w j = ground arith

update-twice : (f : ℕ → ℕ) (i v w : ℕ) → update (update f i v) i w ≡ update f i w
update-twice f i v w = λ t j. update-twice_at f i v w j t

pub update-at : (f : ℕ → ℕ) (i v : ℕ) → update f i v i ≡ v
unfolding update
update-at f i v = ground arith

sub64-twice : (a b c d : ℕ) → (b + c) % 2 ^ 64 ≡ d % 2 ^ 64 → sub64 (sub64 a b) c ≡ sub64 a d
unfolding sub64
sub64-twice a b c d h = omega (arith, h)

link-suc :
    (n s next : ℕ) (lists : ℕ → ℕ)
    → link (suc n) s next lists ≡ link n (s + 1) (s + 16) (update lists next (s % 2 ^ 16))
unfolding link
link-suc n s next lists = refl

-- The spaces that symbols of one length take add up.
space_of : (l : ℕ) → l < 16 → 32768 / 2 ^ l ≡ 2 ^ (15 - l)
unfolding all_below
space_of l h = (==_iff _ _).0 (all_below_sound 16 (λ l. 32768 / 2 ^ l == 2 ^ (15 - l)) l refl h)

spaces :
    (l n : ℕ)
    → l ≤ 15
    → (32768 / 2 ^ l + suc n * 2 ^ (15 - l) % 2 ^ 64) % 2 ^ 64
      ≡ suc (suc n) * 2 ^ (15 - l) % 2 ^ 64 % 2 ^ 64
spaces l n h = omega (arith, space_of l (omega arith))

histo-twice :
    (f : ℕ → ℕ) (i n : ℕ)
    → update
        (update f i ((f i + 1) % 2 ^ 16))
        i
        ((update f i ((f i + 1) % 2 ^ 16) i + suc n % 2 ^ 16) % 2 ^ 16)
      ≡ update f i ((f i + suc (suc n) % 2 ^ 16) % 2 ^ 16)
histo-twice f i n = rw (update-twice, update-at) (ap (update f i) (omega arith))

-- One symbol of a run, then the others.
assign_run-suc :
    (l n : ℕ) (a : Assigned)
    → l ≤ 15
    → assign_run l (suc (suc n)) a ≡ assign_run l (suc n) (assign l a)
unfolding assign_run assign
assign_run-suc zero n a h = ap (λ (s : ℕ). record a { symbol = s }) (omega arith)
assign_run-suc (suc l) n a h =
    let positive : (suc l == 0) ≡ false = ground arith in
    let symbols : a.symbol + suc (suc n) ≡ a.symbol + 1 + suc n = omega arith in
    let linked =
      link (suc n) (a.symbol + 1) (a.symbol + 16)
        (update a.symbol_lists (a.next_symbol (suc l)) (a.symbol % 2 ^ 16)) in
    rw
      (
        positive,
        link-suc (suc n),
        update-at,
        update-twice,
        symbols,
        sub64-twice a.space _ _ _ (spaces (suc l) n h),
      )
      (ap
        (λ (f : ℕ → ℕ). record {
          symbol = a.symbol + 1 + suc n;
          space = sub64 a.space (suc (suc n) * 2 ^ (15 - suc l) % 2 ^ 64);
          next_symbol = update a.next_symbol (suc l) linked.0;
          symbol_lists = linked.1;
          code_length_histo = f;
        })
        (sym (histo-twice a.code_length_histo (suc l) n)))

assign_run-one : (l : ℕ) (a : Assigned) → l ≤ 15 → assign_run l 1 a ≡ assign l a
unfolding assign_run assign link
assign_run-one zero a h = refl
assign_run-one (suc l) a h =
    let positive : (suc l == 0) ≡ false = ground arith in
    let space : 1 * 2 ^ (15 - suc l) % 2 ^ 64 ≡ 32768 / 2 ^ suc l =
      omega (arith, space_of (suc l) (omega arith), one-le-pow (suc l) 2) in
    rw (positive, space) refl

-- Linking a run of at least one symbol of a length of at most 15 at once leaves what assigning them
-- one by one leaves: lists, tails, counts and space, with their wrap-around.
pub assign_run-assign_all :
    (l n : ℕ) (a : Assigned) → l ≤ 15 → assign_run l (suc n) a ≡ assign_all (replicate (suc n) l) a
unfolding assign_all
assign_run-assign_all l zero a h = assign_run-one l a h
assign_run-assign_all l (suc n) a h =
    assign_run-suc l n a h ∙ assign_run-assign_all l n (assign l a) h
