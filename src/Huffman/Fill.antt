-- ===== src/Huffman/Fill.antt =====
-- The writes of replicateValue and of the copies of the root table, for BuildHuffmanTable of
-- internal/core/huffman.go.
use native.Mathlib.Nat.{pow-suc, one-le-pow, mul_assoc, add-mul-mod_self_right, mod-eq_of_lt}
use go_brrr.Prelude.{
  ℕ, zero, suc, ◌+◌, ◌-◌, ◌*◌, ◌/◌, ◌%◌, ◌^◌, ◌≤◌, ◌<◌, ◌≡◌, ◌≢◌, refl, ap, ap₂, sym, ◌∙◌, ◌==◌,
  if◌then◌else◌, arith, Bool-cases, inl, inr, ==_iff, true, false, lt-cases, subst, false, leb, ltb,
  ◌&&◌,
}
use go_brrr.Prelude.BitOps.{pow-add}
use go_brrr.Huffman.Reverse.{
  reverse_width, reverse_width-add, reverse_width-lt, reverse_width-high, reverse_width-involutive,
}
use go_brrr.Huffman.Table.{Table, HuffmanCode, put, replicate_value, fill_root}

pub put-at : (t : Table) (i : ℕ) (c : HuffmanCode) → put t i c i ≡ c
unfolding put
put-at t i c = ground arith

pub put-other : (t : Table) (i j : ℕ) (c : HuffmanCode) → i ≢ j → put t i c j ≡ t j
unfolding put
put-other t i j c h = ground arith

module _ (at step : ℕ) (code : HuffmanCode) (some : 0 < step) where
  some_left : (m : ℕ) → (m * step == 0) ≡ false → 0 < m
  some_left zero e = ground arith
  some_left (suc m) e = omega arith

  none_left : (m : ℕ) → (m * step == 0) ≡ true → m ≡ 0
  none_left zero e = refl
  none_left (suc m) e = absurd (omega (arith, (==_iff (suc m * step) 0).0 e))

  nonzero : (m : ℕ) → 0 < m → (m * step == 0) ≡ false
  nonzero zero h = absurd (omega arith)
  nonzero (suc m) h = let e : 0 < suc m * step = omega arith in ground arith

  apart : (q m : ℕ) → q < m → at + q * step ≢ at + m * step
  apart q m h e = grind arith

  -- A slot that no round writes is as it was.
  pub replicate_value-other :
      (fuel m : ℕ) (t : Table) (j : ℕ)
      → ((q : ℕ) → q < m → at + q * step ≢ j)
      → 0 < m
      → replicate_value fuel t at code step (m * step) j ≡ t j
  unfolding replicate_value
  replicate_value-other zero m t j h p = refl
  replicate_value-other (suc fuel) zero t j h p = absurd (omega arith)
  replicate_value-other (suc fuel) (suc m) t j h p =
      let left : suc m * step - step ≡ m * step = omega arith in
      let miss = put-other t (at + m * step) j code (h m (omega arith)) in
      rw left (elim (Bool-cases (m * step == 0)) [
        | inl e ↦ rw e miss
        | inr e ↦ rw e (
            replicate_value-other fuel m (put t (at + m * step) code) j (λ q lt. h q (omega arith))
              (some_left m e)
            ∙ miss)
      ])

  -- A slot that some round writes has the code.
  pub replicate_value-at :
      (fuel m q : ℕ) (t : Table)
      → q < m
      → m ≤ fuel
      → replicate_value fuel t at code step (m * step) (at + q * step) ≡ code
  unfolding replicate_value
  replicate_value-at zero m q t h p = absurd (omega arith)
  replicate_value-at (suc fuel) zero q t h p = absurd (omega arith)
  replicate_value-at (suc fuel) (suc m) q t h p =
      let left : suc m * step - step ≡ m * step = omega arith in
      rw left (elim (lt-cases q m) [
        | inl earlier ↦
            let more : (m * step == 0) ≡ false = nonzero m (omega arith) in
            rw more (replicate_value-at fuel m q (put t (at + m * step) code) earlier (omega arith))
        | inr last ↦
            let same : q ≡ m = omega arith in
            rw same (elim (Bool-cases (m * step == 0)) [
              | inl e ↦ rw e (put-at t (at + m * step) code)
              | inr e ↦ rw e (
                  replicate_value-other fuel m (put t (at + m * step) code) (at + m * step)
                    (λ r lt. apart r m lt) (some_left m e)
                  ∙ put-at t (at + m * step) code)
            ])
      ])

-- The first l bits of v as a code: the first one read is its highest.
pub reverse_width-low : (l v : ℕ) → reverse_width l (v % 2 ^ l) ≡ reverse_width l v
reverse_width-low l v =
    let parts : v ≡ v % 2 ^ l + v / 2 ^ l * 2 ^ l = omega arith in
    let width : l ≡ l + 0 = omega arith in
    let all =
      ap₂ reverse_width width parts
      ∙ reverse_width-add l 0 (v % 2 ^ l) (v / 2 ^ l) (omega (arith, one-le-pow l 2)) in
    omega (arith, all, reverse_width-none (v / 2 ^ l))
  where
    reverse_width-none : (b : ℕ) → reverse_width 0 b < 2 ^ 0
    reverse_width-none b = reverse_width-lt 0 b

pub reverse_width-half : (l v : ℕ) → reverse_width (suc l) v / 2 ≡ reverse_width l v
reverse_width-half l v =
    let width : suc l ≡ l + 1 = omega arith in
    rw width (reverse_width-high l 1 v ∙ reverse_width-low l v)

-- The bits of v start with those of the code c of length l.
pub reverse_width-code : (l c v : ℕ) → reverse_width l v ≡ c → v % 2 ^ l ≡ reverse_width l c
reverse_width-code l c v h =
    sym (reverse_width-involutive l (v % 2 ^ l) (omega (arith, one-le-pow l 2)))
    ∙ ap (reverse_width l) (reverse_width-low l v ∙ h)

pub code-reverse_width :
    (l c v : ℕ) → c < 2 ^ l → v % 2 ^ l ≡ reverse_width l c → reverse_width l v ≡ c
code-reverse_width l c v lt h =
    sym (reverse_width-low l v) ∙ ap (reverse_width l) h ∙ reverse_width-involutive l c lt

pub mod_narrow : (l width v : ℕ) → l ≤ width → v % 2 ^ width % 2 ^ l ≡ v % 2 ^ l
mod_narrow l width v h =
    let whole : 2 ^ width ≡ 2 ^ (width - l) * 2 ^ l =
      ap (λ (k : ℕ). 2 ^ k) {x = width} {y = width - l + l} (omega arith) ∙ pow-add (width - l) l in
    let parts : v ≡ v % 2 ^ width + v / 2 ^ width * 2 ^ (width - l) * 2 ^ l = omega (
      arith,
      ap (λ (t : ℕ). v / 2 ^ width * t) whole,
      mul_assoc (v / 2 ^ width) (2 ^ (width - l)) (2 ^ l),
    ) in
    sym (
      ap (λ (t : ℕ). t % 2 ^ l) parts
      ∙ add-mul-mod_self_right (v % 2 ^ width) (v / 2 ^ width * 2 ^ (width - l)) (2 ^ l))

-- What a symbol's writes leave, in a table of 2 ^ width slots from `at` on.
module _ (width l r at : ℕ) (code : HuffmanCode) (t : Table) (short : l ≤ width)
    (r_lt : r < 2 ^ l) where
  abbrev placed : Table
  placed = replicate_value (2 ^ width) t (at + r) code (2 ^ l) (2 ^ width)

  abbrev rounds : ℕ
  rounds = 2 ^ (width - l)

  whole : 2 ^ width ≡ rounds * 2 ^ l
  whole =
      ap (λ (k : ℕ). 2 ^ k) {x = width} {y = width - l + l} (omega arith) ∙ pow-add (width - l) l

  ends : (j : ℕ) → placed j ≡ replicate_value (2 ^ width) t (at + r) code (2 ^ l) (rounds * 2 ^ l) j
  ends j = ap (λ (e : ℕ). replicate_value (2 ^ width) t (at + r) code (2 ^ l) e j) whole

  pub placed-at : (i : ℕ) → i < 2 ^ width → i % 2 ^ l ≡ r → placed (at + i) ≡ code
  placed-at i lt e =
      let slot : at + i ≡ at + r + i / 2 ^ l * 2 ^ l = omega (arith, e) in
      let fuel : rounds ≤ 2 ^ width = grind (arith, whole, one-le-pow l 2) in
      let round : i / 2 ^ l < rounds = grind (arith, whole, one-le-pow l 2) in
      rw slot (
        ends (at + r + i / 2 ^ l * 2 ^ l)
        ∙ replicate_value-at (at + r) (2 ^ l) code (omega (arith, one-le-pow l 2)) (2 ^ width)
            rounds (i / 2 ^ l) t round fuel)

  pub placed-other : (i : ℕ) → i % 2 ^ l ≢ r → placed (at + i) ≡ t (at + i)
  placed-other i ne =
      ends (at + i)
      ∙ replicate_value-other (at + r) (2 ^ l) code (omega (arith, one-le-pow l 2)) (2 ^ width)
          rounds t (at + i) (λ q lt e. ne (remainder q e)) (omega (arith, one-le-pow (width - l) 2))
    where
      remainder : (q : ℕ) → at + r + q * 2 ^ l ≡ at + i → i % 2 ^ l ≡ r
      remainder q e =
          let value : i ≡ r + q * 2 ^ l = omega (arith, e) in
          rw value (add-mul-mod_self_right r q (2 ^ l) ∙ mod-eq_of_lt r_lt)

  pub placed-below : (j : ℕ) → j < at → placed j ≡ t j
  placed-below j lt =
      ends j
      ∙ replicate_value-other (at + r) (2 ^ l) code (omega (arith, one-le-pow l 2)) (2 ^ width)
          rounds t j (λ q _ e. absurd (omega (arith, e))) (omega (arith, one-le-pow (width - l) 2))

-- One copy.
twice : ℕ → Table → Table
twice size t j = if leb size j && ltb j (size * 2) then t (j - size) else t j

fill_root-more :
    (fuel total size : ℕ) (t : Table)
    → (total == size) ≡ false
    → fill_root (suc fuel) total size t ≡ fill_root fuel total (size * 2) (twice size t)
unfolding fill_root twice
fill_root-more fuel total size t e = rw (e, fill_root) refl

twice-mod : (w i : ℕ) (t : Table) → i < 2 ^ w * 2 → twice (2 ^ w) t i ≡ t (i % 2 ^ w)
unfolding twice
twice-mod w i t lt = elim (lt-cases i (2 ^ w)) [
  | inl low ↦
      let a : leb (2 ^ w) i ≡ false = ground arith in
      let small : i % 2 ^ w ≡ i = mod-eq_of_lt low in rw (a, small) refl
  | inr high ↦
      let a : leb (2 ^ w) i ≡ true = ground arith in
      let b : ltb i (2 ^ w * 2) ≡ true = ground arith in
      let parts : i ≡ i - 2 ^ w + 1 * 2 ^ w = omega arith in
      let small : i % 2 ^ w ≡ i - 2 ^ w =
        ap (λ (k : ℕ). k % 2 ^ w) parts
        ∙ add-mul-mod_self_right (i - 2 ^ w) 1 (2 ^ w)
        ∙ mod-eq_of_lt {n = i - 2 ^ w} (omega arith) in
      rw (a, b, small) refl
]

-- After the copies every slot has the entry that its low bits had.
pub fill_root-mod :
    (a fuel w j : ℕ) (t : Table)
    → a ≤ fuel
    → j < 2 ^ (w + a)
    → fill_root fuel (2 ^ (w + a)) (2 ^ w) t j ≡ t (j % 2 ^ w)
unfolding fill_root
fill_root-mod zero fuel w j t h lt =
    let none : w + 0 ≡ w = omega arith in
    let small : j % 2 ^ w ≡ j = mod-eq_of_lt (subst (λ (k : ℕ). j < 2 ^ k) none lt) in
    rw (none, small) (finished fuel)
  where
    finished : (fuel : ℕ) → fill_root fuel (2 ^ w) (2 ^ w) t j ≡ t j
    finished zero = refl
    finished (suc fuel) =
        let e : (2 ^ w == 2 ^ w) ≡ true = (==_iff (2 ^ w) (2 ^ w)).1 refl in rw (e, fill_root) refl
fill_root-mod (suc a) zero w j t h lt = absurd (omega arith)
fill_root-mod (suc a) (suc fuel) w j t h lt =
    let wide : w + suc a ≡ suc w + a = omega arith in
    let double : 2 ^ w * 2 ≡ 2 ^ suc w = omega (arith, pow-suc 2 w) in
    let larger : 2 ^ (suc w + a) ≡ 2 ^ suc w * 2 ^ a = pow-add (suc w) a in
    let more : (2 ^ (w + suc a) == 2 ^ w) ≡ false = rw wide (
      differ (2 ^ (suc w + a)) (2 ^ w)
        (grind (arith, larger, double, one-le-pow a 2, one-le-pow w 2))) in
    ap (λ (f : Table). f j) (fill_root-more fuel (2 ^ (w + suc a)) (2 ^ w) t more)
    ∙ rw (double, wide)
        (fill_root-mod a fuel (suc w) j (twice (2 ^ w) t) (omega arith)
          (subst (λ (k : ℕ). j < 2 ^ k) wide lt))
    ∙ twice-mod w (j % 2 ^ suc w) t (omega (arith, double, one-le-pow (suc w) 2))
    ∙ ap t (mod_narrow w (suc w) j (omega arith))
  where
    differ : (a b : ℕ) → b < a → (a == b) ≡ false
    differ a b h = ground arith
