-- ===== src/MoveToFront/Trip.antt =====
-- The inverse transform undoes the transform.
use go_brrr.Prelude.{
  ℕ, zero, suc, ◌+◌, ◌-◌, ◌≤◌, ◌<◌, ◌≡◌, refl, List, [], ◌∷◌, ◌++◌, ◌==◌, get_or, replicate, length,
  All, arith, ap, sym, ◌∙◌, Bool-cases, inl, inr, ◌⊎◌, append_assoc, get_or-append, drop-past,
  length-append, subst,
}
use go_brrr.Prelude.BitStream.{take_exact}
use go_brrr.MoveToFront.{
  range, to_front, find_position, max_value, encode_loop, move_to_front_transform, decode_loop,
  inverse_move_to_front_transform,
}

abbrev Has : List ℕ → ℕ → Type 0
Has [] y = ⊥
Has (x ∷ xs) y = (x ≡ y) ⊎ Has xs y

-- Where a value first stands, whatever comes after the list.
record Located (xs : List ℕ) (y : ℕ) : Type 0 where
  before : List ℕ
  after : List ℕ
  split : xs ≡ before ++ (y ∷ after)
  position : (post : List ℕ) → find_position y (xs ++ post) ≡ length before

locate : (xs : List ℕ) (y : ℕ) → Has xs y → Located xs y
unfolding find_position
locate [] y h = absurd h
locate (x ∷ xs) y h = elim (Bool-cases (x == y)) [
  | inl e ↦
      let same : x ≡ y = ground arith in
      record {
        before = [];
        after = xs;
        split = rw same refl;
        position = λ post. rw (find_position, e) refl;
      }
  | inr e ↦ elim h [
    | inl same ↦ absurd (ground arith)
    | inr later ↦
        let l = locate xs y later in
        record {
          before = x ∷ l.before;
          after = l.after;
          split = ap (λ (t : List ℕ). x ∷ t) l.split;
          position = λ post. rw (find_position, e) (ap suc (l.position post));
        }
  ]
]

moved : (ps qs : List ℕ) (y z : ℕ) → Has (ps ++ (y ∷ qs)) z → Has (y ∷ (ps ++ qs)) z
moved [] qs y z h = h
moved (a ∷ ps) qs y z (inl e) = inr (inl e)
moved (a ∷ ps) qs y z (inr h) = elim (moved ps qs y z h) [ inl e ↦ inl e | inr g ↦ inr (inr g) ]

fronted :
    (ps qs post : List ℕ) (y : ℕ)
    → to_front (length ps) y (ps ++ (y ∷ qs) ++ post) ≡ y ∷ (ps ++ qs) ++ post
unfolding to_front
fronted ps qs post y = rw (append_assoc ps (y ∷ qs) post) (
    rw (take_exact (length ps) ps (y ∷ (qs ++ post)) refl, drop-past ps (y ∷ (qs ++ post)) 1)
      (ap (λ (t : List ℕ). y ∷ t) (sym (append_assoc ps qs post))))

step :
    (ps qs ends rest v : List ℕ) (x : ℕ)
    → find_position x (ps ++ (x ∷ qs) ++ ends) ≡ length ps
    → decode_loop (encode_loop v ((x ∷ (ps ++ qs)) ++ ends)) ((x ∷ (ps ++ qs)) ++ rest) ≡ v
    → decode_loop (encode_loop (x ∷ v) (ps ++ (x ∷ qs) ++ ends)) (ps ++ (x ∷ qs) ++ rest) ≡ x ∷ v
unfolding decode_loop encode_loop
step ps qs ends rest v x e h =
    let entry : get_or (ps ++ (x ∷ qs) ++ rest) (length ps) 0 ≡ x =
      ap (λ (t : List ℕ). get_or t (length ps) 0) (append_assoc ps (x ∷ qs) rest)
      ∙ get_or-append ps x (qs ++ rest) 0 in
    rw (e, entry, fronted ps qs ends x, fronted ps qs rest x, h) refl

moved_each :
    (v ps qs list : List ℕ) (x : ℕ)
    → list ≡ ps ++ (x ∷ qs)
    → All (Has list) v
    → All (Has (x ∷ (ps ++ qs))) v
moved_each [] ps qs list x e a = tt
moved_each (z ∷ v) ps qs list x e (h, a) =
    (moved ps qs x z (subst (λ (t : List ℕ). Has t z) e h), moved_each v ps qs list x e a)

loops :
    (v list ends rest : List ℕ)
    → All (Has list) v
    → decode_loop (encode_loop v (list ++ ends)) (list ++ rest) ≡ v
loops [] list ends rest a = unfold decode_loop encode_loop in refl
loops (x ∷ v) list ends rest (h, a) =
    let l = locate list x h in
    subst (λ (t : List ℕ). decode_loop (encode_loop (x ∷ v) (t ++ ends)) (t ++ rest) ≡ x ∷ v)
      (sym l.split)
      (step l.before l.after ends rest v x
        (sym (ap (λ (t : List ℕ). find_position x (t ++ ends)) l.split) ∙ l.position ends)
        (loops v (x ∷ (l.before ++ l.after)) ends rest
          (moved_each v l.before l.after list x l.split a)))

range-add : (i m n : ℕ) → range i (m + n) ≡ range i m ++ range (i + m) n
unfolding range
range-add i zero n =
    let none : 0 + n ≡ n = omega arith in let same : i + 0 ≡ i = omega arith in rw (none, same) refl
range-add i (suc m) n =
    let more : suc m + n ≡ suc (m + n) = omega arith in
    let on : i + 1 + m ≡ i + suc m = omega arith in rw (more, range-add (i + 1) m n, on) refl

range-Has : (n i x : ℕ) → i ≤ x → x < i + n → Has (range i n) x
unfolding range
range-Has zero i x l h = absurd (omega arith)
range-Has (suc n) i x l h = elim (Bool-cases (i == x)) [
  | inl e ↦ inl (ground arith)
  | inr e ↦ inr (range-Has n (i + 1) x (ground arith) (omega arith))
]

range_each : (v : List ℕ) (m : ℕ) → max_value v ≤ m → All (Has (range 0 (m + 1))) v
unfolding max_value
range_each [] m h = tt
range_each (x ∷ v) m h =
    (range-Has (m + 1) 0 x (omega arith) (omega arith), range_each v m (omega arith))

max_value-lt : (v : List ℕ) → All (λ x. x < 256) v → max_value v < 256
unfolding max_value
max_value-lt [] a = omega arith
max_value-lt (x ∷ v) (h, a) = omega (arith, max_value-lt v a)

-- For every list of bytes, the decoder's inverse transform returns what the encoder transformed.
pub inverse-move_to_front_transform :
    (v : List ℕ)
    → All (λ x. x < 256) v
    → (inverse_move_to_front_transform (move_to_front_transform v)).0 ≡ v
unfolding inverse_move_to_front_transform move_to_front_transform
inverse-move_to_front_transform v a =
    let m = max_value v in
    let whole : 256 ≡ m + 1 + (255 - m) = omega (arith, max_value-lt v a) in
    ap (decode_loop (encode_loop v (range 0 (m + 1) ++ replicate (255 - m) 0)))
      (ap (range 0) whole ∙ range-add 0 (m + 1) (255 - m))
    ∙ loops v (range 0 (m + 1)) (replicate (255 - m) 0) (range (0 + (m + 1)) (255 - m))
        (range_each v m (omega arith))

positions_below :
    (v list ends : List ℕ)
    → All (Has list) v
    → length list ≤ 256
    → All (λ x. x < 256) (encode_loop v (list ++ ends))
unfolding encode_loop
positions_below [] list ends a h = tt
positions_below (x ∷ v) list ends (i, a) h =
    let l = locate list x i in
    let at = l.position ends in
    let long = ap length l.split ∙ length-append l.before (x ∷ l.after) in
    let front =
      ap (λ (t : List ℕ). to_front (length l.before) x (t ++ ends)) l.split
      ∙ fronted l.before l.after ends x in
    (
      omega (arith, at, long, h),
      subst (λ (n : ℕ). All (λ x. x < 256) (encode_loop v (to_front n x (list ++ ends)))) (sym at)
          (subst (λ (t : List ℕ). All (λ x. x < 256) (encode_loop v t)) (sym front)
            (positions_below v (x ∷ (l.before ++ l.after)) ends
              (moved_each v l.before l.after list x l.split a)
              (omega (arith, long, h, length-append l.before l.after)))),
    )

length-range : (i n : ℕ) → length (range i n) ≡ n
unfolding range
length-range i zero = refl
length-range i (suc n) = ap suc (length-range (i + 1) n)

-- The transform of bytes gives bytes.
pub move_to_front_transform-bytes :
    (v : List ℕ) → All (λ x. x < 256) v → All (λ x. x < 256) (move_to_front_transform v)
unfolding move_to_front_transform
move_to_front_transform-bytes v a =
    let m = max_value v in
    positions_below v (range 0 (m + 1)) (replicate (255 - m) 0) (range_each v m (omega arith))
      (omega (arith, length-range 0 (m + 1), max_value-lt v a))
