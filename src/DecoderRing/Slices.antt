-- ===== src/DecoderRing/Slices.antt =====
-- Slices of the ring buffer of decode.go.
use go_brrr.Prelude.{
  ℕ, zero, suc, ◌+◌, ◌-◌, ◌≤◌, ◌≡◌, refl, ap, sym, ◌∙◌, List, [], ◌∷◌, ◌++◌, length, take, drop,
  set, arith, leb, length-take, length-drop, drop-drop, length-replicate, Option, some, none, inl,
  inr, Bool-cases,
}
use go_brrr.Prelude.BitStream.{take_exact}
use go_brrr.OutputChunks.{copy_at}
use go_brrr.OutputChunks.Copies.{take-all, copy_at-whole, length-copy_at}
use go_brrr.DecoderRing.{DecodeState, slice, get_dec_ring_buf, reserve}

pub drop-take : (n m : ℕ) (xs : List ℕ) → drop n (take (n + m) xs) ≡ take m (drop n xs)
drop-take zero m xs = let e : 0 + m ≡ m = omega arith in rw e refl
drop-take (suc n) m [] =
    let e : suc n + m ≡ suc (n + m) = omega arith in rw e (sym (take-all m [] (omega arith)))
drop-take (suc n) m (x ∷ xs) =
    let e : suc n + m ≡ suc (n + m) = omega arith in rw e (drop-take n m xs)

pub take-take : (m n : ℕ) (xs : List ℕ) → m ≤ n → take m (take n xs) ≡ take m xs
take-take zero n xs h = refl
take-take (suc m) zero xs h = absurd (omega arith)
take-take (suc m) (suc n) [] h = refl
take-take (suc m) (suc n) (x ∷ xs) h = ap (λ ys. x ∷ ys) (take-take m n xs (omega arith))

-- A slice of the first bytes is a slice of the whole.
pub slice-take :
    (from to at : ℕ) (xs : List ℕ)
    → from ≤ to
    → to ≤ at
    → slice from to (take at xs) ≡ slice from to xs
unfolding slice
slice-take from to at xs h g =
    let split : at ≡ from + (at - from) = omega (arith, h, g) in
    ap (λ k. take (to - from) (drop from (take k xs))) split
    ∙ ap (take (to - from)) (drop-take from (at - from) xs)
    ∙ take-take (to - from) (at - from) (drop from xs) (omega (arith, g))

pub slice-drop :
    (turn from to : ℕ) (xs : List ℕ)
    → slice from to (drop turn xs) ≡ slice (turn + from) (turn + to) xs
unfolding slice
slice-drop turn from to xs =
    let span : turn + to - (turn + from) ≡ to - from = omega arith in
    rw (span, drop-drop turn from xs) refl

pub take-slice :
    (from to : ℕ) (xs : List ℕ) → from ≤ to → take from xs ++ slice from to xs ≡ take to xs
unfolding slice
take-slice zero to xs h = let e : to - 0 ≡ to = omega arith in rw e refl
take-slice (suc from) zero xs h = absurd (omega arith)
take-slice (suc from) (suc to) [] h =
    let nil : (m : ℕ) → take m [] ≡ [] = λ m. take-all m [] (omega arith) in nil (suc to - suc from)
take-slice (suc from) (suc to) (x ∷ xs) h =
    let e : suc to - suc from ≡ to - from = omega arith in
    rw e (ap (λ ys. x ∷ ys) (take-slice from to xs (omega arith)))

pub length-slice :
    (from to : ℕ) (xs : List ℕ) → to ≤ length xs → length (slice from to xs) ≡ to - from
unfolding slice
length-slice from to xs h =
    omega (arith, length-take (to - from) (drop from xs), length-drop from xs, h)

pub take-set : (n i x : ℕ) (xs : List ℕ) → n ≤ i → take n (set xs i x) ≡ take n xs
take-set zero i x xs h = refl
take-set (suc n) zero x xs h = absurd (omega arith)
take-set (suc n) (suc i) x [] h = refl
take-set (suc n) (suc i) x (y ∷ xs) h = ap (λ ys. y ∷ ys) (take-set n i x xs (omega arith))

-- A copy to the front.
pub take-copy_at :
    (dst src : List ℕ) → length src ≤ length dst → take (length src) (copy_at 0 dst src) ≡ src
take-copy_at dst src h =
    ap (take (length src)) (copy_at-whole dst src h)
    ∙ take_exact (length src) src (drop (length src) dst) refl

pub length-get_dec_ring_buf :
    (pooled : Option (List ℕ)) (size : ℕ) → size ≤ length (get_dec_ring_buf pooled size)
unfolding get_dec_ring_buf
length-get_dec_ring_buf none size = omega (arith, length-replicate {A = ℕ} size 0)
length-get_dec_ring_buf (some b) size = ground (arith, length-replicate {A = ℕ} size 0)

-- An array with more room keeps the bytes up to the position.
pub reserve-kept :
    (pooled : Option (List ℕ)) (needed : ℕ) (s : DecodeState)
    → s.pos ≤ needed
    → s.pos ≤ length s.ringbuffer
    → (needed ≤ length (reserve pooled needed s))
      × (take s.pos (reserve pooled needed s) ≡ take s.pos s.ringbuffer)
unfolding reserve
reserve-kept pooled needed s h g = elim (Bool-cases (leb needed (length s.ringbuffer))) [
  | inl e ↦ rw (e, reserve) (ground (arith, e), refl)
  | inr e ↦
      let fresh = get_dec_ring_buf pooled needed in
      let large = length-get_dec_ring_buf pooled needed in
      let src = take s.pos s.ringbuffer in
      let size : length src ≡ s.pos = omega (arith, length-take s.pos s.ringbuffer, g) in
      rw (e, reserve)
        (
          omega (arith, length-copy_at 0 fresh src (omega arith), large),
          ap (λ n. take n (copy_at 0 fresh src)) (sym size)
              ∙ take-copy_at fresh src (omega (arith, size, large, h)),
        )
]
