-- ===== src/OutputChunks/Copies.antt =====
-- Slices that are copied into others, and the bytes of a list of chunks, in output_chunks.go.
use native.Mathlib.Nat.{suc-mul}
use go_brrr.Prelude.{
  ℕ, suc, ◌+◌, ◌-◌, ◌*◌, ◌≤◌, ◌≡◌, min, refl, ap, sym, ◌∙◌, List, [], ◌∷◌, ◌++◌, length, take, drop,
  All, arith, length-append, append_assoc, append-nil, length-take, length-drop, take-append-drop,
  drop-all, drop-past,
}
use go_brrr.Prelude.BitStream.{take_exact}
use go_brrr.OutputChunks.{copy_at}

-- The bytes of the chunks, the last chunk's at the end.
unfoldable pub flat : List (List ℕ) → List ℕ
flat [] = []
flat (chunk ∷ chunks) = flat chunks ++ chunk

pub length-flat :
    (size : ℕ) (chunks : List (List ℕ))
    → All (λ c. length c ≡ size) chunks
    → length (flat chunks) ≡ length chunks * size
unfolding flat
length-flat size [] a = omega arith
length-flat size (chunk ∷ chunks) a = omega (
  arith,
  length-append (flat chunks) chunk,
  length-flat size chunks a.1,
  a.0,
  suc-mul (length chunks) size,
)

pub take-front : (n : ℕ) (xs ys : List ℕ) → take (length xs + n) (xs ++ ys) ≡ xs ++ take n ys
take-front n [] ys = let e : 0 + n ≡ n = omega arith in rw e refl
take-front n (x ∷ xs) ys =
    let e : suc (length xs) + n ≡ suc (length xs + n) = omega arith in
    rw (e, take-front n xs ys) refl

pub take-all : (n : ℕ) (xs : List ℕ) → length xs ≤ n → take n xs ≡ xs
take-all n xs h =
    sym (append-nil (take n xs))
    ∙ ap (λ ys. take n xs ++ ys) (sym (drop-all xs n h))
    ∙ take-append-drop n xs

-- A copy behind a prefix leaves the prefix.
pub copy_at-append :
    (xs ys src : List ℕ) → copy_at (length xs) (xs ++ ys) src ≡ xs ++ copy_at 0 ys src
unfolding copy_at
copy_at-append xs ys src =
    let copied = min (length ys - 0) (length src) in
    let from_0 : copied ≡ 0 + copied = omega arith in
    let room : length (xs ++ ys) - length xs ≡ length ys - 0 = omega (arith, length-append xs ys) in
    rw (room, take_exact (length xs) xs ys refl, drop-past xs ys copied)
      (ap (λ k. xs ++ (take copied src ++ drop k ys)) from_0)

pub copy_at-whole :
    (ys src : List ℕ) → length src ≤ length ys → copy_at 0 ys src ≡ src ++ drop (length src) ys
unfolding copy_at
copy_at-whole ys src h =
    let all : min (length ys - 0) (length src) ≡ length src = omega (arith, h) in
    let from_0 : 0 + length src ≡ length src = omega arith in
    rw (all, from_0, take-all (length src) src (omega arith)) refl

pub copy_at-cut :
    (ys src : List ℕ) → length ys ≤ length src → copy_at 0 ys src ≡ take (length ys) src
unfolding copy_at
copy_at-cut ys src h =
    let all : min (length ys - 0) (length src) ≡ length ys = omega (arith, h) in
    let from_0 : 0 + length ys ≡ length ys = omega arith in
    rw (all, from_0, drop-all ys (length ys) (omega arith)) (append-nil (take (length ys) src))

-- The first bytes of a copy: those before it, and those copied.
pub copy_at-front :
    (at : ℕ) (dst src : List ℕ)
    → at ≤ length dst
    → let copied = min (length dst - at) (length src) in
      take (at + copied) (copy_at at dst src) ≡ take at dst ++ take copied src
unfolding copy_at
copy_at-front at dst src h =
    let copied = min (length dst - at) (length src) in
    ap (take (at + copied))
      (sym (append_assoc (take at dst) (take copied src) (drop (at + copied) dst)))
    ∙ take_exact (at + copied) (take at dst ++ take copied src) (drop (at + copied) dst) (
        omega (
          arith,
          length-append (take at dst) (take copied src),
          length-take at dst,
          length-take copied src,
          h,
        ))

-- A copy that fits.
pub length-copy_at :
    (at : ℕ) (dst src : List ℕ) → at ≤ length dst → length (copy_at at dst src) ≡ length dst
unfolding copy_at
length-copy_at at dst src h =
    let copied = min (length dst - at) (length src) in
    omega (
      arith,
      length-append (take at dst) (take copied src ++ drop (at + copied) dst),
      length-append (take copied src) (drop (at + copied) dst),
      length-take at dst,
      length-take copied src,
      length-drop (at + copied) dst,
      h,
    )
