-- ===== src/BitReader/Padding.antt =====
-- Bytes in the stream after clear bits up to a byte's end: jumpToByteBoundary, then copyBytes, of
-- bitreader.go.
use go_brrr.Prelude.{
  ℕ, ◌+◌, ◌-◌, ◌*◌, ◌%◌, ◌^◌, ◌<◌, ◌≡◌, refl, List, [], ◌∷◌, ◌++◌, length, drop, take, arith, true,
  sym, ap, ap₂, ◌∙◌, some, ◌==◌, All, length-append, length-drop,
}
use go_brrr.Prelude.BitStream.{
  to_bits, from_bits, stream, length-to_bits, from_bits-to_bits, length-stream, take_exact,
  drop_exact,
}
use native.Mathlib.Nat.{one-le-pow}
use go_brrr.BitReader.{BitReader, jump_to_byte_boundary, copy_bytes}
use go_brrr.BitReader.Unread.{unread, IsReader}
use go_brrr.BitReader.Copy.{jump_to_byte_boundary-unread, copy_bytes-unread}

same_front :
    (n : ℕ) (xs ys later bs : List ℕ)
    → length xs ≡ n
    → length ys ≡ n
    → xs ++ later ≡ ys ++ bs
    → (xs ≡ ys) × (later ≡ bs)
same_front n xs ys later bs p q e = (
  sym (take_exact n xs later p) ∙ ap (take n) e ∙ take_exact n ys bs q,
  sym (drop_exact n xs later p) ∙ ap (drop n) e ∙ drop_exact n ys bs q,
)

same_field : (n x y : ℕ) → x < 2 ^ n → y < 2 ^ n → to_bits n x ≡ to_bits n y → x ≡ y
same_field n x y p q e = sym (from_bits-to_bits n x p) ∙ ap from_bits e ∙ from_bits-to_bits n y q

same_bytes :
    (xs ys : List ℕ)
    → All (λ b. b < 256) xs
    → All (λ b. b < 256) ys
    → length xs ≡ length ys
    → stream xs ≡ stream ys
    → xs ≡ ys
unfolding stream
same_bytes [] [] a b l e = refl
same_bytes [] (y ∷ ys) a b l e = absurd (omega (arith, l))
same_bytes (x ∷ xs) [] a b l e = absurd (omega (arith, l))
same_bytes (x ∷ xs) (y ∷ ys) a b l e =
    let (first, others) =
      same_front 8 (to_bits 8 x) (to_bits 8 y) (stream xs) (stream ys) (length-to_bits 8 x)
        (length-to_bits 8 y) e in
    ap₂ (λ (h : ℕ) (t : List ℕ). h ∷ t) (same_field 8 x y a.0 b.0 first)
      (same_bytes xs ys a.1 b.1 (omega (arith, l)) others)

unread-length : (br : BitReader) → length (unread br) ≡ br.bit_pos + 8 * (length br.input - br.pos)
unfolding unread
unread-length br = omega (
  arith,
  length-append (to_bits br.bit_pos br.val) (stream (drop br.pos br.input)),
  length-to_bits br.bit_pos br.val,
  length-stream (drop br.pos br.input),
  length-drop br.pos br.input,
)

-- When a reader's stream goes on with fewer than 8 clear bits, then some bytes, then whole bytes,
-- the jump to the byte boundary finds no set bit, the copy gives the bytes, and the stream goes on
-- after them.
pub copy_bytes-padding :
    (br : BitReader) (pad : ℕ) (bytes rest : List ℕ)
    → IsReader br
    → pad < 8
    → All (λ b. b < 256) bytes
    → length rest % 8 ≡ 0
    → unread br ≡ to_bits pad 0 ++ (stream bytes ++ rest)
    → (br1 : BitReader) × (br2 : BitReader) × (jump_to_byte_boundary br ≡ (true, br1))
      × (copy_bytes (length bytes) br1 ≡ some (bytes, br2))
      × (unread br2 ≡ rest)
      × IsReader br2
copy_bytes-padding br pad bytes rest v p a whole e =
    let (x, br1, jump, lt, split, v1, aligned) = jump_to_byte_boundary-unread br v in
    let size =
      ap length e
      ∙ length-append (to_bits pad 0) (stream bytes ++ rest)
      ∙ ap₂ (λ (i j : ℕ). i + j) (length-to_bits pad 0)
          (length-append (stream bytes) rest
            ∙ ap (λ (i : ℕ). i + length rest) (length-stream bytes)) in
    let width : br.bit_pos % 8 ≡ pad = omega (arith, size, unread-length br, whole) in
    let (clear, after) =
      same_front pad (to_bits pad 0) (to_bits (br.bit_pos % 8) x) (stream bytes ++ rest)
        (unread br1) (length-to_bits pad 0) (length-to_bits (br.bit_pos % 8) x ∙ width)
        (sym e ∙ split) in
    let none : x ≡ 0 = sym (
      same_field pad 0 x (one-le-pow pad 2 (omega arith))
        (omega (arith, lt, ap (λ (k : ℕ). 2 ^ k) width))
        (clear ∙ ap (λ (k : ℕ). to_bits k x) width)) in
    let (copied, br2, run, count, each, left, v2) =
      copy_bytes-unread (length bytes) br1 v1 aligned
        (omega (arith, ap length after, length-append (stream bytes) rest, length-stream bytes)) in
    let (same, rest') =
      same_front (8 * length bytes) (stream bytes) (stream copied) rest (unread br2)
        (length-stream bytes) (length-stream copied ∙ ap (λ (k : ℕ). 8 * k) count) (after ∙ left) in
    let equal = same_bytes bytes copied a each (sym count) same in
    (
      br1,
      br2,
      jump ∙ ap (λ (k : ℕ). (k == 0, br1)) none,
      run ∙ ap (λ (l : List ℕ). some (l, br2)) (sym equal),
      sym rest',
      v2,
    )
