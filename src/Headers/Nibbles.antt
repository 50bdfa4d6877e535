-- ===== src/Headers/Nibbles.antt =====
-- The loop of decodeMetaBlockLength over the nibbles of a length.
use native.Mathlib.Nat.{add-mul, mul_assoc}
use go_brrr.Prelude.{
  ℕ, zero, suc, ◌+◌, ◌-◌, ◌*◌, ◌/◌, ◌%◌, ◌^◌, ◌≤◌, ◌<◌, ◌≡◌, refl, List, [], ◌∷◌, ◌++◌, ltb, ◌==◌,
  ◌&&◌, arith, ap, sym, ◌∙◌, true, false, Bool, bit_or, ◌⊎◌, inl, inr,
}
use go_brrr.Prelude.BitOps.{bit_or-shifted, pow-add}
use go_brrr.Prelude.BitStream.{to_bits, to_bits-split, field_lt}
use go_brrr.BitWriter.Fields.{field_bits}
use go_brrr.Resumable.Stream.{run_stream, after_step}
use go_brrr.Resumable.ReadFields.{run_stream-next}
use go_brrr.Headers.{header_machine, header_size, header_step, header_width, size_step}
use go_brrr.Headers.MetaBlock.{at}

-- k nibbles of a number, the lowest first.
unfoldable pub nibbles : ℕ → ℕ → List (ℕ × ℕ)
nibbles zero w = []
nibbles (suc k) w = (4, w % 16) ∷ nibbles k (w / 16)

pub nibbles-to_bits : (k w : ℕ) → to_bits (k * 4) w ≡ field_bits (nibbles k w)
unfolding nibbles field_bits
nibbles-to_bits zero w = let none : 0 * 4 ≡ 0 = omega arith in rw none (unfold to_bits in refl)
nibbles-to_bits (suc k) w =
    let n : suc k * 4 - 4 ≡ k * 4 = omega arith in
    to_bits-split 4 (suc k * 4) w (omega arith) ∙ rw (n, nibbles-to_bits k (w / 16)) refl

-- One nibble more.
joined : (w i : ℕ) → w % 16 * 2 ^ (i * 4) + w / 16 * 2 ^ ((i + 1) * 4) ≡ w * 2 ^ (i * 4)
joined w i =
    let next : (i + 1) * 4 ≡ i * 4 + 4 = omega arith in
    let digits : w ≡ w % 16 + w / 16 * 16 = omega arith in
    rw next (
      omega (
        arith,
        ap (λ (t : ℕ). w / 16 * t) (pow-add (i * 4) 4),
        ap (λ (t : ℕ). t * 2 ^ (i * 4)) digits,
        add-mul (w % 16) (w / 16 * 16) (2 ^ (i * 4)),
        mul_assoc (w / 16) 16 (2 ^ (i * 4)),
      ))

-- The highest nibble is not zero when there are more than four.
abbrev pub TopNibble : ℕ → ℕ → ℕ → Type 0
TopNibble size zero w = Unit {0}
TopNibble size (suc k) w = (size ≤ 4) ⊎ (2 ^ (k * 4) ≤ w)

top_rest : (size k w : ℕ) → TopNibble size (suc k) w → TopNibble size k (w / 16)
top_rest size zero w h = tt
top_rest size (suc k) w (inl h) = inl h
top_rest size (suc k) w (inr h) =
    let more : suc k * 4 ≡ k * 4 + 4 = omega arith in
    inr (omega (arith, pow-add (k * 4) 4, ap (λ (n : ℕ). 2 ^ n) more))

-- The test for a nibble too many.
no_surplus :
    (size i k w : ℕ)
    → i + suc k ≡ size
    → w < 2 ^ (suc k * 4)
    → TopNibble size (suc k) w
    → ((i + 1 == size) && ltb 4 size && (w % 16 == 0)) ≡ false
no_surplus size i (suc k) w e lt h = ground arith
no_surplus size i zero w e lt (inl h) = ground arith
no_surplus size i zero w e lt (inr h) = ground arith

pub size_loop :
    (k i size acc w fuel : ℕ) (l u m : Bool) (rest : List ℕ)
    → i + k ≡ size
    → acc < 2 ^ (i * 4)
    → w < 2 ^ (k * 4)
    → TopNibble size k w
    → run_stream header_machine
        (k + fuel)
        (at header_size l u m acc size i)
        (field_bits (nibbles k w) ++ rest)
      ≡ run_stream header_machine fuel (at header_size l u m (acc + w * 2 ^ (i * 4)) size size) rest
unfolding nibbles field_bits header_step size_step after_step
size_loop zero i size acc w fuel l u m rest e a lt h =
    let none : 0 + fuel ≡ fuel = omega arith in
    let all : i ≡ size = omega arith in
    let same : acc ≡ acc + w * 2 ^ (i * 4) = omega (arith, zero_mul) in
    rw (none, sym same, all) refl
  where
    zero_mul : w * 2 ^ (i * 4) ≡ 0
    zero_mul = ap (λ (t : ℕ). t * 2 ^ (i * 4)) {x = w} {y = 0} (omega arith) ∙ omega arith
size_loop (suc k) i size acc w fuel l u m rest e a lt h =
    let more : suc k + fuel ≡ suc (k + fuel) = omega arith in
    rw more (
      run_stream-next header_machine (k + fuel) (at header_size l u m acc size i) 4 (w % 16)
        (nibbles k (w / 16)) rest width_four (omega arith)
      ∙ rw (going, no_surplus size i k w e lt h, added)
          (size_loop k (i + 1) size (acc + w % 16 * 2 ^ (i * 4)) (w / 16) fuel l u m rest
              (omega arith) below
              (omega (arith, pow-add (k * 4) 4, lt, ap (λ (n : ℕ). 2 ^ n) suc_four))
              (top_rest size k w h)
            ∙ ap (λ (t : ℕ). run_stream header_machine fuel (at header_size l u m t size size) rest)
                (omega (arith, joined w i))))
  where
    going : ltb i size ≡ true
    going = ground arith

    width_four : header_width (at header_size l u m acc size i) ≡ 4
    width_four = unfold header_width in rw going refl

    suc_four : suc k * 4 ≡ k * 4 + 4
    suc_four = omega arith

    added : bit_or acc (w % 16 * 2 ^ (i * 4)) ≡ acc + w % 16 * 2 ^ (i * 4)
    added = bit_or-shifted (i * 4) acc (w % 16) a

    below : acc + w % 16 * 2 ^ (i * 4) < 2 ^ ((i + 1) * 4)
    below =
        let next : (i + 1) * 4 ≡ i * 4 + 4 = omega arith in
        rw next (field_lt (i * 4) 4 acc (w % 16) a (omega arith))
