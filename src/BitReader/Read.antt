-- ===== src/BitReader/Read.antt =====
-- safeReadBits and safeReadBits32 against the stream of unread bits.
use go_brrr.Prelude.{
  ℕ, zero, suc, ◌+◌, ◌*◌, ◌^◌, ◌≤◌, ◌<◌, ◌≡◌, refl, List, ◌++◌, length, drop, take, arith, Bool,
  true, false, sym, ap, ◌∙◌, leb, ltb, some, none, Option, length-append, inl, inr, lt-cases,
  if◌then◌else◌,
}
use go_brrr.Prelude.BitStream.{
  to_bits, from_bits, from_bits-to_bits, length-to_bits, take_exact, drop_exact,
}
use go_brrr.BitReader.{BitReader, take_bits, pull_bits, pull_fuel, safe_read_bits}
use go_brrr.BitReader.Unread.{unread, IsReader, pull_byte-unread, pull_byte-end, take_bits-unread}

-- What the pulling loop leaves: enough bits, or a reader at the end of its input.
pub data Pulled (n : ℕ) (br : BitReader) : Bool × BitReader → Type 0 where
  enough :
      (br' : BitReader)
      → IsReader br'
      → unread br' ≡ unread br
      → br'.input ≡ br.input
      → n ≤ br'.bit_pos
      → Pulled n br (true, br')
  short :
      (br' : BitReader)
      → IsReader br'
      → unread br' ≡ unread br
      → br'.input ≡ br.input
      → br'.bit_pos < n
      → length br'.input ≤ br'.pos
      → Pulled n br (false, br')

later :
    (n : ℕ) (br br1 : BitReader) (r : Bool × BitReader)
    → unread br1 ≡ unread br
    → br1.input ≡ br.input
    → Pulled n br1 r
    → Pulled n br r
later n br br1 _ e i (enough br' v u j m) = enough br' v (u ∙ e) (j ∙ i) m
later n br br1 _ e i (short br' v u j m p) = short br' v (u ∙ e) (j ∙ i) m p

pub pull_bits-Pulled :
    (fuel n : ℕ) (br : BitReader)
    → IsReader br
    → n ≤ 56
    → n ≤ br.bit_pos + 8 * fuel
    → Pulled n br (pull_bits fuel n br)
unfolding pull_bits
pull_bits-Pulled zero n br v h f =
    let done : leb n br.bit_pos ≡ true = ground arith in
    rw (pull_bits, done) (enough br v refl refl (omega arith))
pull_bits-Pulled (suc fuel) n br v h f = elim (lt-cases br.bit_pos n) [
  | inr full ↦
      let stop : ltb br.bit_pos n ≡ false = ground arith in
      rw (pull_bits, stop) (enough br v refl refl full)
  | inl less ↦
      let go : ltb br.bit_pos n ≡ true = ground arith in
      rw (pull_bits, go)
        (elim (lt-cases br.pos (length br.input)) [
          | inl more ↦
              let (br1, e, v1, u, b, i) = pull_byte-unread br v (omega arith) more in
              rw e (later n br br1 _ u i (pull_bits-Pulled fuel n br1 v1 h (omega arith)))
          | inr over ↦ rw (pull_byte-end br v over).0 (short br v refl refl less over)
        ])
]

-- A read that finds the bits hands them out; one that does not says so and keeps the stream.
pub data ReadBits (n : ℕ) (br : BitReader) : Option ℕ × BitReader → Type 0 where
  got :
      (v : ℕ) (br' : BitReader)
      → v < 2 ^ n
      → unread br ≡ to_bits n v ++ unread br'
      → IsReader br'
      → br'.input ≡ br.input
      → ReadBits n br (some v, br')
  starved :
      (br' : BitReader)
      → length (unread br) < n
      → unread br' ≡ unread br
      → IsReader br'
      → br'.input ≡ br.input
      → length br'.input ≤ br'.pos
      → ReadBits n br (none, br')

short_unread :
    (br : BitReader) → IsReader br → length br.input ≤ br.pos → length (unread br) ≡ br.bit_pos
short_unread br v p = ap length (pull_byte-end br v p).1 ∙ length-to_bits br.bit_pos br.val

taken :
    (n : ℕ) (br : BitReader) (r : Bool × BitReader)
    → n ≤ 24
    → Pulled n br r
    → ReadBits n br
        (if r.0 then (let (v, br'') = take_bits n r.1 in (some v, br'')) else (none, r.1))
taken n br _ h (enough br' v u i m) =
    let (x, e, v', j) = take_bits-unread n br' v m (omega arith) in got _ _ x (sym u ∙ e) v' (j ∙ i)
taken n br _ h (short br' v u i m p) =
    starved br' (omega (arith, ap length u, short_unread br' v p, m)) u v i p

-- Up to 24 bits: the loop always has enough fuel, and the read hands out the next bits of the
-- stream exactly when there are that many.
pub safe_read_bits-ReadBits :
    (n : ℕ) (br : BitReader) → IsReader br → n ≤ 24 → ReadBits n br (safe_read_bits n br)
unfolding safe_read_bits
safe_read_bits-ReadBits n br v h =
    taken n br (pull_bits pull_fuel n br) h
      (pull_bits-Pulled pull_fuel n br v (omega arith) (omega arith))

pub same_bits :
    (n v x : ℕ) (s t : List ℕ)
    → v < 2 ^ n
    → x < 2 ^ n
    → to_bits n v ++ s ≡ to_bits n x ++ t
    → (v ≡ x) × (s ≡ t)
same_bits n v x s t hv hx e = (
  sym (from_bits-to_bits n v hv) ∙ ap from_bits fields ∙ from_bits-to_bits n x hx,
  sym (drop_exact n (to_bits n v) s (length-to_bits n v))
      ∙ ap (drop n) e
      ∙ drop_exact n (to_bits n x) t (length-to_bits n x),
)
  where
    fields : to_bits n v ≡ to_bits n x
    fields =
        sym (take_exact n (to_bits n v) s (length-to_bits n v))
        ∙ ap (take n) e
        ∙ take_exact n (to_bits n x) t (length-to_bits n x)

-- A written field is what a read gives back.
pub record Got (n v : ℕ) (rest : List ℕ) (r : Option ℕ × BitReader) : Type 0 where
  pub value : r.0 ≡ some v
  pub left : unread r.1 ≡ rest
  pub valid : IsReader r.1

read_field :
    (n v : ℕ) (rest : List ℕ) (br : BitReader) (r : Option ℕ × BitReader)
    → v < 2 ^ n
    → unread br ≡ to_bits n v ++ rest
    → ReadBits n br r
    → Got n v rest r
read_field n v rest br _ h e (got x br' hx u w i) =
    let (same, tail) = same_bits n v x rest (unread br') h hx (sym e ∙ u) in
    record { value = ap some (sym same); left = sym tail; valid = w }
read_field n v rest br _ h e (starved br' l u w i p) =
    absurd (omega (arith, ap length e, length-append (to_bits n v) rest, length-to_bits n v))

pub safe_read_bits-Got :
    (n v : ℕ) (rest : List ℕ) (br : BitReader)
    → IsReader br
    → n ≤ 24
    → v < 2 ^ n
    → unread br ≡ to_bits n v ++ rest
    → (br' : BitReader) × (safe_read_bits n br ≡ (some v, br')) × IsReader br' × (unread br' ≡ rest)
safe_read_bits-Got n v rest br w hn h e =
    let g = read_field n v rest br _ h e (safe_read_bits-ReadBits n br w hn) in
    (
      (safe_read_bits n br).1,
      ap (λ (o : Option ℕ). (o, (safe_read_bits n br).1)) g.value,
      g.valid,
      g.left,
    )
