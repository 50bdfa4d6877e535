-- ===== src/BitWriter/Fields.antt =====
-- Several fields written in a row.
use go_brrr.Prelude.{
  ℕ, ◌+◌, ◌^◌, ◌≤◌, ◌<◌, ◌≡◌, refl, List, [], ◌∷◌, ◌++◌, length, All, arith, sym, ◌∙◌, append_assoc,
  some, none, Option, append-nil, ◌>>=◌,
}
use go_brrr.Prelude.BitStream.{to_bits}
use go_brrr.BitWriter.{BitWriter, write_bits}
use go_brrr.BitWriter.Written.{Written, HasRoom, write_bits-Written}

-- Several fields in a row.
unfoldable pub write_fields : List (ℕ × ℕ) → BitWriter → Option BitWriter
write_fields [] b = some b
write_fields ((n, value) ∷ fields) b = elim (write_bits n value b) [
  | none ↦ none
  | some b' ↦ write_fields fields b'
]

unfoldable pub field_bits : List (ℕ × ℕ) → List ℕ
field_bits [] = []
field_bits ((n, value) ∷ fields) = to_bits n value ++ field_bits fields

unfoldable pub width : List (ℕ × ℕ) → ℕ
width [] = 0
width ((n, value) ∷ fields) = n + width fields

abbrev pub IsField : ℕ × ℕ → Type 0
IsField (n, value) = (n ≤ 56) × (value < 2 ^ n)

pub write_fields-Written :
    (fields : List (ℕ × ℕ)) (b : BitWriter) (bits : List ℕ)
    → Written b bits
    → All IsField fields
    → HasRoom b (width fields)
    → (b' : BitWriter) × (write_fields fields b ≡ some b')
      × Written b' (bits ++ field_bits fields)
      × (length b'.buf ≡ length b.buf)
      × (b'.bit_offset ≡ b.bit_offset + width fields)
unfolding write_fields field_bits width
write_fields-Written [] b bits w a room = (b, refl, rw (append-nil bits) w, refl, omega arith)
write_fields-Written ((n, value) ∷ fields) b bits w ((n_le, value_lt), a) room =
    let (b1, e1, w1, room1, l1, o1) =
      write_bits-Written b bits n value (width fields) w n_le value_lt room in
    let (b2, e2, w2, l2, o2) = write_fields-Written fields b1 _ w1 a room1 in
    (
      b2,
      rw (write_fields, e1) e2,
      rw (sym (append_assoc bits (to_bits n value) (field_bits fields))) w2,
      l2 ∙ l1,
      omega arith,
    )

-- A chain of writes is the write of the fields in a row.
pub write_fields-one :
    (n value : ℕ) (b : BitWriter) → write_bits n value b ≡ write_fields ((n, value) ∷ []) b
unfolding write_fields
write_fields-one n value b = last (write_bits n value b)
  where
    last : (o : Option BitWriter) → o ≡ elim o [ none ↦ none | some b' ↦ some b' ]
    last none = refl
    last (some b') = refl

pub write_fields-bind :
    (n value : ℕ) (fields : List (ℕ × ℕ)) (f : BitWriter → Option BitWriter) (b : BitWriter)
    → ((b' : BitWriter) → f b' ≡ write_fields fields b')
    → (write_bits n value b >>= f) ≡ write_fields ((n, value) ∷ fields) b
unfolding write_fields
write_fields-bind n value fields f b e = chain (write_bits n value b)
  where
    chain :
        (o : Option BitWriter)
        → (o >>= f) ≡ elim o [ none ↦ none | some b' ↦ write_fields fields b' ]
    chain none = refl
    chain (some b') = e b'
