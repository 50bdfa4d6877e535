-- ===== src/BitWriter/Written.antt =====
-- What a writer has written so far, as a list of bits.
use native.Mathlib.Nat.{pow-le-pow_right}
use go_brrr.Prelude.{
  ℕ, zero, suc, ◌+◌, ◌-◌, ◌*◌, ◌/◌, ◌%◌, ◌^◌, ◌≤◌, ◌<◌, ◌≡◌, refl, List, ◌∷◌, ◌++◌, length, drop,
  arith, true, sym, ap, ◌∙◌, bit_or, append_assoc, leb, some, length-append, get_or-append,
  drop-past, length-drop,
}
use go_brrr.Prelude.BitOps.{bit_or-shifted, pow-add}
use go_brrr.Prelude.BitStream.{
  to_bits, stream, to_bits-split, to_bits-add, field_lt, take_exact, stream-append,
}
use go_brrr.BitWriter.{BitWriter, le_bytes, put_word, write_bits}

-- Whole bytes, then r bits of a byte whose other bits are clear; what comes after is scratch.
pub record Written (b : BitWriter) (bits : List ℕ) : Type 0 where
  pub done : List ℕ
  pub last : ℕ
  pub rest : List ℕ
  pub r : ℕ
  pub buffer : b.buf ≡ done ++ (last ∷ rest)
  pub offset : b.bit_offset ≡ 8 * length done + r
  pub r_lt : r < 8
  pub last_lt : last < 2 ^ r
  pub written : bits ≡ stream done ++ to_bits r last

-- Room for k bits more, each write touching eight bytes.
abbrev pub HasRoom : BitWriter → ℕ → Type 0
HasRoom b k = b.bit_offset + k + 64 ≤ 8 * length b.buf

shift_bytes : ℕ → ℕ → ℕ
shift_bytes zero v = v
shift_bytes (suc q) v = shift_bytes q (v / 256)

le_bytes-split :
    (q m v : ℕ)
    → le_bytes (q + suc m) v
      ≡ le_bytes q v ++ (shift_bytes q v % 256 ∷ le_bytes m (shift_bytes q v / 256))
unfolding le_bytes shift_bytes
le_bytes-split zero m v = let e : 0 + suc m ≡ suc m = omega arith in rw e refl
le_bytes-split (suc q) m v =
    let e : suc q + suc m ≡ suc (q + suc m) = omega arith in
    rw (e, le_bytes-split q m (v / 256)) refl

shift_bytes-lt : (q r v : ℕ) → v < 2 ^ (8 * q + r) → shift_bytes q v < 2 ^ r
unfolding shift_bytes
shift_bytes-lt zero r v h = let e : 8 * 0 + r ≡ r = omega arith in rw (sym e) h
shift_bytes-lt (suc q) r v h = shift_bytes-lt q r (v / 256) (
    omega (
      arith,
      h,
      pow-add 8 (8 * q + r),
      ap (λ (k : ℕ). 2 ^ k) {x = 8 * suc q + r} {y = 8 + (8 * q + r)} (omega arith),
    ))

stream-le_bytes :
    (q r v : ℕ) → to_bits (8 * q + r) v ≡ stream (le_bytes q v) ++ to_bits r (shift_bytes q v)
unfolding le_bytes shift_bytes stream
stream-le_bytes zero r v = let e : 8 * 0 + r ≡ r = omega arith in rw e refl
stream-le_bytes (suc q) r v =
    let e : 8 * suc q + r ≡ 8 + (8 * q + r) = omega arith in
    let w : 8 + (8 * q + r) - 8 ≡ 8 * q + r = omega arith in
    rw e (
      to_bits-split 8 (8 + (8 * q + r)) v (omega arith)
      ∙ rw (w, stream-le_bytes q r (v / 256))
          (sym (append_assoc (to_bits 8 (v % 256)) (stream (le_bytes q (v / 256))) _)))

length-le_bytes : (q v : ℕ) → length (le_bytes q v) ≡ q
unfolding le_bytes
length-le_bytes zero v = refl
length-le_bytes (suc q) v = ap suc (length-le_bytes q (v / 256))

module _ (done rest : List ℕ) (last r n value : ℕ) (r_lt : r < 8) (last_lt : last < 2 ^ r)
    (n_le : n ≤ 56) (value_lt : value < 2 ^ n) where
  -- The word that is stored, and where the next write goes on in it.
  abbrev word : ℕ
  word = last + value * 2 ^ r

  abbrev whole : ℕ
  whole = (r + n) / 8

  abbrev left : ℕ
  left = (r + n) % 8

  word_lt : word < 2 ^ (8 * whole + left)
  word_lt =
      let e : 8 * ((r + n) / 8) + (r + n) % 8 ≡ r + n = omega arith in
      rw e (field_lt r n last value last_lt value_lt)

  word_or : bit_or last (value * 2 ^ r % 2 ^ 64) ≡ word
  word_or =
      let wide : 2 ^ (r + n) ≤ 2 ^ 64 =
        pow-le-pow_right {n = 2} (omega arith) {j = 64} (omega arith) in
      let fits : value * 2 ^ r % 2 ^ 64 ≡ value * 2 ^ r =
        omega (arith, field_lt r n last value last_lt value_lt, wide) in
      rw fits (bit_or-shifted r last value last_lt)

  next_lt : shift_bytes whole word < 2 ^ left
  next_lt = shift_bytes-lt whole left word word_lt

  next_small : shift_bytes whole word % 256 ≡ shift_bytes whole word
  next_small =
      let wide : 2 ^ ((r + n) % 8) ≤ 2 ^ 8 =
        pow-le-pow_right {n = 2} (omega arith) {j = 8} (omega arith) in
      omega (arith, next_lt, wide)

  word_bits :
      to_bits r last ++ to_bits n value
      ≡ stream (le_bytes whole word) ++ to_bits left (shift_bytes whole word)
  word_bits =
      let e : 8 * ((r + n) / 8) + (r + n) % 8 ≡ r + n = omega arith in
      sym (to_bits-add r n last value last_lt)
      ∙ ap (λ (w : ℕ). to_bits w (last + value * 2 ^ r)) (sym e)
      ∙ stream-le_bytes whole left word

  bytes_eq :
      le_bytes 8 word
      ≡ le_bytes whole word
        ++ (shift_bytes whole word ∷ le_bytes (7 - whole) (shift_bytes whole word / 256))
  bytes_eq =
      ap (λ (k : ℕ). le_bytes k word) {x = 8} {y = whole + suc (7 - whole)} (omega arith)
      ∙ le_bytes-split whole (7 - whole) word
      ∙ rw next_small refl

  stored :
      (tail : List ℕ)
      → Written
          record { buf = done ++ (le_bytes 8 word ++ tail); bit_offset = 8 * length done + r + n }
          (stream done ++ to_bits r last ++ to_bits n value)
  stored tail = record {
    done = done ++ le_bytes whole word;
    last = shift_bytes whole word;
    rest = le_bytes (7 - whole) (shift_bytes whole word / 256) ++ tail;
    r = left;
    buffer = rw bytes_eq (
        ap (λ (t : List ℕ). done ++ t) (append_assoc (le_bytes whole word) _ tail)
        ∙ sym (append_assoc done (le_bytes whole word) _));
    offset = omega (arith, length-append done (le_bytes whole word), length-le_bytes whole word);
    r_lt = omega arith;
    last_lt = next_lt;
    written =
        append_assoc (stream done) (to_bits r last) (to_bits n value)
        ∙ ap (λ (t : List ℕ). stream done ++ t) word_bits
        ∙ sym (append_assoc (stream done) (stream (le_bytes whole word)) _)
        ∙ rw (stream-append done (le_bytes whole word)) refl;
  }

-- A write appends its bits, and uses up as much of the room.
pub write_bits-Written :
    (b : BitWriter) (bits : List ℕ) (n value k : ℕ)
    → Written b bits
    → n ≤ 56
    → value < 2 ^ n
    → HasRoom b (n + k)
    → (b' : BitWriter) × (write_bits n value b ≡ some b')
      × Written b' (bits ++ to_bits n value)
      × HasRoom b' k
      × (length b'.buf ≡ length b.buf)
      × (b'.bit_offset ≡ b.bit_offset + n)
unfolding write_bits put_word
write_bits-Written b bits n value k w n_le value_lt room = (
  record { buf = after; bit_offset = b.bit_offset + n },
  rw (fits, at, off, w.buffer)
      (rw
        (
          get_or-append w.done w.last w.rest 0,
          word_or w.done w.rest w.last w.r n value w.r_lt w.last_lt n_le value_lt,
          take_exact (length w.done) w.done (w.last ∷ w.rest) refl,
          drop-past w.done (w.last ∷ w.rest) 8,
        )
        refl),
  rw (w.offset, w.written)
      (stored w.done w.rest w.last w.r n value w.r_lt w.last_lt n_le value_lt tail),
  omega (arith, room, same_length),
  same_length,
  refl,
)
  where
    tail : List ℕ
    tail = drop 8 (w.last ∷ w.rest)

    after : List ℕ
    after = w.done ++ (le_bytes 8 (w.last + value * 2 ^ w.r) ++ tail)

    fits : leb (b.bit_offset / 8 + 8) (length b.buf) ≡ true
    fits = ground (arith, room)

    at : b.bit_offset / 8 ≡ length w.done
    at = omega (arith, w.offset, w.r_lt)

    off : b.bit_offset % 8 ≡ w.r
    off = omega (arith, w.offset, w.r_lt)

    same_length : length after ≡ length b.buf
    same_length = omega (
      arith,
      room,
      ap length w.buffer,
      length-append w.done (w.last ∷ w.rest),
      length-append w.done (le_bytes 8 (w.last + value * 2 ^ w.r) ++ tail),
      length-append (le_bytes 8 (w.last + value * 2 ^ w.r)) tail,
      length-le_bytes 8 (w.last + value * 2 ^ w.r),
      length-drop 8 (w.last ∷ w.rest),
      w.offset,
    )
