-- ===== src/Huffman/ReadSymbol.antt =====
-- safeReadSymbol and safeDecodeSymbol of decode.go against the stream of unread bits.
use native.Mathlib.Nat.{
  pow-suc, one-le-pow, mul_assoc, mul_comm, add-mul-mod_self_right, mod-eq_of_lt,
}
use go_brrr.Prelude.{
  ℕ, zero, suc, ◌+◌, ◌-◌, ◌*◌, ◌/◌, ◌%◌, ◌^◌, ◌≤◌, ◌<◌, ◌≡◌, refl, ap, sym, ◌∙◌, List, ◌++◌, arith,
  inl, inr, true, false, lt-cases, ltb, length, drop, some, none, Option, ◌⊎◌, length-append,
  bit_and,
}
use go_brrr.Prelude.BitOps.{bit_and_mask, mul-pow-suc, pow-add}
use go_brrr.Prelude.BitStream.{to_bits, from_bits, length-to_bits, stream, drop_exact}
use go_brrr.BitReader.{BitReader, drop_bits, normalize, bit_mask, take_bits}
use go_brrr.BitReader.Unread.{unread, IsReader, take_bits-unread}
use go_brrr.Huffman.Table.{Table, HuffmanCode, symbol_entry}
use go_brrr.Huffman.Fill.{mod_narrow}

-- What a read of a symbol gives: the one that the unread bits start with, with zeros after them, as
-- soon as its whole code is there; until then none, and no bit is lost.
pub data ReadSymbol (t : Table) (br : BitReader) : Option ℕ × BitReader → Type 0 where
  got :
      (symbol l : ℕ) (br' : BitReader)
      → symbol_entry (from_bits (unread br)) t ≡ (symbol, l)
      → l ≤ length (unread br)
      → unread br' ≡ drop l (unread br)
      → IsReader br'
      → ReadSymbol t br (some symbol, br')
  starved :
      (symbol l : ℕ) (br' : BitReader)
      → symbol_entry (from_bits (unread br)) t ≡ (symbol, l)
      → length (unread br) < l
      → unread br' ≡ unread br
      → IsReader br'
      → ReadSymbol t br (none, br')

-- A field is the low bits of the number that the whole list stands for.
from_bits-low :
    (n x : ℕ) (rest : List ℕ)
    → x < 2 ^ n
    → from_bits (to_bits n x ++ rest) ≡ x + from_bits rest * 2 ^ n
unfolding to_bits from_bits
from_bits-low zero x rest h = omega arith
from_bits-low (suc n) x rest h = omega (
  arith,
  from_bits-low n (x / 2) rest (omega (arith, h, pow-suc 2 n)),
  mul-pow-suc (from_bits rest) n,
)

pub unread-low :
    (l : ℕ) (br : BitReader)
    → IsReader br
    → l ≤ br.bit_pos
    → from_bits (unread br) % 2 ^ l ≡ br.val % 2 ^ l
unfolding unread
unread-low l br v h =
    let s = from_bits (stream (drop br.pos br.input)) in
    let all = from_bits-low br.bit_pos br.val (stream (drop br.pos br.input)) v.held in
    sym (mod_narrow l br.bit_pos _ h)
    ∙ ap (λ (t : ℕ). t % 2 ^ br.bit_pos % 2 ^ l) all
    ∙ ap (λ (t : ℕ). t % 2 ^ l)
        (add-mul-mod_self_right br.val s (2 ^ br.bit_pos) ∙ mod-eq_of_lt v.held)

pub normalize-valid : (br : BitReader) → IsReader br → br.bit_pos < 64 → normalize br ≡ br
unfolding normalize bit_mask
normalize-valid br v h =
    let room : ltb br.bit_pos 64 ≡ true = ground arith in
    let width : br.bit_pos % 64 ≡ br.bit_pos = omega (arith, h) in
    let whole : bit_and br.val (2 ^ br.bit_pos - 1) ≡ br.val =
      bit_and_mask br.bit_pos br.val ∙ mod-eq_of_lt v.held in
    rw (room, width, whole) refl

unfoldable pub entry2_of : ℕ → Table → HuffmanCode
entry2_of v t = t (v % 256 + (t (v % 256)).value + v / 256 % 2 ^ ((t (v % 256)).bits - 8))

symbol_entry-long :
    (v : ℕ) (t : Table)
    → ltb 8 (t (v % 256)).bits ≡ true
    → symbol_entry v t ≡ ((entry2_of v t).value, 8 + (entry2_of v t).bits)
unfolding symbol_entry entry2_of
symbol_entry-long v t e = rw e refl

symbol_entry-root :
    (v : ℕ) (t : Table)
    → ltb 8 (t (v % 256)).bits ≡ false
    → symbol_entry v t ≡ ((t (v % 256)).value, (t (v % 256)).bits)
unfolding symbol_entry
symbol_entry-root v t e = rw e refl

-- An entry of the root table, or one behind a pointer.
pub entry-cases :
    (v symbol l : ℕ) (t : Table)
    → symbol_entry v t ≡ (symbol, l)
    → (((t (v % 256)).bits ≤ 8) × ((t (v % 256)).value ≡ symbol) × ((t (v % 256)).bits ≡ l))
      ⊎ ((8 < (t (v % 256)).bits)
          × ((entry2_of v t).value ≡ symbol)
          × (8 + (entry2_of v t).bits ≡ l))
entry-cases v symbol l t e = elim (lt-cases 8 (t (v % 256)).bits) [
  | inl long ↦
      let test : ltb 8 (t (v % 256)).bits ≡ true = ground (arith, long) in
      let f = sym (symbol_entry-long v t test) ∙ e in
      inr (long, ap (λ (x : ℕ × ℕ). x.0) f, ap (λ (x : ℕ × ℕ). x.1) f)
  | inr root ↦
      let test : ltb 8 (t (v % 256)).bits ≡ false = ground (arith, root) in
      let f = sym (symbol_entry-root v t test) ∙ e in
      inl (root, ap (λ (x : ℕ × ℕ). x.0) f, ap (λ (x : ℕ × ℕ). x.1) f)
]

mod-lt' : (a m : ℕ) → 1 ≤ m → a % m < m
mod-lt' a m h = omega (arith, h)

quotient : (a m : ℕ) → a ≡ a % m + a / m * m
quotient a m = omega arith

-- `(val & bitMask(bits)) >> 8` is the field that decodeSymbol takes.
pub second_field : (v b : ℕ) → 8 < b → b ≤ 15 → bit_and v (bit_mask b) / 256 ≡ v / 256 % 2 ^ (b - 8)
unfolding bit_mask
second_field v b h p =
    let n = b - 8 in
    let u = v / 256 in
    let small : b % 64 ≡ b = omega (arith, p) in
    let width : 2 ^ b ≡ 256 * 2 ^ (b - 8) =
      ap (λ (k : ℕ). 2 ^ k) {x = b} {y = 8 + (b - 8)} (omega (arith, h)) ∙ pow-add 8 (b - 8) in
    rw small (
      ap (λ (x : ℕ). x / 256) (bit_and_mask b v ∙ ap (λ (m : ℕ). v % m) width)
      ∙ field v (2 ^ (b - 8)) (one-le-pow (b - 8) 2 (omega arith)))
  where
    field : (v m : ℕ) → 1 ≤ m → v % (256 * m) / 256 ≡ v / 256 % m
    field v m h =
        let r = v % 256 + 256 * (v / 256 % m) in
        let top = mod-lt' (v / 256) m h in
        let low : r < 256 * m = omega (arith, ap (λ (t : ℕ). t) {x = m} refl, top) in
        let parts : v ≡ r + v / 256 / m * (256 * m) = omega (
          arith,
          quotient (v / 256) m,
          mul_assoc (v / 256 / m) 256 m,
          mul_comm (v / 256 / m) 256,
          mul_assoc 256 (v / 256 / m) m,
        ) in
        ap (λ (t : ℕ). t % (256 * m) / 256) parts
        ∙ ap (λ (t : ℕ). t / 256)
            (add-mul-mod_self_right r (v / 256 / m) (256 * m) ∙ mod-eq_of_lt low)
        ∙ omega arith

pub dropped :
    (l : ℕ) (br : BitReader)
    → IsReader br
    → l ≤ br.bit_pos
    → l ≤ 15
    → (unread (drop_bits l br) ≡ drop l (unread br)) × IsReader (drop_bits l br)
unfolding take_bits
dropped l br v h p =
    let (lt, e, v', i) = take_bits-unread l br v h (omega (arith, p)) in
    (
      sym (
          ap (drop l) e
          ∙ drop_exact l (to_bits l (bit_and br.val (bit_mask l))) _ (length-to_bits l _)),
      v',
    )

pub length-unread : (br : BitReader) → br.bit_pos ≤ length (unread br)
unfolding unread
length-unread br = omega (
  arith,
  length-append (to_bits br.bit_pos br.val) (stream (drop br.pos br.input)),
  length-to_bits br.bit_pos br.val,
)

pub long_of : (l b : ℕ) → 8 < b → (l ≤ 8 → b ≤ 8) → 8 < l
long_of l b h f = elim (lt-cases 8 l) [
  | inl long ↦ long
  | inr root ↦ absurd (omega (arith, h, f root))
]
