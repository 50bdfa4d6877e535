-- ===== src/CodeLengths/Repeats.antt =====
-- A run of code lengths written as digits, one symbol after the other, as
-- encodeHuffmanTreeRepetitions of internal/encoder/huffman_encode.go does.
use go_brrr.Prelude.{
  ℕ, zero, suc, ◌+◌, ◌-◌, ◌*◌, ◌/◌, ◌%◌, ◌^◌, ◌≤◌, ◌<◌, ◌≡◌, ◌≢◌, refl, ap, sym, ◌∙◌, List, [], ◌∷◌,
  ◌==◌, Bool-cases, inl, inr, ◌⊎◌, arith, replicate, if◌then◌else◌, true, false, ltb, append-nil,
  replicate-add, length-replicate, bit_and, ==_iff,
}
use native.Mathlib.Nat.{one-le-pow}
use go_brrr.Prelude.BitOps.{bit_and_mask}
use go_brrr.CodeLengths.Encode.{Code, reverse, repeat_codes}
use go_brrr.CodeLengths.Decode.{
  Assigned, LengthReader, assign_run, process, process_repeated_code_length, extend_repeat,
}
use go_brrr.CodeLengths.Assign.{assign_run-assign_all}
use go_brrr.CodeLengths.Reads.{Reads, Reads-append, Reads-assign_all, symbol-assign_all}

-- A symbol that repeats the length `value`, with x extra bits, when `prev` was the last length
-- other than 0.
unfoldable pub IsRepeat : ℕ → ℕ → ℕ → ℕ → ℕ → Type 0
IsRepeat m code x value prev =
    (h : LengthReader) (e old : ℕ)
    → h.prev_code_len ≡ prev
    → (if h.repeat_code_len == value then h.repeat else 0) ≡ old
    → h.assigned.symbol + (extend_repeat old x e - old) ≤ m
    → process m (code, e) h ≡ record h {
      repeat = extend_repeat old x e;
      repeat_code_len = value;
      assigned = assign_run value (extend_repeat old x e - old) h.assigned;
    }

pub previous-IsRepeat : (m value : ℕ) → IsRepeat m 16 2 value value
unfolding IsRepeat process process_repeated_code_length
previous-IsRepeat m value h e old v o b =
    let room : ltb m (h.assigned.symbol + (extend_repeat old 2 e - old)) ≡ false = ground arith in
    rw (v, o, room) refl

pub zero-IsRepeat : (m prev : ℕ) → IsRepeat m 17 3 0 prev
unfolding IsRepeat process process_repeated_code_length
zero-IsRepeat m prev h e old v o b =
    let room : ltb m (h.assigned.symbol + (extend_repeat old 3 e - old)) ≡ false = ground arith in
    rw (o, room) refl

-- The run of `value` goes on where one of another length, or none, was before.
unfoldable pub Fresh : LengthReader → ℕ → Type 0
Fresh h value = (h.repeat ≡ 0) ⊎ (h.repeat_code_len ≢ value)

fresh :
    (h : LengthReader) (value : ℕ)
    → Fresh h value
    → (if h.repeat_code_len == value then h.repeat else 0) ≡ 0
unfolding Fresh
fresh h value f = ground arith

-- The symbols of a run, read: the run of n lengths `value`.
unfoldable pub Ran : ℕ → ℕ → ℕ → LengthReader → List Code → LengthReader → Type 0
Ran m value n h codes g =
    Reads m h codes (replicate n value) g
    × (g.repeat ≡ n)
    × (g.repeat_code_len ≡ value)
    × (g.prev_code_len ≡ h.prev_code_len)

one_repeat :
    (m code x value prev e old n total : ℕ) (h : LengthReader)
    → IsRepeat m code x value prev
    → h.prev_code_len ≡ prev
    → value ≤ 15
    → (if h.repeat_code_len == value then h.repeat else 0) ≡ old
    → extend_repeat old x e ≡ total
    → total ≡ old + suc n
    → h.assigned.symbol + suc n ≤ m
    → Reads m h ((code, e) ∷ []) (replicate (suc n) value) (process m (code, e) h)
      × ((process m (code, e) h).repeat ≡ total)
      × ((process m (code, e) h).repeat_code_len ≡ value)
      × ((process m (code, e) h).prev_code_len ≡ h.prev_code_len)
unfolding Reads IsRepeat
one_repeat m code x value prev e old n total h r p v o w t b =
    let delta : extend_repeat old x e - old ≡ suc n = omega (arith, w, t) in
    let made = r h e old p o (omega (arith, w, t, b)) in
    (
      (
        value,
        n,
        [],
        sym (append-nil _),
        ap (λ (g : LengthReader). g.assigned) made
            ∙ ap (λ (t : ℕ). assign_run value t h.assigned) delta
            ∙ assign_run-assign_all value n h.assigned v,
        (refl, refl),
      ),
      ap (λ (g : LengthReader). g.repeat) made ∙ w,
      ap (λ (g : LengthReader). g.repeat_code_len) made,
      ap (λ (g : LengthReader). g.prev_code_len) made,
    )

digits : (v x : ℕ) → v / 2 ^ x * 2 ^ x + v % 2 ^ x ≡ v
digits v x = omega (arith, one-le-pow x 2)

smaller : (v x : ℕ) → v / 2 ^ x ≤ v
smaller v x = omega (arith, one-le-pow x 2)

extend_repeat-none : (x e : ℕ) → extend_repeat 0 x e ≡ e + 3
unfolding extend_repeat
extend_repeat-none x e = omega arith

extend_repeat-some : (q x e : ℕ) → 0 < q → extend_repeat (q - 1 + 3) x e ≡ q * 2 ^ x + (e + 3)
unfolding extend_repeat
extend_repeat-some q x e p =
    let some : (q - 1 + 3 == 0) ≡ false = ground arith in
    let less : q - 1 + 3 - 2 ≡ q = omega arith in rw (some, less) refl

one_digit : (v x : ℕ) → (v / 2 ^ x == 0) ≡ true → v % 2 ^ x ≡ v
one_digit v x e = omega (arith, digits v x, ap (λ (t : ℕ). t * 2 ^ x) ((==_iff _ _).0 e))

same_length :
    (g : LengthReader) (value n : ℕ)
    → g.repeat_code_len ≡ value
    → g.repeat ≡ n
    → (if g.repeat_code_len == value then g.repeat else 0) ≡ n
same_length g value n c a = ground arith

pub symbol-replicate :
    (n value m : ℕ) (h g : LengthReader) (codes : List Code)
    → Reads m h codes (replicate n value) g
    → g.assigned.symbol ≡ h.assigned.symbol + n
symbol-replicate n value m h g codes r =
    ap (λ (a : Assigned). a.symbol) (Reads-assign_all m h g codes (replicate n value) r)
    ∙ symbol-assign_all (replicate n value) h.assigned
    ∙ ap (λ (k : ℕ). h.assigned.symbol + k) (length-replicate n value)

not_zero : (v x : ℕ) → (v / 2 ^ x == 0) ≡ false → 0 < v / 2 ^ x
not_zero v x e = ground arith

pub chain :
    (fuel v m code x value prev : ℕ) (h : LengthReader)
    → IsRepeat m code x value prev
    → h.prev_code_len ≡ prev
    → value ≤ 15
    → Fresh h value
    → v < fuel
    → h.assigned.symbol + (v + 3) ≤ m
    → (g : LengthReader) × Ran m value (v + 3) h (reverse (repeat_codes fuel code x v)) g
unfolding reverse Ran repeat_codes
chain zero v m code x value prev h r p l f w b = absurd (omega arith)
chain (suc fuel) v m code x value prev h r p l f w b = elim (Bool-cases (v / 2 ^ x == 0)) [
  | inl e ↦
      let three : v + 3 ≡ suc (v + 2) = omega arith in
      let low = bit_and v (2 ^ x - 1) in
      rw (e, three)
        (
          process m (code, low) h,
          one_repeat m code x value prev low 0 (v + 2) (suc (v + 2)) h r p l (fresh h value f)
              (omega (arith, extend_repeat-none x low, bit_and_mask x v, one_digit v x e))
              (omega arith) (omega (arith, b)),
        )
  | inr e ↦
      let w' = v / 2 ^ x - 1 in
      let k = v - v / 2 ^ x in
      let low = bit_and v (2 ^ x - 1) in
      let less = smaller v x in
      let some = not_zero v x e in
      let (g, (q, a, c, d)) =
        chain fuel w' m code x value prev h r p l f (omega arith) (omega arith) in
      let (t, s, u, y) =
        one_repeat m code x value prev low (w' + 3) k (w' + 3 + suc k) g r (d ∙ p) l
          (same_length g value (w' + 3) c a)
          (omega (arith, extend_repeat-some (v / 2 ^ x) x low some, bit_and_mask x v, digits v x))
          (omega arith) (omega (arith, symbol-replicate (w' + 3) value m h g _ q)) in
      let whole : v + 3 ≡ w' + 3 + suc k = omega arith in
      rw (e, whole, replicate-add (w' + 3) (suc k) value)
        (
          process m (code, low) g,
          (
            Reads-append m h g (process m (code, low) g) (reverse (repeat_codes fuel code x w'))
                ((code, low) ∷ []) (replicate (w' + 3) value) (replicate (suc k) value) q t,
            s,
            u,
            y ∙ d,
          ),
        )
]
