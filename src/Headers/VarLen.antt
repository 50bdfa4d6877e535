-- ===== src/Headers/VarLen.antt =====
-- storeVarLenUint8 and decodeVarLenUint8.
use native.Mathlib.Nat.{pow-suc, pow-le-pow_right}
use go_brrr.Prelude.{
  ℕ, zero, suc, ◌+◌, ◌-◌, ◌^◌, ◌≤◌, ◌<◌, ◌≡◌, List, [], ◌∷◌, ◌++◌, ◌==◌, if◌then◌else◌, some, arith,
  ap, sym, ◌∙◌, All, Bool-cases, inl, inr, false, lt-cases,
}
use go_brrr.Prelude.BitOps.{bit_len, bit_len_bounds}
use go_brrr.Prelude.BitStream.{to_bits}
use go_brrr.BitReader.{BitReader}
use go_brrr.BitReader.Unread.{unread, IsReader}
use go_brrr.BitWriter.{BitWriter}
use go_brrr.BitWriter.Written.{Written, HasRoom}
use go_brrr.BitWriter.Fields.{
  write_fields, field_bits, width, IsField, write_fields-Written, write_fields-one,
  write_fields-bind,
}
use go_brrr.Resumable.{done}
use go_brrr.Resumable.Stream.{IsMachine, IsMachine-Descends, Descends, run_stream, after_step}
use go_brrr.Resumable.Resume.{outcome, viewed}
use go_brrr.Resumable.ReadFields.{run_stream-field}
use go_brrr.Headers.{
  Uint8State, Uint8Substate, uint8_none, uint8_short, uint8_long, uint8_width, uint8_step,
  uint8_machine, decode_var_len_uint8, store_var_len_uint8,
}

-- A state whose next read is one that the reader can do.
abbrev pub IsUint8State : Uint8State → Type 0
IsUint8State s = uint8_width s ≤ 24

abbrev uint8_rank : Uint8State → ℕ
uint8_rank s = elim s.substate [ uint8_none ↦ 2 | uint8_short ↦ 1 | uint8_long ↦ 0 ]

pub uint8_machine-IsMachine : IsMachine uint8_machine IsUint8State uint8_rank
unfolding uint8_width uint8_step
uint8_machine-IsMachine =
    IsMachine-Descends uint8_machine IsUint8State uint8_rank (λ s ok. ok)
      (λ s v ok lt. case s.substate s.value v ok lt)
  where
    case :
        (b : Uint8Substate) (x v : ℕ)
        → IsUint8State record { substate = b; value = x }
        → v < 2 ^ uint8_width record { substate = b; value = x }
        → Descends IsUint8State uint8_rank
            record { substate = b; value = x }
            (uint8_step record { substate = b; value = x } v)
    case uint8_none x v ok lt = elim (Bool-cases (v == 0)) [
      | inl e ↦ rw e tt
      | inr e ↦ rw e (omega arith, omega arith)
    ]
    case uint8_short x v ok lt = elim (Bool-cases (v == 0)) [
      | inl e ↦ rw e tt
      | inr e ↦ rw e (omega arith, omega arith)
    ]
    case uint8_long x v ok lt = tt

-- The fields of a value.
unfoldable pub uint8_fields : ℕ → List (ℕ × ℕ)
uint8_fields n =
    if n == 0
    then (1, 0) ∷ []
    else (let nbits = bit_len n - 1 in (1, 1) ∷ (3, nbits) ∷ (nbits, n - 2 ^ nbits) ∷ [])

store-write_fields :
    (n : ℕ) (b : BitWriter) → store_var_len_uint8 n b ≡ write_fields (uint8_fields n) b
unfolding store_var_len_uint8 uint8_fields
store-write_fields n b = elim (Bool-cases (n == 0)) [
  | inl e ↦ rw e (write_fields-one 1 0 b)
  | inr e ↦
      let k = bit_len n - 1 in
      rw e (
        write_fields-bind 1 1 _ _ b
          (λ b1. write_fields-bind 3 k _ _ b1 (λ b2. write_fields-one k (n - 2 ^ k) b2)))
]

-- The value's digits: their number fits in three bits.
digits :
    (n : ℕ)
    → n < 256
    → (n == 0) ≡ false
    → (k : ℕ) × (bit_len n - 1 ≡ k) × (k < 8) × (2 ^ k ≤ n) × (n < 2 ^ suc k)
digits n h e =
    let (k, len, lt, lo, hi) = bit_len_bounds n (ground arith) (omega arith) in
    (k, omega arith, small k lo, lo, hi)
  where
    small : (k : ℕ) → 2 ^ k ≤ n → k < 8
    small k lo = elim (lt-cases k 8) [
      | inl less ↦ less
      | inr more ↦
          let wide : 2 ^ 8 ≤ 2 ^ k = pow-le-pow_right {n = 2} (omega arith) more in
          absurd (omega (arith, wide))
    ]

fields_ok : (n : ℕ) → n < 256 → All IsField (uint8_fields n) × (width (uint8_fields n) ≤ 11)
unfolding uint8_fields width
fields_ok n h = elim (Bool-cases (n == 0)) [
  | inl e ↦ rw e (((omega arith, omega arith), tt), omega arith)
  | inr e ↦
      let (k, len, lt, lo, hi) = digits n h e in
      rw (e, len)
        (
          (
            (omega arith, omega arith),
            ((omega arith, omega arith), ((omega arith, omega (arith, pow-suc 2 k)), tt)),
          ),
          omega arith,
        )
]

abbrev state : Uint8Substate → ℕ → Uint8State
state b x = record { substate = b; value = x }

-- The last two reads, of k bits for the number of the digits, then of the digits.
decode_long :
    (n k x : ℕ) (rest : List ℕ)
    → k < 8
    → 2 ^ k ≤ n
    → n < 2 ^ suc k
    → run_stream uint8_machine 3
        (state uint8_short x)
        (field_bits ((3, k) ∷ (k, n - 2 ^ k) ∷ []) ++ rest)
      ≡ (done tt, (state uint8_none n, rest))
unfolding uint8_width uint8_step after_step field_bits to_bits
decode_long n zero x rest lt lo hi =
    run_stream-field uint8_machine 2 (state uint8_short x) 0 ((0, n - 1) ∷ []) rest (omega arith)
    ∙ ap (λ (v : ℕ). (done tt, (state uint8_none v, rest))) (omega arith)
decode_long n (suc k) x rest lt lo hi =
    let long : (suc k == 0) ≡ false = ground arith in
    run_stream-field uint8_machine 2 (state uint8_short x) (suc k) ((suc k, n - 2 ^ suc k) ∷ [])
      rest (omega arith)
    ∙ rw long (
        run_stream-field uint8_machine 1 (state uint8_long (suc k)) (n - 2 ^ suc k) [] rest
          (omega (arith, pow-suc 2 (suc k)))
        ∙ ap (λ (v : ℕ). (done tt, (state uint8_none v, rest))) {x = 2 ^ suc k + (n - 2 ^ suc k)}
            {y = n} (omega arith))

decode_fields :
    (n x : ℕ) (rest : List ℕ)
    → n < 256
    → run_stream uint8_machine 4 (state uint8_none x) (field_bits (uint8_fields n) ++ rest)
      ≡ (done tt, (state uint8_none n, rest))
unfolding uint8_fields uint8_width uint8_step after_step field_bits
decode_fields n x rest h = elim (Bool-cases (n == 0)) [
  | inl e ↦ rw e (
      run_stream-field uint8_machine 3 (state uint8_none x) 0 [] rest (omega arith)
      ∙ ap (λ (v : ℕ). (done tt, (state uint8_none v, rest))) (ground arith))
  | inr e ↦
      let (k, len, lt, lo, hi) = digits n h e in
      rw (e, len)
        (run_stream-field uint8_machine 3 (state uint8_none x) 1 ((3, k) ∷ (k, n - 2 ^ k) ∷ []) rest
            (omega arith)
          ∙ decode_long n k x rest lt lo hi)
]

-- For a value below 256 and a buffer with room, storeVarLenUint8 appends the bits of its fields,
-- and decodeVarLenUint8 reads the value from these bits and leaves the ones that follow.
pub decode-store_var_len_uint8 :
    (n x : ℕ) (b : BitWriter) (br : BitReader) (bits rest : List ℕ)
    → n < 256
    → Written b bits
    → HasRoom b 11
    → IsReader br
    → unread br ≡ field_bits (uint8_fields n) ++ rest
    → ((b' : BitWriter) × (store_var_len_uint8 n b ≡ some b')
        × Written b' (bits ++ field_bits (uint8_fields n)))
      × (outcome (decode_var_len_uint8 record { substate = uint8_none; value = x } br)
          ≡ (done tt, (record { substate = uint8_none; value = n }, rest)))
unfolding decode_var_len_uint8
decode-store_var_len_uint8 n x b br bits rest h w room v u =
    let (ok, narrow) = fields_ok n h in
    let (b', e, w', l, o) =
      write_fields-Written (uint8_fields n) b bits w ok (omega (arith, room)) in
    (
      (b', store-write_fields n b ∙ e, w'),
      sym (viewed uint8_machine IsUint8State uint8_rank uint8_machine-IsMachine 4 _ br one v)
          ∙ ap (run_stream uint8_machine 4 (state uint8_none x)) u
          ∙ decode_fields n x rest h,
    )
  where
    one : uint8_width (state uint8_none x) ≤ 24
    one = unfold uint8_width in omega arith
