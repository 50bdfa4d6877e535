-- ===== src/Headers/MetaBlock.antt =====
-- decodeMetaBlockLength: the conditions on its machine, termination, and resuming.
use go_brrr.Prelude.{
  ℕ, ◌+◌, ◌-◌, ◌^◌, ◌≤◌, ◌<◌, ◌≡◌, refl, ltb, ◌==◌, ◌&&◌, ◌≢◌, arith, Bool-cases, inl, inr, Bool,
}
use go_brrr.BitReader.{BitReader}
use go_brrr.BitReader.Unread.{IsReader}
use go_brrr.Resumable.{Next, out_of_fuel}
use go_brrr.Resumable.Stream.{IsMachine, IsMachine-Descends, Descends}
use go_brrr.Resumable.Resume.{run-settles}
use go_brrr.Headers.{
  HeaderState, HeaderSubstate, header_none, header_empty, header_nibbles, header_size,
  header_uncompressed, header_reserved, header_bytes, header_metadata, HeaderResult, header_width,
  header_step, size_step, metadata_step, header_machine, enter, leave, decode_meta_block_length,
}

-- Every state's next read is one that the reader can do.
abbrev pub AnyState : HeaderState → Type 0
AnyState s = Unit {0}

pub header_width-narrow : (s : HeaderState) → header_width s ≤ 24
unfolding header_width
header_width-narrow s = narrow s.substate s.i s.size_nibbles s.is_last_metablock s refl
  where
    narrow :
        (b : HeaderSubstate) (i n : ℕ) (l : Bool) (s : HeaderState)
        → s.substate ≡ b
        → header_width s ≤ 24
    narrow header_none i n l s e = rw (header_width, e) (omega arith)
    narrow header_empty i n l s e = rw (header_width, e) (omega arith)
    narrow header_nibbles i n l s e = rw (header_width, e) (omega arith)
    narrow header_size i n l s e = rw (header_width, e) (ground arith)
    narrow header_uncompressed i n l s e = rw (header_width, e) (ground arith)
    narrow header_reserved i n l s e = rw (header_width, e) (omega arith)
    narrow header_bytes i n l s e = rw (header_width, e) (omega arith)
    narrow header_metadata i n l s e = rw (header_width, e) (ground arith)

-- An upper bound on the reads that are left.
unfoldable pub header_rank : HeaderState → ℕ
header_rank s = elim s.substate [
  | header_none ↦ 12
  | header_empty ↦ 11
  | header_nibbles ↦ 10
  | header_size ↦ 1 + (s.size_nibbles - s.i)
  | header_uncompressed ↦ 0
  | header_reserved ↦ 9
  | header_bytes ↦ 8
  | header_metadata ↦ s.size_nibbles - s.i
]

-- A state by its fields.
abbrev pub at_counter :
    ℕ → HeaderSubstate → Bool → Bool → Bool → (remaining_len size_nibbles i : ℕ) → HeaderState
at_counter counter b last uncompressed metadata remaining size i = record {
  substate = b;
  is_last_metablock = last;
  is_uncompressed = uncompressed;
  is_metadata = metadata;
  remaining_len = remaining;
  size_nibbles = size;
  loop_counter = counter;
  i = i;
}

abbrev pub at :
    HeaderSubstate → Bool → Bool → Bool → (remaining_len size_nibbles i : ℕ) → HeaderState
at = at_counter 0

abbrev Down : HeaderState → Next HeaderState HeaderResult → Type 0
Down = Descends AnyState header_rank

down :
    (c : ℕ) (b : HeaderSubstate) (l u m : Bool) (n k i v : ℕ)
    → v < 2 ^ header_width (at_counter c b l u m n k i)
    → Down (at_counter c b l u m n k i) (header_step (at_counter c b l u m n k i) v)
unfolding header_step header_rank header_width size_step metadata_step
down c header_none l u m n k i v lt = elim (Bool-cases (v == 0)) [
  | inl e ↦ rw e (tt, omega arith)
  | inr e ↦ rw e (tt, omega arith)
]
down c header_empty l u m n k i v lt = elim (Bool-cases (v == 0)) [
  | inl e ↦ rw e (tt, omega arith)
  | inr e ↦ rw e tt
]
down c header_nibbles l u m n k i v lt = elim (Bool-cases (v == 3)) [
  | inl e ↦ rw e (tt, omega arith)
  | inr e ↦ rw e (tt, omega arith)
]
down c header_size l u m n k i v lt = elim (Bool-cases (ltb i k)) [
  | inl e ↦ elim (Bool-cases ((i + 1 == k) && ltb 4 k && (v == 0))) [
    | inl d ↦ rw (e, d) tt
    | inr d ↦ rw (e, d) (tt, ground arith)
  ]
  | inr e ↦ rw e (tt, omega arith)
]
down c header_uncompressed l u m n k i v lt = tt
down c header_reserved l u m n k i v lt = elim (Bool-cases (v == 0)) [
  | inl e ↦ rw e (tt, omega arith)
  | inr e ↦ rw e tt
]
down c header_bytes l u m n k i v lt = elim (Bool-cases (v == 0)) [
  | inl e ↦ rw e tt
  | inr e ↦ rw e (tt, omega arith)
]
down c header_metadata l u m n k i v lt = elim (Bool-cases (ltb i k)) [
  | inl e ↦ elim (Bool-cases ((i + 1 == k) && ltb 1 k && (v == 0))) [
    | inl d ↦ rw (e, d) tt
    | inr d ↦ rw (e, d) (tt, ground arith)
  ]
  | inr e ↦ rw e tt
]

pub header_machine-IsMachine : IsMachine header_machine AnyState header_rank
header_machine-IsMachine =
    IsMachine-Descends header_machine AnyState header_rank (λ s ok. header_width-narrow s)
      (λ s v ok lt.
        down s.loop_counter s.substate s.is_last_metablock s.is_uncompressed s.is_metadata
          s.remaining_len s.size_nibbles s.i v lt)

-- From the start of a header the decoder never runs out of fuel: it succeeds, refuses the header,
-- or asks for more input.
pub decode_meta_block_length-settles :
    (s : HeaderState) (br : BitReader)
    → s.substate ≡ header_none
    → IsReader br
    → (decode_meta_block_length s br).0 ≢ out_of_fuel
unfolding decode_meta_block_length header_rank leave enter
decode_meta_block_length-settles s br e v =
    run-settles header_machine AnyState header_rank header_machine-IsMachine 16 (enter s) br tt v
      (rw (header_rank, e) (omega arith))
