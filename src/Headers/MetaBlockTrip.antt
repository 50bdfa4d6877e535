-- ===== src/Headers/MetaBlockTrip.antt =====
-- writeMetaBlockHeader, read back by decodeMetaBlockLength.
use go_brrr.Prelude.{
  ℕ, suc, ◌+◌, ◌-◌, ◌*◌, ◌^◌, ◌≤◌, ◌<◌, ◌≡◌, refl, List, [], ◌∷◌, ◌++◌, ltb, ◌==◌, ◌&&◌, arith, ap,
  sym, ◌∙◌, true, false, Bool, some, if◌then◌else◌, not, All, append_assoc,
}
use go_brrr.Prelude.BitStream.{to_bits}
use go_brrr.BitReader.{BitReader}
use go_brrr.BitReader.Unread.{unread, IsReader}
use go_brrr.BitWriter.{BitWriter}
use go_brrr.BitWriter.Written.{Written, HasRoom}
use go_brrr.BitWriter.Fields.{
  write_fields, field_bits, width, IsField, write_fields-Written, write_fields-one,
  write_fields-bind,
}
use go_brrr.Resumable.{done}
use go_brrr.Resumable.Stream.{run_stream, after_step}
use go_brrr.Resumable.ReadFields.{run_stream-next}
use go_brrr.Resumable.Resume.{outcome, viewed}
use go_brrr.Headers.{
  HeaderState, leave, leave_state, enter, header_none, header_empty, header_nibbles, header_size,
  header_uncompressed, header_success, header_machine, header_width, header_step, size_step,
  decode_meta_block_length, MlenEncoding, encode_mlen, write_meta_block_header,
}
use go_brrr.Headers.MetaBlock.{at_counter, at, AnyState, header_rank, header_machine-IsMachine}
use go_brrr.Headers.Mlen.{Mlen, encode_mlen-Mlen}
use go_brrr.Headers.Nibbles.{nibbles, nibbles-to_bits, size_loop}

-- The fields of a header.
unfoldable pub header_fields : ℕ → Bool → Bool → List (ℕ × ℕ)
header_fields length is_last uncompressed =
    let e = encode_mlen length in
    if is_last
    then (1, 1) ∷ (1, 0) ∷ (2, e.nibble_bits) ∷ (e.num_bits, e.mlen_bits) ∷ []
    else (1, 0)
      ∷ (2, e.nibble_bits)
      ∷ (e.num_bits, e.mlen_bits)
      ∷ (1, if uncompressed then 1 else 0)
      ∷ []

pub write-write_fields :
    (length : ℕ) (is_last uncompressed : Bool) (b : BitWriter)
    → write_meta_block_header length is_last uncompressed b
      ≡ write_fields (header_fields length is_last uncompressed) b
unfolding write_meta_block_header header_fields
write-write_fields length true u b = write_fields-bind 1 1 _ _ b (λ b.
    write_fields-bind 1 0 _ _ b (λ b. write_fields-bind 2 _ _ _ b (λ b. write_fields-one _ _ b)))
write-write_fields length false u b = write_fields-bind 1 0 _ _ b (λ b.
    write_fields-bind 2 _ _ _ b (λ b. write_fields-bind _ _ _ _ b (λ b. write_fields-one 1 _ b)))

-- After the length: the flag of a block that is not the last.
tail_fields : Bool → Bool → List (ℕ × ℕ)
tail_fields true u = []
tail_fields false u = (1, if u then 1 else 0) ∷ []

decode_tail :
    (last u : Bool) (w size fuel : ℕ) (rest : List ℕ)
    → run_stream header_machine
        (suc (suc fuel))
        (at header_size last false false w size size)
        (field_bits (tail_fields last u) ++ rest)
      ≡ (done header_success, (at header_none last (not last && u) false (w + 1) size size, rest))
unfolding field_bits tail_fields header_step header_width size_step after_step to_bits
decode_tail true u w size fuel rest =
    run_stream-next header_machine (suc fuel) (at header_size true false false w size size) 0 0 []
      rest (rw over refl) (omega arith)
    ∙ rw over (
        run_stream-next header_machine fuel (at header_uncompressed true false false w size size) 0
          0 [] rest refl (omega arith))
  where
    over : ltb size size ≡ false
    over = ground arith
decode_tail false u w size fuel rest = flag u
  where
    over : ltb size size ≡ false
    over = ground arith

    flag :
        (u : Bool)
        → run_stream header_machine
            (suc (suc fuel))
            (at header_size false false false w size size)
            (field_bits (tail_fields false u) ++ rest)
          ≡ (done header_success, (at header_none false u false (w + 1) size size, rest))
    flag true =
        run_stream-next header_machine (suc fuel) (at header_size false false false w size size) 0 0
          ((1, 1) ∷ []) rest (rw over refl) (omega arith)
        ∙ rw over (
            run_stream-next header_machine fuel
              (at header_uncompressed false false false w size size) 1 1 [] rest refl (omega arith))
    flag false =
        run_stream-next header_machine (suc fuel) (at header_size false false false w size size) 0 0
          ((1, 0) ∷ []) rest (rw over refl) (omega arith)
        ∙ rw over (
            run_stream-next header_machine fuel
              (at header_uncompressed false false false w size size) 1 0 [] rest refl (omega arith))

-- The length's field and what follows, from the state that the number of nibbles leaves.
decode_length :
    (last u : Bool) (length fuel : ℕ) (e : MlenEncoding) (rest : List ℕ) (h : Mlen length e)
    → run_stream header_machine
        (h.size + suc (suc fuel))
        (at header_size last false false 0 (e.nibble_bits + 4) 0)
        (field_bits ((e.num_bits, e.mlen_bits) ∷ tail_fields last u) ++ rest)
      ≡ (
        done header_success,
        (at header_none last (not last && u) false (length - 1 + 1) h.size h.size, rest),
      )
unfolding field_bits
decode_length last u length fuel e rest h =
    let four : h.size - 4 + 4 ≡ h.size = omega (arith, h.least) in
    let whole : 0 + (length - 1) * 2 ^ (0 * 4) ≡ length - 1 = omega arith in
    rw (h.num_eq, h.bits_eq, h.nibble_eq, four, nibbles-to_bits h.size (length - 1))
      (ap
          (run_stream header_machine (h.size + suc (suc fuel))
            (at header_size last false false 0 h.size 0))
          (append_assoc (field_bits (nibbles h.size (length - 1))) (field_bits (tail_fields last u))
            rest)
        ∙ size_loop h.size 0 h.size 0 (length - 1) (suc (suc fuel)) last false false
            (field_bits (tail_fields last u) ++ rest) (omega arith) (omega arith) h.bits_lt h.top
        ∙ rw whole (decode_tail last u (length - 1) h.size fuel rest))

-- The whole header.
decode_header :
    (last u m f : Bool) (c n k i length : ℕ) (x : Bool) (rest : List ℕ)
    (h : Mlen length (encode_mlen length))
    → run_stream header_machine 16
        (at_counter c header_none x m f n k i)
        (field_bits (header_fields length last u) ++ rest)
      ≡ (
        done header_success,
        (at header_none last (not last && u) false (length - 1 + 1) h.size h.size, rest),
      )
unfolding header_fields header_step after_step tail_fields header_width
decode_header true u m f c n k i length x rest h =
    let nib = (encode_mlen length).nibble_bits in
    run_stream-next header_machine 15 (at_counter c header_none x m f n k i) 1 1 _ rest refl
      (omega arith)
    ∙ run_stream-next header_machine 14 (at_counter c header_empty true false false 0 k i) 1 0 _
        rest refl (omega arith)
    ∙ run_stream-next header_machine 13 (at_counter c header_nibbles true false false 0 k i) 2 nib _
        rest refl (omega (arith, h.nibble_eq, h.most))
    ∙ rw (few, fuel) (decode_length true u length (11 - h.size) (encode_mlen length) rest h)
  where
    few : ((encode_mlen length).nibble_bits == 3) ≡ false
    few = ground (arith, h.nibble_eq, h.most)

    fuel : 13 ≡ h.size + suc (suc (11 - h.size))
    fuel = omega (arith, h.most)
decode_header false u m f c n k i length x rest h =
    let nib = (encode_mlen length).nibble_bits in
    run_stream-next header_machine 15 (at_counter c header_none x m f n k i) 1 0 _ rest refl
      (omega arith)
    ∙ run_stream-next header_machine 14 (at_counter c header_nibbles false false false 0 k i) 2 nib
        _ rest refl (omega (arith, h.nibble_eq, h.most))
    ∙ rw (few, fuel) (decode_length false u length (12 - h.size) (encode_mlen length) rest h)
  where
    few : ((encode_mlen length).nibble_bits == 3) ≡ false
    few = ground (arith, h.nibble_eq, h.most)

    fuel : 14 ≡ h.size + suc (suc (12 - h.size))
    fuel = omega (arith, h.most)

pub fields_ok :
    (length : ℕ) (last u : Bool)
    → Mlen length (encode_mlen length)
    → All IsField (header_fields length last u) × (width (header_fields length last u) ≤ 28)
unfolding header_fields width
fields_ok length true u h = (
  (
    (omega arith, omega arith),
    (
      (omega arith, omega arith),
      (
        (omega arith, omega (arith, h.nibble_eq, h.most)),
        ((omega (arith, h.num_eq, h.most), rw (h.num_eq, h.bits_eq) h.bits_lt), tt),
      ),
    ),
  ),
  omega (arith, h.num_eq, h.most),
)
fields_ok length false u h = (
  (
    (omega arith, omega arith),
    (
      (omega arith, omega (arith, h.nibble_eq, h.most)),
      (
        (omega (arith, h.num_eq, h.most), rw (h.num_eq, h.bits_eq) h.bits_lt),
        ((omega arith, ground arith), tt),
      ),
    ),
  ),
  omega (arith, h.num_eq, h.most),
)

-- What a decoded header says of its meta-block.
pub record Describes (length : ℕ) (last uncompressed : Bool) (s : HeaderState) : Type 0 where
  pub at_start : s.substate ≡ header_none
  pub length_eq : s.remaining_len ≡ length
  pub last_eq : s.is_last_metablock ≡ last
  pub uncompressed_eq : s.is_uncompressed ≡ (not last && uncompressed)
  pub not_metadata : s.is_metadata ≡ false

-- For a length from 1 to 2 ^ 24 and a buffer with room, writeMetaBlockHeader appends the bits of
-- its fields; and decodeMetaBlockLength, at the start of a header, succeeds on these bits, finds
-- the length and the flags, and leaves the bits that follow.
pub decode-write_meta_block_header :
    (length : ℕ) (last uncompressed : Bool) (s : HeaderState) (b : BitWriter) (br : BitReader)
    (bits rest : List ℕ)
    → 0 < length
    → length ≤ 2 ^ 24
    → Written b bits
    → HasRoom b 28
    → IsReader br
    → unread br ≡ field_bits (header_fields length last uncompressed) ++ rest
    → ((b' : BitWriter) × (write_meta_block_header length last uncompressed b ≡ some b')
        × Written b' (bits ++ field_bits (header_fields length last uncompressed)))
      × ((s' : HeaderState) × (outcome
              (decode_meta_block_length record s { substate = header_none } br)
            ≡ (done header_success, (s', rest)))
          × Describes length last uncompressed s')
unfolding decode_meta_block_length leave leave_state enter
decode-write_meta_block_header length last u s b br bits rest p h w room v e =
    let mlen = encode_mlen-Mlen length p h in
    let (ok, narrow) = fields_ok length last u mlen in
    let (b', run, w', l, o) =
      write_fields-Written (header_fields length last u) b bits w ok
        (omega (arith, room, narrow)) in
    (
      (b', write-write_fields length last u b ∙ run, w'),
      (
        at header_none last (not last && u) false (length - 1 + 1) mlen.size 0,
        ap leave (
            sym (viewed header_machine AnyState header_rank header_machine-IsMachine 16 _ br tt v)
            ∙ ap (run_stream header_machine 16 (enter record s { substate = header_none })) e
            ∙ decode_header last u s.is_uncompressed s.is_metadata s.loop_counter s.remaining_len
                s.size_nibbles s.loop_counter length s.is_last_metablock rest mlen),
        record {
          at_start = refl;
          length_eq = omega arith;
          last_eq = refl;
          uncompressed_eq = refl;
          not_metadata = refl;
        },
      ),
    )
