-- ===== src/DecoderRing.antt =====
-- The ring buffer of decode.go in which the decoded bytes stand until they are delivered. The list
-- is the whole array behind the slice, up to its capacity; a negative offset into it, where Go
-- panics, is 0. The mask, which is the size less one, and the arrays that go back to the pool are left
-- out.
pub mod Slices
pub mod IsRing
pub mod Turn
pub mod Growth
pub mod Delivery
use go_brrr.Prelude.{
  ℕ, zero, suc, ◌+◌, ◌-◌, ◌*◌, ◌^◌, min, List, [], ◌∷◌, ◌++◌, ◌==◌, ltb, leb, if◌then◌else◌, length,
  take, drop, set, replicate, Option, some, none, Bool, true, false,
}
use go_brrr.Prelude.Int.{ℤ, is_negative}
use go_brrr.OutputChunks.{ChunkWriter, copy_at, write}

pub record DecodeState : Type 0 where
  pub ringbuffer : List ℕ
  pub ringbuffer_size : ℕ
  pub new_ringbuffer_size : ℕ
  pub pos : ℕ
  pub partial_pos_out : ℕ
  pub rb_roundtrips : ℕ
  pub window_bits : ℕ
  pub meta_block_remaining_len : ℤ
  pub max_distance : ℕ
  pub max_backward_distance : ℕ

abbrev pub ring_buffer_write_ahead_slack : ℕ
ring_buffer_write_ahead_slack = 542

-- Where output goes: to the caller's slice, or to the chunks of the sink.
pub data Output : Type 0 where
  to_slice : List ℕ → Output
  to_sink : ChunkWriter → Output

unfoldable pub emit : (ℕ → List ℕ) → List ℕ → Output → Output
emit get bytes (to_slice out) = to_slice (out ++ bytes)
emit get bytes (to_sink w) = to_sink (write get bytes w)

-- `a[from:to]`.
unfoldable pub slice : ℕ → ℕ → List ℕ → List ℕ
slice from to xs = take (to - from) (drop from xs)

-- What the pool has is given if it is large enough.
unfoldable pub get_dec_ring_buf : Option (List ℕ) → ℕ → List ℕ
get_dec_ring_buf none size = replicate size 0
get_dec_ring_buf (some b) size = if leb size (length b) then b else replicate size 0

unfoldable pub pending_output : DecodeState → List ℕ
pending_output s =
    let end = min s.pos s.ringbuffer_size in
    let flushed = s.partial_pos_out - s.rb_roundtrips * s.ringbuffer_size in
    if is_negative s.meta_block_remaining_len
    then []
    else (if leb end flushed then [] else slice flushed end s.ringbuffer)

unfoldable pub consume_output : ℕ → DecodeState → DecodeState
consume_output n s = record s { partial_pos_out = s.partial_pos_out + n }

unfoldable pub flush_output : (ℕ → List ℕ) → DecodeState → Output → DecodeState × Output
flush_output get s output =
    let pending = pending_output s in
    if length pending == 0
    then (s, output)
    else (consume_output (length pending) s, emit get pending output)

-- The ring in an array that has room for `needed` bytes.
unfoldable pub reserve : Option (List ℕ) → ℕ → DecodeState → List ℕ
reserve pooled needed s =
    if leb needed (length s.ringbuffer)
    then s.ringbuffer
    else copy_at 0 (get_dec_ring_buf pooled needed) (take s.pos s.ringbuffer)

unfoldable pub ensure_ring_buffer : Option (List ℕ) → DecodeState → DecodeState
ensure_ring_buffer pooled s =
    let size = s.new_ringbuffer_size in
    if s.ringbuffer_size == size then s else record s {
      ringbuffer =
          set (set (reserve pooled (size + ring_buffer_write_ahead_slack) s) (size - 2) 0)
            (size - 1) 0;
      ringbuffer_size = size;
    }

-- The loop that doubles the size; none when it has not ended within the fuel.
unfoldable pub grow_size : (fuel : ℕ) → ℕ → ℕ → ℕ → Option ℕ
grow_size zero window at size = none
grow_size (suc fuel) window at size =
    let rest = grow_size fuel window at (min (2 * size) window) in
    if leb size at then rest else some size

unfoldable pub resize : Option (List ℕ) → ℕ → DecodeState → DecodeState
resize pooled size s = if size == s.ringbuffer_size then s else record s {
  ringbuffer = reserve pooled (size + ring_buffer_write_ahead_slack) s;
  ringbuffer_size = size;
  new_ringbuffer_size = size;
}

-- A ring that is smaller than the window grows; there are two rounds of fuel.
unfoldable pub grow_ring : (ℕ → Option (List ℕ)) → DecodeState → Option DecodeState
grow_ring pool s =
    let ensured = ensure_ring_buffer (pool 0) s in
    elim (grow_size 2 (2 ^ ensured.window_bits) ensured.pos ensured.ringbuffer_size) [
      | none ↦ none
      | some size ↦ some (resize (pool 1) size ensured)
    ]

-- A full ring goes out, and starts again with the bytes in the slack.
unfoldable pub wrap : (ℕ → List ℕ) → DecodeState → Output → DecodeState × Output
wrap get s output =
    let turn = s.rb_roundtrips * s.ringbuffer_size in
    let left = s.pos - s.ringbuffer_size in
    (
      record s {
        partial_pos_out = turn + s.ringbuffer_size;
        pos = left;
        rb_roundtrips = s.rb_roundtrips + 1;
        ringbuffer =
            copy_at 0 s.ringbuffer
              (slice s.ringbuffer_size (s.ringbuffer_size + left) s.ringbuffer);
        max_distance = s.max_backward_distance;
      },
      emit get (slice (s.partial_pos_out - turn) s.ringbuffer_size s.ringbuffer) output,
    )

unfoldable pub write_ring_buffer :
    (ℕ → List ℕ) → (ℕ → Option (List ℕ)) → DecodeState → Output → Option (DecodeState × Output)
write_ring_buffer get pool s output =
    if ltb s.pos s.ringbuffer_size
    then some (s, output)
    else (if ltb s.ringbuffer_size (2 ^ s.window_bits)
        then elim (grow_ring pool s) [
          | none ↦ none
          | some g ↦ some (if ltb g.pos g.ringbuffer_size then (g, output) else wrap get g output)
        ]
        else some (wrap get s output))

-- `copy(s.ringbuffer[s.pos:], bytes)` with `s.pos += len(bytes)`, as decoded bytes are stored.
unfoldable pub store : List ℕ → DecodeState → DecodeState
store bytes s = record s {
  ringbuffer = copy_at s.pos s.ringbuffer bytes;
  pos = s.pos + length bytes;
}
