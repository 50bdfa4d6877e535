-- ===== src/DecoderRing/IsRing.antt =====
-- What the ring buffer of decode.go holds of the bytes decoded so far.
use native.Mathlib.Nat.{pow-suc, pow-le-pow_right}
use go_brrr.Prelude.{
  ℕ, suc, ◌+◌, ◌-◌, ◌*◌, ◌^◌, ◌≤◌, ◌<◌, ◌≡◌, min, ap, sym, ◌∙◌, List, ◌++◌, length, take, drop,
  arith, subst,
}
use go_brrr.OutputChunks.{write}
use go_brrr.OutputChunks.Filled.{Holds, write_from-Holds}
use go_brrr.DecoderRing.{DecodeState, Output, to_slice, to_sink, emit, slice}
use go_brrr.DecoderRing.Slices.{slice-take, slice-drop, take-slice}

-- The decoded bytes since the ring started again are at its front; those up to
-- `partial_pos_out` have been delivered. The sizes are powers of two, and no
-- ring starts again before it is as large as the window.
pub record IsRing (history : List ℕ) (s : DecodeState) : Type 0 where
  pub exponent : ℕ
  pub new_exponent : ℕ
  pub size : s.ringbuffer_size ≡ 2 ^ exponent
  pub new_size : s.new_ringbuffer_size ≡ 2 ^ new_exponent
  pub at_least : 10 ≤ exponent
  pub grows : exponent ≤ new_exponent
  pub in_window : new_exponent ≤ s.window_bits
  pub young : exponent < s.window_bits → s.rb_roundtrips ≡ 0
  pub count : length history ≡ s.rb_roundtrips * s.ringbuffer_size + s.pos
  pub room : s.ringbuffer_size + 542 ≤ length s.ringbuffer
  pub within : s.pos ≤ s.ringbuffer_size + 542
  pub content : take s.pos s.ringbuffer ≡ drop (s.rb_roundtrips * s.ringbuffer_size) history
  pub low : s.rb_roundtrips * s.ringbuffer_size ≤ s.partial_pos_out
  pub high : s.partial_pos_out ≤ s.rb_roundtrips * s.ringbuffer_size + min s.pos s.ringbuffer_size

-- The bytes that have come out, with the size of the sink's chunks.
unfoldable pub Received : ℕ → Output → List ℕ → Type 0
Received size (to_slice out) bytes = out ≡ bytes
Received size (to_sink w) bytes = Holds size w bytes

pub emit-Received :
    (get : ℕ → List ℕ) (size : ℕ) (output : Output) (before bytes : List ℕ)
    → ((k : ℕ) → length (get k) ≡ size)
    → 0 < size
    → Received size output before
    → Received size (emit get bytes output) (before ++ bytes)
unfolding emit Received write
emit-Received get size (to_slice out) before bytes g h e = ap (λ xs. xs ++ bytes) e
emit-Received get size (to_sink w) before bytes g h e =
    write_from-Holds get size (length bytes) bytes w before g h (omega arith) e

pub powers : (i j : ℕ) → i < j → 2 * 2 ^ i ≤ 2 ^ j
powers i j h =
    let step : 2 ^ suc i ≤ 2 ^ j = pow-le-pow_right (omega arith) (omega (arith, h)) in
    omega (arith, step, pow-suc 2 i)

pub large : (i : ℕ) → 10 ≤ i → 1024 ≤ 2 ^ i
large i h = pow-le-pow_right {n = 2} (omega arith) {i = 10} {j = i} h

-- What stands in the ring is what was decoded.
pub slice-IsRing :
    (history : List ℕ) (s : DecodeState) (from to : ℕ)
    → IsRing history s
    → from ≤ to
    → to ≤ s.pos
    → let turn = s.rb_roundtrips * s.ringbuffer_size in
      slice from to s.ringbuffer ≡ slice (turn + from) (turn + to) history
slice-IsRing history s from to h le within =
    let turn = s.rb_roundtrips * s.ringbuffer_size in
    sym (slice-take from to s.pos s.ringbuffer le within)
    ∙ ap (slice from to) h.content
    ∙ slice-drop turn from to history

-- What is delivered next follows what has been.
pub delivered_up_to :
    (get : ℕ → List ℕ) (size : ℕ) (history : List ℕ) (s : DecodeState) (output : Output) (to : ℕ)
    → ((k : ℕ) → length (get k) ≡ size)
    → 0 < size
    → IsRing history s
    → let turn = s.rb_roundtrips * s.ringbuffer_size in
      s.partial_pos_out - turn ≤ to
      → to ≤ s.pos
      → Received size output (take s.partial_pos_out history)
      → Received size
          (emit get (slice (s.partial_pos_out - turn) to s.ringbuffer) output)
          (take (turn + to) history)
delivered_up_to get size history s output to g pos h le within e =
    let turn = s.rb_roundtrips * s.ringbuffer_size in
    let from = s.partial_pos_out - turn in
    let bytes = slice from to s.ringbuffer in
    let start : turn + from ≡ s.partial_pos_out = omega (arith, h.low) in
    let next : take s.partial_pos_out history ++ bytes ≡ take (turn + to) history =
      ap (λ xs. take s.partial_pos_out history ++ xs)
        (slice-IsRing history s from to h le within ∙ ap (λ k. slice k (turn + to) history) start)
      ∙ take-slice s.partial_pos_out (turn + to) history (omega (arith, start, le)) in
    subst (Received size (emit get bytes output)) next
      (emit-Received get size output (take s.partial_pos_out history) bytes g pos e)
