-- ===== src/DecoderRing/Turn.antt =====
-- The ring of decode.go that starts again, and its delivery between the turns.
use native.Mathlib.Nat.{add-mul}
use go_brrr.Prelude.{
  ℕ, ◌+◌, ◌-◌, ◌*◌, ◌^◌, ◌≤◌, ◌<◌, ◌≡◌, min, ap, sym, ◌∙◌, List, length, take, drop, arith, subst,
  length-drop, false, ◌==◌, leb, inl, inr, Bool-cases,
}
use go_brrr.Prelude.Int.{is_negative}
use go_brrr.OutputChunks.{copy_at}
use go_brrr.OutputChunks.Copies.{take-all, length-copy_at}
use go_brrr.DecoderRing.{
  DecodeState, Output, slice, wrap, pending_output, flush_output, consume_output,
}
use go_brrr.DecoderRing.Slices.{length-slice, take-copy_at}
use go_brrr.DecoderRing.IsRing.{IsRing, Received, large, powers, slice-IsRing, delivered_up_to}

-- The bytes in the slack are copied to the front of the ring.
turned-content :
    (history : List ℕ) (s : DecodeState)
    → IsRing history s
    → s.ringbuffer_size ≤ s.pos
    → let left = s.pos - s.ringbuffer_size in
      take left
        (copy_at 0 s.ringbuffer (slice s.ringbuffer_size (s.ringbuffer_size + left) s.ringbuffer))
      ≡ drop ((s.rb_roundtrips + 1) * s.ringbuffer_size) history
turned-content history s h full =
    let turn = s.rb_roundtrips * s.ringbuffer_size in
    let left = s.pos - s.ringbuffer_size in
    let end : s.ringbuffer_size + left ≡ s.pos = omega (arith, full) in
    let src = slice s.ringbuffer_size (s.ringbuffer_size + left) s.ringbuffer in
    let size : length src ≡ left =
      length-slice s.ringbuffer_size (s.ringbuffer_size + left) s.ringbuffer
        (omega (arith, end, h.within, h.room))
      ∙ omega arith in
    let next : turn + s.ringbuffer_size ≡ (s.rb_roundtrips + 1) * s.ringbuffer_size =
      omega (arith, add-mul s.rb_roundtrips 1 s.ringbuffer_size) in
    let span : turn + (s.ringbuffer_size + left) - (turn + s.ringbuffer_size) ≡ left =
      omega arith in
    let after = drop (turn + s.ringbuffer_size) history in
    ap (λ n. take n (copy_at 0 s.ringbuffer src)) (sym size)
    ∙ take-copy_at s.ringbuffer src (omega (arith, size, h.within, h.room))
    ∙ slice-IsRing history s s.ringbuffer_size (s.ringbuffer_size + left) h (omega arith)
        (omega (arith, end))
    ∙ unfold slice in
      ap (λ n. take n after) span
      ∙ take-all left after
          (omega (arith, length-drop (turn + s.ringbuffer_size) history, h.count, full))
      ∙ ap (λ n. drop n history) next

-- A full ring comes out, and none of the bytes is lost.
pub wrap-IsRing :
    (get : ℕ → List ℕ) (size : ℕ) (history : List ℕ) (s : DecodeState) (output : Output)
    → ((k : ℕ) → length (get k) ≡ size)
    → 0 < size
    → IsRing history s
    → s.ringbuffer_size ≤ s.pos
    → 2 ^ s.window_bits ≤ s.ringbuffer_size
    → Received size output (take s.partial_pos_out history)
    → let (s', output') = wrap get s output in
      IsRing history s'
      × (s'.pos < s'.ringbuffer_size)
      × Received size output' (take s'.partial_pos_out history)
unfolding wrap
wrap-IsRing get size history s output g pos h full window e =
    let left = s.pos - s.ringbuffer_size in
    let src = slice s.ringbuffer_size (s.ringbuffer_size + left) s.ringbuffer in
    let next : s.rb_roundtrips * s.ringbuffer_size + s.ringbuffer_size
        ≡ (s.rb_roundtrips + 1) * s.ringbuffer_size =
      omega (arith, add-mul s.rb_roundtrips 1 s.ringbuffer_size) in
    let least : 1024 ≤ s.ringbuffer_size = omega (arith, h.size, large h.exponent h.at_least) in
    (
      record {
        exponent = h.exponent;
        new_exponent = h.new_exponent;
        size = h.size;
        new_size = h.new_size;
        at_least = h.at_least;
        grows = h.grows;
        in_window = h.in_window;
        young =
            λ lt. absurd (omega (arith, powers h.exponent s.window_bits lt, window, h.size, least));
        count = omega (arith, h.count, next, full);
        room = omega (arith, h.room, length-copy_at 0 s.ringbuffer src (omega arith));
        within = omega (arith, h.within);
        content = turned-content history s h full;
        low = omega (arith, next);
        high = omega (arith, next);
      },
      omega (arith, h.within, least),
      delivered_up_to get size history s output s.ringbuffer_size g pos h (omega (arith, h.high))
          full e,
    )

-- A flush delivers all that has been decoded, up to the end of the ring.
pub flush_output-IsRing :
    (get : ℕ → List ℕ) (size : ℕ) (history : List ℕ) (s : DecodeState) (output : Output)
    → ((k : ℕ) → length (get k) ≡ size)
    → 0 < size
    → IsRing history s
    → is_negative s.meta_block_remaining_len ≡ false
    → Received size output (take s.partial_pos_out history)
    → let (s', output') = flush_output get s output in
      let upto = s.rb_roundtrips * s.ringbuffer_size + min s.pos s.ringbuffer_size in
      (s' ≡ record s { partial_pos_out = upto }) × Received size output' (take upto history)
unfolding flush_output pending_output consume_output
flush_output-IsRing get size history s output g pos h rest e =
    let end = min s.pos s.ringbuffer_size in
    let turn = s.rb_roundtrips * s.ringbuffer_size in
    let flushed = s.partial_pos_out - turn in
    let bytes = slice flushed end s.ringbuffer in
    let next =
      delivered_up_to get size history s output end g pos h (omega (arith, h.high)) (omega arith)
        e in
    let count : length bytes ≡ end - flushed =
      length-slice flushed end s.ringbuffer (omega (arith, h.room)) in
    elim (Bool-cases (leb end flushed)) [
      | inl none ↦
          let same : s.partial_pos_out ≡ turn + end = ground (arith, none, h.high, h.low) in
          rw (rest, none)
            (
              ap (λ n. record s { partial_pos_out = n }) same,
              subst (λ n. Received size output (take n history)) same e,
            )
      | inr some ↦
          let more : (length bytes == 0) ≡ false = ground (arith, some, count) in
          let same : s.partial_pos_out + length bytes ≡ turn + end =
            ground (arith, some, count, h.high, h.low) in
          rw (rest, some, more) (ap (λ n. record s { partial_pos_out = n }) same, next)
    ]
