-- ===== src/DecoderRing/Delivery.antt =====
-- All that is stored in the ring of decode.go comes out once and in order.
use mathlib.Core.Option.{some-injective}
use go_brrr.Prelude.{
  ℕ, zero, suc, ◌+◌, ◌-◌, ◌*◌, ◌≤◌, ◌<◌, ◌≡◌, min, refl, ap, ap₂, sym, ◌∙◌, List, [], ◌∷◌, ◌++◌,
  length, take, drop, arith, Option, some, false, subst, length-append,
}
use go_brrr.Prelude.Int.{is_negative}
use go_brrr.OutputChunks.{copy_at}
use go_brrr.OutputChunks.Copies.{take-all, copy_at-front, length-copy_at}
use go_brrr.DecoderRing.{DecodeState, Output, store, write_ring_buffer, flush_output}
use go_brrr.DecoderRing.IsRing.{IsRing, Received}
use go_brrr.DecoderRing.Turn.{flush_output-IsRing}
use go_brrr.DecoderRing.Growth.{write_ring_buffer-IsRing}

drop-append : (n : ℕ) (xs ys : List ℕ) → n ≤ length xs → drop n (xs ++ ys) ≡ drop n xs ++ ys
drop-append zero xs ys h = refl
drop-append (suc n) [] ys h = absurd (omega arith)
drop-append (suc n) (x ∷ xs) ys h = drop-append n xs ys (omega arith)

take-append : (n : ℕ) (xs ys : List ℕ) → n ≤ length xs → take n (xs ++ ys) ≡ take n xs
take-append zero xs ys h = refl
take-append (suc n) [] ys h = absurd (omega arith)
take-append (suc n) (x ∷ xs) ys h = ap (λ zs. x ∷ zs) (take-append n xs ys (omega arith))

-- Bytes that fit in the ring and its slack are stored behind the others.
store-IsRing :
    (bytes history : List ℕ) (s : DecodeState)
    → IsRing history s
    → s.pos + length bytes ≤ s.ringbuffer_size + 542
    → IsRing (history ++ bytes) (store bytes s)
unfolding store
store-IsRing bytes history s h fits =
    let turn = s.rb_roundtrips * s.ringbuffer_size in
    let copied : min (length s.ringbuffer - s.pos) (length bytes) ≡ length bytes =
      omega (arith, fits, h.room) in
    record {
      exponent = h.exponent;
      new_exponent = h.new_exponent;
      size = h.size;
      new_size = h.new_size;
      at_least = h.at_least;
      grows = h.grows;
      in_window = h.in_window;
      young = h.young;
      count = omega (arith, h.count, length-append history bytes);
      room =
          omega
            (arith, h.room, length-copy_at s.pos s.ringbuffer bytes (omega (arith, h.room, fits)));
      within = fits;
      content =
          ap (λ n. take (s.pos + n) (copy_at s.pos s.ringbuffer bytes)) (sym copied)
          ∙ copy_at-front s.pos s.ringbuffer bytes (omega (arith, h.room, fits))
          ∙ ap₂ (λ xs ys. xs ++ ys) h.content
              (ap (λ n. take n bytes) copied ∙ take-all (length bytes) bytes (omega arith))
          ∙ sym (drop-append turn history bytes (omega (arith, h.count)));
      low = h.low;
      high = omega (arith, h.high);
    }

stored-Received :
    (size : ℕ) (bytes history : List ℕ) (s : DecodeState) (o : Output)
    → s.partial_pos_out ≤ length history
    → Received size o (take s.partial_pos_out history)
    → Received size o (take (store bytes s).partial_pos_out (history ++ bytes))
unfolding store
stored-Received size bytes history s o h e =
    subst (Received size o) (sym (take-append s.partial_pos_out history bytes h)) e

delivered-IsRing :
    (history : List ℕ) (s : DecodeState)
    → IsRing history s
    → IsRing history record s {
      partial_pos_out = s.rb_roundtrips * s.ringbuffer_size + min s.pos s.ringbuffer_size;
    }
delivered-IsRing history s h = record {
  exponent = h.exponent;
  new_exponent = h.new_exponent;
  size = h.size;
  new_size = h.new_size;
  at_least = h.at_least;
  grows = h.grows;
  in_window = h.in_window;
  young = h.young;
  count = h.count;
  room = h.room;
  within = h.within;
  content = h.content;
  low = omega arith;
  high = omega arith;
}

module _ (get : ℕ → List ℕ) (pool : ℕ → Option (List ℕ)) (s0 : DecodeState) (o0 : Output) where
  -- What the decoder does with its ring: it stores bytes, calls writeRingBuffer when it may be
  -- full, and flushes at any time. The list has all bytes stored so far.
  pub data Reaches : List ℕ → DecodeState → Output → Type 0 where
    begun : Reaches [] s0 o0
    stored :
        {history : List ℕ} {s : DecodeState} {o : Output} (bytes : List ℕ)
        → Reaches history s o
        → s.pos + length bytes ≤ s.ringbuffer_size + 542
        → Reaches (history ++ bytes) (store bytes s) o
    written :
        {history : List ℕ} {s s' : DecodeState} {o o' : Output}
        → Reaches history s o
        → write_ring_buffer get pool s o ≡ some (s', o')
        → Reaches history s' o'
    flushed :
        {history : List ℕ} {s : DecodeState} {o : Output}
        → Reaches history s o
        → is_negative s.meta_block_remaining_len ≡ false
        → Reaches history (flush_output get s o).0 (flush_output get s o).1

  module _ (size : ℕ) (buffers : (k : ℕ) → length (get k) ≡ size) (chunked : 0 < size)
      (empty : IsRing [] s0) (received : Received size o0 []) where
    Reaches-IsRing :
        {history : List ℕ} {s : DecodeState} {o : Output}
        → Reaches history s o
        → IsRing history s × Received size o (take s.partial_pos_out history)
    Reaches-IsRing begun = (
      empty,
      subst (Received size o0) (sym (take-all s0.partial_pos_out [] (omega arith))) received,
    )
    Reaches-IsRing (stored {history} {s} {o} bytes r fits) =
        let (h, e) = Reaches-IsRing r in
        let within : s.partial_pos_out ≤ length history = omega (arith, h.high, h.count) in
        (store-IsRing bytes history s h fits, stored-Received size bytes history s o within e)
    Reaches-IsRing (written {history} {s} {s'} {o} {o'} r run) =
        let (h, e) = Reaches-IsRing r in
        let (s1, o1, run1, h1, room, e1, rest) =
          write_ring_buffer-IsRing get pool size history s o buffers chunked h e in
        let same : (s1, o1) ≡ (s', o') = some-injective (s1, o1) (s', o') (sym run1 ∙ run) in
        subst (λ p. IsRing history p.0 × Received size p.1 (take p.0.partial_pos_out history)) same
          (h1, e1)
    Reaches-IsRing (flushed {history} {s} {o} r rest) =
        let (h, e) = Reaches-IsRing r in
        let (same, e1) = flush_output-IsRing get size history s o buffers chunked h rest e in
        subst
          (λ t.
            IsRing history t
            × Received size (flush_output get s o).1 (take t.partial_pos_out history))
          (sym same) (delivered-IsRing history s h, e1)

    -- From an empty ring, after any stores that fit in the ring and its slack, calls of
    -- writeRingBuffer and flushes, while the block is not overrun: writeRingBuffer returns, and
    -- after a flush behind it the output is all bytes stored, each once and in order. The pool's
    -- chunks are of the sink's chunk size, which is not zero.
    pub flush_output-write_ring_buffer :
        {history : List ℕ} {s : DecodeState} {o : Output}
        → Reaches history s o
        → is_negative s.meta_block_remaining_len ≡ false
        → (s' : DecodeState) × (o' : Output) × (write_ring_buffer get pool s o ≡ some (s', o'))
          × Received size (flush_output get s' o').1 history
    flush_output-write_ring_buffer {history} {s} {o} r rest =
        let (h, e) = Reaches-IsRing r in
        let (s1, o1, run, h1, room, e1, same) =
          write_ring_buffer-IsRing get pool size history s o buffers chunked h e in
        let (moved, e2) =
          flush_output-IsRing get size history s1 o1 buffers chunked h1 (ap is_negative same ∙ rest)
            e1 in
        let turn = s1.rb_roundtrips * s1.ringbuffer_size in
        let all : take (turn + min s1.pos s1.ringbuffer_size) history ≡ history =
          take-all (turn + min s1.pos s1.ringbuffer_size) history (omega (arith, h1.count, room)) in
        (s1, o1, run, subst (Received size (flush_output get s1 o1).1) all e2)
