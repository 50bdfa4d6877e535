-- ===== src/Tests/Ring.antt =====
-- The decoder's ring buffer.
use go_brrr.Prelude.{
  ℕ, ◌≡◌, ◌+◌, ◌≤◌, refl, List, [], ◌++◌, arith, length, replicate, length-replicate, Option, some,
  none,
}
use go_brrr.Prelude.Int.{negsuc, is_negative}
use go_brrr.Prelude.Int as Int
use go_brrr.DecoderRing.{DecodeState, Output, to_slice, store, write_ring_buffer, flush_output}
use go_brrr.DecoderRing.IsRing.{IsRing, Received}
use go_brrr.DecoderRing.Delivery.{begun, stored, flush_output-write_ring_buffer}

abbrev old_chunks : ℕ → List ℕ
old_chunks k = replicate 4 (200 + k)

abbrev no_arrays : ℕ → Option (List ℕ)
no_arrays k = none

-- A ring of half the window, empty.
abbrev half_window : DecodeState
half_window = record {
  ringbuffer = replicate 1566 0;
  ringbuffer_size = 1024;
  new_ringbuffer_size = 1024;
  pos = 0;
  partial_pos_out = 0;
  rb_roundtrips = 0;
  window_bits = 11;
  meta_block_remaining_len = Int.pos 2000;
  max_distance = 0;
  max_backward_distance = 2032;
}

half_window-IsRing : IsRing [] half_window
half_window-IsRing = record {
  exponent = 10;
  new_exponent = 10;
  size = refl;
  new_size = refl;
  at_least = omega arith;
  grows = omega arith;
  in_window = omega arith;
  young = λ _. refl;
  count = refl;
  room = omega (arith, length-replicate {A = ℕ} 1566 0);
  within = omega arith;
  content = refl;
  low = omega arith;
  high = omega arith;
}

-- Bytes that run into the slack.
abbrev sevens : List ℕ
sevens = replicate 1030 7

sevens-fit : half_window.pos + length sevens ≤ half_window.ringbuffer_size + 542
sevens-fit = omega (arith, length-replicate {A = ℕ} 1030 7)

old_chunks-size : (k : ℕ) → length (old_chunks k) ≡ 4
old_chunks-size k = length-replicate {A = ℕ} 4 (200 + k)

flush_output-write_ring_buffer_example :
    (s' : DecodeState) × (o' : Output) × (write_ring_buffer old_chunks no_arrays
        (store sevens half_window)
        (to_slice [])
      ≡ some (s', o'))
    × Received 4 (flush_output old_chunks s' o').1 ([] ++ sevens)
unfolding Received store is_negative
flush_output-write_ring_buffer_example =
    flush_output-write_ring_buffer old_chunks no_arrays half_window (to_slice []) 4 old_chunks-size
      (omega arith) half_window-IsRing refl {history = [] ++ sevens} {s = store sevens half_window}
      {o = to_slice []}
      (stored {history = []} {s = half_window} {o = to_slice []} sevens begun sevens-fit) refl
