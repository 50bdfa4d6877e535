-- ===== src/Distance/Steps.antt =====
-- One step of the ring of recent distances of decode.go, in step with the cache of
-- internal/encoder/hash5.go.
use go_brrr.Prelude.{
  ℕ, ◌+◌, ◌%◌, ◌^◌, ◌≤◌, ◌<◌, ◌≡◌, refl, ◌==◌, ◌≢◌, if◌then◌else◌, get_or, set, get_or-set,
  length-set, List, arith, bit_and, length, ◌∙◌, inl, inr, lt-cases, zero, suc,
}
use go_brrr.Prelude.BitOps.{bit_and_mask}
use go_brrr.Distance.Code.{receive_distance}
use go_brrr.Distance.{
  Cache, Ring, word_sub, take_distance_from_ring_buffer, record_distance, skip_dictionary,
}
use go_brrr.Distance.Sync.{InSync}

-- A code moves the decoder's index back by the context that it leaves, and changes no slot.
pub receive-index :
    (r : Ring) (code : ℕ)
    → r.index < 2 ^ 64
    → let r' = (receive_distance r code).1 in
      (r'.slots ≡ r.slots)
      × (r'.index ≡ word_sub r.index r'.context)
      × (r'.context ≡ (if code == 0 then 1 else 0))
unfolding receive_distance take_distance_from_ring_buffer
receive-index r zero h = (refl, refl, refl)
receive-index r (suc code) h = elim (lt-cases (suc code) 16) [
  | inl short ↦ elim (lt-cases (suc code) 4) [
    | inl repeated ↦ ground arith
    | inr near ↦ ground arith
  ]
  | inr long ↦ ground arith
]

pub skip_step :
    (c : Cache) (r r' : Ring)
    → InSync c r
    → r'.slots ≡ r.slots
    → r'.index ≡ word_sub r.index r'.context
    → r'.context ≤ 1
    → InSync c (skip_dictionary r')
unfolding skip_dictionary
skip_step c r r' s e i k =
    rw (e, back)
      (record {
        four = s.four;
        index_lt = s.index_lt;
        recent_0 = s.recent_0;
        recent_1 = s.recent_1;
        recent_2 = s.recent_2;
        recent_3 = s.recent_3;
      })
  where
    back : (r'.index + r'.context) % 2 ^ 64 ≡ r.index
    back = omega (arith, s.index_lt)

module _ (slots : List ℕ) (four : length slots ≡ 4) (i d : ℕ) where
  hit : (j : ℕ) → i % 4 ≡ j → get_or (set slots (bit_and i 3) d) j 0 ≡ d
  hit j e =
      get_or-set slots (bit_and i 3) j d 0 (omega (arith, bit_and_mask 2 i))
      ∙ ground (arith, bit_and_mask 2 i)

  miss :
      (k : ℕ) {j v : ℕ}
      → get_or slots k 0 ≡ v
      → k ≡ j
      → i % 4 ≢ j
      → get_or (set slots (bit_and i 3) d) j 0 ≡ v
  miss k {j} g e ne =
      get_or-set slots (bit_and i 3) j d 0 (omega (arith, bit_and_mask 2 i))
      ∙ ground (arith, bit_and_mask 2 i)

-- A new distance takes the place of the oldest.
pub push_step :
    (c : Cache) (r r' : Ring) (d : ℕ)
    → InSync c r
    → r'.slots ≡ r.slots
    → r'.index ≡ r.index
    → InSync
        record { dist_0 = d; dist_1 = c.dist_0; dist_2 = c.dist_1; dist_3 = c.dist_2 }
        (record_distance d r')
unfolding record_distance
push_step c r r' d s e i =
    rw (e, i)
      (record {
        four = length-set r.slots _ d ∙ s.four;
        index_lt = omega arith;
        recent_0 = hit r.slots s.four r.index d _ (omega arith);
        recent_1 = miss r.slots s.four r.index d _ s.recent_0 (omega arith) (omega arith);
        recent_2 = miss r.slots s.four r.index d _ s.recent_1 (omega arith) (omega arith);
        recent_3 = miss r.slots s.four r.index d _ s.recent_2 (omega arith) (omega arith);
      })

-- A repeated distance takes its own place again.
pub repeat_step :
    (c : Cache) (r r' : Ring) (d : ℕ)
    → InSync c r
    → r'.slots ≡ r.slots
    → r'.index ≡ word_sub r.index 1
    → d ≡ c.dist_0
    → InSync c (record_distance d r')
unfolding record_distance
repeat_step c r r' d s e i z =
    let at = word_sub r.index 1 in
    rw (e, i)
      (record {
        four = length-set r.slots _ d ∙ s.four;
        index_lt = omega arith;
        recent_0 = hit r.slots s.four at d _ (omega (arith, s.index_lt)) ∙ z;
        recent_1 =
            miss r.slots s.four at d _ s.recent_1 (omega (arith, s.index_lt))
              (omega (arith, s.index_lt));
        recent_2 =
            miss r.slots s.four at d _ s.recent_2 (omega (arith, s.index_lt))
              (omega (arith, s.index_lt));
        recent_3 =
            miss r.slots s.four at d _ s.recent_3 (omega (arith, s.index_lt))
              (omega (arith, s.index_lt));
      })
