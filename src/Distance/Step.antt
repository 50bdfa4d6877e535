-- ===== src/Distance/Step.antt =====
-- One code of computeDistanceCode keeps cache and ring in step.
use go_brrr.Prelude.{
  ℕ, ◌+◌, ◌^◌, ◌≤◌, ◌<◌, ◌≡◌, true, false, leb, ltb, ◌&&◌, ◌==◌, if◌then◌else◌, arith, lt-cases,
  inl, inr, Bool-cases,
}
use go_brrr.Distance.{Cache, Ring, word_sub, compute_distance_code, update_cache}
use go_brrr.Distance.Code.{receive_distance, settle}
use go_brrr.Distance.Sync.{
  InSync, IsValid, Says, is_0, is_1, is_2, is_3, near_0, near_1, explicit, compute-Says,
  receive-Says,
}
use go_brrr.Distance.Steps.{receive-index, skip_step, push_step, repeat_step}

Says-zero : {c : Cache} {d : ℕ} (code : ℕ) → Says c d code → code ≡ 0 → 0 < d → d ≡ c.dist_0
Says-zero _ (is_0 e) z p = e
Says-zero _ (is_1 e) z p = absurd (omega arith)
Says-zero _ (is_2 e) z p = absurd (omega arith)
Says-zero _ (is_3 e) z p = absurd (omega arith)
Says-zero _ (near_0 code lo hi e) z p = absurd (omega arith)
Says-zero _ (near_1 code lo hi e) z p = absurd (omega arith)
Says-zero _ (explicit code e) z p = absurd (omega arith)

far_code : (c : Cache) (d most : ℕ) → most < d → compute_distance_code d most c ≡ d + 15
unfolding compute_distance_code
far_code c d most h = ground arith

update-IsValid :
    (c : Cache) (d code most : ℕ)
    → IsValid c
    → 0 < d
    → d < 2 ^ 31
    → IsValid (update_cache d most code c)
unfolding update_cache
update-IsValid c d code most v p small = elim (Bool-cases (leb d most && ltb 0 code)) [
  | inl shift ↦
      rw shift record {
        range_0 = (p, small);
        range_1 = v.range_0;
        range_2 = v.range_1;
        range_3 = v.range_2;
      }
  | inr keep ↦ rw keep v
]

module _ (c : Cache) (r : Ring) (d code most : ℕ) (s : InSync c r) (p : 0 < d)
    (w : Says c d code) where
  same : (receive_distance r code).0 ≡ d
  same = receive-Says c r d code s p w

  moved :
      let r' = (receive_distance r code).1 in
      (r'.slots ≡ r.slots)
      × (r'.index ≡ word_sub r.index r'.context)
      × (r'.context ≡ (if code == 0 then 1 else 0))
  moved = receive-index r code s.index_lt

  far_step : most < d → code ≡ d + 15 → InSync (update_cache d most code c) (settle most code r).1
  unfolding settle update_cache
  far_step h e =
      let (slots, index, context) = moved in
      rw (same, beyond) (skip_step c r _ s slots index (ground arith))
    where
      beyond : leb d most ≡ false
      beyond = ground arith

  near_step : d ≤ most → InSync (update_cache d most code c) (settle most code r).1
  unfolding settle update_cache
  near_step h = elim (Bool-cases (ltb 0 code)) [
    | inl fresh ↦ rw (same, within, fresh) (push_step c r _ d s moved.0 (forward fresh))
    | inr repeated ↦
        rw (same, within, repeated)
          (repeat_step c r _ d s moved.0 (back repeated) (Says-zero code w (ground arith) p))
  ]
    where
      within : leb d most ≡ true
      within = ground arith

      forward : ltb 0 code ≡ true → (receive_distance r code).1.index ≡ r.index
      forward f = ground (arith, moved, s.index_lt)

      back : ltb 0 code ≡ false → (receive_distance r code).1.index ≡ word_sub r.index 1
      back f = ground (arith, moved)

-- One distance, from a valid cache and a ring in step with it.
pub settle-compute_distance_code :
    (c : Cache) (r : Ring) (d most : ℕ)
    → InSync c r
    → IsValid c
    → 0 < d
    → d < 2 ^ 31
    → let code = compute_distance_code d most c in
      ((settle most code r).0 ≡ d)
      × InSync (update_cache d most code c) (settle most code r).1
      × IsValid (update_cache d most code c)
unfolding settle
settle-compute_distance_code c r d most s v p small =
    let w = compute-Says c d v p small most in (got, stays w, update-IsValid c d _ most v p small)
  where
    got : (settle most (compute_distance_code d most c) r).0 ≡ d
    got = receive-Says c r d _ s p (compute-Says c d v p small most)

    stays :
        Says c d (compute_distance_code d most c)
        → InSync
            (update_cache d most (compute_distance_code d most c) c)
            (settle most (compute_distance_code d most c) r).1
    stays w = elim (lt-cases most d) [
      | inl far ↦ far_step c r d _ most s p w far (far_code c d most far)
      | inr near ↦ near_step c r d _ most s p w near
    ]
