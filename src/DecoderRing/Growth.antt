-- ===== src/DecoderRing/Growth.antt =====
-- The ring of decode.go in a larger array.
use native.Mathlib.Nat.{pow-suc, zero-mul}
use mathlib.Core.Bool.{true≢false}
use go_brrr.Prelude.{
  ℕ, suc, ◌+◌, ◌-◌, ◌*◌, ◌^◌, ◌≤◌, ◌<◌, ◌≡◌, min, refl, ap, ap₂, sym, ◌∙◌, List, length, take, drop,
  set, arith, Option, some, length-set, true, false, ◌==◌, leb, ltb, inl, inr, Bool-cases, ==_iff,
  lt-cases, ◌⊎◌, subst,
}
use go_brrr.DecoderRing.{
  DecodeState, reserve, ensure_ring_buffer, grow_size, resize, grow_ring, write_ring_buffer, wrap,
  Output,
}
use go_brrr.DecoderRing.Slices.{take-set, reserve-kept}
use go_brrr.DecoderRing.IsRing.{IsRing, Received, powers, large}
use go_brrr.DecoderRing.Turn.{wrap-IsRing}

-- A larger array with the same bytes, before the ring starts again.
enlarged-IsRing :
    (history : List ℕ) (s : DecodeState) (ring : List ℕ) (size new_size i j : ℕ)
    → (h : IsRing history s) → h.exponent < i
    → i ≤ j
    → j ≤ s.window_bits
    → size ≡ 2 ^ i
    → new_size ≡ 2 ^ j
    → size + 542 ≤ length ring
    → take s.pos ring ≡ take s.pos s.ringbuffer
    → IsRing history
        record s { ringbuffer = ring; ringbuffer_size = size; new_ringbuffer_size = new_size }
enlarged-IsRing history s ring size new_size i j h lt le top e f room same =
    let first : s.rb_roundtrips ≡ 0 = h.young (omega (arith, lt, le, top)) in
    let old : s.rb_roundtrips * s.ringbuffer_size ≡ 0 = rw first (zero-mul s.ringbuffer_size) in
    let new : s.rb_roundtrips * size ≡ 0 = rw first (zero-mul size) in
    let larger : s.ringbuffer_size ≤ size = omega (arith, e, h.size, powers h.exponent i lt) in
    record {
      exponent = i;
      new_exponent = j;
      size = e;
      new_size = f;
      at_least = omega (arith, h.at_least, lt);
      grows = le;
      in_window = top;
      young = λ _. first;
      count = omega (arith, h.count, old, new);
      room = room;
      within = omega (arith, h.within, larger);
      content = same ∙ h.content ∙ ap (λ n. drop n history) (old ∙ sym new);
      low = omega (arith, new);
      high = omega (arith, h.high, old, new, larger);
    }

-- Sizes that differ have exponents that differ.
exponent-grows : (i j : ℕ) → i ≤ j → ((2 ^ i == 2 ^ j) ≡ false) → i < j
exponent-grows i j le e = elim (lt-cases i j) [
  | inl lt ↦ lt
  | inr ge ↦
      let same : i ≡ j = omega (arith, le, ge) in
      absurd (true≢false (sym ((==_iff (2 ^ i) (2 ^ j)).1 (ap (λ k. 2 ^ k) same)) ∙ e))
]

-- With a new size the array is replaced, and two bytes at its end are cleared.
ensure_ring_buffer-IsRing :
    (pooled : Option (List ℕ)) (history : List ℕ) (s : DecodeState)
    → IsRing history s
    → s.ringbuffer_size < 2 ^ s.window_bits
    → let s' = ensure_ring_buffer pooled s in
      IsRing history s'
      × ((s'.pos < s'.ringbuffer_size) ⊎ (s'.ringbuffer_size < 2 ^ s'.window_bits))
      × (s'.partial_pos_out ≡ s.partial_pos_out)
      × (s'.meta_block_remaining_len ≡ s.meta_block_remaining_len)
unfolding ensure_ring_buffer
ensure_ring_buffer-IsRing pooled history s h small =
    let n = s.new_ringbuffer_size in
    elim (Bool-cases (s.ringbuffer_size == n)) [
      | inl e ↦ rw (e, ensure_ring_buffer) (h, inr small, refl, refl)
      | inr e ↦
          let lt : h.exponent < h.new_exponent =
            exponent-grows h.exponent h.new_exponent h.grows
              (ap₂ (λ a b. a == b) (sym h.size) (sym h.new_size) ∙ e) in
          let double : 2 * s.ringbuffer_size ≤ n =
            omega (arith, powers h.exponent h.new_exponent lt, h.size, h.new_size) in
          let least : 1024 ≤ s.ringbuffer_size =
            omega (arith, h.size, large h.exponent h.at_least) in
          let ring = reserve pooled (n + 542) s in
          let (longer, kept) =
            reserve-kept pooled (n + 542) s (omega (arith, h.within, double))
              (omega (arith, h.within, h.room)) in
          let cleared = set (set ring (n - 2) 0) (n - 1) 0 in
          let ring_length : length cleared ≡ length ring =
            length-set (set ring (n - 2) 0) (n - 1) 0 ∙ length-set ring (n - 2) 0 in
          rw (e, ensure_ring_buffer)
            (
              enlarged-IsRing history s cleared n n h.new_exponent h.new_exponent h lt (omega arith)
                  h.in_window h.new_size h.new_size (omega (arith, ring_length, longer))
                  (take-set s.pos (n - 1) 0 (set ring (n - 2) 0)
                      (omega (arith, h.within, double, least))
                    ∙ take-set s.pos (n - 2) 0 ring (omega (arith, h.within, double, least))
                    ∙ kept),
              inl (omega (arith, h.within, double, least)),
              refl,
              refl,
            )
    ]

-- The loop ends after at most one doubling, with room for the bytes in the slack.
grow_size-found :
    (history : List ℕ) (s : DecodeState)
    → (h : IsRing history s) → (s.pos < s.ringbuffer_size) ⊎ (s.ringbuffer_size < 2 ^ s.window_bits)
    → (i : ℕ) × (grow_size 2 (2 ^ s.window_bits) s.pos s.ringbuffer_size ≡ some (2 ^ i))
      × (h.exponent ≤ i)
      × (i ≤ s.window_bits)
      × (s.pos < 2 ^ i)
unfolding grow_size
grow_size-found history s h cases = elim (Bool-cases (leb s.ringbuffer_size s.pos)) [
  | inr fits ↦ (
    h.exponent,
    rw (fits, grow_size) (ap some h.size),
    omega arith,
    omega (arith, h.grows, h.in_window),
    ground (arith, fits, h.size),
  )
  | inl full ↦
      let small : s.ringbuffer_size < 2 ^ s.window_bits = elim cases [
        | inl lt ↦ absurd (ground (arith, full, lt))
        | inr lt ↦ lt
      ] in
      let lt : h.exponent < s.window_bits =
        exponent-grows h.exponent s.window_bits (omega (arith, h.grows, h.in_window))
          (ground (arith, small, h.size)) in
      let least : 1024 ≤ s.ringbuffer_size = omega (arith, h.size, large h.exponent h.at_least) in
      let double : 2 * s.ringbuffer_size ≤ 2 ^ s.window_bits =
        omega (arith, powers h.exponent s.window_bits lt, h.size) in
      let next : min (2 * s.ringbuffer_size) (2 ^ s.window_bits) ≡ 2 ^ suc h.exponent =
        omega (arith, double, h.size, pow-suc 2 h.exponent) in
      let fits : s.pos < 2 ^ suc h.exponent =
        omega (arith, h.within, least, h.size, pow-suc 2 h.exponent) in
      let found : leb (2 ^ suc h.exponent) s.pos ≡ false = ground (arith, fits) in
      (suc h.exponent, rw (full, next, found, grow_size) refl, omega arith, lt, fits)
]

resize-IsRing :
    (pooled : Option (List ℕ)) (history : List ℕ) (s : DecodeState) (i : ℕ)
    → (h : IsRing history s) → h.exponent ≤ i
    → i ≤ s.window_bits
    → s.pos < 2 ^ i
    → let s' = resize pooled (2 ^ i) s in
      IsRing history s'
      × (s'.pos < s'.ringbuffer_size)
      × (s'.partial_pos_out ≡ s.partial_pos_out)
      × (s'.meta_block_remaining_len ≡ s.meta_block_remaining_len)
unfolding resize
resize-IsRing pooled history s i h le top fits = elim (Bool-cases (2 ^ i == s.ringbuffer_size)) [
  | inl e ↦ rw (e, resize) (h, ground (arith, e, fits), refl, refl)
  | inr e ↦
      let lt : h.exponent < i = exponent-grows h.exponent i le (ground (arith, e, h.size)) in
      let (longer, kept) =
        reserve-kept pooled (2 ^ i + 542) s (omega (arith, fits))
          (omega (arith, h.within, h.room)) in
      rw (e, resize)
        (
          enlarged-IsRing history s (reserve pooled (2 ^ i + 542) s) (2 ^ i) (2 ^ i) i i h lt
              (omega arith) top refl refl longer kept,
          fits,
          refl,
          refl,
        )
]

grow_ring-IsRing :
    (pool : ℕ → Option (List ℕ)) (history : List ℕ) (s : DecodeState)
    → IsRing history s
    → s.ringbuffer_size < 2 ^ s.window_bits
    → (g : DecodeState) × (grow_ring pool s ≡ some g)
      × IsRing history g
      × (g.pos < g.ringbuffer_size)
      × (g.partial_pos_out ≡ s.partial_pos_out)
      × (g.meta_block_remaining_len ≡ s.meta_block_remaining_len)
unfolding grow_ring
grow_ring-IsRing pool history s h small =
    let s1 = ensure_ring_buffer (pool 0) s in
    let (h1, cases, same, rest) = ensure_ring_buffer-IsRing (pool 0) history s h small in
    let (i, found, le, top, fits) = grow_size-found history s1 h1 cases in
    let (h2, room, same2, rest2) = resize-IsRing (pool 1) history s1 i h1 le top fits in
    (resize (pool 1) (2 ^ i) s1, rw (found, grow_ring) refl, h2, room, same2 ∙ same, rest2 ∙ rest)

-- A call returns, leaves room in the ring, and keeps what is decoded and what is delivered.
pub write_ring_buffer-IsRing :
    (get : ℕ → List ℕ) (pool : ℕ → Option (List ℕ)) (size : ℕ) (history : List ℕ) (s : DecodeState)
    (output : Output)
    → ((k : ℕ) → length (get k) ≡ size)
    → 0 < size
    → IsRing history s
    → Received size output (take s.partial_pos_out history)
    → (s' : DecodeState) × (output' : Output) × (write_ring_buffer get pool s output
        ≡ some (s', output'))
      × IsRing history s'
      × (s'.pos < s'.ringbuffer_size)
      × Received size output' (take s'.partial_pos_out history)
      × (s'.meta_block_remaining_len ≡ s.meta_block_remaining_len)
unfolding write_ring_buffer wrap
write_ring_buffer-IsRing get pool size history s output g pos h e =
    elim (Bool-cases (ltb s.pos s.ringbuffer_size)) [
      | inl room ↦ (s, output, rw (room, write_ring_buffer) refl, h, ground (arith, room), e, refl)
      | inr full ↦ elim (Bool-cases (ltb s.ringbuffer_size (2 ^ s.window_bits))) [
        | inl small ↦
            let (s', run, h', room, same, rest) =
              grow_ring-IsRing pool history s h (ground (arith, small)) in
            let fits : ltb s'.pos s'.ringbuffer_size ≡ true = ground (arith, room) in
            (
              s',
              output,
              rw (full, small, run, fits, write_ring_buffer) refl,
              h',
              room,
              subst (λ n. Received size output (take n history)) (sym same) e,
              rest,
            )
        | inr window ↦
            let (h', room, received) =
              wrap-IsRing get size history s output g pos h (ground (arith, full))
                (ground (arith, window)) e in
            let (s', output') = wrap get s output in
            (s', output', rw (full, window, write_ring_buffer) refl, h', room, received, refl)
      ]
    ]
