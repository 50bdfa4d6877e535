-- ===== src/Distance/Sync.antt =====
-- The encoder's cache and the decoder's ring stay in step, so that every distance that the encoder
-- says is the one that the decoder uses.
use go_brrr.Prelude.{
  ℕ, ◌+◌, ◌-◌, ◌*◌, ◌/◌, ◌%◌, ◌^◌, ◌≤◌, ◌<◌, ◌≡◌, refl, Bool, true, false, ◌&&◌, ltb, leb, ◌==◌,
  ◌≢◌, ◌||◌, if◌then◌else◌, get_or, arith, bit_and, length, ap, ◌∙◌, Bool-cases, inl, inr,
}
use go_brrr.Prelude.BitOps.{bit_and_mask}
use go_brrr.Prelude.Tables.{all_below, all_below_sound}
use go_brrr.Distance.Code.{receive_distance}
use go_brrr.Distance.{
  Cache, Ring, slot, word_sub, compute_distance_code, take_distance_from_ring_buffer,
}

-- The decoder's ring holds the encoder's cache, most recent first going back from the index.
pub record InSync (c : Cache) (r : Ring) : Type 0 where
  pub four : length r.slots ≡ 4
  pub index_lt : r.index < 2 ^ 64
  pub recent_0 : get_or r.slots ((r.index + 3) % 4) 0 ≡ c.dist_0
  pub recent_1 : get_or r.slots ((r.index + 2) % 4) 0 ≡ c.dist_1
  pub recent_2 : get_or r.slots ((r.index + 1) % 4) 0 ≡ c.dist_2
  pub recent_3 : get_or r.slots (r.index % 4) 0 ≡ c.dist_3

-- The distances of a valid cache are positive and below 2 ^ 31.
pub record IsValid (c : Cache) : Type 0 where
  pub range_0 : (0 < c.dist_0) × (c.dist_0 < 2 ^ 31)
  pub range_1 : (0 < c.dist_1) × (c.dist_1 < 2 ^ 31)
  pub range_2 : (0 < c.dist_2) × (c.dist_2 < 2 ^ 31)
  pub range_3 : (0 < c.dist_3) × (c.dist_3 < 2 ^ 31)

slot-mod : (r : Ring) (i : ℕ) → slot r (i % 2 ^ 64) ≡ get_or r.slots (i % 4) 0
slot-mod r i = ap (λ (k : ℕ). get_or r.slots k 0) (omega (arith, bit_and_mask 2 (i % 2 ^ 64)))

-- The packed constants: six offsets have a short code of the last distance, six of the one before,
-- and the decoder's nibble for such a code is the offset.
last_ok : ℕ → Bool
last_ok o =
    let code = bit_and (0x9750468 / 2 ^ (4 * o)) 0xf in
    (o == 3) || (leb 4 code && ltb code 10 && bit_and (0x605142 / 2 ^ (4 * (code - 4))) 0xf == o)

second_ok : ℕ → Bool
second_ok o =
    let code = bit_and (0xfdb1ace / 2 ^ (4 * o)) 0xf in
    (o == 3) || (leb 10 code && ltb code 16 && bit_and (0x605142 / 2 ^ (4 * (code - 10))) 0xf == o)

last_table : all_below 7 last_ok ≡ true
unfolding all_below last_ok
last_table = refl

second_table : all_below 7 second_ok ≡ true
unfolding all_below second_ok
second_table = refl

near_last :
    (o : ℕ)
    → o < 7
    → o ≢ 3
    → let code = bit_and (0x9750468 / 2 ^ (4 * o)) 0xf in
      (4 ≤ code) × (code < 10) × (bit_and (0x605142 / 2 ^ (4 * (code - 4))) 0xf ≡ o)
unfolding last_ok
near_last o h ne = ground (arith, all_below_sound 7 last_ok o last_table h)

near_second :
    (o : ℕ)
    → o < 7
    → o ≢ 3
    → let code = bit_and (0xfdb1ace / 2 ^ (4 * o)) 0xf in
      (10 ≤ code) × (code < 16) × (bit_and (0x605142 / 2 ^ (4 * (code - 10))) 0xf ≡ o)
unfolding second_ok
near_second o h ne = ground (arith, all_below_sound 7 second_ok o second_table h)

-- The kinds of code that stand for a distance, given the cache.
pub data Says (c : Cache) (d : ℕ) : ℕ → Type 0 where
  is_0 : d ≡ c.dist_0 → Says c d 0
  is_1 : d ≡ c.dist_1 → Says c d 1
  is_2 : d ≡ c.dist_2 → Says c d 2
  is_3 : d ≡ c.dist_3 → Says c d 3
  near_0 :
      (code : ℕ)
      → 4 ≤ code
      → code < 10
      → bit_and (0x605142 / 2 ^ (4 * (code - 4))) 0xf + c.dist_0 ≡ d + 3
      → Says c d code
  near_1 :
      (code : ℕ)
      → 10 ≤ code
      → code < 16
      → bit_and (0x605142 / 2 ^ (4 * (code - 10))) 0xf + c.dist_1 ≡ d + 3
      → Says c d code
  explicit : (code : ℕ) → code ≡ d + 15 → Says c d code

module _ (c : Cache) (d : ℕ) (v : IsValid c) (pos : 0 < d) (small : d < 2 ^ 31) where
  offset_eq :
      (last : ℕ) → last < 2 ^ 31 → word_sub (d + 3) last < 7 → word_sub (d + 3) last + last ≡ d + 3
  offset_eq last h o = omega arith

  by_last :
      (o : ℕ)
      → o < 7
      → (o + c.dist_0 ≡ d + 3) × (d ≢ c.dist_0)
      → Says c d (bit_and (0x9750468 / 2 ^ (4 * o)) 0xf)
  by_last o h (e, ne) =
      let (low, high, nibble) = near_last o h (λ three. ne (omega arith)) in
      near_0 _ low high (omega arith)

  by_second :
      (o : ℕ)
      → o < 7
      → (o + c.dist_1 ≡ d + 3) × (d ≢ c.dist_1)
      → Says c d (bit_and (0xfdb1ace / 2 ^ (4 * o)) 0xf)
  by_second o h (e, ne) =
      let (low, high, nibble) = near_second o h (λ three. ne (omega arith)) in
      near_1 _ low high (omega arith)

  pub compute-Says : (most : ℕ) → Says c d (compute_distance_code d most c)
  unfolding compute_distance_code
  compute-Says most = elim (Bool-cases (leb d most)) [
    | inr far ↦ rw far (explicit _ (omega arith))
    | inl within ↦ rw within (elim (Bool-cases (d == c.dist_0)) [
      | inl e ↦ rw e (is_0 (ground arith))
      | inr n0 ↦ rw n0 (elim (Bool-cases (d == c.dist_1)) [
        | inl e ↦ rw e (is_1 (ground arith))
        | inr n1 ↦ rw n1 (offsets n0 n1)
      ])
    ])
  ]
    where
      rest : Says c d (if d == c.dist_2 then 2 else if d == c.dist_3 then 3 else d + 16 - 1)
      rest = elim (Bool-cases (d == c.dist_2)) [
        | inl e ↦ rw e (is_2 (ground arith))
        | inr n2 ↦ rw n2 (elim (Bool-cases (d == c.dist_3)) [
          | inl e ↦ rw e (is_3 (ground arith))
          | inr n3 ↦ rw n3 (explicit _ (omega arith))
        ])
      ]

      offsets :
          (d == c.dist_0) ≡ false
          → (d == c.dist_1) ≡ false
          → Says c d (
              if ltb (word_sub (d + 3) c.dist_0) 7
              then bit_and (0x9750468 / 2 ^ (4 * word_sub (d + 3) c.dist_0)) 0xf
              else if ltb (word_sub (d + 3) c.dist_1) 7
              then bit_and (0xfdb1ace / 2 ^ (4 * word_sub (d + 3) c.dist_1)) 0xf
              else if d == c.dist_2
              then 2
              else if d == c.dist_3
              then 3
              else d + 16 - 1)
      offsets n0 n1 = elim (Bool-cases (ltb (word_sub (d + 3) c.dist_0) 7)) [
        | inl near ↦ rw near (by_last (word_sub (d + 3) c.dist_0) (ground arith) (ground arith))
        | inr far ↦ rw far (elim (Bool-cases (ltb (word_sub (d + 3) c.dist_1) 7)) [
          | inl near ↦ rw near (by_second (word_sub (d + 3) c.dist_1) (ground arith) (ground arith))
          | inr far' ↦ rw far' rest
        ])
      ]

-- The decoder gets the distance that the code stands for.
pub receive-Says :
    (c : Cache) (r : Ring) (d code : ℕ)
    → InSync c r
    → 0 < d
    → Says c d code
    → (receive_distance r code).0 ≡ d
unfolding receive_distance take_distance_from_ring_buffer
receive-Says c r d _ s p (is_0 e) = slot-mod r (r.index + 3 - 0) ∙ ground arith
receive-Says c r d _ s p (is_1 e) = slot-mod r (r.index + 3 - 1) ∙ ground arith
receive-Says c r d _ s p (is_2 e) = slot-mod r (r.index + 3 - 2) ∙ ground arith
receive-Says c r d _ s p (is_3 e) = slot-mod r (r.index + 3 - 3) ∙ ground arith
receive-Says c r d _ s p (near_0 code lo hi e) =
    ground (arith, slot-mod r (r.index + 3), s.recent_0)
receive-Says c r d _ s p (near_1 code lo hi e) =
    ground (arith, slot-mod r (r.index + 2), s.recent_1)
receive-Says c r d _ s p (explicit code e) = ground arith
