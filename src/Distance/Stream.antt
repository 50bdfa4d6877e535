-- ===== src/Distance/Stream.antt =====
-- Whole streams of distances, from the encoder's codes to the distances that the decoder uses.
use go_brrr.Prelude.{
  ℕ, ◌+◌, ◌-◌, ◌%◌, ◌^◌, ◌≤◌, ◌<◌, ◌≡◌, refl, leb, if◌then◌else◌, get_or, List, [], ◌∷◌, arith, ap,
  sym, ◌∙◌, All, Option, some, none,
}
use native.Mathlib.Nat.{pow-le-pow_right}
use go_brrr.Prelude.BitOps.{bit_and_mask}
use go_brrr.DistanceParams.{init_distance_params}
use go_brrr.Commands.Distances.{max_distance-InRange}
use go_brrr.Distance.{
  Cache, Ring, Place, Received, failed, used, DistanceLut, DistanceError, distance_error, follow,
  word_sub, compute_distance_code, update_cache, implicit_distance, record_distance,
  skip_dictionary, receive, receive_implicit, read_distance, take_distance_from_ring_buffer,
}
use go_brrr.Distance.Code.{receive_distance, settle}
use go_brrr.Distance.Symbol.{symbol_of, bits_of, table_of, read_distance-prefix_encode}
use go_brrr.Distance.Sync.{
  InSync, IsValid, Says, is_0, is_1, is_2, is_3, near_0, near_1, explicit, compute-Says,
}
use go_brrr.Distance.Step.{settle-compute_distance_code}

-- A command that reuses the last distance acts as the distance symbol 0 does, for any index that
-- fits in a word: on the ring, and on what the distance is used for.
pub receive_implicit-receive :
    (lut : DistanceLut) (postfix_bits val : ℕ) (p : Place) (r : Ring)
    → r.index < 2 ^ 64
    → receive_implicit p 0 r ≡ receive lut postfix_bits p 0 val r
unfolding receive_implicit receive implicit_distance read_distance take_distance_from_ring_buffer
receive_implicit-receive lut postfix_bits val p r h =
    ap {B = Received}
      (λ (i : ℕ).
        follow p (get_or r.slots i 0, record r { index = word_sub r.index 1; context = 1 }))
      (omega
        (arith, bit_and_mask 2 (word_sub r.index 1), bit_and_mask 2 ((r.index + 3 - 0) % 2 ^ 64)))

code-le : (c : Cache) (d code : ℕ) → 0 < d → Says c d code → code ≤ d + 15
code-le c d _ h (is_0 e) = omega arith
code-le c d _ h (is_1 e) = omega arith
code-le c d _ h (is_2 e) = omega arith
code-le c d _ h (is_3 e) = omega arith
code-le c d _ h (near_0 code lo hi e) = omega (arith, hi)
code-le c d _ h (near_1 code lo hi e) = omega (arith, hi, h)
code-le c d _ h (explicit code e) = omega (arith, e)

-- The largest distance that is a copy.
abbrev pub farthest : Place → ℕ
farthest p = p.max_distance + p.compound_size

-- A distance is used where the decoder accepts it, with the ring that is left.
unfoldable pub verdict : Option DistanceError → ℕ → Ring → Received
verdict (some e) distance r = failed e
verdict none distance r = used distance r

follow-verdict :
    (p : Place) (d : ℕ) (r : Ring)
    → follow p (d, r)
      ≡ verdict
          (distance_error p d)
          d
          (if leb d (farthest p) then record_distance d r else skip_dictionary r)
unfolding follow verdict
follow-verdict p d r = go (distance_error p d)
  where
    go :
        (o : Option DistanceError)
        → elim o as (λ _. Received) [
          | some e ↦ failed e
          | none ↦ used d (if leb d (farthest p) then record_distance d r else skip_dictionary r)
        ]
          ≡ verdict o d (if leb d (farthest p) then record_distance d r else skip_dictionary r)
    go (some e) = refl
    go none = refl

settled-follow :
    (p : Place) (code d : ℕ) (r : Ring)
    → (receive_distance r code).0 ≡ d
    → follow p (receive_distance r code)
      ≡ verdict (distance_error p d) d (settle (farthest p) code r).1
unfolding settle
settled-follow p code d r e =
    let got = (receive_distance r code).0 in
    let ring = (receive_distance r code).1 in
    follow-verdict p got ring
    ∙ ap
        (λ (x : ℕ).
          verdict (distance_error p x) x
            (if leb got (farthest p) then record_distance got ring else skip_dictionary ring))
        e

got-settle : (most code : ℕ) (r : Ring) → (settle most code r).0 ≡ (receive_distance r code).0
unfolding settle
got-settle most code r = refl

-- One distance from 1 to the largest of the parameters, at any place, from a valid cache and a ring
-- in step with it. The decoder reads the symbol and the extra bits of its code. Where a distance of
-- this size is an error, it gives that error; else it uses this distance, and the ring and the
-- cache stay in step, whether the distance is a copy or a word of the static dictionary.
pub receive-compute_distance_code :
    (c : Cache) (r : Ring) (place : Place) (d next nd p : ℕ) (lut : DistanceLut)
    → InSync c r
    → IsValid c
    → 0 < d
    → p ≤ 3
    → nd ≤ 120
    → d ≤ (init_distance_params p nd).max_distance
    → let code = compute_distance_code d (farthest place) c in
      let c' = update_cache d (farthest place) code c in
      (r' : Ring) × (receive
          (table_of nd p lut)
          p
          place
          (symbol_of code nd p)
          (bits_of code nd p next)
          r
        ≡ verdict (distance_error place d) d r')
      × InSync c' r'
      × IsValid c'
unfolding receive
receive-compute_distance_code c r place d next nd p lut s v pos hp hd hm =
    let most = farthest place in
    let code = compute_distance_code d most c in
    let wide : 2 ^ (p + 26) ≤ 2 ^ 29 =
      pow-le-pow_right {n = 2} (omega arith) {j = 29} (omega (arith, hp)) in
    let range = max_distance-InRange (d + 15) nd p hp hd (omega (arith, hm)) in
    let small : d < 2 ^ 31 = omega (arith, wide, range, hd) in
    let (got, sync, valid) = settle-compute_distance_code c r d most s v pos small in
    let within : code ≤ (init_distance_params p nd).max_distance + 15 =
      omega (arith, code-le c d code pos (compute-Says c d v pos small most), hm) in
    (
      (settle most code r).1,
      ap (follow place) (read_distance-prefix_encode code nd p next lut r hp hd within)
          ∙ settled-follow place code d r (sym (got-settle most code r) ∙ got),
      sync,
      valid,
    )

-- A distance, where it is used, and the bits that follow it.
pub record Sent : Type 0 where
  pub distance : ℕ
  pub place : Place
  pub next : ℕ

-- What the decoder meets: a symbol, the bits behind it and the place.
pub record Met : Type 0 where
  pub symbol : ℕ
  pub bits : ℕ
  pub place : Place

-- The encoder's codes for a list of distances.
unfoldable pub send_all : ℕ → ℕ → List Sent → Cache → List Met
send_all nd p [] c = []
send_all nd p (x ∷ xs) c =
    let most = farthest x.place in
    let code = compute_distance_code x.distance most c in
    record { symbol = symbol_of code nd p; bits = bits_of code nd p x.next; place = x.place }
    ∷ send_all nd p xs (update_cache x.distance most code c)

-- One more distance before the others.
abbrev before : ℕ → List ℕ × Option DistanceError → List ℕ × Option DistanceError
before d (ds, e) = (d ∷ ds, e)

-- The distances that the decoder uses, and the error that stops it, if any.
unfoldable pub receive_all : DistanceLut → ℕ → List Met → Ring → List ℕ × Option DistanceError
receive_all lut p [] r = ([], none)
receive_all lut p (x ∷ xs) r = elim (receive lut p x.place x.symbol x.bits r) [
  | failed e ↦ ([], some e)
  | used d r' ↦ before d (receive_all lut p xs r')
]

-- The distances sent, up to the first that the decoder does not accept at its place.
unfoldable pub accepted : List Sent → List ℕ × Option DistanceError
accepted [] = ([], none)
accepted (x ∷ xs) = elim (distance_error x.place x.distance) [
  | some e ↦ ([], some e)
  | none ↦ before x.distance (accepted xs)
]

abbrev pub IsSent : ℕ → ℕ → Sent → Type 0
IsSent nd p x = (0 < x.distance) × (x.distance ≤ (init_distance_params p nd).max_distance)

-- For every list of distances from 1 to the largest of the parameters, at any places and with any
-- bits behind them, from a valid cache and a ring in step with it: from the encoder's symbols and
-- extra bits the decoder uses exactly these distances, and stops with the error at the first one
-- that is an error at its place, if there is one.
pub receive_all-send_all :
    (xs : List Sent) (c : Cache) (r : Ring) (nd p : ℕ) (lut : DistanceLut)
    → InSync c r
    → IsValid c
    → p ≤ 3
    → nd ≤ 120
    → All (IsSent nd p) xs
    → receive_all (table_of nd p lut) p (send_all nd p xs c) r ≡ accepted xs
unfolding send_all receive_all accepted verdict
receive_all-send_all [] c r nd p lut s v hp hd a = refl
receive_all-send_all (x ∷ xs) c r nd p lut s v hp hd ((pos, small), a) =
    let (r', got, s', v') =
      receive-compute_distance_code c r x.place x.distance x.next nd p lut s v pos hp hd small in
    let others = receive_all-send_all xs _ r' nd p lut s' v' hp hd a in
    rw (got, receive_all) (go (distance_error x.place x.distance) r' _ others)
  where
    go :
        (o : Option DistanceError) (r' : Ring) (ms : List Met)
        → receive_all (table_of nd p lut) p ms r' ≡ accepted xs
        → elim (verdict o x.distance r') as (λ _. List ℕ × Option DistanceError) [
          | failed e ↦ ([], some e)
          | used d r'' ↦ before d (receive_all (table_of nd p lut) p ms r'')
        ]
          ≡ elim o as (λ _. List ℕ × Option DistanceError) [
            | some e ↦ ([], some e)
            | none ↦ before x.distance (accepted xs)
          ]
    go (some e) r' ms h = refl
    go none r' ms h = ap (before x.distance) h
