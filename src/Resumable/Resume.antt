-- ===== src/Resumable/Resume.antt =====
-- Resuming after a pause, and termination, for readers.
use go_brrr.Prelude.{
  ℕ, zero, suc, ◌≤◌, ◌<◌, ◌≡◌, refl, List, ◌++◌, length, drop, arith, sym, ap, ◌∙◌, All, ◌≢◌, [],
  ◌∷◌, append_assoc, All-append, length-append, subst, append-nil, drop-all, ap₂,
}
use go_brrr.Prelude.BitStream.{to_bits, stream, stream-append, to_bits-IsBit, stream-IsBit, IsBit}
use go_brrr.BitReader.{BitReader, set_input}
use go_brrr.BitReader.Unread.{unread, IsReader}
use go_brrr.Resumable.{Machine, Status, done, needs_more_input, out_of_fuel, run}
use go_brrr.Resumable.Stream.{
  IsMachine, run_stream, Agree, finished, paused, exhausted, run-Agree, Resumes, completed, resumed,
  resume_stream,
}

-- The reader whose input goes on with more bytes.
abbrev pub extend : List ℕ → BitReader → BitReader
extend more br = record br { input = br.input ++ more }

drop-append : (n : ℕ) (xs ys : List ℕ) → n ≤ length xs → drop n (xs ++ ys) ≡ drop n xs ++ ys
drop-append zero xs ys h = refl
drop-append (suc n) [] ys h = absurd (omega arith)
drop-append (suc n) (x ∷ xs) ys h = drop-append n xs ys (omega arith)

extend-unread :
    (br : BitReader) (more : List ℕ)
    → IsReader br
    → unread (extend more br) ≡ unread br ++ stream more
unfolding unread
extend-unread br more v =
    rw (drop-append br.pos br.input more v.inside, stream-append (drop br.pos br.input) more)
      (sym (append_assoc (to_bits br.bit_pos br.val) _ _))

set_input-unread :
    (br : BitReader) (more : List ℕ)
    → IsReader br
    → length br.input ≤ br.pos
    → unread (set_input more br) ≡ unread br ++ stream more
unfolding unread set_input stream
set_input-unread br more v p =
    rw (drop-all br.input br.pos p)
      (ap (λ (t : List ℕ). t ++ stream more) (sym (append-nil (to_bits br.bit_pos br.val))))

unread-IsBit : (br : BitReader) → All IsBit (unread br)
unfolding unread
unread-IsBit br =
    All-append IsBit (to_bits br.bit_pos br.val) _ (to_bits-IsBit _ _) (stream-IsBit _)

-- The status, the substate and the bits that are left.
abbrev pub outcome : {S R : Type 0} → Status R × (S × BitReader) → Status R × (S × List ℕ)
outcome (status, (s, br)) = (status, (s, unread br))

module _ {S R : Type 0} (m : Machine S R) (Ok : S → Type 0) (rank : S → ℕ)
    (h : IsMachine m Ok rank) where
  pub viewed :
      (f : ℕ) (s : S) (br : BitReader)
      → Ok s
      → IsReader br
      → run_stream m f s (unread br) ≡ outcome (run m f s br)
  viewed f s br ok v = go _ _ (run-Agree m Ok rank h f s br ok v)
    where
      go :
          (x : Status R × (S × BitReader)) (y : Status R × (S × List ℕ))
          → Agree m Ok rank h x y
          → y ≡ outcome x
      go _ _ (finished r s br v) = refl
      go _ _ (paused s br ok v p) = refl
      go _ _ (exhausted s br) = refl

  -- What a finished run leaves.
  FinishIs : Status R × (S × BitReader) → Type 0
  FinishIs (done r, (s, br)) = IsReader br
  FinishIs (_, (s, br)) = Unit {0}

  finishes :
      (x : Status R × (S × BitReader)) (y : Status R × (S × List ℕ))
      → Agree m Ok rank h x y
      → FinishIs x
  unfolding FinishIs
  finishes _ _ (finished r s br v) = v
  finishes _ _ (paused s br ok v p) = tt
  finishes _ _ (exhausted s br) = tt

  -- A run that ends, seen on bits, ends with a reader that has the bits left.
  pub run-ends :
      (f : ℕ) (s s' : S) (br : BitReader) (r : R) (rest : List ℕ)
      → Ok s
      → IsReader br
      → outcome (run m f s br) ≡ (done r, (s', rest))
      → (br' : BitReader) × (run m f s br ≡ (done r, (s', br')))
        × (unread br' ≡ rest)
        × IsReader br'
  unfolding FinishIs
  run-ends f s s' br r rest ok v e =
      let x = run m f s br in
      let known : x ≡ (done r, (s', x.1.1)) =
        ap₂ (λ (a : Status R) (b : S). (a, (b, x.1.1)))
          (ap (λ (t : Status R × (S × List ℕ)). t.0) e)
          (ap (λ (t : Status R × (S × List ℕ)). t.1.0) e) in
      (
        x.1.1,
        known,
        ap (λ (t : Status R × (S × List ℕ)). t.1.1) e,
        subst FinishIs known (finishes _ _ (run-Agree m Ok rank h f s br ok v)),
      )

  -- What a pause leaves.
  PauseIs : Status R × (S × BitReader) → Type 0
  PauseIs (needs_more_input, (s, br)) = Ok s × IsReader br × (length br.input ≤ br.pos)
  PauseIs (_, (s, br)) = Unit {0}

  pause :
      (x : Status R × (S × BitReader)) (y : Status R × (S × List ℕ))
      → Agree m Ok rank h x y
      → PauseIs x
  unfolding PauseIs
  pause _ _ (finished r s br v) = tt
  pause _ _ (paused s br ok v p) = (ok, v, p)
  pause _ _ (exhausted s br) = tt

  GoesOn : ℕ → S → List ℕ → List ℕ → Status R × (S × List ℕ) → Type 0
  GoesOn f s xs more (needs_more_input, (s', ys)) =
      run_stream m f s (xs ++ more) ≡ run_stream m f s' (ys ++ more)
  GoesOn f s xs more (_, (s', ys)) = Unit {0}

  goes_on :
      (f : ℕ) (s : S) (xs more : List ℕ) (o : Status R × (S × List ℕ))
      → Resumes m Ok rank h f s xs more o
      → GoesOn f s xs more o
  unfolding GoesOn
  goes_on f s xs more _ (completed r s' ys e) = tt
  goes_on f s xs more _ (resumed s' ys ok a le e) = e

  pub resume :
      (f : ℕ) (s s' : S) (br br' : BitReader) (more : List ℕ)
      → Ok s
      → IsReader br
      → All (λ b. b < 256) more
      → rank s < f
      → run m f s br ≡ (needs_more_input, (s', br'))
      → outcome (run m f s' (set_input more br')) ≡ outcome (run m f s (extend more br))
  unfolding PauseIs GoesOn set_input
  resume f s s' br br' more ok v b p e =
      let (ok', v', over) = subst PauseIs e (pause _ _ (run-Agree m Ok rank h f s br ok v)) in
      let same = subst (GoesOn f s (unread br) (stream more)) (viewed f s br ok v ∙ ap outcome e) (
        goes_on f s (unread br) (stream more) _ (
          resume_stream m Ok rank h f s (unread br) (stream more) ok (unread-IsBit br)
            (stream-IsBit more) p)) in
      sym (viewed f s' (set_input more br') ok' (fresh v'))
      ∙ ap (run_stream m f s') (set_input-unread br' more v' over)
      ∙ sym same
      ∙ ap (run_stream m f s) (sym (extend-unread br more v))
      ∙ viewed f s (extend more br) ok (longer v)
    where
      fresh : IsReader br' → IsReader (set_input more br')
      fresh w = record { held = w.held; room = w.room; inside = omega arith; bytes = b }

      longer : IsReader br → IsReader (extend more br)
      longer w = record {
        held = w.held;
        room = w.room;
        inside = omega (arith, w.inside, length-append br.input more);
        bytes = All-append (λ (x : ℕ). x < 256) br.input more w.bytes b;
      }

  -- The status of a run with fuel above the rank.
  Settled : Status R × (S × List ℕ) → Type 0
  Settled (out_of_fuel, (s, xs)) = ⊥
  Settled (_, (s, xs)) = Unit {0}

  settled :
      (f : ℕ) (s : S) (xs more : List ℕ) (o : Status R × (S × List ℕ))
      → Resumes m Ok rank h f s xs more o
      → Settled o
  unfolding Settled
  settled f s xs more _ (completed r s' ys e) = tt
  settled f s xs more _ (resumed s' ys ok a le e) = tt

  pub run-settles :
      (f : ℕ) (s : S) (br : BitReader)
      → Ok s
      → IsReader br
      → rank s < f
      → (run m f s br).0 ≢ out_of_fuel
  unfolding Settled
  run-settles f s br ok v p e =
      subst Settled (viewed f s br ok v ∙ ap (λ t. (t, (outcome (run m f s br)).1)) e) (
        settled f s (unread br) [] _
          (resume_stream m Ok rank h f s (unread br) [] ok (unread-IsBit br) tt p))
