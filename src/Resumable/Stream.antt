-- ===== src/Resumable/Stream.antt =====
-- A resumable decoder depends only on the stream of bits, and not on where its input was cut.
use go_brrr.Prelude.{
  ℕ, zero, suc, ◌^◌, ◌≤◌, ◌<◌, ◌≡◌, refl, List, ◌++◌, length, take, drop, true, false, ltb, Option,
  arith, sym, subst, ◌∙◌, inl, inr, length-append, lt-cases, All, All-append, append_assoc,
}
use go_brrr.Prelude.BitStream.{
  from_bits, to_bits, from_bits-to_bits, length-to_bits, take_exact, drop_exact, IsBit, cut,
}
use go_brrr.BitReader.{BitReader, safe_read_bits}
use go_brrr.BitReader.Unread.{unread, IsReader}
use go_brrr.BitReader.Read.{ReadBits, got, starved, safe_read_bits-ReadBits}
use go_brrr.Resumable.{
  Machine, Next, proceed, finish, Status, done, needs_more_input, out_of_fuel, run, after_read,
  after_case,
}

-- The conditions on a machine: in the states that occur, reads are narrow and steps descend.
pub record IsMachine {S R : Type 0} (m : Machine S R) (Ok : S → Type 0) (rank : S → ℕ)
    : Type 0 where
  pub narrow : (s : S) → Ok s → m.width s ≤ 24
  pub keeps : (s s' : S) (v : ℕ) → Ok s → v < 2 ^ m.width s → m.step s v ≡ proceed s' → Ok s'
  pub descends :
      (s s' : S) (v : ℕ) → Ok s → v < 2 ^ m.width s → m.step s v ≡ proceed s' → rank s' < rank s

-- The conditions, case by case.
abbrev pub Descends : {S R : Type 0} (Ok : S → Type 0) (rank : S → ℕ) → S → Next S R → Type 0
Descends Ok rank s (finish s' r) = Unit {0}
Descends Ok rank s (proceed s') = Ok s' × (rank s' < rank s)

pub IsMachine-Descends :
    {S R : Type 0} (m : Machine S R) (Ok : S → Type 0) (rank : S → ℕ)
    → ((s : S) → Ok s → m.width s ≤ 24)
    → ((s : S) (v : ℕ) → Ok s → v < 2 ^ m.width s → Descends Ok rank s (m.step s v))
    → IsMachine m Ok rank
IsMachine-Descends m Ok rank narrow d = record {
  narrow = narrow;
  keeps = λ s s' v ok lt e. (subst (Descends Ok rank s) e (d s v ok lt)).0;
  descends = λ s s' v ok lt e. (subst (Descends Ok rank s) e (d s v ok lt)).1;
}

-- The same decoder over a list of bits.
module _ {S R : Type 0} (m : Machine S R) where
  unfoldable pub after_step :
      (S → List ℕ → Status R × (S × List ℕ)) → List ℕ → Next S R → Status R × (S × List ℕ)
  after_step continue xs (finish s r) = (done r, (s, xs))
  after_step continue xs (proceed s) = continue s xs

  unfoldable pub run_stream : ℕ → S → List ℕ → Status R × (S × List ℕ)
  run_stream zero s xs = (out_of_fuel, (s, xs))
  run_stream (suc fuel) s xs =
      let n = m.width s in
      elim (ltb (length xs) n) [
        | true ↦ (needs_more_input, (s, xs))
        | false ↦ after_step (run_stream fuel) (drop n xs) (m.step s (from_bits (take n xs)))
      ]

  pub stream_short :
      (fuel : ℕ) (s : S) (xs : List ℕ)
      → length xs < m.width s
      → run_stream (suc fuel) s xs ≡ (needs_more_input, (s, xs))
  unfolding run_stream
  stream_short fuel s xs h =
      let e : ltb (length xs) (m.width s) ≡ true = ground arith in rw (run_stream, e) refl

  pub stream_read :
      (fuel : ℕ) (s : S) (x : ℕ) (ys : List ℕ)
      → x < 2 ^ m.width s
      → run_stream (suc fuel) s (to_bits (m.width s) x ++ ys)
        ≡ after_step (run_stream fuel) ys (m.step s x)
  unfolding run_stream
  stream_read fuel s x ys h =
      let n = m.width s in
      let e : ltb (length (to_bits n x ++ ys)) n ≡ false =
        ground (arith, length-append (to_bits n x) ys, length-to_bits n x) in
      rw
        (
          run_stream,
          e,
          take_exact n (to_bits n x) ys (length-to_bits n x),
          drop_exact n (to_bits n x) ys (length-to_bits n x),
          from_bits-to_bits n x h,
        )
        refl

module _ {S R : Type 0} (m : Machine S R) (Ok : S → Type 0) (rank : S → ℕ)
    (h : IsMachine m Ok rank) where
  -- The reader's run and the stream's.
  pub data Agree : Status R × (S × BitReader) → Status R × (S × List ℕ) → Type 0 where
    finished :
        (r : R) (s : S) (br : BitReader)
        → IsReader br
        → Agree (done r, (s, br)) (done r, (s, unread br))
    paused :
        (s : S) (br : BitReader)
        → Ok s
        → IsReader br
        → length br.input ≤ br.pos
        → Agree (needs_more_input, (s, br)) (needs_more_input, (s, unread br))
    exhausted :
        (s : S) (br : BitReader) → Agree (out_of_fuel, (s, br)) (out_of_fuel, (s, unread br))

  pub run-Agree :
      (fuel : ℕ) (s : S) (br : BitReader)
      → Ok s
      → IsReader br
      → Agree (run m fuel s br) (run_stream m fuel s (unread br))
  unfolding run after_case after_step run_stream after_read
  run-Agree zero s br ok v = exhausted s br
  run-Agree (suc fuel) s br ok v =
      one (safe_read_bits (m.width s) br) (safe_read_bits-ReadBits (m.width s) br v (h.narrow s ok))
        (λ s' br' ok' v'. run-Agree fuel s' br' ok' v')
    where
      Later : Type 0
      Later =
          (s' : S) (br' : BitReader)
          → Ok s'
          → IsReader br'
          → Agree (run m fuel s' br') (run_stream m fuel s' (unread br'))

      case :
          (x : ℕ) (br' : BitReader) (nx : Next S R)
          → m.step s x ≡ nx
          → x < 2 ^ m.width s
          → IsReader br'
          → Later
          → Agree
              (after_case m (run m fuel) br' nx)
              (after_step m (run_stream m fuel) (unread br') nx)
      case x br' (finish s' r) e lt w k = finished r s' br' w
      case x br' (proceed s') e lt w k = k s' br' (h.keeps s s' x ok lt e) w

      one :
          (r : Option ℕ × BitReader)
          → ReadBits (m.width s) br r
          → Later
          → Agree (after_read m s (run m fuel) r) (run_stream m (suc fuel) s (unread br))
      one _ (starved br' l u w i p) k =
          rw (stream_short m fuel s (unread br) l) (rw (sym u) (paused s br' ok w p))
      one _ (got x br' lt u w i) k =
          rw (u, stream_read m fuel s x (unread br') lt) (case x br' (m.step s x) refl lt w k)

  -- Any two amounts of fuel above the rank give the same, which is not out of fuel.
  same_fuel :
      (f g : ℕ) (s : S) (xs : List ℕ)
      → Ok s
      → All IsBit xs
      → rank s < f
      → rank s < g
      → run_stream m f s xs ≡ run_stream m g s xs
  unfolding after_step
  same_fuel zero g s xs ok a p q = absurd (omega arith)
  same_fuel (suc f) zero s xs ok a p q = absurd (omega arith)
  same_fuel (suc f) (suc g) s xs ok a p q = elim (lt-cases (length xs) (m.width s)) [
    | inl few ↦ stream_short m f s xs few ∙ sym (stream_short m g s xs few)
    | inr many ↦
        let (x, ys, lt, e, b) = cut (m.width s) xs a many in
        rw (e, stream_read m f s x ys lt, stream_read m g s x ys lt)
          (next x ys (m.step s x) refl lt (λ s' ok' p' q'. same_fuel f g s' ys ok' b p' q'))
  ]
    where
      next :
          (x : ℕ) (ys : List ℕ) (nx : Next S R)
          → m.step s x ≡ nx
          → x < 2 ^ m.width s
          → ((s' : S)
              → Ok s'
              → rank s' < f
              → rank s' < g
              → run_stream m f s' ys ≡ run_stream m g s' ys)
          → after_step m (run_stream m f) ys nx ≡ after_step m (run_stream m g) ys nx
      next x ys (finish s' r) e lt k = refl
      next x ys (proceed s') e lt k =
          let d = h.descends s s' x ok lt e in
          k s' (h.keeps s s' x ok lt e) (omega arith) (omega arith)

  -- A run that pauses goes on, when more bits come, as if they had been there.
  pub data Resumes (f : ℕ) (s : S) (xs more : List ℕ) : Status R × (S × List ℕ) → Type 0 where
    completed :
        (r : R) (s' : S) (ys : List ℕ)
        → run_stream m f s (xs ++ more) ≡ (done r, (s', ys ++ more))
        → Resumes f s xs more (done r, (s', ys))
    resumed :
        (s' : S) (ys : List ℕ)
        → Ok s'
        → All IsBit ys
        → rank s' ≤ rank s
        → run_stream m f s (xs ++ more) ≡ run_stream m f s' (ys ++ more)
        → Resumes f s xs more (needs_more_input, (s', ys))

  pub resume_stream :
      (f : ℕ) (s : S) (xs more : List ℕ)
      → Ok s
      → All IsBit xs
      → All IsBit more
      → rank s < f
      → Resumes f s xs more (run_stream m f s xs)
  unfolding after_step
  resume_stream zero s xs more ok a b p = absurd (omega arith)
  resume_stream (suc f) s xs more ok a b p = elim (lt-cases (length xs) (m.width s)) [
    | inl few ↦ rw (stream_short m f s xs few) (resumed s xs ok a (omega arith) refl)
    | inr many ↦
        let (x, ys, lt, e, c) = cut (m.width s) xs a many in
        rw (e, stream_read m f s x ys lt)
          (next x ys (m.step s x) refl lt c (λ s' ok' p'. resume_stream f s' ys more ok' c b p'))
  ]
    where
      later :
          (x : ℕ) (ys : List ℕ)
          → x < 2 ^ m.width s
          → run_stream m (suc f) s (to_bits (m.width s) x ++ ys ++ more)
            ≡ after_step m (run_stream m f) (ys ++ more) (m.step s x)
      later x ys lt =
          rw (append_assoc (to_bits (m.width s) x) ys more) (stream_read m f s x (ys ++ more) lt)

      onward :
          (x : ℕ) (ys : List ℕ) (s' : S) (o : Status R × (S × List ℕ))
          → m.step s x ≡ proceed s'
          → x < 2 ^ m.width s
          → Resumes f s' ys more o
          → Resumes (suc f) s (to_bits (m.width s) x ++ ys) more o
      onward x ys s' _ e lt (completed r s'' zs t) = completed r s'' zs (later x ys lt ∙ rw e t)
      onward x ys s' _ e lt (resumed s'' zs ok'' c le t) =
          let d = h.descends s s' x ok lt e in
          resumed s'' zs ok'' c (omega arith) (
            later x ys lt
            ∙ rw e t
            ∙ same_fuel f (suc f) s'' (zs ++ more) ok'' (All-append IsBit zs more c b) (omega arith)
                (omega arith))

      next :
          (x : ℕ) (ys : List ℕ) (nx : Next S R)
          → m.step s x ≡ nx
          → x < 2 ^ m.width s
          → All IsBit ys
          → ((s' : S) → Ok s' → rank s' < f → Resumes f s' ys more (run_stream m f s' ys))
          → Resumes
              (suc f)
              s
              (to_bits (m.width s) x ++ ys)
              more
              (after_step m (run_stream m f) ys nx)
      next x ys (finish s' r) e lt c k = completed r s' ys (later x ys lt ∙ rw e refl)
      next x ys (proceed s') e lt c k =
          let d = h.descends s s' x ok lt e in
          onward x ys s' (run_stream m f s' ys) e lt (k s' (h.keeps s s' x ok lt e) (omega arith))
