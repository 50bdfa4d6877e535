-- ===== src/Headers/Resuming.antt =====
-- decodeMetaBlockLength goes on after a pause as it would have without one.
use go_brrr.Prelude.{
  ℕ, ◌+◌, ◌<◌, ◌≡◌, refl, List, ltb, ◌==◌, ◌&&◌, arith, All, Bool-cases, inl, inr, Bool, true,
  false, ap, ap₂, sym, ◌∙◌, subst, if◌then◌else◌,
}
use mathlib.Core.Bool.{true≢false}
use go_brrr.BitReader.{BitReader, set_input}
use go_brrr.BitReader.Unread.{IsReader}
use go_brrr.Resumable.{Next, Status, done, needs_more_input, out_of_fuel, run}
use go_brrr.Resumable.Resume.{outcome, resume, extend}
use go_brrr.Resumable.Alike.{NextAlike, both_proceed, both_finish, OutAlike, alike, run-OutAlike}
use go_brrr.Headers.{
  HeaderState, HeaderSubstate, header_none, header_empty, header_nibbles, header_size,
  header_uncompressed, header_reserved, header_bytes, header_metadata, HeaderResult, header_width,
  header_step, size_step, metadata_step, header_machine, decode_meta_block_length, enter, leave,
  leave_state, in_loop, exuberant_nibble, reserved_bit, exuberant_metadata_nibble, header_success,
}
use go_brrr.Headers.MetaBlock.{AnyState, header_rank, header_machine-IsMachine, at_counter}

-- Only the loops read the local counter, and no case reads the stored one.
data Same : HeaderState → HeaderState → Type 0 where
  same :
      (c c' : ℕ) (b : HeaderSubstate) (l u m : Bool) (n k i i' : ℕ)
      → (in_loop b ≡ true → i ≡ i')
      → Same (at_counter c b l u m n k i) (at_counter c' b l u m n k i')

abbrev SameNext : Next HeaderState HeaderResult → Next HeaderState HeaderResult → Type 0
SameNext = NextAlike Same

width-Same : (s t : HeaderState) → Same s t → header_width s ≡ header_width t
unfolding header_width in_loop
width-Same _ _ (same c c' header_none l u m n k i i' h) = refl
width-Same _ _ (same c c' header_empty l u m n k i i' h) = refl
width-Same _ _ (same c c' header_nibbles l u m n k i i' h) = refl
width-Same _ _ (same c c' header_size l u m n k i i' h) =
    ap (λ (x : ℕ). if ltb x k then 4 else 0) (h refl)
width-Same _ _ (same c c' header_uncompressed l u m n k i i' h) = refl
width-Same _ _ (same c c' header_reserved l u m n k i i' h) = refl
width-Same _ _ (same c c' header_bytes l u m n k i i' h) = refl
width-Same _ _ (same c c' header_metadata l u m n k i i' h) =
    ap (λ (x : ℕ). if ltb x k then 8 else 0) (h refl)

size-Same :
    (c c' : ℕ) (l u m : Bool) (n k i v : ℕ)
    → SameNext
        (size_step (at_counter c header_size l u m n k i) v)
        (size_step (at_counter c' header_size l u m n k i) v)
unfolding size_step in_loop
size-Same c c' l u m n k i v = elim (Bool-cases (ltb i k)) [
  | inl e ↦ elim (Bool-cases ((i + 1 == k) && ltb 4 k && (v == 0))) [
    | inl d ↦
        rw (e, d) (both_finish exuberant_nibble (same c c' header_size l u m n k i i (λ _. refl)))
    | inr d ↦ rw (e, d) (both_proceed (same c c' header_size l u m _ k (i + 1) (i + 1) (λ _. refl)))
  ]
  | inr e ↦ rw e (both_proceed (same c c' header_uncompressed l u m n k i i (λ _. refl)))
]

metadata-Same :
    (c c' : ℕ) (l u m : Bool) (n k i v : ℕ)
    → SameNext
        (metadata_step (at_counter c header_metadata l u m n k i) v)
        (metadata_step (at_counter c' header_metadata l u m n k i) v)
unfolding metadata_step in_loop
metadata-Same c c' l u m n k i v = elim (Bool-cases (ltb i k)) [
  | inl e ↦ elim (Bool-cases ((i + 1 == k) && ltb 1 k && (v == 0))) [
    | inl d ↦
        rw (e, d)
          (both_finish exuberant_metadata_nibble
            (same c c' header_metadata l u m n k i i (λ _. refl)))
    | inr d ↦
        rw (e, d) (both_proceed (same c c' header_metadata l u m _ k (i + 1) (i + 1) (λ _. refl)))
  ]
  | inr e ↦
      rw e (both_finish header_success (same c c' header_none l u m (n + 1) k i i (λ _. refl)))
]

outside : (i i' : ℕ) → false ≡ true → i ≡ i'
outside i i' f = absurd (true≢false (sym f))

step-Same : (s t : HeaderState) (v : ℕ) → Same s t → SameNext (header_step s v) (header_step t v)
unfolding header_step in_loop
step-Same _ _ v (same c c' header_none l u m n k i i' h) = elim (Bool-cases (v == 0)) [
  | inl e ↦ rw e (both_proceed (same c c' header_nibbles _ false false 0 k i i' (outside i i')))
  | inr e ↦ rw e (both_proceed (same c c' header_empty _ false false 0 k i i' (outside i i')))
]
step-Same _ _ v (same c c' header_empty l u m n k i i' h) = elim (Bool-cases (v == 0)) [
  | inl e ↦ rw e (both_proceed (same c c' header_nibbles l u m n k i i' (outside i i')))
  | inr e ↦ rw e (both_finish header_success (same c c' header_none l u m n k i i' (outside i i')))
]
step-Same _ _ v (same c c' header_nibbles l u m n k i i' h) = elim (Bool-cases (v == 3)) [
  | inl e ↦ rw e (both_proceed (same 0 0 header_reserved l u true n _ 0 0 (λ _. refl)))
  | inr e ↦ rw e (both_proceed (same 0 0 header_size l u m n _ 0 0 (λ _. refl)))
]
step-Same _ _ v (same c c' header_size l u m n k i i' h) =
    subst
      (λ (x : ℕ).
        NextAlike Same (size_step (at_counter c header_size l u m n k i) v)
          (size_step (at_counter c' header_size l u m n k x) v))
      (h refl) (size-Same c c' l u m n k i v)
step-Same _ _ v (same c c' header_uncompressed l u m n k i i' h) =
    both_finish header_success (same c c' header_none l _ m (n + 1) k i i' (outside i i'))
step-Same _ _ v (same c c' header_reserved l u m n k i i' h) = elim (Bool-cases (v == 0)) [
  | inl e ↦ rw e (both_proceed (same c c' header_bytes l u m n k i i' (outside i i')))
  | inr e ↦
      rw e (both_finish reserved_bit (same c c' header_reserved l u m n k i i' (outside i i')))
]
step-Same _ _ v (same c c' header_bytes l u m n k i i' h) = elim (Bool-cases (v == 0)) [
  | inl e ↦ rw e (both_finish header_success (same c c' header_none l u m n k i i' (outside i i')))
  | inr e ↦ rw e (both_proceed (same 0 0 header_metadata l u m n v 0 0 (λ _. refl)))
]
step-Same _ _ v (same c c' header_metadata l u m n k i i' h) =
    subst
      (λ (x : ℕ).
        NextAlike Same (metadata_step (at_counter c header_metadata l u m n k i) v)
          (metadata_step (at_counter c' header_metadata l u m n k x) v))
      (h refl) (metadata-Same c c' l u m n k i v)

-- A call after a pause starts where the paused one was.
entered-Same : (t : HeaderState) → Same (enter (leave_state needs_more_input t)) t
unfolding enter leave_state
entered-Same t = elim (Bool-cases (in_loop t.substate)) [
  | inl e ↦
      rw (e, leave_state)
        (same t.i t.loop_counter t.substate t.is_last_metablock t.is_uncompressed t.is_metadata
          t.remaining_len t.size_nibbles t.i t.i (λ _. refl))
  | inr e ↦
      rw (e, leave_state)
        (same t.loop_counter t.loop_counter t.substate t.is_last_metablock t.is_uncompressed
          t.is_metadata t.remaining_len t.size_nibbles t.loop_counter t.i
          (λ f. absurd (true≢false (sym f ∙ e))))
]

-- What is left of a state when the stored counter is forgotten, except after a pause in a loop.
unfoldable pub seen : Status HeaderResult → HeaderState → HeaderState
seen (done r) s = record s { loop_counter = 0 }
seen needs_more_input s = if in_loop s.substate then s else record s { loop_counter = 0 }
seen out_of_fuel s = record s { loop_counter = 0 }

unfoldable pub view :
    Status HeaderResult × (HeaderState × List ℕ) → Status HeaderResult × (HeaderState × List ℕ)
view (status, (s, bits)) = (status, (seen status s, bits))

left-Same :
    (status : Status HeaderResult) (s t : HeaderState)
    → Same s t
    → seen status (leave_state status s) ≡ seen status (leave_state status t)
unfolding seen leave_state
left-Same (done r) _ _ (same c c' b l u m n k i i' h) = refl
left-Same out_of_fuel _ _ (same c c' b l u m n k i i' h) = refl
left-Same needs_more_input _ _ (same c c' b l u m n k i i' h) = elim (Bool-cases (in_loop b)) [
  | inl e ↦
      rw (e)
        (rw (e) (ap (λ (x : ℕ). record (at_counter 0 b l u m n k 0) { loop_counter = x }) (h e)))
  | inr e ↦ rw (e) (rw (e) refl)
]

view-OutAlike :
    (x y : Status HeaderResult × (HeaderState × BitReader))
    → OutAlike Same x y
    → view (outcome (leave x)) ≡ view (outcome (leave y))
unfolding view leave
view-OutAlike _ _ (alike {s} {t} status br h) =
    ap (λ (a : HeaderState). (status, (a, (outcome (status, (s, br))).1.1)))
      (left-Same status s t h)

-- A header whose input ends early can be resumed: after setInput with the bytes that follow, the
-- decoder gives the result, the unread bits and the state that one call on the whole input gives.
-- The stored loop counter is the same too where input runs out in a loop over nibbles or bytes; a
-- later call reads it only then.
pub decode_meta_block_length-resumes :
    (s s' : HeaderState) (br br' : BitReader) (more : List ℕ)
    → s.substate ≡ header_none
    → IsReader br
    → All (λ b. b < 256) more
    → decode_meta_block_length s br ≡ (needs_more_input, (s', br'))
    → view (outcome (decode_meta_block_length s' (set_input more br')))
      ≡ view (outcome (decode_meta_block_length s (extend more br)))
unfolding decode_meta_block_length header_rank leave enter
decode_meta_block_length-resumes s s' br br' more z v b e =
    let y = run header_machine 16 (enter s) br in
    let t = y.1.0 in
    let status : y.0 ≡ needs_more_input = ap (λ x. x.0) e in
    let reader : y.1.1 ≡ br' = ap (λ x. x.1.1) e in
    let paused : y ≡ (needs_more_input, (t, br')) =
      ap₂ (λ (a : Status HeaderResult) (r : BitReader). (a, (t, r))) status reader in
    let left : leave_state needs_more_input t ≡ s' =
      ap (λ a. leave_state a t) (sym status) ∙ ap (λ x. x.1.0) e in
    let start = subst (λ a. Same (enter a) t) left (entered-Same t) in
    view-OutAlike _ _ (
      run-OutAlike header_machine Same width-Same step-Same 16 (enter s') t (set_input more br')
        start)
    ∙ ap (λ o. view (leave o))
        (resume header_machine AnyState header_rank header_machine-IsMachine 16 (enter s) t br br'
          more tt v b (rw (header_rank, z) (omega arith)) paused)
