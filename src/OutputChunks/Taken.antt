-- ===== src/OutputChunks/Taken.antt =====
-- What is written to the chunks of output_chunks.go is what is taken.
use native.Mathlib.Nat.{suc-mul}
use go_brrr.Prelude.{
  ℕ, ◌+◌, ◌*◌, ◌≤◌, ◌<◌, ◌≡◌, refl, ap, ap₂, sym, ◌∙◌, List, [], ◌∷◌, ◌++◌, ◌==◌, length, take,
  drop, replicate, All, arith, inl, inr, Bool-cases, ==_iff, append_assoc, append-nil, length-drop,
  length-replicate, subst, drop-drop,
}
use go_brrr.OutputChunks.{ChunkWriter, copy_at, write, copy_chunks, discard, take_all, write_all}
use go_brrr.OutputChunks.Copies.{
  flat, length-flat, take-front, copy_at-append, copy_at-whole, copy_at-cut,
}
use go_brrr.OutputChunks.Filled.{Holds, write_from-Holds}

-- The bytes of the writes.
unfoldable pub concat : List (List ℕ) → List ℕ
concat [] = []
concat (p ∷ ps) = p ++ concat ps

write_all-Holds :
    (get : ℕ → List ℕ) (size : ℕ) (ps : List (List ℕ)) (w : ChunkWriter) (bytes : List ℕ)
    → ((k : ℕ) → length (get k) ≡ size)
    → 0 < size
    → Holds size w bytes
    → Holds size (write_all get ps w) (bytes ++ concat ps)
unfolding write_all write concat
write_all-Holds get size [] w bytes g pos h = rw (append-nil bytes) h
write_all-Holds get size (p ∷ ps) w bytes g pos h =
    subst (Holds size (write_all get ps (write get p w))) (append_assoc bytes p (concat ps)) (
      write_all-Holds get size ps (write get p w) (bytes ++ p) g pos
        (write_from-Holds get size (length p) p w bytes g pos (omega arith) h))

-- Chunks that the output has room for are copied whole.
copy_chunks-whole :
    (size : ℕ) (chunks : List (List ℕ)) (out : List ℕ)
    → All (λ c. length c ≡ size) chunks
    → length chunks * size ≤ length out
    → copy_chunks size chunks out ≡ flat chunks ++ drop (length chunks * size) out
unfolding copy_chunks flat
copy_chunks-whole size [] out a h = let e : 0 * size ≡ 0 = omega arith in rw e refl
copy_chunks-whole size (chunk ∷ chunks) out a h =
    let back = drop (length chunks * size) out in
    let before = length-flat size chunks a.1 in
    let whole =
      copy_chunks-whole size chunks out a.1 (omega (arith, h, suc-mul (length chunks) size)) in
    ap (λ xs. copy_at (length chunks * size) xs chunk) whole
    ∙ ap (λ k. copy_at k (flat chunks ++ back) chunk) (sym before)
    ∙ copy_at-append (flat chunks) back chunk
    ∙ ap (λ xs. flat chunks ++ xs)
        (copy_at-whole back chunk (
          omega
            (arith, a.0, h, suc-mul (length chunks) size, length-drop (length chunks * size) out)))
    ∙ sym (append_assoc (flat chunks) chunk (drop (length chunk) back))
    ∙ ap (λ ys. (flat chunks ++ chunk) ++ ys)
        (drop-drop (length chunks * size) (length chunk) out
          ∙ ap (λ k. drop k out) (omega (arith, a.0, suc-mul (length chunks) size)))

-- The last chunk's copy stops at the end of the output.
copy_chunks-take :
    (size : ℕ) (chunks : List (List ℕ)) (out : List ℕ)
    → All (λ c. length c ≡ size) chunks
    → length out ≤ length chunks * size
    → length chunks * size ≤ length out + size
    → copy_chunks size chunks out ≡ take (length out) (flat chunks)
unfolding copy_chunks flat
copy_chunks-take size [] [] a h g = refl
copy_chunks-take size [] (x ∷ out) a h g = absurd (omega (arith, h))
copy_chunks-take size (chunk ∷ chunks) out a h g =
    let back = drop (length chunks * size) out in
    let before = length-flat size chunks a.1 in
    let whole =
      copy_chunks-whole size chunks out a.1 (omega (arith, g, suc-mul (length chunks) size)) in
    ap (λ xs. copy_at (length chunks * size) xs chunk) whole
    ∙ ap (λ k. copy_at k (flat chunks ++ back) chunk) (sym before)
    ∙ copy_at-append (flat chunks) back chunk
    ∙ ap (λ xs. flat chunks ++ xs)
        (copy_at-cut back chunk (
          omega
            (arith, a.0, h, suc-mul (length chunks) size, length-drop (length chunks * size) out)))
    ∙ sym (take-front (length back) (flat chunks) chunk)
    ∙ ap (λ k. take k (flat chunks ++ chunk))
        (omega
          (arith, before, g, suc-mul (length chunks) size, length-drop (length chunks * size) out))

empty-Holds : (size : ℕ) → Holds size record { chunks = []; size = size; n = 0 } []
unfolding flat
empty-Holds size = record {
  chunk_size = refl;
  sizes = tt;
  count = refl;
  room = omega arith;
  needed = omega arith;
  content = refl;
}

take_all-Holds :
    (size : ℕ) (w : ChunkWriter) (bytes : List ℕ)
    → Holds size w bytes
    → take_all w ≡ (bytes, record { chunks = []; size = size; n = 0 })
unfolding take_all discard
take_all-Holds size w bytes h =
    let emptied : discard w ≡ record { chunks = []; size = size; n = 0 } =
      ap (λ s. record { chunks = []; size = s; n = 0 }) h.chunk_size in
    elim (Bool-cases (w.n == 0)) [
      | inl none ↦
          let nil : [] ≡ bytes =
            ap (λ k. take k (flat w.chunks)) (sym ((==_iff w.n 0).0 none)) ∙ h.content in
          rw (none, take_all) (ap₂ (λ xs w'. (xs, w')) nil emptied)
      | inr some ↦
          let out = replicate w.n 0 in
          let taken : copy_chunks size w.chunks out ≡ bytes =
            copy_chunks-take size w.chunks out h.sizes
              (omega (arith, length-replicate {A = ℕ} w.n 0, h.room))
              (omega (arith, length-replicate {A = ℕ} w.n 0, h.needed))
            ∙ ap (λ k. take k (flat w.chunks)) (length-replicate {A = ℕ} w.n 0)
            ∙ h.content in
          rw (some, take_all)
            (ap₂ (λ xs w'. (xs, w')) (ap (λ s. copy_chunks s w.chunks out) h.chunk_size ∙ taken)
              emptied)
    ]

-- When pieces of any lengths are written to a chunk writer that has no chunks, `take` gives the
-- bytes of the pieces in their order, whatever the pool's buffers held, and leaves a writer that
-- has none. The pool's buffers are of the writer's chunk size, and this is not zero.
pub take_all-write_all :
    (get : ℕ → List ℕ) (size : ℕ) (ps : List (List ℕ))
    → ((k : ℕ) → length (get k) ≡ size)
    → 0 < size
    → take_all (write_all get ps record { chunks = []; size = size; n = 0 })
      ≡ (concat ps, record { chunks = []; size = size; n = 0 })
take_all-write_all get size ps g pos =
    take_all-Holds size (write_all get ps record { chunks = []; size = size; n = 0 }) (concat ps) (
      write_all-Holds get size ps record { chunks = []; size = size; n = 0 } [] g pos
        (empty-Holds size))
