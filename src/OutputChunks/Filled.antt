-- ===== src/OutputChunks/Filled.antt =====
-- The chunks of output_chunks.go hold the bytes that are written to them.
use native.Mathlib.Nat.{suc-mul, mod-eq_of_lt, add-mul-mod_self_right}
use go_brrr.Prelude.{
  ℕ, zero, suc, ◌+◌, ◌-◌, ◌*◌, ◌%◌, ◌≤◌, ◌<◌, ◌≡◌, min, ap, sym, ◌∙◌, List, [], ◌∷◌, ◌++◌, ◌==◌,
  length, take, drop, All, arith, inl, inr, Bool-cases, ==_iff, length-append, append_assoc,
  append-nil, length-take, length-drop, take-append-drop, subst,
}
use go_brrr.Prelude.BitStream.{take_exact}
use go_brrr.OutputChunks.{ChunkWriter, copy_at, copy_to_last, room_in_last, add_chunk, write_from}
use go_brrr.OutputChunks.Copies.{
  flat, length-flat, take-front, take-all, copy_at-front, length-copy_at,
}

-- The bytes are in the chunks, which are of the size, with no chunk to spare.
pub record Holds (size : ℕ) (w : ChunkWriter) (bytes : List ℕ) : Type 0 where
  pub chunk_size : w.size ≡ size
  pub sizes : All (λ c. length c ≡ size) w.chunks
  pub count : w.n ≡ length bytes
  pub room : w.n ≤ length w.chunks * size
  pub needed : length w.chunks * size ≤ w.n + size
  pub content : take w.n (flat w.chunks) ≡ bytes

-- The position in the last chunk.
position :
    (size n l : ℕ)
    → l * size ≤ n
    → n < suc l * size
    → (n % size ≡ n - l * size) × (n - l * size < size)
position size n l low high =
    let within : n - l * size < size = omega (arith, suc-mul l size, low, high) in
    let split : n ≡ n - l * size + l * size = omega (arith, low) in
    (
      ap (λ k. k % size) split ∙ add-mul-mod_self_right (n - l * size) l size ∙ mod-eq_of_lt within,
      within,
    )

copied-content :
    (size n : ℕ) (last : List ℕ) (chunks : List (List ℕ)) (src : List ℕ)
    → All (λ c. length c ≡ size) chunks
    → (at : ℕ) → n ≡ length chunks * size + at
    → at ≤ length last
    → let copied = min (length last - at) (length src) in
      take (n + copied) (flat (copy_at at last src ∷ chunks))
      ≡ take n (flat (last ∷ chunks)) ++ take copied src
unfolding flat
copied-content size n last chunks src a at e h =
    let copied = min (length last - at) (length src) in
    let here : n ≡ length (flat chunks) + at = omega (arith, length-flat size chunks a, e) in
    let there : n + copied ≡ length (flat chunks) + (at + copied) = omega (arith, here) in
    ap (λ k. take k (flat chunks ++ copy_at at last src)) there
    ∙ take-front (at + copied) (flat chunks) (copy_at at last src)
    ∙ ap (λ xs. flat chunks ++ xs) (copy_at-front at last src h)
    ∙ sym (append_assoc (flat chunks) (take at last) (take copied src))
    ∙ ap (λ xs. xs ++ take copied src)
        (sym (take-front at (flat chunks) last) ∙ ap (λ k. take k (flat chunks ++ last)) (sym here))

-- A copy into the last chunk, which has room: at least one byte when there is one.
copied-Holds :
    (size s n : ℕ) (chunks : List (List ℕ)) (bytes src : List ℕ)
    → Holds size record { chunks = chunks; size = s; n = n } bytes
    → n < length chunks * size
    → let at = n % s in
      let copied = min (room_in_last at chunks) (length src) in
      Holds size
        record { chunks = copy_to_last at src chunks; size = s; n = n + copied }
        (bytes ++ take copied src)
      × (0 < room_in_last at chunks)
unfolding room_in_last copy_to_last
copied-Holds size s n [] bytes src h lt = absurd (omega (arith, lt))
copied-Holds size s n (last ∷ chunks) bytes src h lt =
    let at = n % s in
    let copied = min (length last - at) (length src) in
    let (offset, within) =
      position size n (length chunks) (omega (arith, h.needed, suc-mul (length chunks) size)) lt in
    let same : at ≡ n - length chunks * size = ap (λ k. n % k) h.chunk_size ∙ offset in
    let low : length chunks * size ≤ n = omega (arith, h.needed, suc-mul (length chunks) size) in
    let here : n ≡ length chunks * size + at = omega (arith, same, low) in
    let fits : at ≤ length last = omega (arith, same, within, h.sizes.0) in
    (
      record {
        chunk_size = h.chunk_size;
        sizes = (length-copy_at at last src fits ∙ h.sizes.0, h.sizes.1);
        count =
            omega (arith, h.count, length-append bytes (take copied src), length-take copied src);
        room = omega (arith, h.sizes.0, suc-mul (length chunks) size, here, fits);
        needed = omega (arith, h.needed);
        content =
            copied-content size n last chunks src h.sizes.1 at here fits
            ∙ ap (λ xs. xs ++ take copied src) h.content;
      },
      omega (arith, same, within, h.sizes.0),
    )

-- A chunk is added when the last one is full.
add_chunk-Holds :
    (get : ℕ → List ℕ) (size : ℕ) (w : ChunkWriter) (bytes : List ℕ)
    → ((k : ℕ) → length (get k) ≡ size)
    → 0 < size
    → Holds size w bytes
    → Holds size (add_chunk get w) bytes
      × ((add_chunk get w).n < length (add_chunk get w).chunks * size)
unfolding add_chunk flat
add_chunk-Holds get size w bytes g pos h = elim (Bool-cases (w.n == length w.chunks * w.size)) [
  | inl full ↦
      let count : w.n ≡ length w.chunks * size =
        (==_iff w.n (length w.chunks * w.size)).0 full
        ∙ ap (λ s. length w.chunks * s) h.chunk_size in
      rw (full, add_chunk)
        (
          record {
            chunk_size = h.chunk_size;
            sizes = (g (length w.chunks), h.sizes);
            count = h.count;
            room = omega (arith, count, suc-mul (length w.chunks) size);
            needed = omega (arith, count, suc-mul (length w.chunks) size);
            content =
                let whole : length (flat w.chunks) ≡ w.n =
                  length-flat size w.chunks h.sizes ∙ sym count in
                take_exact w.n (flat w.chunks) (get (length w.chunks)) whole
                ∙ sym (take-all w.n (flat w.chunks) (omega (arith, whole)))
                ∙ h.content;
          },
          omega (arith, count, pos, suc-mul (length w.chunks) size),
        )
  | inr part ↦
      let size_is = ap (λ s. length w.chunks * s) h.chunk_size in
      rw (part, add_chunk) (h, ground (arith, part, size_is, h.room))
]

pub write_from-Holds :
    (get : ℕ → List ℕ) (size fuel : ℕ) (p : List ℕ) (w : ChunkWriter) (bytes : List ℕ)
    → ((k : ℕ) → length (get k) ≡ size)
    → 0 < size
    → length p ≤ fuel
    → Holds size w bytes
    → Holds size (write_from fuel get p w) (bytes ++ p)
unfolding write_from
write_from-Holds get size zero [] w bytes g pos le h = rw (append-nil bytes) h
write_from-Holds get size zero (x ∷ xs) w bytes g pos le h = absurd (omega (arith, le))
write_from-Holds get size (suc fuel) [] w bytes g pos le h = rw (append-nil bytes) h
write_from-Holds get size (suc fuel) (x ∷ xs) w bytes g pos le h =
    let (h1, room) = add_chunk-Holds get size w bytes g pos h in
    let w1 = add_chunk get w in
    let copied = min (room_in_last (w1.n % w1.size) w1.chunks) (length (x ∷ xs)) in
    let w2 : ChunkWriter = record w1 {
      chunks = copy_to_last (w1.n % w1.size) (x ∷ xs) w1.chunks;
      n = w1.n + copied;
    } in
    let (h2, more) = copied-Holds size w1.size w1.n w1.chunks bytes (x ∷ xs) h1 room in
    let some : 0 < copied = omega (arith, more) in
    let left : length (drop copied (x ∷ xs)) ≤ fuel =
      omega (arith, length-drop copied (x ∷ xs), some, le) in
    let rest =
      write_from-Holds get size fuel (drop copied (x ∷ xs)) w2 (bytes ++ take copied (x ∷ xs)) g pos
        left h2 in
    subst (Holds size (write_from fuel get (drop copied (x ∷ xs)) w2))
      (append_assoc bytes (take copied (x ∷ xs)) (drop copied (x ∷ xs))
        ∙ ap (λ ys. bytes ++ ys) (take-append-drop copied (x ∷ xs)))
      rest
