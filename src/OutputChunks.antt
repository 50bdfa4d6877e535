-- ===== src/OutputChunks.antt =====
-- output_chunks.go: the chunks in which the compressed or decompressed bytes are collected. The list
-- of chunks has the last one first. `get k` is the buffer that the pool hands out for the k-th
-- chunk; its old content is arbitrary.
pub mod Copies
pub mod Filled
pub mod Taken
use go_brrr.Prelude.{
  ℕ, zero, suc, ◌+◌, ◌-◌, ◌*◌, ◌%◌, min, List, [], ◌∷◌, ◌++◌, ◌==◌, if◌then◌else◌, length, take,
  drop, replicate,
}

pub record ChunkWriter : Type 0 where
  pub chunks : List (List ℕ)
  pub size : ℕ
  pub n : ℕ

-- `copy(dst[at:], src)`.
unfoldable pub copy_at : ℕ → List ℕ → List ℕ → List ℕ
copy_at at dst src =
    let copied = min (length dst - at) (length src) in
    take at dst ++ (take copied src ++ drop (at + copied) dst)

unfoldable pub copy_to_last : ℕ → List ℕ → List (List ℕ) → List (List ℕ)
copy_to_last at src [] = []
copy_to_last at src (last ∷ chunks) = copy_at at last src ∷ chunks

unfoldable pub room_in_last : ℕ → List (List ℕ) → ℕ
room_in_last at [] = 0
room_in_last at (last ∷ chunks) = length last - at

unfoldable pub add_chunk : (ℕ → List ℕ) → ChunkWriter → ChunkWriter
add_chunk get w =
    if w.n == length w.chunks * w.size
    then record w { chunks = get (length w.chunks) ∷ w.chunks }
    else w

-- The loop of write, with a round of fuel for each byte.
unfoldable pub write_from : (fuel : ℕ) → (ℕ → List ℕ) → List ℕ → ChunkWriter → ChunkWriter
write_from zero get p w = w
write_from (suc fuel) get [] w = w
write_from (suc fuel) get (x ∷ xs) w =
    let w1 = add_chunk get w in
    let at = w1.n % w1.size in
    let copied = min (room_in_last at w1.chunks) (length (x ∷ xs)) in
    write_from fuel get (drop copied (x ∷ xs))
      record w1 { chunks = copy_to_last at (x ∷ xs) w1.chunks; n = w1.n + copied }

unfoldable pub write : (ℕ → List ℕ) → List ℕ → ChunkWriter → ChunkWriter
write get p w = write_from (length p) get p w

-- The copies of take, the first chunk's first.
unfoldable pub copy_chunks : ℕ → List (List ℕ) → List ℕ → List ℕ
copy_chunks size [] out = out
copy_chunks size (chunk ∷ chunks) out =
    copy_at (length chunks * size) (copy_chunks size chunks out) chunk

unfoldable pub discard : ChunkWriter → ChunkWriter
discard w = record w { chunks = []; n = 0 }

-- The bytes, and the emptied writer.
unfoldable pub take_all : ChunkWriter → List ℕ × ChunkWriter
take_all w =
    if w.n == 0 then ([], discard w) else (copy_chunks w.size w.chunks (replicate w.n 0), discard w)

unfoldable pub write_all : (ℕ → List ℕ) → List (List ℕ) → ChunkWriter → ChunkWriter
write_all get [] w = w
write_all get (p ∷ ps) w = write_all get ps (write get p w)
