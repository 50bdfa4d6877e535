-- ===== src/Tests/Output.antt =====
-- The chunks that output is collected in.
use go_brrr.Prelude.{ℕ, ◌≡◌, refl, ◌+◌, List, [], ◌∷◌, arith, replicate, length-replicate}
use go_brrr.OutputChunks.{
  ChunkWriter, copy_at, copy_to_last, room_in_last, add_chunk, write_from, write, write_all,
  take_all,
}
use go_brrr.OutputChunks.Taken.{concat, take_all-write_all}

-- Buffers of four bytes that hold something old.
abbrev used_buffers : ℕ → List ℕ
used_buffers k = replicate 4 (200 + k)

abbrev fresh : ChunkWriter
fresh = record { chunks = []; size = 4; n = 0 }

abbrev pieces : List (List ℕ)
pieces = (1 ∷ 2 ∷ 3 ∷ []) ∷ [] ∷ (4 ∷ 5 ∷ 6 ∷ 7 ∷ 8 ∷ 9 ∷ []) ∷ []

-- The second piece fills the first chunk, then two more, the last one in part.
write_all-test : write_all used_buffers pieces fresh ≡ record {
  chunks = (9 ∷ 202 ∷ 202 ∷ 202 ∷ []) ∷ (5 ∷ 6 ∷ 7 ∷ 8 ∷ []) ∷ (1 ∷ 2 ∷ 3 ∷ 4 ∷ []) ∷ [];
  size = 4;
  n = 9;
}
unfolding write_all write write_from room_in_last add_chunk copy_to_last copy_at
write_all-test = refl

take_all-write_all_example :
    take_all (write_all used_buffers pieces fresh) ≡ (1 ∷ 2 ∷ 3 ∷ 4 ∷ 5 ∷ 6 ∷ 7 ∷ 8 ∷ 9 ∷ [], fresh)
unfolding concat
take_all-write_all_example =
    take_all-write_all used_buffers 4 pieces (λ k. length-replicate {A = ℕ} 4 (200 + k))
      (omega arith)
