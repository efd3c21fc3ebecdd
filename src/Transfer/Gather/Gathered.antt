-- ===== src/Transfer/Gather/Gathered.antt =====
-- What is gathered from a buffer and copied to another is at the same places.
use arcae.Prelude.{
  ℕ, zero, suc, ◌<◌, ◌≤◌, ◌≡◌, ◌≢◌, refl, sym, ap, ◌∙◌, some, List, length, replicate, product, All,
  if◌then◌else◌, length-map,
}
use arcae.Shape.Offsets.Exact.{Inside}
use arcae.Partition.Chunks.{DataChunk}
use arcae.Transfer.{chunk_offset}
use arcae.Transfer.Copy.{advance, mem_sizes, copy_chunk_array}
use arcae.Transfer.Copy.Moves.{move_at, move_loop, move_loop_lem}
use arcae.Transfer.Copy.Copied.{place, copied_everywhere}
use arcae.Transfer.Gather.{gather_at, gather_loop, gather_chunk_array}

module _ {ℓ} {A : Type ℓ} (chunk : DataChunk) (buffer : ℕ → A) where
  gather_loop-move_loop :
      (fuel : ℕ) (pos : List ℕ) (array : ℕ → A)
      → gather_loop chunk buffer fuel pos array
        ≡ move_loop (mem_sizes chunk) (place chunk) (chunk_offset chunk) buffer fuel pos array
  unfolding gather_loop move_loop gather_at move_at
  gather_loop-move_loop zero pos array = refl
  gather_loop-move_loop (suc fuel) pos array =
      let next = advance (mem_sizes chunk) pos in
      ap (λ rest. if next.1 then some (gather_at chunk buffer pos array) else rest)
        (gather_loop-move_loop fuel next.0 (gather_at chunk buffer pos array))

  -- Both loops end, with as much fuel as the chunk has elements, where no memory span is empty: the
  -- chunk is gathered from a buffer, whatever the array holds before, and then copied to another
  -- buffer. If no other position of the chunk has the place of `pos`, or its offset in the chunk, its
  -- element is at the place it had, and what is at `o`, which is the place of no position, is as it
  -- was.
  pub gather_chunk_array-copy_chunk_array :
      (fuel : ℕ) (array other_buffer : ℕ → A) (pos : List ℕ) (o : ℕ)
      → All (λ size. 0 < size) (mem_sizes chunk)
      → product (mem_sizes chunk) ≤ fuel
      → Inside pos (mem_sizes chunk)
      → ((other : List ℕ)
          → Inside other (mem_sizes chunk)
          → chunk_offset chunk other ≡ chunk_offset chunk pos
          → other ≡ pos)
      → ((other : List ℕ)
          → Inside other (mem_sizes chunk)
          → place chunk other ≡ place chunk pos
          → other ≡ pos)
      → ((other : List ℕ) → Inside other (mem_sizes chunk) → place chunk other ≢ o)
      → (gathered after : ℕ → A) × (gather_chunk_array chunk buffer fuel array ≡ some gathered)
        × (copy_chunk_array chunk gathered fuel other_buffer ≡ some after)
        × (after (place chunk pos) ≡ buffer (place chunk pos))
        × (after o ≡ other_buffer o)
  unfolding gather_chunk_array
  gather_chunk_array-copy_chunk_array fuel array other_buffer pos o some_size enough inside
        alone_there alone_here away =
      let start : length chunk.dim_spans ≡ length (mem_sizes chunk) =
        sym (length-map chunk.dim_spans _) in
      let (gathered, ends, moved, _) =
        move_loop_lem (mem_sizes chunk) (place chunk) (chunk_offset chunk) buffer fuel array
          some_size enough in
      let (after, copies, copied, kept) =
        copied_everywhere chunk gathered fuel other_buffer some_size enough in
      (
        gathered,
        after,
        gather_loop-move_loop fuel _ array
            ∙ ap
                (λ n.
                  move_loop (mem_sizes chunk) (place chunk) (chunk_offset chunk) buffer fuel
                    (replicate n 0) array)
                start
            ∙ ends,
        copies,
        copied pos inside alone_here ∙ moved pos inside alone_there,
        kept o away,
      )
