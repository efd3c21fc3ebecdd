-- ===== src/Transfer/Copy/Copied.antt =====
-- What the buffer holds after the loop: each element at its place, and nothing else changed.
use arcae.Prelude.{
  ℕ, zero, suc, ◌+◌, ◌%◌, ◌^◌, ◌<◌, ◌≤◌, ◌≡◌, ◌≢◌, refl, sym, ap, ◌∙◌, some, List, length,
  replicate, product, All, if◌then◌else◌, length-map,
}
use arcae.Shape.Offsets.Exact.{Inside}
use arcae.Partition.Chunks.{DataChunk}
use arcae.Transfer.{chunk_offset, buffer_offset}
use arcae.Transfer.Copy.{advance, copy_at, copy_loop, copy_chunk_array, mem_sizes}
use arcae.Transfer.Copy.Moves.{move_at, move_loop, move_loop_lem}

-- Where an element of a chunk is copied to.
abbrev pub place : DataChunk → List ℕ → ℕ
place chunk pos = (chunk.flat_offset + buffer_offset chunk pos) % 2 ^ 64

module _ {ℓ} {A : Type ℓ} (chunk : DataChunk) (in_ptr : ℕ → A) where
  pub copy_loop-move_loop :
      (fuel : ℕ) (pos : List ℕ) (buffer : ℕ → A)
      → copy_loop chunk in_ptr fuel pos buffer
        ≡ move_loop (mem_sizes chunk) (chunk_offset chunk) (place chunk) in_ptr fuel pos buffer
  unfolding copy_loop move_loop copy_at move_at
  copy_loop-move_loop zero pos buffer = refl
  copy_loop-move_loop (suc fuel) pos buffer =
      let next = advance (mem_sizes chunk) pos in
      ap (λ rest. if next.1 then some (copy_at chunk in_ptr pos buffer) else rest)
        (copy_loop-move_loop fuel next.0 (copy_at chunk in_ptr pos buffer))

  -- The loop ends, and each element is at its place.
  pub copied_everywhere :
      (fuel : ℕ) (buffer : ℕ → A)
      → All (λ size. 0 < size) (mem_sizes chunk)
      → product (mem_sizes chunk) ≤ fuel
      → (after : ℕ → A) × (copy_chunk_array chunk in_ptr fuel buffer ≡ some after)
        × ((pos : List ℕ)
            → Inside pos (mem_sizes chunk)
            → ((other : List ℕ)
                → Inside other (mem_sizes chunk)
                → place chunk other ≡ place chunk pos
                → other ≡ pos)
            → after (place chunk pos) ≡ in_ptr (chunk_offset chunk pos))
        × ((o : ℕ)
            → ((other : List ℕ) → Inside other (mem_sizes chunk) → place chunk other ≢ o)
            → after o ≡ buffer o)
  unfolding copy_chunk_array
  copied_everywhere fuel buffer some_size enough =
      let start : length chunk.dim_spans ≡ length (mem_sizes chunk) =
        sym (length-map chunk.dim_spans _) in
      let (after, ends, moved, kept) =
        move_loop_lem (mem_sizes chunk) (chunk_offset chunk) (place chunk) in_ptr fuel buffer
          some_size enough in
      (
        after,
        copy_loop-move_loop fuel _ buffer
            ∙ ap
                (λ n.
                  move_loop (mem_sizes chunk) (chunk_offset chunk) (place chunk) in_ptr fuel
                    (replicate n 0) buffer)
                start
            ∙ ends,
        moved,
        kept,
      )

  -- The loop ends: as many rounds as the chunk has elements suffice, where no memory span is empty.
  -- If no other position of the chunk has the place of `pos`, its element is there afterwards, and
  -- what is at `o`, which is the place of no position, is as it was.
  pub copy_chunk_array_lem :
      (fuel : ℕ) (buffer : ℕ → A) (pos : List ℕ) (o : ℕ)
      → All (λ size. 0 < size) (mem_sizes chunk)
      → product (mem_sizes chunk) ≤ fuel
      → Inside pos (mem_sizes chunk)
      → ((other : List ℕ)
          → Inside other (mem_sizes chunk)
          → place chunk other ≡ place chunk pos
          → other ≡ pos)
      → ((other : List ℕ) → Inside other (mem_sizes chunk) → place chunk other ≢ o)
      → (after : ℕ → A) × (copy_chunk_array chunk in_ptr fuel buffer ≡ some after)
        × (after (place chunk pos) ≡ in_ptr (chunk_offset chunk pos))
        × (after o ≡ buffer o)
  copy_chunk_array_lem fuel buffer pos o some_size enough inside alone away =
      let (after, ends, moved, kept) = copied_everywhere fuel buffer some_size enough in
      (after, ends, moved pos inside alone, kept o away)
