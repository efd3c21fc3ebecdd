-- ===== src/Transfer/Copy.antt =====
-- The loop of `CopyChunkArray` of cpp/arcae/read_impl.cc, which visits all positions of a chunk.
pub mod Order
pub mod Moves
pub mod Copied
use arcae.Prelude.{
  ℕ, zero, suc, ◌+◌, ◌%◌, ◌^◌, Bool, true, false, Option, none, some, List, [], ◌∷◌, map, length,
  replicate, ltb, ◌==◌, if◌then◌else◌,
}
use arcae.Partition.{SpanPair}
use arcae.Partition.Chunks.{DataChunk}
use arcae.Transfer.{chunk_offset, buffer_offset}

-- The loop over the dimensions that moves to the next position, and whether it was the last: then
-- all dimensions are reset.
unfoldable pub advance : List ℕ → List ℕ → List ℕ × Bool
advance [] pos = (pos, true)
advance (size ∷ sizes) [] = ([], true)
advance (size ∷ sizes) (p ∷ pos) =
    let rest = advance sizes pos in
    if ltb (suc p) size then (suc p ∷ pos, false) else (0 ∷ rest.0, rest.1)

-- `out_ptr[o] = value`.
abbrev pub write {ℓ} : {A : Type ℓ} → (ℕ → A) → ℕ → A → ℕ → A
write buffer o value i = if i == o then value else buffer i

abbrev pub mem_sizes : DataChunk → List ℕ
mem_sizes chunk = map (λ (span : SpanPair). length span.mem) chunk.dim_spans

module _ {ℓ} {A : Type ℓ} (chunk : DataChunk) (in_ptr : ℕ → A) where
  -- `out_ptr[o] = std::move(in_ptr[i]);` at a position.
  unfoldable pub copy_at : List ℕ → (ℕ → A) → ℕ → A
  copy_at pos buffer =
      write buffer ((chunk.flat_offset + buffer_offset chunk pos) % 2 ^ 64)
        (in_ptr (chunk_offset chunk pos))

  -- `for (auto done = false; !done;)`; `none` means that the fuel ran out.
  unfoldable pub copy_loop : ℕ → List ℕ → (ℕ → A) → Option (ℕ → A)
  copy_loop zero pos buffer = none
  copy_loop (suc fuel) pos buffer =
      let next = advance (mem_sizes chunk) pos in
      let rest = copy_loop fuel next.0 (copy_at pos buffer) in
      if next.1 then some (copy_at pos buffer) else rest

  -- A chunk has a dimension at least, and an element.
  unfoldable pub copy_chunk_array : ℕ → (ℕ → A) → Option (ℕ → A)
  copy_chunk_array fuel buffer = copy_loop fuel (replicate (length chunk.dim_spans) 0) buffer
