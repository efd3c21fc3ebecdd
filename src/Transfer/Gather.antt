-- ===== src/Transfer/Gather.antt =====
-- `GatherChunkArray` of cpp/arcae/write_impl.cc: the elements of a chunk are moved from their positions
-- in the buffer into an array.
pub mod Gathered
use arcae.Prelude.{
  ℕ, zero, suc, ◌+◌, ◌%◌, ◌^◌, Option, none, some, List, length, replicate, if◌then◌else◌,
}
use arcae.Partition.Chunks.{DataChunk}
use arcae.Transfer.{chunk_offset, buffer_offset}
use arcae.Transfer.Copy.{advance, write, mem_sizes}

module _ {ℓ} {A : Type ℓ} (chunk : DataChunk) (buffer : ℕ → A) where
  -- `out_ptr[o] = std::move(in_ptr[i]);` at a position.
  unfoldable pub gather_at : List ℕ → (ℕ → A) → ℕ → A
  gather_at pos array =
      write array (chunk_offset chunk pos)
        (buffer ((chunk.flat_offset + buffer_offset chunk pos) % 2 ^ 64))

  -- `for (auto done = false; !done;)`; `none` means that the fuel ran out.
  unfoldable pub gather_loop : ℕ → List ℕ → (ℕ → A) → Option (ℕ → A)
  gather_loop zero pos array = none
  gather_loop (suc fuel) pos array =
      let next = advance (mem_sizes chunk) pos in
      let rest = gather_loop fuel next.0 (gather_at pos array) in
      if next.1 then some (gather_at pos array) else rest

  -- The array holds `array` before.
  unfoldable pub gather_chunk_array : ℕ → (ℕ → A) → Option (ℕ → A)
  gather_chunk_array fuel array = gather_loop fuel (replicate (length chunk.dim_spans) 0) array
