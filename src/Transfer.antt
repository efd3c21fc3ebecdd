-- ===== src/Transfer.antt =====
-- `CopyChunkArray` of cpp/arcae/read_impl.cc: the elements of a chunk are copied to their positions in
-- the buffer of the result.
pub mod Place
pub mod Groups
pub mod Copy
pub mod Gather
mod Tests
use arcae.Prelude.{ℕ, ◌+◌, ◌-◌, ◌*◌, ◌%◌, ◌^◌, List, [], ◌∷◌, get_or}
use arcae.Partition.{SpanPair, SpanPairs}
use arcae.Partition.Chunks.{DataChunk}

-- `i += pos[d] * chunk_strides[d];`, and likewise for `o`.
unfoldable pub add_strides : List ℕ → List ℕ → ℕ → ℕ
add_strides [] strides offset = offset
add_strides (step ∷ steps) [] offset = offset
add_strides (step ∷ steps) (stride ∷ strides) offset =
    add_strides steps strides ((offset + step * stride) % 2 ^ 64)

-- `spans[d].mem[pos[d]] - min_mem[d]`.
unfoldable pub buffer_steps : SpanPairs → List ℕ → List ℕ → List ℕ
buffer_steps [] min_mem pos = []
buffer_steps (span ∷ spans) [] pos = []
buffer_steps (span ∷ spans) (m ∷ min_mem) [] = []
buffer_steps (span ∷ spans) (m ∷ min_mem) (p ∷ pos) =
    (get_or span.mem p 0 - m) ∷ buffer_steps spans min_mem pos

-- Where the element at a position of the chunk lies in the chunk's own array.
unfoldable pub chunk_offset : DataChunk → List ℕ → ℕ
chunk_offset chunk pos = add_strides pos chunk.chunk_strides 0

-- Where it lies in the buffer, from the chunk's flat offset on.
unfoldable pub buffer_offset : DataChunk → List ℕ → ℕ
buffer_offset chunk pos =
    add_strides (buffer_steps chunk.dim_spans chunk.min_mem_index pos) chunk.buffer_strides 0
