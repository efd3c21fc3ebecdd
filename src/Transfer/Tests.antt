-- ===== src/Transfer/Tests.antt =====
-- A chunk of two dimensions, in a result of three and four.
use arcae.Prelude.{
  ℕ, zero, suc, List, ◌≢◌, length, ◌+◌, ◌≡◌, refl, false, some, none, [], ◌∷◌, product, pos, ok,
  arith, get_or,
}
use arcae.Partition.{SpanPairs}
use arcae.Partition.Chunks.{
  DataChunk, make_chunk, buffer_strides_of, strides, strides_loop, min_element,
}
use arcae.Shape.{ResultShapeData}
use arcae.Shape.Offsets.{flat_offset, offset_loop, to_int, row_offsets, n_elements}
use arcae.Shape.Offsets.Exact.{flat_offset-offset_of, offset_of, Inside}
use arcae.Shape.Offsets.Rows.{flat_offset-row_offsets}
use arcae.Transfer.{add_strides, buffer_steps, chunk_offset, buffer_offset}
use arcae.Transfer.Groups.{group_chunks, group_sizes, group_loop, group_step, closes}
use arcae.Transfer.Groups.Count.{group_chunks-Ends}
use arcae.Partition.Split.Ends.{Ends}
use arcae.Transfer.Copy.{copy_chunk_array}
use arcae.Transfer.Gather.{gather_chunk_array}
use arcae.Transfer.Gather.Gathered.{gather_chunk_array-copy_chunk_array}
use arcae.Transfer.Copy.Copied.{copy_chunk_array_lem, place}
use arcae.Transfer.Place.{buffer_offset-offset_of}

abbrev result_shape : ResultShapeData
result_shape = record {
  fixed_shape = some (3 ∷ 4 ∷ []);
  ndim = pos 2;
  dtype = 9;
  row_shapes = none;
  cell_extents = none;
}

abbrev spans : SpanPairs
spans =
    record { disk = pos 5 ∷ pos 6 ∷ []; mem = 2 ∷ 1 ∷ [] }
    ∷ record { disk = pos 0 ∷ pos 1 ∷ []; mem = 1 ∷ 3 ∷ [] }
    ∷ []

abbrev chunk : DataChunk
chunk = record {
  dim_spans = spans;
  min_mem_index = 1 ∷ 1 ∷ [];
  flat_offset = 4;
  buffer_strides = 1 ∷ 3 ∷ [];
  chunk_strides = 1 ∷ 2 ∷ [];
  contiguous = false;
}

make_chunk_test : make_chunk product result_shape spans false ≡ ok chunk
unfolding make_chunk buffer_strides_of strides strides_loop min_element flat_offset offset_loop
    to_int
make_chunk_test = refl

buffer_offset-offset_of_example :
    4 + buffer_offset chunk (0 ∷ 1 ∷ []) ≡ offset_of (2 ∷ 3 ∷ []) (3 ∷ 4 ∷ [])
buffer_offset-offset_of_example =
    buffer_offset-offset_of product result_shape (3 ∷ 4 ∷ []) refl refl (omega arith) (omega arith)
      spans false (0 ∷ 1 ∷ []) (omega arith) make_chunk_test

flat_offset-offset_of_example : flat_offset product result_shape (2 ∷ 3 ∷ []) none ≡ ok 11
flat_offset-offset_of_example =
    flat_offset-offset_of product result_shape (3 ∷ 4 ∷ []) (2 ∷ 3 ∷ []) none refl refl
      (omega arith) (omega arith) (omega arith)

-- Three rows, of which one is missing.
abbrev varied_shape : ResultShapeData
varied_shape = record {
  fixed_shape = none;
  ndim = pos 2;
  dtype = 9;
  row_shapes = some ((3 ∷ []) ∷ [] ∷ (4 ∷ []) ∷ []);
  cell_extents = none;
}

flat_offset-row_offsets_example :
    (flat_offset product varied_shape (1 ∷ 2 ∷ []) (some (row_offsets product varied_shape))
      ≡ flat_offset product varied_shape (1 ∷ 2 ∷ []) none)
    × (get_or (row_offsets product varied_shape) 3 0 ≡ n_elements product varied_shape)
flat_offset-row_offsets_example =
    flat_offset-row_offsets product varied_shape 2 (1 ∷ 2 ∷ []) refl refl (omega arith)

-- A stride of 2^32 is lost in an `int`: the element after 2^32 others has the offset of the first.
stride_wraps_test :
    flat_offset product
      (record result_shape { fixed_shape = some (65536 ∷ 65536 ∷ 2 ∷ []); ndim = pos 3 })
      (0 ∷ 0 ∷ 1 ∷ [])
      none
    ≡ ok 0
unfolding flat_offset offset_loop to_int
stride_wraps_test = refl

group_chunks-Ends_example :
    Ends 0 (group_chunks (chunk ∷ chunk ∷ chunk ∷ []) 2) 3
    × (length (group_chunks (chunk ∷ chunk ∷ chunk ∷ []) 2) ≡ 2)
group_chunks-Ends_example = group_chunks-Ends (chunk ∷ chunk ∷ chunk ∷ []) 2 (omega arith)

group_chunks_test : group_chunks (chunk ∷ chunk ∷ chunk ∷ []) 2 ≡ 2 ∷ 3 ∷ []
unfolding group_chunks group_sizes group_loop group_step closes
group_chunks_test = refl

-- What holds at the four positions of the chunk holds at all.
four_positions :
    (P : List ℕ → Type 0)
    → P (0 ∷ 0 ∷ [])
    → P (1 ∷ 0 ∷ [])
    → P (0 ∷ 1 ∷ [])
    → P (1 ∷ 1 ∷ [])
    → (pos : List ℕ) → Inside pos (2 ∷ 2 ∷ [])
    → P pos
four_positions P a b c d [] h = absurd h
four_positions P a b c d (p ∷ []) h = absurd h.1
four_positions P a b c d (p ∷ q ∷ r ∷ rest) h = absurd h.1.1
four_positions P a b c d (zero ∷ zero ∷ []) h = a
four_positions P a b c d (suc zero ∷ zero ∷ []) h = b
four_positions P a b c d (zero ∷ suc zero ∷ []) h = c
four_positions P a b c d (suc zero ∷ suc zero ∷ []) h = d
four_positions P a b c d (suc (suc p) ∷ q ∷ []) h = absurd (omega (arith, h.0))
four_positions P a b c d (zero ∷ suc (suc q) ∷ []) h = absurd (omega (arith, h.1.0))
four_positions P a b c d (suc zero ∷ suc (suc q) ∷ []) h = absurd (omega (arith, h.1.0))

abbrev empty_buffer : ℕ → ℕ
empty_buffer i = 0

abbrev in_ptr : ℕ → ℕ
in_ptr i = i + 100

copy_chunk_array_example :
    (after : ℕ → ℕ) × (copy_chunk_array chunk in_ptr 4 empty_buffer ≡ some after)
    × (after 11 ≡ 102)
    × (after 0 ≡ 0)
unfolding chunk_offset buffer_offset add_strides buffer_steps
copy_chunk_array_example =
    copy_chunk_array_lem chunk in_ptr 4 empty_buffer (0 ∷ 1 ∷ []) 0 (omega arith) (omega arith)
      (omega arith)
      (four_positions (λ other. place chunk other ≡ place chunk (0 ∷ 1 ∷ []) → other ≡ 0 ∷ 1 ∷ [])
        (λ e. absurd (omega arith)) (λ e. absurd (omega arith)) (λ e. refl)
        (λ e. absurd (omega arith)))
      (four_positions (λ other. place chunk other ≢ 0) (λ e. absurd (omega arith))
        (λ e. absurd (omega arith)) (λ e. absurd (omega arith)) (λ e. absurd (omega arith)))

gather_chunk_array-copy_chunk_array_example :
    (gathered after : ℕ → ℕ) × (gather_chunk_array chunk in_ptr 4 empty_buffer ≡ some gathered)
    × (copy_chunk_array chunk gathered 4 empty_buffer ≡ some after)
    × (after 11 ≡ 111)
    × (after 0 ≡ 0)
unfolding chunk_offset buffer_offset add_strides buffer_steps
gather_chunk_array-copy_chunk_array_example =
    gather_chunk_array-copy_chunk_array chunk in_ptr 4 empty_buffer empty_buffer (0 ∷ 1 ∷ []) 0
      (omega arith) (omega arith) (omega arith)
      (four_positions
        (λ other. chunk_offset chunk other ≡ chunk_offset chunk (0 ∷ 1 ∷ []) → other ≡ 0 ∷ 1 ∷ [])
        (λ e. absurd (omega arith)) (λ e. absurd (omega arith)) (λ e. refl)
        (λ e. absurd (omega arith)))
      (four_positions (λ other. place chunk other ≡ place chunk (0 ∷ 1 ∷ []) → other ≡ 0 ∷ 1 ∷ [])
        (λ e. absurd (omega arith)) (λ e. absurd (omega arith)) (λ e. refl)
        (λ e. absurd (omega arith)))
      (four_positions (λ other. place chunk other ≢ 0) (λ e. absurd (omega arith))
        (λ e. absurd (omega arith)) (λ e. absurd (omega arith)) (λ e. absurd (omega arith)))
