-- ===== src/Partition/Chunks.antt =====
-- `MakeDataChunks` and the methods of `DataChunk` of cpp/arcae/data_partition.cc: where each chunk
-- lies in the buffer of the result.
pub mod Strides
use arcae.Prelude.{
  ℕ, zero, suc, ◌+◌, ◌-◌, ◌*◌, ◌%◌, ◌^◌, min, Bool, true, false, ◌&&◌, ◌||◌, not, Option, none,
  some, List, [], ◌∷◌, ◌++◌, map, length, get_or, is_empty, product, ◌==◌, leb, ltb, if◌then◌else◌,
  ℤ, pos, is_neg, ◌-ℤ◌, eqb_ℤ, Result, ok, err, invalid, ◌>>=◌,
}
use arcae.Partition.{SpanPair, SpanPairs, no_span, disk_at}
use arcae.Shape.{IPosition, ResultShapeData, get_row_shape}
use arcae.Shape.Offsets.{flat_offset, row_offsets}

-- What the arrays of `SharedChunkData` hold of one chunk.
pub record DataChunk : Type 0 where
  pub dim_spans : SpanPairs
  pub min_mem_index : List ℕ
  pub flat_offset : ℕ
  pub buffer_strides : List ℕ
  pub chunk_strides : List ℕ
  pub contiguous : Bool

-- `rounds` rounds of the loop over `d`, which starts at 1, as the strides do:
-- `product *= shape[d - 1]; strides[offset + d] *= product;`
unfoldable pub strides_loop : ℕ → ℕ → ℕ → List ℕ → List ℕ
strides_loop zero d product shape = []
strides_loop (suc rounds) d product shape =
    let product = product * get_or shape (d - 1) 0 % 2 ^ 64 in
    product ∷ strides_loop rounds (suc d) product shape

unfoldable pub strides : ℕ → List ℕ → List ℕ
strides zero shape = []
strides (suc rounds) shape = 1 ∷ strides_loop rounds 1 1 shape

-- `*std::min_element`, or 0 where there is none.
unfoldable pub min_element : List ℕ → ℕ
min_element [] = 0
min_element (i ∷ []) = i
min_element (i ∷ j ∷ rest) = min i (min_element (j ∷ rest))

abbrev pub min_mem_of : SpanPairs → List ℕ
min_mem_of = map (λ (span : SpanPair). min_element span.mem)

module _ (shape_product : IPosition → ℕ) (data_shape : ResultShapeData) where
  -- The strides in the buffer: in the rows of one shape, or in the one row that the chunk has.
  unfoldable pub buffer_strides_of : SpanPairs → Result (List ℕ)
  buffer_strides_of dim_span =
      let ndim = length dim_span in
      elim data_shape.fixed_shape [
        | some shape ↦ ok (strides ndim shape)
        | none ↦
            let row_span = (get_or dim_span (ndim - 1) no_span).mem in
            if not (length row_span == 1)
            then err invalid
            else ok (strides ndim (get_row_shape data_shape (get_or row_span 0 0)))
      ]

  -- `data_shape.IsFixed() ? nullptr : &row_offsets`.
  abbrev pub row_offsets_ptr : Option (List ℕ)
  row_offsets_ptr = elim data_shape.fixed_shape [
    | some shape ↦ none
    | none ↦ some (row_offsets shape_product data_shape)
  ]

  -- The round of the loop for one chunk.
  unfoldable pub make_chunk : SpanPairs → Bool → Result DataChunk
  make_chunk dim_span contiguous = do
    buffer ← buffer_strides_of dim_span
    offset ← flat_offset shape_product data_shape (min_mem_of dim_span) row_offsets_ptr
    ok (record {
      dim_spans = dim_span;
      min_mem_index = min_mem_of dim_span;
      flat_offset = offset;
      buffer_strides = buffer;
      chunk_strides =
          strides (length dim_span) (map (λ (span : SpanPair). length span.mem) dim_span);
      contiguous = contiguous;
    })

  -- `for (std::size_t chunk = 0; chunk < nchunks; ++chunk)`. No chunk, no round.
  unfoldable pub make_data_chunks : List SpanPairs → List Bool → Result (List DataChunk)
  make_data_chunks [] contiguous = ok []
  make_data_chunks (dim_span ∷ dim_spans) [] = ok []
  make_data_chunks (dim_span ∷ dim_spans) (flag ∷ contiguous) = do
    chunk ← make_chunk dim_span flag
    chunks ← make_data_chunks dim_spans contiguous
    ok (chunk ∷ chunks)

-- `nElements`.
abbrev pub chunk_elements : DataChunk → ℕ
chunk_elements chunk =
    product (map (λ (span : SpanPair). length span.disk) chunk.dim_spans) % 2 ^ 64

-- `GetShape`.
abbrev pub chunk_shape : DataChunk → IPosition
chunk_shape chunk = map (λ (span : SpanPair). length span.disk) chunk.dim_spans

abbrev pub any_neg : List ℤ → Bool
any_neg [] = false
any_neg (i ∷ disk) = is_neg i || any_neg disk

abbrev pub any_missing : SpanPairs → Bool
any_missing [] = false
any_missing (span ∷ spans) = any_neg span.disk || any_missing spans

-- `IsEmpty`.
abbrev pub is_empty_chunk : DataChunk → Bool
is_empty_chunk chunk = any_missing chunk.dim_spans || (chunk_elements chunk == 0)
