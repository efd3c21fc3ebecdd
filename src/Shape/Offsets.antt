-- ===== src/Shape/Offsets.antt =====
-- `FlatOffset`, `RowOffsets` and `nElements` of cpp/arcae/result_shape.cc: where an element of the
-- result lies in the buffer.
pub mod Rows
pub mod Exact
use arcae.Prelude.{
  ℕ, zero, suc, ◌+◌, ◌-◌, ◌*◌, ◌%◌, ◌^◌, Option, none, some, List, [], ◌∷◌, take, get_or, ltb,
  if◌then◌else◌, Result, ok, ◌>>=◌,
}
use arcae.Shape.{IPosition, ResultShapeData, consistent_ndim, row_shapes_of, get_row_shape}

-- An `int` that holds a 64-bit number: the low 32 bits, with their sign extended to 64 bits.
unfoldable pub to_int : ℕ → ℕ
to_int x = let low = x % 2 ^ 32 in if ltb low (2 ^ 31) then low else low + (2 ^ 64 - 2 ^ 32)

-- `for (int d = 0, product = 1; ...; ++d) { offset += index[d] * product; product *= shape[d]; }`
unfoldable pub offset_loop : List ℕ → IPosition → ℕ → ℕ → ℕ
offset_loop [] shape product offset = offset
offset_loop (i ∷ index) [] product offset = offset
offset_loop (i ∷ index) (extent ∷ shape) product offset =
    offset_loop index shape (to_int (product * extent % 2 ^ 64)) ((offset + i * product) % 2 ^ 64)

-- `shape_product` is `IPosition::product`, which is not part of the repository.
module _ (shape_product : IPosition → ℕ) where
  -- `std::accumulate` of the elements of rows.
  unfoldable pub accumulate : ℕ → List IPosition → ℕ
  accumulate elements [] = elements
  accumulate elements (shape ∷ shapes) =
      accumulate ((elements + shape_product shape) % 2 ^ 64) shapes

  -- `offsets[r + 1] = offsets[r] + GetRowShape(r).product()`, from an offset on.
  unfoldable pub row_offsets_from : ℕ → List IPosition → List ℕ
  row_offsets_from offset [] = offset ∷ []
  row_offsets_from offset (shape ∷ shapes) =
      offset ∷ row_offsets_from ((offset + shape_product shape) % 2 ^ 64) shapes

  abbrev pub row_offsets : ResultShapeData → List ℕ
  row_offsets data_shape = row_offsets_from 0 (row_shapes_of data_shape)

  -- The part of `FlatOffset` for rows of many shapes.
  unfoldable pub varied_offset : ResultShapeData → ℕ → List ℕ → Option (List ℕ) → ℕ
  varied_offset data_shape ndim index row_offsets =
      let row = get_or index (ndim - 1) 0 in
      let offset = offset_loop (take (ndim - 1) index) (get_row_shape data_shape row) 1 0 in
      elim row_offsets [
        | some offsets ↦ (offset + get_or offsets row 0) % 2 ^ 64
        | none ↦ accumulate offset (take row (row_shapes_of data_shape))
      ]

  -- Indices are positions in memory, so not negative.
  unfoldable pub flat_offset : ResultShapeData → List ℕ → Option (List ℕ) → Result ℕ
  flat_offset data_shape index row_offsets = consistent_ndim data_shape >>= λ ndim.
      elim data_shape.fixed_shape [
        | some shape ↦ ok (offset_loop (take ndim index) shape 1 0)
        | none ↦ ok (varied_offset data_shape ndim index row_offsets)
      ]

  unfoldable pub n_elements : ResultShapeData → ℕ
  n_elements data_shape = elim data_shape.fixed_shape [
    | some shape ↦ shape_product shape
    | none ↦ accumulate 0 (row_shapes_of data_shape)
  ]
