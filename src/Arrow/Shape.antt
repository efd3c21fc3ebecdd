-- ===== src/Arrow/Shape.antt =====
-- `GetArrowResultShapeData`, `GetRowShapes` and `GetResultShapeData` of cpp/arcae/result_shape.cc: the
-- shape of the data that an Arrow array holds.
pub mod Count
pub mod Total
use arcae.Prelude.{
  ℕ, zero, suc, ◌+◌, ◌-◌, Bool, true, false, ◌&&◌, not, Option, none, some, List, [], ◌∷◌, ◌++◌,
  map, reverse, length, get_or, iota, ltb, ◌==◌, if◌then◌else◌, pos, ◌-ℤ◌, Result, ok, err, invalid,
  not_implemented, ◌>>=◌, ◌>>◌, fail_if, traverse,
}
use arcae.Shape.{IPosition, Column, ResultShapeData, consistent_ndim}
use arcae.Arrow.{ListLevel, ArrowArray, leaf, other, list, array_length}

-- The variables that the loop over the nesting changes; `shape` is in C order.
pub record Nesting : Type 0 where
  pub fixed_shape : Bool
  pub shape : List ℕ
  pub ndim : ℕ

abbrev pub first_nesting : ℕ → Nesting
first_nesting n = record { fixed_shape = true; shape = n ∷ []; ndim = 1 }

-- The lists from `i` on, `rounds` of them, have the length `dim_size`.
unfoldable pub same_lengths : ListLevel → ℕ → ℕ → ℕ → Bool
same_lengths level dim_size zero i = true
same_lengths level dim_size (suc rounds) i =
    dim_size == level.value_length i && same_lengths level dim_size rounds (suc i)

-- `MaybeUpdateShapeAndNdim`, apart from its check for nulls.
unfoldable pub update_shape : ListLevel → Nesting → Nesting
update_shape level st =
    let ndim = st.ndim + 1 in
    let dim_size = level.value_length 0 in
    if not st.fixed_shape
    then record st { ndim = ndim }
    else if not level.is_fixed_size && not (same_lengths level dim_size level.length 0)
    then record st { fixed_shape = false; ndim = ndim }
    else record st { shape = st.shape ++ dim_size ∷ []; ndim = ndim }

-- `for (auto done = false; !done;)`.
unfoldable pub nesting_loop : ArrowArray → Nesting → Result Nesting
nesting_loop (leaf n) st = ok st
nesting_loop (other n) st = err not_implemented
nesting_loop (list level values) st =
    fail_if (ltb 0 level.null_count) not_implemented >> nesting_loop values (update_shape level st)

-- The loop of `GetRowShapes` for a row, whose values at this level are those from `start` up to `end`.
unfoldable pub row_shape_loop : ArrowArray → ℕ → ℕ → Result (List ℕ)
row_shape_loop (leaf n) start end = ok []
row_shape_loop (other n) start end = err not_implemented
row_shape_loop (list level values) start end = do
  fail_if (ltb 0 level.null_count) not_implemented
  fail_if
      (not level.is_fixed_size
        && not (same_lengths level (level.value_length start) (end - (start + 1)) (start + 1)))
      invalid
  rest ← row_shape_loop values (level.value_offset start) (level.value_offset end)
  ok (level.value_length start ∷ rest)

unfoldable pub get_row_shapes : ArrowArray → Result (List (List ℕ))
get_row_shapes data_array =
    traverse (λ r. row_shape_loop data_array r (r + 1)) (iota 0 (array_length data_array))

-- `casa_shape[ndim - dim - 1] = shape[dim]`.
abbrev pub to_fortran : ℕ → List ℕ → IPosition
to_fortran ndim shape = map (λ d. get_or shape (ndim - d - 1) 0) (iota 0 ndim)

-- What comes after the loop, by whether no level varies.
abbrev pub nested_result : Column → ArrowArray → Bool → Nesting → Result ResultShapeData
nested_result column data_array true st = ok (record {
  fixed_shape = some (to_fortran st.ndim st.shape);
  ndim = pos st.ndim;
  dtype = column.data_type;
  row_shapes = none;
  cell_extents = none;
})
nested_result column data_array false st = get_row_shapes data_array >>= λ shapes. ok (record {
  fixed_shape = none;
  ndim = pos st.ndim;
  dtype = column.data_type;
  row_shapes = some (map reverse shapes);
  cell_extents = none;
})

-- `none` is a null pointer.
unfoldable pub get_arrow_result_shape_data : Column → Option ArrowArray → Result ResultShapeData
get_arrow_result_shape_data column none = err invalid
get_arrow_result_shape_data column (some data_array) = do
  st ← nesting_loop data_array (first_nesting (array_length data_array))
  nested_result column data_array st.fixed_shape st

-- The shape without its first dimension, which is that of the pairs of real and imaginary parts.
abbrev pub drop_pair : IPosition → Result IPosition
drop_pair [] = err invalid
drop_pair (n ∷ shape) = if n == 2 then ok shape else err invalid

abbrev pub complex_result : ResultShapeData → Option IPosition → Result ResultShapeData
complex_result shape_data (some shape) = drop_pair shape >>= λ shape. ok (record {
  fixed_shape = some shape;
  ndim = pos (length shape);
  dtype = shape_data.dtype;
  row_shapes = none;
  cell_extents = none;
})
complex_result shape_data none = do
  shapes ← traverse drop_pair (elim shape_data.row_shapes [ some shapes ↦ shapes | none ↦ [] ])
  ndim ← consistent_ndim shape_data
  ok (record {
    fixed_shape = none;
    ndim = pos ndim -ℤ pos 1;
    dtype = shape_data.dtype;
    row_shapes = some shapes;
    cell_extents = none;
  })

-- `is_complex` is the test for `TpComplex` and `TpDComplex`.
module _ (is_complex : ℕ → Bool) where
  unfoldable pub get_result_shape_data : Column → Option ArrowArray → Result ResultShapeData
  get_result_shape_data column data_array =
      get_arrow_result_shape_data column data_array >>= λ shape_data.
      if is_complex shape_data.dtype
      then complex_result shape_data shape_data.fixed_shape
      else ok shape_data
