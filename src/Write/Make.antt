-- ===== src/Write/Make.antt =====
-- `ResultShapeData::MakeWrite` of cpp/arcae/result_shape.cc: the shape of the data that is written to a
-- column, checked against the selection and the cells.
pub mod Holds
use arcae.Prelude.{
  ℕ, ◌-◌, min, Bool, true, false, ◌&&◌, not, Option, none, some, List, [], ◌∷◌, map, length, iota,
  take, ltb, leb, ◌==◌, if◌then◌else◌, pos, negsuc, eqb_ℤ, ◌-ℤ◌, Result, ok, err, invalid,
  index_error, ◌>>=◌, ◌>>◌, fail_if,
}
use arcae.Selection.{Index, Selection, has_row_span, get_row_span}
use arcae.Shape.{IPosition, Column, ResultShapeData, consistent_ndim, n_rows, get_row_shape}
use arcae.Shape.Clip.{all_below}
use arcae.Shape.Read.{check_row_number_limit}
use arcae.Write.{CellStore, dim_selections_of, check_against_cell, check_data_dims, write_loop}
use arcae.Arrow.{ArrowArray}
use arcae.Arrow.Shape.{get_result_shape_data}

-- `DataRowShape`.
abbrev pub data_row_shape : ResultShapeData → ℕ → ℕ → IPosition
data_row_shape shape_data row_dim r = elim shape_data.fixed_shape [
  | some shape ↦ take row_dim shape
  | none ↦ get_row_shape shape_data r
]

-- A check of each row's data.
abbrev pub check_each : (ℕ → Result (Unit {0})) → List ℕ → Result (Unit {0})
check_each check [] = ok tt
check_each check (r ∷ rows) = check r >> check_each check rows

module _ (column : Column) (selection : Selection) (shape_data : ResultShapeData) where
  abbrev pub check_rank : ℕ → Result (Unit {0})
  check_rank ndim =
      fail_if
        (not (eqb_ℤ column.desc_ndim (negsuc 0))
          && not (eqb_ℤ (pos ndim) (column.desc_ndim -ℤ negsuc 0)))
        invalid

  abbrev pub check_row_span : Index → Result (Unit {0})
  check_row_span row_span = do
    fail_if (not (length row_span == n_rows shape_data)) index_error
    fail_if (ltb column.nrow (length row_span)) index_error
    fail_if (not (all_below row_span column.nrow)) index_error

  abbrev pub check_rows : Result (Unit {0})
  check_rows = if has_row_span selection then check_row_span (get_row_span selection) else ok tt

  -- `ndata_rows`.
  abbrev pub n_data_rows : ℕ
  n_data_rows = elim shape_data.fixed_shape [ some shape ↦ 1 | none ↦ n_rows shape_data ]

  -- The rows that are written.
  abbrev pub written_rows : Index
  written_rows =
      if has_row_span selection
      then get_row_span selection
      else map pos (iota 0 (min column.nrow (n_rows shape_data)))

  abbrev pub check_data : ℕ → Result (Unit {0})
  check_data ndim =
      check_each
        (λ r.
          check_data_dims (dim_selections_of selection ndim) 0
            (data_row_shape shape_data (ndim - 1) r))
        (iota 0 n_data_rows)

  -- The checks that come before the cells.
  unfoldable pub check_shape : ℕ → Result (Unit {0})
  check_shape ndim = check_rank ndim >> check_rows

-- What is done with the cells, where the data has dimensions besides the rows.
module _ (beyond : ℕ) ⦃store : CellStore⦄ (column : Column) (selection : Selection)
    (shape_data : ResultShapeData) (ndim : ℕ) where
  -- `shapeColumn` is the shape that the description has.
  abbrev pub check_fixed : Result (Unit {0})
  check_fixed =
      check_each
        (λ r.
          check_against_cell beyond (dim_selections_of selection ndim) 0 column.desc_shape
            (data_row_shape shape_data (ndim - 1) r))
        (iota 0 (n_data_rows column selection shape_data))

  -- The loop over the rows: the outcome, and the column after it.
  unfoldable pub write_cells : Result (Unit {0}) × Column
  write_cells =
      let (outcome, st) =
        write_loop beyond (dim_selections_of selection ndim) (data_row_shape shape_data (ndim - 1))
          (written_rows column selection shape_data) 0 (record { column = column; last = none }) in
      (outcome, st.column)

  abbrev pub checked_cells : Bool → Result (Unit {0}) × Column
  checked_cells true = (check_fixed, column)
  checked_cells false = write_cells

  abbrev pub write_dims : Result (Unit {0}) → Result (Unit {0}) × Column
  write_dims (err status) = (err status, column)
  write_dims (ok _) = checked_cells column.is_fixed_shape

  -- What follows the checks of the shape.
  unfoldable pub write_secondary : Result (Unit {0}) × Column
  write_secondary =
      if leb ndim 1
      then (ok tt, column)
      else write_dims (check_data column selection shape_data ndim)

-- `MakeWrite`: the shape of the data, and the column afterwards, also where a check fails.
module _ (is_complex : ℕ → Bool) (beyond : ℕ) ⦃store : CellStore⦄ (column : Column)
    (selection : Selection) where
  abbrev pub write_checked :
      ResultShapeData → ℕ → Result (Unit {0}) → Result ResultShapeData × Column
  write_checked shape_data ndim (err status) = (err status, column)
  write_checked shape_data ndim (ok _) =
      let (outcome, after) = write_secondary beyond column selection shape_data ndim in
      (outcome >> ok shape_data, after)

  abbrev pub write_shape : Result (ResultShapeData × ℕ) → Result ResultShapeData × Column
  write_shape (err status) = (err status, column)
  write_shape (ok (shape_data, ndim)) =
      write_checked shape_data ndim (check_shape column selection shape_data ndim)

  unfoldable pub shape_of_data : Option ArrowArray → Result (ResultShapeData × ℕ)
  shape_of_data none = err invalid
  shape_of_data (some data_array) = do
    check_row_number_limit column.nrow
    shape_data ← get_result_shape_data is_complex column (some data_array)
    ndim ← consistent_ndim shape_data
    ok (shape_data, ndim)

  unfoldable pub make_write : Option ArrowArray → Result ResultShapeData × Column
  make_write data_array = write_shape (shape_of_data data_array)
