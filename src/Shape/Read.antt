-- ===== src/Shape/Read.antt =====
-- `ResultShapeData::MakeRead` of cpp/arcae/result_shape.cc: the shape of what is read.
pub mod Rows
pub mod Rank
use arcae.Prelude.{
  ℕ, ◌+◌, ◌-◌, ◌^◌, Bool, true, false, ◌&&◌, not, Option, none, some, List, [], ◌∷◌, ◌++◌, length,
  ltb, leb, if◌then◌else◌, ℤ, pos, negsuc, is_neg, eqb_ℤ, pos_part, Result, ok, err, index_error,
  invalid, ◌>>=◌, ◌>>◌, fail_if,
}
use arcae.Selection.{Selection}
use arcae.Shape.{IPosition, Column, ResultShapeData, is_degenerate_shape}
use arcae.Shape.Clip.{new_clipper, clip}
use arcae.Shape.Rows.{make_row_data, n_selected, RowShapeData}

-- `CheckRowNumberLimit`: the rows fit in a signed 64-bit integer.
abbrev pub check_row_number_limit : ℕ → Result (Unit {0})
check_row_number_limit nrow = fail_if (not (leb nrow (2 ^ 63 - 1))) index_error

-- A round of the loop over the shapes of the rows: `none` leaves it, with the rank -1.
abbrev pub rank_step : IPosition → ℤ → Option ℤ
rank_step shape ndim =
    if is_degenerate_shape shape
    then some ndim
    else if eqb_ℤ ndim (negsuc 0)
    then some (pos (length shape + 1))
    else if eqb_ℤ ndim (pos (length shape + 1))
    then some ndim
    else none

-- `for (const auto& shape : shapes)`.
unfoldable pub row_rank : List IPosition → ℤ → ℤ
row_rank [] ndim = ndim
row_rank (shape ∷ shapes) ndim = elim (rank_step shape ndim) [
  | none ↦ negsuc 0
  | some ndim ↦ row_rank shapes ndim
]

-- The rank of a result with rows of many shapes: that of the rows, or else of the column.
abbrev pub varied_ndim : List IPosition → ℤ → ℤ
varied_ndim shapes desc_ndim =
    let ndim = row_rank shapes (negsuc 0) in
    if not (eqb_ℤ ndim (negsuc 0))
    then ndim
    else if is_neg desc_ndim
    then desc_ndim
    else pos (pos_part desc_ndim + 1)

module _ (column : Column) (selection : Selection) where
  -- The cell's shape, with the rows as the last dimension.
  abbrev pub fixed_result : IPosition → ResultShapeData
  fixed_result cell_shape = record {
    fixed_shape = some (cell_shape ++ n_selected column selection ∷ []);
    ndim = pos (length (cell_shape ++ n_selected column selection ∷ []));
    dtype = column.data_type;
    row_shapes = none;
    cell_extents = none;
  }

  abbrev pub varied_result : List IPosition → ResultShapeData
  varied_result shapes = record {
    fixed_shape = none;
    ndim = varied_ndim shapes column.desc_ndim;
    dtype = column.data_type;
    row_shapes = some shapes;
    cell_extents = none;
  }

  -- What is made of the shapes of the rows.
  unfoldable pub rows_result : Bool → RowShapeData → Result ResultShapeData
  rows_result allow_missing_rows row_data =
      if not allow_missing_rows && ltb 0 row_data.missing_rows
      then err invalid
      else elim row_data.common_shape [
        | some shape ↦ ok (fixed_result shape)
        | none ↦ ok (varied_result row_data.shapes)
      ]

  unfoldable pub make_read : Bool → Result ResultShapeData
  make_read allow_missing_rows =
      check_row_number_limit column.nrow
      >> (if column.is_fixed_shape
          then (clip selection new_clipper column.desc_shape >>= λ (shape, clipper).
              ok (fixed_result shape))
          else (make_row_data column selection allow_missing_rows
              >>= rows_result allow_missing_rows))
