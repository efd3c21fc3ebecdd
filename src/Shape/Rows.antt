-- ===== src/Shape/Rows.antt =====
-- `MakeRowData` of cpp/arcae/result_shape.cc: the shapes of the selected rows of a column whose shape
-- varies.
pub mod Summary
pub mod Steps
pub mod Loop
use arcae.Prelude.{
  ℕ, zero, suc, ◌+◌, Bool, true, false, ◌&&◌, ◌||◌, not, Option, none, some, List, [], ◌∷◌, ◌++◌,
  map, length, get_or, iota, replicate, is_empty, ltb, if◌then◌else◌, ℤ, pos, is_neg, ltb_ℤ,
  pos_part, Result, ok, err, index_error, invalid, ◌>>=◌,
}
use arcae.Selection.{Selection, Index, has_row_span, get_row_span}
use arcae.Shape.{IPosition, Column, is_degenerate_shape, eqb_shape}
use arcae.Shape.Clip.{Clipper, new_clipper, clip, clipped}

pub record RowShapeData : Type 0 where
  pub common_shape : Option IPosition
  pub shapes : List IPosition
  pub missing_rows : ℕ

abbrev pub no_rows : RowShapeData
no_rows = record { common_shape = none; shapes = []; missing_rows = 0 }

-- `value_or(IPosition())`.
abbrev pub value_or : Option IPosition → IPosition → IPosition
value_or none default = default
value_or (some shape) default = shape

-- `shape == *result.common_shape`, where there is one.
abbrev pub is_common : IPosition → Option IPosition → Bool
is_common shape none = false
is_common shape (some common) = eqb_shape shape common

abbrev pub has_value {ℓ} : {A : Type ℓ} → Option A → Bool
has_value none = false
has_value (some a) = true

-- `AddShape`, for row `i`.
unfoldable pub add_shape : ℕ → IPosition → RowShapeData → RowShapeData
add_shape i shape result =
    let missing = is_degenerate_shape shape in
    let missing_rows = (if missing then suc result.missing_rows else result.missing_rows) in
    if not (is_empty result.shapes)
    then record {
      common_shape = result.common_shape;
      shapes = result.shapes ++ shape ∷ [];
      missing_rows = missing_rows;
    }
    else if not missing && not (has_value result.common_shape)
    then record { common_shape = some shape; shapes = result.shapes; missing_rows = missing_rows }
    else if not missing && is_common shape result.common_shape
    then record {
      common_shape = result.common_shape;
      shapes = result.shapes;
      missing_rows = missing_rows;
    }
    else record {
      common_shape = none;
      shapes = replicate i (value_or result.common_shape []) ++ shape ∷ [];
      missing_rows = missing_rows;
    }

-- `if (!result.shapes.empty()) result.shapes.push_back(last_clipped);`
unfoldable pub repeat_last : IPosition → RowShapeData → RowShapeData
repeat_last last_clipped result =
    if is_empty result.shapes
    then result
    else record result { shapes = result.shapes ++ last_clipped ∷ [] }

-- The result so far, the shape of the last row that is defined before and after it was clipped, and
-- the clipper.
pub record RowState : Type 0 where
  pub result : RowShapeData
  pub last_shape : Option IPosition
  pub last_clipped : IPosition
  pub clipper : Clipper

abbrev pub first_row_state : RowState
first_row_state = record {
  result = no_rows;
  last_shape = none;
  last_clipped = [];
  clipper = new_clipper;
}

module _ (column : Column) (selection : Selection) where
  -- `has_span ? span[i] : IndexType(i)`.
  unfoldable pub row_index : ℕ → ℤ
  row_index i = if has_row_span selection then get_or (get_row_span selection) i (pos 0) else pos i

  unfoldable pub n_selected : ℕ
  n_selected = if has_row_span selection then length (get_row_span selection) else column.nrow

  -- A row that is defined, whose cell has the shape.
  unfoldable pub defined_row : ℕ → IPosition → RowState → Result RowState
  defined_row i shape st =
      if is_common shape st.last_shape
      then ok (record st { result = repeat_last st.last_clipped st.result })
      else clip selection st.clipper shape >>= λ (clipped, clipper). ok (record {
        result = add_shape i clipped st.result;
        last_shape = some shape;
        last_clipped = clipped;
        clipper = clipper;
      })

  -- The round for row `i`.
  unfoldable pub row_step : Bool → ℕ → RowState → Result RowState
  row_step allow_missing_rows i st =
      let r = row_index i in
      if not (ltb_ℤ r (pos column.nrow))
      then err index_error
      else if is_neg r || not (column.is_defined (pos_part r))
      then (if allow_missing_rows
          then ok (record st { result = add_shape i [] st.result })
          else if not (is_neg r)
          then err invalid
          else err index_error)
      else defined_row i (column.shape (pos_part r)) st

  -- `rounds` rounds from `i` on.
  unfoldable pub rows_loop : Bool → ℕ → ℕ → RowState → Result RowState
  rows_loop allow_missing_rows zero i st = ok st
  rows_loop allow_missing_rows (suc rounds) i st =
      row_step allow_missing_rows i st >>= rows_loop allow_missing_rows rounds (suc i)

  unfoldable pub make_row_data : Bool → Result RowShapeData
  make_row_data allow_missing_rows =
      rows_loop allow_missing_rows n_selected 0 first_row_state >>= λ st. ok st.result
