-- ===== src/Shape/Negate.antt =====
-- `NegateMissingSelectedRows` of cpp/arcae/result_shape.cc: the rows of a selection that have no cell
-- are not read, and the selection is padded where the cells are smaller than the result.
pub mod Rows
pub mod Extents
mod Tests
use arcae.Prelude.{
  ℕ, ◌-◌, Bool, true, false, not, Option, none, some, List, [], ◌∷◌, ◌++◌, map, length, iota, take,
  replicate, leb, ◌==◌, if◌then◌else◌, ℤ, pos, negsuc, Result, ok, err, index_error,
  not_implemented, ◌>>=◌, ◌>>◌, fail_if,
}
use arcae.Selection.{Index, Selection, has_row_span, get_row_span}
use arcae.Shape.{IPosition, Column, ResultShapeData, eqb_shape, n_rows}
use arcae.Shape.Missing.{validate_cell_shape, cell_extent, rebuild_selection}

-- The variables that the loop over the rows changes; `rows` holds the rows that it has passed.
pub record Negation : Type 0 where
  pub rows : Index
  pub rows_modified : Bool
  pub common_extent : Option IPosition
  pub cell_extents : Option (List IPosition)

abbrev pub no_negation : Negation
no_negation = record { rows = []; rows_modified = false; common_extent = none; cell_extents = none }

-- The extent of a row that is read: the first is the common one, and the first that differs from it
-- starts the list of the extents of all rows.
abbrev pub start_extents :
    IPosition → ℕ → Option IPosition → Option (List IPosition) → Negation → Negation
start_extents extent i none extents st = record st { common_extent = some extent }
start_extents extent i (some common) (some extents) st = st
start_extents extent i (some common) none st =
    if eqb_shape extent common then st else record st { cell_extents = some (replicate i common) }

-- `if (cell_extents) cell_extents->emplace_back(std::move(extent));`
abbrev pub push_extent : Option (List IPosition) → IPosition → Option (List IPosition)
push_extent none extent = none
push_extent (some extents) extent = some (extents ++ extent ∷ [])

-- The end of a round, for the row that stands at its position now.
abbrev pub end_row : ℤ → IPosition → Negation → Negation
end_row r extent st = record st {
  rows = st.rows ++ r ∷ [];
  cell_extents = push_extent st.cell_extents extent;
}

module _ (column : Column) (selection : Selection) (cell_result_shape : IPosition) where
  -- The extent of the cell of a row that is read.
  abbrev pub row_extent : ℕ → IPosition
  row_extent r = cell_extent (column.shape r) cell_result_shape selection

  -- A row of the column.
  unfoldable pub negate_defined : ℕ → Bool → Negation → Result Negation
  negate_defined r true st =
      validate_cell_shape (column.shape r) cell_result_shape selection
      >> ok (
          end_row (pos r) (row_extent r)
            (start_extents (row_extent r) (length st.rows) st.common_extent st.cell_extents st))
  negate_defined r false st =
      ok (end_row (negsuc 0) cell_result_shape (record st { rows_modified = true }))

  unfoldable pub negate_row : ℤ → Negation → Result Negation
  negate_row (negsuc n) st = ok (end_row (negsuc n) cell_result_shape st)
  negate_row (pos r) st =
      if leb column.nrow r then err index_error else negate_defined r (column.is_defined r) st

  -- The rounds of the loop for the rows that are left.
  unfoldable pub negate_rows : Index → Negation → Result Negation
  negate_rows [] st = ok st
  negate_rows (r ∷ rest) st = negate_row r st >>= negate_rows rest

-- `common_extent` after the loop.
abbrev pub final_extent : IPosition → Negation → IPosition
final_extent cell_result_shape st = elim st.cell_extents [
  | some extents ↦ cell_result_shape
  | none ↦ elim st.common_extent [ some extent ↦ extent | none ↦ cell_result_shape ]
]

-- `cell_extents_` after the loop.
abbrev pub keep_extents : Option (List IPosition) → ResultShapeData → ResultShapeData
keep_extents none data_shape = data_shape
keep_extents (some extents) data_shape = record data_shape { cell_extents = some extents }

-- `selection`, or the rebuilt selection where rows are negated or the extent is smaller.
unfoldable pub negated_selection : Selection → IPosition → Negation → Selection
negated_selection selection cell_result_shape st =
    if not st.rows_modified
    then (if eqb_shape (final_extent cell_result_shape st) cell_result_shape
        then selection
        else rebuild_selection selection cell_result_shape (final_extent cell_result_shape st) none)
    else rebuild_selection selection cell_result_shape (final_extent cell_result_shape st)
        (some st.rows)

-- The rows that are selected, or all of them.
abbrev pub rows_of : Column → Selection → Index
rows_of column selection =
    if has_row_span selection then get_row_span selection else map pos (iota 0 column.nrow)

-- A column whose cells have one shape.
unfoldable pub negate_fixed : Column → Selection → IPosition → Result Selection
negate_fixed column selection cell_result_shape =
    let extent = cell_extent column.desc_shape cell_result_shape selection in
    validate_cell_shape column.desc_shape cell_result_shape selection
    >> ok (
        if eqb_shape extent cell_result_shape
        then selection
        else rebuild_selection selection cell_result_shape extent none)

-- A column whose cells vary.
unfoldable pub negate_varied :
    ResultShapeData → Column → Selection → IPosition → Result (Selection × ResultShapeData)
negate_varied data_shape column selection cell_result_shape = do
  fail_if (not (length (rows_of column selection) == n_rows data_shape)) index_error
  st ← negate_rows column selection cell_result_shape (rows_of column selection) no_negation
  ok (negated_selection selection cell_result_shape st, keep_extents st.cell_extents data_shape)

-- The cases: no fixed shape, cells of one shape, and cells that vary.
unfoldable pub negate_cells :
    ResultShapeData
    → Column
    → Selection
    → Bool
    → Option IPosition
    → Result (Selection × ResultShapeData)
negate_cells data_shape column selection fixed none = err not_implemented
negate_cells data_shape column selection true (some shape) =
    negate_fixed column selection (take (length shape - 1) shape) >>= λ s. ok (s, data_shape)
negate_cells data_shape column selection false (some shape) =
    negate_varied data_shape column selection (take (length shape - 1) shape)

-- The object is changed as well: it comes back beside the selection.
unfoldable pub negate_missing_selected_rows :
    ResultShapeData → Column → Selection → Result (Selection × ResultShapeData)
negate_missing_selected_rows data_shape column selection =
    negate_cells data_shape column selection column.is_fixed_shape data_shape.fixed_shape
