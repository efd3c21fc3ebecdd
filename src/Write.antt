-- ===== src/Write.antt =====
-- The cells that `ResultShapeData::MakeWrite` of cpp/arcae/result_shape.cc writes to: the check of the
-- data and the selection against each, and the shapes of those that are undefined.
pub mod Make
pub mod Repeats
pub mod Fits
pub mod Rows
pub mod Ranks
mod Tests
use arcae.Prelude.{
  ℕ, zero, suc, ◌+◌, ◌-◌, ◌^◌, min, max, ◌≡◌, ◌≢◌, Bool, true, false, ◌&&◌, not, Option, none, some,
  List, [], ◌∷◌, map, length, get_or, iota, take, ltb, leb, ◌==◌, if◌then◌else◌, ℤ, pos, negsuc,
  is_neg, pos_part, ltb_ℤ, eqb_ℤ, ◌-ℤ◌, Result, ok, err, invalid, index_error, ◌>>=◌, ◌>>◌, fail_if,
}
use arcae.Selection.{Index, Selection, maybe_f_span, has_row_span, get_row_span}
use arcae.Shape.{
  IPosition, Column, ResultShapeData, consistent_ndim, n_rows, get_row_shape, eqb_shape,
}
use arcae.Shape.Clip.{max_element, all_below}
use arcae.Shape.Read.{check_row_number_limit}
use arcae.Arrow.{ArrowArray}
use arcae.Arrow.Shape.{get_result_shape_data}

-- `ArrayColumnBase::setShape`: the cell of the row has the shape, and other cells are as they were.
pub record CellStore : Type 0 where
  pub set_shape : Column → ℕ → IPosition → Column
  pub is_defined-set :
      (column : Column) (row : ℕ) (shape : IPosition)
      → (set_shape column row shape).is_defined row ≡ true
  pub shape-set :
      (column : Column) (row : ℕ) (shape : IPosition)
      → (set_shape column row shape).shape row ≡ shape
  pub is_defined-other :
      (column : Column) (row other : ℕ) (shape : IPosition)
      → other ≢ row
      → (set_shape column row shape).is_defined other ≡ column.is_defined other
  pub shape-other :
      (column : Column) (row other : ℕ) (shape : IPosition)
      → other ≢ row
      → (set_shape column row shape).shape other ≡ column.shape other

pub record DimSelection : Type 0 where
  pub span : Index
  pub nselected : ℕ
  pub max_index : ℤ

-- `std::count_if` of the indices that are not negative.
abbrev pub count_read : Index → ℕ
count_read [] = 0
count_read (i ∷ span) = (if is_neg i then 0 else 1) + count_read span

unfoldable pub dim_selection : Selection → ℕ → ℕ → Option DimSelection
dim_selection selection ndim dim = elim (maybe_f_span selection dim ndim) [
  | some span ↦
      some (record { span = span; nselected = count_read span; max_index = max_element span })
  | none ↦ none
]

-- `dim_selections`.
abbrev pub dim_selections_of : Selection → ℕ → List (Option DimSelection)
dim_selections_of selection ndim = map (dim_selection selection ndim) (iota 0 (ndim - 1))

-- `beyond` is what the code finds behind the last extent of a cell, which it does not test for.
module _ (beyond : ℕ) where
  -- `CheckAgainstCell`, for the dimensions from `dim` on.
  unfoldable pub check_against_cell :
      List (Option DimSelection) → ℕ → IPosition → IPosition → Result (Unit {0})
  check_against_cell [] dim cell_shape data_shape = ok tt
  check_against_cell (some selected ∷ dims) dim cell_shape data_shape = do
    fail_if (ltb (get_or cell_shape dim beyond) selected.nselected) index_error
    fail_if (not (ltb_ℤ selected.max_index (pos (get_or cell_shape dim beyond)))) index_error
    check_against_cell dims (suc dim) cell_shape data_shape
  check_against_cell (none ∷ dims) dim cell_shape data_shape = do
    fail_if (ltb (get_or cell_shape dim beyond) (get_or data_shape dim 0)) index_error
    check_against_cell dims (suc dim) cell_shape data_shape

-- The selections have the sizes of the data, from dimension `dim` on.
unfoldable pub check_data_dims : List (Option DimSelection) → ℕ → IPosition → Result (Unit {0})
check_data_dims [] dim data_shape = ok tt
check_data_dims (some selected ∷ dims) dim data_shape = do
  fail_if (not (length selected.span == get_or data_shape dim 0)) index_error
  check_data_dims dims (suc dim) data_shape
check_data_dims (none ∷ dims) dim data_shape = check_data_dims dims (suc dim) data_shape

-- `max_index + 1`, which is compared with an extent.
abbrev pub next_index : ℤ → ℕ
next_index (pos i) = suc i
next_index (negsuc i) = 0

-- The shape of a cell that is undefined.
unfoldable pub grow_shape : List (Option DimSelection) → IPosition → IPosition
grow_shape [] shape = shape
grow_shape (dim_selection ∷ dims) [] = []
grow_shape (some selected ∷ dims) (size ∷ shape) =
    max (next_index selected.max_index) size ∷ grow_shape dims shape
grow_shape (none ∷ dims) (size ∷ shape) = size ∷ grow_shape dims shape

-- The column, and the shapes of the cell and of the data that were checked last.
pub record Writing : Type 0 where
  pub column : Column
  pub last : Option (IPosition × IPosition)

abbrev pub same_as_last : Option (IPosition × IPosition) → IPosition → IPosition → Bool
same_as_last none cell_shape data_shape = false
same_as_last (some (last_cell, last_data)) cell_shape data_shape =
    eqb_shape cell_shape last_cell && eqb_shape data_shape last_data

-- A step that succeeds is followed by the next, and one that fails ends the call.
abbrev pub continue {ℓ} :
    {S : Type ℓ} → Result (Unit {0}) × S → (S → Result (Unit {0}) × S) → Result (Unit {0}) × S
continue (err status, st) next = (err status, st)
continue (ok _, st) next = next st

abbrev pub remember :
    Writing → IPosition → IPosition → Result (Unit {0}) → Result (Unit {0}) × Writing
remember st cell_shape data_shape (err status) = (err status, st)
remember st cell_shape data_shape (ok _) =
    (ok tt, record st { last = some (cell_shape, data_shape) })

module _ (beyond : ℕ) ⦃store : CellStore⦄ (dims : List (Option DimSelection)) where
  -- A row whose cell has the shape.
  abbrev pub check_cell : Writing → IPosition → IPosition → Result (Unit {0}) × Writing
  check_cell st cell_shape data_shape =
      if same_as_last st.last cell_shape data_shape
      then (ok tt, st)
      else remember st cell_shape data_shape
          (check_against_cell beyond dims 0 cell_shape data_shape)

  -- A row that is not negative, by whether it is defined.
  abbrev pub cell_step : Bool → ℕ → IPosition → Writing → Result (Unit {0}) × Writing
  cell_step true row data_shape st = check_cell st (st.column.shape row) data_shape
  cell_step false row data_shape st =
      (ok tt, record st { column = store.set_shape st.column row (grow_shape dims data_shape) })

  -- A round, for the row `row` and the shape of its data.
  unfoldable pub write_step : ℤ → IPosition → Writing → Result (Unit {0}) × Writing
  write_step (negsuc i) data_shape st = (ok tt, st)
  write_step (pos row) data_shape st = cell_step (st.column.is_defined row) row data_shape st

  -- The rounds for the rows given, from round `r` on; `data_shapes` is `DataRowShape`.
  unfoldable pub write_loop : (ℕ → IPosition) → Index → ℕ → Writing → Result (Unit {0}) × Writing
  write_loop data_shapes [] r st = (ok tt, st)
  write_loop data_shapes (row ∷ rows) r st =
      continue (write_step row (data_shapes r) st) (write_loop data_shapes rows (suc r))
