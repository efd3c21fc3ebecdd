-- ===== src/Write/Rows.antt =====
-- If `MakeWrite` succeeds, each row that is written has a cell that holds what is written to it: a
-- cell stays as it was once it is defined.
use arcae.Prelude.{
  ℕ, zero, suc, ◌+◌, ◌≤◌, ◌<◌, ◌≡◌, ◌≢◌, refl, sym, ap, subst, ◌∙◌, Bool, true, false, Option, List,
  [], ◌∷◌, length, get_or, ℤ, pos, negsuc, Result, ok, err, arith,
}
use arcae.Selection.{Index}
use arcae.Shape.{IPosition, Column}
use arcae.Write.{CellStore, DimSelection, grow_shape, continue}
use arcae.Write.Fits.{CellFits, check_against_cell-CellFits, grow_shape-CellFits}
use arcae.Write.Repeats.{each_cell, each_step, each_loop}

-- What is defined stays defined, and keeps its shape.
abbrev pub Kept : Column → Column → Type 0
Kept column after =
    (row : ℕ)
    → column.is_defined row ≡ true
    → (after.is_defined row ≡ true) × (after.shape row ≡ column.shape row)

module _ (beyond : ℕ) ⦃store : CellStore⦄ (dims : List (Option DimSelection)) where
  set_shape-Kept :
      (column : Column) (row : ℕ) (shape : IPosition)
      → column.is_defined row ≡ false
      → Kept column (store.set_shape column row shape)
  set_shape-Kept column row shape undefined other defined =
      let differs : other ≢ row =
        λ e. let both : true ≡ false = sym defined ∙ ap column.is_defined e ∙ undefined in cc in
      (
        store.is_defined-other column row other shape differs ∙ defined,
        store.shape-other column row other shape differs,
      )

  each_cell-Kept :
      (defined : Bool) (row : ℕ) (data_shape : IPosition) (column : Column)
      → column.is_defined row ≡ defined
      → Kept column (each_cell beyond dims defined row data_shape column).1
  each_cell-Kept true row data_shape column e = λ other defined. (defined, refl)
  each_cell-Kept false row data_shape column e =
      set_shape-Kept column row (grow_shape dims data_shape) e

  each_step-Kept :
      (row : ℤ) (data_shape : IPosition) (column : Column)
      → Kept column (each_step beyond dims row data_shape column).1
  each_step-Kept (negsuc i) data_shape column = λ other defined. (defined, refl)
  each_step-Kept (pos row) data_shape column =
      each_cell-Kept (column.is_defined row) row data_shape column refl

  continue-Kept :
      (column : Column) (s : Result (Unit {0}) × Column)
      (later : Column → Result (Unit {0}) × Column)
      → Kept column s.1
      → ((column : Column) → Kept column (later column).1)
      → Kept column (continue s later).1
  continue-Kept column (err status, after) later k h = k
  continue-Kept column (ok _, after) later k h = λ other defined.
      let (there, same) = k other defined in
      let (there', same') = h after other there in (there', same' ∙ same)

  each_loop-Kept :
      (data_shapes : ℕ → IPosition) (rows : Index) (r : ℕ) (column : Column)
      → Kept column (each_loop beyond dims data_shapes rows r column).1
  unfolding each_loop
  each_loop-Kept data_shapes [] r column = λ other defined. (defined, refl)
  each_loop-Kept data_shapes (row ∷ rows) r column =
      continue-Kept column (each_step beyond dims row (data_shapes r) column)
        (each_loop beyond dims data_shapes rows (suc r)) (each_step-Kept row (data_shapes r) column)
        (each_loop-Kept data_shapes rows (suc r))

  -- The cell of the row is defined and holds what is written.
  abbrev pub RowFits : ℕ → IPosition → Column → Type 0
  RowFits row data_shape column =
      (column.is_defined row ≡ true) × CellFits beyond dims (column.shape row) data_shape

  RowFits-Kept :
      (row : ℕ) (data_shape : IPosition) (column after : Column)
      → Kept column after
      → RowFits row data_shape column
      → RowFits row data_shape after
  RowFits-Kept row data_shape column after k (defined, fits) =
      let (defined', same) = k row defined in
      (defined', subst (λ shape. CellFits beyond dims shape data_shape) (sym same) fits)

  each_cell-RowFits :
      (defined : Bool) (row : ℕ) (data_shape : IPosition) (column : Column)
      → column.is_defined row ≡ defined
      → length dims ≤ length data_shape
      → (each_cell beyond dims defined row data_shape column).0 ≡ ok tt
      → RowFits row data_shape (each_cell beyond dims defined row data_shape column).1
  each_cell-RowFits true row data_shape column e l passed =
      (e, check_against_cell-CellFits beyond dims (column.shape row) data_shape passed)
  each_cell-RowFits false row data_shape column e l passed = (
    store.is_defined-set column row (grow_shape dims data_shape),
    subst (λ shape. CellFits beyond dims shape data_shape)
        (sym (store.shape-set column row (grow_shape dims data_shape)))
        (grow_shape-CellFits beyond dims data_shape l),
  )

  each_step-RowFits :
      (first : ℤ) (row : ℕ) (data_shape : IPosition) (column : Column)
      → first ≡ pos row
      → length dims ≤ length data_shape
      → (each_step beyond dims first data_shape column).0 ≡ ok tt
      → RowFits row data_shape (each_step beyond dims first data_shape column).1
  each_step-RowFits first row data_shape column at rank =
      subst
        (λ first.
          (each_step beyond dims first data_shape column).0 ≡ ok tt
          → RowFits row data_shape (each_step beyond dims first data_shape column).1)
        (sym at) (each_cell-RowFits (column.is_defined row) row data_shape column refl rank)

  continue-ok :
      (s : Result (Unit {0}) × Column) (later : Column → Result (Unit {0}) × Column)
      → (continue s later).0 ≡ ok tt
      → (s.0 ≡ ok tt) × ((later s.1).0 ≡ ok tt) × (continue s later ≡ later s.1)
  continue-ok (err status, after) later e = cc
  continue-ok (ok _, after) later e = (refl, e, refl)

  -- If the loop succeeds, the cell of each row that is not below zero is defined after it and holds
  -- what is written to the row.
  pub each_loop-RowFits :
      (data_shapes : ℕ → IPosition) (rows : Index) (r : ℕ) (column : Column) (i j row : ℕ)
      → (each_loop beyond dims data_shapes rows r column).0 ≡ ok tt
      → r + i ≡ j
      → i < length rows
      → get_or rows i (pos 0) ≡ pos row
      → length dims ≤ length (data_shapes j)
      → RowFits row (data_shapes j) (each_loop beyond dims data_shapes rows r column).1
  unfolding each_loop
  each_loop-RowFits data_shapes [] r column i j row e place l at rank = absurd (omega arith)
  each_loop-RowFits data_shapes (first ∷ rows) r column zero j row e place l at rank =
      let now = each_step beyond dims first (data_shapes r) column in
      let later = each_loop beyond dims data_shapes rows (suc r) in
      let (passed, _, same) = continue-ok now later e in
      let here : j ≡ r = omega (arith, place) in
      subst (λ k. RowFits row (data_shapes k) (continue now later).1) (sym here)
        (subst (λ s. RowFits row (data_shapes r) s.1) (sym same)
          (RowFits-Kept row (data_shapes r) now.1 (later now.1).1
            (each_loop-Kept data_shapes rows (suc r) now.1)
            (each_step-RowFits first row (data_shapes r) column at
              (subst (λ k. length dims ≤ length (data_shapes k)) here rank) passed)))
  each_loop-RowFits data_shapes (first ∷ rows) r column (suc i) j row e place l at rank =
      let now = each_step beyond dims first (data_shapes r) column in
      let later = each_loop beyond dims data_shapes rows (suc r) in
      let (_, passed, same) = continue-ok now later e in
      subst (λ s. RowFits row (data_shapes j) s.1) (sym same)
        (each_loop-RowFits data_shapes rows (suc r) now.1 i j row passed (omega (arith, place))
          (omega arith) at rank)
