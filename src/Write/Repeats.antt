-- ===== src/Write/Repeats.antt =====
-- The loop skips a row whose cell and data have the shapes of those it checked last, which changes
-- nothing.
use arcae.Prelude.{
  ℕ, suc, ◌≡◌, refl, ap, ◌∙◌, Bool, true, false, &&-eq-true, Option, none, some, List, [], ◌∷◌,
  Bool-cases, inl, inr, ℤ, pos, negsuc, Result, ok, err,
}
use arcae.Selection.{Index}
use arcae.Shape.{IPosition, Column}
use arcae.Shape.Rows.Summary.{eqb_shape-eq}
use arcae.Write.{
  CellStore, DimSelection, check_against_cell, grow_shape, Writing, same_as_last, continue,
  remember, check_cell, cell_step, write_step, write_loop,
}

-- The outcome and the column.
abbrev pub written : Result (Unit {0}) × Writing → Result (Unit {0}) × Column
written (outcome, st) = (outcome, st.column)

module _ (beyond : ℕ) ⦃store : CellStore⦄ (dims : List (Option DimSelection)) where
  abbrev pub each_cell : Bool → ℕ → IPosition → Column → Result (Unit {0}) × Column
  each_cell true row data_shape column =
      (check_against_cell beyond dims 0 (column.shape row) data_shape, column)
  each_cell false row data_shape column =
      (ok tt, store.set_shape column row (grow_shape dims data_shape))

  abbrev pub each_step : ℤ → IPosition → Column → Result (Unit {0}) × Column
  each_step (negsuc i) data_shape column = (ok tt, column)
  each_step (pos row) data_shape column = each_cell (column.is_defined row) row data_shape column

  -- Every row is checked.
  unfoldable pub each_loop : (ℕ → IPosition) → Index → ℕ → Column → Result (Unit {0}) × Column
  each_loop data_shapes [] r column = (ok tt, column)
  each_loop data_shapes (row ∷ rows) r column =
      continue (each_step row (data_shapes r) column) (each_loop data_shapes rows (suc r))

  -- The shapes that were checked last passed the check.
  abbrev Passed : Option (IPosition × IPosition) → Type 0
  Passed none = Unit
  Passed (some (cell_shape, data_shape)) =
      check_against_cell beyond dims 0 cell_shape data_shape ≡ ok tt

  -- A round does what the check of the row does, and keeps that the last shapes passed.
  abbrev Agrees : Result (Unit {0}) × Writing → Result (Unit {0}) × Column → Type 0
  Agrees r s = (written r ≡ s) × Passed r.1.last

  same_as_last-passes :
      (last : Option (IPosition × IPosition)) (cell_shape data_shape : IPosition)
      → Passed last
      → same_as_last last cell_shape data_shape ≡ true
      → check_against_cell beyond dims 0 cell_shape data_shape ≡ ok tt
  same_as_last-passes none cell_shape data_shape p e = cc
  same_as_last-passes (some (last_cell, last_data)) cell_shape data_shape p e =
      let (same_cell, same_data) = &&-eq-true _ _ e in
      rw (eqb_shape-eq cell_shape last_cell same_cell, eqb_shape-eq data_shape last_data same_data)
        p

  remember-Agrees :
      (st : Writing) (cell_shape data_shape : IPosition) (check : Result (Unit {0}))
      → check_against_cell beyond dims 0 cell_shape data_shape ≡ check
      → Passed st.last
      → Agrees (remember st cell_shape data_shape check) (check, st.column)
  remember-Agrees st cell_shape data_shape (err status) e p = (refl, p)
  remember-Agrees st cell_shape data_shape (ok tt) e p = (refl, e)

  check_cell-Agrees :
      (st : Writing) (cell_shape data_shape : IPosition)
      → Passed st.last
      → Agrees
          (check_cell beyond dims st cell_shape data_shape)
          (check_against_cell beyond dims 0 cell_shape data_shape, st.column)
  check_cell-Agrees st cell_shape data_shape p =
      elim (Bool-cases (same_as_last st.last cell_shape data_shape)) [
        | inl e ↦ rw (e, same_as_last-passes st.last cell_shape data_shape p e) (refl, p)
        | inr e ↦ rw e (remember-Agrees st cell_shape data_shape _ refl p)
      ]

  cell_step-Agrees :
      (defined : Bool) (row : ℕ) (data_shape : IPosition) (st : Writing)
      → Passed st.last
      → Agrees
          (cell_step beyond dims defined row data_shape st)
          (each_cell defined row data_shape st.column)
  cell_step-Agrees true row data_shape st p =
      check_cell-Agrees st (st.column.shape row) data_shape p
  cell_step-Agrees false row data_shape st p = (refl, p)

  write_step-Agrees :
      (row : ℤ) (data_shape : IPosition) (st : Writing)
      → Passed st.last
      → Agrees (write_step beyond dims row data_shape st) (each_step row data_shape st.column)
  unfolding write_step
  write_step-Agrees (negsuc i) data_shape st p = (refl, p)
  write_step-Agrees (pos row) data_shape st p =
      cell_step-Agrees (st.column.is_defined row) row data_shape st p

  -- Two runs that agree on a step and on all that follows.
  continue-written :
      (r : Result (Unit {0}) × Writing) (s : Result (Unit {0}) × Column)
      (next : Writing → Result (Unit {0}) × Writing) (later : Column → Result (Unit {0}) × Column)
      → Agrees r s
      → ((st : Writing) → Passed st.last → written (next st) ≡ later st.column)
      → written (continue r next) ≡ continue s later
  continue-written (err status, st) s next later (same, p) h = ap (λ s. continue s later) same
  continue-written (ok tt, st) s next later (same, p) h = h st p ∙ ap (λ s. continue s later) same

  write_loop-from :
      (data_shapes : ℕ → IPosition) (rows : Index) (r : ℕ) (st : Writing)
      → Passed st.last
      → written (write_loop beyond dims data_shapes rows r st)
        ≡ each_loop data_shapes rows r st.column
  unfolding write_loop each_loop
  write_loop-from data_shapes [] r st p = refl
  write_loop-from data_shapes (row ∷ rows) r st p =
      continue-written (write_step beyond dims row (data_shapes r) st)
        (each_step row (data_shapes r) st.column) (write_loop beyond dims data_shapes rows (suc r))
        (each_loop data_shapes rows (suc r)) (write_step-Agrees row (data_shapes r) st p)
        (write_loop-from data_shapes rows (suc r))

  -- Whatever the rows, the shapes of their data and the cells are, and also where a row is written
  -- twice: the loop, which skips a row with the shapes of the last it checked, has the outcome that
  -- checking every row has, and leaves the same cells.
  pub write_loop-each :
      (data_shapes : ℕ → IPosition) (rows : Index) (column : Column)
      → written
          (write_loop beyond dims data_shapes rows 0 (record { column = column; last = none }))
        ≡ each_loop data_shapes rows 0 column
  write_loop-each data_shapes rows column =
      write_loop-from data_shapes rows 0 (record { column = column; last = none }) tt
