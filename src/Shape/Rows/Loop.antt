-- ===== src/Shape/Rows/Loop.antt =====
-- The loop over the rows, which skips rows that repeat a shape, summarises the shapes of all rows.
use arcae.Prelude.{
  ℕ, zero, suc, ◌≡◌, refl, sym, ap, ◌∙◌, Bool, List, [], ◌∷◌, ◌++◌, length, length-append,
  append_assoc, append-nil, map, iota, arith, inl, inr, Result, ok, err, ◌>>=◌, traverse,
}
use arcae.Selection.{Selection}
use arcae.Shape.{IPosition, Column}
use arcae.Shape.Rows.{RowState, first_row_state, row_index, n_selected, rows_loop, make_row_data}
use arcae.Shape.Rows.Summary.{summarise}
use arcae.Shape.Rows.Steps.{HasCells, row_shape, selected_shapes, After, step-Agrees}

add_first :
    (done : List IPosition) (s : IPosition) (rest : Result (List IPosition))
    → (rest >>= λ shapes. ok (summarise ((done ++ s ∷ []) ++ shapes)))
      ≡ ((rest >>= λ shapes. ok (s ∷ shapes)) >>= λ shapes. ok (summarise (done ++ shapes)))
add_first done s (err status) = refl
add_first done s (ok shapes) = ap (λ all. ok (summarise all)) (append_assoc done (s ∷ []) shapes)

module _ (column : Column) (selection : Selection) where
  loop-summarise :
      (allow_missing_rows : Bool) (rounds : ℕ) (done : List IPosition) (i : ℕ) (st : RowState)
      → HasCells column
      → After column selection done st
      → i ≡ length done
      → (rows_loop column selection allow_missing_rows rounds i st >>= λ st. ok st.result) ≡ (
          traverse
            (row_shape column selection allow_missing_rows)
            (map (row_index column selection) (iota i rounds))
          >>= λ shapes. ok (summarise (done ++ shapes)))
  unfolding rows_loop
  loop-summarise allow_missing_rows zero done i st cells a here =
      ap ok (a.result ∙ ap summarise (sym (append-nil done)))
  loop-summarise allow_missing_rows (suc rounds) done i st cells a here =
      elim (step-Agrees column selection allow_missing_rows done i st cells a here) [
        | inl (status, step, shape) ↦ rw (step, shape) refl
        | inr (s, next, step, shape, a') ↦
            let rest =
              loop-summarise allow_missing_rows rounds (done ++ s ∷ []) (suc i) next cells a'
                (omega (arith, length-append done (s ∷ []))) in
            rw (step, shape)
              (rest
                ∙ add_first done s (
                    traverse (row_shape column selection allow_missing_rows)
                      (map (row_index column selection) (iota (suc i) rounds))))
      ]

  -- Each defined cell has a dimension. The loop, which clips a row only if its shape is not that of
  -- the last defined row, and stores shapes only once they vary, ends as clipping each row by itself
  -- does: with the first error, or with the summary of all shapes.
  pub make_row_data-summarise :
      (allow_missing_rows : Bool)
      → HasCells column
      → make_row_data column selection allow_missing_rows
        ≡ (selected_shapes column selection allow_missing_rows >>= λ shapes. ok (summarise shapes))
  unfolding make_row_data
  make_row_data-summarise allow_missing_rows cells =
      loop-summarise allow_missing_rows (n_selected column selection) [] 0 first_row_state cells
        (record { result = refl; cached = λ l. absurd (omega arith); last = inl refl }) refl
