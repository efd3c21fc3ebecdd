-- ===== src/Write/Ranks.antt =====
-- `MakeWrite` leaves no cell with fewer dimensions than the data, where there is none before.
use arcae.Prelude.{
  ℕ, suc, ◌+◌, ◌≤◌, ◌<◌, ◌≡◌, refl, sym, ap, subst, ◌∙◌, Bool, true, false, Option, some, none,
  List, [], ◌∷◌, length, ℕ_discrete, ℤ, pos, negsuc, Result, ok, err, arith,
}
use arcae.Selection.{Index}
use arcae.Shape.{IPosition, Column}
use arcae.Write.{CellStore, DimSelection, grow_shape, continue}
use arcae.Write.Repeats.{each_cell, each_step, each_loop}

-- Each cell that is defined has `n` dimensions at least.
abbrev pub Ranked : ℕ → Column → Type 0
Ranked n column = (row : ℕ) → column.is_defined row ≡ true → n ≤ length (column.shape row)

length-grow_shape :
    (dims : List (Option DimSelection)) (shape : IPosition)
    → length (grow_shape dims shape) ≡ length shape
unfolding grow_shape
length-grow_shape [] shape = refl
length-grow_shape (selected ∷ dims) [] = refl
length-grow_shape (some selected ∷ dims) (size ∷ shape) = ap suc (length-grow_shape dims shape)
length-grow_shape (none ∷ dims) (size ∷ shape) = ap suc (length-grow_shape dims shape)

module _ (beyond : ℕ) ⦃store : CellStore⦄ (dims : List (Option DimSelection)) (n : ℕ) where
  set_shape-Ranked :
      (column : Column) (row : ℕ) (shape : IPosition)
      → n ≤ length shape
      → Ranked n column
      → Ranked n (store.set_shape column row shape)
  set_shape-Ranked column row shape l ranked other defined = elim (ℕ_discrete other row) [
    | yes same ↦
        subst (λ r. n ≤ length ((store.set_shape column row shape).shape r)) (sym same)
          (subst (λ s. n ≤ length s) (sym (store.shape-set column row shape)) l)
    | no differs ↦
        subst (λ s. n ≤ length s) (sym (store.shape-other column row other shape differs))
          (ranked other (sym (store.is_defined-other column row other shape differs) ∙ defined))
  ]

  each_cell-Ranked :
      (defined : Bool) (row : ℕ) (data_shape : IPosition) (column : Column)
      → n ≤ length data_shape
      → Ranked n column
      → Ranked n (each_cell beyond dims defined row data_shape column).1
  each_cell-Ranked true row data_shape column l ranked = ranked
  each_cell-Ranked false row data_shape column l ranked =
      let grown = length-grow_shape dims data_shape in
      set_shape-Ranked column row (grow_shape dims data_shape) (omega (arith, l, grown)) ranked

  each_step-Ranked :
      (row : ℤ) (data_shape : IPosition) (column : Column)
      → n ≤ length data_shape
      → Ranked n column
      → Ranked n (each_step beyond dims row data_shape column).1
  each_step-Ranked (negsuc i) data_shape column l ranked = ranked
  each_step-Ranked (pos row) data_shape column l ranked =
      each_cell-Ranked (column.is_defined row) row data_shape column l ranked

  continue-Ranked :
      (s : Result (Unit {0}) × Column) (later : Column → Result (Unit {0}) × Column)
      → Ranked n s.1
      → ((column : Column) → Ranked n column → Ranked n (later column).1)
      → Ranked n (continue s later).1
  continue-Ranked (err status, after) later ranked h = ranked
  continue-Ranked (ok _, after) later ranked h = h after ranked

  pub each_loop-Ranked :
      (data_shapes : ℕ → IPosition) (rows : Index) (r : ℕ) (column : Column)
      → ((j : ℕ) → r ≤ j → j < r + length rows → n ≤ length (data_shapes j))
      → Ranked n column
      → Ranked n (each_loop beyond dims data_shapes rows r column).1
  unfolding each_loop
  each_loop-Ranked data_shapes [] r column sizes ranked = ranked
  each_loop-Ranked data_shapes (row ∷ rows) r column sizes ranked =
      continue-Ranked (each_step beyond dims row (data_shapes r) column)
        (each_loop beyond dims data_shapes rows (suc r))
        (each_step-Ranked row (data_shapes r) column (sizes r (omega arith) (omega arith)) ranked)
        (λ after.
          each_loop-Ranked data_shapes rows (suc r) after
            (λ j low high. sizes j (omega (arith, low)) (omega (arith, high))))
