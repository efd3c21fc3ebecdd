-- ===== src/Write/Make/Holds.antt =====
-- What `MakeWrite` gives where it succeeds and the cells vary in shape.
use arcae.Prelude.{
  ℕ, ◌-◌, ◌≤◌, ◌<◌, ◌≡◌, refl, sym, ap, subst, ◌∙◌, Bool, true, false, Option, none, some, [], ◌∷◌,
  length, get_or, iota, length-map, length-iota, get_or-map-iota, get_or_default, leb, Option-cases,
  inl, inr, pos, Result, ok, err, >>=-eq-ok, arith,
}
use arcae.Selection.{Index, Selection, maybe_f_span}
use arcae.Shape.{Column, ResultShapeData, consistent_ndim}
use arcae.Shape.Clip.{all_below}
use arcae.Shape.Clip.Lookup.{all_below-max_element, maybe_f_span-nonempty}
use arcae.Shape.Read.{check_row_number_limit}
use arcae.Arrow.{ArrowArray}
use arcae.Arrow.Shape.{get_result_shape_data}
use arcae.Write.{CellStore, DimSelection, dim_selection, dim_selections_of}
use arcae.Write.Fits.{DimFits}
use arcae.Write.Repeats.{each_loop, write_loop-each}
use arcae.Write.Rows.{each_loop-RowFits}
use arcae.Write.Ranks.{Ranked, each_loop-Ranked}
use arcae.Write.Make.{
  data_row_shape, check_shape, check_data, written_rows, write_cells, checked_cells, write_dims,
  write_secondary, write_checked, write_shape, shape_of_data, make_write,
}

-- A dimension of a cell, of the extent, holds what is written to it: the indices that are selected, or
-- else data of the size.
abbrev pub Holds : Option Index → ℕ → ℕ → Type 0
Holds (some span) extent size = all_below span extent ≡ true
Holds none extent size = size ≤ extent

DimFits-Holds :
    (selection : Selection) (ndim dim extent size : ℕ) {selected : Option DimSelection}
    → selected ≡ dim_selection selection ndim dim
    → DimFits selected extent size
    → Holds (maybe_f_span selection dim ndim) extent size
unfolding dim_selection
DimFits-Holds selection ndim dim extent size found =
    elim (Option-cases (maybe_f_span selection dim ndim)) [
      | inl e ↦ rw (found, dim_selection, e) (λ h. h)
      | inr ([], e) ↦ absurd (maybe_f_span-nonempty selection dim ndim e)
      | inr (i ∷ span, e) ↦
          rw (found, dim_selection, e) (λ h. all_below-max_element i span extent ∙ h)
    ]

length-dim_selections_of :
    (selection : Selection) (ndim : ℕ) → length (dim_selections_of selection ndim) ≡ ndim - 1
length-dim_selections_of selection ndim =
    length-map (iota 0 (ndim - 1)) (dim_selection selection ndim) ∙ length-iota 0 (ndim - 1)

module _ (beyond : ℕ) ⦃store : CellStore⦄ (column : Column) (selection : Selection)
    (shape_data : ResultShapeData) where
  write_dims-ok :
      (ndim : ℕ) (check : Result (Unit {0}))
      → column.is_fixed_shape ≡ false
      → (write_dims beyond column selection shape_data ndim check).0 ≡ ok tt
      → write_dims beyond column selection shape_data ndim check
        ≡ write_cells beyond column selection shape_data ndim
  write_dims-ok ndim (err status) varied e = cc
  write_dims-ok ndim (ok _) varied e =
      ap (checked_cells beyond column selection shape_data ndim) varied

  write_secondary-ok :
      (ndim : ℕ)
      → 1 < ndim
      → column.is_fixed_shape ≡ false
      → (write_secondary beyond column selection shape_data ndim).0 ≡ ok tt
      → write_secondary beyond column selection shape_data ndim
        ≡ write_cells beyond column selection shape_data ndim
  unfolding write_secondary
  write_secondary-ok ndim many varied =
      let large : leb ndim 1 ≡ false = ground arith in
      rw large (write_dims-ok ndim (check_data column selection shape_data ndim) varied)

  -- The cells after the loop.
  write_cells-Holds :
      (ndim i row d : ℕ)
      → (write_cells beyond column selection shape_data ndim).0 ≡ ok tt
      → i < length (written_rows column selection shape_data)
      → get_or (written_rows column selection shape_data) i (pos 0) ≡ pos row
      → ((i : ℕ)
          → i < length (written_rows column selection shape_data)
          → ndim - 1 ≤ length (data_row_shape shape_data (ndim - 1) i))
      → Ranked (ndim - 1) column
      → d < ndim - 1
      → let after = (write_cells beyond column selection shape_data ndim).1 in
        (after.is_defined row ≡ true)
        × (d < length (after.shape row))
        × Holds
            (maybe_f_span selection d ndim)
            (get_or (after.shape row) d 0)
            (get_or (data_row_shape shape_data (ndim - 1) i) d 0)
  unfolding write_cells
  write_cells-Holds ndim i row d e l at sizes ranked h =
      let dims = dim_selections_of selection ndim in
      let shapes = data_row_shape shape_data (ndim - 1) in
      let count = length-dim_selections_of selection ndim in
      let same =
        write_loop-each beyond dims shapes (written_rows column selection shape_data) column in
      let (defined, fits) =
        each_loop-RowFits beyond dims shapes (written_rows column selection shape_data) 0 column i i
          row (ap (λ s. s.0) (sym same) ∙ e) (omega arith) l at (omega (arith, count, sizes i l)) in
      let found : get_or dims d none ≡ dim_selection selection ndim d =
        get_or-map-iota (dim_selection selection ndim) 0 (ndim - 1) d none h
        ∙ ap (dim_selection selection ndim) (omega arith) in
      let after =
        (each_loop beyond dims shapes (written_rows column selection shape_data) 0 column).1 in
      let cell = after.shape row in
      let reaches : d < length cell = omega (
        arith,
        h,
        each_loop-Ranked beyond dims (ndim - 1) shapes (written_rows column selection shape_data) 0
            column (λ j low high. sizes j (omega (arith, high))) ranked row defined,
      ) in
      subst
        (λ (s : Result (Unit {0}) × Column).
          (s.1.is_defined row ≡ true)
          × (d < length (s.1.shape row))
          × Holds (maybe_f_span selection d ndim) (get_or (s.1.shape row) d 0)
              (get_or (shapes i) d 0))
        (sym same)
        (
          defined,
          reaches,
          subst (λ extent. Holds (maybe_f_span selection d ndim) extent (get_or (shapes i) d 0))
              (get_or_default cell d beyond 0 reaches)
              (DimFits-Holds selection ndim d _ _ found (fits d (omega (arith, count, h)))),
        )

module _ (is_complex : ℕ → Bool) (beyond : ℕ) ⦃store : CellStore⦄ (column : Column)
    (selection : Selection) where
  write_checked-ok :
      (found : ResultShapeData) (ndim : ℕ) (check : Result (Unit {0}))
      {shape_data : ResultShapeData}
      → (write_checked is_complex beyond column selection found ndim check).0 ≡ ok shape_data
      → (found ≡ shape_data)
        × ((write_secondary beyond column selection found ndim).0 ≡ ok tt)
        × ((write_checked is_complex beyond column selection found ndim check).1
            ≡ (write_secondary beyond column selection found ndim).1)
  write_checked-ok found ndim (err status) e = cc
  write_checked-ok found ndim (ok _) {shape_data} e =
      let (_, passed, same) =
        >>=-eq-ok (write_secondary beyond column selection found ndim).0 (λ _. ok found) e in
      let same : found ≡ shape_data = cc in (same, passed, refl)

  shape_of_data-ok :
      (data_array : Option ArrowArray) {found : ResultShapeData} {ndim : ℕ}
      → shape_of_data is_complex beyond column selection data_array ≡ ok (found, ndim)
      → consistent_ndim found ≡ ok ndim
  unfolding shape_of_data
  shape_of_data-ok none {found} {ndim} e = cc
  shape_of_data-ok (some data_array) {found} {ndim} e =
      let (_, _, e') = >>=-eq-ok (check_row_number_limit column.nrow) _ e in
      let (shape, _, e'') =
        >>=-eq-ok (get_result_shape_data is_complex column (some data_array)) _ e' in
      let (rank, ranked, last) = >>=-eq-ok (consistent_ndim shape) _ e'' in
      let same : shape ≡ found = cc in
      let equal : rank ≡ ndim = cc in ap consistent_ndim (sym same) ∙ ranked ∙ ap ok equal

  -- What the call returns if it succeeds.
  write_shape-ok :
      (r : Result (ResultShapeData × ℕ)) (ndim : ℕ) {shape_data : ResultShapeData}
      → ((found : ResultShapeData) (rank : ℕ)
          → r ≡ ok (found, rank)
          → consistent_ndim found ≡ ok rank)
      → consistent_ndim shape_data ≡ ok ndim
      → (write_shape is_complex beyond column selection r).0 ≡ ok shape_data
      → ((write_secondary beyond column selection shape_data ndim).0 ≡ ok tt)
        × ((write_shape is_complex beyond column selection r).1
            ≡ (write_secondary beyond column selection shape_data ndim).1)
  write_shape-ok (err status) ndim ranks rank e = cc
  write_shape-ok (ok (found, found_ndim)) ndim {shape_data} ranks rank e =
      let (same, passed, column_same) =
        write_checked-ok found found_ndim (check_shape column selection found found_ndim) e in
      let both : ok found_ndim ≡ ok ndim =
        sym (ranks found found_ndim refl) ∙ ap consistent_ndim same ∙ rank in
      let equal : found_ndim ≡ ndim = cc in
      let calls =
        ap (λ found. write_secondary beyond column selection found found_ndim) same
        ∙ ap (write_secondary beyond column selection shape_data) equal in
      (ap (λ s. s.0) (sym calls) ∙ passed, column_same ∙ ap (λ s. s.1) calls)

  -- `MakeWrite` succeeds for data with a dimension `d` besides that of the rows and a column whose
  -- cells vary. The data of each row that is written, and each cell that is defined before, has an
  -- extent for each of these dimensions. Then after the call the cell of each row that is written is
  -- defined, also where it was not or where the row is written twice, it has dimension `d`, and it
  -- holds there what is written to it: with a selection of the dimension, its indices are below the
  -- extent of the cell, and without one the data is not larger than the cell.
  pub make_write-Holds :
      (data_array : Option ArrowArray) {shape_data : ResultShapeData} (ndim i row d : ℕ)
      → column.is_fixed_shape ≡ false
      → (make_write is_complex beyond column selection data_array).0 ≡ ok shape_data
      → consistent_ndim shape_data ≡ ok ndim
      → i < length (written_rows column selection shape_data)
      → get_or (written_rows column selection shape_data) i (pos 0) ≡ pos row
      → ((i : ℕ)
          → i < length (written_rows column selection shape_data)
          → ndim - 1 ≤ length (data_row_shape shape_data (ndim - 1) i))
      → Ranked (ndim - 1) column
      → d < ndim - 1
      → let after = (make_write is_complex beyond column selection data_array).1 in
        (after.is_defined row ≡ true)
        × (d < length (after.shape row))
        × Holds
            (maybe_f_span selection d ndim)
            (get_or (after.shape row) d 0)
            (get_or (data_row_shape shape_data (ndim - 1) i) d 0)
  unfolding make_write
  make_write-Holds data_array {shape_data} ndim i row d varied e rank l at sizes ranked h =
      let (passed, after_secondary) =
        write_shape-ok (shape_of_data is_complex beyond column selection data_array) ndim
          (λ found rank. shape_of_data-ok data_array) rank e in
      let cells =
        write_secondary-ok beyond column selection shape_data ndim (omega (arith, h)) varied
          passed in
      let holds =
        write_cells-Holds beyond column selection shape_data ndim i row d
          (ap (λ s. s.0) (sym cells) ∙ passed) l at sizes ranked h in
      subst
        (λ (after : Column).
          (after.is_defined row ≡ true)
          × (d < length (after.shape row))
          × Holds (maybe_f_span selection d ndim) (get_or (after.shape row) d 0)
              (get_or (data_row_shape shape_data (ndim - 1) i) d 0))
        (sym (after_secondary ∙ ap (λ s. s.1) cells)) holds
