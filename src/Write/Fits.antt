-- ===== src/Write/Fits.antt =====
-- What the checks of the cells give: the cells that are written to hold what is written.
use arcae.Prelude.{
  ℕ, zero, suc, ◌+◌, ◌≤◌, ◌<◌, max, ◌≡◌, refl, subst, Bool, true, false, not, Option, none, some,
  List, [], ◌∷◌, length, get_or, ℤ, pos, negsuc, ltb_ℤ, ok, fail_if->>-eq-ok, ltb, index_error,
  ltb→ge, arith,
}
use arcae.Shape.{IPosition}
use arcae.Write.{DimSelection, check_against_cell, grow_shape, next_index}

-- A dimension of a cell holds the indices that are selected in it, or the data.
abbrev pub DimFits : Option DimSelection → ℕ → ℕ → Type 0
DimFits none extent size = size ≤ extent
DimFits (some selected) extent size = ltb_ℤ selected.max_index (pos extent) ≡ true

not-eq-false : (b : Bool) → not b ≡ false → b ≡ true
not-eq-false true e = refl
not-eq-false false e = cc

below_next : (i : ℤ) (size : ℕ) → ltb_ℤ i (pos (max (next_index i) size)) ≡ true
below_next (pos i) size = ground arith
below_next (negsuc i) size = ground arith

module _ (beyond : ℕ) where
  -- The dimensions of a cell hold what is written.
  abbrev pub CellFits : List (Option DimSelection) → IPosition → IPosition → Type 0
  CellFits dims cell_shape data_shape =
      (d : ℕ)
      → d < length dims
      → DimFits (get_or dims d none) (get_or cell_shape d beyond) (get_or data_shape d 0)

  -- The dimension `dim` of the shapes.
  abbrev FitsAt : Option DimSelection → IPosition → IPosition → ℕ → Type 0
  FitsAt selected cell_shape data_shape dim =
      DimFits selected (get_or cell_shape dim beyond) (get_or data_shape dim 0)

  check_against_cell-tail :
      (selected : Option DimSelection) (dims : List (Option DimSelection)) (dim : ℕ)
      (cell_shape data_shape : IPosition)
      → check_against_cell beyond (selected ∷ dims) dim cell_shape data_shape ≡ ok tt
      → FitsAt selected cell_shape data_shape dim
        × (check_against_cell beyond dims (suc dim) cell_shape data_shape ≡ ok tt)
  unfolding check_against_cell
  check_against_cell-tail (some selected) dims dim cell_shape data_shape e =
      let extent = get_or cell_shape dim beyond in
      let (_, e') = fail_if->>-eq-ok (ltb extent selected.nselected) index_error _ e in
      let (small, e'') =
        fail_if->>-eq-ok (not (ltb_ℤ selected.max_index (pos extent))) index_error _ e' in
      (not-eq-false _ small, e'')
  check_against_cell-tail none dims dim cell_shape data_shape e =
      let extent = get_or cell_shape dim beyond in
      let (small, e') = fail_if->>-eq-ok (ltb extent (get_or data_shape dim 0)) index_error _ e in
      (ltb→ge extent (get_or data_shape dim 0) small, e')

  check_against_cell-fits :
      (dims : List (Option DimSelection)) (dim : ℕ) (cell_shape data_shape : IPosition)
      → check_against_cell beyond dims dim cell_shape data_shape ≡ ok tt
      → (d : ℕ) → d < length dims
      → FitsAt (get_or dims d none) cell_shape data_shape (dim + d)
  check_against_cell-fits [] dim cell_shape data_shape e d l = absurd (omega arith)
  check_against_cell-fits (selected ∷ dims) dim cell_shape data_shape e zero l =
      let at : dim ≡ dim + 0 = omega arith in
      subst (FitsAt selected cell_shape data_shape) at
        (check_against_cell-tail selected dims dim cell_shape data_shape e).0
  check_against_cell-fits (selected ∷ dims) dim cell_shape data_shape e (suc d) l =
      let at : suc dim + d ≡ dim + suc d = omega arith in
      subst (FitsAt (get_or dims d none) cell_shape data_shape) at (
        check_against_cell-fits dims (suc dim) cell_shape data_shape
          (check_against_cell-tail selected dims dim cell_shape data_shape e).1 d (omega arith))

  -- So does the shape that an undefined cell is given.
  pub grow_shape-CellFits :
      (dims : List (Option DimSelection)) (data_shape : IPosition)
      → length dims ≤ length data_shape
      → CellFits dims (grow_shape dims data_shape) data_shape
  unfolding grow_shape
  grow_shape-CellFits [] data_shape l d h = absurd (omega arith)
  grow_shape-CellFits (selected ∷ dims) [] l d h = absurd (omega arith)
  grow_shape-CellFits (none ∷ dims) (size ∷ data_shape) l zero h = omega arith
  grow_shape-CellFits (none ∷ dims) (size ∷ data_shape) l (suc d) h =
      grow_shape-CellFits dims data_shape (omega arith) d (omega arith)
  grow_shape-CellFits (some selected ∷ dims) (size ∷ data_shape) l zero h =
      below_next selected.max_index size
  grow_shape-CellFits (some selected ∷ dims) (size ∷ data_shape) l (suc d) h =
      grow_shape-CellFits dims data_shape (omega arith) d (omega arith)

  -- A cell that passes the check holds what is written.
  pub check_against_cell-CellFits :
      (dims : List (Option DimSelection)) (cell_shape data_shape : IPosition)
      → check_against_cell beyond dims 0 cell_shape data_shape ≡ ok tt
      → CellFits dims cell_shape data_shape
  check_against_cell-CellFits dims cell_shape data_shape e d l =
      let at : 0 + d ≡ d = omega arith in
      subst (FitsAt (get_or dims d none) cell_shape data_shape) at
        (check_against_cell-fits dims 0 cell_shape data_shape e d l)
