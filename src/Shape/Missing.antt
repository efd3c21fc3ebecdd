-- ===== src/Shape/Missing.antt =====
-- `ValidateCellShape`, `CellExtent` and `RebuildSelection` of cpp/arcae/result_shape.cc: results that
-- are smaller or larger than the cells.
pub mod Rebuild
use arcae.Prelude.{
  ℕ, zero, suc, ◌+◌, ◌-◌, min, Bool, true, false, not, Option, none, some, List, [], ◌∷◌, ◌++◌, map,
  length, iota, replicate, get_or, ltb, ◌==◌, if◌then◌else◌, ℤ, pos, negsuc, Result, ok, err,
  index_error, invalid, ◌>>◌, fail_if, ◌>>=◌,
}
use arcae.Selection.{
  Index, Selection, SelectionBuilder, maybe_f_span, has_row_span, get_row_span, new_builder,
  set_order, add_index, add_empty, build,
}
use arcae.Shape.{IPosition}
use arcae.Shape.Clip.{all_below}

-- The checks of a dimension with a selection.
abbrev pub validate_span : Option Index → ℕ → ℕ → Result (Unit {0})
validate_span none cell_extent result_extent = ok tt
validate_span (some span) cell_extent result_extent =
    fail_if (not (length span == result_extent)) index_error
    >> fail_if (not (all_below span cell_extent)) index_error

-- The rounds from dimension `dim` on.
unfoldable pub validate_dims : Selection → ℕ → ℕ → IPosition → IPosition → Result (Unit {0})
validate_dims selection ndim dim [] result_shape = ok tt
validate_dims selection ndim dim (extent ∷ cell_shape) [] = ok tt
validate_dims selection ndim dim (extent ∷ cell_shape) (result ∷ result_shape) =
    validate_span (maybe_f_span selection dim (ndim + 1)) extent result
    >> validate_dims selection ndim (suc dim) cell_shape result_shape

unfoldable pub validate_cell_shape : IPosition → IPosition → Selection → Result (Unit {0})
validate_cell_shape cell_shape result_shape selection =
    fail_if (not (length result_shape == length cell_shape)) invalid
    >> validate_dims selection (length cell_shape) 0 cell_shape result_shape

-- `CellExtent`, from dimension `dim` on.
unfoldable pub extent_dims : Selection → ℕ → ℕ → IPosition → IPosition → IPosition
extent_dims selection ndim dim cell_shape [] = []
extent_dims selection ndim dim cell_shape (result ∷ result_shape) =
    (elim (maybe_f_span selection dim (ndim + 1)) [
      | some span ↦ result
      | none ↦ min (get_or cell_shape dim 0) result
    ])
    ∷ extent_dims selection ndim (suc dim) cell_shape result_shape

unfoldable pub cell_extent : IPosition → IPosition → Selection → IPosition
cell_extent cell_shape result_shape selection =
    extent_dims selection (length result_shape) 0 cell_shape result_shape

-- The indices of the cell, and -1 for the rest of the result.
abbrev pub padded : ℕ → ℕ → Index
padded extent result = map pos (iota 0 extent) ++ replicate (result - extent) (negsuc 0)

unfoldable pub rebuild_dim :
    Selection → IPosition → IPosition → ℕ → SelectionBuilder → SelectionBuilder
rebuild_dim selection result_shape extent dim builder =
    elim (maybe_f_span selection dim (length result_shape + 1)) [
      | some span ↦ add_index span builder
      | none ↦
          if ltb (get_or extent dim 0) (get_or result_shape dim 0)
          then add_index (padded (get_or extent dim 0) (get_or result_shape dim 0)) builder
          else add_empty builder
    ]

-- `rounds` rounds from dimension `dim` on.
unfoldable pub rebuild_dims :
    Selection → IPosition → IPosition → ℕ → ℕ → SelectionBuilder → SelectionBuilder
rebuild_dims selection result_shape extent zero dim builder = builder
rebuild_dims selection result_shape extent (suc rounds) dim builder =
    rebuild_dims selection result_shape extent rounds (suc dim)
      (rebuild_dim selection result_shape extent dim builder)

unfoldable pub rebuild_rows : Selection → Option Index → SelectionBuilder → SelectionBuilder
rebuild_rows selection (some rows) builder = add_index rows builder
rebuild_rows selection none builder =
    if has_row_span selection then add_index (get_row_span selection) builder else add_empty builder

unfoldable pub rebuild_selection : Selection → IPosition → IPosition → Option Index → Selection
rebuild_selection selection result_shape extent rows = build (
    rebuild_rows selection rows (
      rebuild_dims selection result_shape extent (length result_shape) 0
        (set_order true new_builder)))
