-- ===== src/Shape/Negate/Tests.antt =====
-- Three rows of a column whose cells vary, of which one has no cell, for a result of fixed shape.
use arcae.Prelude.{
  ◌≡◌, refl, false, none, some, [], ◌∷◌, ◌==◌, ltb, not, length, map, take, ◌-◌, All, if◌then◌else◌,
  pos, negsuc, ok,
}
use arcae.Selection.{
  Selection, maybe_f_span, has_row_span, build, set_order, new_builder, add_index, add_empty,
}
use arcae.Shape.{IPosition, Column, ResultShapeData}
use arcae.Shape.Missing.{
  validate_cell_shape, validate_dims, cell_extent, extent_dims, rebuild_selection, rebuild_rows,
  rebuild_dims, rebuild_dim,
}
use arcae.Shape.Negate.{
  negate_missing_selected_rows, negate_cells, negate_varied, negate_rows, negate_row,
  negate_defined, negated_selection, rows_of,
}
use arcae.Shape.Negate.Rows.{negate_missing-rows, negated, IsRow}
use arcae.Shape.Negate.Extents.{negate_missing-Extents, IsPadded, Extents}

abbrev cells : Column
cells = record {
  nrow = 4;
  is_defined = λ r. not (r == 2);
  shape = λ r. if ltb r 2 then 2 ∷ 3 ∷ [] else 5 ∷ 3 ∷ [];
  is_fixed_shape = false;
  desc_shape = [];
  desc_ndim = pos 2;
  data_type = 9;
}

abbrev selection : Selection
selection = record { indices = []; spans = (pos 0 ∷ pos 2 ∷ pos 3 ∷ []) ∷ [] }

abbrev given : ResultShapeData
given = record {
  fixed_shape = some (5 ∷ 3 ∷ 3 ∷ []);
  ndim = pos 3;
  dtype = 9;
  row_shapes = none;
  cell_extents = none;
}

-- The rows 0 and 3 are read, and row 0 fills only a part of its place.
abbrev after : ResultShapeData
after = record given { cell_extents = some ((2 ∷ 3 ∷ []) ∷ (2 ∷ 3 ∷ []) ∷ (5 ∷ 3 ∷ []) ∷ []) }

abbrev rebuilt : Selection
rebuilt = record {
  indices = (pos 0 ∷ negsuc 0 ∷ pos 3 ∷ []) ∷ [];
  spans = [] ∷ [] ∷ (pos 0 ∷ negsuc 0 ∷ pos 3 ∷ []) ∷ [];
}

negated_test : negate_missing_selected_rows given cells selection ≡ ok (rebuilt, after)
unfolding negate_missing_selected_rows negate_cells negate_varied negate_rows negate_row
    negate_defined negated_selection validate_cell_shape validate_dims cell_extent extent_dims
    rebuild_selection rebuild_rows rebuild_dims rebuild_dim maybe_f_span has_row_span build
    set_order new_builder add_index add_empty
negated_test = refl

negate_missing-rows_example :
    (rows_of cells rebuilt ≡ map (negated cells) (rows_of cells selection))
    × All (IsRow cells) (rows_of cells selection)
negate_missing-rows_example =
    negate_missing-rows given cells selection rebuilt after refl negated_test

negate_missing-Extents_example :
    (shape : IPosition) × (extent : IPosition) × (given.fixed_shape ≡ some shape)
    × IsPadded selection (take (length shape - 1) shape) extent rebuilt
    × Extents cells selection (take (length shape - 1) shape) extent after.cell_extents
negate_missing-Extents_example =
    negate_missing-Extents given cells selection rebuilt after refl refl negated_test
