-- ===== src/Shape/Tests.antt =====
-- Four rows of a column whose cells vary, of which one is not defined.
use arcae.Prelude.{
  none, err, index_error, ℕ, ◌<◌, ◌≡◌, refl, ◌↔◌, true, false, none, some, [], ◌∷◌, ◌==◌, ltb, not,
  if◌then◌else◌, arith, pos, negsuc, ok, ◌>>=◌,
}
use arcae.Selection.{Selection, maybe_f_span, has_row_span}
use arcae.Shape.{Column, ResultShapeData, n_rows}
use arcae.Shape.Clip.{
  clip, clipped, new_clipper, cache, clip_dims, clipped_from, max_element, selected_dim,
}
use arcae.Shape.Clip.Lookup.{clip-clipped, after_clip}
use arcae.Shape.Rows.{
  make_row_data, rows_loop, row_step, defined_row, add_shape, repeat_last, row_index, n_selected,
}
use arcae.Shape.Rows.Summary.{summarise, n_missing}
use arcae.Shape.Rows.Steps.{HasCells, selected_shapes}
use arcae.Shape.Rows.Loop.{make_row_data-summarise}
use arcae.Shape.Read.{make_read, rows_result, row_rank}
use arcae.Shape.Read.Rows.{make_read-rows, read_row, result_row}
use arcae.Shape.Missing.{
  rebuild_selection, cell_extent, extent_dims, validate_cell_shape, validate_dims,
}
use arcae.Shape.Missing.Rebuild.{maybe_f_span-rebuild_selection}
use arcae.Shape.Read.Rank.{row_rank-HasRank, HasRank}

abbrev cells : Column
cells = record {
  nrow = 4;
  is_defined = λ r. not (r == 2);
  shape = λ r. if ltb r 2 then 2 ∷ 3 ∷ [] else 5 ∷ 3 ∷ [];
  is_fixed_shape = false;
  desc_shape = [];
  desc_ndim = pos 2;
  data_type = 9;
}

-- The rows 0, 1, 2 and 3, and the indices 1 and 0 of the last dimension of a cell.
abbrev selection : Selection
selection = record {
  indices = [];
  spans = (pos 1 ∷ pos 0 ∷ []) ∷ (pos 0 ∷ pos 1 ∷ pos 2 ∷ pos 3 ∷ []) ∷ [];
}

cells-HasCells : HasCells cells
cells-HasCells r d = ground arith

clip-clipped_example :
    clip selection new_clipper (2 ∷ 3 ∷ [])
    ≡ (clipped selection (2 ∷ 3 ∷ []) >>= λ shape. ok (shape, after_clip selection new_clipper 2))
clip-clipped_example =
    clip-clipped selection new_clipper (2 ∷ 3 ∷ []) (λ l. absurd (omega arith)) (omega arith)

clip_test : clipped selection (2 ∷ 3 ∷ []) ≡ ok (2 ∷ 2 ∷ [])
unfolding clipped_from maybe_f_span
clip_test = refl

make_row_data-summarise_example :
    make_row_data cells selection true
    ≡ (selected_shapes cells selection true >>= λ shapes. ok (summarise shapes))
make_row_data-summarise_example = make_row_data-summarise cells selection true cells-HasCells

abbrev data_shape : ResultShapeData
data_shape = record {
  fixed_shape = none;
  ndim = pos 3;
  dtype = 9;
  row_shapes = some ((2 ∷ 2 ∷ []) ∷ (2 ∷ 2 ∷ []) ∷ [] ∷ (5 ∷ 2 ∷ []) ∷ []);
  cell_extents = none;
}

make_read_test : make_read cells selection true ≡ ok data_shape
unfolding make_read make_row_data rows_loop row_step defined_row add_shape repeat_last row_index
    n_selected clip clip_dims cache selected_dim max_element rows_result row_rank maybe_f_span
    has_row_span
make_read_test = refl

make_read-rows_example :
    (n_rows data_shape ≡ n_selected cells selection)
    × ((i : ℕ)
        → i < n_selected cells selection
        → read_row cells selection true i ≡ ok (result_row data_shape i))
make_read-rows_example =
    make_read-rows cells selection true cells-HasCells (omega arith) make_read_test

row_rank-HasRank_example :
    (row_rank ((2 ∷ 2 ∷ []) ∷ [] ∷ []) (negsuc 0) ≡ pos 3)
    ↔ ((n_missing ((2 ∷ 2 ∷ []) ∷ [] ∷ []) < 2) × HasRank 3 ((2 ∷ 2 ∷ []) ∷ [] ∷ []))
row_rank-HasRank_example = row_rank-HasRank 3 ((2 ∷ 2 ∷ []) ∷ [] ∷ [])

maybe_f_span-rebuild_selection_example :
    maybe_f_span (rebuild_selection selection (4 ∷ 2 ∷ []) (2 ∷ 2 ∷ []) none) 0 3
    ≡ some (pos 0 ∷ pos 1 ∷ negsuc 0 ∷ negsuc 0 ∷ [])
unfolding maybe_f_span
maybe_f_span-rebuild_selection_example =
    maybe_f_span-rebuild_selection selection (4 ∷ 2 ∷ []) (2 ∷ 2 ∷ []) none 0 (omega arith)

cell_extent_test : cell_extent (2 ∷ 3 ∷ []) (4 ∷ 2 ∷ []) selection ≡ 2 ∷ 2 ∷ []
unfolding cell_extent extent_dims maybe_f_span
cell_extent_test = refl

validate_test : validate_cell_shape (2 ∷ 1 ∷ []) (4 ∷ 2 ∷ []) selection ≡ err index_error
unfolding validate_cell_shape validate_dims maybe_f_span
validate_test = refl
