-- ===== src/Write/Tests.antt =====
-- Three rows of two numbers, written to two rows of a column, one of them twice and not defined before.
use arcae.Prelude.{
  length, ◌<◌, ℕ, ◌*◌, ◌≡◌, refl, true, false, ◌||◌, none, some, [], ◌∷◌, ◌==◌, if◌then◌else◌, pos,
  negsuc, get_or, ok, arith,
}
use arcae.Selection.{Selection, maybe_f_span, has_row_span}
use arcae.Shape.{IPosition, Column, ResultShapeData}
use arcae.Shape.Clip.{max_element}
use arcae.Arrow.{ArrowArray, leaf, list}
use arcae.Arrow.Shape.{
  get_result_shape_data, get_arrow_result_shape_data, nesting_loop, update_shape,
}
use arcae.Write.{
  CellStore, dim_selection, dim_selections_of, check_against_cell, check_data_dims, grow_shape,
  write_step, write_loop,
}
use arcae.Write.Repeats.{written, each_loop, write_loop-each}
use arcae.Write.Make.{make_write, shape_of_data, check_shape, write_secondary, write_cells}
use arcae.Write.Make.Holds.{Holds, make_write-Holds}

-- A store of cells with one cell changed.
abbrev with_cell : Column → ℕ → IPosition → Column
with_cell column row shape = record column {
  is_defined = λ r. (r == row) || column.is_defined r;
  shape = λ r. if r == row then shape else column.shape r;
}

instance abbrev cell_store : CellStore
cell_store = record {
  set_shape = with_cell;
  is_defined-set = λ column row shape. ground arith;
  shape-set = λ column row shape. ground arith;
  is_defined-other = λ column row other shape differs. ground arith;
  shape-other = λ column row other shape differs. ground arith;
}

abbrev column : Column
column = record {
  nrow = 4;
  is_defined = λ r. r == 0;
  shape = λ r. 3 ∷ [];
  is_fixed_shape = false;
  desc_shape = [];
  desc_ndim = pos 1;
  data_type = 5;
}

abbrev pairs : ArrowArray
pairs =
    list
      (record {
        is_fixed_size = true;
        length = 3;
        null_count = 0;
        value_length = λ i. 2;
        value_offset = λ i. i * 2;
      })
      (leaf 6)

abbrev selection : Selection
selection = record {
  indices = [];
  spans = (pos 2 ∷ negsuc 0 ∷ []) ∷ (pos 3 ∷ pos 0 ∷ pos 3 ∷ []) ∷ [];
}

abbrev shape_data : ResultShapeData
shape_data = record {
  fixed_shape = some (2 ∷ 3 ∷ []);
  ndim = pos 2;
  dtype = 5;
  row_shapes = none;
  cell_extents = none;
}

make_write_test : (make_write (λ n. false) 7 column selection (some pairs)).0 ≡ ok shape_data
unfolding make_write shape_of_data get_result_shape_data get_arrow_result_shape_data nesting_loop
    update_shape check_shape has_row_span write_secondary write_cells dim_selection maybe_f_span
    max_element check_data_dims write_loop write_step check_against_cell grow_shape
make_write_test = refl

make_write-Holds_example :
    let after = (make_write (λ n. false) 7 column selection (some pairs)).1 in
    (after.is_defined 3 ≡ true)
    × (0 < length (after.shape 3))
    × Holds (maybe_f_span selection 0 2) (get_or (after.shape 3) 0 0) 2
unfolding has_row_span
make_write-Holds_example =
    make_write-Holds (λ n. false) 7 column selection (some pairs) {shape_data = shape_data} 2 0 3 0
      refl make_write_test refl (omega arith) refl (λ i l. omega arith) (λ row e. omega arith)
      (omega arith)

write_loop-each_example :
    written (
      write_loop 0
        (dim_selections_of selection 2)
        (λ r. 2 ∷ [])
        (pos 3 ∷ pos 0 ∷ pos 3 ∷ [])
        0
        (record { column = column; last = none }))
    ≡ each_loop 0
        (dim_selections_of selection 2)
        (λ r. 2 ∷ [])
        (pos 3 ∷ pos 0 ∷ pos 3 ∷ [])
        0
        column
write_loop-each_example =
    write_loop-each 0 (dim_selections_of selection 2) (λ r. 2 ∷ []) (pos 3 ∷ pos 0 ∷ pos 3 ∷ [])
      column
