-- ===== src/Arrow/Tests.antt =====
-- Arrays of three rows of complex numbers, in cells of 2 by 4.
use native.Mathlib.Nat.{mul-div_cancel_left, mul-mod_right}
use arcae.Prelude.{
  ap, ◌∙◌, ◌%◌, ◌≢◌, ==_iff, Result, err, invalid, ℕ, zero, suc, ◌+◌, ◌-◌, ◌*◌, ◌/◌, ◌<◌, ◌≡◌, refl,
  true, false, some, List, [], ◌∷◌, length, get_or, product, arith, pos, ok, if◌then◌else◌, ◌==◌,
  none,
}
use arcae.Shape.{Column, ResultShapeData}
use arcae.Arrow.{ListLevel, ArrowArray, leaf, list, array_length}
use arcae.Arrow.Shape.{
  get_result_shape_data, get_arrow_result_shape_data, nesting_loop, update_shape, same_lengths,
  get_row_shapes, row_shape_loop,
}
use arcae.Arrow.Shape.Count.{IsArray, n_held}
use arcae.Arrow.Shape.Total.{get_result_shape_data-count, elements_of, values_each}
use arcae.Arrow.Flat.{get_flat_array}
use arcae.Arrow.Flat.Length.{get_result_shape_data-get_flat_array}
use arcae.Arrow.Make.{Lists, TypeKind, complex_kind, primitive_kind, make_array, fixed_strategy}
use arcae.Arrow.Make.Varied.{make_array-get_row_shapes, many_shapes}

abbrev fixed_level : ℕ → ArrowArray → ListLevel
fixed_level size values = record {
  is_fixed_size = true;
  length = array_length values / size;
  null_count = 0;
  value_length = λ i. size;
  value_offset = λ i. i * size;
}

abbrev offset_level : List ℕ → ListLevel
offset_level offsets = record {
  is_fixed_size = false;
  length = length offsets - 1;
  null_count = 0;
  value_length = λ i. get_or offsets (suc i) 0 - get_or offsets i 0;
  value_offset = λ i. get_or offsets i 0;
}

-- As many lists as the values make, if they are shared out evenly.
abbrev fixed_lists_of : ArrowArray → ℕ → Result ArrowArray
fixed_lists_of values size =
    if array_length values % size == 0
    then ok (list (fixed_level size values) values)
    else err invalid

even_lists :
    (values : ArrowArray) (size n : ℕ)
    → 0 < size
    → array_length values ≡ n * size
    → (level : ListLevel) × (fixed_lists_of values size ≡ ok (list level values))
      × (level.is_fixed_size ≡ true)
      × (level.null_count ≡ 0)
      × (level.length ≡ n)
      × ((i : ℕ) → level.value_length i ≡ size)
even_lists values size n l e =
    let times : n * size ≡ size * n = grind arith in
    let even : array_length values % size ≡ 0 =
      ap (λ m. m % size) (e ∙ times) ∙ mul-mod_right size n in
    let tested : (array_length values % size == 0) ≡ true = (==_iff _ 0).1 even in
    (
      fixed_level size values,
      ap (λ b. if b then ok (list (fixed_level size values) values) else err invalid) tested,
      refl,
      refl,
      ap (λ m. m / size) (e ∙ times) ∙ mul-div_cancel_left n l,
      λ i. refl,
    )

uneven_lists :
    (values : ArrowArray) (size : ℕ)
    → 0 < size
    → array_length values % size ≢ 0
    → fixed_lists_of values size ≡ err invalid
uneven_lists values size l uneven =
    let tested : (array_length values % size == 0) ≡ false = ground arith in
    ap (λ b. if b then ok (list (fixed_level size values) values) else err invalid) tested

instance abbrev plain_lists : Lists
plain_lists = record {
  fixed_from_arrays = fixed_lists_of;
  list_from_arrays = λ offsets values. ok (list (offset_level offsets) values);
  fixed_lists = even_lists;
  fixed_lists_fail = uneven_lists;
  offset_lists =
      λ offsets values l. (offset_level offsets, refl, refl, refl, refl, (λ i. refl), λ i. refl);
}

-- `TpComplex` has the number 9.
abbrev kind_of : ℕ → TypeKind
kind_of n = if n == 9 then complex_kind else primitive_kind

abbrev cells : Column
cells = record {
  nrow = 3;
  is_defined = λ r. true;
  shape = λ r. 2 ∷ 4 ∷ [];
  is_fixed_shape = true;
  desc_shape = 2 ∷ 4 ∷ [];
  desc_ndim = pos 2;
  data_type = 9;
}

-- Rows of one list of two pairs, and of two lists of one pair each.
abbrev ragged : ArrowArray
ragged =
    list (offset_level (0 ∷ 1 ∷ 3 ∷ []))
      (list (offset_level (0 ∷ 2 ∷ 3 ∷ 4 ∷ [])) (list (fixed_level 2 (leaf 8)) (leaf 8)))

ragged-IsArray : IsArray ragged
ragged-IsArray = (
  (by_row, omega arith, λ e. absurd cc),
  ((by_list, omega arith, λ e. absurd cc), (((λ i l. omega arith), omega arith, λ e i. refl), tt)),
)
  where
    by_row :
        (i : ℕ)
        → i < 2
        → get_or (1 ∷ 3 ∷ []) i 0
          ≡ get_or (0 ∷ 1 ∷ 3 ∷ []) i 0 + (get_or (1 ∷ 3 ∷ []) i 0 - get_or (0 ∷ 1 ∷ 3 ∷ []) i 0)
    by_row zero l = omega arith
    by_row (suc zero) l = omega arith
    by_row (suc (suc i)) l = absurd (omega arith)

    by_list :
        (i : ℕ)
        → i < 3
        → get_or (2 ∷ 3 ∷ 4 ∷ []) i 0
          ≡ get_or (0 ∷ 2 ∷ 3 ∷ 4 ∷ []) i 0
            + (get_or (2 ∷ 3 ∷ 4 ∷ []) i 0 - get_or (0 ∷ 2 ∷ 3 ∷ 4 ∷ []) i 0)
    by_list zero l = omega arith
    by_list (suc zero) l = omega arith
    by_list (suc (suc zero)) l = omega arith
    by_list (suc (suc (suc i))) l = absurd (omega arith)

abbrev ragged_shape : ResultShapeData
ragged_shape = record {
  fixed_shape = none;
  ndim = pos 3;
  dtype = 9;
  row_shapes = some ((2 ∷ 1 ∷ []) ∷ (1 ∷ 2 ∷ []) ∷ []);
  cell_extents = none;
}

ragged_test : get_result_shape_data (λ n. n == 9) cells (some ragged) ≡ ok ragged_shape
unfolding get_result_shape_data get_arrow_result_shape_data nesting_loop update_shape same_lengths
    get_row_shapes row_shape_loop
ragged_test = refl

get_result_shape_data-count_example : values_each true * elements_of ragged_shape ≡ n_held ragged
get_result_shape_data-count_example =
    get_result_shape_data-count (λ n. n == 9) cells ragged ragged_shape ragged-IsArray ragged_test

make_array-get_row_shapes_example :
    (a : ArrowArray) × (make_array product kind_of
        (ok fixed_strategy)
        (many_shapes 9 2 ((2 ∷ 1 ∷ []) ∷ (1 ∷ 3 ∷ []) ∷ []))
        5
      ≡ ok a)
    × (get_row_shapes a ≡ ok ((1 ∷ 2 ∷ 2 ∷ []) ∷ (3 ∷ 1 ∷ 2 ∷ []) ∷ []))
make_array-get_row_shapes_example =
    make_array-get_row_shapes product kind_of fixed_strategy 9 2 ((2 ∷ 1 ∷ []) ∷ (1 ∷ 3 ∷ []) ∷ [])
      (omega arith) (refl, (refl, tt))
      ((omega arith, (omega arith, tt)), ((omega arith, (omega arith, tt)), tt)) (omega arith)
      (λ shape l. refl) (λ e. absurd cc) (λ e. refl)

get_result_shape_data-get_flat_array_example :
    (flat : ArrowArray) × (get_flat_array false ragged ≡ ok flat)
    × (array_length flat ≡ values_each true * elements_of ragged_shape)
get_result_shape_data-get_flat_array_example =
    get_result_shape_data-get_flat_array (λ n. n == 9) cells ragged ragged_shape ragged-IsArray
      (refl, refl, (refl, refl, (refl, refl, tt))) ragged_test
