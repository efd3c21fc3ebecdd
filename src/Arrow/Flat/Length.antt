-- ===== src/Arrow/Flat/Length.antt =====
-- The values that are written are as many as the shape of the data says.
use arcae.Prelude.{
  arith, ℕ, ◌*◌, ◌≡◌, refl, sym, ◌∙◌, Bool, false, some, ltb, ok, >>=-eq-ok, fail_if->>-eq-ok,
  not_implemented,
}
use arcae.Shape.{Column, ResultShapeData}
use arcae.Arrow.{ArrowArray, leaf, other, list, array_length}
use arcae.Arrow.Shape.{
  Nesting, first_nesting, update_shape, nesting_loop, get_arrow_result_shape_data,
  get_result_shape_data,
}
use arcae.Arrow.Shape.Count.{IsArray, IsWhole, leaf_offset-ends, n_values, n_held}
use arcae.Arrow.Shape.Total.{elements_of, values_each, get_result_shape_data-count}
use arcae.Arrow.Flat.{get_flat_array}

-- Where the loop over the nesting succeeds, so does flattening.
nesting_loop-flat :
    (data_array : ArrowArray) (st : Nesting) {after : Nesting}
    → nesting_loop data_array st ≡ ok after
    → (flat : ArrowArray) × (get_flat_array false data_array ≡ ok flat)
      × (array_length flat ≡ n_values data_array)
unfolding nesting_loop get_flat_array
nesting_loop-flat (leaf n) st e = (leaf n, refl, refl)
nesting_loop-flat (other n) st e = absurd cc
nesting_loop-flat (list level values) st e =
    let (no_nulls, e') = fail_if->>-eq-ok (ltb 0 level.null_count) not_implemented _ e in
    let (flat, flattened, same) = nesting_loop-flat values (update_shape level st) e' in
    (flat, rw no_nulls flattened, same)

-- If the shape of the data is found, and no array of lists in it is a slice, the data is flattened, and
-- what is left has a value for each element of the shape, or two for each complex number. In each array
-- of lists a list ends where the next begins, the first begins at the first value, the last ends at the
-- last, and lists of fixed size have one length.
pub get_result_shape_data-get_flat_array :
    (is_complex : ℕ → Bool) (column : Column) (data_array : ArrowArray)
    (shape_data : ResultShapeData)
    → IsArray data_array
    → IsWhole data_array
    → get_result_shape_data is_complex column (some data_array) ≡ ok shape_data
    → (flat : ArrowArray) × (get_flat_array false data_array ≡ ok flat)
      × (array_length flat ≡ values_each (is_complex column.data_type) * elements_of shape_data)
unfolding get_result_shape_data get_arrow_result_shape_data
get_result_shape_data-get_flat_array is_complex column data_array shape_data h whole e =
    let (found, got, _) = >>=-eq-ok (get_arrow_result_shape_data column (some data_array)) _ e in
    let (st, loop, _) =
      >>=-eq-ok (nesting_loop data_array (first_nesting (array_length data_array))) _ got in
    let (flat, flattened, same) =
      nesting_loop-flat data_array (first_nesting (array_length data_array)) loop in
    let ends = leaf_offset-ends data_array whole in
    let held : n_held data_array ≡ n_values data_array = omega (arith, ends.0, ends.1) in
    (
      flat,
      flattened,
      same
          ∙ sym held
          ∙ sym (get_result_shape_data-count is_complex column data_array shape_data h e),
    )
