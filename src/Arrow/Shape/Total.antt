-- ===== src/Arrow/Shape/Total.antt =====
-- The shape of the data has as many elements as the array has values.
use arcae.Prelude.{
  &&-eq-true, zero, ◌≤◌, ◌<◌, ℕ, suc, ◌+◌, ◌-◌, ◌*◌, ◌≡◌, refl, sym, ap, ◌∙◌, Bool, true, false,
  ◌&&◌, not, Option, none, some, List, [], ◌∷◌, ◌++◌, append_assoc, append-nil, map, map-iota,
  reverse, length, length-reverse, get_or, get_or-reverse, iota, sum, product, ltb, ◌==◌,
  if◌then◌else◌, arith, Bool-cases, inl, inr, ==_iff, Result, ok, err, invalid, not_implemented,
  >>=-eq-ok, fail_if, traverse,
}
use mathlib.Core.List.{reverse-cons}
use arcae.Shape.{IPosition, Column, ResultShapeData, row_shapes_of, consistent_ndim}
use arcae.Arrow.{ListLevel, ArrowArray, leaf, other, list, array_length}
use arcae.Arrow.Shape.{
  Nesting, first_nesting, same_lengths, update_shape, nesting_loop, get_row_shapes, to_fortran,
  nested_result, get_arrow_result_shape_data, drop_pair, complex_result, get_result_shape_data,
}
use arcae.Arrow.Shape.Count.{
  IsLevel, IsArray, leaf_offset, n_held, value_offset-le, get_row_shapes-count,
}

-- The elements of a shape, or of the shapes of all rows.
abbrev pub elements_of : ResultShapeData → ℕ
elements_of shape_data = elim shape_data.fixed_shape [
  | some shape ↦ product shape
  | none ↦ sum (map product (row_shapes_of shape_data))
]

-- How many values of the array make an element.
abbrev pub values_each : Bool → ℕ
values_each true = 2
values_each false = 1

product-append : (xs ys : List ℕ) → product (xs ++ ys) ≡ product xs * product ys
product-append [] ys = omega arith
product-append (x ∷ xs) ys = ap (λ n. x * n) (product-append xs ys) ∙ grind arith

product-reverse : (xs : List ℕ) → product (reverse xs) ≡ product xs
product-reverse [] = refl
product-reverse (x ∷ xs) =
    ap product (reverse-cons x xs)
    ∙ product-append (reverse xs) (x ∷ [])
    ∙ ap (λ n. n * (x * 1)) (product-reverse xs)
    ∙ grind arith

sum-product-reverse :
    (shapes : List (List ℕ)) → sum (map product (map reverse shapes)) ≡ sum (map product shapes)
sum-product-reverse [] = refl
sum-product-reverse (shape ∷ shapes) =
    omega (arith, product-reverse shape, sum-product-reverse shapes)

-- Dimensions that are all known are put in the opposite order.
pub to_fortran-reverse : (shape : List ℕ) → to_fortran (length shape) shape ≡ reverse shape
to_fortran-reverse shape =
    ap (λ n. map (λ d. get_or shape (length shape - d - 1) 0) (iota 0 n))
      (sym (length-reverse shape))
    ∙ map-iota (λ d. get_or shape (length shape - d - 1) 0) 0 (reverse shape) 0
        (λ k l.
          let at : 0 + k ≡ k = omega arith in
          ap (λ k. get_or shape (length shape - k - 1) 0) at
          ∙ sym (get_or-reverse shape k 0 (omega (arith, length-reverse shape))))

-- A level all of whose lists have the length of the first.
IsUniform : ListLevel → Type 0
IsUniform level =
    (not level.is_fixed_size && not (same_lengths level (level.value_length 0) level.length 0))
    ≡ false

same_lengths-at :
    (level : ListLevel) (size rounds i k : ℕ)
    → same_lengths level size rounds i ≡ true
    → k < rounds
    → level.value_length (i + k) ≡ size
unfolding same_lengths
same_lengths-at level size zero i k same l = absurd (omega arith)
same_lengths-at level size (suc rounds) i zero same l =
    let parts = &&-eq-true (size == level.value_length i) _ same in
    let at : i + 0 ≡ i = omega arith in
    ap level.value_length at ∙ sym ((==_iff size (level.value_length i)).0 parts.0)
same_lengths-at level size (suc rounds) i (suc k) same l =
    let parts = &&-eq-true (size == level.value_length i) _ same in
    let at : i + suc k ≡ suc i + k = omega arith in
    ap level.value_length at ∙ same_lengths-at level size rounds (suc i) k parts.1 (omega arith)

uniform_length :
    (level : ListLevel) (values : ArrowArray) (k : ℕ)
    → IsLevel level values
    → IsUniform level
    → k < level.length
    → level.value_length k ≡ level.value_length 0
unfolding IsUniform
uniform_length level values k h uniform l = elim (Bool-cases level.is_fixed_size) [
  | inl fixed ↦ h.2 fixed k
  | inr varies ↦
      let at : 0 + k ≡ k = omega arith in
      ap level.value_length (sym at)
      ∙ same_lengths-at level (level.value_length 0) level.length 0 k (grind arith) l
]

-- `n` lists from list `i` on hold `n` times as many values as one.
uniform_values :
    (level : ListLevel) (values : ArrowArray) (i n : ℕ)
    → IsLevel level values
    → IsUniform level
    → i + n ≤ level.length
    → level.value_offset (i + n) ≡ level.value_offset i + n * level.value_length 0
uniform_values level values i zero h uniform l =
    let at : i + 0 ≡ i = omega arith in ap level.value_offset at ∙ omega arith
uniform_values level values i (suc n) h uniform l =
    let at : i + suc n ≡ suc (i + n) = omega arith in
    let times : suc n * level.value_length 0 ≡ level.value_length 0 + n * level.value_length 0 =
      grind arith in
    ap level.value_offset at
    ∙ omega (
      arith,
      h.0 (i + n) (omega arith),
      uniform_values level values i n h uniform (omega arith),
      uniform_length level values (i + n) h uniform (omega arith),
      times,
    )

update_shape-cases :
    (level : ListLevel) (st : Nesting)
    → (update_shape level st).fixed_shape ≡ true
    → (st.fixed_shape ≡ true)
      × IsUniform level
      × ((update_shape level st).shape ≡ st.shape ++ level.value_length 0 ∷ [])
      × ((update_shape level st).ndim ≡ st.ndim + 1)
unfolding update_shape IsUniform
update_shape-cases level st h = ground arith

-- What the loop finds, if no level varies.
nesting_loop-count :
    (data_array : ArrowArray) (st after : Nesting)
    → IsArray data_array
    → nesting_loop data_array st ≡ ok after
    → after.fixed_shape ≡ true
    → (st.fixed_shape ≡ true)
      × (dims : List ℕ) × (after.shape ≡ st.shape ++ dims)
      × (after.ndim ≡ st.ndim + length dims)
      × ((i n : ℕ)
          → i + n ≤ array_length data_array
          → leaf_offset data_array (i + n) ≡ leaf_offset data_array i + n * product dims)
unfolding nesting_loop
nesting_loop-count (leaf n) st after h e f =
    let same : st ≡ after = cc in
    (
      ap (λ (st : Nesting). st.fixed_shape) same ∙ f,
      [],
      ap (λ (st : Nesting). st.shape) (sym same) ∙ sym (append-nil st.shape),
      ap (λ (st : Nesting). st.ndim) (sym same) ∙ omega arith,
      λ i n l. omega arith,
    )
nesting_loop-count (other n) st after h e f = absurd cc
nesting_loop-count (list level values) st after h e f =
    let (u, nulls, e') = >>=-eq-ok (fail_if (ltb 0 level.null_count) not_implemented) _ e in
    let (fixed, dims, shape, ndim, count) =
      nesting_loop-count values (update_shape level st) after h.1 e' f in
    let (was_fixed, uniform, next_shape, next_ndim) = update_shape-cases level st fixed in
    (
      was_fixed,
      level.value_length 0 ∷ dims,
      shape
          ∙ ap (λ l. l ++ dims) next_shape
          ∙ append_assoc st.shape (level.value_length 0 ∷ []) dims,
      omega (arith, ndim, next_ndim),
      λ i n l.
          let held = uniform_values level values i n h.0 uniform l in
          ap (leaf_offset values) held
          ∙ count (level.value_offset i) (n * level.value_length 0)
              (omega (arith, held, value_offset-le level values (i + n) h.0 l))
          ∙ ap (λ m. leaf_offset values (level.value_offset i) + m) (times n dims),
    )
  where
    times :
        (n : ℕ) (dims : List ℕ)
        → n * level.value_length 0 * product dims ≡ n * (level.value_length 0 * product dims)
    times n dims = grind arith

elements_ok :
    {found result : ResultShapeData}
    → ◌≡◌ {A = Result ResultShapeData} (ok found) (ok result)
    → elements_of found ≡ elements_of result
elements_ok = ap λ (r : Result ResultShapeData). elim r [
  | ok shape_data ↦ elements_of shape_data
  | err status ↦ 0
]

nested_result-count :
    (column : Column) (data_array : ArrowArray) (fixed : Bool) (st : Nesting)
    (shape_data : ResultShapeData)
    → IsArray data_array
    → nesting_loop data_array (first_nesting (array_length data_array)) ≡ ok st
    → st.fixed_shape ≡ fixed
    → nested_result column data_array fixed st ≡ ok shape_data
    → elements_of shape_data ≡ n_held data_array
nested_result-count column data_array true st shape_data h loop fixed e =
    let (was, dims, shape, ndim, count) = nesting_loop-count data_array _ st h loop fixed in
    let same : to_fortran st.ndim st.shape ≡ reverse (array_length data_array ∷ dims) =
      let all : st.ndim ≡ suc (length dims) = omega (arith, ndim) in
      ap (to_fortran st.ndim) shape
      ∙ ap (λ n. to_fortran n (array_length data_array ∷ dims)) all
      ∙ to_fortran-reverse (array_length data_array ∷ dims) in
    let found : some (to_fortran st.ndim st.shape) ≡ shape_data.fixed_shape =
      ap
        (λ (r : Result ResultShapeData). elim r [
          | ok shape_data ↦ shape_data.fixed_shape
          | err status ↦ none
        ])
        e in
    ap elements_found (sym found)
    ∙ ap product same
    ∙ product-reverse (array_length data_array ∷ dims)
    ∙ whole (count 0 (array_length data_array) (omega arith))
  where
    whole :
        {m : ℕ}
        → leaf_offset data_array (0 + array_length data_array) ≡ leaf_offset data_array 0 + m
        → m ≡ n_held data_array
    whole e =
        let at : 0 + array_length data_array ≡ array_length data_array = omega arith in
        omega (arith, e, ap (leaf_offset data_array) at)

    elements_found : Option IPosition → ℕ
    elements_found found = elim found [
      | some shape ↦ product shape
      | none ↦ sum (map product (row_shapes_of shape_data))
    ]
nested_result-count column data_array false st shape_data h loop varies e =
    let (shapes, rows, e') = >>=-eq-ok (get_row_shapes data_array) _ e in
    sym (elements_ok e') ∙ sum-product-reverse shapes ∙ get_row_shapes-count data_array h rows

-- Of pairs, the first dimension is dropped.
drop_pair-product :
    (shape : IPosition) {rest : IPosition}
    → drop_pair shape ≡ ok rest
    → product shape ≡ 2 * product rest
drop_pair-product [] h = cc
drop_pair-product (n ∷ shape) {rest} h = elim (Bool-cases (n == 2)) [
  | inl two ↦
      let e : n ≡ 2 = (==_iff n 2).0 two in
      let found : ◌≡◌ {A = Result IPosition} (ok shape) (ok rest) =
        ap (λ (b : Bool). if b then ok shape else err invalid) (sym two) ∙ h in
      let same : shape ≡ rest = cc in rw (e, same) refl
  | inr away ↦
      let failed : ◌≡◌ {A = Result IPosition} (err invalid) (ok rest) =
        ap (λ (b : Bool). if b then ok shape else err invalid) (sym away) ∙ h in
      absurd cc
]

drop_pairs-product :
    (shapes : List IPosition) {rests : List IPosition}
    → traverse drop_pair shapes ≡ ok rests
    → sum (map product shapes) ≡ 2 * sum (map product rests)
drop_pairs-product [] {rests} h = let same : [] ≡ rests = cc in rw⁻¹ same refl
drop_pairs-product (shape ∷ shapes) {rests} h =
    let (first, e, h') = >>=-eq-ok (drop_pair shape) _ h in
    let (later, e', h'') = >>=-eq-ok (traverse drop_pair shapes) _ h' in
    let same : first ∷ later ≡ rests = cc in
    rw⁻¹ same (omega (arith, drop_pair-product shape e, drop_pairs-product shapes e'))

dtype_ok :
    {found result : ResultShapeData}
    → ◌≡◌ {A = Result ResultShapeData} (ok found) (ok result)
    → found.dtype ≡ result.dtype
dtype_ok =
    ap λ (r : Result ResultShapeData). elim r [ ok shape_data ↦ shape_data.dtype | err status ↦ 0 ]

complex_result-count :
    (shape_data : ResultShapeData) {result : ResultShapeData}
    → complex_result shape_data shape_data.fixed_shape ≡ ok result
    → elements_of shape_data ≡ 2 * elements_of result
complex_result-count shape_data {result} = by_shape shape_data.fixed_shape
  where
    by_shape :
        (found : Option IPosition)
        → complex_result shape_data found ≡ ok result
        → (elim found [
          | some shape ↦ product shape
          | none ↦ sum (map product (row_shapes_of shape_data))
        ])
          ≡ 2 * elements_of result
    by_shape (some shape) h =
        let (rest, dropped, h') = >>=-eq-ok (drop_pair shape) _ h in
        drop_pair-product shape dropped ∙ ap (λ n. 2 * n) (elements_ok h')
    by_shape none h =
        let (shapes, dropped, h') = >>=-eq-ok (traverse drop_pair (row_shapes_of shape_data)) _ h in
        let (ndim, consistent, h'') = >>=-eq-ok (consistent_ndim shape_data) _ h' in
        drop_pairs-product (row_shapes_of shape_data) dropped ∙ ap (λ n. 2 * n) (elements_ok h'')

dtype-nested_result :
    (column : Column) (data_array : ArrowArray) (fixed : Bool) (st : Nesting)
    (shape_data : ResultShapeData)
    → nested_result column data_array fixed st ≡ ok shape_data
    → shape_data.dtype ≡ column.data_type
dtype-nested_result column data_array true st shape_data e = dtype_ok (sym e)
dtype-nested_result column data_array false st shape_data e =
    let (shapes, rows, e') = >>=-eq-ok (get_row_shapes data_array) _ e in dtype_ok (sym e')

-- The shape that is found for an array has as many elements as its lists hold values, and half as many
-- where two values make a complex number. In each array of lists, which may be a slice, a list ends
-- where the next begins, the last does not end behind the values, and lists of fixed size have one
-- length.
pub get_result_shape_data-count :
    (is_complex : ℕ → Bool) (column : Column) (data_array : ArrowArray)
    (shape_data : ResultShapeData)
    → IsArray data_array
    → get_result_shape_data is_complex column (some data_array) ≡ ok shape_data
    → values_each (is_complex column.data_type) * elements_of shape_data ≡ n_held data_array
unfolding get_result_shape_data get_arrow_result_shape_data
get_result_shape_data-count is_complex column data_array shape_data h e =
    let (found, got, e') = >>=-eq-ok (get_arrow_result_shape_data column (some data_array)) _ e in
    let (st, loop, result) =
      >>=-eq-ok (nesting_loop data_array (first_nesting (array_length data_array))) _ got in
    ap (λ n. values_each (is_complex n) * elements_of shape_data)
      (sym (dtype-nested_result column data_array st.fixed_shape st found result))
    ∙ by_type (is_complex found.dtype) found e'
    ∙ nested_result-count column data_array st.fixed_shape st found h loop refl result
  where
    by_type :
        (complex : Bool) (found : ResultShapeData)
        → (if complex then complex_result found found.fixed_shape else ok found) ≡ ok shape_data
        → values_each complex * elements_of shape_data ≡ elements_of found
    by_type true found e = sym (complex_result-count found e)
    by_type false found e = ap (λ n. 1 * n) (sym (elements_ok e)) ∙ omega arith
