-- ===== src/Shape/Offsets/Rows.antt =====
-- The offsets of the rows give what adding up the rows before gives.
use native.Mathlib.Nat.{mod-lt, mod-eq_of_lt, mod-add-mod, add-mod-mod}
use arcae.Prelude.{
  pos, take_all, ℕ, zero, suc, ◌+◌, ◌-◌, ◌*◌, ◌%◌, ◌^◌, ◌<◌, ◌≤◌, ◌≡◌, refl, sym, ap, ◌∙◌, Option,
  none, some, List, [], ◌∷◌, take, get_or, length, map, sum, ok, arith,
}
use arcae.Shape.{IPosition, ResultShapeData, row_shapes_of, get_row_shape}
use arcae.Shape.Offsets.{
  offset_loop, accumulate, row_offsets_from, row_offsets, varied_offset, flat_offset, n_elements,
}

offset_loop-lt :
    (index : List ℕ) (shape : IPosition) (product offset : ℕ)
    → offset < 2 ^ 64
    → offset_loop index shape product offset < 2 ^ 64
unfolding offset_loop
offset_loop-lt [] shape product offset l = l
offset_loop-lt (i ∷ index) [] product offset l = l
offset_loop-lt (i ∷ index) (extent ∷ shape) product offset l =
    offset_loop-lt index shape _ _ (mod-lt (offset + i * product) (omega arith))

module _ (shape_product : IPosition → ℕ) where
  pub accumulate-sum :
      (elements : ℕ) (shapes : List IPosition)
      → elements < 2 ^ 64
      → accumulate shape_product elements shapes
        ≡ (elements + sum (map shape_product shapes)) % 2 ^ 64
  unfolding accumulate
  accumulate-sum elements [] l =
      sym (mod-eq_of_lt (omega arith)) ∙ ap (λ n. n % 2 ^ 64) (omega arith)
  accumulate-sum elements (shape ∷ shapes) l =
      accumulate-sum ((elements + shape_product shape) % 2 ^ 64) shapes (mod-lt _ (omega arith))
      ∙ mod-add-mod (elements + shape_product shape) (2 ^ 64) _
      ∙ ap (λ n. n % 2 ^ 64) (omega arith)

  get_or-row_offsets_from :
      (offset row : ℕ) (shapes : List IPosition)
      → offset < 2 ^ 64
      → row ≤ length shapes
      → get_or (row_offsets_from shape_product offset shapes) row 0
        ≡ (offset + sum (map shape_product (take row shapes))) % 2 ^ 64
  unfolding row_offsets_from
  get_or-row_offsets_from offset zero [] o l =
      sym (mod-eq_of_lt (omega arith)) ∙ ap (λ n. n % 2 ^ 64) (omega arith)
  get_or-row_offsets_from offset (suc row) [] o l = absurd (omega arith)
  get_or-row_offsets_from offset zero (shape ∷ shapes) o l =
      sym (mod-eq_of_lt (omega arith)) ∙ ap (λ n. n % 2 ^ 64) (omega arith)
  get_or-row_offsets_from offset (suc row) (shape ∷ shapes) o l =
      get_or-row_offsets_from ((offset + shape_product shape) % 2 ^ 64) row shapes
        (mod-lt _ (omega arith)) (omega arith)
      ∙ mod-add-mod (offset + shape_product shape) (2 ^ 64) _
      ∙ ap (λ n. n % 2 ^ 64) (omega arith)

  varied_offset-row_offsets :
      (data_shape : ResultShapeData) (ndim : ℕ) (index : List ℕ)
      → get_or index (ndim - 1) 0 ≤ length (row_shapes_of data_shape)
      → varied_offset shape_product data_shape ndim index
          (some (row_offsets shape_product data_shape))
        ≡ varied_offset shape_product data_shape ndim index none
  unfolding varied_offset
  varied_offset-row_offsets data_shape ndim index l =
      let row = get_or index (ndim - 1) 0 in
      let shapes = row_shapes_of data_shape in
      let offset = offset_loop (take (ndim - 1) index) (get_row_shape data_shape row) 1 0 in
      ap (λ n. (offset + n) % 2 ^ 64)
        (get_or-row_offsets_from 0 row shapes (omega arith) l ∙ ap (λ n. n % 2 ^ 64) (omega arith))
      ∙ add-mod-mod offset (sum (map shape_product (take row shapes))) (2 ^ 64)
      ∙ sym (
          accumulate-sum offset (take row shapes) (
            offset_loop-lt (take (ndim - 1) index) (get_row_shape data_shape row) 1 0
              (omega arith)))

  -- Reading the offset of a row from `row_offsets` gives the flat offset that adding up the rows
  -- before gives, with the same wrap-around, and the last of the offsets is the number of elements.
  -- The rows vary in shape, and the index is of one of them.
  pub flat_offset-row_offsets :
      (data_shape : ResultShapeData) (ndim : ℕ) (index : List ℕ)
      → data_shape.fixed_shape ≡ none
      → data_shape.ndim ≡ pos ndim
      → get_or index (ndim - 1) 0 < length (row_shapes_of data_shape)
      → (flat_offset shape_product data_shape index (some (row_offsets shape_product data_shape))
          ≡ flat_offset shape_product data_shape index none)
        × (get_or (row_offsets shape_product data_shape) (length (row_shapes_of data_shape)) 0
            ≡ n_elements shape_product data_shape)
  unfolding flat_offset n_elements varied_offset
  flat_offset-row_offsets data_shape ndim index v n l =
      let shapes = row_shapes_of data_shape in
      (
        offset v n (some (row_offsets shape_product data_shape))
            ∙ ap ok (varied_offset-row_offsets data_shape ndim index (omega arith))
            ∙ sym (offset v n none),
        get_or-row_offsets_from 0 (length shapes) shapes (omega arith) (omega arith)
            ∙ ap (λ s. (0 + sum (map shape_product s)) % 2 ^ 64)
                (take_all (length shapes) shapes (omega arith))
            ∙ sym (accumulate-sum 0 shapes (omega arith))
            ∙ ap elements (sym v),
      )
    where
      elements : Option IPosition → ℕ
      elements (some shape) = shape_product shape
      elements none = accumulate shape_product 0 (row_shapes_of data_shape)

      offset :
          data_shape.fixed_shape ≡ none
          → data_shape.ndim ≡ pos ndim
          → (offsets : Option (List ℕ))
          → flat_offset shape_product data_shape index offsets
            ≡ ok (varied_offset shape_product data_shape ndim index offsets)
      offset v n offsets = rw (n, v, flat_offset) refl
