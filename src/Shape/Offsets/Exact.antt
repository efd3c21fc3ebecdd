-- ===== src/Shape/Offsets/Exact.antt =====
-- The flat offset is exact while the strides fit in an `int`.
use native.Mathlib.Nat.{mod-eq_of_lt}
use arcae.Prelude.{
  ℕ, suc, ◌+◌, ◌*◌, ◌%◌, ◌^◌, ◌<◌, ◌≡◌, refl, sym, ap, ◌∙◌, Option, some, List, [], ◌∷◌, take,
  take_all, length, arith, ok, pos,
}
use arcae.Shape.{IPosition, ResultShapeData}
use arcae.Shape.Offsets.{to_int, offset_loop, flat_offset}

-- The offset in FORTRAN order, without a bound.
abbrev pub offset_of : List ℕ → IPosition → ℕ
offset_of [] shape = 0
offset_of (i ∷ index) [] = 0
offset_of (i ∷ index) (extent ∷ shape) = i + extent * offset_of index shape

-- The stride of each dimension is below 2^31, from the stride `stride` on.
abbrev pub StridesFit : ℕ → IPosition → Type 0
StridesFit stride [] = Unit
StridesFit stride (extent ∷ shape) = (stride < 2 ^ 31) × StridesFit (stride * extent) shape

abbrev pub Inside : List ℕ → IPosition → Type 0
Inside [] [] = Unit
Inside [] (extent ∷ shape) = ⊥
Inside (i ∷ index) [] = ⊥
Inside (i ∷ index) (extent ∷ shape) = (i < extent) × Inside index shape

to_int_small : (x : ℕ) → x < 2 ^ 31 → to_int (x % 2 ^ 64) ≡ x
unfolding to_int
to_int_small x l =
    let wide : x % 2 ^ 64 ≡ x = mod-eq_of_lt (omega arith) in
    let low : x % 2 ^ 32 ≡ x = mod-eq_of_lt (omega arith) in rw (wide, low) (ground arith)

-- One more dimension.
pub spread :
    (offset stride i extent n : ℕ)
    → offset + stride * (i + extent * n) ≡ (offset + i * stride) + stride * extent * n
spread offset stride i extent n = grind arith

offset_loop-offset_of :
    (index : List ℕ) (shape : IPosition) (stride offset : ℕ)
    → Inside index shape
    → StridesFit stride shape
    → offset + stride * offset_of index shape < 2 ^ 64
    → offset_loop index shape stride offset ≡ offset + stride * offset_of index shape
unfolding offset_loop
offset_loop-offset_of [] [] stride offset i s l = omega arith
offset_loop-offset_of [] (extent ∷ shape) stride offset i s l = absurd i
offset_loop-offset_of (i ∷ index) [] stride offset h s l = absurd h
offset_loop-offset_of (i ∷ []) (extent ∷ []) stride offset h s l =
    let e : offset + i * stride ≡ offset + stride * (i + extent * 0) = grind arith in
    ap (λ n. n % 2 ^ 64) e ∙ mod-eq_of_lt l
offset_loop-offset_of (i ∷ []) (extent ∷ next ∷ shape) stride offset h s l = absurd h.1
offset_loop-offset_of (i ∷ j ∷ index) (extent ∷ []) stride offset h s l = absurd h.1
offset_loop-offset_of (i ∷ j ∷ index) (extent ∷ next ∷ shape) stride offset h s l =
    let n = offset_of (j ∷ index) (next ∷ shape) in
    let e = spread offset stride i extent n in
    let here : (offset + i * stride) % 2 ^ 64 ≡ offset + i * stride =
      mod-eq_of_lt (omega (arith, e)) in
    ap (λ p. offset_loop (j ∷ index) (next ∷ shape) p ((offset + i * stride) % 2 ^ 64))
      (to_int_small (stride * extent) s.1.0)
    ∙ ap (offset_loop (j ∷ index) (next ∷ shape) (stride * extent)) here
    ∙ offset_loop-offset_of (j ∷ index) (next ∷ shape) (stride * extent) (offset + i * stride) h.1
        s.1 (omega (arith, e))
    ∙ sym e

length-Inside :
    (index : List ℕ) (shape : IPosition) → Inside index shape → length index ≡ length shape
length-Inside [] [] h = refl
length-Inside [] (extent ∷ shape) h = absurd h
length-Inside (i ∷ index) [] h = absurd h
length-Inside (i ∷ index) (extent ∷ shape) h = ap suc (length-Inside index shape h.1)

-- While the stride of each dimension is below 2^31, and the offset fits in 64 bits, the flat offset
-- of an index inside a result of one shape is its offset in FORTRAN order. The rank is that of the
-- shape.
pub flat_offset-offset_of :
    (shape_product : IPosition → ℕ) (data_shape : ResultShapeData) (shape : IPosition)
    (index : List ℕ) (row_offsets : Option (List ℕ))
    → data_shape.fixed_shape ≡ some shape
    → data_shape.ndim ≡ pos (length shape)
    → Inside index shape
    → StridesFit 1 shape
    → offset_of index shape < 2 ^ 64
    → flat_offset shape_product data_shape index row_offsets ≡ ok (offset_of index shape)
unfolding flat_offset
flat_offset-offset_of shape_product data_shape shape index row_offsets f n h s l =
    let all : take (length shape) index ≡ index =
      take_all (length shape) index (omega (arith, length-Inside index shape h)) in
    rw (n, f, flat_offset, all)
      (ap ok (offset_loop-offset_of index shape 1 0 h s (omega arith) ∙ omega arith))
