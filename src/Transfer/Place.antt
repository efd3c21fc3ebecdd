-- ===== src/Transfer/Place.antt =====
-- Each element of a chunk is copied to the place in the buffer that its memory indices name.
use native.Mathlib.Nat.{mod-eq_of_lt}
use arcae.Prelude.{
  ◌==◌, not, err, invalid, if◌then◌else◌, ℕ, zero, suc, ◌+◌, ◌-◌, ◌*◌, ◌%◌, ◌^◌, ◌<◌, ◌≤◌, ◌≡◌,
  refl, sym, ap, ◌∙◌, Bool, Option, none, some, List, [], ◌∷◌, map, length, get_or, product, All,
  arith, Result, ok, pos,
}
use arcae.Shape.{IPosition, ResultShapeData, get_row_shape}
use arcae.Shape.Offsets.Exact.{StridesFit, Inside, spread, offset_of, flat_offset-offset_of}
use arcae.Partition.{SpanPair, SpanPairs, no_span}
use arcae.Partition.Chunks.{
  DataChunk, strides, min_element, make_chunk, buffer_strides_of, min_mem_of, row_offsets_ptr,
}
use arcae.Partition.Chunks.Strides.{strides_from, strides-from}
use arcae.Transfer.{add_strides, buffer_steps, buffer_offset}

-- The memory index at a position, in each dimension.
abbrev pub mem_at : SpanPairs → List ℕ → List ℕ
mem_at [] at = []
mem_at (span ∷ spans) [] = []
mem_at (span ∷ spans) (p ∷ at) = get_or span.mem p 0 ∷ mem_at spans at

-- A position of a chunk whose memory indices lie inside the shape.
abbrev pub HasPosition : SpanPairs → IPosition → List ℕ → Type 0
HasPosition [] [] [] = Unit
HasPosition [] [] (p ∷ at) = ⊥
HasPosition [] (extent ∷ shape) at = ⊥
HasPosition (span ∷ spans) [] at = ⊥
HasPosition (span ∷ spans) (extent ∷ shape) [] = ⊥
HasPosition (span ∷ spans) (extent ∷ shape) (p ∷ at) =
    (p < length span.mem) × All (λ i. i < extent) span.mem × HasPosition spans shape at

min_element-le : (mem : List ℕ) (p : ℕ) → p < length mem → min_element mem ≤ get_or mem p 0
unfolding min_element
min_element-le [] p l = absurd (omega arith)
min_element-le (i ∷ []) zero l = omega arith
min_element-le (i ∷ []) (suc p) l = absurd (omega arith)
min_element-le (i ∷ j ∷ rest) zero l = omega arith
min_element-le (i ∷ j ∷ rest) (suc p) l =
    let later = min_element-le (j ∷ rest) p (omega arith) in omega arith

get_or-All :
    (mem : List ℕ) (extent p : ℕ)
    → All (λ i. i < extent) mem
    → p < length mem
    → get_or mem p 0 < extent
get_or-All [] extent p a l = absurd (omega arith)
get_or-All (i ∷ mem) extent zero a l = a.0
get_or-All (i ∷ mem) extent (suc p) a l = get_or-All mem extent p a.1 (omega arith)

-- What is shown of each position: the least memory indices and those of the position lie inside the
-- shape, and the steps lead from the ones to the others.
record Placed (spans : SpanPairs) (shape : IPosition) (at : List ℕ) : Type 0 where
  same_rank : length shape ≡ length spans
  min_inside : Inside (min_mem_of spans) shape
  mem_inside : Inside (mem_at spans at) shape
  steps :
      offset_of (min_mem_of spans) shape
        + offset_of (buffer_steps spans (min_mem_of spans) at) shape
      ≡ offset_of (mem_at spans at) shape

placed :
    (spans : SpanPairs) (shape : IPosition) (at : List ℕ)
    → HasPosition spans shape at
    → Placed spans shape at
unfolding buffer_steps
placed [] [] [] h = record {
  same_rank = refl;
  min_inside = tt;
  mem_inside = tt;
  steps = omega arith;
}
placed [] [] (p ∷ at) h = absurd h
placed [] (extent ∷ shape) at h = absurd h
placed (span ∷ spans) [] at h = absurd h
placed (span ∷ spans) (extent ∷ shape) [] h = absurd h
placed (span ∷ spans) (extent ∷ shape) (p ∷ at) h =
    let rest = placed spans shape at h.2 in
    let low = min_element-le span.mem p h.0 in
    let high = get_or-All span.mem extent p h.1 h.0 in
    record {
      same_rank = ap suc rest.same_rank;
      min_inside = (omega arith, rest.min_inside);
      mem_inside = (high, rest.mem_inside);
      steps =
          step_sum (min_element span.mem) (get_or span.mem p 0) extent _ _ low
          ∙ ap (λ n. get_or span.mem p 0 + extent * n) rest.steps;
    }
  where
    step_sum : (m i n x y : ℕ) → m ≤ i → (m + n * x) + ((i - m) + n * y) ≡ i + n * (x + y)
    step_sum m i n x y l = grind arith

offset_of-lt :
    (index : List ℕ) (shape : IPosition)
    → Inside index shape
    → offset_of index shape < product shape
offset_of-lt [] [] h = omega arith
offset_of-lt [] (extent ∷ shape) h = absurd h
offset_of-lt (i ∷ index) [] h = absurd h
offset_of-lt (i ∷ index) (extent ∷ shape) h =
    below i extent (offset_of index shape) (product shape) h.0 (offset_of-lt index shape h.1)
  where
    below : (i n x p : ℕ) → i < n → x < p → i + n * x < n * p
    below i n x p l l' =
        let k = p - x - 1 in
        let split : p ≡ x + 1 + k = omega arith in
        let spread : n * (x + 1 + k) ≡ n * x + n + n * k = grind arith in
        let e : n * p ≡ n * x + n + n * k = ap (λ q. n * q) split ∙ spread in omega (arith, e)

-- Adding up steps by strides.
add_strides-offset_of :
    (steps : List ℕ) (shape : IPosition) (stride offset : ℕ)
    → offset + stride * offset_of steps shape < 2 ^ 64
    → add_strides steps (strides_from stride shape) offset ≡ offset + stride * offset_of steps shape
unfolding add_strides
add_strides-offset_of [] shape stride offset l = omega arith
add_strides-offset_of (step ∷ steps) [] stride offset l = omega arith
add_strides-offset_of (step ∷ steps) (extent ∷ shape) stride offset l =
    let e = spread offset stride step extent (offset_of steps shape) in
    let here : (offset + step * stride) % 2 ^ 64 ≡ offset + step * stride =
      mod-eq_of_lt (omega (arith, e)) in
    ap (add_strides steps (strides_from (stride * extent) shape)) here
    ∙ add_strides-offset_of steps shape (stride * extent) (offset + step * stride)
        (omega (arith, e))
    ∙ sym e

module _ (shape_product : IPosition → ℕ) (data_shape : ResultShapeData) (shape : IPosition)
    (fixed : data_shape.fixed_shape ≡ some shape) (rank : data_shape.ndim ≡ pos (length shape))
    (fits : StridesFit 1 shape) (few : product shape ≤ 2 ^ 64) where
  buffer_strides-from :
      (spans : SpanPairs)
      → length shape ≡ length spans
      → buffer_strides_of shape_product data_shape spans ≡ ok (strides_from 1 shape)
  unfolding buffer_strides_of
  buffer_strides-from spans same =
      ap of_shape fixed
      ∙ ap (λ n. ok (strides n shape)) (sym same)
      ∙ ap ok (strides-from shape fits)
    where
      of_shape : Option IPosition → Result (List ℕ)
      of_shape (some shape) = ok (strides (length spans) shape)
      of_shape none =
          let row_span = (get_or spans (length spans - 1) no_span).mem in
          if not (length row_span == 1)
          then err invalid
          else ok (strides (length spans) (get_row_shape data_shape (get_or row_span 0 0)))

  chunk_of : SpanPairs → Bool → DataChunk
  chunk_of spans contiguous = record {
    dim_spans = spans;
    min_mem_index = min_mem_of spans;
    flat_offset = offset_of (min_mem_of spans) shape;
    buffer_strides = strides_from 1 shape;
    chunk_strides = strides (length spans) (map (λ (span : SpanPair). length span.mem) spans);
    contiguous = contiguous;
  }

  make_chunk-of :
      (spans : SpanPairs) (contiguous : Bool) (at : List ℕ)
      → Placed spans shape at
      → make_chunk shape_product data_shape spans contiguous ≡ ok (chunk_of spans contiguous)
  unfolding make_chunk chunk_of
  make_chunk-of spans contiguous at p =
      let buffer = buffer_strides-from spans p.same_rank in
      let low = offset_of-lt (min_mem_of spans) shape p.min_inside in
      let offset =
        flat_offset-offset_of shape_product data_shape shape (min_mem_of spans)
          (row_offsets_ptr shape_product data_shape) fixed rank p.min_inside fits (omega arith) in
      rw (buffer, offset, make_chunk) refl

  -- While the strides are below 2^31 and the elements of the result fit in 64 bits: an element of a
  -- chunk that is made for a result of one shape is copied to the place that its memory indices have
  -- in FORTRAN order. The memory indices of the chunk lie inside the shape, and the rank is that of
  -- the shape.
  pub buffer_offset-offset_of :
      (spans : SpanPairs) (contiguous : Bool) (at : List ℕ) {chunk : DataChunk}
      → HasPosition spans shape at
      → make_chunk shape_product data_shape spans contiguous ≡ ok chunk
      → chunk.flat_offset + buffer_offset chunk at ≡ offset_of (mem_at spans at) shape
  unfolding buffer_offset chunk_of
  buffer_offset-offset_of spans contiguous at {chunk} h m =
      let p = placed spans shape at h in
      let same_ok = sym (make_chunk-of spans contiguous at p) ∙ m in
      let same : chunk_of spans contiguous ≡ chunk = cc in
      let inside = offset_of-lt (mem_at spans at) shape p.mem_inside in
      let steps = p.steps in
      ap (λ (c : DataChunk). c.flat_offset + buffer_offset c at) (sym same)
      ∙ ap (λ n. offset_of (min_mem_of spans) shape + n)
          (add_strides-offset_of (buffer_steps spans (min_mem_of spans) at) shape 1 0 (omega arith))
      ∙ omega arith
