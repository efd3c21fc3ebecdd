-- ===== src/Partition/Chunks/Strides.antt =====
-- The strides are the products of the extents before.
use native.Mathlib.Nat.{mod-eq_of_lt}
use arcae.Prelude.{
  ◌++◌, get_or-append_right, append_assoc, length-snoc, ℕ, suc, ◌+◌, ◌-◌, ◌*◌, ◌%◌, ◌^◌, ◌≡◌, refl,
  sym, ap, ◌∙◌, List, [], ◌∷◌, length, get_or, arith,
}
use arcae.Partition.Chunks.{strides, strides_loop}
use arcae.Shape.Offsets.Exact.{StridesFit}

-- The stride of each dimension, from the stride `stride` on.
abbrev pub strides_from : ℕ → List ℕ → List ℕ
strides_from stride [] = []
strides_from stride (extent ∷ shape) = stride ∷ strides_from (stride * extent) shape

get_or_middle :
    (done : List ℕ) (extent : ℕ) (rest : List ℕ)
    → get_or (done ++ extent ∷ rest) (suc (length done) - 1) 0 ≡ extent
get_or_middle done extent rest =
    let i : suc (length done) - 1 ≡ length done + 0 = omega arith in
    rw i (get_or-append_right done (extent ∷ rest) 0 0)

-- The loop over the dimensions from `d` on, where the product of the extents before `d - 1` is `stride`.
strides_loop-from :
    (done : List ℕ) (shape : List ℕ) (extent stride : ℕ)
    → StridesFit (stride * extent) shape
    → strides_loop (length shape) (suc (length done)) stride (done ++ extent ∷ shape)
      ≡ strides_from (stride * extent) shape
unfolding strides_loop
strides_loop-from done [] extent stride s = refl
strides_loop-from done (next ∷ shape) extent stride s =
    let here : get_or (done ++ extent ∷ next ∷ shape) (suc (length done) - 1) 0 ≡ extent =
      get_or_middle done extent (next ∷ shape) in
    let wrap : stride * extent % 2 ^ 64 ≡ stride * extent = mod-eq_of_lt (omega (arith, s.0)) in
    let later = strides_loop-from (done ++ extent ∷ []) shape next (stride * extent) s.1 in
    let d : suc (length done) ≡ length (done ++ extent ∷ []) =
      omega (arith, length-snoc done extent) in
    rw (here, wrap)
      (ap (◌∷◌ (stride * extent)) (
        ap (strides_loop (length shape) (suc (suc (length done))) (stride * extent))
          (sym (append_assoc done (extent ∷ []) (next ∷ shape)))
        ∙ ap
            (λ d.
              strides_loop (length shape) (suc d) (stride * extent)
                ((done ++ extent ∷ []) ++ next ∷ shape))
            d
        ∙ later))

-- The strides of a shape, where the stride of each dimension is below 2^31.
pub strides-from :
    (shape : List ℕ) → StridesFit 1 shape → strides (length shape) shape ≡ strides_from 1 shape
unfolding strides
strides-from [] s = refl
strides-from (extent ∷ shape) s = ap (◌∷◌ 1) (strides_loop-from [] shape extent 1 s.1)
