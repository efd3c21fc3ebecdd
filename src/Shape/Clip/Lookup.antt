-- ===== src/Shape/Clip/Lookup.antt =====
-- The cached clip of a cell's shape is the clip that looks each dimension up in the selection.
use arcae.Prelude.{
  get_or-map-iota, ℕ, suc, ◌+◌, ◌-◌, ◌^◌, ◌≤◌, ◌<◌, ◌≡◌, refl, sym, ap, ◌∙◌, Bool, true, false,
  ◌&&◌, not, none, some, [], ◌∷◌, length, get_or, leb, ◌==◌, if◌then◌else◌, Bool-cases, leb→le,
  Option-cases, inl, inr, ℤ, pos, ltb_ℤ, Result, >>=-eq-ok, ok, err, index_error, ◌>>=◌, arith,
}
use arcae.Selection.{Index, Selection, size, maybe_f_span}
use arcae.Shape.{IPosition}
use arcae.Shape.Clip.{
  max_element, Clipper, all_below, selected_dim, cache, clip_dims, clip, clipped_from, clipped,
  IsCache,
}

below_max :
    (i m : ℤ) (extent : ℕ)
    → (ltb_ℤ i (pos extent) && ltb_ℤ m (pos extent))
      ≡ ltb_ℤ (if ltb_ℤ i m then m else i) (pos extent)
below_max i m extent = ground arith

-- All indices are below the extent when the largest is.
pub all_below-max_element :
    (i : ℤ) (rest : Index) (extent : ℕ)
    → all_below (i ∷ rest) extent ≡ ltb_ℤ (max_element (i ∷ rest)) (pos extent)
unfolding max_element
all_below-max_element i [] extent = ground arith
all_below-max_element i (j ∷ rest) extent =
    let later = all_below-max_element j rest extent in
    rw later (below_max i (max_element (j ∷ rest)) extent)

if-not {ℓ} : {A : Type ℓ} (b : Bool) (x y : A) → (if not b then y else x) ≡ (if b then x else y)
if-not true x y = refl
if-not false x y = refl

-- A span that is found is not empty.
pub maybe_f_span-nonempty : (s : Selection) (dim ndim : ℕ) → maybe_f_span s dim ndim ≡ some [] → ⊥
unfolding maybe_f_span
maybe_f_span-nonempty s dim ndim e = ground arith

longer :
    {r : ℕ} {shape : IPosition} (n : ℕ) (t : IPosition)
    → length t ≡ r
    → ◌≡◌ {A = Result IPosition} (ok (n ∷ t)) (ok shape)
    → length shape ≡ suc r
longer {r} {shape} n t l e = let same : n ∷ t ≡ shape = cc in ap length (sym same) ∙ ap suc l

module _ (selection : Selection) where
  cached_dim :
      (ndim dim : ℕ)
      → dim < ndim
      → get_or (cache selection ndim).dims dim none ≡ selected_dim selection ndim dim
  unfolding cache
  cached_dim ndim dim l =
      get_or-map-iota (selected_dim selection ndim) 0 ndim dim none l
      ∙ ap (selected_dim selection ndim) (omega arith)

  selected_dim-none :
      (ndim dim : ℕ)
      → maybe_f_span selection dim (ndim + 1) ≡ none
      → selected_dim selection ndim dim ≡ none
  unfolding selected_dim
  selected_dim-none ndim dim e = rw (e, selected_dim) refl

  selected_dim-some :
      (ndim dim : ℕ) (span : Index)
      → maybe_f_span selection dim (ndim + 1) ≡ some span
      → selected_dim selection ndim dim
        ≡ some (record { size = length span; max = max_element span })
  unfolding selected_dim
  selected_dim-some ndim dim span e = rw (e, selected_dim) refl

  clip_dims-cache :
      (ndim dim : ℕ) (cell_shape : IPosition)
      → dim + length cell_shape ≤ ndim
      → clip_dims selection (cache selection ndim).dims dim cell_shape
        ≡ clipped_from selection ndim dim cell_shape
  unfolding clip_dims clipped_from
  clip_dims-cache ndim dim [] l = refl
  clip_dims-cache ndim dim (extent ∷ cell_shape) l =
      let rest = clip_dims-cache ndim (suc dim) cell_shape (omega arith) in
      let here = cached_dim ndim dim (omega arith) in
      elim (Option-cases (maybe_f_span selection dim (ndim + 1))) [
        | inl e ↦ rw (here, selected_dim-none ndim dim e, e, rest, clip_dims, clipped_from) refl
        | inr ([], e) ↦ absurd (maybe_f_span-nonempty selection dim (ndim + 1) e)
        | inr (i ∷ span, e) ↦
            rw
              (
                here,
                selected_dim-some ndim dim (i ∷ span) e,
                e,
                rest,
                sym (all_below-max_element i span extent),
                clip_dims,
                clipped_from,
              )
              (if-not (all_below (i ∷ span) extent) _ _)
      ]

  row_only :
      (dim ndim : ℕ)
      → size selection ≤ 1
      → dim < ndim
      → maybe_f_span selection dim (ndim + 1) ≡ none
  unfolding maybe_f_span
  row_only dim ndim small l = ground arith

  -- A selection of rows alone clips nothing.
  clipped-rows :
      (ndim dim : ℕ) (cell_shape : IPosition)
      → size selection ≤ 1
      → dim + length cell_shape ≤ ndim
      → clipped_from selection ndim dim cell_shape ≡ ok cell_shape
  unfolding clipped_from
  clipped-rows ndim dim [] small l = refl
  clipped-rows ndim dim (extent ∷ cell_shape) small l =
      rw
        (
          row_only dim ndim small (omega arith),
          clipped-rows ndim (suc dim) cell_shape small (omega arith),
          clipped_from,
        )
        refl

  -- The clipper after a call that does not fail.
  abbrev pub after_clip : Clipper → ℕ → Clipper
  after_clip clipper rank =
      if leb (size selection) 1
      then clipper
      else if rank == clipper.ndim
      then clipper
      else cache selection rank

  pub after_clip-IsCache :
      (clipper : Clipper) (rank : ℕ)
      → IsCache selection clipper
      → IsCache selection (after_clip clipper rank)
  unfolding cache
  after_clip-IsCache clipper rank c =
      elim (leb (size selection) 1)
        as (λ small. IsCache selection (
          if small
          then clipper
          else if rank == clipper.ndim
          then clipper
          else cache selection rank)) [
            | true ↦ c
            | false ↦
                elim (rank == clipper.ndim)
                  as (λ same. IsCache selection (if same then clipper else cache selection rank)) [
                    | true ↦ c
                    | false ↦ λ l. refl
                  ]
          ]

  -- Whatever ranks the cells before had: the clipper, which caches the dimensions of one rank, gives
  -- the shape, or the error, that looking each dimension up in the selection gives. No cell has as
  -- many dimensions as a machine word counts.
  pub clip-clipped :
      (clipper : Clipper) (cell_shape : IPosition)
      → IsCache selection clipper
      → length cell_shape < 2 ^ 64 - 1
      → clip selection clipper cell_shape ≡ (
          clipped selection cell_shape >>= λ shape.
          ok (shape, after_clip clipper (length cell_shape)))
  unfolding clip
  clip-clipped clipper cell_shape c l = elim (Bool-cases (leb (size selection) 1)) [
    | inl few ↦
        rw (few, clipped-rows (length cell_shape) 0 cell_shape (leb→le _ _ few) (omega arith)) refl
    | inr many ↦
        let all = clip_dims-cache (length cell_shape) 0 cell_shape (omega arith) in
        elim (Bool-cases (length cell_shape == clipper.ndim)) [
          | inl same ↦
              let here : clipper.dims ≡ (cache selection (length cell_shape)).dims =
                c (ground arith) ∙ ap (λ n. (cache selection n).dims) (ground arith) in
              rw (many, same, here, all) refl
          | inr other ↦ rw (many, other, all) refl
        ]
  ]

  -- The clip keeps the rank.
  pub length-clipped_from :
      (ndim dim : ℕ) (cell_shape : IPosition) {shape : IPosition}
      → clipped_from selection ndim dim cell_shape ≡ ok shape
      → length shape ≡ length cell_shape
  unfolding clipped_from
  length-clipped_from ndim dim [] {shape} h = let e : [] ≡ shape = cc in ap length (sym e)
  length-clipped_from ndim dim (extent ∷ cell_shape) {shape} h =
      elim (maybe_f_span selection dim (ndim + 1))
          as (λ found.
            (elim found [
              | none ↦
                  clipped_from selection ndim (suc dim) cell_shape >>= λ rest. ok (extent ∷ rest)
              | some span ↦
                  if all_below span extent
                  then clipped_from selection ndim (suc dim) cell_shape
                    >>= (λ rest. ok (length span ∷ rest))
                  else err index_error
            ])
              ≡ ok shape
            → length shape ≡ suc (length cell_shape)) [
              | none ↦ λ h.
                  let (t, rest, e) =
                    >>=-eq-ok (clipped_from selection ndim (suc dim) cell_shape) _ h in
                  longer extent t (length-clipped_from ndim (suc dim) cell_shape rest) e
              | some span ↦ λ h.
                  elim (all_below span extent)
                      as (λ b.
                        (if b
                            then clipped_from selection ndim (suc dim) cell_shape
                              >>= (λ rest. ok (length span ∷ rest))
                            else err index_error)
                          ≡ ok shape
                        → length shape ≡ suc (length cell_shape)) [
                          | true ↦ λ h.
                              let (t, rest, e) =
                                >>=-eq-ok (clipped_from selection ndim (suc dim) cell_shape) _ h in
                              longer (length span) t
                                (length-clipped_from ndim (suc dim) cell_shape rest) e
                          | false ↦ λ h. cc
                        ]
                    h
            ]
        h
