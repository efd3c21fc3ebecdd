-- ===== src/Shape/Clip.antt =====
-- `CellShapeClipper` of cpp/arcae/result_shape.cc: the cached clip of a cell's shape against the
-- selection is the clip that looks each dimension up.
pub mod Lookup
use arcae.Prelude.{
  get_or-map-iota, ℕ, suc, ◌+◌, ◌-◌, ◌^◌, ◌≤◌, ◌<◌, ◌≡◌, refl, sym, ap, ◌∙◌, Bool, true, false,
  ◌&&◌, not, Option, none, some, List, [], ◌∷◌, map, length, get_or, iota, leb, ◌==◌, if◌then◌else◌,
  Bool-cases, leb→le, Option-cases, inl, inr, ℤ, pos, ltb_ℤ, Result, >>=-eq-ok, ok, err,
  index_error, ◌>>=◌, arith,
}
use arcae.Selection.{Index, Selection, size, maybe_f_span}
use arcae.Shape.{IPosition}

pub record SelectedDim : Type 0 where
  pub size : ℕ
  pub max : ℤ

-- `*std::max_element`, of indices that are not none.
unfoldable pub max_element : Index → ℤ
max_element [] = pos 0
max_element (i ∷ []) = i
max_element (i ∷ j ∷ rest) = let max = max_element (j ∷ rest) in if ltb_ℤ i max then max else i

-- `ndim` is the rank that the dimensions are cached for.
pub record Clipper : Type 0 where
  pub ndim : ℕ
  pub dims : List (Option SelectedDim)

abbrev pub new_clipper : Clipper
new_clipper = record { ndim = 2 ^ 64 - 1; dims = [] }

-- Each index is below the extent.
abbrev pub all_below : Index → ℕ → Bool
all_below [] extent = true
all_below (i ∷ span) extent = ltb_ℤ i (pos extent) && all_below span extent

module _ (selection : Selection) where
  unfoldable pub selected_dim : ℕ → ℕ → Option SelectedDim
  selected_dim ndim dim = elim (maybe_f_span selection dim (ndim + 1)) [
    | none ↦ none
    | some span ↦ some (record { size = length span; max = max_element span })
  ]

  -- `Cache`.
  unfoldable pub cache : ℕ → Clipper
  cache ndim = record { ndim = ndim; dims = map (selected_dim ndim) (iota 0 ndim) }

  -- The rounds of `for (std::size_t dim = 0; dim < cell_shape.size(); ++dim)` from `dim` on.
  unfoldable pub clip_dims : List (Option SelectedDim) → ℕ → IPosition → Result IPosition
  clip_dims dims dim [] = ok []
  clip_dims dims dim (extent ∷ cell_shape) =
      let rest = clip_dims dims (suc dim) cell_shape in
      elim (get_or dims dim none) [
        | none ↦ rest >>= λ rest. ok (extent ∷ rest)
        | some selected ↦
            if not (ltb_ℤ selected.max (pos extent))
            then err index_error
            else rest >>= λ rest. ok (selected.size ∷ rest)
      ]

  -- `Clip`: the clipped shape, and the clipper after the call.
  unfoldable pub clip : Clipper → IPosition → Result (IPosition × Clipper)
  clip clipper cell_shape =
      if leb (size selection) 1
      then ok (cell_shape, clipper)
      else let clipper =
          if length cell_shape == clipper.ndim then clipper else cache (length cell_shape) in
        clip_dims clipper.dims 0 cell_shape >>= λ clipped. ok (clipped, clipper)

  -- The reference: the dimensions from `dim` on of a cell of rank `ndim`.
  unfoldable pub clipped_from : ℕ → ℕ → IPosition → Result IPosition
  clipped_from ndim dim [] = ok []
  clipped_from ndim dim (extent ∷ cell_shape) =
      let rest = clipped_from ndim (suc dim) cell_shape in
      elim (maybe_f_span selection dim (ndim + 1)) [
        | none ↦ rest >>= λ rest. ok (extent ∷ rest)
        | some span ↦
            if all_below span extent
            then rest >>= (λ rest. ok (length span ∷ rest))
            else err index_error
      ]

  abbrev pub clipped : IPosition → Result IPosition
  clipped cell_shape = clipped_from (length cell_shape) 0 cell_shape

  -- What the clipper caches is of its rank, if it caches anything.
  abbrev pub IsCache : Clipper → Type 0
  IsCache clipper = (clipper.ndim < 2 ^ 64 - 1) → clipper.dims ≡ (cache clipper.ndim).dims
