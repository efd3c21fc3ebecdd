-- ===== src/Arrow/Offsets.antt =====
-- `GetOffsets` of cpp/arcae/result_shape.cc: where the lists of each dimension begin and end.
pub mod Nested
use arcae.Prelude.{
  ℕ, zero, suc, ◌+◌, ◌-◌, ◌*◌, ◌%◌, ◌^◌, Bool, true, false, Option, none, some, List, [], ◌∷◌, ◌++◌,
  map, length, get_or, iota, replicate, is_empty, ltb, ◌==◌, if◌then◌else◌, Result, ok, err,
  not_implemented, ◌>>=◌,
}
use arcae.Shape.{
  IPosition, ResultShapeData, consistent_ndim, n_rows, get_row_shape, is_degenerate_shape,
}

-- `running_offsets[dim]` and what `builders[dim]` holds. The builder takes 32-bit integers; they are
-- the bit patterns here.
pub record Running : Type 0 where
  pub offset : ℕ
  pub built : List ℕ

abbrev pub no_offsets : Running
no_offsets = record { offset = 0; built = 0 ∷ [] }

-- `for (std::size_t p = 0; p < product; ++p)`.
unfoldable pub append_offsets : ℕ → ℕ → Running → Running
append_offsets zero dim_size run = run
append_offsets (suc product) dim_size run =
    let offset = (run.offset + dim_size) % 2 ^ 64 in
    append_offsets product dim_size
      (record { offset = offset; built = run.built ++ offset % 2 ^ 32 ∷ [] })

-- The loop over the dimensions of a row, which goes from the last down: the product of the sizes comes
-- from the dimensions that follow.
unfoldable pub row_round : List ℕ → List Running → List Running × ℕ
row_round [] runs = (runs, 1)
row_round (dim_size ∷ sizes) [] = ([], 1)
row_round (dim_size ∷ sizes) (run ∷ runs) =
    let rest = row_round sizes runs in
    (append_offsets rest.1 dim_size run ∷ rest.0, rest.1 * dim_size % 2 ^ 64)

-- `BuildFn`, for the sizes of the rows.
unfoldable pub build_offsets : List (List ℕ) → List Running → List Running
build_offsets [] runs = runs
build_offsets (sizes ∷ rows) runs = build_offsets rows (row_round sizes runs).0

-- `GetShapeFn`.
abbrev pub size_at : ResultShapeData → ℕ → ℕ → ℕ
size_at data_shape row dim = elim data_shape.fixed_shape [
  | some shape ↦ get_or shape dim 0
  | none ↦
      if is_degenerate_shape (get_row_shape data_shape row)
      then 0
      else get_or (get_row_shape data_shape row) dim 0
]

abbrev pub row_sizes : ResultShapeData → ℕ → List (List ℕ)
row_sizes data_shape ndim =
    map (λ row. map (size_at data_shape row) (iota 0 ndim)) (iota 0 (n_rows data_shape))

unfoldable pub get_offsets : ResultShapeData → Result (List (List ℕ))
get_offsets data_shape = consistent_ndim data_shape >>= λ ndim.
    if ndim == 0
    then err not_implemented
    else ok (
        map (λ (run : Running). run.built)
          (build_offsets (row_sizes data_shape (ndim - 1)) (replicate (ndim - 1) no_offsets)))
