-- ===== src/Partition/Make.antt =====
-- `DataPartition::Make` of cpp/arcae/data_partition.cc: the chunks for a selection and the shape of a
-- result.
pub mod Pairs
pub mod Cover
pub mod Whole
mod Tests
use arcae.Prelude.{
  ℕ, zero, suc, ◌+◌, ◌-◌, ◌*◌, ◌/◌, ◌%◌, ◌^◌, min, max, Bool, true, false, ◌&&◌, not, Option, none,
  some, List, [], ◌∷◌, ◌++◌, map, length, get_or, set, iota, take, replicate, is_empty, ltb, ◌==◌,
  if◌then◌else◌, ℤ, pos, negsuc, is_neg, Result, ok, err, invalid, ◌>>=◌, traverse,
}
use arcae.Selection.{Index, Selection, maybe_f_span}
use arcae.Shape.{IPosition, ResultShapeData, consistent_ndim, n_rows, get_row_shape, row_shapes_of}
use arcae.Partition.{SpanPair, SpanPairs, no_span, disk_at}
use arcae.Partition.SortedIndices.{Sorter, make_sorted_indices}
use arcae.Partition.SubSpans.{make_sub_spans}
use arcae.Partition.Product.{CartesianProduct, cartesian_product}
use arcae.Partition.Split.{split_row_spans}
use arcae.Partition.Chunks.{DataChunk, make_data_chunks}

-- `*std::max_element`, or 0 where there is none.
abbrev pub max_extent : IPosition → ℕ
max_extent [] = 0
max_extent (n ∷ []) = n
max_extent (n ∷ m ∷ shape) = max n (max_extent (m ∷ shape))

-- `MaxDimensionSize` of a result of rows, from a size on.
abbrev pub max_row_extent : ℕ → List IPosition → ℕ
max_row_extent size [] = size
max_row_extent size (shape ∷ shapes) = max_row_extent (max size (max_extent shape)) shapes

unfoldable pub max_dimension_size : ResultShapeData → ℕ
max_dimension_size data_shape = elim data_shape.fixed_shape [
  | some shape ↦ max_extent shape
  | none ↦ max_row_extent (n_rows data_shape) (row_shapes_of data_shape)
]

-- `RowSplitOptions`.
pub record RowSplitOptions : Type 0 where
  pub max_splits : ℕ
  pub min_bytes : ℕ
  pub unit_start : Option (ℕ → ℕ)

-- The spans made for a dimension and an extent.
pub record PaddedSpan : Type 0 where
  pub dim : ℕ
  pub extent : ℕ
  pub spans : SpanPair

abbrev pub find_padded : ℕ → ℕ → List PaddedSpan → Option SpanPair
find_padded dim extent [] = none
find_padded dim extent (entry ∷ entries) =
    if entry.dim == dim && entry.extent == extent
    then some entry.spans
    else find_padded dim extent entries

-- The indices below the extent, and -1 for the rest.
abbrev pub padded_ids : ℕ → ℕ → List ℤ
padded_ids dim_size extent = map pos (iota 0 extent) ++ replicate (dim_size - extent) (negsuc 0)

-- The spans of the rows, with the number of bytes of a row and the number of rows that are read.
abbrev pub disk_size : SpanPairs → ℕ
disk_size [] = 0
disk_size (span ∷ spans) = length span.disk + disk_size spans

abbrev pub row_bytes : ℕ → List SpanPairs → ℕ
row_bytes bytes [] = bytes
row_bytes bytes (rows ∷ []) = bytes
row_bytes bytes (spans ∷ next ∷ rest) = row_bytes (bytes * disk_size spans % 2 ^ 64) (next ∷ rest)

abbrev pub rows_read : SpanPairs → ℕ
rows_read [] = 0
rows_read (span ∷ spans) =
    (if not (is_empty span.disk) && not (is_neg (disk_at span.disk 0)) then length span.disk else 0)
    + rows_read spans

abbrev pub n_splits : RowSplitOptions → ℕ → ℕ → ℕ
n_splits row_split nrows bytes =
    min
      (if ltb 0 row_split.min_bytes
        then min row_split.max_splits (nrows * bytes % 2 ^ 64 / row_split.min_bytes)
        else row_split.max_splits)
      nrows

-- Both sums, and the rows split. Of the options of `split_row_spans` that of fuel that runs out does
-- not occur.
abbrev pub split_rows : RowSplitOptions → ℕ → SpanPairs → SpanPairs
split_rows row_split bytes spans =
    let nrows = rows_read spans in
    let nsplits = n_splits row_split nrows bytes in
    if ltb 1 nsplits
    then (elim (split_row_spans spans nrows nsplits row_split.unit_start) [
      | some pieces ↦ pieces
      | none ↦ spans
    ])
    else spans

-- The last dimension changed.
abbrev pub change_last : (SpanPairs → SpanPairs) → List SpanPairs → List SpanPairs
change_last f [] = []
change_last f (rows ∷ []) = f rows ∷ []
change_last f (spans ∷ next ∷ rest) = spans ∷ change_last f (next ∷ rest)

module _ ⦃sorter : Sorter⦄ (selection : Selection) (ndim : ℕ) (monotonic_ids : List ℕ) where
  -- `GetSpanPair`.
  abbrev pub get_span_pair : ℕ → ℕ → SpanPair
  get_span_pair dim dim_size = elim (maybe_f_span selection dim ndim) [
    | some span ↦ make_sorted_indices span
    | none ↦ record {
      disk = map pos (take dim_size monotonic_ids);
      mem = take dim_size monotonic_ids;
    }
  ]

  -- The sub-spans of the dimensions from `dim` on; the result has as many as its shape.
  unfoldable pub fixed_subspans : ℕ → IPosition → Result (List SpanPairs)
  fixed_subspans dim [] = ok []
  fixed_subspans dim (size ∷ shape) = do
    spans ←
        make_sub_spans (get_span_pair dim size).disk (get_span_pair dim size).mem (dim == ndim - 1)
    rest ← fixed_subspans (suc dim) shape
    ok (spans ∷ rest)

  -- `GetPaddedSpanPair`, with `padded_spans` as it is before and after.
  unfoldable pub get_padded_span_pair : ℕ → ℕ → ℕ → List PaddedSpan → SpanPair × List PaddedSpan
  get_padded_span_pair dim dim_size extent cache = elim (find_padded dim extent cache) [
    | some spans ↦ (spans, cache)
    | none ↦
        let spans = make_sorted_indices (padded_ids dim_size extent) in
        (spans, cache ++ record { dim = dim; extent = extent; spans = spans } ∷ [])
  ]

  -- The spans of a dimension of a row: padded where the row has an extent that is less.
  unfoldable pub row_span_pair :
      ℕ → ℕ → Option IPosition → List PaddedSpan → SpanPair × List PaddedSpan
  row_span_pair dim dim_size none cache = (get_span_pair dim dim_size, cache)
  row_span_pair dim dim_size (some extents) cache =
      if ltb (get_or extents dim 0) dim_size
      then get_padded_span_pair dim dim_size (get_or extents dim 0) cache
      else (get_span_pair dim dim_size, cache)

  -- The sub-spans of the dimensions of a row from `dim` on.
  unfoldable pub row_subspans :
      ℕ → IPosition → Option IPosition → List PaddedSpan → Result (List SpanPairs × List PaddedSpan)
  row_subspans dim [] extents cache = ok ([], cache)
  row_subspans dim (size ∷ shape) extents cache =
      let pair = row_span_pair dim size extents cache in
      make_sub_spans pair.0.disk pair.0.mem false >>= λ spans.
      row_subspans (suc dim) shape extents pair.1 >>= λ rest. ok (spans ∷ rest.0, rest.1)

-- `fixed_row_shape`, or the shape of the row.
abbrev pub shape_of_row : ResultShapeData → ℕ → ℕ → IPosition
shape_of_row data_shape ndim row = elim data_shape.fixed_shape [
  | some shape ↦ take (ndim - 1) shape
  | none ↦ get_row_shape data_shape row
]

-- `GetCellExtent`, where the result has extents.
abbrev pub extents_of_row : ResultShapeData → ℕ → Option IPosition
extents_of_row data_shape row = elim data_shape.cell_extents [
  | some extents ↦ some (get_or extents row [])
  | none ↦ none
]

abbrev pub one_row : SpanPair → ℕ → SpanPairs
one_row rows r = record { disk = disk_at rows.disk r ∷ []; mem = get_or rows.mem r 0 ∷ [] } ∷ []

abbrev pub no_product : CartesianProduct
no_product = record { dim_spans = []; contiguous = [] }

abbrev pub join_products : CartesianProduct → CartesianProduct → CartesianProduct
join_products p q = record {
  dim_spans = p.dim_spans ++ q.dim_spans;
  contiguous = p.contiguous ++ q.contiguous;
}

module _ ⦃sorter : Sorter⦄ (shape_product : IPosition → ℕ) (type_size : ℕ → Result ℕ)
    (selection : Selection) (data_shape : ResultShapeData) where
  -- The rounds of the loop over the rows from `r` on.
  unfoldable pub rows_products : ℕ → SpanPair → ℕ → ℕ → List PaddedSpan → Result CartesianProduct
  rows_products ndim rows zero r cache = ok no_product
  rows_products ndim rows (suc rounds) r cache =
      let row = get_or rows.mem r 0 in
      row_subspans selection ndim (iota 0 (max_dimension_size data_shape)) 0
        (shape_of_row data_shape ndim row) (extents_of_row data_shape row) cache
      >>= λ subspans. rows_products ndim rows rounds (suc r) subspans.1 >>= λ rest.
          ok (join_products (cartesian_product (subspans.0 ++ one_row rows r ∷ [])) rest)

  -- The varying case, or that of extents that vary by row.
  unfoldable pub make_varied : ℕ → Result (List DataChunk)
  make_varied ndim =
      let rows =
        get_span_pair selection ndim (iota 0 (max_dimension_size data_shape)) (ndim - 1)
          (n_rows data_shape) in
      rows_products ndim rows (n_rows data_shape) 0 [] >>= λ spans.
      if is_empty spans.dim_spans
      then err invalid
      else make_data_chunks shape_product data_shape spans.dim_spans spans.contiguous

  abbrev pub split_subspans : RowSplitOptions → List SpanPairs → Result (List SpanPairs)
  split_subspans row_split subspans =
      if ltb 1 row_split.max_splits
      then (type_size data_shape.dtype >>= λ bytes.
          ok (change_last (split_rows row_split (row_bytes bytes subspans)) subspans))
      else ok subspans

  -- The case of one shape.
  unfoldable pub make_fixed : RowSplitOptions → ℕ → IPosition → Result (List DataChunk)
  make_fixed row_split ndim shape = do
    subspans ← fixed_subspans selection ndim (iota 0 (max_dimension_size data_shape)) 0 shape
    split ← split_subspans row_split subspans
    make_data_chunks shape_product data_shape (cartesian_product split).dim_spans
        (cartesian_product split).contiguous

  abbrev pub make_by_shape :
      RowSplitOptions → ℕ → Option IPosition → Option (List IPosition) → Result (List DataChunk)
  make_by_shape row_split ndim (some shape) none = make_fixed row_split ndim shape
  make_by_shape row_split ndim (some shape) (some extents) = make_varied ndim
  make_by_shape row_split ndim none extents = make_varied ndim

  -- `DataPartition::Make`: its chunks. Its data type is that of the result.
  unfoldable pub make_partition : RowSplitOptions → Result (List DataChunk)
  make_partition row_split = consistent_ndim data_shape >>= λ ndim.
      make_by_shape row_split ndim data_shape.fixed_shape data_shape.cell_extents
