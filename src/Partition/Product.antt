-- ===== src/Partition/Product.antt =====
-- `CartesianProduct` of cpp/arcae/data_partition.cc, with the tests `SecondaryDimensionsContiguous`
-- and `IsMemoryContiguous`.
pub mod Order
pub mod Contiguous
use arcae.Prelude.{
  ℕ, zero, suc, ◌+◌, ◌-◌, ◌*◌, Bool, true, false, ◌&&◌, not, List, [], ◌∷◌, ◌++◌, map, length,
  get_or, set, replicate, product, ltb, ◌==◌, if◌then◌else◌,
}
use arcae.Partition.{SpanPair, SpanPairs, no_span}

-- `mem[i] != IndexType(i)` for no `i` from the given one on.
unfoldable pub is_counted : ℕ → List ℕ → Bool
is_counted i [] = true
is_counted i (m ∷ mem) = m == i && is_counted (suc i) mem

-- The dimensions but the last, which is the row dimension.
unfoldable pub secondary_dimensions_contiguous : List SpanPairs → Bool
secondary_dimensions_contiguous [] = true
secondary_dimensions_contiguous (rows ∷ []) = true
secondary_dimensions_contiguous (spans ∷ next ∷ rest) =
    not (ltb 1 (length spans))
    && is_counted 0 (get_or spans 0 no_span).mem
    && secondary_dimensions_contiguous (next ∷ rest)

unfoldable pub is_rising : List ℕ → Bool
is_rising [] = true
is_rising (m ∷ []) = true
is_rising (m ∷ n ∷ mem) = n == m + 1 && is_rising (n ∷ mem)

unfoldable pub is_memory_contiguous : SpanPair → Bool
unfolding is_rising
is_memory_contiguous spans = is_rising spans.mem

pub record CartesianProduct : Type 0 where
  pub dim_spans : List SpanPairs
  pub contiguous : List Bool

-- `for (const auto& span_pair : span_pairs)`, for one `result` of the product so far.
append_each : SpanPairs → SpanPairs → List SpanPairs
append_each result [] = []
append_each result (span_pair ∷ span_pairs) =
    (result ++ span_pair ∷ []) ∷ append_each result span_pairs

-- `for (const auto& result : product)`.
next_product : List SpanPairs → SpanPairs → List SpanPairs
unfolding append_each
next_product [] span_pairs = []
next_product (result ∷ product) span_pairs =
    append_each result span_pairs ++ next_product product span_pairs

-- `for (const auto& span_pairs : dim_spans)`.
product_loop : List SpanPairs → List SpanPairs → List SpanPairs
unfolding next_product
product_loop product [] = product
product_loop product (span_pairs ∷ dim_spans) =
    product_loop (next_product product span_pairs) dim_spans

-- `for (std::size_t i = first; i < last; ++i) contiguous[i] = contiguous[i] & rows_contiguous;`
mark : ℕ → ℕ → Bool → List Bool → List Bool
mark zero i rows_contiguous contiguous = contiguous
mark (suc n) i rows_contiguous contiguous =
    mark n (suc i) rows_contiguous (set contiguous i (get_or contiguous i false && rows_contiguous))

mark_rows : ℕ → ℕ → SpanPairs → List Bool → List Bool
unfolding mark
mark_rows stride rs [] contiguous = contiguous
mark_rows stride rs (row_span ∷ row_spans) contiguous =
    mark_rows stride (suc rs) row_spans
      (mark stride (rs * stride) (is_memory_contiguous row_span) contiguous)

-- `stride *= dim_spans[d - 1].size();`
stride_of : List SpanPairs → ℕ
stride_of [] = 1
stride_of (rows ∷ []) = 1
stride_of (spans ∷ next ∷ rest) = length spans * stride_of (next ∷ rest)

unfoldable pub cartesian_product : List SpanPairs → CartesianProduct
unfolding product_loop mark_rows stride_of
cartesian_product dim_spans =
    let product_spans = product_loop ([] ∷ []) dim_spans in
    let secondary_contig = secondary_dimensions_contiguous dim_spans in
    let contiguous = replicate (product (map length dim_spans)) secondary_contig in
    if not secondary_contig
    then record { dim_spans = product_spans; contiguous = contiguous }
    else record {
      dim_spans = product_spans;
      contiguous =
          mark_rows (stride_of dim_spans) 0 (get_or dim_spans (length dim_spans - 1) []) contiguous;
    }
