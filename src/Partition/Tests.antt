-- ===== src/Partition/Tests.antt =====
-- One dimension of six selected indices, of which one is missing, and a product of two dimensions.
use arcae.Prelude.{
  ℕ, zero, suc, ◌*◌, ◌/◌, ◌≤◌, ◌<◌, length, Option, some, none, ◌≡◌, refl, ◌↔◌, List, [], ◌∷◌, true,
  false, Perm, map, arith, concat, iota, All, ℤ, pos, negsuc, ok, err, index_error,
}
use arcae.Prelude.Choices.{bind, choices}
use arcae.Partition.{SpanPair, SpanPairs, disk_at}
use arcae.Partition.SortedIndices.{
  Ascending, is_sorted, make_sorted_indices, make_sorted_indices_lem,
}
use arcae.Partition.SortedIndices.Insertion.{insertion}
use arcae.Partition.SubSpans.{make_sub_spans, sub_spans_loop, sub_spans_step, make_sub_span}
use arcae.Partition.SubSpans.Cover.{make_sub_spans_cover, disks, mems}
use arcae.Partition.SubSpans.Ranges.{make_sub_spans-IsPiece, IsPiece}
use arcae.Partition.SubSpans.Duplicates.{HasDuplicate, make_sub_spans-err_iff}
use arcae.Partition.Product.{cartesian_product, is_counted, is_rising}
use arcae.Partition.Product.Order.{dim_spans-choices, elements-perm, elements, index_pairs}
use arcae.Partition.Split.{split_row_spans, piece_ends, row_at}
use arcae.Partition.Split.Units.{Parts, piece_ends-Parts}
use arcae.Partition.Split.Ends.{piece_ends-Ends, Ends, piece_ends-Even, Even}
use arcae.Partition.Split.Cover.{split_row_spans_total}
use arcae.Partition.Product.Contiguous.{contiguous-IsContiguous, IsContiguous}

abbrev selected : List ℤ
selected = pos 5 ∷ pos 3 ∷ pos 9 ∷ negsuc 0 ∷ pos 4 ∷ []

abbrev sorted_disk : List ℤ
sorted_disk = negsuc 0 ∷ pos 3 ∷ pos 4 ∷ pos 5 ∷ pos 9 ∷ []

abbrev sorted_mem : List ℕ
sorted_mem = 3 ∷ 1 ∷ 4 ∷ 0 ∷ 2 ∷ []

abbrev ranges : SpanPairs
ranges =
    record { disk = negsuc 0 ∷ []; mem = 3 ∷ [] }
    ∷ record { disk = pos 3 ∷ pos 4 ∷ pos 5 ∷ []; mem = 1 ∷ 4 ∷ 0 ∷ [] }
    ∷ record { disk = pos 9 ∷ []; mem = 2 ∷ [] }
    ∷ []

sorted_indices : make_sorted_indices selected ≡ record { disk = sorted_disk; mem = sorted_mem }
unfolding make_sorted_indices is_sorted
sorted_indices = refl

sub_spans : make_sub_spans sorted_disk sorted_mem false ≡ ok ranges
unfolding make_sub_spans sub_spans_loop sub_spans_step make_sub_span
sub_spans = refl

make_sorted_indices_example :
    Ascending (make_sorted_indices selected).disk
    × Perm (make_sorted_indices selected).mem (iota 0 5)
    × ((make_sorted_indices selected).disk
        ≡ map (disk_at selected) (make_sorted_indices selected).mem)
make_sorted_indices_example = make_sorted_indices_lem selected

make_sub_spans_cover_example :
    (concat (disks ranges) ≡ sorted_disk) × (concat (mems ranges) ≡ sorted_mem)
make_sub_spans_cover_example =
    make_sub_spans_cover sorted_disk sorted_mem false {spans = ranges} refl sub_spans

sorted_disk-Ascending : Ascending sorted_disk
sorted_disk-Ascending = omega arith

make_sub_spans-IsPiece_example :
    All (IsPiece sorted_disk sorted_mem false sorted_disk-Ascending) ranges
make_sub_spans-IsPiece_example =
    make_sub_spans-IsPiece sorted_disk sorted_mem false sorted_disk-Ascending (omega arith)
      sub_spans

make_sub_spans-err_iff_example :
    (make_sub_spans (pos 2 ∷ pos 2 ∷ []) (0 ∷ 1 ∷ []) true ≡ err index_error)
    ↔ HasDuplicate (pos 2 ∷ pos 2 ∷ [])
make_sub_spans-err_iff_example =
    (make_sub_spans-err_iff (pos 2 ∷ pos 2 ∷ []) (0 ∷ 1 ∷ []) true (omega arith)).0

abbrev channel : SpanPairs
channel = record { disk = pos 7 ∷ pos 8 ∷ []; mem = 0 ∷ 1 ∷ [] } ∷ []

dim_spans-choices_example :
    (cartesian_product (channel ∷ ranges ∷ [])).dim_spans ≡ choices (channel ∷ ranges ∷ [])
dim_spans-choices_example = dim_spans-choices (channel ∷ ranges ∷ [])

elements-perm_example :
    Perm
      (bind (cartesian_product (channel ∷ ranges ∷ [])).dim_spans elements)
      (choices (map (λ spans. concat (map index_pairs spans)) (channel ∷ ranges ∷ [])))
elements-perm_example = elements-perm (channel ∷ ranges ∷ [])

abbrev last_chunk : SpanPairs
last_chunk =
    record { disk = pos 7 ∷ pos 8 ∷ []; mem = 0 ∷ 1 ∷ [] }
    ∷ record { disk = pos 9 ∷ []; mem = 2 ∷ [] }
    ∷ []

contiguous-IsContiguous_example : IsContiguous last_chunk
unfolding cartesian_product is_counted is_rising
    arcae.Partition.Product.secondary_dimensions_contiguous
    arcae.Partition.Product.is_memory_contiguous
contiguous-IsContiguous_example =
    contiguous-IsContiguous channel (ranges ∷ []) 2 last_chunk (omega arith) refl refl

-- Storage units of three rows, and four rows that are read in three pieces.
abbrev unit_start : Option (ℕ → ℕ)
unit_start = some (λ row. row / 3 * 3)

split_row_spans_total_example :
    (result : SpanPairs) × (split_row_spans ranges 4 3 unit_start ≡ some result)
    × (concat (disks result) ≡ concat (disks ranges))
    × (concat (mems result) ≡ concat (mems ranges))
    × (length result ≤ 6)
split_row_spans_total_example =
    split_row_spans_total ranges 4 3 unit_start (refl, (refl, (refl, tt))) refl (omega arith)
      (omega arith)

piece_ends-Ends_example :
    Ends 0 (piece_ends (row_at ranges) unit_start 4 3) 4
    × (length (piece_ends (row_at ranges) unit_start 4 3) ≤ 3)
piece_ends-Ends_example = piece_ends-Ends (row_at ranges) unit_start 4 3 (omega arith) (omega arith)

ranges_ascend : (q r : ℕ) → q < r → r < 4 → row_at ranges q < row_at ranges r
unfolding row_at
ranges_ascend zero zero l h = absurd (omega arith)
ranges_ascend zero (suc zero) l h = omega arith
ranges_ascend zero (suc (suc zero)) l h = omega arith
ranges_ascend zero (suc (suc (suc zero))) l h = omega arith
ranges_ascend (suc zero) (suc (suc zero)) l h = omega arith
ranges_ascend (suc zero) (suc (suc (suc zero))) l h = omega arith
ranges_ascend (suc (suc zero)) (suc (suc (suc zero))) l h = omega arith
ranges_ascend (suc q) zero l h = absurd (omega arith)
ranges_ascend (suc zero) (suc zero) l h = absurd (omega arith)
ranges_ascend (suc (suc q)) (suc zero) l h = absurd (omega arith)
ranges_ascend (suc (suc q)) (suc (suc zero)) l h = absurd (omega arith)
ranges_ascend (suc (suc (suc q))) (suc (suc (suc zero))) l h = absurd (omega arith)
ranges_ascend q (suc (suc (suc (suc r)))) l h = absurd (omega arith)

piece_ends-Parts_example :
    All (Parts (row_at ranges) (λ row. row / 3 * 3) 4) (piece_ends (row_at ranges) unit_start 4 3)
piece_ends-Parts_example =
    piece_ends-Parts (row_at ranges) (λ row. row / 3 * 3) 4 ranges_ascend (λ row. omega arith)
      (λ row other l. omega arith) (λ row. omega arith) 3 (omega arith) (omega arith)

piece_ends-Even_example :
    (length (piece_ends (row_at ranges) none 4 3) ≡ 3)
    × Even 1 0 (piece_ends (row_at ranges) none 4 3)
piece_ends-Even_example =
    piece_ends-Even 4 3 (omega arith) (omega arith) (omega arith) (row_at ranges)

piece_ends_test : piece_ends (row_at ranges) none 4 3 ≡ 1 ∷ 2 ∷ 4 ∷ []
unfolding piece_ends arcae.Partition.Split.ends_loop arcae.Partition.Split.push_end
    arcae.Partition.Split.boundary
piece_ends_test = refl
