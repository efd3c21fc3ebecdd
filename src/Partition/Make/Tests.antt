-- ===== src/Partition/Make/Tests.antt =====
-- Three of four rows of a column of two values per row, read in two pieces.
use arcae.Prelude.{◌≡◌, refl, Perm, List, [], ◌∷◌, map, product, true, false, none, some, pos, ok}
use arcae.Prelude.Choices.{bind, choices}
use arcae.Selection.{Selection, maybe_f_span}
use arcae.Shape.{ResultShapeData}
use arcae.Shape.Offsets.{flat_offset, offset_loop, to_int}
use arcae.Partition.SortedIndices.{is_sorted, make_sorted_indices}
use arcae.Partition.SortedIndices.Insertion.{insertion}
use arcae.Partition.SubSpans.{make_sub_spans, sub_spans_loop, sub_spans_step, make_sub_span}
use arcae.Partition.Product.{cartesian_product, is_counted, is_rising}
use arcae.Partition.Product.Order.{elements}
use arcae.Partition.Split.{split_row_spans, piece_ends, row_at}
use arcae.Partition.Chunks.{
  DataChunk, make_data_chunks, make_chunk, buffer_strides_of, strides, strides_loop, min_element,
}
use arcae.Partition.Make.{
  RowSplitOptions, make_partition, make_fixed, fixed_subspans, max_dimension_size,
}
use arcae.Partition.Make.Whole.{make_partition-perm, selected_pairs}

abbrev selection : Selection
selection = record { indices = []; spans = (pos 3 ∷ pos 1 ∷ pos 2 ∷ []) ∷ [] }

abbrev data_shape : ResultShapeData
data_shape = record {
  fixed_shape = some (2 ∷ 3 ∷ []);
  ndim = pos 2;
  dtype = 5;
  row_shapes = none;
  cell_extents = none;
}

abbrev two_pieces : RowSplitOptions
two_pieces = record { max_splits = 2; min_bytes = 0; unit_start = none }

abbrev chunks : List DataChunk
chunks =
    record {
      dim_spans =
          record { disk = pos 0 ∷ pos 1 ∷ []; mem = 0 ∷ 1 ∷ [] }
          ∷ record { disk = pos 1 ∷ []; mem = 1 ∷ [] }
          ∷ [];
      min_mem_index = 0 ∷ 1 ∷ [];
      flat_offset = 2;
      buffer_strides = 1 ∷ 2 ∷ [];
      chunk_strides = 1 ∷ 2 ∷ [];
      contiguous = true;
    }
    ∷ record {
      dim_spans =
          record { disk = pos 0 ∷ pos 1 ∷ []; mem = 0 ∷ 1 ∷ [] }
          ∷ record { disk = pos 2 ∷ pos 3 ∷ []; mem = 2 ∷ 0 ∷ [] }
          ∷ [];
      min_mem_index = 0 ∷ 0 ∷ [];
      flat_offset = 0;
      buffer_strides = 1 ∷ 2 ∷ [];
      chunk_strides = 1 ∷ 2 ∷ [];
      contiguous = false;
    }
    ∷ []

partition_test : make_partition product (λ n. ok 4) selection data_shape two_pieces ≡ ok chunks
unfolding make_partition make_fixed fixed_subspans max_dimension_size maybe_f_span
    make_sorted_indices is_sorted make_sub_spans sub_spans_loop sub_spans_step make_sub_span
    cartesian_product is_counted is_rising split_row_spans piece_ends row_at make_data_chunks
    make_chunk buffer_strides_of strides strides_loop min_element flat_offset offset_loop to_int
    arcae.Partition.Product.secondary_dimensions_contiguous
    arcae.Partition.Product.is_memory_contiguous arcae.Partition.Split.cut_spans
    arcae.Partition.Split.cut_span arcae.Partition.Split.cut_step arcae.Partition.Split.ends_loop
    arcae.Partition.Split.push_end arcae.Partition.Split.boundary
partition_test = refl

make_partition-perm_example :
    Perm
      (bind (map (λ (chunk : DataChunk). chunk.dim_spans) chunks) elements)
      (choices (selected_pairs selection 2 0 (2 ∷ 3 ∷ [])))
make_partition-perm_example =
    make_partition-perm product (λ n. ok 4) selection data_shape two_pieces 2 (2 ∷ 3 ∷ [])
      {chunks = chunks} refl refl refl partition_test
