-- ===== src/Partition/Slices/Tests.antt =====
-- Two indices of a dimension, in two rows that do not follow one another.
use arcae.Prelude.{◌≡◌, refl, true, [], ◌∷◌, map, pos, arith}
use arcae.Partition.Chunks.{DataChunk}
use arcae.Partition.Slices.{slice, rows, reference_rows, reference_rows_of, section_slicer}
use arcae.Partition.Slices.Denoted.{range_of, rows_of, reference_rows-section_slicer}

abbrev chunk : DataChunk
chunk = record {
  dim_spans =
      record { disk = pos 3 ∷ pos 4 ∷ []; mem = 0 ∷ 1 ∷ [] }
      ∷ record { disk = pos 2 ∷ pos 7 ∷ []; mem = 0 ∷ 1 ∷ [] }
      ∷ [];
  min_mem_index = 0 ∷ 0 ∷ [];
  flat_offset = 0;
  buffer_strides = 1 ∷ 2 ∷ [];
  chunk_strides = 1 ∷ 2 ∷ [];
  contiguous = true;
}

reference_rows-section_slicer_example :
    (map range_of (section_slicer chunk) ≡ (3 ∷ 4 ∷ []) ∷ [])
    × (rows_of (reference_rows chunk) ≡ 2 ∷ 7 ∷ [])
reference_rows-section_slicer_example =
    reference_rows-section_slicer chunk ((3 ∷ 4 ∷ []) ∷ []) (2 ∷ 7 ∷ []) refl
      ((omega arith, (refl, tt)), tt) (omega arith, tt)

reference_rows_test :
    (reference_rows_of (pos 2 ∷ pos 3 ∷ []) ≡ slice (pos 2) (pos 3))
    × (reference_rows_of (pos 2 ∷ pos 4 ∷ []) ≡ rows (2 ∷ 4 ∷ []))
unfolding reference_rows_of
reference_rows_test = (refl, refl)
