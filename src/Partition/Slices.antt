-- ===== src/Partition/Slices.antt =====
-- `DataChunk::ReferenceRows` and `DataChunk::SectionSlicer` of cpp/arcae/data_partition.cc: what casacore
-- is asked to read of a chunk.
pub mod Denoted
mod Tests
use arcae.Prelude.{
  ℕ, suc, ◌-◌, Bool, true, false, ◌&&◌, not, List, [], ◌∷◌, map, length, get_or, iota, is_empty,
  if◌then◌else◌, ℤ, pos, negsuc, is_neg, eqb_ℤ, ◌-ℤ◌,
}
use arcae.Partition.{SpanPair, disk_at, no_span}
use arcae.Partition.Split.{to_rownr}
use arcae.Partition.Chunks.{DataChunk}

-- `RefRows`, of a range of rows or of rows that are listed.
pub data RefRows : Type 0 where
  slice : ℤ → ℤ → RefRows
  rows : List ℕ → RefRows

abbrev pub front : List ℤ → ℤ
front s = disk_at s 0

abbrev pub back : List ℤ → ℤ
back s = disk_at s (length s - 1)

-- The rows of the last dimension.
unfoldable pub reference_rows_of : List ℤ → RefRows
reference_rows_of s =
    if not (is_empty s)
      && not (is_neg (front s))
      && eqb_ℤ (pos (length s)) (back s -ℤ front s -ℤ negsuc 0)
    then slice (front s) (back s)
    else rows (map to_rownr s)

abbrev pub reference_rows : DataChunk → RefRows
reference_rows chunk =
    reference_rows_of (get_or chunk.dim_spans (length chunk.dim_spans - 1) no_span).disk

-- The first and the last index of each other dimension.
abbrev pub section_slicer : DataChunk → List (ℤ × ℤ)
section_slicer chunk =
    map (λ d. let disk = (get_or chunk.dim_spans d no_span).disk in (front disk, back disk))
      (iota 0 (length chunk.dim_spans - 1))
