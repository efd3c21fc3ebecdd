-- ===== src/Partition.antt =====
-- cpp/arcae/data_partition.h and data_partition.cc: how the selected elements of a column are
-- divided into chunks, each of which is one read of consecutive indices on disk.
pub mod SortedIndices
pub mod SubSpans
pub mod Product
pub mod Split
pub mod Chunks
pub mod Make
pub mod Slices
mod Tests
use arcae.Prelude.{ℕ, ◌≤◌, List, [], get_or, ℤ, pos}

-- Indices on disk, and the positions in memory that belong to them. Memory indices are made by
-- `std::iota` or by sorting what it made, so they are numbers that are not negative.
pub record SpanPair : Type 0 where
  pub disk : List ℤ
  pub mem : List ℕ

-- `disk_span[i]`.
abbrev pub disk_at : List ℤ → ℕ → ℤ
disk_at disk i = get_or disk i (pos 0)

abbrev pub SpanPairs : Type 0
SpanPairs = List SpanPair

abbrev pub no_span : SpanPair
no_span = record { disk = []; mem = [] }
