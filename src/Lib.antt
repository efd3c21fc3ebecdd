-- ===== src/Lib.antt =====
-- A model of the core of arcae: how a selection of a column of a measurement set is turned into reads
-- and writes of consecutive indices on disk, how what is read finds its place in the buffer of the
-- result, and how the work is given to the threads of a table.
-- Paths are from the root of the repository.
--
-- A read of a column goes through these parts:
--
-- 1. The caller builds a `Selection`: for each dimension the indices on disk, or none for all of them
--    (cpp/arcae/selection.h).
-- 2. `ResultShapeData::MakeRead` derives the shape of the result from the cells of the column and the
--    selection. It is one shape for all rows, or a shape for each row (cpp/arcae/result_shape.h and
--    result_shape.cc).
-- 3. `DataPartition` divides the selected indices of each dimension into ranges of consecutive indices
--    on disk and makes chunks, one for each choice of a range in each dimension. Large reads are split
--    by rows as well (cpp/arcae/data_partition.h and data_partition.cc).
-- 4. Groups of chunks are dispatched to instances of the table (cpp/arcae/isolated_table_proxy.h and
--    isolated_table_proxy.cc). Each chunk is read and its elements are copied to their offsets in the
--    buffer (cpp/arcae/read_impl.cc).
--
-- A write goes the other way, in one task on a thread of the table: `ResultShapeData::MakeWrite` derives
-- the shape of the data from its Arrow array and checks it against the cells, `DataPartition` makes the
-- chunks, and each is gathered from the values of the array (cpp/arcae/write_impl.cc).
--
-- The files of the model:
--
--   Prelude             Numbers with Boolean tests, lists, signed integers, `arrow::Result` (`Result`
--                       in Prelude/Outcome, with `>>=` for ARROW_ASSIGN_OR_RAISE), and the choices of
--                       one element of each of several lists (Prelude/Choices).
--   Selection           `Selection` and `SelectionBuilder`: all lookups and all calls of the builder.
--   Partition           `DataPartition` and the functions it calls, in their order:
--     SortedIndices       `MakeSortedIndices`. The sort of the standard library is the interface
--                         `Sorter`, which Insertion implements.
--     SubSpans            `MakeSubSpans`, with its scan as an explicit state.
--     Split               `AlignBoundary`, with its binary searches, and `SplitRowSpans`.
--     Product             `CartesianProduct` with the flags for contiguous chunks.
--     Chunks              `MakeDataChunks` and the sizes of a `DataChunk`.
--     Slices              `ReferenceRows` and `SectionSlicer`, which say what casacore is asked to read.
--     Make                `DataPartition::Make`, with its cache of padded spans as an explicit state.
--   Shape               `ResultShapeData`:
--     Clip                `CellShapeClipper`, with its cache as an explicit state.
--     Rows                `MakeRowData`.
--     Read                `ResultShapeData::MakeRead`.
--     Offsets             `FlatOffset`, `RowOffsets` and `nElements`.
--     Missing             `ValidateCellShape`, `CellExtent` and `RebuildSelection`.
--     Negate              `ResultShapeData::NegateMissingSelectedRows`, with the state of its loop.
--   Arrow               The nested lists of Arrow arrays:
--     Shape               `GetArrowResultShapeData`, `GetRowShapes` and `GetResultShapeData`.
--     Offsets             `ResultShapeData::GetOffsets`.
--     Make                `MakeArray` of cpp/arcae/read_impl.cc.
--     Flat                `GetFlatArray` of cpp/arcae/write_impl.cc.
--   Write               The loop over the cells of `ResultShapeData::MakeWrite`, with the column and the
--                       shapes it checked last as its state.
--     Make                `ResultShapeData::MakeWrite`.
--   Transfer            `CopyChunkArray`: the offsets of an element in the chunk and in the buffer.
--     Copy                Its loop over the positions of a chunk.
--     Gather              `GatherChunkArray` of cpp/arcae/write_impl.cc.
--     Groups              `GroupChunks`.
--   Pool                `IsolatedTableProxy::Dispatch` and `TaskScope`: the instances of a table as
--                       records, and what threads do to them as a step relation.
--     Isolation           The threads of an `IsolatedTableProxy` with the jobs they hold: `RunAsync`,
--                         `InvokeOnInstance`, `Make`, and `Close` with its wait: what other threads do
--                         meanwhile is a relation (Pool/Isolation/Runs).
--
-- A definition has the name of its function in snake case. Where a function is long, its loops and the
-- bodies of its loops have names of their own. State that a loop changes is a record (`Scan`,
-- `Cutting`, `RowState`, `Clipper`), which a step takes and returns. A failure is the code of its
-- `arrow::Status`, without the message.
--
-- Dimensions are in FORTRAN order, as they are in the code. Indices on disk are signed, and a negative
-- one marks an element that is not read. Indices in memory and extents are never negative, so they are
-- natural numbers. Differences that the code takes in signed integers are guarded by the test that they
-- are not negative. Sums and products of 64 bits keep their wrap-around in the offsets and in the split
-- of the rows; the `int` of `FlatOffset` is its 64-bit pattern.
--
-- The loops are structural recursion, or recursion on the number of rounds that the code makes. Four
-- loops have fuel. The binary searches of `AlignBoundary` have one round for each position, and a
-- round leaves at most half of the positions. That over a span in `SplitRowSpans` has one more than
-- the rows of the span, and a round cuts off a row at least, so it does not run out. The caller of
-- `copy_chunk_array` and of `gather_chunk_array` gives the fuel; as much as the chunk has elements
-- suffices.
--
-- What casacore answers is a parameter: `Column` holds the queries that the code makes of a table
-- column and its description, `CellStore` is the interface of `setShape` with what it promises, and
-- `IPosition::product` is an argument of the definitions that use it. What functors and casacore
-- answer on the threads of a table are arguments as well. The thread pools are Arrow's: a pool of one
-- thread runs the jobs it holds one after the other, and their order is not assumed. An extent behind
-- the last one of a cell, which `MakeWrite` may read, is the argument `beyond`; what is read outside
-- of the spans of a selection is an index that no caller gives. Of Arrow's constructors of list arrays
-- the model has what the code relies on (`Lists` in Arrow/Make), with the failure of lists of fixed
-- size that do not share out the values evenly. An Arrow array of lists may be a slice of its values.
--
-- Not modelled: the calls of casacore that read and write, the allocation of Arrow buffers, opening
-- and describing tables, which are calls of casacore too, the options, and the bindings for Python. Of
-- `IsolatedTableProxy`, `Spawn` and the release of the pools are left out.
pub mod Prelude
pub mod Selection
pub mod Partition
pub mod Shape
pub mod Arrow
pub mod Write
pub mod Transfer
pub mod Pool
