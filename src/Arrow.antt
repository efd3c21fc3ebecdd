-- ===== src/Arrow.antt =====
-- The Arrow arrays that cpp/arcae/result_shape.cc, read_impl.cc and write_impl.cc read and make.
pub mod Shape
pub mod Offsets
pub mod Flat
pub mod Make
mod Tests
use arcae.Prelude.{ℕ, Bool, List, Result}

-- What the code asks an `arrow::ListArray`, `arrow::LargeListArray` or `arrow::FixedSizeListArray`,
-- which are not part of the repository, besides its values.
pub record ListLevel : Type 0 where
  pub is_fixed_size : Bool
  pub length : ℕ
  pub null_count : ℕ
  pub value_length : ℕ → ℕ
  pub value_offset : ℕ → ℕ

-- An array by its type: values of a type that the code accepts (numbers, booleans and strings) or of
-- another one, or lists over an array of values.
pub data ArrowArray : Type 0 where
  leaf : ℕ → ArrowArray
  other : ℕ → ArrowArray
  list : ListLevel → ArrowArray → ArrowArray

-- `array->length()`.
abbrev pub array_length : ArrowArray → ℕ
array_length (leaf n) = n
array_length (other n) = n
array_length (list level values) = level.length
