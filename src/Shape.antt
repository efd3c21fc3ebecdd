-- ===== src/Shape.antt =====
-- cpp/arcae/result_shape.h and result_shape.cc: the shape of what is read from a column, or written.
pub mod Clip
pub mod Rows
pub mod Read
pub mod Offsets
pub mod Missing
pub mod Negate
mod Tests
use arcae.Prelude.{
  ℕ, Bool, true, false, ◌&&◌, Option, List, [], ◌∷◌, is_empty, ◌==◌, ℤ, none, some, length, get_or,
  ◌-◌, if◌then◌else◌, is_neg, pos_part, Result, err, ok, invalid,
}

-- The extents in FORTRAN order. They are sizes of arrays, so not negative.
abbrev pub IPosition : Type 0
IPosition = List ℕ

-- What the code asks `casacore::TableColumn` and `casacore::ColumnDesc`, which are not part of the
-- repository: each query is an argument of the model. `data_type` is the number of the type.
pub record Column : Type 0 where
  pub nrow : ℕ
  pub is_defined : ℕ → Bool
  pub shape : ℕ → IPosition
  pub is_fixed_shape : Bool
  pub desc_shape : IPosition
  pub desc_ndim : ℤ
  pub data_type : ℕ

abbrev pub is_degenerate_shape : IPosition → Bool
is_degenerate_shape shape = is_empty shape

-- `==` of two shapes.
abbrev pub eqb_shape : IPosition → IPosition → Bool
eqb_shape [] [] = true
eqb_shape [] (n ∷ t) = false
eqb_shape (m ∷ s) [] = false
eqb_shape (m ∷ s) (n ∷ t) = m == n && eqb_shape s t

-- The name of the column, which only messages use, is left out.
pub record ResultShapeData : Type 0 where
  pub fixed_shape : Option IPosition
  pub ndim : ℤ
  pub dtype : ℕ
  pub row_shapes : Option (List IPosition)
  pub cell_extents : Option (List IPosition)

-- `ConsistentNDim`.
abbrev pub consistent_ndim : ResultShapeData → Result ℕ
consistent_ndim data_shape =
    if is_neg data_shape.ndim then err invalid else ok (pos_part data_shape.ndim)

-- The shapes of the rows of a result that has them.
abbrev pub row_shapes_of : ResultShapeData → List IPosition
row_shapes_of data_shape = elim data_shape.row_shapes [ some shapes ↦ shapes | none ↦ [] ]

-- `GetRowShape`.
abbrev pub get_row_shape : ResultShapeData → ℕ → IPosition
get_row_shape data_shape row = get_or (row_shapes_of data_shape) row []

-- `nRows`.
abbrev pub n_rows : ResultShapeData → ℕ
n_rows data_shape = elim data_shape.fixed_shape [
  | some shape ↦ get_or shape (length shape - 1) 0
  | none ↦ length (row_shapes_of data_shape)
]
