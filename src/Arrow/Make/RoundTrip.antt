-- ===== src/Arrow/Make/RoundTrip.antt =====
-- The shape of the array that is made of a result of one shape is the shape of the result.
use arcae.Prelude.{
  ◌≢◌, ℕ, ◌+◌, ◌≡◌, refl, Bool, true, false, none, some, List, [], ◌∷◌, ◌++◌, length, pos, ok,
  fail_if, type_error,
}
use arcae.Shape.{IPosition, Column, ResultShapeData}
use arcae.Arrow.{ArrowArray}
use arcae.Arrow.Shape.{Nesting, nesting_loop}
use arcae.Arrow.Make.{TypeKind, string_kind, complex_kind, primitive_kind, unhandled_kind}

-- What the loop has found below a level.
found : Nesting → List ℕ → Nesting
found st dims = record {
  fixed_shape = true;
  shape = st.shape ++ dims;
  ndim = st.ndim + length dims;
}

-- Lists of one length throughout: the loop finds `dims`, the outermost first.
abbrev Finds : ArrowArray → List ℕ → Type 0
Finds data_array dims =
    (st : Nesting) → st.fixed_shape ≡ true → nesting_loop data_array st ≡ ok (found st dims)

-- Dimensions put around the ones found before.
abbrev around : List ℕ → List ℕ → List ℕ
around [] dims = dims
around (size ∷ sizes) dims = around sizes (size ∷ dims)

-- A result of `rows` cells of one shape.
abbrev pub one_shape : Column → IPosition → ℕ → ResultShapeData
one_shape column cell rows = record {
  fixed_shape = some (cell ++ rows ∷ []);
  ndim = pos (length cell + 1);
  dtype = column.data_type;
  row_shapes = none;
  cell_extents = none;
}

-- The dimension of the pairs that make a complex number.
abbrev pub pair_dims : TypeKind → List ℕ
pair_dims complex_kind = 2 ∷ []
pair_dims _ = []

abbrev pub is_complex_kind : TypeKind → Bool
is_complex_kind complex_kind = true
is_complex_kind _ = false

pub is_handled :
    (kind : TypeKind)
    → kind ≢ unhandled_kind
    → fail_if (elim kind [ unhandled_kind ↦ true | _ ↦ false ]) type_error ≡ ok tt
is_handled string_kind h = refl
is_handled complex_kind h = refl
is_handled primitive_kind h = refl
is_handled unhandled_kind h = absurd (h refl)
