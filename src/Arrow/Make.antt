-- ===== src/Arrow/Make.antt =====
-- `MakeArray` of cpp/arcae/read_impl.cc: the Arrow array of a result.
pub mod RoundTrip
pub mod Rows
pub mod Varied
use arcae.Prelude.{
  ℕ, suc, ◌+◌, ◌-◌, ◌*◌, ◌%◌, ◌^◌, ◌/◌, ◌<◌, ◌≡◌, ◌≢◌, Bool, true, false, Option, none, some, List,
  [], ◌∷◌, map, take, length, get_or, iota, Result, ok, err, type_error, invalid, ◌>>=◌, ◌>>◌,
  fail_if,
}
use arcae.Shape.{IPosition, ResultShapeData, consistent_ndim}
use arcae.Shape.Offsets.{n_elements}
use arcae.Arrow.{ListLevel, ArrowArray, leaf, list, array_length}
use arcae.Arrow.Offsets.{get_offsets}

-- `FixedSizeListArray::FromArrays` and `ListArray::FromArrays` of Arrow: they put lists over values.
pub record Lists : Type 0 where
  pub fixed_from_arrays : ArrowArray → ℕ → Result ArrowArray
  pub list_from_arrays : List ℕ → ArrowArray → Result ArrowArray
  -- The values are shared out evenly, or else the call fails.
  pub fixed_lists :
      (values : ArrowArray) (size n : ℕ)
      → 0 < size
      → array_length values ≡ n * size
      → (level : ListLevel) × (fixed_from_arrays values size ≡ ok (list level values))
        × (level.is_fixed_size ≡ true)
        × (level.null_count ≡ 0)
        × (level.length ≡ n)
        × ((i : ℕ) → level.value_length i ≡ size)
  pub fixed_lists_fail :
      (values : ArrowArray) (size : ℕ)
      → 0 < size
      → array_length values % size ≢ 0
      → fixed_from_arrays values size ≡ err invalid
  pub offset_lists :
      (offsets : List ℕ) (values : ArrowArray)
      → 0 < length offsets
      → (level : ListLevel) × (list_from_arrays offsets values ≡ ok (list level values))
        × (level.is_fixed_size ≡ false)
        × (level.null_count ≡ 0)
        × (level.length ≡ length offsets - 1)
        × ((i : ℕ) → level.value_offset i ≡ get_or offsets i 0)
        × ((i : ℕ) → level.value_length i ≡ get_or offsets (suc i) 0 - get_or offsets i 0)

-- `ConvertStrategy`.
pub data ConvertStrategy : Type 0 where
  fixed_strategy list_strategy : ConvertStrategy

-- What the code asks casacore about a data type, in this order: `TpString`, `isComplex`,
-- `IsPrimitiveType`. For any other type there is no Arrow type.
pub data TypeKind : Type 0 where
  string_kind complex_kind primitive_kind unhandled_kind : TypeKind

module _ ⦃lists : Lists⦄ where
  -- The values, as strings that the buffer holds, as pairs, or as they are.
  unfoldable pub base_array : TypeKind → ConvertStrategy → ℕ → ℕ → Result ArrowArray
  base_array string_kind strategy n_strings n = ok (leaf n_strings)
  base_array complex_kind fixed_strategy n_strings n =
      lists.fixed_from_arrays (leaf (2 * n % 2 ^ 64)) 2
  base_array complex_kind list_strategy n_strings n =
      lists.list_from_arrays (map (λ i. 2 * i % 2 ^ 32) (iota 0 (n + 1))) (leaf (2 * n % 2 ^ 64))
  base_array primitive_kind strategy n_strings n = ok (leaf n)
  base_array unhandled_kind strategy n_strings n = err type_error

  -- `for (auto dim : shape)`.
  unfoldable pub nest_fixed : IPosition → ArrowArray → Result ArrowArray
  nest_fixed [] result = ok result
  nest_fixed (dim ∷ shape) result = lists.fixed_from_arrays result dim >>= nest_fixed shape

  -- `for (const auto& offset : offsets)`.
  unfoldable pub nest_lists : List (List ℕ) → ArrowArray → Result ArrowArray
  nest_lists [] result = ok result
  nest_lists (offset ∷ offsets) result = lists.list_from_arrays offset result >>= nest_lists offsets

  unfoldable pub nest :
      ConvertStrategy → Option IPosition → ResultShapeData → ArrowArray → Result ArrowArray
  nest fixed_strategy (some shape) data_shape result =
      consistent_ndim data_shape >>= λ ndim. nest_fixed (take (ndim - 1) shape) result
  nest fixed_strategy none data_shape result =
      get_offsets data_shape >>= λ offsets. nest_lists offsets result
  nest list_strategy shape data_shape result =
      get_offsets data_shape >>= λ offsets. nest_lists offsets result

  -- `strategy` is what `GetConvertStrategy` answers, and `n_strings` the number of strings in the
  -- buffer.
  unfoldable pub make_array :
      (IPosition → ℕ)
      → (ℕ → TypeKind)
      → Result ConvertStrategy
      → ResultShapeData
      → ℕ
      → Result ArrowArray
  make_array shape_product kind_of strategy data_shape n_strings = do
    fail_if (elim (kind_of data_shape.dtype) [ unhandled_kind ↦ true | _ ↦ false ]) type_error
    strategy ← strategy
    result ←
        base_array (kind_of data_shape.dtype) strategy n_strings
          (n_elements shape_product data_shape)
    nest strategy data_shape.fixed_shape data_shape result
