-- ===== src/Arrow/Flat.antt =====
-- `GetFlatArray` of cpp/arcae/write_impl.cc: the values below the nesting of an array.
pub mod Length
use arcae.Prelude.{
  ℕ, ◌-◌, Bool, ◌&&◌, ◌||◌, not, Option, none, some, ltb, ◌==◌, if◌then◌else◌, Result, ok, err,
  invalid, not_implemented, ◌>>=◌, ◌>>◌, fail_if,
}
use arcae.Arrow.{ListLevel, ArrowArray, leaf, other, list}

-- `while (true)`.
unfoldable pub get_flat_array : Bool → ArrowArray → Result ArrowArray
get_flat_array nulls (leaf n) = ok (leaf n)
get_flat_array nulls (other n) = err not_implemented
get_flat_array nulls (list level values) =
    fail_if (not nulls && ltb 0 level.null_count) invalid >> get_flat_array nulls values
