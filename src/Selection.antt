-- ===== src/Selection.antt =====
-- cpp/arcae/selection.h: the selection of indices in each dimension, and its builder.
pub mod Spans
pub mod Builder
mod Tests
use arcae.Prelude.{
  ℕ, ◌+◌, ◌-◌, Bool, true, false, ◌&&◌, not, Option, none, some, List, [], ◌∷◌, ◌++◌, reverse,
  length, is_empty, get_or, leb, ltb, if◌then◌else◌, ℤ, negsuc, Result, ok, err, index_error,
}

-- A vector of indices, or a span over one. A negative index marks an element that is not read.
abbrev pub Index : Type 0
Index = List ℤ

-- `indices` are the vectors that the selection owns; a span shows one of them or a vector of the
-- caller. Dimensions are in FORTRAN order, the row dimension last.
pub record Selection : Type 0 where
  pub indices : List Index
  pub spans : List Index

unfoldable pub empty_selection : Selection
empty_selection = record { indices = []; spans = [] }

-- What a read outside of `spans` is here. It has an index, so that a test of the bounds that is missing
-- lets it through.
abbrev pub outside : Index
outside = negsuc 0 ∷ []

abbrev pub size : Selection → ℕ
size s = length s.spans

abbrev pub n_indices : Selection → ℕ
n_indices s = length s.indices

unfoldable pub is_valid : Selection → ℕ → Bool
is_valid s dim = ltb dim (size s) && not (is_empty (get_or s.spans dim outside))

all_selected : List Index → Bool
all_selected [] = true
all_selected (span ∷ spans) = not (is_empty span) && all_selected spans

-- `operator bool`.
pub exists : Selection → Bool
unfolding all_selected
exists s = if is_empty s.spans then false else all_selected s.spans

unfoldable pub has_row_span : Selection → Bool
has_row_span s = not (is_empty s.spans) && not (is_empty (get_or s.spans (size s - 1) outside))

abbrev pub get_row_span : Selection → Index
get_row_span s = get_or s.spans (size s - 1) outside

-- The differences of `CSpan` and `MaybeFSpan` are signed: the test that one is not negative is the
-- test that it does not stop at 0 here.
unfoldable pub c_span : Selection → ℕ → Result Index
c_span s cdim =
    let sdim = size s - cdim - 1 in
    if leb (cdim + 1) (size s) && ltb sdim (size s) && not (is_empty (get_or s.spans sdim outside))
    then ok (get_or s.spans sdim outside)
    else err index_error

unfoldable pub maybe_f_span : Selection → ℕ → ℕ → Option Index
maybe_f_span s fdim ndim =
    let sdim = fdim + size s - ndim in
    if leb ndim (fdim + size s) && ltb sdim (size s) && not (is_empty (get_or s.spans sdim outside))
    then some (get_or s.spans sdim outside)
    else none

-- `FSpan(fdim, ndim)`.
unfoldable pub f_span_of : Selection → ℕ → ℕ → Result Index
f_span_of s fdim ndim = elim (maybe_f_span s fdim ndim) [
  | some span ↦ ok span
  | none ↦ err index_error
]

-- `FSpan(fdim)`.
pub f_span : Selection → ℕ → Result Index
f_span s fdim = f_span_of s fdim (size s)

pub data SelectionOrder : Type 0 where
  c_order f_order : SelectionOrder

pub record SelectionBuilder : Type 0 where
  pub indices : List Index
  pub spans : List Index
  pub order : SelectionOrder

unfoldable pub new_builder : SelectionBuilder
new_builder = record { indices = []; spans = []; order = c_order }

ordered : SelectionOrder → List Index → List Index
ordered c_order spans = reverse spans
ordered f_order spans = spans

unfoldable pub build : SelectionBuilder → Selection
unfolding ordered
build b = record { indices = b.indices; spans = ordered b.order b.spans }

-- `Order(char)`, whose argument is `'F'` or not.
unfoldable pub set_order : Bool → SelectionBuilder → SelectionBuilder
set_order is_f b = record b { order = if is_f then f_order else c_order }

unfoldable pub add_empty : SelectionBuilder → SelectionBuilder
add_empty b = record b { spans = b.spans ++ [] ∷ [] }

-- `Add(const IndexSpan&)`, and `Add(const std::vector<T>&)` where T is the index type: no copy.
unfoldable pub add_span : Index → SelectionBuilder → SelectionBuilder
add_span ids b = record b { spans = b.spans ++ ids ∷ [] }

-- `Add(std::vector<T>&&)`, and the `Add` of vectors of other integers and of initializer lists.
unfoldable pub add_index : Index → SelectionBuilder → SelectionBuilder
add_index ids b = record b { indices = b.indices ++ ids ∷ []; spans = b.spans ++ ids ∷ [] }

unfoldable pub process_args : List Index → SelectionBuilder → SelectionBuilder
process_args [] b = b
process_args (ids ∷ rest) b = process_args rest (add_index ids b)

-- Arguments that the selection takes over: vectors that are moved, or initializer lists.
unfoldable pub from_args : List Index → Selection
from_args args = build (set_order true (process_args args new_builder))

-- `for (const auto& il : init_list) builder.Add(il);`
unfoldable pub from_init : List Index → Selection
from_init lists = build (process_args lists new_builder)
