-- ===== src/Selection/Tests.antt =====
-- Selections of two dimensions, as cpp/tests/selection_test.cc builds them.
use arcae.Prelude.{get_elem?, ◌≤◌, ◌≡◌, refl, ◌↔◌, ◌≢◌, List, [], ◌∷◌, some, arith, pos, ok}
use arcae.Selection.{Index, Selection, size, c_span, f_span_of, maybe_f_span, from_init, from_args}
use arcae.Selection.Spans.{c_span-f_span_of, maybe_f_span-some_iff}
use arcae.Selection.Builder.{c_span-from_init, maybe_f_span-from_args}

abbrev rows : Index
rows = pos 4 ∷ pos 2 ∷ []

abbrev channels : Index
channels = pos 1 ∷ pos 2 ∷ pos 3 ∷ []

abbrev two_dims : List Index
two_dims = rows ∷ channels ∷ []

rows_first : (from_init two_dims).spans ≡ channels ∷ rows ∷ []
unfolding from_init arcae.Selection.build arcae.Selection.process_args arcae.Selection.add_index
    arcae.Selection.new_builder
rows_first = refl

c_span-f_span_of_example : c_span (from_init two_dims) 0 ≡ f_span_of (from_init two_dims) 2 3
c_span-f_span_of_example = c_span-f_span_of (from_init two_dims) 0 3 (omega arith)

maybe_f_span-some_iff_example :
    (maybe_f_span (record { indices = []; spans = rows ∷ [] }) 1 2 ≡ some rows)
    ↔ ((2 ≤ 2) × (get_elem? (rows ∷ []) 0 ≡ some rows) × (rows ≢ []))
maybe_f_span-some_iff_example =
    maybe_f_span-some_iff (record { indices = []; spans = rows ∷ [] }) 1 2 rows

c_span-from_init_example : c_span (from_init two_dims) 1 ≡ ok channels
c_span-from_init_example = c_span-from_init two_dims 1

maybe_f_span-from_args_example : maybe_f_span (from_args two_dims) 1 2 ≡ some channels
maybe_f_span-from_args_example = maybe_f_span-from_args two_dims 1
