-- ===== src/Selection/Builder.antt =====
-- The builder of selections: which argument is the selection of which dimension.
use arcae.Prelude.{
  ℕ, ◌-◌, ◌≡◌, refl, sym, ap, ◌∙◌, none, some, List, [], ◌∷◌, ◌++◌, append_assoc, append-nil,
  reverse, arith, length, is_empty, get_or, length-reverse, get_or-reverse, get_or_outside,
  get_or_default, arith, if◌then◌else◌, ok, err, index_error,
}
use arcae.Selection.{
  outside, f_order, Index, SelectionBuilder, c_span, maybe_f_span, process_args, from_args,
  from_init, build, set_order, new_builder, add_index, ordered, c_order,
}

spans-process_args :
    (args : List Index) (b : SelectionBuilder) → (process_args args b).spans ≡ b.spans ++ args
unfolding process_args add_index
spans-process_args [] b = sym (append-nil b.spans)
spans-process_args (ids ∷ rest) b =
    spans-process_args rest (add_index ids b) ∙ append_assoc b.spans (ids ∷ []) rest

order-process_args :
    (args : List Index) (b : SelectionBuilder) → (process_args args b).order ≡ b.order
unfolding process_args add_index
order-process_args [] b = refl
order-process_args (ids ∷ rest) b = order-process_args rest (add_index ids b)

spans-from_args : (args : List Index) → (from_args args).spans ≡ args
unfolding from_args build set_order new_builder
spans-from_args args = spans-process_args args new_builder

spans-from_init : (lists : List Index) → (from_init lists).spans ≡ reverse lists
unfolding from_init build new_builder
spans-from_init lists =
    rw (order-process_args lists start, ordered) (ap reverse (spans-process_args lists start))
  where
    start : SelectionBuilder
    start = record { indices = []; spans = []; order = c_order }

-- `from_init` reads its lists in C order: list `i` is the selection of the C-ordered dimension `i`,
-- which has none if the list is empty or there is no such list.
pub c_span-from_init :
    (lists : List Index) (cdim : ℕ)
    → c_span (from_init lists) cdim
      ≡ (if is_empty (get_or lists cdim []) then err index_error else ok (get_or lists cdim []))
unfolding c_span
c_span-from_init lists cdim = rw (spans-from_init lists) (
    ground (
      arith,
      length-reverse lists,
      get_or-reverse lists (length lists - cdim - 1) outside,
      get_or_default lists cdim outside [],
      get_or_outside lists cdim [],
    ))

-- `from_args` reads its arguments in FORTRAN order: argument `i` is the selection of the
-- FORTRAN-ordered dimension `i` of an array of as many dimensions.
pub maybe_f_span-from_args :
    (args : List Index) (fdim : ℕ)
    → maybe_f_span (from_args args) fdim (length args)
      ≡ (if is_empty (get_or args fdim []) then none else some (get_or args fdim []))
unfolding maybe_f_span
maybe_f_span-from_args args fdim =
    rw (spans-from_args args)
      (ground (arith, get_or_outside args fdim [], get_or_default args fdim outside []))

-- In FORTRAN order the selection has the spans as they were added.
pub build-f_order : (b : SelectionBuilder) → b.order ≡ f_order → (build b).spans ≡ b.spans
unfolding build ordered
build-f_order b e = ap (λ order. ordered order b.spans) e
