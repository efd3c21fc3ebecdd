-- ===== src/Selection/Spans.antt =====
-- The lookups of a selection: `IsValid`, `CSpan`, `MaybeFSpan`, `FSpan` and `GetRowSpan`.
use arcae.Prelude.{
  List, ◌∷◌, length, get_elem?, zero, suc, some, ap, ℕ, ◌+◌, ◌-◌, ◌≤◌, ◌<◌, ◌≡◌, ◌↔◌, ◌≢◌, none,
  some, [], arith, get_or, if◌then◌else◌,
}
use arcae.Selection.{
  Index, outside, Selection, size, has_row_span, get_row_span, c_span, maybe_f_span, f_span_of,
}

-- In an array that has the dimension, the C-ordered and the FORTRAN-ordered lookup of the same
-- dimension give the same answer: a span, or an index error.
pub c_span-f_span_of :
    (s : Selection) (cdim ndim : ℕ)
    → cdim < ndim
    → c_span s cdim ≡ f_span_of s (ndim - cdim - 1) ndim
unfolding c_span f_span_of maybe_f_span
c_span-f_span_of s cdim ndim h = ground (arith)

outside-span :
    (spans : List Index) (i : ℕ) (span : Index)
    → i < length spans
    → (get_or spans i outside ≡ span) ↔ (get_elem? spans i ≡ some span)
outside-span [] i span l = absurd (omega arith)
outside-span (first ∷ spans) zero span l = (λ e. ap some e, λ e. cc)
outside-span (first ∷ spans) (suc i) span l = outside-span spans i span (omega arith)

get_elem?-inside :
    (spans : List Index) (i : ℕ) (span : Index) → get_elem? spans i ≡ some span → i < length spans
get_elem?-inside [] i span e = absurd cc
get_elem?-inside (first ∷ spans) zero span e = omega arith
get_elem?-inside (first ∷ spans) (suc i) span e =
    let rest = get_elem?-inside spans i span e in omega arith

-- A dimension of an array has the selection `span` exactly when it is, counted from the row dimension,
-- one of those of the selection, `span` is what the selection holds there, and it is not empty. It is
-- never read outside of the spans that there are.
pub maybe_f_span-some_iff :
    (s : Selection) (fdim ndim : ℕ) (span : Index)
    → (maybe_f_span s fdim ndim ≡ some span) ↔ (
        (ndim ≤ fdim + size s)
        × (get_elem? s.spans (fdim + size s - ndim) ≡ some span)
        × (span ≢ []))
unfolding maybe_f_span
maybe_f_span-some_iff s fdim ndim span = (
  λ h.
      let place = fdim + size s - ndim in
      let found = outside-span s.spans place span in
      (ground arith, (found (ground arith)).0 (ground arith), ground arith),
  λ (low, there, some_there).
      let place = fdim + size s - ndim in
      let inside = get_elem?-inside s.spans place span there in
      let same = (outside-span s.spans place span inside).1 there in ground arith,
)

pub maybe_f_span-row :
    (s : Selection) (ndim : ℕ)
    → 0 < ndim
    → maybe_f_span s (ndim - 1) ndim ≡ (if has_row_span s then some (get_row_span s) else none)
unfolding maybe_f_span has_row_span
maybe_f_span-row s ndim h = ground arith
