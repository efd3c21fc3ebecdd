-- ===== src/Partition/Product/Contiguous.antt =====
-- The chunks that are flagged as contiguous in memory.
use mathlib.Core.Path.{subst₂}
use arcae.Prelude.{
  ℕ, zero, suc, ◌-◌, ◌*◌, ◌<◌, ◌≡◌, refl, sym, ap, ◌∙◌, subst, Bool, true, false, ◌&&◌, some, List,
  [], ◌∷◌, ◌++◌, map, append-nil, append_assoc, arith, length, get_or, get_elem?, set, replicate,
  iota, length-append, product, All, Bool-cases, inl, inr, ltb,
}
use arcae.Prelude.Choices.{bind, choices}
use arcae.Partition.{SpanPair, SpanPairs, no_span}
use arcae.Partition.Product.{
  is_counted, is_rising, is_memory_contiguous, secondary_dimensions_contiguous, mark, mark_rows,
  stride_of, cartesian_product,
}
use arcae.Partition.Product.Order.{dim_spans-choices}

-- The memory indices of a chunk follow one another: those of each dimension but the last start at 0.
abbrev pub IsContiguous : SpanPairs → Type 0
IsContiguous [] = Unit
IsContiguous (rows ∷ []) = (start : ℕ) × (rows.mem ≡ iota start (length rows.mem))
IsContiguous (spans ∷ next ∷ rest) =
    (spans.mem ≡ iota 0 (length spans.mem)) × IsContiguous (next ∷ rest)

is_counted-iota : (i : ℕ) (mem : List ℕ) → is_counted i mem ≡ true → mem ≡ iota i (length mem)
unfolding is_counted
is_counted-iota i [] h = refl
is_counted-iota i (m ∷ mem) h = ground (arith, is_counted-iota (suc i) mem)

is_rising-iota :
    (mem : List ℕ) → is_rising mem ≡ true → (start : ℕ) × (mem ≡ iota start (length mem))
unfolding is_rising
is_rising-iota [] h = (0, refl)
is_rising-iota (m ∷ mem) h = (m, from m mem h)
  where
    from : (m : ℕ) (mem : List ℕ) → is_rising (m ∷ mem) ≡ true → m ∷ mem ≡ iota m (suc (length mem))
    from m [] h = refl
    from m (n ∷ mem) h =
        let e : n ≡ suc m = ground arith in
        ap (◌∷◌ m) (from n mem (ground arith) ∙ ap (λ k. iota k (suc (length mem))) e)

abbrev rows_of : List SpanPairs → SpanPairs
rows_of dims = get_or dims (length dims - 1) []

abbrev firsts : List SpanPairs → SpanPairs
firsts [] = []
firsts (rows ∷ []) = []
firsts (spans ∷ next ∷ rest) = get_or spans 0 no_span ∷ firsts (next ∷ rest)

-- Each dimension has a sub-span.
abbrev pub HaveSpans : List SpanPairs → Type 0
HaveSpans = All (λ (spans : SpanPairs). 0 < length spans)

one_span :
    (spans : SpanPairs)
    → 0 < length spans
    → ltb 1 (length spans) ≡ false
    → spans ≡ get_or spans 0 no_span ∷ []
one_span [] h k = absurd (omega arith)
one_span (x ∷ []) h k = refl
one_span (x ∷ y ∷ spans) h k = absurd (ground arith)

and_left : (a b : Bool) → (a && b) ≡ true → a ≡ true
and_left a b h = ground arith

rows_of_next :
    (spans next : SpanPairs) (rest : List SpanPairs)
    → rows_of (spans ∷ next ∷ rest) ≡ rows_of (next ∷ rest)
rows_of_next spans next rest =
    let e : suc (suc (length rest)) - 1 ≡ suc (length rest) = omega arith in
    let e' : suc (length rest) - 1 ≡ length rest = omega arith in rw (e, e')

rows-singles :
    (rows : SpanPairs) → bind rows (λ x. map (◌∷◌ x) ([] ∷ [])) ≡ map (λ row. row ∷ []) rows
rows-singles [] = refl
rows-singles (x ∷ rows) = ap (◌∷◌ (x ∷ [])) (rows-singles rows)

cons-rows :
    (x : SpanPair) (heads rows : SpanPairs)
    → map (◌∷◌ x) (map (λ row. heads ++ row ∷ []) rows) ≡ map (λ row. x ∷ (heads ++ row ∷ [])) rows
cons-rows x heads [] = refl
cons-rows x heads (row ∷ rows) = ap (◌∷◌ (x ∷ (heads ++ row ∷ []))) (cons-rows x heads rows)

-- There is a chunk for each sub-span of the rows, and the loop over the flags visits one by one.
abbrev FollowsRows : List SpanPairs → Type 0
FollowsRows dims =
    (choices dims ≡ map (λ row. firsts dims ++ row ∷ []) (rows_of dims))
    × (stride_of dims ≡ 1)
    × (product (map length dims) ≡ length (rows_of dims))

single-FollowsRows :
    (x : SpanPair) (next : SpanPairs) (rest : List SpanPairs)
    → FollowsRows (next ∷ rest)
    → FollowsRows ((x ∷ []) ∷ next ∷ rest)
unfolding stride_of
single-FollowsRows x next rest (order, stride, count) = (
  append-nil (map (◌∷◌ x) (choices (next ∷ rest)))
      ∙ ap (map (◌∷◌ x)) order
      ∙ cons-rows x (firsts (next ∷ rest)) (rows_of (next ∷ rest))
      ∙ ap (map (λ row. x ∷ (firsts (next ∷ rest) ++ row ∷ [])))
          (sym (rows_of_next (x ∷ []) next rest)),
  omega (arith, stride),
  omega (arith, count, ap length (rows_of_next (x ∷ []) next rest)),
)

dims-FollowsRows :
    (first : SpanPairs) (dims : List SpanPairs)
    → HaveSpans (first ∷ dims)
    → secondary_dimensions_contiguous (first ∷ dims) ≡ true
    → FollowsRows (first ∷ dims)
unfolding secondary_dimensions_contiguous stride_of
dims-FollowsRows rows [] h e = (rows-singles rows, refl, omega arith)
dims-FollowsRows spans (next ∷ rest) h e =
    subst (λ s. FollowsRows (s ∷ next ∷ rest)) (sym (one_span spans h.0 (ground arith)))
      (single-FollowsRows (get_or spans 0 no_span) next rest
        (dims-FollowsRows next rest h.1 (ground arith)))

set-middle :
    (before after : List Bool) (a b : Bool)
    → set
        (before ++ a ∷ after)
        (length before)
        (get_or (before ++ a ∷ after) (length before) false && b)
      ≡ before ++ (a && b) ∷ after
set-middle [] after a b = refl
set-middle (x ∷ before) after a b = ap (◌∷◌ x) (set-middle before after a b)

mark_rows-map :
    (before : List Bool) (rows : SpanPairs)
    → mark_rows 1 (length before) rows (before ++ replicate (length rows) true)
      ≡ before ++ map is_memory_contiguous rows
unfolding mark_rows mark
mark_rows-map before [] = refl
mark_rows-map before (row ∷ rows) =
    let flag = is_memory_contiguous row in
    let once : length before * 1 ≡ length before = omega arith in
    let grown : suc (length before) ≡ length (before ++ flag ∷ []) =
      omega (arith, length-append before (flag ∷ [])) in
    rw (once, set-middle before (replicate (length rows) true) true flag, grown)
      (ap (mark_rows 1 (length (before ++ flag ∷ [])) rows)
          (sym (append_assoc before (flag ∷ []) (replicate (length rows) true)))
        ∙ mark_rows-map (before ++ flag ∷ []) rows
        ∙ append_assoc before (flag ∷ []) (map is_memory_contiguous rows))

-- If the secondary dimensions are contiguous, the flags are those of the rows' sub-spans.
contiguous-rows :
    (first : SpanPairs) (dims : List SpanPairs)
    → HaveSpans (first ∷ dims)
    → secondary_dimensions_contiguous (first ∷ dims) ≡ true
    → (cartesian_product (first ∷ dims)).contiguous
      ≡ map is_memory_contiguous (rows_of (first ∷ dims))
unfolding cartesian_product
contiguous-rows first dims h e =
    let (order, stride, count) = dims-FollowsRows first dims h e in
    rw e (
      subst₂
        (λ n s.
          mark_rows s 0 (rows_of (first ∷ dims)) (replicate n true)
          ≡ map is_memory_contiguous (rows_of (first ∷ dims)))
        (sym count) (sym stride) (mark_rows-map [] (rows_of (first ∷ dims))))

contiguous-none :
    (first : SpanPairs) (dims : List SpanPairs)
    → secondary_dimensions_contiguous (first ∷ dims) ≡ false
    → (cartesian_product (first ∷ dims)).contiguous
      ≡ replicate (product (map length (first ∷ dims))) false
unfolding cartesian_product
contiguous-none first dims e = rw e

get_elem?-map {ℓ κ} :
    {A : Type ℓ} {B : Type κ} (f : A → B) (xs : List A) (k : ℕ) {b : B}
    → get_elem? (map f xs) k ≡ some b
    → (a : A) × (get_elem? xs k ≡ some a) × (b ≡ f a)
get_elem?-map f [] k h = cc
get_elem?-map f (x ∷ xs) zero h = (x, refl, cc)
get_elem?-map f (x ∷ xs) (suc k) h = get_elem?-map f xs k h

flag_at :
    (rows : SpanPairs) (k : ℕ) (row : SpanPair)
    → get_elem? rows k ≡ some row
    → get_or (map is_memory_contiguous rows) k false ≡ true
    → is_memory_contiguous row ≡ true
flag_at [] k row h e = cc
flag_at (x ∷ rows) zero row h e = cc
flag_at (x ∷ rows) (suc k) row h e = flag_at rows k row h e

no_flag : (n k : ℕ) → get_or (replicate n false) k false ≡ false
no_flag zero k = refl
no_flag (suc n) zero = refl
no_flag (suc n) (suc k) = no_flag n k

firsts-IsContiguous :
    (first : SpanPairs) (dims : List SpanPairs) (row : SpanPair)
    → secondary_dimensions_contiguous (first ∷ dims) ≡ true
    → is_memory_contiguous row ≡ true
    → IsContiguous (firsts (first ∷ dims) ++ row ∷ [])
unfolding secondary_dimensions_contiguous is_memory_contiguous
firsts-IsContiguous rows [] row e h = is_rising-iota row.mem h
firsts-IsContiguous spans (next ∷ []) row e h =
    (is_counted-iota 0 (get_or spans 0 no_span).mem (ground arith), is_rising-iota row.mem h)
firsts-IsContiguous spans (next ∷ third ∷ rest) row e h = (
  is_counted-iota 0 (get_or spans 0 no_span).mem (ground arith),
  firsts-IsContiguous next (third ∷ rest) row (ground arith) h,
)

-- If each dimension has a sub-span, a chunk that is flagged as contiguous has memory indices that
-- follow one another in every dimension, and start at 0 in all but that of the rows.
pub contiguous-IsContiguous :
    (first : SpanPairs) (dims : List SpanPairs) (k : ℕ) (chunk : SpanPairs)
    → HaveSpans (first ∷ dims)
    → get_elem? (cartesian_product (first ∷ dims)).dim_spans k ≡ some chunk
    → get_or (cartesian_product (first ∷ dims)).contiguous k false ≡ true
    → IsContiguous chunk
contiguous-IsContiguous first dims k chunk h at flag =
    elim (Bool-cases (secondary_dimensions_contiguous (first ∷ dims))) [
      | inl e ↦
          let (row, here, is) =
            get_elem?-map (λ row. firsts (first ∷ dims) ++ row ∷ []) (rows_of (first ∷ dims)) k
              (ap (λ l. get_elem? l k)
                  (sym (dim_spans-choices (first ∷ dims) ∙ (dims-FollowsRows first dims h e).0))
                ∙ at) in
          let flagged : get_or (map is_memory_contiguous (rows_of (first ∷ dims))) k false ≡ true =
            ap (λ l. get_or l k false) (sym (contiguous-rows first dims h e)) ∙ flag in
          subst IsContiguous (sym is) (
            firsts-IsContiguous first dims row e
              (flag_at (rows_of (first ∷ dims)) k row here flagged))
      | inr e ↦ absurd (
          true_or_false
            (sym flag ∙ ap (λ l. get_or l k false) (contiguous-none first dims e) ∙ no_flag _ k))
    ]
  where
    true_or_false : true ≡ false → ⊥
    true_or_false p = cc
