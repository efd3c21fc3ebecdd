-- ===== src/Shape/Missing/Rebuild.antt =====
-- The selection that is rebuilt: which indices each dimension has.
use arcae.Prelude.{
  get_or_default, ltb→lt, ltb→ge, ℕ, zero, suc, ◌+◌, ◌-◌, ◌<◌, ◌≤◌, ◌≡◌, refl, sym, ap, ◌∙◌, Bool,
  true, false, Option, none, some, [], ◌∷◌, ◌++◌, append_assoc, append-nil, map, length, iota,
  get_or, get_or-append_left, get_or-append_right, get_or-map-iota, length-map, length-iota,
  length-snoc, is_empty, ltb, if◌then◌else◌, arith, Bool-cases, inl, inr,
}
use arcae.Selection.{
  outside, Index, Selection, SelectionBuilder, size, maybe_f_span, has_row_span, get_row_span,
  new_builder, set_order, add_index, add_empty,
}
use arcae.Selection.Builder.{build-f_order}
use arcae.Shape.{IPosition}
use arcae.Shape.Missing.{padded, rebuild_dim, rebuild_dims, rebuild_rows, rebuild_selection}

-- The indices of a dimension: those selected before, the padded ones, or none for all of them.
abbrev pub dim_ids : Selection → IPosition → IPosition → ℕ → Index
dim_ids selection result_shape extent dim =
    elim (maybe_f_span selection dim (length result_shape + 1)) [
      | some span ↦ span
      | none ↦
          if ltb (get_or extent dim 0) (get_or result_shape dim 0)
          then padded (get_or extent dim 0) (get_or result_shape dim 0)
          else []
    ]

-- The rows that are given, or else those selected before.
abbrev pub row_ids : Selection → Option Index → Index
row_ids selection (some rows) = rows
row_ids selection none = if has_row_span selection then get_row_span selection else []

module _ (selection : Selection) (result_shape extent : IPosition) where
  spans-rebuild_dim :
      (dim : ℕ) (b : SelectionBuilder)
      → (rebuild_dim selection result_shape extent dim b).spans
        ≡ b.spans ++ dim_ids selection result_shape extent dim ∷ []
  unfolding rebuild_dim add_index add_empty
  spans-rebuild_dim dim b =
      by_span (maybe_f_span selection dim (length result_shape + 1))
        (ltb (get_or extent dim 0) (get_or result_shape dim 0))
    where
      by_span :
          (found : Option Index) (smaller : Bool)
          → (elim found as (λ _. SelectionBuilder) [
            | some span ↦ add_index span b
            | none ↦
                if smaller
                then add_index (padded (get_or extent dim 0) (get_or result_shape dim 0)) b
                else add_empty b
          ]).spans
            ≡ b.spans
              ++ (elim found as (λ _. Index) [
                | some span ↦ span
                | none ↦
                    if smaller then padded (get_or extent dim 0) (get_or result_shape dim 0) else []
              ])
                ∷ []
      by_span (some span) smaller = refl
      by_span none true = refl
      by_span none false = refl

  order-rebuild_dim :
      (dim : ℕ) (b : SelectionBuilder)
      → (rebuild_dim selection result_shape extent dim b).order ≡ b.order
  unfolding rebuild_dim add_index add_empty
  order-rebuild_dim dim b =
      by_span (maybe_f_span selection dim (length result_shape + 1))
        (ltb (get_or extent dim 0) (get_or result_shape dim 0))
    where
      by_span :
          (found : Option Index) (smaller : Bool)
          → (elim found as (λ _. SelectionBuilder) [
            | some span ↦ add_index span b
            | none ↦
                if smaller
                then add_index (padded (get_or extent dim 0) (get_or result_shape dim 0)) b
                else add_empty b
          ]).order
            ≡ b.order
      by_span (some span) smaller = refl
      by_span none true = refl
      by_span none false = refl

  rebuilt_dims :
      (rounds dim : ℕ) (b : SelectionBuilder)
      → ((rebuild_dims selection result_shape extent rounds dim b).spans
          ≡ b.spans ++ map (dim_ids selection result_shape extent) (iota dim rounds))
        × ((rebuild_dims selection result_shape extent rounds dim b).order ≡ b.order)
  unfolding rebuild_dims
  rebuilt_dims zero dim b = (sym (append-nil b.spans), refl)
  rebuilt_dims (suc rounds) dim b =
      let next = rebuild_dim selection result_shape extent dim b in
      let later = rebuilt_dims rounds (suc dim) next in
      (
        later.0
            ∙ ap (λ l. l ++ map (dim_ids selection result_shape extent) (iota (suc dim) rounds))
                (spans-rebuild_dim dim b)
            ∙ append_assoc b.spans (dim_ids selection result_shape extent dim ∷ []) _,
        later.1 ∙ order-rebuild_dim dim b,
      )

rebuilt_rows :
    (selection : Selection) (rows : Option Index) (b : SelectionBuilder)
    → ((rebuild_rows selection rows b).spans ≡ b.spans ++ row_ids selection rows ∷ [])
      × ((rebuild_rows selection rows b).order ≡ b.order)
unfolding rebuild_rows add_index add_empty
rebuilt_rows selection (some rows) b = (refl, refl)
rebuilt_rows selection none b = by_rows (has_row_span selection)
  where
    by_rows :
        (has_span : Bool)
        → ((if has_span then add_index (get_row_span selection) b else add_empty b).spans
            ≡ b.spans ++ (if has_span then get_row_span selection else []) ∷ [])
          × ((if has_span then add_index (get_row_span selection) b else add_empty b).order
              ≡ b.order)
    by_rows true = (refl, refl)
    by_rows false = (refl, refl)

pub spans-rebuild_selection :
    (selection : Selection) (result_shape extent : IPosition) (rows : Option Index)
    → (rebuild_selection selection result_shape extent rows).spans
      ≡ map (dim_ids selection result_shape extent) (iota 0 (length result_shape))
        ++ row_ids selection rows ∷ []
unfolding rebuild_selection set_order new_builder
spans-rebuild_selection selection result_shape extent rows =
    let start : SelectionBuilder = set_order true new_builder in
    let dims = rebuild_dims selection result_shape extent (length result_shape) 0 start in
    let of_dims = rebuilt_dims selection result_shape extent (length result_shape) 0 start in
    let of_rows = rebuilt_rows selection rows dims in
    build-f_order (rebuild_rows selection rows dims) (of_rows.1 ∙ of_dims.1)
    ∙ of_rows.0
    ∙ ap (λ l. l ++ row_ids selection rows ∷ []) of_dims.0

-- A selection of `n + 1` dimensions.
maybe_f_span-get :
    (s : Selection) (n dim : ℕ) (ids : Index)
    → size s ≡ n + 1
    → dim < n + 1
    → get_or s.spans dim [] ≡ ids
    → maybe_f_span s dim (n + 1) ≡ (if is_empty ids then none else some ids)
unfolding maybe_f_span
maybe_f_span-get s n dim ids e l g =
    let at : dim + size s - (n + 1) ≡ dim = omega arith in
    let there : get_or s.spans dim outside ≡ ids =
      get_or_default s.spans dim outside [] (omega (arith, e, l)) ∙ g in
    rw (at, there) (ground arith)

-- Of the dimensions of the cells, one that has a selection keeps it, one in which the extent is less
-- than the result has the indices of the extent and then -1 for the rest of the result, and any other
-- has no selection. The rows are those given, or else those of the selection before. An index list
-- that is empty is no selection.
pub maybe_f_span-rebuild_selection :
    (selection : Selection) (result_shape extent : IPosition) (rows : Option Index) (dim : ℕ)
    → dim ≤ length result_shape
    → maybe_f_span
        (rebuild_selection selection result_shape extent rows)
        dim
        (length result_shape + 1)
      ≡ (let ids =
            if ltb dim (length result_shape)
            then dim_ids selection result_shape extent dim
            else row_ids selection rows in
          if is_empty ids then none else some ids)
maybe_f_span-rebuild_selection selection result_shape extent rows dim l =
    let spans = spans-rebuild_selection selection result_shape extent rows in
    let dims = map (dim_ids selection result_shape extent) (iota 0 (length result_shape)) in
    let count : length dims ≡ length result_shape =
      length-map (iota 0 (length result_shape)) _ ∙ length-iota 0 (length result_shape) in
    maybe_f_span-get (rebuild_selection selection result_shape extent rows) (length result_shape)
      dim _ (ap length spans ∙ omega (arith, length-snoc dims (row_ids selection rows), count))
      (omega arith)
      (ap (λ l. get_or l dim []) spans ∙ elim (Bool-cases (ltb dim (length result_shape))) [
        | inl inside ↦
            let small = ltb→lt dim (length result_shape) inside in
            get_or-append_left dims (row_ids selection rows ∷ []) dim [] (omega (arith, count))
            ∙ get_or-map-iota (dim_ids selection result_shape extent) 0 (length result_shape) dim []
                small
            ∙ ap (dim_ids selection result_shape extent) (omega arith)
            ∙ sym (
                ap
                  (λ (b : Bool).
                    if b then dim_ids selection result_shape extent dim else row_ids selection rows)
                  inside)
        | inr outside ↦
            let large = ltb→ge dim (length result_shape) outside in
            let last : dim ≡ length dims + 0 = omega (arith, count) in
            ap (λ i. get_or (dims ++ row_ids selection rows ∷ []) i []) last
            ∙ get_or-append_right dims (row_ids selection rows ∷ []) 0 []
            ∙ sym (
                ap
                  (λ (b : Bool).
                    if b then dim_ids selection result_shape extent dim else row_ids selection rows)
                  outside)
      ])
