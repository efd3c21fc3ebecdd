-- ===== src/Shape/Negate/Rows.antt =====
-- The rows of the selection that comes back.
use arcae.Prelude.{
  ℕ, ◌+◌, ◌-◌, ◌<◌, ◌≡◌, refl, sym, ap, subst, ◌∙◌, Bool, true, false, ◌&&◌, not, Option, none,
  some, List, [], ◌∷◌, ◌++◌, append_assoc, append-nil, map, length, iota, All, get_or,
  get_or-append_right, is_empty, length-snoc, leb, if◌then◌else◌, arith, Bool-cases, ◌==◌, fail_if,
  index_error, take, inl, inr, ℤ, pos, negsuc, ok, >>=-eq-ok,
}
use arcae.Selection.{outside, Index, Selection, has_row_span}
use arcae.Shape.{IPosition, Column, ResultShapeData, eqb_shape, n_rows}
use arcae.Shape.Missing.{validate_cell_shape, rebuild_selection}
use arcae.Shape.Missing.Rebuild.{spans-rebuild_selection, row_ids}
use arcae.Shape.Negate.{
  Negation, no_negation, start_extents, end_row, negate_defined, negate_row, negate_rows,
  negated_selection, negate_varied, negate_cells, negate_missing_selected_rows, rows_of,
  final_extent, row_extent, keep_extents,
}

-- A row that has no cell is not read.
abbrev pub negated : Column → ℤ → ℤ
negated column (negsuc n) = negsuc n
negated column (pos r) = if column.is_defined r then pos r else negsuc 0

-- A row that is not below zero is a row of the column.
abbrev pub IsRow : Column → ℤ → Type 0
IsRow column (negsuc n) = Unit
IsRow column (pos r) = r < column.nrow

-- Some row has no cell.
abbrev pub any_undefined : Column → Index → Bool
any_undefined column [] = false
any_undefined column (negsuc n ∷ rest) = any_undefined column rest
any_undefined column (pos r ∷ rest) =
    if column.is_defined r then any_undefined column rest else true

pub start_extents-kept :
    (extent : IPosition) (i : ℕ) (common : Option IPosition) (extents : Option (List IPosition))
    (st : Negation)
    → ((start_extents extent i common extents st).rows ≡ st.rows)
      × ((start_extents extent i common extents st).rows_modified ≡ st.rows_modified)
start_extents-kept extent i none extents st = (refl, refl)
start_extents-kept extent i (some common) (some extents) st = (refl, refl)
start_extents-kept extent i (some common) none st = ground arith

module _ (column : Column) where
  -- What the rounds for `rest` make of the rows and of the mark.
  abbrev Passed : Index → Negation → Negation → Type 0
  Passed rest st after =
      (after.rows ≡ st.rows ++ map (negated column) rest)
      × (after.rows_modified ≡ (if st.rows_modified then true else any_undefined column rest))
      × All (IsRow column) rest

  Passed-extend :
      (r : ℤ) (st middle after : Negation) (rest : Index)
      → Passed (r ∷ []) st middle
      → Passed rest middle after
      → Passed (r ∷ rest) st after
  Passed-extend r st middle after rest h k = (
    k.0
        ∙ ap (λ rows. rows ++ map (negated column) rest) h.0
        ∙ append_assoc st.rows (negated column r ∷ []) _,
    k.1
        ∙ ap (λ (b : Bool). if b then true else any_undefined column rest) h.1
        ∙ marks r st.rows_modified,
    (h.2.0, k.2),
  )
    where
      marks :
          (r : ℤ) (old : Bool)
          → (if (if old then true else any_undefined column (r ∷ []))
              then true
              else any_undefined column rest)
            ≡ (if old then true else any_undefined column (r ∷ rest))
      marks r true = refl
      marks (negsuc n) false = refl
      marks (pos r) false = ground arith

module _ (column : Column) (selection : Selection) (shape : IPosition) where
  negate_defined-Passed :
      (r : ℕ) (defined : Bool) (st after : Negation)
      → r < column.nrow
      → column.is_defined r ≡ defined
      → negate_defined column selection shape r defined st ≡ ok after
      → Passed column (pos r ∷ []) st after
  unfolding negate_defined
  negate_defined-Passed r true st after l e h =
      let (u, valid, h') = >>=-eq-ok (validate_cell_shape (column.shape r) shape selection) _ h in
      let kept =
        start_extents-kept (row_extent column selection shape r) (length st.rows) st.common_extent
          st.cell_extents st in
      let same : end_row (pos r) (row_extent column selection shape r) (
            start_extents (row_extent column selection shape r) (length st.rows) st.common_extent
              st.cell_extents st)
          ≡ after =
        cc in
      subst (Passed column (pos r ∷ []) st) same
        (rw (e, kept.0) refl, rw (e, kept.1) (ground arith), (l, tt))
  negate_defined-Passed r false st after l e h =
      let same : end_row (negsuc 0) shape (record st { rows_modified = true }) ≡ after = cc in
      subst (Passed column (pos r ∷ []) st) same (rw e refl, rw e (ground arith), (l, tt))

  negate_row-Passed :
      (r : ℤ) (st after : Negation)
      → negate_row column selection shape r st ≡ ok after
      → Passed column (r ∷ []) st after
  unfolding negate_row
  negate_row-Passed (negsuc n) st after h =
      let same : end_row (negsuc n) shape st ≡ after = cc in
      subst (Passed column (negsuc n ∷ []) st) same (refl, ground arith, (tt, tt))
  negate_row-Passed (pos r) st after h = elim (Bool-cases (leb column.nrow r)) [
    | inl large ↦ absurd (grind arith)
    | inr small ↦
        negate_defined-Passed r (column.is_defined r) st after (ground arith) refl (grind arith)
  ]

  negate_rows-Passed :
      (rows : Index) (st after : Negation)
      → negate_rows column selection shape rows st ≡ ok after
      → Passed column rows st after
  unfolding negate_rows
  negate_rows-Passed [] st after h =
      let same : st ≡ after = cc in
      subst (Passed column [] st) same (sym (append-nil st.rows), ground arith, tt)
  negate_rows-Passed (r ∷ rest) st after h =
      let (middle, first, h') = >>=-eq-ok (negate_row column selection shape r st) _ h in
      Passed-extend column r st middle after rest (negate_row-Passed r st middle first)
        (negate_rows-Passed rest middle after h')

snoc-some : (dims : List Index) (span : Index) → is_empty (dims ++ span ∷ []) ≡ false
snoc-some [] span = refl
snoc-some (d ∷ dims) span = refl

get_or-last :
    (dims : List Index) (span : Index)
    → get_or (dims ++ span ∷ []) (length (dims ++ span ∷ []) - 1) outside ≡ span
get_or-last dims span =
    let at : length (dims ++ span ∷ []) - 1 ≡ length dims + 0 =
      omega (arith, length-snoc dims span) in
    ap (λ i. get_or (dims ++ span ∷ []) i outside) at
    ∙ get_or-append_right dims (span ∷ []) 0 outside

-- What the last dimension of a selection whose last span is `span` selects.
last_rows :
    (column : Column) (s : Selection) (dims : List Index) (span : Index)
    → s.spans ≡ dims ++ span ∷ []
    → rows_of column s ≡ (if is_empty span then map pos (iota 0 column.nrow) else span)
unfolding has_row_span
last_rows column s dims span e = rw (e, snoc-some dims span, get_or-last dims span) (by_span span)
  where
    by_span :
        (span : Index)
        → (if true && not (is_empty span) then span else map pos (iota 0 column.nrow))
          ≡ (if is_empty span then map pos (iota 0 column.nrow) else span)
    by_span [] = refl
    by_span (i ∷ span) = refl

rows_of-rebuild_selection :
    (column : Column) (selection : Selection) (shape extent : IPosition) (rows : Option Index)
    → rows_of column (rebuild_selection selection shape extent rows) ≡ (
        if is_empty (row_ids selection rows)
        then map pos (iota 0 column.nrow)
        else row_ids selection rows)
rows_of-rebuild_selection column selection shape extent rows =
    last_rows column _ _ (row_ids selection rows)
      (spans-rebuild_selection selection shape extent rows)

-- The rows that are selected stay the same where the selection before is kept.
row_ids-rows_of :
    (column : Column) (selection : Selection)
    → (if is_empty (row_ids selection none)
        then map pos (iota 0 column.nrow)
        else row_ids selection none)
      ≡ rows_of column selection
unfolding has_row_span
row_ids-rows_of column selection = ground arith

negated_defined :
    (column : Column) (rows : Index)
    → any_undefined column rows ≡ false
    → map (negated column) rows ≡ rows
negated_defined column [] h = refl
negated_defined column (negsuc n ∷ rest) h = ap (◌∷◌ (negsuc n)) (negated_defined column rest h)
negated_defined column (pos r ∷ rest) h = elim (Bool-cases (column.is_defined r)) [
  | inl e ↦ rw e (ap (◌∷◌ (pos r)) (negated_defined column rest (grind arith)))
  | inr e ↦ absurd (grind arith)
]

-- An empty list of rows is no row that is negated.
undefined_some :
    (column : Column) (rows : Index)
    → any_undefined column rows ≡ true
    → is_empty (map (negated column) rows) ≡ false
undefined_some column [] h = cc
undefined_some column (r ∷ rows) h = refl

rows_of-negated_selection :
    (column : Column) (selection : Selection) (shape : IPosition) (st : Negation)
    → Passed column (rows_of column selection) no_negation st
    → rows_of column (negated_selection selection shape st)
      ≡ map (negated column) (rows_of column selection)
unfolding negated_selection
rows_of-negated_selection column selection shape st h =
    elim (Bool-cases (any_undefined column (rows_of column selection))) [
      | inl modified ↦
          ap (λ b. rows_of column (by_mark b)) (h.1 ∙ modified)
          ∙ rows_of-rebuild_selection column selection shape _ (some st.rows)
          ∙ ap (λ (rows : Index). if is_empty rows then map pos (iota 0 column.nrow) else rows) h.0
          ∙ ap
              (λ (b : Bool).
                if b
                then map pos (iota 0 column.nrow)
                else map (negated column) (rows_of column selection))
              (undefined_some column (rows_of column selection) modified)
      | inr same ↦
          ap (λ b. rows_of column (by_mark b)) (h.1 ∙ same)
          ∙ by_extent (eqb_shape (final_extent shape st) shape)
          ∙ sym (negated_defined column (rows_of column selection) same)
    ]
  where
    by_mark : Bool → Selection
    by_mark modified =
        if not modified
        then (if eqb_shape (final_extent shape st) shape
            then selection
            else rebuild_selection selection shape (final_extent shape st) none)
        else rebuild_selection selection shape (final_extent shape st) (some st.rows)

    by_extent :
        (equal : Bool)
        → rows_of column (
            if equal
            then selection
            else rebuild_selection selection shape (final_extent shape st) none)
          ≡ rows_of column selection
    by_extent true = refl
    by_extent false =
        rows_of-rebuild_selection column selection shape (final_extent shape st) none
        ∙ row_ids-rows_of column selection

-- What a call that succeeds has gone through.
pub negate_missing-ok :
    (data_shape : ResultShapeData) (column : Column) (selection negated_rows : Selection)
    (after : ResultShapeData)
    → column.is_fixed_shape ≡ false
    → negate_missing_selected_rows data_shape column selection ≡ ok (negated_rows, after)
    → (shape : IPosition) × (st : Negation) × (data_shape.fixed_shape ≡ some shape)
      × (negate_rows column selection
            (take (length shape - 1) shape)
            (rows_of column selection)
            no_negation
          ≡ ok st)
      × (negated_selection selection (take (length shape - 1) shape) st ≡ negated_rows)
      × (keep_extents st.cell_extents data_shape ≡ after)
unfolding negate_missing_selected_rows negate_cells negate_varied
negate_missing-ok data_shape column selection negated_rows after varied h =
    by_shape data_shape.fixed_shape
      (sym (ap (λ b. negate_cells data_shape column selection b data_shape.fixed_shape) varied) ∙ h)
  where
    by_shape :
        (found : Option IPosition)
        → negate_cells data_shape column selection false found ≡ ok (negated_rows, after)
        → (shape : IPosition) × (st : Negation) × (found ≡ some shape)
          × (negate_rows column selection
                (take (length shape - 1) shape)
                (rows_of column selection)
                no_negation
              ≡ ok st)
          × (negated_selection selection (take (length shape - 1) shape) st ≡ negated_rows)
          × (keep_extents st.cell_extents data_shape ≡ after)
    by_shape none h = absurd cc
    by_shape (some shape) h =
        let rows = rows_of column selection in
        let (u, count, h') =
          >>=-eq-ok (fail_if (not (length rows == n_rows data_shape)) index_error) _ h in
        let (st, loop, h'') =
          >>=-eq-ok (negate_rows column selection (take (length shape - 1) shape) rows no_negation)
            _ h' in
        let same : ◌≡◌ {A = Selection × ResultShapeData}
            (
              negated_selection selection (take (length shape - 1) shape) st,
              keep_extents st.cell_extents data_shape,
            )
            (negated_rows, after) =
          cc in
        (shape, st, refl, loop, ap (λ p. p.0) same, ap (λ p. p.1) same)

-- In a column whose cells vary, each row of the selection that has no cell becomes -1, and the
-- others stay. The call succeeds only where each row that is not below zero is a row of the column.
pub negate_missing-rows :
    (data_shape : ResultShapeData) (column : Column) (selection negated_rows : Selection)
    (after : ResultShapeData)
    → column.is_fixed_shape ≡ false
    → negate_missing_selected_rows data_shape column selection ≡ ok (negated_rows, after)
    → (rows_of column negated_rows ≡ map (negated column) (rows_of column selection))
      × All (IsRow column) (rows_of column selection)
negate_missing-rows data_shape column selection negated_rows after varied h =
    let (shape, st, fixed, loop, same, kept) =
      negate_missing-ok data_shape column selection negated_rows after varied h in
    let cell = take (length shape - 1) shape in
    let passed =
      negate_rows-Passed column selection cell (rows_of column selection) no_negation st loop in
    (
      sym (ap (rows_of column) same) ∙ rows_of-negated_selection column selection cell st passed,
      passed.2,
    )
