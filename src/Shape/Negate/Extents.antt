-- ===== src/Shape/Negate/Extents.antt =====
-- The extents of the rows that are read, and the padding of the selection.
use arcae.Prelude.{
  ℕ, ◌+◌, ◌-◌, ◌<◌, ◌≡◌, refl, sym, ap, subst, ◌∙◌, Bool, true, false, not, Option, none, some,
  List, [], ◌∷◌, ◌++◌, length, length-snoc, replicate, All, All-append, is_empty, ltb, leb, lt→ltb,
  if◌then◌else◌, arith, append_assoc, append-nil, Bool-cases, inl, inr, ℤ, pos, negsuc, take,
  get_or, Result, ok, >>=-eq-ok,
}
use arcae.Selection.{outside, Index, Selection, size, maybe_f_span}
use arcae.Shape.{IPosition, Column, ResultShapeData, eqb_shape}
use arcae.Shape.Rows.Summary.{eqb_shape-eq}
use arcae.Shape.Missing.{padded, validate_cell_shape, rebuild_selection}
use arcae.Shape.Missing.Rebuild.{dim_ids, row_ids, maybe_f_span-rebuild_selection}
use arcae.Shape.Negate.{
  Negation, no_negation, start_extents, end_row, push_extent, negate_defined, negate_row,
  negate_rows, negated_selection, negate_missing_selected_rows, rows_of, final_extent, row_extent,
  keep_extents,
}
use arcae.Shape.Negate.Rows.{negate_missing-ok, start_extents-kept}

module _ (column : Column) (selection : Selection) (shape : IPosition) where
  -- If the row is read, `extent` is the extent of its cell.
  abbrev pub HasExtent : ℤ → IPosition → Type 0
  HasExtent (negsuc n) extent = Unit
  HasExtent (pos r) extent =
      column.is_defined r ≡ true → row_extent column selection shape r ≡ extent

  abbrev pub ExtentsOf : Index → List IPosition → Type 0
  ExtentsOf [] [] = Unit
  ExtentsOf (r ∷ rows) (extent ∷ extents) = HasExtent r extent × ExtentsOf rows extents
  ExtentsOf _ _ = ⊥

  abbrev pub Share : Index → IPosition → Type 0
  Share rows extent = All (λ r. HasExtent r extent) rows

  ExtentsOf-snoc :
      (rows : Index) (extents : List IPosition) (r : ℤ) (extent : IPosition)
      → ExtentsOf rows extents
      → HasExtent r extent
      → ExtentsOf (rows ++ r ∷ []) (extents ++ extent ∷ [])
  ExtentsOf-snoc [] [] r extent h k = (k, tt)
  ExtentsOf-snoc [] (e ∷ extents) r extent h k = absurd h
  ExtentsOf-snoc (x ∷ rows) [] r extent h k = absurd h
  ExtentsOf-snoc (x ∷ rows) (e ∷ extents) r extent h k =
      (h.0, ExtentsOf-snoc rows extents r extent h.1 k)

  Share-ExtentsOf :
      (rows : Index) (extent : IPosition)
      → Share rows extent
      → ExtentsOf rows (replicate (length rows) extent)
  Share-ExtentsOf [] extent h = tt
  Share-ExtentsOf (r ∷ rows) extent h = (h.0, Share-ExtentsOf rows extent h.1)

  Share-snoc :
      (rows : Index) (r : ℤ) (extent : IPosition)
      → Share rows extent
      → HasExtent r extent
      → Share (rows ++ r ∷ []) extent
  Share-snoc rows r extent h k = All-append (λ r. HasExtent r extent) rows (r ∷ []) h (k, tt)

  -- What is known after the rounds for `seen`.
  abbrev Known : Index → Option IPosition → Option (List IPosition) → Type 0
  Known seen none none = (extent : IPosition) → Share seen extent
  Known seen (some common) none = Share seen common
  Known seen common (some extents) = ExtentsOf seen extents

  abbrev Holds : Index → Negation → Type 0
  Holds seen st = (length st.rows ≡ length seen) × Known seen st.common_extent st.cell_extents

  Known-unread :
      (seen : Index) (r : ℤ) (common : Option IPosition) (extents : Option (List IPosition))
      → ((extent : IPosition) → HasExtent r extent)
      → Known seen common extents
      → Known (seen ++ r ∷ []) common (push_extent extents shape)
  Known-unread seen r none none any h = λ extent. Share-snoc seen r extent (h extent) (any extent)
  Known-unread seen r (some common) none any h = Share-snoc seen r common h (any common)
  Known-unread seen r none (some extents) any h = ExtentsOf-snoc seen extents r shape h (any shape)
  Known-unread seen r (some common) (some extents) any h =
      ExtentsOf-snoc seen extents r shape h (any shape)

  Known-read :
      (seen : Index) (r : ℤ) (extent : IPosition) (common : Option IPosition)
      (extents : Option (List IPosition)) (st : Negation)
      → HasExtent r extent
      → st.common_extent ≡ common
      → st.cell_extents ≡ extents
      → Known seen common extents
      → let st' = start_extents extent (length seen) common extents st in
        Known (seen ++ r ∷ []) st'.common_extent (push_extent st'.cell_extents extent)
  Known-read seen r extent none none st has e e' h = rw e' (Share-snoc seen r extent (h extent) has)
  Known-read seen r extent none (some extents) st has e e' h =
      rw e' (ExtentsOf-snoc seen extents r extent h has)
  Known-read seen r extent (some common) (some extents) st has e e' h =
      rw (e, e') (ExtentsOf-snoc seen extents r extent h has)
  Known-read seen r extent (some common) none st has e e' h =
      elim (Bool-cases (eqb_shape extent common)) [
        | inl same ↦
            let equal : extent ≡ common = eqb_shape-eq extent common same in
            ap_known true same
              (rw (e, e') (Share-snoc seen r common h (subst (HasExtent r) equal has)))
        | inr differs ↦ ap_known false differs (
            ExtentsOf-snoc seen (replicate (length seen) common) r extent
              (Share-ExtentsOf seen common h) has)
      ]
    where
      next : Bool → Negation
      next same =
          if same then st else record st { cell_extents = some (replicate (length seen) common) }

      ap_known :
          (same : Bool)
          → eqb_shape extent common ≡ same
          → Known
              (seen ++ r ∷ [])
              (next same).common_extent
              (push_extent (next same).cell_extents extent)
          → Known
              (seen ++ r ∷ [])
              (next (eqb_shape extent common)).common_extent
              (push_extent (next (eqb_shape extent common)).cell_extents extent)
      ap_known same e k =
          subst
            (λ b.
              Known (seen ++ r ∷ []) (next b).common_extent
                (push_extent (next b).cell_extents extent))
            (sym e) k

  Holds-defined :
      (seen : Index) (r : ℕ) (defined : Bool) (st after : Negation)
      → column.is_defined r ≡ defined
      → negate_defined column selection shape r defined st ≡ ok after
      → Holds seen st
      → Holds (seen ++ pos r ∷ []) after
  unfolding negate_defined
  Holds-defined seen r true st after e h k =
      let extent = row_extent column selection shape r in
      let (u, valid, h') = >>=-eq-ok (validate_cell_shape (column.shape r) shape selection) _ h in
      let started = start_extents extent (length seen) st.common_extent st.cell_extents st in
      let kept = start_extents-kept extent (length seen) st.common_extent st.cell_extents st in
      let here : ◌≡◌ {A = Result Negation} (ok (end_row (pos r) extent started)) (ok after) =
        ap
          (λ i.
            ok
              (end_row (pos r) extent (start_extents extent i st.common_extent st.cell_extents st)))
          (sym k.0)
        ∙ h' in
      let same : end_row (pos r) extent started ≡ after = cc in
      subst (Holds (seen ++ pos r ∷ [])) same (
        omega (
          arith,
          length-snoc started.rows (pos r),
          length-snoc seen (pos r),
          k.0,
          ap length kept.0,
        ),
        Known-read seen (pos r) extent st.common_extent st.cell_extents st (λ d. refl) refl refl
            k.1,
      )
  Holds-defined seen r false st after e h k =
      let same : end_row (negsuc 0) shape (record st { rows_modified = true }) ≡ after = cc in
      subst (Holds (seen ++ pos r ∷ [])) same (
        omega (arith, length-snoc st.rows (negsuc 0), length-snoc seen (pos r), k.0),
        Known-unread seen (pos r) st.common_extent st.cell_extents (λ extent d. absurd cc) k.1,
      )

  Holds-row :
      (seen : Index) (r : ℤ) (st after : Negation)
      → negate_row column selection shape r st ≡ ok after
      → Holds seen st
      → Holds (seen ++ r ∷ []) after
  unfolding negate_row
  Holds-row seen (negsuc n) st after h k =
      let same : end_row (negsuc n) shape st ≡ after = cc in
      subst (Holds (seen ++ negsuc n ∷ [])) same (
        omega (arith, length-snoc st.rows (negsuc n), length-snoc seen (negsuc n), k.0),
        Known-unread seen (negsuc n) st.common_extent st.cell_extents (λ extent. tt) k.1,
      )
  Holds-row seen (pos r) st after h k = elim (Bool-cases (leb column.nrow r)) [
    | inl large ↦ absurd (grind arith)
    | inr small ↦ Holds-defined seen r (column.is_defined r) st after refl (grind arith) k
  ]

  Holds-rows :
      (seen rows : Index) (st after : Negation)
      → negate_rows column selection shape rows st ≡ ok after
      → Holds seen st
      → Holds (seen ++ rows) after
  unfolding negate_rows
  Holds-rows seen [] st after h k =
      let same : st ≡ after = cc in rw append-nil (subst (Holds seen) same k)
  Holds-rows seen (r ∷ rows) st after h k =
      let (middle, first, h') = >>=-eq-ok (negate_row column selection shape r st) _ h in
      subst (λ l. Holds l after) (append_assoc seen (r ∷ []) rows)
        (Holds-rows (seen ++ r ∷ []) rows middle after h' (Holds-row seen r st middle first k))

-- A selection whose dimensions have the indices of `extent`, and then -1 for the rest of the result.
abbrev pub IsPadded : Selection → IPosition → IPosition → Selection → Type 0
IsPadded selection shape extent padded_selection =
    (dim : ℕ)
    → dim < length shape
    → maybe_f_span padded_selection dim (length shape + 1) ≡ (
        if is_empty (dim_ids selection shape extent dim)
        then none
        else some (dim_ids selection shape extent dim))

span_some :
    (selection : Selection) (dim ndim : ℕ) (span : Index)
    → maybe_f_span selection dim ndim ≡ some span
    → is_empty span ≡ false
unfolding maybe_f_span
span_some selection dim ndim span h =
    elim (Bool-cases (is_empty (get_or selection.spans (dim + size selection - ndim) outside))) [
      | inl none_there ↦ absurd (ground arith)
      | inr some_there ↦ ground arith
    ]

-- With the extent of the result, a dimension is selected as before.
ids_same : (selection : Selection) (shape : IPosition) → IsPadded selection shape shape selection
ids_same selection shape dim inside =
    by_found (maybe_f_span selection dim (length shape + 1))
      (ltb (get_or shape dim 0) (get_or shape dim 0)) (span_some selection dim (length shape + 1))
      (ground arith)
  where
    by_found :
        (found : Option Index) (smaller : Bool)
        → ((span : Index) → found ≡ some span → is_empty span ≡ false)
        → smaller ≡ false
        → let ids = elim found as (λ _. Index) [
          | some span ↦ span
          | none ↦ if smaller then padded (get_or shape dim 0) (get_or shape dim 0) else []
        ] in
          found ≡ (if is_empty ids then none else some ids)
    by_found none smaller h e = rw e refl
    by_found (some span) smaller h e = rw (h span refl) refl

rebuild_selection-IsPadded :
    (selection : Selection) (shape extent : IPosition) (rows : Option Index)
    → IsPadded selection shape extent (rebuild_selection selection shape extent rows)
rebuild_selection-IsPadded selection shape extent rows dim inside =
    maybe_f_span-rebuild_selection selection shape extent rows dim (omega (arith, inside))
    ∙ ap
        (λ (b : Bool).
          let ids = if b then dim_ids selection shape extent dim else row_ids selection rows in
          if is_empty ids then none else some ids)
        (lt→ltb dim (length shape) inside)

negated_selection-IsPadded :
    (selection : Selection) (shape : IPosition) (st : Negation)
    → IsPadded selection shape (final_extent shape st) (negated_selection selection shape st)
unfolding negated_selection
negated_selection-IsPadded selection shape st =
    by_mark st.rows_modified (eqb_shape extent shape) (eqb_shape-eq extent shape)
  where
    extent : IPosition
    extent = final_extent shape st

    by_mark :
        (modified equal : Bool)
        → (equal ≡ true → extent ≡ shape)
        → IsPadded selection shape extent (
            if not modified
            then (if equal then selection else rebuild_selection selection shape extent none)
            else rebuild_selection selection shape extent (some st.rows))
    by_mark true equal e = rebuild_selection-IsPadded selection shape extent (some st.rows)
    by_mark false false e = rebuild_selection-IsPadded selection shape extent none
    by_mark false true e =
        subst (λ extent. IsPadded selection shape extent selection) (sym (e refl))
          (ids_same selection shape)

-- The extents that come back: a list with one for each row, and no padding of the selection, or one
-- for all rows.
abbrev pub Extents : Column → Selection → IPosition → IPosition → Option (List IPosition) → Type 0
Extents column selection shape extent (some extents) =
    (extent ≡ shape) × ExtentsOf column selection shape (rows_of column selection) extents
Extents column selection shape extent none =
    Share column selection shape (rows_of column selection) extent

Known-Extents :
    (column : Column) (selection : Selection) (shape : IPosition) (st : Negation)
    → Known column selection shape (rows_of column selection) st.common_extent st.cell_extents
    → Extents column selection shape (final_extent shape st) st.cell_extents
Known-Extents column selection shape st = by_state st.common_extent st.cell_extents
  where
    by_state :
        (common : Option IPosition) (extents : Option (List IPosition))
        → Known column selection shape (rows_of column selection) common extents
        → Extents column selection shape
            (elim extents [
              | some extents ↦ shape
              | none ↦ elim common [ some extent ↦ extent | none ↦ shape ]
            ])
            extents
    by_state none none k = k shape
    by_state (some common) none k = k
    by_state none (some extents) k = (refl, k)
    by_state (some common) (some extents) k = (refl, k)

-- Where the result has no extents of rows before and the cells vary: there is an extent to which
-- the selection is padded. Either each row that is read has it, and the result has no extents of
-- rows, or it is the shape of the result, and the result has the extent of each row that is read.
pub negate_missing-Extents :
    (data_shape : ResultShapeData) (column : Column) (selection negated_rows : Selection)
    (after : ResultShapeData)
    → column.is_fixed_shape ≡ false
    → data_shape.cell_extents ≡ none
    → negate_missing_selected_rows data_shape column selection ≡ ok (negated_rows, after)
    → (shape : IPosition) × (extent : IPosition) × (data_shape.fixed_shape ≡ some shape)
      × IsPadded selection (take (length shape - 1) shape) extent negated_rows
      × Extents column selection (take (length shape - 1) shape) extent after.cell_extents
negate_missing-Extents data_shape column selection negated_rows after varied fresh h =
    let (shape, st, fixed, loop, same, kept) =
      negate_missing-ok data_shape column selection negated_rows after varied h in
    let cell = take (length shape - 1) shape in
    let known =
      Holds-rows column selection cell [] (rows_of column selection) no_negation st loop
        (refl, λ extent. tt) in
    (
      shape,
      final_extent cell st,
      fixed,
      subst (IsPadded selection cell (final_extent cell st)) same
          (negated_selection-IsPadded selection cell st),
      subst (Extents column selection cell (final_extent cell st))
          (keep_extents-cell st.cell_extents ∙ ap (λ (d : ResultShapeData). d.cell_extents) kept)
          (Known-Extents column selection cell st known.1),
    )
  where
    keep_extents-cell :
        (extents : Option (List IPosition))
        → extents ≡ (keep_extents extents data_shape).cell_extents
    keep_extents-cell none = sym fresh
    keep_extents-cell (some extents) = refl
