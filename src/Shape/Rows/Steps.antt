-- ===== src/Shape/Rows/Steps.antt =====
-- A round of the loop over the rows agrees with clipping the row's cell by itself.
use arcae.Prelude.{
  ℕ, ◌-◌, ◌^◌, ◌<◌, ◌≡◌, refl, sym, ap, ◌∙◌, Bool, true, false, ◌||◌, not, none, some, List, [],
  ◌∷◌, ◌++◌, length, map, iota, if◌then◌else◌, arith, Bool-cases, inl, inr, ◌⊎◌, ℤ, pos, is_neg,
  ltb_ℤ, pos_part, Result, Result-cases, Status, ok, err, index_error, invalid, ◌>>=◌, traverse,
}
use arcae.Selection.{Selection}
use arcae.Shape.{IPosition, Column, eqb_shape, is_degenerate_shape}
use arcae.Shape.Clip.{clip, clipped, IsCache}
use arcae.Shape.Clip.Lookup.{after_clip, after_clip-IsCache, clip-clipped, length-clipped_from}
use arcae.Shape.Rows.{
  RowState, add_shape, row_index, n_selected, repeat_last, defined_row, row_step, is_common,
}
use arcae.Shape.Rows.Summary.{
  uniform-last, repeat-summarise, summarise, is_uniform, first_shape, add_shape-summarise,
  eqb_shape-eq,
}

-- A cell that is defined has a dimension at least, and fewer than a machine word counts.
abbrev pub HasCells : Column → Type 0
HasCells column =
    (r : ℕ)
    → column.is_defined r ≡ true
    → (is_degenerate_shape (column.shape r) ≡ false) × (length (column.shape r) < 2 ^ 64 - 1)

read_defined : (neg defined : Bool) → (neg || not defined) ≡ false → defined ≡ true
read_defined true defined e = cc
read_defined false true e = refl
read_defined false false e = cc

nondegenerate :
    (s t : IPosition)
    → length s ≡ length t
    → is_degenerate_shape t ≡ false
    → is_degenerate_shape s ≡ false
nondegenerate [] [] l d = d
nondegenerate [] (n ∷ t) l d = absurd (omega arith)
nondegenerate (n ∷ s) t l d = refl

module _ (column : Column) (selection : Selection) where
  -- The clipped shape of a row, by itself.
  unfoldable pub row_shape : Bool → ℤ → Result IPosition
  row_shape allow_missing_rows r =
      if not (ltb_ℤ r (pos column.nrow))
      then err index_error
      else if is_neg r || not (column.is_defined (pos_part r))
      then (if allow_missing_rows then ok [] else if is_neg r then err index_error else err invalid)
      else clipped selection (column.shape (pos_part r))

  -- The shapes of the selected rows.
  abbrev pub selected_shapes : Bool → Result (List IPosition)
  selected_shapes allow_missing_rows =
      traverse (row_shape allow_missing_rows)
        (map (row_index column selection) (iota 0 (n_selected column selection)))

  -- What the state says of the last row that is defined, after the rows `done`.
  pub record Last (done : List IPosition) (st : RowState) (shape : IPosition) : Type 0 where
    pub is_last : st.last_shape ≡ some shape
    pub is_clipped : clipped selection shape ≡ ok st.last_clipped
    pub has_dim : is_degenerate_shape st.last_clipped ≡ false
    pub common : is_uniform done ≡ true → first_shape done ≡ some st.last_clipped

  pub record After (done : List IPosition) (st : RowState) : Type 0 where
    pub result : st.result ≡ summarise done
    pub cached : IsCache selection st.clipper
    pub last : (st.last_shape ≡ none) ⊎ ((shape : IPosition) × Last done st shape)

  -- A step and the shape of its row: both fail, or neither does, and the summary has one shape more.
  abbrev pub Agrees : List IPosition → Result RowState → Result IPosition → Type 0
  Agrees done step shape =
      ((status : Status) × (step ≡ err status) × (shape ≡ err status))
      ⊎ ((s : IPosition) × (next : RowState) × (step ≡ ok next)
          × (shape ≡ ok s)
          × After (done ++ s ∷ []) next)

  defined_row-same :
      (i : ℕ) (shape : IPosition) (st : RowState)
      → is_common shape st.last_shape ≡ true
      → defined_row column selection i shape st
        ≡ ok (record st { result = repeat_last st.last_clipped st.result })
  unfolding defined_row
  defined_row-same i shape st e = rw e refl

  defined_row-new :
      (i : ℕ) (shape : IPosition) (st : RowState)
      → is_common shape st.last_shape ≡ false
      → defined_row column selection i shape st ≡ (
          clip selection st.clipper shape >>= λ (clipped, clipper). ok (record {
            result = add_shape i clipped st.result;
            last_shape = some shape;
            last_clipped = clipped;
            clipper = clipper;
          }))
  unfolding defined_row
  defined_row-new i shape st e = rw e refl

  Last-snoc :
      (done : List IPosition) (st : RowState) (shape : IPosition)
      → st.last_shape ≡ some shape
      → clipped selection shape ≡ ok st.last_clipped
      → is_degenerate_shape st.last_clipped ≡ false
      → Last (done ++ st.last_clipped ∷ []) st shape
  Last-snoc done st shape l c d = record {
    is_last = l;
    is_clipped = c;
    has_dim = d;
    common = λ u. (uniform-last done st.last_clipped u).0;
  }

  same-Agrees :
      (done : List IPosition) (i : ℕ) (shape last : IPosition) (st : RowState)
      → After done st
      → Last done st last
      → eqb_shape shape last ≡ true
      → Agrees done (defined_row column selection i shape st) (clipped selection shape)
  same-Agrees done i shape last st a l e =
      let same = eqb_shape-eq shape last e in
      let next : RowState = record st { result = repeat_last st.last_clipped st.result } in
      inr (
        st.last_clipped,
        next,
        defined_row-same i shape st (ap (is_common shape) l.is_last ∙ e),
        ap (clipped selection) same ∙ l.is_clipped,
        record {
          result =
              ap (repeat_last st.last_clipped) a.result
              ∙ repeat-summarise done st.last_clipped l.has_dim l.common;
          cached = a.cached;
          last = inr (last, Last-snoc done next last l.is_last l.is_clipped l.has_dim);
        },
      )

  new-Agrees :
      (done : List IPosition) (i : ℕ) (shape : IPosition) (st : RowState)
      → After done st
      → i ≡ length done
      → is_degenerate_shape shape ≡ false
      → length shape < 2 ^ 64 - 1
      → is_common shape st.last_shape ≡ false
      → Agrees done (defined_row column selection i shape st) (clipped selection shape)
  new-Agrees done i shape st a here d l e =
      let step = defined_row-new i shape st e in
      let clips = clip-clipped selection st.clipper shape a.cached l in
      elim (Result-cases (clipped selection shape)) [
        | inr (status, fails) ↦ inl (status, step ∙ rw (clips, fails) refl, fails)
        | inl (s, done_clip) ↦
            let next : RowState = record {
              result = add_shape i s st.result;
              last_shape = some shape;
              last_clipped = s;
              clipper = after_clip selection st.clipper (length shape);
            } in
            inr (
              s,
              next,
              step ∙ rw (clips, done_clip) refl,
              done_clip,
              record {
                result = rw (a.result, here) (add_shape-summarise done s);
                cached = after_clip-IsCache selection st.clipper (length shape) a.cached;
                last = inr (
                  shape,
                  Last-snoc done next shape refl done_clip (
                      nondegenerate s shape
                        (length-clipped_from selection (length shape) 0 shape done_clip) d),
                );
              },
            )
      ]

  missing-After :
      (done : List IPosition) (i : ℕ) (st : RowState)
      → After done st
      → i ≡ length done
      → After (done ++ [] ∷ []) (record st { result = add_shape i [] st.result })
  missing-After done i st a here = record {
    result = rw (a.result, here) (add_shape-summarise done []);
    cached = a.cached;
    last = elim a.last [
      | inl e ↦ inl e
      | inr (shape, l) ↦ inr (
        shape,
        record {
          is_last = l.is_last;
          is_clipped = l.is_clipped;
          has_dim = l.has_dim;
          common = λ u. let has_dim = (uniform-last done [] u).1 in cc;
        },
      )
    ];
  }

  missing-Agrees :
      (allow_missing_rows neg : Bool) (done : List IPosition) (i : ℕ) (st : RowState)
      → After done st
      → i ≡ length done
      → Agrees done
          (if allow_missing_rows
            then ok (record st { result = add_shape i [] st.result })
            else if not neg
            then err invalid
            else err index_error)
          (if allow_missing_rows then ok [] else if neg then err index_error else err invalid)
  missing-Agrees true neg done i st a here = inr ([], _, refl, refl, missing-After done i st a here)
  missing-Agrees false true done i st a here = inl (index_error, refl, refl)
  missing-Agrees false false done i st a here = inl (invalid, refl, refl)

  defined-Agrees :
      (done : List IPosition) (i r : ℕ) (st : RowState)
      → HasCells column
      → After done st
      → i ≡ length done
      → column.is_defined r ≡ true
      → Agrees done
          (defined_row column selection i (column.shape r) st)
          (clipped selection (column.shape r))
  defined-Agrees done i r st cells a here d =
      let (has_dim, small) = cells r d in
      elim (Bool-cases (is_common (column.shape r) st.last_shape)) [
        | inr e ↦ new-Agrees done i (column.shape r) st a here has_dim small e
        | inl e ↦ elim a.last [
          | inl no_last ↦
              let e' : false ≡ true = sym (ap (is_common (column.shape r)) no_last) ∙ e in cc
          | inr (last, l) ↦
              same-Agrees done i (column.shape r) last st a l
                (sym (ap (is_common (column.shape r)) l.is_last) ∙ e)
        ]
      ]

  pub step-Agrees :
      (allow_missing_rows : Bool) (done : List IPosition) (i : ℕ) (st : RowState)
      → HasCells column
      → After done st
      → i ≡ length done
      → Agrees done
          (row_step column selection allow_missing_rows i st)
          (row_shape allow_missing_rows (row_index column selection i))
  unfolding row_step row_shape
  step-Agrees allow_missing_rows done i st cells a here =
      let r = row_index column selection i in
      elim (Bool-cases (ltb_ℤ r (pos column.nrow))) [
        | inr e ↦ rw (e, row_step, row_shape) (inl (index_error, refl, refl))
        | inl e ↦ elim (Bool-cases (is_neg r || not (column.is_defined (pos_part r)))) [
          | inr e' ↦
              rw (e, e', row_step, row_shape)
                (defined-Agrees done i (pos_part r) st cells a here
                  (read_defined (is_neg r) (column.is_defined (pos_part r)) e'))
          | inl e' ↦
              rw (e, e', row_step, row_shape)
                (missing-Agrees allow_missing_rows (is_neg r) done i st a here)
        ]
      ]
