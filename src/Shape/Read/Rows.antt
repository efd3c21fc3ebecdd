-- ===== src/Shape/Read/Rows.antt =====
-- The shape of a result is made of the shapes of the selected rows.
use arcae.Prelude.{
  pos, invalid, length-snoc, take-snoc, get_or-append_right, ltb, &&-eq-true, length-map,
  length-iota, get_or-map-iota, length-traverse, get_or-traverse, ℕ, ◌+◌, ◌-◌, ◌^◌, ◌<◌, ◌≡◌, refl,
  sym, ap, ◌∙◌, subst, Bool, true, false, ◌&&◌, not, Option, none, some, List, [], ◌∷◌, ◌++◌,
  length, take, get_or, map, iota, if◌then◌else◌, arith, Bool-cases, inl, inr, Result, >>=-eq-ok,
  ok, err, ◌>>=◌,
}
use arcae.Selection.{Selection}
use arcae.Shape.{IPosition, Column, ResultShapeData, n_rows, get_row_shape}
use arcae.Shape.Clip.{clipped, clip, new_clipper}
use arcae.Shape.Clip.Lookup.{clip-clipped}
use arcae.Shape.Rows.{make_row_data, n_selected, row_index, RowShapeData}
use arcae.Shape.Rows.Summary.{
  uniform-get, summarise-uniform, summarise-varied, summarise, is_uniform, first_shape,
}
use arcae.Shape.Rows.Steps.{HasCells, row_shape, selected_shapes}
use arcae.Shape.Rows.Loop.{make_row_data-summarise}
use arcae.Shape.Read.{check_row_number_limit, make_read, rows_result, fixed_result, varied_result}

-- The shape of a row of the result, without the dimension of the rows.
abbrev pub result_row : ResultShapeData → ℕ → IPosition
result_row data_shape i = elim data_shape.fixed_shape [
  | some shape ↦ take (length shape - 1) shape
  | none ↦ get_row_shape data_shape i
]

module _ (column : Column) (selection : Selection) where
  -- What a row is read as: the cell of the column, clipped by itself.
  abbrev pub read_row : Bool → ℕ → Result IPosition
  read_row allow_missing_rows i =
      if column.is_fixed_shape
      then clipped selection column.desc_shape
      else row_shape column selection allow_missing_rows (row_index column selection i)

  shapes-rows :
      (allow_missing_rows : Bool) {shapes : List IPosition}
      → selected_shapes column selection allow_missing_rows ≡ ok shapes
      → (length shapes ≡ n_selected column selection)
        × ((i : ℕ)
            → i < n_selected column selection
            → row_shape column selection allow_missing_rows (row_index column selection i)
              ≡ ok (get_or shapes i []))
  shapes-rows allow_missing_rows h =
      let rows = map (row_index column selection) (iota 0 (n_selected column selection)) in
      let count : length rows ≡ n_selected column selection = length-map _ _ ∙ length-iota 0 _ in
      (
        length-traverse _ rows h ∙ count,
        λ i l.
            sym (
              ap (row_shape column selection allow_missing_rows) (
                get_or-map-iota (row_index column selection) 0 (n_selected column selection) i
                  (pos 0) l
                ∙ ap (row_index column selection) (omega arith)))
            ∙ get_or-traverse (row_shape column selection allow_missing_rows) rows i (pos 0) [] h
                (omega (arith, count)),
      )

  read_row-varied :
      (allow_missing_rows : Bool) (i : ℕ)
      → column.is_fixed_shape ≡ false
      → read_row allow_missing_rows i
        ≡ row_shape column selection allow_missing_rows (row_index column selection i)
  read_row-varied allow_missing_rows i v =
      ap
        (λ fixed.
          if fixed
          then clipped selection column.desc_shape
          else row_shape column selection allow_missing_rows (row_index column selection i))
        v

  read_row-fixed :
      (allow_missing_rows : Bool) (i : ℕ)
      → column.is_fixed_shape ≡ true
      → read_row allow_missing_rows i ≡ clipped selection column.desc_shape
  read_row-fixed allow_missing_rows i v =
      ap
        (λ fixed.
          if fixed
          then clipped selection column.desc_shape
          else row_shape column selection allow_missing_rows (row_index column selection i))
        v

  -- What the result says of the rows.
  record IsRead (allow_missing_rows : Bool) (data_shape : ResultShapeData) : Type 0 where
    all_rows : n_rows data_shape ≡ n_selected column selection
    rows :
        (i : ℕ)
        → i < n_selected column selection
        → read_row allow_missing_rows i ≡ ok (result_row data_shape i)

  n_rows-fixed :
      (shape : IPosition)
      → n_rows (fixed_result column selection shape) ≡ n_selected column selection
  n_rows-fixed shape =
      let n = n_selected column selection in
      let last : length (shape ++ n ∷ []) - 1 ≡ length shape + 0 =
        omega (arith, length-snoc shape n) in
      rw last (get_or-append_right shape (n ∷ []) 0 0)

  row-fixed :
      (shape : IPosition) (i : ℕ) → result_row (fixed_result column selection shape) i ≡ shape
  row-fixed shape i =
      let n = n_selected column selection in
      let all : length (shape ++ n ∷ []) - 1 ≡ length shape = omega (arith, length-snoc shape n) in
      rw all (take-snoc shape n)

  fixed-IsRead :
      (allow_missing_rows : Bool) (shape : IPosition)
      → ((i : ℕ) → i < n_selected column selection → read_row allow_missing_rows i ≡ ok shape)
      → IsRead allow_missing_rows (fixed_result column selection shape)
  fixed-IsRead allow_missing_rows shape h = record {
    all_rows = n_rows-fixed shape;
    rows = λ i l. h i l ∙ ap ok (sym (row-fixed shape i));
  }

  abbrev made : RowShapeData → ResultShapeData
  made row_data = elim row_data.common_shape [
    | some shape ↦ fixed_result column selection shape
    | none ↦ varied_result column selection row_data.shapes
  ]

  result-made :
      (fails : Bool) (common : Option IPosition) (shapes : List IPosition)
      {data_shape : ResultShapeData}
      → (if fails then err invalid else elim common [
        | some shape ↦ ok (fixed_result column selection shape)
        | none ↦ ok (varied_result column selection shapes)
      ])
        ≡ ok data_shape
      → made (record { common_shape = common; shapes = shapes; missing_rows = 0 }) ≡ data_shape
  result-made true common shapes h = cc
  result-made false (some shape) shapes h = cc
  result-made false none shapes h = cc

  rows_result-made :
      (allow_missing_rows : Bool) (row_data : RowShapeData) {data_shape : ResultShapeData}
      → rows_result column selection allow_missing_rows row_data ≡ ok data_shape
      → made row_data ≡ data_shape
  unfolding rows_result
  rows_result-made allow_missing_rows row_data {data_shape} h =
      result-made (not allow_missing_rows && ltb 0 row_data.missing_rows) row_data.common_shape
        row_data.shapes h

  varied-IsRead :
      (allow_missing_rows : Bool) (shapes : List IPosition)
      → column.is_fixed_shape ≡ false
      → selected_shapes column selection allow_missing_rows ≡ ok shapes
      → IsRead allow_missing_rows (made (summarise shapes))
  varied-IsRead allow_missing_rows shapes v h =
      let (count, rows) = shapes-rows allow_missing_rows h in
      elim (Bool-cases (is_uniform shapes)) [
        | inr varied ↦ rw (summarise-varied shapes _ varied refl) (record {
          all_rows = count;
          rows = λ i l. read_row-varied allow_missing_rows i v ∙ rows i l;
        })
        | inl uniform ↦
            rw (summarise-uniform shapes uniform) (uniform-IsRead shapes uniform count rows)
      ]
    where
      uniform-IsRead :
          (shapes : List IPosition)
          → is_uniform shapes ≡ true
          → length shapes ≡ n_selected column selection
          → ((i : ℕ)
              → i < n_selected column selection
              → row_shape column selection allow_missing_rows (row_index column selection i)
                ≡ ok (get_or shapes i []))
          → IsRead allow_missing_rows
              (made (record { common_shape = first_shape shapes; shapes = []; missing_rows = 0 }))
      uniform-IsRead [] u count rows = record {
        all_rows = count;
        rows = λ i l. absurd (omega (arith, count));
      }
      uniform-IsRead (f ∷ rest) u count rows = fixed-IsRead allow_missing_rows f (λ i l.
          read_row-varied allow_missing_rows i v
          ∙ rows i l
          ∙ ap ok (uniform-get f rest i (&&-eq-true _ _ u).1 (omega (arith, count))))

  -- The shape of the columns that have one shape for all cells, and of the others.
  abbrev of_column : Bool → Bool → Result ResultShapeData
  of_column allow_missing_rows fixed =
      if fixed
      then (clip selection new_clipper column.desc_shape >>= λ (shape, clipper).
          ok (fixed_result column selection shape))
      else (make_row_data column selection allow_missing_rows
          >>= rows_result column selection allow_missing_rows)

  pub make_read-column :
      (allow_missing_rows fixed : Bool) {data_shape : ResultShapeData}
      → column.is_fixed_shape ≡ fixed
      → make_read column selection allow_missing_rows ≡ ok data_shape
      → of_column allow_missing_rows fixed ≡ ok data_shape
  unfolding make_read
  make_read-column allow_missing_rows fixed v h =
      let (checked, limit, e) = >>=-eq-ok (check_row_number_limit column.nrow) _ h in
      sym (ap (of_column allow_missing_rows) v) ∙ e

  of_read :
      {allow_missing_rows : Bool} {read data_shape : ResultShapeData}
      → IsRead allow_missing_rows read
      → read ≡ data_shape
      → (n_rows data_shape ≡ n_selected column selection)
        × ((i : ℕ)
            → i < n_selected column selection
            → read_row allow_missing_rows i ≡ ok (result_row data_shape i))
  of_read {allow_missing_rows} r e =
      let r' = subst (IsRead allow_missing_rows) e r in (r'.all_rows, r'.rows)

  -- The result has a row for each selected row, or for each row of the column, and the shape of a
  -- row is what clipping the row's cell by itself gives, which did not fail. Each defined cell has a
  -- dimension.
  pub make_read-rows :
      (allow_missing_rows : Bool) {data_shape : ResultShapeData}
      → HasCells column
      → length column.desc_shape < 2 ^ 64 - 1
      → make_read column selection allow_missing_rows ≡ ok data_shape
      → (n_rows data_shape ≡ n_selected column selection)
        × ((i : ℕ)
            → i < n_selected column selection
            → read_row allow_missing_rows i ≡ ok (result_row data_shape i))
  unfolding make_read
  make_read-rows allow_missing_rows {data_shape} cells small h =
      elim (Bool-cases column.is_fixed_shape) [
        | inl fixed ↦
            let ((shape, clipper), e, d) =
              >>=-eq-ok (clip selection new_clipper column.desc_shape) _
                (make_read-column allow_missing_rows true fixed h) in
            let (s, e', same) = >>=-eq-ok (clipped selection column.desc_shape) _ (
              sym (
                clip-clipped selection new_clipper column.desc_shape (λ l. absurd (omega arith))
                  small)
              ∙ e) in
            let shape_same : s ≡ shape = cc in
            of_read {data_shape = data_shape}
              (fixed-IsRead allow_missing_rows shape
                (λ i l. read_row-fixed allow_missing_rows i fixed ∙ e' ∙ ap ok shape_same))
              (let same : ok (fixed_result column selection shape) ≡ ok data_shape = d in cc)
        | inr varied ↦
            let (row_data, e, d) =
              >>=-eq-ok (make_row_data column selection allow_missing_rows) _
                (make_read-column allow_missing_rows false varied h) in
            let (shapes, e', same) =
              >>=-eq-ok (selected_shapes column selection allow_missing_rows) _
                (sym (make_row_data-summarise column selection allow_missing_rows cells) ∙ e) in
            let row_same : summarise shapes ≡ row_data = cc in
            of_read (varied-IsRead allow_missing_rows shapes varied e')
              (ap made row_same ∙ rows_result-made allow_missing_rows row_data d)
      ]
