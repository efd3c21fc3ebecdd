-- ===== src/Partition/Make/Whole.antt =====
-- `DataPartition::Make` for a result of one shape: each selected element is in one chunk.
use mathlib.Core.List.Perm
use arcae.Prelude.{
  ℕ, suc, ◌-◌, ◌≤◌, ◌≡◌, refl, sym, ap, subst, ◌∙◌, Bool, Option, none, some, List, [], ◌∷◌, map,
  concat, length, iota, All, Perm, ltb, ◌==◌, if◌then◌else◌, arith, Bool-cases, inl, inr, ℤ, Result,
  ok, err, >>=-eq-ok, ◌>>=◌,
}
use arcae.Prelude.Choices.{bind, choices, AllPerm, choices-perm}
use arcae.Selection.{Selection}
use arcae.Shape.{IPosition, ResultShapeData, consistent_ndim, n_rows, row_shapes_of}
use arcae.Partition.{SpanPairs}
use arcae.Partition.SortedIndices.{Sorter}
use arcae.Partition.SubSpans.{make_sub_spans}
use arcae.Partition.Product.{cartesian_product}
use arcae.Partition.Product.Order.{index_pairs, elements, elements-perm, length-contiguous}
use arcae.Partition.Split.Cover.{SameLengths}
use arcae.Partition.Chunks.{
  DataChunk, make_chunk, make_data_chunks, buffer_strides_of, row_offsets_ptr, min_mem_of,
}
use arcae.Shape.Offsets.{flat_offset}
use arcae.Partition.Make.{
  RowSplitOptions, row_bytes, split_rows, change_last, get_span_pair, fixed_subspans, max_extent,
  max_row_extent, max_dimension_size, split_subspans, make_fixed, make_by_shape, make_partition,
}
use arcae.Partition.Make.Pairs.{make_sub_spans-pairs, make_sub_spans-SameLengths}
use arcae.Partition.Make.Cover.{
  split_rows-pairs, get_span_pair-positioned, positioned, selected_ids,
}

-- The selected elements of the dimensions from `dim` on.
abbrev pub selected_pairs : Selection → ℕ → ℕ → IPosition → List (List (ℤ × ℕ))
selected_pairs selection ndim dim [] = []
selected_pairs selection ndim dim (size ∷ shape) =
    positioned (selected_ids selection ndim dim size)
    ∷ selected_pairs selection ndim (suc dim) shape

abbrev joined : List SpanPairs → List (List (ℤ × ℕ))
joined = map (λ (spans : SpanPairs). concat (map index_pairs spans))

AllBelow : ℕ → IPosition → Type 0
AllBelow n shape = All (λ size. size ≤ n) shape

max_extent-AllBelow : (shape : IPosition) (n : ℕ) → max_extent shape ≤ n → AllBelow n shape
unfolding AllBelow
max_extent-AllBelow [] n l = tt
max_extent-AllBelow (m ∷ []) n l = (l, tt)
max_extent-AllBelow (m ∷ k ∷ shape) n l =
    (omega (arith, l), max_extent-AllBelow (k ∷ shape) n (omega (arith, l)))

module _ ⦃sorter : Sorter⦄ (selection : Selection) (ndim n : ℕ) where
  fixed_subspans-AllPerm :
      (dim : ℕ) (shape : IPosition) {subspans : List SpanPairs}
      → AllBelow n shape
      → fixed_subspans selection ndim (iota 0 n) dim shape ≡ ok subspans
      → AllPerm (joined subspans) (selected_pairs selection ndim dim shape)
        × All SameLengths subspans
  unfolding fixed_subspans AllBelow
  fixed_subspans-AllPerm dim [] {subspans} below e =
      let equal : [] ≡ subspans = cc in
      subst (λ (s : List SpanPairs). AllPerm (joined s) [] × All SameLengths s) equal (tt, tt)
  fixed_subspans-AllPerm dim (size ∷ shape) {subspans} below e =
      let pair = get_span_pair selection ndim (iota 0 n) dim size in
      let (spans, made, e') = >>=-eq-ok (make_sub_spans pair.disk pair.mem (dim == ndim - 1)) _ e in
      let (rest, later, e'') =
        >>=-eq-ok (fixed_subspans selection ndim (iota 0 n) (suc dim) shape) _ e' in
      let equal : spans ∷ rest ≡ subspans = cc in
      let (perm, same) = get_span_pair-positioned selection ndim n dim size below.0 in
      let (perms, sames) = fixed_subspans-AllPerm (suc dim) shape below.1 later in
      subst
        (λ (s : List SpanPairs).
          AllPerm (joined s) (selected_pairs selection ndim dim (size ∷ shape)) × All SameLengths s)
        equal
        (
          (
            subst (λ pairs. Perm pairs (positioned (selected_ids selection ndim dim size)))
                (sym (make_sub_spans-pairs pair (dim == ndim - 1) same made)) perm,
            perms,
          ),
          (make_sub_spans-SameLengths pair.disk pair.mem same (dim == ndim - 1) made, sames),
        )

joined-change_last :
    (f : SpanPairs → SpanPairs) (dims : List SpanPairs)
    → All SameLengths dims
    → ((spans : SpanPairs)
        → SameLengths spans
        → concat (map index_pairs (f spans)) ≡ concat (map index_pairs spans))
    → joined (change_last f dims) ≡ joined dims
joined-change_last f [] same h = refl
joined-change_last f (rows ∷ []) same h = ap (λ pairs. pairs ∷ []) (h rows same.0)
joined-change_last f (spans ∷ next ∷ rest) same h =
    ap (◌∷◌ (concat (map index_pairs spans))) (joined-change_last f (next ∷ rest) same.1 h)

module _ (shape_product : IPosition → ℕ) (data_shape : ResultShapeData) where
  make_chunk-spans :
      (spans : SpanPairs) (contiguous : Bool) {chunk : DataChunk}
      → make_chunk shape_product data_shape spans contiguous ≡ ok chunk
      → chunk.dim_spans ≡ spans
  unfolding make_chunk
  make_chunk-spans spans contiguous {chunk} e =
      let (buffer, strided, e') =
        >>=-eq-ok (buffer_strides_of shape_product data_shape spans) _ e in
      let (offset, placed, e'') =
        >>=-eq-ok
          (flat_offset shape_product data_shape (min_mem_of spans)
            (row_offsets_ptr shape_product data_shape))
          _ e' in
      ap (λ (r : Result DataChunk). elim r [ ok chunk ↦ chunk.dim_spans | err status ↦ spans ])
        (sym e'')

  pub make_data_chunks-spans :
      (spans : List SpanPairs) (flags : List Bool) {chunks : List DataChunk}
      → length flags ≡ length spans
      → make_data_chunks shape_product data_shape spans flags ≡ ok chunks
      → map (λ (chunk : DataChunk). chunk.dim_spans) chunks ≡ spans
  unfolding make_data_chunks
  make_data_chunks-spans [] flags {chunks} n e =
      let equal : [] ≡ chunks = cc in ap (map (λ (chunk : DataChunk). chunk.dim_spans)) (sym equal)
  make_data_chunks-spans (span ∷ spans) [] n e = absurd (omega (arith, n))
  make_data_chunks-spans (span ∷ spans) (flag ∷ flags) {chunks} n e =
      let (chunk, made, e') = >>=-eq-ok (make_chunk shape_product data_shape span flag) _ e in
      let (rest, later, e'') =
        >>=-eq-ok (make_data_chunks shape_product data_shape spans flags) _ e' in
      let equal : chunk ∷ rest ≡ chunks = cc in
      ap (map (λ (chunk : DataChunk). chunk.dim_spans)) (sym equal)
      ∙ ap (λ s. s ∷ map (λ (chunk : DataChunk). chunk.dim_spans) rest)
          (make_chunk-spans span flag made)
      ∙ ap (◌∷◌ span) (make_data_chunks-spans spans flags (omega (arith, n)) later)

module _ ⦃sorter : Sorter⦄ (shape_product : IPosition → ℕ) (type_size : ℕ → Result ℕ)
    (selection : Selection) (data_shape : ResultShapeData) where
  split_subspans-joined :
      (row_split : RowSplitOptions) (subspans : List SpanPairs) {split : List SpanPairs}
      → All SameLengths subspans
      → split_subspans shape_product type_size selection data_shape row_split subspans ≡ ok split
      → joined split ≡ joined subspans
  split_subspans-joined row_split subspans {split} same e =
      elim (Bool-cases (ltb 1 row_split.max_splits)) [
        | inl splits ↦
            let e' = sym (ap by_test splits) ∙ e in
            let (bytes, sized, e'') = >>=-eq-ok (type_size data_shape.dtype) _ e' in
            let f = split_rows row_split (row_bytes bytes subspans) in
            let equal : change_last f subspans ≡ split = cc in
            ap joined (sym equal)
            ∙ joined-change_last f subspans same
                (split_rows-pairs row_split (row_bytes bytes subspans))
        | inr whole ↦
            let e' : ok subspans ≡ ok split = sym (ap by_test whole) ∙ e in
            let equal : subspans ≡ split = cc in ap joined (sym equal)
      ]
    where
      by_test : Bool → Result (List SpanPairs)
      by_test splits =
          if splits
          then (type_size data_shape.dtype >>= λ bytes.
              ok (change_last (split_rows row_split (row_bytes bytes subspans)) subspans))
          else ok subspans

  make_fixed-perm :
      (row_split : RowSplitOptions) (ndim : ℕ) (shape : IPosition) {chunks : List DataChunk}
      → data_shape.fixed_shape ≡ some shape
      → make_fixed shape_product type_size selection data_shape row_split ndim shape ≡ ok chunks
      → Perm
          (bind (map (λ (chunk : DataChunk). chunk.dim_spans) chunks) elements)
          (choices (selected_pairs selection ndim 0 shape))
  unfolding make_fixed max_dimension_size
  make_fixed-perm row_split ndim shape {chunks} fixed e =
      let n = max_dimension_size data_shape in
      let (subspans, spanned, e') =
        >>=-eq-ok (fixed_subspans selection ndim (iota 0 n) 0 shape) _ e in
      let (split, divided, e'') =
        >>=-eq-ok (split_subspans shape_product type_size selection data_shape row_split subspans) _
          e' in
      let largest : n ≡ max_extent shape =
        ap
          (λ (found : Option IPosition). elim found [
            | some shape ↦ max_extent shape
            | none ↦ max_row_extent (n_rows data_shape) (row_shapes_of data_shape)
          ])
          fixed in
      let (perms, same) =
        fixed_subspans-AllPerm selection ndim n 0 shape
          (max_extent-AllBelow shape n (omega (arith, largest))) spanned in
      let spans =
        make_data_chunks-spans shape_product data_shape (cartesian_product split).dim_spans
          (cartesian_product split).contiguous (length-contiguous split) e'' in
      subst (λ s. Perm (bind s elements) (choices (selected_pairs selection ndim 0 shape)))
        (sym spans)
        (Perm.trans (elements-perm split) (
          subst (λ j. Perm (choices j) (choices (selected_pairs selection ndim 0 shape)))
            (sym (split_subspans-joined row_split subspans same divided))
            (choices-perm (joined subspans) (selected_pairs selection ndim 0 shape) perms)))

  -- If the partition of a result of one shape, without extents of rows, is made, whatever the options
  -- for splitting rows are: the chunks together have the elements that are selected, each with the
  -- index on disk that the selection has at its position in memory, and no element is in two chunks.
  pub make_partition-perm :
      (row_split : RowSplitOptions) (ndim : ℕ) (shape : IPosition) {chunks : List DataChunk}
      → data_shape.fixed_shape ≡ some shape
      → data_shape.cell_extents ≡ none
      → consistent_ndim data_shape ≡ ok ndim
      → make_partition shape_product type_size selection data_shape row_split ≡ ok chunks
      → Perm
          (bind (map (λ (chunk : DataChunk). chunk.dim_spans) chunks) elements)
          (choices (selected_pairs selection ndim 0 shape))
  unfolding make_partition
  make_partition-perm row_split ndim shape {chunks} fixed plain rank e =
      make_fixed-perm row_split ndim shape fixed (
        sym (
          ap
            (λ r. r >>= λ ndim.
              make_by_shape shape_product type_size selection data_shape row_split ndim
                data_shape.fixed_shape data_shape.cell_extents)
            rank
          ∙ ap
              (λ f.
                make_by_shape shape_product type_size selection data_shape row_split ndim f
                  data_shape.cell_extents)
              fixed
          ∙ ap
              (make_by_shape shape_product type_size selection data_shape row_split ndim
                (some shape))
              plain)
        ∙ e)
