-- ===== src/Partition/Make/Cover.antt =====
-- The chunks for a result of one shape hold each selected element once.
use mathlib.Core.List.Perm
use arcae.Prelude.{
  ℕ, zero, suc, ◌+◌, ◌≤◌, ◌≡◌, refl, sym, ap, subst, ◌∙◌, Bool, true, Option, none, some, List, [],
  ◌∷◌, map, map-iota, zip, concat, length, length-map, length-iota, take, iota, Perm, ltb, ltb→lt,
  if◌then◌else◌, arith, Bool-cases, inl, inr, ℤ, pos,
}
use arcae.Selection.{Selection, maybe_f_span}
use arcae.Partition.{SpanPair, SpanPairs, disk_at}
use arcae.Partition.SortedIndices.{Sorter, make_sorted_indices, make_sorted_indices_lem}
use arcae.Partition.SubSpans.Cover.{disks, mems}
use arcae.Partition.Product.Order.{index_pairs}
use arcae.Partition.Split.{split_row_spans}
use arcae.Partition.Split.Cover.{SameLengths, read_total, split_row_spans_total}
use arcae.Partition.Make.{RowSplitOptions, rows_read, n_splits, split_rows, get_span_pair}
use arcae.Partition.Make.Pairs.{concat-index_pairs, split_row_spans-SameLengths}

read_total-rows_read : (spans : SpanPairs) → read_total spans ≡ rows_read spans
read_total-rows_read [] = refl
read_total-rows_read (span ∷ spans) = let rest = read_total-rows_read spans in ground (arith, rest)

-- The pieces of the rows have the pairs of the rows.
pub split_rows-pairs :
    (row_split : RowSplitOptions) (bytes : ℕ) (spans : SpanPairs)
    → SameLengths spans
    → concat (map index_pairs (split_rows row_split bytes spans)) ≡ concat (map index_pairs spans)
split_rows-pairs row_split bytes spans same = elim (Bool-cases (ltb 1 nsplits)) [
  | inl splits ↦
      let many = ltb→lt 1 nsplits splits in
      let (pieces, made, disk, mem, few) =
        split_row_spans_total spans nrows nsplits row_split.unit_start same
          (read_total-rows_read spans) (omega (arith, many)) (omega arith) in
      ap
        (λ b.
          concat (
            map index_pairs (by_test b (split_row_spans spans nrows nsplits row_split.unit_start))))
        splits
      ∙ ap (λ found. concat (map index_pairs (by_test true found))) made
      ∙ concat-index_pairs pieces
          (split_row_spans-SameLengths spans nrows nsplits row_split.unit_start same made)
      ∙ ap (λ d. zip d (concat (mems pieces))) disk
      ∙ ap (zip (concat (disks spans))) mem
      ∙ sym (concat-index_pairs spans same)
  | inr whole ↦
      ap
        (λ b.
          concat (
            map index_pairs (by_test b (split_row_spans spans nrows nsplits row_split.unit_start))))
        whole
]
  where
    nrows : ℕ
    nrows = rows_read spans

    nsplits : ℕ
    nsplits = n_splits row_split nrows bytes

    by_test : Bool → Option SpanPairs → SpanPairs
    by_test splits found =
        if splits then (elim found [ some pieces ↦ pieces | none ↦ spans ]) else spans

-- The indices that are selected in a dimension.
abbrev pub selected_ids : Selection → ℕ → ℕ → ℕ → List ℤ
selected_ids selection ndim dim size = elim (maybe_f_span selection dim ndim) [
  | some span ↦ span
  | none ↦ map pos (iota 0 size)
]

-- Each index that is selected, with its position.
abbrev pub positioned : List ℤ → List (ℤ × ℕ)
positioned ids = zip ids (iota 0 (length ids))

zip-map : (f : ℕ → ℤ) (ks : List ℕ) → zip (map f ks) ks ≡ map (λ k. (f k, k)) ks
unfolding mathlib.Core.List.zip
zip-map f [] = refl
zip-map f (k ∷ ks) = ap (◌∷◌ (f k, k)) (zip-map f ks)

take-iota : (size n a : ℕ) → size ≤ n → take size (iota a n) ≡ iota a size
take-iota zero n a l = refl
take-iota (suc size) zero a l = absurd (omega arith)
take-iota (suc size) (suc n) a l = ap (◌∷◌ a) (take-iota size n (suc a) (omega arith))

module _ ⦃sorter : Sorter⦄ where
  sorted-positioned :
      (ids : List ℤ)
      → Perm (index_pairs (make_sorted_indices ids)) (positioned ids)
        × (length (make_sorted_indices ids).mem ≡ length (make_sorted_indices ids).disk)
  sorted-positioned ids =
      let pair = make_sorted_indices ids in
      let (ascends, mem, disk) = make_sorted_indices_lem ids in
      let all : map (disk_at ids) (iota 0 (length ids)) ≡ ids =
        map-iota (disk_at ids) 0 ids (pos 0)
          (λ k l. let at : 0 + k ≡ k = omega arith in ap (disk_at ids) at) in
      (
        subst (λ pairs. Perm pairs (positioned ids))
            (sym (ap (λ d. zip d pair.mem) disk ∙ zip-map (disk_at ids) pair.mem))
            (subst (Perm (map (λ k. (disk_at ids k, k)) pair.mem))
              (sym (zip-map (disk_at ids) (iota 0 (length ids)))
                ∙ ap (λ d. zip d (iota 0 (length ids))) all)
              (Perm.map (λ k. (disk_at ids k, k)) mem)),
        sym (length-map pair.mem (disk_at ids)) ∙ ap length (sym disk),
      )

  module _ (selection : Selection) (ndim n : ℕ) where
    pub get_span_pair-positioned :
        (dim size : ℕ)
        → size ≤ n
        → Perm
            (index_pairs (get_span_pair selection ndim (iota 0 n) dim size))
            (positioned (selected_ids selection ndim dim size))
          × (length (get_span_pair selection ndim (iota 0 n) dim size).mem
              ≡ length (get_span_pair selection ndim (iota 0 n) dim size).disk)
    get_span_pair-positioned dim size l = by_span (maybe_f_span selection dim ndim)
      where
        pair : Option (List ℤ) → SpanPair
        pair found = elim found [
          | some span ↦ make_sorted_indices span
          | none ↦ record { disk = map pos (take size (iota 0 n)); mem = take size (iota 0 n) }
        ]

        by_span :
            (found : Option (List ℤ))
            → Perm
                (index_pairs (pair found))
                (positioned (elim found [ some span ↦ span | none ↦ map pos (iota 0 size) ]))
              × (length (pair found).mem ≡ length (pair found).disk)
        by_span (some span) = sorted-positioned span
        by_span none =
            let whole = take-iota size n 0 l in
            let count : length (map pos (iota 0 size)) ≡ size =
              length-map (iota 0 size) pos ∙ length-iota 0 size in
            (
              subst (λ pairs. Perm pairs (positioned (map pos (iota 0 size))))
                  (ap (λ m. zip (map pos (iota 0 size)) (iota 0 m)) count
                    ∙ ap (λ ids. zip (map pos ids) ids) (sym whole))
                  (Perm.refl _),
              sym (length-map (take size (iota 0 n)) pos),
            )
