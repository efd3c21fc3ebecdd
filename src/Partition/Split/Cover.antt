-- ===== src/Partition/Split/Cover.antt =====
-- Splitting the rows into pieces loses none, and makes few pieces.
use arcae.Prelude.{
  ℕ, suc, ◌+◌, ◌≤◌, ◌<◌, ◌≡◌, refl, sym, ap, ◌∙◌, true, false, Option, some, [], ◌∷◌, ◌++◌,
  append-nil, append_assoc, arith, length, length-append, concat, concat-map-snoc, All,
  if◌then◌else◌, Bool-cases, inl, inr,
}
use arcae.Partition.{SpanPair, SpanPairs}
use arcae.Partition.SubSpans.Cover.{disks, mems}
use arcae.Partition.Split.{
  Cutting, is_missing, cut_span, cut_spans, split_row_spans, piece_ends, row_at,
}
use arcae.Partition.Split.Rounds.{cut_span-Cut}
use arcae.Partition.Split.Ends.{Ends, piece_ends-Ends}

-- The rows read from disk.
abbrev pub read_total : SpanPairs → ℕ
read_total [] = 0
read_total (span ∷ spans) = (if is_missing span then 0 else length span.disk) + read_total spans

abbrev pub SameLengths : SpanPairs → Type 0
SameLengths = All (λ (span : SpanPair). length span.mem ≡ length span.disk)

record CutAll (total : ℕ) (spans : SpanPairs) (st st' : Cutting) : Type 0 where
  ends_rise : Ends st'.position st'.ends total
  disk_part : concat (disks st'.result) ≡ concat (disks st.result) ++ concat (disks spans)
  mem_part : concat (mems st'.result) ≡ concat (mems st.result) ++ concat (mems spans)
  few : length st'.result + length st'.ends ≤ length st.result + length st.ends + length spans

-- A step over the first span, and the others.
cons-CutAll :
    (total : ℕ) (span : SpanPair) (spans : SpanPairs) (st next st' : Cutting)
    → concat (disks next.result) ≡ concat (disks st.result) ++ span.disk
    → concat (mems next.result) ≡ concat (mems st.result) ++ span.mem
    → length next.result + length next.ends ≤ length st.result + length st.ends + 1
    → CutAll total spans next st'
    → CutAll total (span ∷ spans) st st'
cons-CutAll total span spans st next st' d m f c = record {
  ends_rise = c.ends_rise;
  disk_part =
      c.disk_part
      ∙ ap (λ l. l ++ concat (disks spans)) d
      ∙ append_assoc (concat (disks st.result)) span.disk (concat (disks spans));
  mem_part =
      c.mem_part
      ∙ ap (λ l. l ++ concat (mems spans)) m
      ∙ append_assoc (concat (mems st.result)) span.mem (concat (mems spans));
  few = omega (arith, c.few);
}

cut_spans-missing :
    (span : SpanPair) (spans : SpanPairs) (st : Cutting)
    → is_missing span ≡ true
    → cut_spans (span ∷ spans) st ≡ cut_spans spans (record st { result = st.result ++ span ∷ [] })
unfolding cut_spans
cut_spans-missing span spans st e = rw e

cut_spans-read :
    (span : SpanPair) (spans : SpanPairs) (st next : Cutting)
    → is_missing span ≡ false
    → cut_span (suc (length span.disk)) span 0 st ≡ some next
    → cut_spans (span ∷ spans) st ≡ cut_spans spans next
unfolding cut_spans
cut_spans-read span spans st next e cut = rw (e, cut)

cut_spans-CutAll :
    (total : ℕ) (spans : SpanPairs) (st : Cutting)
    → SameLengths spans
    → Ends st.position st.ends total
    → st.position + read_total spans ≤ total
    → (st' : Cutting) × (cut_spans spans st ≡ some st') × CutAll total spans st st'
unfolding cut_spans
cut_spans-CutAll total [] st same e fits = (
  st,
  refl,
  record {
    ends_rise = e;
    disk_part = sym (append-nil _);
    mem_part = sym (append-nil _);
    few = omega arith;
  },
)
cut_spans-CutAll total (span ∷ spans) st same e fits = elim (Bool-cases (is_missing span)) [
  | inl missing ↦
      let next : Cutting = record st { result = st.result ++ span ∷ [] } in
      let (st', done, c) = cut_spans-CutAll total spans next same.1 e (omega arith) in
      (
        st',
        cut_spans-missing span spans st missing ∙ done,
        cons-CutAll total span spans st next st' (concat-map-snoc (λ p. p.disk) st.result span)
            (concat-map-snoc (λ p. p.mem) st.result span)
            (omega (arith, length-append st.result (span ∷ []))) c,
      )
  | inr read ↦
      let all : read_total (span ∷ spans) ≡ length span.disk + read_total spans = rw read in
      let (next, cut, c) =
        cut_span-Cut (suc (length span.disk)) total 0 span st (omega arith) same.0 e
          (omega (arith, all)) in
      let (st', done, c') =
        cut_spans-CutAll total spans next same.1 c.ends_rise (omega (arith, all, c.moved)) in
      (
        st',
        cut_spans-read span spans st next read cut ∙ done,
        cons-CutAll total span spans st next st' c.disk_part c.mem_part (omega (arith, c.few)) c',
      )
]

abbrev pub first_cutting : SpanPairs → ℕ → ℕ → Option (ℕ → ℕ) → Cutting
first_cutting spans nrows nsplits unit_start = record {
  position = 0;
  ends = piece_ends (row_at spans) unit_start nrows nsplits;
  result = [];
}

split_done :
    (spans : SpanPairs) (nrows nsplits : ℕ) (unit_start : Option (ℕ → ℕ)) {st : Cutting}
    → cut_spans spans (first_cutting spans nrows nsplits unit_start) ≡ some st
    → split_row_spans spans nrows nsplits unit_start ≡ some st.result
unfolding split_row_spans
split_done spans nrows nsplits unit_start e = rw (e, split_row_spans)

-- Splitting the rows into at most `nsplits` pieces ends, whatever the starts of storage units are.
-- The disk and the memory spans of the result, joined, are those of the spans that were split, and
-- there are at most `nsplits` more pieces than spans. The rows read from disk are `nrows`, which is
-- positive, and the disk and the memory span of each pair are of one length.
pub split_row_spans_total :
    (spans : SpanPairs) (nrows nsplits : ℕ) (unit_start : Option (ℕ → ℕ))
    → SameLengths spans
    → read_total spans ≡ nrows
    → 0 < nrows
    → 0 < nsplits
    → (result : SpanPairs) × (split_row_spans spans nrows nsplits unit_start ≡ some result)
      × (concat (disks result) ≡ concat (disks spans))
      × (concat (mems result) ≡ concat (mems spans))
      × (length result ≤ length spans + nsplits)
split_row_spans_total spans nrows nsplits unit_start same rows some_row some_split =
    let ends = piece_ends-Ends (row_at spans) unit_start nrows nsplits some_row some_split in
    let start : Cutting = first_cutting spans nrows nsplits unit_start in
    let (st, done, c) = cut_spans-CutAll nrows spans start same ends.0 (omega arith) in
    (
      st.result,
      split_done spans nrows nsplits unit_start done,
      c.disk_part,
      c.mem_part,
      omega (arith, c.few, ends.1),
    )
