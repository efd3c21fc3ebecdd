-- ===== src/Partition/Make/Pairs.antt =====
-- The pairs of indices of a dimension, through its sub-spans and its pieces.
use arcae.Prelude.{
  ℕ, zero, suc, ◌+◌, ◌-◌, ◌≡◌, refl, sym, ap, subst, ◌∙◌, Bool, true, false, Option, none, some,
  List, [], ◌∷◌, ◌++◌, map, zip, concat, length, length-take, length-drop, subspan, All-append, ltb,
  min, if◌then◌else◌, arith, Bool-cases, Option-cases, inl, inr, ℤ, is_neg, eqb_ℤ, ◌-ℤ◌, pos, ok,
  err, index_error, >>=-eq-ok,
}
use arcae.Partition.{SpanPair, SpanPairs, disk_at}
use arcae.Partition.SubSpans.{
  Scan, start_scan, sub_span, make_sub_span, sub_spans_step, sub_spans_loop, make_sub_spans,
}
use arcae.Partition.SubSpans.Cover.{disks, mems, make_sub_spans_cover}
use arcae.Partition.Product.Order.{index_pairs}
use arcae.Partition.Split.{
  Cutting, is_missing, cut_step, cut_span, cut_spans, split_row_spans, next_end,
}
use arcae.Partition.Split.Cover.{SameLengths, first_cutting}

length-subspan :
    {A : Type 0} (xs : List A) (s n : ℕ) → length (subspan xs s n) ≡ min n (length xs - s)
length-subspan xs s n = length-take n _ ∙ ap (min n) (length-drop s xs)

subspan-same :
    (disk : List ℤ) (mem : List ℕ) (s n : ℕ)
    → length mem ≡ length disk
    → length (subspan mem s n) ≡ length (subspan disk s n)
subspan-same disk mem s n e =
    length-subspan mem s n ∙ ap (λ l. min n (l - s)) e ∙ sym (length-subspan disk s n)

SameLengths-snoc :
    (spans : SpanPairs) (span : SpanPair)
    → SameLengths spans
    → length span.mem ≡ length span.disk
    → SameLengths (spans ++ span ∷ [])
SameLengths-snoc spans span h e =
    All-append (λ (span : SpanPair). length span.mem ≡ length span.disk) spans (span ∷ []) h (e, tt)

module _ (disk : List ℤ) (mem : List ℕ) (same : length mem ≡ length disk) where
  step-SameLengths :
      (entire : Bool) (i : ℕ) (st after : Scan)
      → SameLengths st.result
      → sub_spans_step disk mem entire i st ≡ ok after
      → SameLengths after.result
  unfolding sub_spans_step make_sub_span sub_span
  step-SameLengths entire i st after h e =
      by_tests (is_neg (disk_at disk i)) (is_neg (disk_at disk st.start))
        (eqb_ℤ (disk_at disk i) (disk_at disk (i - 1)))
        (eqb_ℤ (disk_at disk i -ℤ disk_at disk (i - 1)) (pos 1)) entire e
    where
      pushed : ok (make_sub_span disk mem i st) ≡ ok after → SameLengths after.result
      pushed e =
          let equal : make_sub_span disk mem i st ≡ after = cc in
          subst (λ (st : Scan). SameLengths st.result) equal
            (SameLengths-snoc st.result (sub_span disk mem st.start i) h
              (subspan-same disk mem st.start (i - st.start) same))

      kept : ok st ≡ ok after → SameLengths after.result
      kept e = let equal : st ≡ after = cc in subst (λ (st : Scan). SameLengths st.result) equal h

      by_tests :
          (missing missing_before equal next entire : Bool)
          → (if missing
              then ok st
              else if missing_before
              then ok (make_sub_span disk mem i st)
              else if equal
              then err index_error
              else if next
              then ok st
              else if entire
              then ok st
              else ok (make_sub_span disk mem i st))
            ≡ ok after
          → SameLengths after.result
      by_tests true b c d f e = kept e
      by_tests false true c d f e = pushed e
      by_tests false false true d f e = absurd cc
      by_tests false false false true f e = kept e
      by_tests false false false false true e = kept e
      by_tests false false false false false e = pushed e

  loop-SameLengths :
      (entire : Bool) (rounds i : ℕ) (st after : Scan)
      → SameLengths st.result
      → sub_spans_loop disk mem entire rounds i st ≡ ok after
      → SameLengths after.result
  unfolding sub_spans_loop
  loop-SameLengths entire zero i st after h e =
      let equal : st ≡ after = cc in subst (λ (st : Scan). SameLengths st.result) equal h
  loop-SameLengths entire (suc rounds) i st after h e =
      let (next, first, e') = >>=-eq-ok (sub_spans_step disk mem entire i st) _ e in
      loop-SameLengths entire rounds (suc i) next after (step-SameLengths entire i st next h first)
        e'

  pub make_sub_spans-SameLengths :
      (entire : Bool) {spans : SpanPairs}
      → make_sub_spans disk mem entire ≡ ok spans
      → SameLengths spans
  unfolding make_sub_spans make_sub_span sub_span
  make_sub_spans-SameLengths entire {spans} e =
      let (st, loop, e') =
        >>=-eq-ok (sub_spans_loop disk mem entire (length disk - 1) 1 start_scan) _ e in
      let equal : (make_sub_span disk mem (length disk) st).result ≡ spans = ground arith in
      subst SameLengths equal (
        SameLengths-snoc st.result _
          (loop-SameLengths entire (length disk - 1) 1 start_scan st tt loop)
          (subspan-same disk mem st.start (length disk - st.start) same))

cut_span-SameLengths :
    (fuel : ℕ) (span : SpanPair) (start : ℕ) (st : Cutting) {after : Cutting}
    → length span.mem ≡ length span.disk
    → SameLengths st.result
    → cut_span fuel span start st ≡ some after
    → SameLengths after.result
unfolding cut_span cut_step
cut_span-SameLengths zero span start st same h e = absurd cc
cut_span-SameLengths (suc fuel) span start st {after} same h e =
    let n = min (length span.disk - start) (next_end st - st.position) in
    let next = cut_span fuel span (start + n) (cut_step span start n st) in
    elim (Bool-cases (ltb start (length span.disk))) [
      | inl more ↦
          let e' : next ≡ some after =
            sym (ap (λ (b : Bool). if b then next else some st) more) ∙ e in
          cut_span-SameLengths fuel span (start + n) (cut_step span start n st) same
            (SameLengths-snoc st.result _ h (subspan-same span.disk span.mem start n same)) e'
      | inr done ↦
          let e' : some st ≡ some after =
            sym (ap (λ (b : Bool). if b then next else some st) done) ∙ e in
          let equal : st ≡ after = cc in subst (λ (st : Cutting). SameLengths st.result) equal h
    ]

cut_spans-SameLengths :
    (spans : SpanPairs) (st : Cutting) {after : Cutting}
    → SameLengths spans
    → SameLengths st.result
    → cut_spans spans st ≡ some after
    → SameLengths after.result
unfolding cut_spans
cut_spans-SameLengths [] st {after} same h e =
    let equal : st ≡ after = cc in subst (λ (st : Cutting). SameLengths st.result) equal h
cut_spans-SameLengths (span ∷ spans) st {after} same h e =
    let kept : Cutting = record st { result = st.result ++ span ∷ [] } in
    let cut = cut_span (suc (length span.disk)) span 0 st in
    elim (Bool-cases (is_missing span)) [
      | inl missing ↦
          cut_spans-SameLengths spans kept same.1 (SameLengths-snoc st.result span h same.0)
            (sym (ap (by_test kept cut) missing) ∙ e)
      | inr read ↦ elim (Option-cases cut) [
        | inl none_left ↦
            let e' : none ≡ some after =
              sym (ap (by_test kept cut) read ∙ ap (λ cut. by_test kept cut false) none_left) ∙ e in
            absurd cc
        | inr (next, made) ↦
            cut_spans-SameLengths spans next same.1
              (cut_span-SameLengths (suc (length span.disk)) span 0 st same.0 h made)
              (sym (ap (by_test kept cut) read ∙ ap (λ cut. by_test kept cut false) made) ∙ e)
      ]
    ]
  where
    by_test : Cutting → Option Cutting → Bool → Option Cutting
    by_test kept cut missing =
        if missing
        then cut_spans spans kept
        else elim cut [ none ↦ none | some next ↦ cut_spans spans next ]

pub split_row_spans-SameLengths :
    (spans : SpanPairs) (nrows nsplits : ℕ) (unit_start : Option (ℕ → ℕ)) {pieces : SpanPairs}
    → SameLengths spans
    → split_row_spans spans nrows nsplits unit_start ≡ some pieces
    → SameLengths pieces
unfolding split_row_spans
split_row_spans-SameLengths spans nrows nsplits unit_start {pieces} same e =
    elim (Option-cases (cut_spans spans (first_cutting spans nrows nsplits unit_start))) [
      | inl none_left ↦ let e' : none ≡ some pieces = sym (ap result none_left) ∙ e in absurd cc
      | inr (st, cut) ↦
          let e' : some st.result ≡ some pieces = sym (ap result cut) ∙ e in
          let equal : st.result ≡ pieces = cc in
          subst SameLengths equal (cut_spans-SameLengths spans _ same tt cut)
    ]
  where
    result : Option Cutting → Option SpanPairs
    result found = elim found [ none ↦ none | some st ↦ some st.result ]

zip-append :
    (xs : List ℤ) (ms : List ℕ) (ys : List ℤ) (ns : List ℕ)
    → length ms ≡ length xs
    → zip (xs ++ ys) (ms ++ ns) ≡ zip xs ms ++ zip ys ns
unfolding mathlib.Core.List.zip
zip-append [] [] ys ns e = refl
zip-append [] (m ∷ ms) ys ns e = absurd (omega (arith, e))
zip-append (x ∷ xs) [] ys ns e = absurd (omega (arith, e))
zip-append (x ∷ xs) (m ∷ ms) ys ns e = ap (◌∷◌ (x, m)) (zip-append xs ms ys ns (omega (arith, e)))

-- The pairs of spans, joined, are those of the joined spans.
pub concat-index_pairs :
    (spans : SpanPairs)
    → SameLengths spans
    → concat (map index_pairs spans) ≡ zip (concat (disks spans)) (concat (mems spans))
unfolding mathlib.Core.List.zip
concat-index_pairs [] h = refl
concat-index_pairs (span ∷ spans) h =
    ap (◌++◌ (index_pairs span)) (concat-index_pairs spans h.1)
    ∙ sym (zip-append span.disk span.mem (concat (disks spans)) (concat (mems spans)) h.0)

-- The sub-spans of a dimension have the pairs of the dimension.
pub make_sub_spans-pairs :
    (pair : SpanPair) (entire : Bool) {spans : SpanPairs}
    → length pair.mem ≡ length pair.disk
    → make_sub_spans pair.disk pair.mem entire ≡ ok spans
    → concat (map index_pairs spans) ≡ index_pairs pair
make_sub_spans-pairs pair entire {spans} same e =
    let cover = make_sub_spans_cover pair.disk pair.mem entire same e in
    concat-index_pairs spans (make_sub_spans-SameLengths pair.disk pair.mem same entire e)
    ∙ ap (λ d. zip d (concat (mems spans))) cover.0
    ∙ ap (zip pair.disk) cover.1
