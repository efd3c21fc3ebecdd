-- ===== src/Partition/Split/Rounds.antt =====
-- The rounds of the loop over one span, which cuts it into pieces.
use arcae.Prelude.{
  ℕ, zero, suc, ◌+◌, ◌-◌, ◌≤◌, ◌<◌, ◌≡◌, refl, sym, ap, ◌∙◌, some, List, [], ◌∷◌, ◌++◌, append-nil,
  append_assoc, arith, length, get_or, length-append, min, drop, subspan, subspan-drop, drop_all,
  concat, concat-map-snoc, ltb, Bool-cases, inl, inr, dec_le, ◌⊎◌,
}
use arcae.Partition.{SpanPair, SpanPairs}
use arcae.Partition.SubSpans.Cover.{disks, mems}
use arcae.Partition.Split.{Cutting, next_end, tail_ends, cut_step, cut_span}
use arcae.Partition.Split.Ends.{Ends}

-- From `st` to `st'` the rows of a span from `start` on were cut into pieces.
pub record Cut (n start : ℕ) (span : SpanPair) (st st' : Cutting) : Type 0 where
  pub ends_rise : Ends st'.position st'.ends n
  pub moved : st'.position ≡ st.position + (length span.disk - start)
  pub disk_part : concat (disks st'.result) ≡ concat (disks st.result) ++ drop start span.disk
  pub mem_part : concat (mems st'.result) ≡ concat (mems st.result) ++ drop start span.mem
  pub few :
      length st'.result + length st'.ends
      ≤ length st.result + length st.ends + min 1 (length span.disk - start)

-- One round: `n` rows are cut off, up to the end of the span or of the piece.
step-Ends :
    (span : SpanPair) (start n p e total : ℕ) (ends : List ℕ) (result : SpanPairs)
    → p + n ≤ e
    → Ends p (e ∷ ends) total
    → let st' = cut_step span start n (record { position = p; ends = e ∷ ends; result = result }) in
      Ends st'.position st'.ends total
unfolding cut_step
step-Ends span start n p e total ends result l h = ground arith

-- Where a round ends: with the span, or with the piece.
abbrev Reaches : ℕ → ℕ → SpanPair → Cutting → Type 0
Reaches start n span st =
    (n ≡ length span.disk - start)
    ⊎ ((st.position + n ≡ next_end st) × (0 < length st.ends) × (start + n ≤ length span.disk))

length-tail_ends : (ends : List ℕ) → length (tail_ends ends) ≡ length ends - 1
length-tail_ends [] = omega arith
length-tail_ends (e ∷ ends) = omega arith

step-few :
    (start n : ℕ) (span : SpanPair) (st : Cutting)
    → 0 < n
    → Reaches start n span st
    → length (cut_step span start n st).result
        + length (cut_step span start n st).ends
        + min 1 (length span.disk - (start + n))
      ≤ length st.result + length st.ends + min 1 (length span.disk - start)
unfolding cut_step
step-few start n span st h (inl whole) = ground (
  arith,
  length-tail_ends st.ends,
  length-append st.result
      (record { disk = subspan span.disk start n; mem = subspan span.mem start n } ∷ []),
)
step-few start n span st h (inr reach) = ground (
  arith,
  length-tail_ends st.ends,
  length-append st.result
      (record { disk = subspan span.disk start n; mem = subspan span.mem start n } ∷ []),
)

-- `cut_span` continues a first step.
step-Cut :
    (total start n : ℕ) (span : SpanPair) (st st' : Cutting)
    → 0 < n
    → Reaches start n span st
    → Cut total (start + n) span (cut_step span start n st) st'
    → Cut total start span st st'
unfolding cut_step
step-Cut total start n span st st' some_rows reach c = record {
  ends_rise = c.ends_rise;
  moved = omega arith;
  disk_part =
      c.disk_part
      ∙ ap (λ l. l ++ drop (start + n) span.disk) (concat-map-snoc (λ p. p.disk) st.result _)
      ∙ append_assoc (concat (disks st.result)) (subspan span.disk start n)
          (drop (start + n) span.disk)
      ∙ ap (◌++◌ (concat (disks st.result))) (subspan-drop start n span.disk);
  mem_part =
      c.mem_part
      ∙ ap (λ l. l ++ drop (start + n) span.mem) (concat-map-snoc (λ p. p.mem) st.result _)
      ∙ append_assoc (concat (mems st.result)) (subspan span.mem start n)
          (drop (start + n) span.mem)
      ∙ ap (◌++◌ (concat (mems st.result))) (subspan-drop start n span.mem);
  few = omega (arith, c.few, step-few start n span st some_rows reach);
}

stop-Cut :
    (total start : ℕ) (span : SpanPair) (st : Cutting)
    → length span.disk ≤ start
    → length span.mem ≡ length span.disk
    → Ends st.position st.ends total
    → Cut total start span st st
stop-Cut total start span st h same e = record {
  ends_rise = e;
  moved = omega arith;
  disk_part = rw (drop_all start span.disk h) (sym (append-nil _));
  mem_part = rw (drop_all start span.mem (omega arith)) (sym (append-nil _));
  few = omega arith;
}

round-Ends :
    (span : SpanPair) (start n total p : ℕ) (ends : List ℕ) (result : SpanPairs)
    → 0 < n
    → p + n ≤ get_or ends 0 0
    → Ends p ends total
    → let st' = cut_step span start n (record { position = p; ends = ends; result = result }) in
      Ends st'.position st'.ends total
round-Ends span start n total p [] result h l e = absurd (omega arith)
round-Ends span start n total p (x ∷ ends) result h l e =
    step-Ends span start n p x total ends result l e

position-cut_step :
    (span : SpanPair) (start n : ℕ) (st : Cutting)
    → (cut_step span start n st).position ≡ st.position + n
unfolding cut_step
position-cut_step span start n st = refl

-- While rows are left, the end of the current piece lies ahead.
end_ahead :
    (p total : ℕ) (ends : List ℕ)
    → Ends p ends total
    → p < total
    → (p < get_or ends 0 0) × (0 < length ends)
end_ahead p total [] e l = absurd (omega arith)
end_ahead p total (x ∷ ends) e l = (e.0, omega arith)

round-Reaches :
    (start : ℕ) (span : SpanPair) (st : Cutting)
    → start < length span.disk
    → st.position < next_end st
    → 0 < length st.ends
    → Reaches start (min (length span.disk - start) (next_end st - st.position)) span st
round-Reaches start span st inside ahead some_end =
    elim (dec_le (length span.disk - start) (next_end st - st.position)) [
      | yes whole ↦ inl (omega arith)
      | no part ↦ inr (omega arith, some_end, omega arith)
    ]

-- The loop over a span ends, within its fuel.
pub cut_span-Cut :
    (fuel total start : ℕ) (span : SpanPair) (st : Cutting)
    → length span.disk - start < fuel
    → length span.mem ≡ length span.disk
    → Ends st.position st.ends total
    → st.position + (length span.disk - start) ≤ total
    → (st' : Cutting) × (cut_span fuel span start st ≡ some st') × Cut total start span st st'
unfolding cut_span
cut_span-Cut zero total start span st l same e fits = absurd (omega arith)
cut_span-Cut (suc fuel) total start span st l same e fits =
    elim (Bool-cases (ltb start (length span.disk))) [
      | inr stop ↦ (st, rw stop, stop-Cut total start span st (ground arith) same e)
      | inl more ↦
          let n = min (length span.disk - start) (next_end st - st.position) in
          let inside : start < length span.disk = ground arith in
          let ahead = end_ahead st.position total st.ends e (omega arith) in
          let moved = position-cut_step span start n st in
          let (st', done, c) =
            cut_span-Cut fuel total (start + n) span (cut_step span start n st) (omega arith) same
              (round-Ends span start n total st.position st.ends st.result (omega arith)
                (omega arith) e)
              (omega arith) in
          (
            st',
            rw more done,
            step-Cut total start n span st st' (omega arith)
                (round-Reaches start span st inside ahead.0 ahead.1) c,
          )
    ]
