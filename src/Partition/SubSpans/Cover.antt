-- ===== src/Partition/SubSpans/Cover.antt =====
-- The sub-spans, joined, are the spans that were divided.
use arcae.Prelude.{
  ℕ, zero, suc, ◌+◌, ◌-◌, ◌≤◌, ◌≡◌, refl, sym, ap, ◌∙◌, Bool, List, ◌++◌, map, arith, length, take,
  concat, concat-map-snoc, subst, dec_lt, ◌⊎◌, inl, inr, take-subspan, take_all, ℤ, ok, >>=-eq-ok,
}
use arcae.Partition.{SpanPair}
use arcae.Partition.SubSpans.{
  Scan, start_scan, sub_span, make_sub_span, sub_spans_step, sub_spans_loop, make_sub_spans,
}

abbrev pub disks : List SpanPair → List (List ℤ)
disks = map (λ p. p.disk)

abbrev pub mems : List SpanPair → List (List ℕ)
mems = map (λ p. p.mem)

module _ (disk : List ℤ) (mem : List ℕ) where
  -- The pieces cut so far end where the next one starts, at index `i` or before.
  record Covers (i : ℕ) (st : Scan) : Type 0 where
    behind : st.start ≤ i
    disk_part : concat (disks st.result) ≡ take st.start disk
    mem_part : concat (mems st.result) ≡ take st.start mem

  Covers-later : {i : ℕ} {st : Scan} → Covers i st → Covers (suc i) st
  Covers-later c = record { behind = omega arith; disk_part = c.disk_part; mem_part = c.mem_part }

  make_sub_span-Covers : {i : ℕ} {st : Scan} → Covers i st → Covers i (make_sub_span disk mem i st)
  unfolding make_sub_span
  make_sub_span-Covers {i} {st} c = record {
    behind = omega arith;
    disk_part =
        concat-map-snoc (λ p. p.disk) st.result _
        ∙ ap (λ xs. xs ++ (sub_span disk mem st.start i).disk) c.disk_part
        ∙ unfold sub_span in take-subspan st.start i disk c.behind;
    mem_part =
        concat-map-snoc (λ p. p.mem) st.result _
        ∙ ap (λ xs. xs ++ (sub_span disk mem st.start i).mem) c.mem_part
        ∙ unfold sub_span in take-subspan st.start i mem c.behind;
  }

  -- A round leaves the state alone, or cuts a sub-span at its index.
  step_cases :
      (entire : Bool) (i : ℕ) (st : Scan) {st' : Scan}
      → sub_spans_step disk mem entire i st ≡ ok st'
      → (st' ≡ st) ⊎ (st' ≡ make_sub_span disk mem i st)
  unfolding sub_spans_step
  step_cases entire i st h = ground arith

  step-Covers :
      (entire : Bool) (i : ℕ) {st st' : Scan}
      → Covers i st
      → sub_spans_step disk mem entire i st ≡ ok st'
      → Covers (suc i) st'
  step-Covers entire i {st} {st'} c h = elim (step_cases entire i st h) [
    | inl e ↦ subst (Covers (suc i)) (sym e) (Covers-later c)
    | inr e ↦ subst (Covers (suc i)) (sym e) (Covers-later (make_sub_span-Covers c))
  ]

  loop-Covers :
      (entire : Bool) (rounds i : ℕ) {st st' : Scan}
      → Covers i st
      → sub_spans_loop disk mem entire rounds i st ≡ ok st'
      → (j : ℕ) × (j ≡ i + rounds) × Covers j st'
  unfolding sub_spans_loop
  loop-Covers entire zero i {st} c h = (i, omega arith, subst (Covers i) (ground arith) c)
  loop-Covers entire (suc rounds) i {st} c h =
      let (next, e, later) = >>=-eq-ok (sub_spans_step disk mem entire i st) _ h in
      let (j, je, cj) = loop-Covers entire rounds (suc i) (step-Covers entire i c e) later in
      (j, omega arith, cj)

  start-Covers : Covers 0 start_scan
  start-Covers = record { behind = omega arith; disk_part = refl; mem_part = refl }

  loop-Covers_all :
      (entire : Bool) {st : Scan}
      → sub_spans_loop disk mem entire (length disk - 1) 1 start_scan ≡ ok st
      → Covers (length disk) st
  unfolding sub_spans_loop
  loop-Covers_all entire {st} h = elim (dec_lt 0 (length disk)) [
    | yes some_round ↦
        let (j, je, c) = loop-Covers entire (length disk - 1) 1 (Covers-later start-Covers) h in
        subst (λ n. Covers n st) {x = j} (omega arith) c
    | no no_round ↦
        let r : length disk - 1 ≡ 0 = omega arith in
        let (j, je, c) =
          loop-Covers entire 0 0 {st' = st} start-Covers
            (subst (λ n. sub_spans_loop disk mem entire n 1 start_scan ≡ ok st) r h) in
        subst (λ n. Covers n st) {x = j} (omega arith) c
  ]

  -- If the sub-spans are made, the disk spans joined are the disk span, and the memory spans joined
  -- are the memory span, which is as long.
  pub make_sub_spans_cover :
      (entire : Bool) {spans : List SpanPair}
      → length mem ≡ length disk
      → make_sub_spans disk mem entire ≡ ok spans
      → (concat (disks spans) ≡ disk) × (concat (mems spans) ≡ mem)
  unfolding make_sub_spans make_sub_span
  make_sub_spans_cover entire {spans} e h =
      let (st, he, k) =
        >>=-eq-ok (sub_spans_loop disk mem entire (length disk - 1) 1 start_scan) _ h in
      let c = make_sub_span-Covers (loop-Covers_all entire he) in
      let same : (make_sub_span disk mem (length disk) st).result ≡ spans = ground arith in
      (
        ap (λ r. concat (disks r)) (sym same) ∙ c.disk_part ∙ take_all _ disk (omega arith),
        ap (λ r. concat (mems r)) (sym same) ∙ c.mem_part ∙ take_all _ mem (omega arith),
      )
