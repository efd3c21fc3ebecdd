-- ===== src/Partition/SubSpans/Duplicates.antt =====
-- When `MakeSubSpans` fails.
use arcae.Prelude.{
  ℕ, zero, suc, ◌+◌, ◌-◌, ◌≤◌, ◌<◌, ◌≡◌, ap, ◌∙◌, Bool, false, List, ◌⊎◌, inl, inr, ◌↔◌, arith,
  ℕ_discrete, length, ℤ, is_neg, Result, ok, err, index_error, Status, Result-cases,
}
use arcae.Partition.{SpanPair, disk_at}
use arcae.Partition.SortedIndices.{Ascending}
use arcae.Partition.SubSpans.{Scan, start_scan, sub_spans_step, sub_spans_loop, make_sub_spans}
use arcae.Partition.SubSpans.Ranges.{Inv, start-Inv, step-Inv, IsRange}

-- Two neighbours are the same index, which is not negative.
abbrev pub HasDuplicate : List ℤ → Type 0
HasDuplicate disk =
    (k : ℕ) × (suc k < length disk)
    × (is_neg (disk_at disk k) ≡ false)
    × (disk_at disk k ≡ disk_at disk (suc k))

module _ (disk : List ℤ) (mem : List ℕ) (entire : Bool) where
  step-err :
      (i : ℕ) (st : Scan) {e : Status}
      → sub_spans_step disk mem entire (suc i) st ≡ err e
      → (e ≡ index_error)
        × (is_neg (disk_at disk i) ≡ false)
        × (disk_at disk i ≡ disk_at disk (suc i))
  unfolding sub_spans_step
  step-err i st h = ground arith

  loop-err :
      (rounds i : ℕ) (st : Scan) {e : Status}
      → suc i + rounds ≤ length disk
      → sub_spans_loop disk mem entire rounds (suc i) st ≡ err e
      → (e ≡ index_error) × HasDuplicate disk
  unfolding sub_spans_loop
  loop-err zero i st l h = cc
  loop-err (suc rounds) i st l h = elim (Result-cases (sub_spans_step disk mem entire (suc i) st)) [
    | inl (next, e) ↦ loop-err rounds (suc i) next (omega arith) (rw e at h)
    | inr (s, e) ↦
        let (is, nonneg, same) = step-err i st e in
        (is_error (rw e at h) is, (i, omega arith, nonneg, same))
  ]
    where
      is_error :
          {s e : Status} → ◌≡◌ {A = Result Scan} (err s) (err e) → s ≡ index_error → e ≡ index_error
      is_error p q = cc

module _ (disk : List ℤ) (mem : List ℕ) (entire : Bool) (asc : Ascending disk) where
  nonneg_start :
      (k a : ℕ)
      → a < suc k
      → IsRange entire disk a (suc k)
      → is_neg (disk_at disk k) ≡ false
      → is_neg (disk_at disk a) ≡ false
  nonneg_start k a l (inl m) e = absurd (ground (arith, m k (omega arith) (omega arith)))
  nonneg_start k a l (inr r) e = r.0 a (omega arith) l

  step-duplicate :
      (k : ℕ) (st : Scan)
      → is_neg (disk_at disk st.start) ≡ false
      → is_neg (disk_at disk k) ≡ false
      → disk_at disk k ≡ disk_at disk (suc k)
      → sub_spans_step disk mem entire (suc k) st ≡ err index_error
  unfolding sub_spans_step
  step-duplicate k st es e same = ground arith

  loop-duplicate :
      (k : ℕ)
      → suc k < length disk
      → is_neg (disk_at disk k) ≡ false
      → disk_at disk k ≡ disk_at disk (suc k)
      → (rounds i : ℕ) (st : Scan) → i ≤ k
      → k < i + rounds
      → suc i + rounds ≤ length disk
      → Inv disk mem entire asc (suc i) st
      → sub_spans_loop disk mem entire rounds (suc i) st ≡ err index_error
  unfolding sub_spans_loop
  loop-duplicate k l e same zero i st below above inside v = absurd (omega arith)
  loop-duplicate k l e same (suc rounds) i st below above inside v = elim (ℕ_discrete i k) [
    | yes here ↦
        let failed : sub_spans_step disk mem entire (suc i) st ≡ err index_error =
          step-duplicate i st (nonneg_start i st.start v.behind v.current (rw here e)) (rw here e)
            (rw here same) in
        rw failed
    | no later ↦ elim (Result-cases (sub_spans_step disk mem entire (suc i) st)) [
      | inl (next, done) ↦ rw done (
          loop-duplicate k l e same rounds (suc i) next (omega arith) (omega arith) (omega arith)
            (step-Inv disk mem entire asc i (omega arith) v done))
      | inr (s, failed) ↦ rw (failed, (step-err disk mem entire i st failed).0)
    ]
  ]

  loop_failure :
      sub_spans_loop disk mem entire (length disk - 1) 1 start_scan ≡ err index_error
      → make_sub_spans disk mem entire ≡ err index_error
  unfolding make_sub_spans
  loop_failure e = rw e

  duplicate-err : HasDuplicate disk → make_sub_spans disk mem entire ≡ err index_error
  duplicate-err (k, l, e, same) = loop_failure (
      loop-duplicate k l e same (length disk - 1) 0 start_scan (omega arith) (omega arith)
        (omega arith) (start-Inv disk mem entire asc))

  err-duplicate :
      (rounds : ℕ)
      → suc rounds ≤ length disk ⊎ (rounds ≡ 0)
      → {e : Status} → (sub_spans_loop disk mem entire rounds 1 start_scan) ≡ err e
      → (e ≡ index_error) × HasDuplicate disk
  unfolding sub_spans_loop
  err-duplicate zero l h = cc
  err-duplicate (suc rounds) (inl l) h =
      loop-err disk mem entire (suc rounds) 0 start_scan (omega arith) h
  err-duplicate (suc rounds) (inr l) h = absurd (omega arith)

  err_parts :
      {e : Status} → make_sub_spans disk mem entire ≡ err e → (e ≡ index_error) × HasDuplicate disk
  unfolding make_sub_spans
  err_parts h =
      elim (Result-cases (sub_spans_loop disk mem entire (length disk - 1) 1 start_scan)) [
        | inl (st, e) ↦ absurd (ground (arith, e))
        | inr (s, e) ↦
            let (is, dup) = err-duplicate (length disk - 1) (rounds_fit (length disk)) e in
            (ground (arith, e), dup)
      ]
    where
      rounds_fit : (n : ℕ) → (suc (n - 1) ≤ n) ⊎ (n - 1 ≡ 0)
      rounds_fit n = omega arith

  -- Over ascending disk indices `make_sub_spans` fails, with an index error, exactly when an index
  -- that is not negative is selected twice. Otherwise it returns sub-spans.
  pub make_sub_spans-err_iff :
      ((make_sub_spans disk mem entire ≡ err index_error) ↔ HasDuplicate disk)
      × (((spans : List SpanPair) × (make_sub_spans disk mem entire ≡ ok spans))
          ⊎ (make_sub_spans disk mem entire ≡ err index_error))
  make_sub_spans-err_iff = (
    (λ h. (err_parts h).1, duplicate-err),
    elim (Result-cases (make_sub_spans disk mem entire)) [
      | inl (spans, e) ↦ inl (spans, e)
      | inr (s, e) ↦ inr (e ∙ ap err (err_parts e).0)
    ],
  )
