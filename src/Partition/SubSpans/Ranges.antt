-- ===== src/Partition/SubSpans/Ranges.antt =====
-- What a sub-span of ascending disk indices is: all of them negative, or none of them and each the
-- successor of the one before (for the row dimension: each larger than the one before).
use arcae.Prelude.{
  ℕ, zero, suc, ◌+◌, ◌-◌, ◌≤◌, ◌<◌, ◌≡◌, refl, sym, subst, Bool, true, false, List, [], ◌∷◌, ◌⊎◌,
  inl, inr, arith, ℕ_discrete, length, All, All-append, ℤ, pos, is_neg, ltb_ℤ, ◌-ℤ◌, ◌≤ℤ◌,
  Bool-cases, ok, >>=-eq-ok,
}
use arcae.Partition.{SpanPair, disk_at}
use arcae.Partition.SortedIndices.{Ascending}
use arcae.Partition.SubSpans.{
  Scan, start_scan, sub_span, make_sub_span, sub_spans_step, sub_spans_loop, make_sub_spans,
}

Ascending-next :
    (disk : List ℤ) (k : ℕ)
    → Ascending disk
    → suc k < length disk
    → disk_at disk k ≤ℤ disk_at disk (suc k)
Ascending-next [] k h l = absurd (omega arith)
Ascending-next (x ∷ []) k h l = absurd (omega arith)
Ascending-next (x ∷ y ∷ r) zero h l = h.0
Ascending-next (x ∷ y ∷ r) (suc k) h l = Ascending-next (y ∷ r) k h.1 (omega arith)

pub Ascending-le :
    (disk : List ℤ) (a n : ℕ)
    → Ascending disk
    → a + n < length disk
    → disk_at disk a ≤ℤ disk_at disk (a + n)
Ascending-le disk a zero h l = let e : a + 0 ≡ a = omega arith in rw e (omega arith)
Ascending-le disk a (suc n) h l =
    let e : a + suc n ≡ suc (a + n) = omega arith in
    rw e (
      omega
        (arith, Ascending-le disk a n h (omega arith), Ascending-next disk (a + n) h (omega arith)))

abbrev pub Next : Bool → ℤ → ℤ → Type 0
Next true x y = ltb_ℤ x y ≡ true
Next false x y = y -ℤ x ≡ pos 1

-- The positions from `a` up to `b` hold negative indices.
abbrev pub Missing : List ℤ → ℕ → ℕ → Type 0
Missing disk a b = (k : ℕ) → a ≤ k → k < b → is_neg (disk_at disk k) ≡ true

-- They hold no negative index, and each but the first follows the one before.
abbrev pub Rising : Bool → List ℤ → ℕ → ℕ → Type 0
Rising entire disk a b =
    ((k : ℕ) → a ≤ k → k < b → is_neg (disk_at disk k) ≡ false)
    × ((k : ℕ) → a ≤ k → suc k < b → Next entire (disk_at disk k) (disk_at disk (suc k)))

abbrev pub IsRange : Bool → List ℤ → ℕ → ℕ → Type 0
IsRange entire disk a b = Missing disk a b ⊎ Rising entire disk a b

module _ (disk : List ℤ) where
  Missing-suc :
      (a i : ℕ) → Missing disk a i → is_neg (disk_at disk i) ≡ true → Missing disk a (suc i)
  Missing-suc a i h e k ak ki = elim (ℕ_discrete k i) [
    | yes p ↦ rw p e
    | no p ↦ h k ak (omega arith)
  ]

  Rising-suc :
      (entire : Bool) (a i : ℕ)
      → Rising entire disk a (suc i)
      → is_neg (disk_at disk (suc i)) ≡ false
      → Next entire (disk_at disk i) (disk_at disk (suc i))
      → Rising entire disk a (suc (suc i))
  Rising-suc entire a i h e n = (signs, steps)
    where
      signs : (k : ℕ) → a ≤ k → k < suc (suc i) → is_neg (disk_at disk k) ≡ false
      signs k ak ki = elim (ℕ_discrete k (suc i)) [ yes p ↦ rw p e | no p ↦ h.0 k ak (omega arith) ]

      steps :
          (k : ℕ)
          → a ≤ k
          → suc k < suc (suc i)
          → Next entire (disk_at disk k) (disk_at disk (suc k))
      steps k ak ki = elim (ℕ_discrete k i) [
        | yes p ↦ subst (λ m. Next entire (disk_at disk m) (disk_at disk (suc m))) (sym p) n
        | no p ↦ h.1 k ak (omega arith)
      ]

  single-IsRange : (entire : Bool) (i : ℕ) → IsRange entire disk i (suc i)
  single-IsRange entire i = elim (Bool-cases (is_neg (disk_at disk i))) [
    | inl e ↦ inl (λ k ik ki. let p : k ≡ i = omega arith in rw p e)
    | inr e ↦
        inr (λ k ik ki. let p : k ≡ i = omega arith in rw p e, λ k ik ki. absurd (omega arith))
  ]

module _ (disk : List ℤ) (mem : List ℕ) (entire : Bool) (asc : Ascending disk) where
  -- A sub-span is one of those ranges.
  abbrev pub IsPiece : SpanPair → Type 0
  IsPiece p =
      (a : ℕ) × (b : ℕ) × (p ≡ sub_span disk mem a b)
      × (a < b)
      × (b ≤ length disk)
      × IsRange entire disk a b

  pub record Inv (i : ℕ) (st : Scan) : Type 0 where
    pub behind : st.start < i
    pub pieces : All IsPiece st.result
    pub current : IsRange entire disk st.start i

  cut-Inv :
      {i : ℕ} {st : Scan} → i < length disk → Inv i st → Inv (suc i) (make_sub_span disk mem i st)
  unfolding make_sub_span
  cut-Inv {i} {st} l v = record {
    behind = omega arith;
    pieces =
        All-append IsPiece st.result _ v.pieces
          ((st.start, i, refl, v.behind, omega arith, v.current), tt);
    current = single-IsRange disk entire i;
  }

  -- At a negative index the sub-span holds none that is not.
  negative-IsRange :
      (a i : ℕ)
      → a < i
      → i < length disk
      → is_neg (disk_at disk i) ≡ true
      → IsRange entire disk a i
      → IsRange entire disk a (suc i)
  negative-IsRange a i ai l e (inl m) = inl (Missing-suc disk a i m e)
  negative-IsRange a i ai l e (inr r) =
      absurd (falls (disk_at disk a) (disk_at disk i) (r.0 a (omega arith) ai) e le)
    where
      le : disk_at disk a ≤ℤ disk_at disk i
      le =
          let p : a + (i - a) ≡ i = omega arith in
          subst (λ n. disk_at disk a ≤ℤ disk_at disk n) p
            (Ascending-le disk a (i - a) asc (omega arith))

      falls : (x y : ℤ) → is_neg x ≡ false → is_neg y ≡ true → x ≤ℤ y → ⊥
      falls x y p q r = ground arith

  rising-IsRange :
      (a i : ℕ)
      → a ≤ i
      → is_neg (disk_at disk a) ≡ false
      → is_neg (disk_at disk (suc i)) ≡ false
      → Next entire (disk_at disk i) (disk_at disk (suc i))
      → IsRange entire disk a (suc i)
      → IsRange entire disk a (suc (suc i))
  rising-IsRange a i ai ea e n (inl m) = absurd (ground (arith, m a (omega arith) (omega arith)))
  rising-IsRange a i ai ea e n (inr r) = inr (Rising-suc disk entire a i r e n)

-- What a round did that did not fail, and why.
round_cases :
    (disk : List ℤ) (mem : List ℕ) (entire : Bool) (i : ℕ) (st : Scan) {st' : Scan}
    → disk_at disk i ≤ℤ disk_at disk (suc i)
    → sub_spans_step disk mem entire (suc i) st ≡ ok st'
    → ((st' ≡ st) × (is_neg (disk_at disk (suc i)) ≡ true))
      ⊎ ((st' ≡ st)
          × (is_neg (disk_at disk st.start) ≡ false)
          × (is_neg (disk_at disk (suc i)) ≡ false)
          × Next entire (disk_at disk i) (disk_at disk (suc i)))
      ⊎ (st' ≡ make_sub_span disk mem (suc i) st)
unfolding sub_spans_step
round_cases disk mem true i st le h = ground arith
round_cases disk mem false i st le h = ground arith

module _ (disk : List ℤ) (mem : List ℕ) (entire : Bool) (asc : Ascending disk) where
  pub step-Inv :
      (i : ℕ) {st st' : Scan}
      → suc i < length disk
      → Inv disk mem entire asc (suc i) st
      → sub_spans_step disk mem entire (suc i) st ≡ ok st'
      → Inv disk mem entire asc (suc (suc i)) st'
  step-Inv i {st} {st'} l v h =
      elim (round_cases disk mem entire i st (Ascending-next disk i asc l) h) [
        | inl (same, e) ↦ subst (Inv disk mem entire asc (suc (suc i))) (sym same) (record {
          behind = omega (arith, v.behind);
          pieces = v.pieces;
          current = negative-IsRange disk mem entire asc st.start (suc i) v.behind l e v.current;
        })
        | inr (inl (same, es, e, n)) ↦
            subst (Inv disk mem entire asc (suc (suc i))) (sym same) (record {
              behind = omega (arith, v.behind);
              pieces = v.pieces;
              current =
                  rising-IsRange disk mem entire asc st.start i (omega (arith, v.behind)) es e n
                    v.current;
            })
        | inr (inr cut) ↦
            subst (Inv disk mem entire asc (suc (suc i))) (sym cut)
              (cut-Inv disk mem entire asc l v)
      ]

  loop-Inv :
      (rounds i : ℕ) {st st' : Scan}
      → suc i + rounds ≤ length disk
      → Inv disk mem entire asc (suc i) st
      → sub_spans_loop disk mem entire rounds (suc i) st ≡ ok st'
      → (j : ℕ) × (j ≡ suc i + rounds) × Inv disk mem entire asc j st'
  unfolding sub_spans_loop
  loop-Inv zero i {st} l v h =
      (suc i, omega arith, subst (Inv disk mem entire asc (suc i)) (ground arith) v)
  loop-Inv (suc rounds) i {st} l v h =
      let (next, e, later) = >>=-eq-ok (sub_spans_step disk mem entire (suc i) st) _ h in
      let (j, je, vj) =
        loop-Inv rounds (suc i) (omega arith) (step-Inv i (omega arith) v e) later in
      (j, omega arith, vj)

  pub start-Inv : Inv disk mem entire asc 1 start_scan
  start-Inv = record { behind = omega arith; pieces = tt; current = single-IsRange disk entire 0 }

  -- The sub-spans of a dimension that is not empty, and whose disk indices ascend, are ranges of
  -- positions that are not empty either. A range holds negative indices only, or none; one that
  -- holds none rises by one at each position, or by some amount where the entire range is wanted.
  pub make_sub_spans-IsPiece :
      {spans : List SpanPair}
      → 0 < length disk
      → make_sub_spans disk mem entire ≡ ok spans
      → All (IsPiece disk mem entire asc) spans
  unfolding make_sub_spans make_sub_span
  make_sub_spans-IsPiece {spans} some h =
      let (st, he, k) =
        >>=-eq-ok (sub_spans_loop disk mem entire (length disk - 1) 1 start_scan) _ h in
      let (j, je, v) = loop-Inv (length disk - 1) 0 (omega arith) start-Inv he in
      let same : (make_sub_span disk mem (length disk) st).result ≡ spans = ground arith in
      subst (All (IsPiece disk mem entire asc)) same (
        All-append (IsPiece disk mem entire asc) st.result _ v.pieces (
          (
            st.start,
            length disk,
            refl,
            omega (arith, v.behind),
            omega arith,
            subst (IsRange entire disk st.start) {x = j} (omega arith) v.current,
          ),
          tt,
        ))
