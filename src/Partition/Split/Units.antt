-- ===== src/Partition/Split/Units.antt =====
-- `AlignBoundary` moves a boundary to where a storage unit starts.
use native.Mathlib.Nat.{mod-le, div-lt_iff_lt-mul}
use arcae.Prelude.{
  ℕ, zero, suc, ◌+◌, ◌-◌, ◌*◌, ◌/◌, ◌%◌, ◌^◌, ◌≤◌, ◌<◌, ◌==◌, ◌≡◌, sym, subst, Bool, true, false,
  ◌&&◌, inl, inr, some, List, [], ◌∷◌, All, All-append, ltb, leb, Bool-cases, arith,
}
use arcae.Partition.Split.{
  find_first, align_boundary, boundary, push_end, last_end, ends_loop, piece_ends,
}

-- All positions behind one that passes do, up to `last`.
abbrev Passes : (ℕ → Bool) → ℕ → Type 0
Passes test last = (i j : ℕ) → i ≤ j → j < last → test i ≡ true → test j ≡ true

-- The position found: none before it passes, and it does if it is not the end.
abbrev Found : (ℕ → Bool) → ℕ → ℕ → ℕ → Type 0
Found test first last r =
    (first ≤ r)
    × (r ≤ last)
    × ((i : ℕ) → first ≤ i → i < r → test i ≡ false)
    × (r < last → test r ≡ true)

-- What is found up to a position that passes.
Found-lower :
    (test : ℕ → Bool) (first half last r : ℕ)
    → half ≤ last
    → test half ≡ true
    → Found test first half r
    → Found test first last r
Found-lower test first half last r l at_half (lo, hi, none_before, found) = (
  lo,
  omega (arith, hi, l),
  none_before,
  λ h. elim (Bool-cases (ltb r half)) [
    | inl before ↦ found (ground arith)
    | inr after ↦
        let same : r ≡ half = ground (arith, hi) in subst (λ j. test j ≡ true) (sym same) at_half
  ],
)

-- What is found behind a position that does not pass.
Found-upper :
    (test : ℕ → Bool) (first half last r : ℕ)
    → first ≤ half
    → half < last
    → Passes test last
    → test half ≡ false
    → Found test (half + 1) last r
    → Found test first last r
Found-upper test first half last r l inside passes at_half (lo, hi, none_before, found) = (
  omega (arith, lo, l),
  hi,
  λ i at_first before. elim (Bool-cases (ltb i (half + 1))) [
    | inl early ↦ elim (Bool-cases (test i)) [
      | inl t ↦ let both = passes i half (ground arith) inside t in absurd cc
      | inr t ↦ t
    ]
    | inr late ↦ none_before i (ground arith) before
  ],
  found,
)

find_first-Found :
    (test : ℕ → Bool) (rounds first len : ℕ)
    → len ≤ rounds
    → Passes test (first + len)
    → Found test first (first + len) (find_first test rounds first len)
unfolding find_first
find_first-Found test zero first len l passes =
    (omega arith, omega arith, λ i lo hi. absurd (omega arith), λ h. absurd (omega arith))
find_first-Found test (suc rounds) first len l passes = elim (Bool-cases (len == 0)) [
  | inl e ↦
      rw e (omega arith, omega arith, λ i lo hi. absurd (omega arith), λ h. absurd (ground arith))
  | inr e ↦
      let some_len : 0 < len = ground arith in
      let half = first + len / 2 in
      elim (Bool-cases (test half)) [
        | inl at_half ↦
            rw (e, at_half)
              (Found-lower test first half (first + len) _ (omega arith) at_half (
                find_first-Found test rounds first (len / 2) (omega arith)
                  (λ i j le lt t. passes i j le (omega arith) t)))
        | inr at_half ↦
            let rest = len - len / 2 - 1 in
            let end : half + 1 + rest ≡ first + len = omega arith in
            let found : Found test (half + 1) (half + 1 + rest)
                (find_first test rounds (half + 1) rest) =
              find_first-Found test rounds (half + 1) rest (omega arith)
                (subst (Passes test) (sym end) passes) in
            rw (e, at_half)
              (Found-upper test first half (first + len) (find_first test rounds (half + 1) rest)
                (omega arith) (omega arith) passes at_half
                (subst (λ last. Found test (half + 1) last (find_first test rounds (half + 1) rest))
                  end found))
      ]
]

module _ (row_at unit_start : ℕ → ℕ) (nrows : ℕ) where
  -- The rows before a position and those from it on have no storage unit in common.
  abbrev pub Parts : ℕ → Type 0
  Parts b = (q r : ℕ) → q < b → b ≤ r → r < nrows → unit_start (row_at q) < unit_start (row_at r)

  module _ (ascend : (q r : ℕ) → q < r → r < nrows → row_at q < row_at r)
      (at_or_before : (row : ℕ) → unit_start row ≤ row)
      (monotone : (row other : ℕ) → row ≤ other → unit_start row ≤ unit_start other)
      (starts : (row : ℕ) → unit_start (unit_start row) ≡ unit_start row) where
    ascend_le : (q r : ℕ) → q ≤ r → r < nrows → row_at q ≤ row_at r
    ascend_le q r l h = elim (Bool-cases (q == r)) [
      | inl e ↦
          let same : q ≡ r = ground arith in subst (λ j. row_at q ≤ row_at j) same (omega arith)
      | inr e ↦ omega (arith, ascend q r (ground arith) h)
    ]

    -- The row at a position and those after it belong to the unit, or to one behind it.
    unit_from :
        (p b : ℕ)
        → b ≤ p
        → p < nrows
        → (b < p → unit_start (row_at p) ≤ row_at b)
        → ((i : ℕ) → i < b → row_at i < unit_start (row_at p))
        → Parts b
    unit_from p b l h at_b none_before q r before behind inside =
        let below : unit_start (row_at q) < unit_start (row_at p) =
          omega (arith, none_before q before, at_or_before (row_at q)) in
        let at_r : unit_start (row_at p) ≤ unit_start (row_at r) = elim (Bool-cases (ltb b p)) [
          | inl e ↦
              let above =
                monotone (unit_start (row_at p)) (row_at r)
                  (omega (arith, at_b (ground arith), ascend_le b r behind inside)) in
              omega (arith, above, starts (row_at p))
          | inr e ↦ monotone (row_at p) (row_at r) (ascend_le p r (ground arith) inside)
        ] in
        omega (arith, below, at_r)

    align_boundary-Parts : (p : ℕ) → p < nrows → Parts (align_boundary p nrows row_at unit_start)
    unfolding align_boundary
    align_boundary-Parts p h = elim (Bool-cases (unit == row_at p)) [
      | inl e ↦ rw e (
          unit_from p p (omega arith) h (λ l. absurd (omega arith))
            (λ i l. ground (arith, ascend i p l h)))
      | inr e ↦ elim (Bool-cases (leb (p - down) (next - p))) [
        | inl nearer ↦ rw (e, nearer) down-Parts
        | inr farther ↦ rw (e, farther) next-Parts
      ]
    ]
      where
        unit : ℕ
        unit = unit_start (row_at p)

        down : ℕ
        down = find_first (λ q. leb unit (row_at q)) p 0 p

        next : ℕ
        next =
            find_first (λ q. ltb unit (unit_start (row_at q))) (nrows - (p + 1)) (p + 1)
              (nrows - (p + 1))

        down-Parts : Parts down
        down-Parts =
            let (lo, hi, none_before, found) =
              find_first-Found (λ q. leb unit (row_at q)) p 0 p (omega arith)
                (λ i j le lt t. ground (arith, t, ascend_le i j le (omega (arith, lt)))) in
            unit_from p down (omega (arith, hi)) h (λ l. ground (arith, found (omega (arith, l))))
              (λ i l. ground (arith, none_before i (omega arith) l))

        next-Parts : Parts next
        next-Parts q r before behind inside =
            let (lo, hi, none_before, found) =
              find_first-Found (λ q. ltb unit (unit_start (row_at q))) (nrows - (p + 1)) (p + 1)
                (nrows - (p + 1)) (omega arith)
                (λ i j le lt t. ground (
                  arith,
                  t,
                  monotone (row_at i) (row_at j) (ascend_le i j le (omega (arith, lt))),
                )) in
            let at_q : unit_start (row_at q) ≤ unit = elim (Bool-cases (ltb p q)) [
              | inl e ↦ ground (arith, none_before q (ground arith) before)
              | inr e ↦ monotone (row_at q) (row_at p) (ascend_le q p (ground arith) h)
            ] in
            let at_next : unit < unit_start (row_at next) =
              ground (arith, found (omega (arith, behind, inside))) in
            omega (
              arith,
              at_q,
              at_next,
              monotone (row_at next) (row_at r) (ascend_le next r behind inside),
            )

    push_end-Parts :
        (end : ℕ) (ends : List ℕ) → Parts end → All Parts ends → All Parts (push_end end nrows ends)
    unfolding push_end
    push_end-Parts end ends p all = elim (Bool-cases (ltb (last_end ends) end && ltb end nrows)) [
      | inl e ↦ rw e (All-append Parts ends (end ∷ []) all (p, tt))
      | inr e ↦ rw e all
    ]

    ends_loop-Parts :
        (nsplits rounds split : ℕ) (ends : List ℕ)
        → 0 < nrows
        → split + rounds ≤ nsplits
        → All Parts ends
        → All Parts (ends_loop row_at (some unit_start) nrows nsplits rounds split ends)
    unfolding ends_loop boundary
    ends_loop-Parts nsplits zero split ends h l all = all
    ends_loop-Parts nsplits (suc rounds) split ends h l all =
        let fewer : suc split + rounds ≤ nsplits = omega arith in
        let inside : split * nrows % 2 ^ 64 / nsplits < nrows =
          (div-lt_iff_lt-mul (omega arith)).1 (grind (arith, mod-le (split * nrows) (2 ^ 64))) in
        let end = split * nrows % 2 ^ 64 / nsplits in
        let aligned = align_boundary-Parts end inside in
        ends_loop-Parts nsplits rounds (suc split) _ h fewer
          (push_end-Parts (align_boundary end nrows row_at unit_start) ends aligned all)

    -- No storage unit is divided between pieces: where a piece ends, each row before the end is in an
    -- earlier unit than each row from the end on. The rows that are read ascend, and there is one. A
    -- unit starts at or before each of its rows, its start is one of them, and the starts ascend with
    -- the rows. There is a split at least.
    pub piece_ends-Parts :
        (nsplits : ℕ)
        → 0 < nrows
        → 0 < nsplits
        → All Parts (piece_ends row_at (some unit_start) nrows nsplits)
    unfolding piece_ends
    piece_ends-Parts nsplits h k =
        All-append Parts (ends_loop row_at (some unit_start) nrows nsplits (nsplits - 1) 1 [])
          (nrows ∷ []) (ends_loop-Parts nsplits (nsplits - 1) 1 [] h (omega arith) tt)
          ((λ q r before behind inside. absurd (omega arith)), tt)
