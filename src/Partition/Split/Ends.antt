-- ===== src/Partition/Split/Ends.antt =====
-- The ends of the pieces rise to the number of rows, wherever the boundaries are moved.
use native.Mathlib.Nat.{
  mod-eq_of_lt, zero-div, mul-div_cancel_left, le-div_iff_mul-le, div-lt_iff_lt-mul, mod-lt,
  div-add-mod,
}
use arcae.Prelude.{
  ℕ, zero, suc, ◌+◌, ◌-◌, ◌*◌, ◌/◌, ◌%◌, ◌^◌, ◌≤◌, ◌<◌, ◌≡◌, refl, sym, ap, ◌∙◌, subst, Bool, ◌&&◌,
  Option, none, List, [], ◌∷◌, ◌++◌, arith, length, length-append, get_or-append_right, ltb,
  Bool-cases, inl, inr,
}
use arcae.Partition.Split.{last_end, push_end, ends_loop, piece_ends, boundary}

-- Numbers that rise from above `p` to `n`.
abbrev pub Ends : ℕ → List ℕ → ℕ → Type 0
Ends p [] n = p ≡ n
Ends p (e ∷ ends) n = (p < e) × Ends e ends n

pub Ends-snoc :
    (p : ℕ) (ends : List ℕ) (n e : ℕ) → Ends p ends n → n < e → Ends p (ends ++ e ∷ []) e
Ends-snoc p [] n e h l = (omega arith, refl)
Ends-snoc p (x ∷ ends) n e h l = (h.0, Ends-snoc x ends n e h.1 l)

pub last_end-snoc : (ends : List ℕ) (e : ℕ) → last_end (ends ++ e ∷ []) ≡ e
last_end-snoc ends e =
    let p : length (ends ++ e ∷ []) - 1 ≡ length ends + 0 =
      omega (arith, length-append ends (e ∷ [])) in
    rw p (get_or-append_right ends (e ∷ []) 0 0)

-- What the loop keeps, over at most `limit` ends.
record Kept (nrows limit : ℕ) (ends : List ℕ) : Type 0 where
  rising : Ends 0 ends (last_end ends)
  inside : last_end ends < nrows
  few : length ends ≤ limit

push_end-Kept :
    (end nrows limit : ℕ) (ends : List ℕ)
    → Kept nrows limit ends
    → Kept nrows (suc limit) (push_end end nrows ends)
unfolding push_end
push_end-Kept end nrows limit ends k = elim (Bool-cases (keep)) [
  | inl e ↦
      rw (e, push_end)
        (record {
          rising =
              rw (last_end-snoc ends end)
                (Ends-snoc 0 ends (last_end ends) end k.rising (ground arith));
          inside = rw (last_end-snoc ends end) (ground arith);
          few = omega (arith, k.few, length-append ends (end ∷ []));
        })
  | inr e ↦
      rw (e, push_end) (record { rising = k.rising; inside = k.inside; few = omega (arith, k.few) })
]
  where
    keep : Bool
    keep = ltb (last_end ends) end && ltb end nrows

ends_loop-Kept :
    (row_at : ℕ → ℕ) (unit_start : Option (ℕ → ℕ)) (nrows nsplits rounds split limit : ℕ)
    (ends : List ℕ)
    → Kept nrows limit ends
    → Kept nrows (limit + rounds) (ends_loop row_at unit_start nrows nsplits rounds split ends)
unfolding ends_loop
ends_loop-Kept row_at unit_start nrows nsplits zero split limit ends k = record {
  rising = k.rising;
  inside = k.inside;
  few = omega (arith, k.few);
}
ends_loop-Kept row_at unit_start nrows nsplits (suc rounds) split limit ends k =
    let e : limit + suc rounds ≡ suc limit + rounds = omega arith in
    rw e (
      ends_loop-Kept row_at unit_start nrows nsplits rounds (suc split) (suc limit) _ (
        push_end-Kept (boundary row_at unit_start nrows (split * nrows % 2 ^ 64 / nsplits)) nrows
          limit ends k))

-- Whatever the rows are and wherever their storage units start, the ends rise strictly from above
-- 0 to the number of rows, which is positive, and there are no more of them than splits.
pub piece_ends-Ends :
    (row_at : ℕ → ℕ) (unit_start : Option (ℕ → ℕ)) (nrows nsplits : ℕ)
    → 0 < nrows
    → 0 < nsplits
    → Ends 0 (piece_ends row_at unit_start nrows nsplits) nrows
      × (length (piece_ends row_at unit_start nrows nsplits) ≤ nsplits)
unfolding piece_ends
piece_ends-Ends row_at unit_start nrows nsplits h k =
    let ends = ends_loop row_at unit_start nrows nsplits (nsplits - 1) 1 [] in
    let kept =
      ends_loop-Kept row_at unit_start nrows nsplits (nsplits - 1) 1 0 []
        (record { rising = refl; inside = h; few = omega arith }) in
    (
      Ends-snoc 0 ends (last_end ends) nrows kept.rising kept.inside,
      omega (arith, kept.few, length-append ends (nrows ∷ [])),
    )

div_add : (x y s : ℕ) → 0 < s → (x / s + y / s ≤ (x + y) / s) × ((x + y) / s ≤ x / s + y / s + 1)
div_add x y s h = (
  (le-div_iff_mul-le h).1 (omega (arith, div-add-mod x s, div-add-mod y s)),
  le_of_lt_two (
      (div-lt_iff_lt-mul h).1
        (omega (arith, div-add-mod x s, div-add-mod y s, mod-lt x h, mod-lt y h))),
)
  where
    le_of_lt_two : (x + y) / s < x / s + y / s + 2 → (x + y) / s ≤ x / s + y / s + 1
    le_of_lt_two p = omega arith

-- Numbers of which each is `q` or `q + 1` above the one before.
abbrev pub Even : ℕ → ℕ → List ℕ → Type 0
Even q p [] = Unit
Even q p (e ∷ ends) = (p + q ≤ e) × (e ≤ p + q + 1) × Even q e ends

Even-snoc :
    (q p : ℕ) (ends : List ℕ) (n e : ℕ)
    → Even q p ends
    → Ends p ends n
    → n + q ≤ e
    → e ≤ n + q + 1
    → Even q p (ends ++ e ∷ [])
Even-snoc q p [] n e h k lo hi = (omega arith, omega arith, tt)
Even-snoc q p (x ∷ ends) n e h k lo hi = (h.0, h.1, Even-snoc q x ends n e h.2 k.1 lo hi)

module _ (nrows nsplits : ℕ) (some_split : 0 < nsplits) (enough : nsplits ≤ nrows)
    (fits : nsplits * nrows < 2 ^ 64) where
  abbrev cut_at : ℕ → ℕ
  cut_at k = k * nrows / nsplits

  cut_at-suc :
      (k : ℕ)
      → (cut_at k + nrows / nsplits ≤ cut_at (suc k))
        × (cut_at (suc k) ≤ cut_at k + nrows / nsplits + 1)
        × (1 ≤ nrows / nsplits)
  cut_at-suc k =
      let e : suc k * nrows ≡ k * nrows + nrows = omega arith in
      let sums = div_add (k * nrows) nrows nsplits some_split in
      rw e (sums.0, sums.1, (le-div_iff_mul-le some_split).1 (omega arith))

  cut_at_inside : (k : ℕ) → k < nsplits → cut_at k < nrows
  cut_at_inside k l = (div-lt_iff_lt-mul some_split).1 (grind arith)

  no_wrap : (k : ℕ) → k < nsplits → k * nrows % 2 ^ 64 ≡ k * nrows
  no_wrap k l = mod-eq_of_lt (grind arith)

  -- The ends after `k` rounds.
  record Cuts (k : ℕ) (ends : List ℕ) : Type 0 where
    even : Even (nrows / nsplits) 0 ends
    rising : Ends 0 ends (cut_at k)
    last : last_end ends ≡ cut_at k
    all : length ends ≡ k

  push_end-Cuts :
      (k : ℕ) (ends : List ℕ)
      → suc k < nsplits
      → Cuts k ends
      → Cuts (suc k) (push_end (cut_at (suc k)) nrows ends)
  unfolding push_end
  push_end-Cuts k ends l c =
      let step = cut_at-suc k in
      let kept : push_end (cut_at (suc k)) nrows ends ≡ ends ++ cut_at (suc k) ∷ [] =
        ground (arith, c.last, step, cut_at_inside (suc k) l) in
      subst (Cuts (suc k)) (sym kept) (record {
        even = Even-snoc _ 0 ends (cut_at k) _ c.even c.rising step.0 step.1;
        rising = Ends-snoc 0 ends (cut_at k) _ c.rising (omega (arith, step));
        last = last_end-snoc ends _;
        all = omega (arith, c.all, length-append ends (cut_at (suc k) ∷ []));
      })

  ends_loop-Cuts :
      (row_at : ℕ → ℕ) (rounds k : ℕ) (ends : List ℕ)
      → k + rounds < nsplits
      → Cuts k ends
      → (j : ℕ) × (j ≡ k + rounds)
        × Cuts j (ends_loop row_at none nrows nsplits rounds (suc k) ends)
  unfolding ends_loop boundary
  ends_loop-Cuts row_at zero k ends l c = (k, omega arith, c)
  ends_loop-Cuts row_at (suc rounds) k ends l c =
      let (j, e, r) =
        ends_loop-Cuts row_at rounds (suc k) _ (omega arith)
          (push_end-Cuts k ends (omega arith) c) in
      rw (no_wrap (suc k) (omega arith)) (j, omega arith, r)

  -- Without storage units there are as many pieces as splits, which are no more than the rows, and
  -- their sizes differ by at most one row. The product of the splits and the rows fits in 64 bits.
  pub piece_ends-Even :
      (row_at : ℕ → ℕ)
      → (length (piece_ends row_at none nrows nsplits) ≡ nsplits)
        × Even (nrows / nsplits) 0 (piece_ends row_at none nrows nsplits)
  unfolding piece_ends
  piece_ends-Even row_at =
      let (j, je, c) = ends_loop-Cuts row_at (nsplits - 1) 0 [] (omega arith) start in
      let ends = ends_loop row_at none nrows nsplits (nsplits - 1) 1 [] in
      let step = cut_at-suc j in
      let final : cut_at (suc j) ≡ nrows =
        ap cut_at {x = suc j} {y = nsplits} (omega arith) ∙ mul-div_cancel_left nrows some_split in
      (
        omega (arith, c.all, length-append ends (nrows ∷ [])),
        Even-snoc _ 0 ends (cut_at j) nrows c.even c.rising (omega (arith, step, final))
            (omega (arith, step, final)),
      )
    where
      none_cut : 0 ≡ cut_at 0
      none_cut = let e : 0 * nrows ≡ 0 = omega arith in rw (e, zero-div)

      start : Cuts 0 []
      start = record { even = tt; rising = none_cut; last = none_cut; all = refl }
