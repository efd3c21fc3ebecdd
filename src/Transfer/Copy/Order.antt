-- ===== src/Transfer/Copy/Order.antt =====
-- The loop visits each position of a chunk once, the first dimension changing fastest.
use arcae.Prelude.{
  ◌⊎◌, lt→ltb, ge→ltb, ℕ, zero, suc, ◌+◌, ◌<◌, ◌≤◌, ◌≡◌, refl, sym, ap, ◌∙◌, subst, Bool, true,
  false, List, [], ◌∷◌, ◌++◌, map, length, iota, replicate, All, arith, inl, inr,
}
use arcae.Prelude.Choices.{bind}
use arcae.Transfer.Copy.{advance}

-- All positions, the first dimension changing fastest.
abbrev pub positions : List ℕ → List (List ℕ)
positions [] = [] ∷ []
positions (size ∷ sizes) = bind (positions sizes) (λ rest. map (λ p. p ∷ rest) (iota 0 size))

-- The positions that the loop visits from one on, until it is done.
pub data Run (sizes : List ℕ) : List ℕ → List (List ℕ) → Type 0 where
  last : {pos : List ℕ} → (advance sizes pos).1 ≡ true → Run sizes pos (pos ∷ [])
  more :
      {pos : List ℕ} {rest : List (List ℕ)}
      → (advance sizes pos).1 ≡ false
      → Run sizes (advance sizes pos).0 rest
      → Run sizes pos (pos ∷ rest)

-- The positions of a dimension from `p` on, over one position of the others.
abbrev row_from : ℕ → ℕ → List ℕ → List (List ℕ)
row_from p n rest = map (λ p. p ∷ rest) (iota p n)

advance-inside :
    (size p : ℕ) (sizes pos : List ℕ)
    → suc p < size
    → advance (size ∷ sizes) (p ∷ pos) ≡ (suc p ∷ pos, false)
unfolding advance
advance-inside size p sizes pos l = rw (lt→ltb (suc p) size l) refl

advance-reset :
    (size p : ℕ) (sizes pos : List ℕ)
    → size ≤ suc p
    → advance (size ∷ sizes) (p ∷ pos) ≡ (0 ∷ (advance sizes pos).0, (advance sizes pos).1)
unfolding advance
advance-reset size p sizes pos l = rw (ge→ltb (suc p) size l) refl

-- What is visited after a position.
Tail : List ℕ → List ℕ → List (List ℕ) → Type 0
Tail sizes pos after =
    (((advance sizes pos).1 ≡ true) × (after ≡ []))
    ⊎ (((advance sizes pos).1 ≡ false) × Run sizes (advance sizes pos).0 after)

Run-cons :
    (sizes pos : List ℕ) (after : List (List ℕ))
    → Tail sizes pos after
    → Run sizes pos (pos ∷ after)
unfolding Tail
Run-cons sizes pos after (inl (done, none_left)) =
    subst (λ l. Run sizes pos (pos ∷ l)) (sym none_left) (last done)
Run-cons sizes pos after (inr (next, r)) = more next r

-- The positions of the first dimension, from `p` on.
Run-row :
    (n p size : ℕ) (sizes pos : List ℕ) (after : List (List ℕ))
    → p + suc n ≡ size
    → Tail (size ∷ sizes) ((p + n) ∷ pos) after
    → Run (size ∷ sizes) (p ∷ pos) (row_from p (suc n) pos ++ after)
Run-row zero p size sizes pos after e t =
    let here : p + zero ≡ p = omega arith in
    Run-cons (size ∷ sizes) (p ∷ pos) after
      (subst (λ p. Tail (size ∷ sizes) (p ∷ pos) after) here t)
Run-row (suc n) p size sizes pos after e t =
    let step = advance-inside size p sizes pos (omega arith) in
    let move : p + suc n ≡ suc p + n = omega arith in
    more (ap (λ (a : List ℕ × Bool). a.1) step) (
      subst (λ (a : List ℕ). Run (size ∷ sizes) a (row_from (suc p) (suc n) pos ++ after))
        (sym (ap (λ (a : List ℕ × Bool). a.0) step))
        (Run-row n (suc p) size sizes pos after (omega arith)
          (subst (λ p. Tail (size ∷ sizes) (p ∷ pos) after) move t)))

-- A run over the other dimensions, with one more dimension.
Run-bind :
    (n : ℕ) (sizes pos : List ℕ) (visited : List (List ℕ))
    → Run sizes pos visited
    → Run (suc n ∷ sizes) (0 ∷ pos) (bind visited (λ rest. row_from 0 (suc n) rest))
unfolding Tail
Run-bind n sizes pos visited (last done) =
    let reset = advance-reset (suc n) (0 + n) sizes pos (omega arith) in
    Run-row n 0 (suc n) sizes pos [] (omega arith)
      (inl (ap (λ (a : List ℕ × Bool). a.1) reset ∙ done, refl))
Run-bind n sizes pos visited (more {rest = rest} next r) =
    let reset = advance-reset (suc n) (0 + n) sizes pos (omega arith) in
    Run-row n 0 (suc n) sizes pos _ (omega arith) (
      inr (
        ap (λ (a : List ℕ × Bool). a.1) reset ∙ next,
        subst (λ (a : List ℕ). Run (suc n ∷ sizes) a (bind rest (λ rest. row_from 0 (suc n) rest)))
            (sym (ap (λ (a : List ℕ × Bool). a.0) reset))
            (Run-bind n sizes (advance sizes pos).0 rest r),
      ))

pub positions-Run :
    (sizes : List ℕ)
    → All (λ size. 0 < size) sizes
    → Run sizes (replicate (length sizes) 0) (positions sizes)
unfolding advance
positions-Run [] h = last refl
positions-Run (zero ∷ sizes) h = absurd (omega (arith, h.0))
positions-Run (suc n ∷ sizes) h = Run-bind n sizes _ (positions sizes) (positions-Run sizes h.1)
