-- ===== src/Shape/Read/Rank.antt =====
-- The rank of a result whose rows have many shapes.
use arcae.Prelude.{
  ℕ, ◌+◌, ◌<◌, ◌≤◌, ◌≡◌, refl, sym, ap, ◌∙◌, ◌↔◌, true, none, some, List, [], ◌∷◌, length, All,
  arith, subst, ◌≢◌, ℕ_discrete, inl, inr, ◌⊎◌, ℤ, pos, negsuc,
}
use arcae.Shape.{IPosition, is_degenerate_shape}
use arcae.Shape.Rows.Summary.{n_missing}
use arcae.Shape.Read.{row_rank, rank_step}

-- Rows that are not missing have `n` dimensions, with that of the rows.
abbrev pub HasRank : ℕ → List IPosition → Type 0
HasRank n = All (λ (shape : IPosition). (is_degenerate_shape shape ≡ true) ⊎ (length shape + 1 ≡ n))

-- A shape of `k + 1` dimensions.
step-same : (m k : ℕ) (s : IPosition) → length s + 2 ≡ m → rank_step (k ∷ s) (pos m) ≡ some (pos m)
step-same m k s e = ground arith

step-other : (m k : ℕ) (s : IPosition) → length s + 2 ≢ m → rank_step (k ∷ s) (pos m) ≡ none
step-other m k s e = ground arith

row_rank-step :
    (shape : IPosition) (shapes : List IPosition) (ndim next : ℤ)
    → rank_step shape ndim ≡ some next
    → row_rank (shape ∷ shapes) ndim ≡ row_rank shapes next
unfolding row_rank
row_rank-step shape shapes ndim next e = rw (e, row_rank) refl

row_rank-stop :
    (shape : IPosition) (shapes : List IPosition) (ndim : ℤ)
    → rank_step shape ndim ≡ none
    → row_rank (shape ∷ shapes) ndim ≡ negsuc 0
unfolding row_rank
row_rank-stop shape shapes ndim e = rw (e, row_rank) refl

row_rank-pos :
    (m n : ℕ) (shapes : List IPosition)
    → (row_rank shapes (pos m) ≡ pos n) ↔ ((m ≡ n) × HasRank m shapes)
unfolding row_rank
row_rank-pos m n [] = (λ h. (cc, tt), λ h. ap pos h.0)
row_rank-pos m n ([] ∷ shapes) =
    let rest = row_rank-pos m n shapes in
    (λ h. let (e, r) = rest.0 h in (e, (inl refl, r)), λ h. rest.1 (h.0, h.1.1))
row_rank-pos m n ((k ∷ s) ∷ shapes) = elim (ℕ_discrete (length s + 2) m) [
  | yes e ↦
      let rest = row_rank-pos m n shapes in
      let step = row_rank-step (k ∷ s) shapes (pos m) (pos m) (step-same m k s e) in
      (
        λ h. let (same, r) = rest.0 (sym step ∙ h) in (same, (inr (omega arith), r)),
        λ h. step ∙ rest.1 (h.0, h.1.1),
      )
  | no e ↦
      let stop = row_rank-stop (k ∷ s) shapes (pos m) (step-other m k s e) in
      (
        λ h. let wrong : negsuc 0 ≡ pos n = sym stop ∙ h in cc,
        λ h. elim h.1.0 [ inl missing ↦ cc | inr same ↦ absurd (omega arith) ],
      )
]

n_missing-le : (shapes : List IPosition) → n_missing shapes ≤ length shapes
n_missing-le [] = omega arith
n_missing-le (shape ∷ shapes) = let rest = n_missing-le shapes in ground arith

-- The rows agree on a rank exactly when a row is not missing, and all such rows have that rank, with
-- the dimension of the rows.
pub row_rank-HasRank :
    (n : ℕ) (shapes : List IPosition)
    → (row_rank shapes (negsuc 0) ≡ pos n) ↔ ((n_missing shapes < length shapes) × HasRank n shapes)
unfolding row_rank
row_rank-HasRank n [] = (λ h. cc, λ h. absurd (omega arith))
row_rank-HasRank n ([] ∷ shapes) =
    let rest = row_rank-HasRank n shapes in
    (
      λ h. let (some_row, r) = rest.0 h in (omega arith, (inl refl, r)),
      λ h. rest.1 (omega arith, h.1.1),
    )
row_rank-HasRank n ((k ∷ s) ∷ shapes) =
    let rest = row_rank-pos (length (k ∷ s) + 1) n shapes in
    (
      λ h.
          let (same, r) = rest.0 h in
          (omega (arith, n_missing-le shapes), (inr same, subst (λ m. HasRank m shapes) same r)),
      λ h. elim h.1.0 [
        | inl missing ↦ cc
        | inr same ↦ rest.1 (same, subst (λ m. HasRank m shapes) (sym same) h.1.1)
      ],
    )
