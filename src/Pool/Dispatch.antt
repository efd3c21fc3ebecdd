-- ===== src/Pool/Dispatch.antt =====
-- A task goes to the instance with the least to do.
use arcae.Prelude.{
  ℕ, suc, ◌+◌, ◌-◌, ◌^◌, ◌<◌, ◌≡◌, refl, ap, ◌∙◌, subst, List, [], ◌∷◌, length, get_or, take, ℤ,
  pos, pos_part, neg_part, ltb_ℤ, ◌≤ℤ◌, ◌<ℤ◌, arith, Bool-cases, inl, inr, ◌⊎◌, All,
}
use arcae.Pool.{Pool, RunningTask, load, choose_loop, choose}

-- The loads of the instances from `i` on.
abbrev pub loads_from : RunningTask → Pool → ℕ → List ℤ
loads_from current [] i = []
loads_from current (stats ∷ pools) i = load current i stats ∷ loads_from current pools (suc i)

-- Instance `k` of the loads has the least, and those before it have more.
abbrev pub IsFirstLeast : ℕ → List ℤ → Type 0
IsFirstLeast k loads =
    (k < length loads)
    × All (λ load. get_or loads k (pos 0) ≤ℤ load) loads
    × All (λ load. get_or loads k (pos 0) <ℤ load) (take k loads)

length-loads_from :
    (current : RunningTask) (pools : Pool) (i : ℕ)
    → length (loads_from current pools i) ≡ length pools
length-loads_from current [] i = refl
length-loads_from current (stats ∷ pools) i = ap suc (length-loads_from current pools (suc i))

-- What the loop ends with: the best before, or an instance with less.
abbrev Outcome : RunningTask → Pool → ℕ → ℕ × ℤ → ℕ × ℤ → Type 0
Outcome current pools i best r =
    ((r ≡ best) × All (λ load. best.1 ≤ℤ load) (loads_from current pools i))
    ⊎ ((k : ℕ) × (r.0 ≡ i + k)
        × (r.1 ≡ get_or (loads_from current pools i) k (pos 0))
        × (r.1 <ℤ best.1)
        × IsFirstLeast k (loads_from current pools i))

choose_loop-Outcome :
    (current : RunningTask) (pools : Pool) (i : ℕ) (best : ℕ × ℤ)
    → Outcome current pools i best (choose_loop current pools i best)
unfolding choose_loop
choose_loop-Outcome current [] i best = inl (refl, tt)
choose_loop-Outcome current (stats ∷ pools) i best =
    let l = load current i stats in
    elim (Bool-cases (ltb_ℤ l best.1)) [
      | inl less ↦
          let small : l <ℤ best.1 = ground arith in
          rw (less, choose_loop)
            (elim (choose_loop-Outcome current pools (suc i) (i, l)) [
              | inl (e, all) ↦ inr (
                0,
                ap (λ (r : ℕ × ℤ). r.0) e ∙ omega arith,
                ap (λ (r : ℕ × ℤ). r.1) e,
                (let p = ap (λ (r : ℕ × ℤ). pos_part r.1) e in
                    let n = ap (λ (r : ℕ × ℤ). neg_part r.1) e in omega arith),
                (omega arith, (omega arith, all), tt),
              )
              | inr (k, e, value, below, (inside, least, first)) ↦
                  let p = ap pos_part value in
                  let n = ap neg_part value in
                  inr (
                    suc k,
                    omega arith,
                    value,
                    omega arith,
                    (omega arith, (omega arith, least), (omega arith, first)),
                  )
            ])
      | inr more ↦
          let big : best.1 ≤ℤ l = ground arith in
          rw (more, choose_loop)
            (elim (choose_loop-Outcome current pools (suc i) best) [
              | inl (e, all) ↦ inl (e, (big, all))
              | inr (k, e, value, below, (inside, least, first)) ↦
                  let p = ap pos_part value in
                  let n = ap neg_part value in
                  inr (
                    suc k,
                    omega arith,
                    value,
                    below,
                    (omega arith, (omega arith, least), (omega arith, first)),
                  )
            ])
    ]

-- A task is dispatched to an instance with the least load, and to the first of these. There is an
-- instance, and each load is below 2^63 - 1.
pub choose-IsFirstLeast :
    (current : RunningTask) (pools : Pool)
    → 0 < length pools
    → All (λ load. load <ℤ pos (2 ^ 63 - 1)) (loads_from current pools 0)
    → IsFirstLeast (choose current pools) (loads_from current pools 0)
choose-IsFirstLeast current pools some_instance small =
    elim (choose_loop-Outcome current pools 0 (0, pos (2 ^ 63 - 1))) [
      | inl (e, all) ↦ absurd (
          none_small (loads_from current pools 0) (omega (arith, length-loads_from current pools 0))
            small all)
      | inr (k, e, value, below, first) ↦
          subst (λ k. IsFirstLeast k (loads_from current pools 0)) (omega arith) first
    ]
  where
    none_small :
        (loads : List ℤ)
        → 0 < length loads
        → All (λ load. load <ℤ pos (2 ^ 63 - 1)) loads
        → All (λ load. pos (2 ^ 63 - 1) ≤ℤ load) loads
        → ⊥
    none_small [] l h k = omega arith
    none_small (x ∷ loads) l h k = omega (arith, h.0, k.0)
