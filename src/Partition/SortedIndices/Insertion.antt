-- ===== src/Partition/SortedIndices/Insertion.antt =====
-- Insertion sort, as one sort that does what `std::sort` promises.
use mathlib.Core.List.Perm
use arcae.Prelude.{
  ℕ, List, [], ◌∷◌, map, Perm, arith, if◌then◌else◌, Bool-cases, inl, inr, ℤ, ltb_ℤ,
}
use arcae.Partition.SortedIndices.{Ascending, Sorter}

abbrev insert : (ℕ → ℤ) → ℕ → List ℕ → List ℕ
insert key x [] = x ∷ []
insert key x (y ∷ ys) = if ltb_ℤ (key x) (key y) then x ∷ y ∷ ys else y ∷ insert key x ys

abbrev insertion_sort : (ℕ → ℤ) → List ℕ → List ℕ
insertion_sort key [] = []
insertion_sort key (x ∷ xs) = insert key x (insertion_sort key xs)

insert-perm : (key : ℕ → ℤ) (x : ℕ) (ys : List ℕ) → Perm (insert key x ys) (x ∷ ys)
insert-perm key x [] = Perm.refl _
insert-perm key x (y ∷ ys) = elim (Bool-cases (ltb_ℤ (key x) (key y))) [
  | inl e ↦ rw e (Perm.refl _)
  | inr e ↦ rw e (Perm.trans (Perm.cons y (insert-perm key x ys)) (Perm.swap x y ys))
]

pub insertion_sort-perm : (key : ℕ → ℤ) (xs : List ℕ) → Perm (insertion_sort key xs) xs
insertion_sort-perm key [] = Perm.refl _
insertion_sort-perm key (x ∷ xs) =
    Perm.trans (insert-perm key x (insertion_sort key xs))
      (Perm.cons x (insertion_sort-perm key xs))

insert-Ascending :
    (key : ℕ → ℤ) (x : ℕ) (ys : List ℕ)
    → Ascending (map key ys)
    → Ascending (map key (insert key x ys))
insert-Ascending key x [] h = tt
insert-Ascending key x (y ∷ []) h = ground arith
insert-Ascending key x (y ∷ z ∷ ys) h = ground (arith, insert-Ascending key x (z ∷ ys) h.1)

pub insertion_sort-Ascending :
    (key : ℕ → ℤ) (xs : List ℕ) → Ascending (map key (insertion_sort key xs))
insertion_sort-Ascending key [] = tt
insertion_sort-Ascending key (x ∷ xs) =
    insert-Ascending key x (insertion_sort key xs) (insertion_sort-Ascending key xs)

instance abbrev pub insertion : Sorter
insertion = record {
  sort = insertion_sort;
  sort-perm = insertion_sort-perm;
  sort-Ascending = insertion_sort-Ascending;
}
