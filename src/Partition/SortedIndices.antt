-- ===== src/Partition/SortedIndices.antt =====
-- `MakeSortedIndices` of cpp/arcae/data_partition.cc.
pub mod Insertion
use arcae.Prelude.{
  ℕ, zero, suc, ◌+◌, ◌≤◌, ◌<◌, ◌≡◌, refl, sym, ap, ◌∙◌, map-iota, Bool, true, false, ◌&&◌, not,
  List, [], ◌∷◌, map, Perm, arith, length, get_or, iota, if◌then◌else◌, Bool-cases, inl, inr, ℤ,
  pos, pos_part, neg_part, ◌≤ℤ◌, ltb_ℤ,
}
use mathlib.Core.List.Perm
use arcae.Partition.{SpanPair, disk_at}

-- Keys that do not fall from one position to the next.
abbrev pub Ascending : List ℤ → Type 0
Ascending [] = Unit
Ascending (x ∷ []) = Unit
Ascending (x ∷ y ∷ r) = (x ≤ℤ y) × Ascending (y ∷ r)

-- `std::sort(first, last, [](auto l, auto r) { return key(l) < key(r); })`: a permutation of its
-- input whose keys ascend. Which of two equal keys comes first is not known.
pub record Sorter : Type 0 where
  pub sort : (ℕ → ℤ) → List ℕ → List ℕ
  pub sort-perm : (key : ℕ → ℤ) (xs : List ℕ) → Perm (sort key xs) xs
  pub sort-Ascending : (key : ℕ → ℤ) (xs : List ℕ) → Ascending (map key (sort key xs))

-- `std::is_sorted`.
unfoldable pub is_sorted : List ℤ → Bool
is_sorted [] = true
is_sorted (x ∷ []) = true
is_sorted (x ∷ y ∷ r) = not (ltb_ℤ y x) && is_sorted (y ∷ r)

unfoldable pub make_sorted_indices : ⦃s : Sorter⦄ → List ℤ → SpanPair
make_sorted_indices ⦃s⦄ ids =
    if is_sorted ids
    then record { disk = ids; mem = iota 0 (length ids) }
    else let mem = s.sort (disk_at ids) (iota 0 (length ids)) in
      record { disk = map (disk_at ids) mem; mem = mem }

is_sorted-Ascending : (ids : List ℤ) → is_sorted ids ≡ true → Ascending ids
unfolding is_sorted
is_sorted-Ascending [] h = tt
is_sorted-Ascending (x ∷ []) h = tt
is_sorted-Ascending (x ∷ y ∷ r) h = ground (arith, is_sorted-Ascending (y ∷ r))

module _ ⦃s : Sorter⦄ (ids : List ℤ) where
  disk-Ascending : Ascending (make_sorted_indices ids).disk
  unfolding make_sorted_indices
  disk-Ascending = elim (Bool-cases (is_sorted ids)) [
    | inl e ↦ rw e (is_sorted-Ascending ids e)
    | inr e ↦ rw e (s.sort-Ascending _ _)
  ]

  mem-perm : Perm (make_sorted_indices ids).mem (iota 0 (length ids))
  unfolding make_sorted_indices
  mem-perm = elim (Bool-cases (is_sorted ids)) [
    | inl e ↦ rw e (Perm.refl _)
    | inr e ↦ rw e (s.sort-perm _ _)
  ]

  disk-map : (make_sorted_indices ids).disk ≡ map (disk_at ids) (make_sorted_indices ids).mem
  unfolding make_sorted_indices
  disk-map = elim (Bool-cases (is_sorted ids)) [
    | inl e ↦
        rw e (
          sym (map-iota (disk_at ids) 0 ids (pos 0) λ k _. let z : 0 + k ≡ k = omega arith in rw z))
    | inr e ↦ rw e
  ]

  -- Whatever permutation the sort picks: the disk indices ascend, the memory indices are the
  -- positions of the selection, each once, and the disk index beside a memory index is what the
  -- selection holds at that position.
  pub make_sorted_indices_lem :
      Ascending (make_sorted_indices ids).disk
      × Perm (make_sorted_indices ids).mem (iota 0 (length ids))
      × ((make_sorted_indices ids).disk ≡ map (disk_at ids) (make_sorted_indices ids).mem)
  make_sorted_indices_lem = (disk-Ascending, mem-perm, disk-map)
