-- ===== src/Transfer/Groups/Count.antt =====
-- There are as many groups as asked for, and none is empty.
use arcae.Prelude.{
  dec_lt, ◌≢◌, ◌%◌, ◌^◌, ℕ, suc, ◌+◌, ◌-◌, ◌<◌, ◌≤◌, ◌≡◌, refl, sym, subst, min, max, true, false,
  List, [], ◌∷◌, ◌++◌, length, length-map, length-snoc, map, arith, Bool-cases, inl, inr,
}
use arcae.Partition.Chunks.{DataChunk, chunk_elements}
use arcae.Partition.Split.{last_end}
use arcae.Partition.Split.Ends.{Ends, Ends-snoc, last_end-snoc}
use arcae.Transfer.Groups.{
  Grouping, closes, group_step, group_loop, group_count, group_sizes, group_chunks, sum_elements,
}

module _ (nelements ngroups nchunks : ℕ) where
  -- Before chunk `c`: the groups that are closed rise, and the chunks left suffice for the others.
  record Closed (c : ℕ) (ends : List ℕ) : Type 0 where
    rising : Ends 0 ends (last_end ends)
    behind : last_end ends ≤ c
    open_group : length ends < ngroups
    enough : ngroups - length ends - 1 ≤ nchunks - c - 1
    inside : last_end ends < nchunks

  closes-true : (c k sum : ℕ) → closes nelements ngroups nchunks c k sum ≡ true → k + 1 < ngroups
  unfolding closes
  closes-true c k sum e = ground arith

  closes-false :
      (c k sum : ℕ)
      → closes nelements ngroups nchunks c k sum ≡ false
      → k + 1 < ngroups
      → nchunks - c - 1 ≢ ngroups - k - 1
  unfolding closes
  closes-false c k sum e l = ground arith

  snoc-Closed :
      (c : ℕ) (ends : List ℕ)
      → c < nchunks
      → length ends + 1 < ngroups
      → Closed c ends
      → Closed (suc c) (ends ++ suc c ∷ [])
  snoc-Closed c ends l more k =
      let last = last_end-snoc ends (suc c) in
      let count = length-snoc ends (suc c) in
      let before = k.behind in
      let left = k.enough in
      record {
        rising =
            subst (Ends 0 (ends ++ suc c ∷ [])) (sym last)
              (Ends-snoc 0 ends (last_end ends) (suc c) k.rising (omega arith));
        behind = omega arith;
        open_group = omega arith;
        enough = omega arith;
        inside = omega arith;
      }

  suc-Closed :
      (c : ℕ) (ends : List ℕ)
      → (length ends + 1 < ngroups → nchunks - c - 1 ≢ ngroups - length ends - 1)
      → Closed c ends
      → Closed (suc c) ends
  suc-Closed c ends other k =
      let before = k.behind in
      let left = k.enough in
      let some_group = k.open_group in
      record {
        rising = k.rising;
        behind = omega arith;
        open_group = k.open_group;
        enough = elim (dec_lt (length ends + 1) ngroups) [
          | yes more ↦ let not_last = other more in omega arith
          | no last ↦ omega arith
        ];
        inside = k.inside;
      }

  step-Closed :
      (c n : ℕ) (st : Grouping)
      → c < nchunks
      → Closed c st.ends
      → Closed (suc c) (group_step nelements ngroups nchunks c n st).ends
  unfolding group_step
  step-Closed c n st l k =
      elim (Bool-cases (
        closes nelements ngroups nchunks c (length st.ends)
          ((st.cumulative_elements + n) % 2 ^ 64))) [
            | inl e ↦ rw e (snoc-Closed c st.ends l (closes-true c (length st.ends) _ e) k)
            | inr e ↦ rw e (suc-Closed c st.ends (closes-false c (length st.ends) _ e) k)
          ]

  loop-Closed :
      (sizes : List ℕ) (c : ℕ) (st : Grouping)
      → c + length sizes ≡ nchunks
      → Closed c st.ends
      → Closed nchunks (group_loop nelements ngroups nchunks sizes c st).ends
  unfolding group_loop
  loop-Closed [] c st e k = subst (λ c. Closed c st.ends) (omega arith) k
  loop-Closed (n ∷ sizes) c st e k =
      loop-Closed sizes (suc c) (group_step nelements ngroups nchunks c n st) (omega arith)
        (step-Closed c n st (omega arith) k)

-- However large the chunks are, at least one chunk is divided into as many groups as asked for, but
-- into one at least and into no more than there are chunks. The ends rise strictly from above 0 to the
-- number of chunks: no group is empty, and each chunk is in one.
pub group_chunks-Ends :
    (chunks : List DataChunk) (ngroups : ℕ)
    → 0 < length chunks
    → Ends 0 (group_chunks chunks ngroups) (length chunks)
      × (length (group_chunks chunks ngroups) ≡ max 1 (min ngroups (length chunks)))
unfolding group_chunks group_sizes
group_chunks-Ends chunks ngroups some_chunk =
    let sizes = map chunk_elements chunks in
    let all : length sizes ≡ length chunks = length-map chunks chunk_elements in
    let count = group_count ngroups (length sizes) in
    let closed =
      loop-Closed (sum_elements sizes 0) count (length sizes) sizes 0
        (record { ends = []; cumulative_elements = 0 }) (omega arith)
        (record {
          rising = refl;
          behind = omega arith;
          open_group = omega arith;
          enough = omega arith;
          inside = omega arith;
        }) in
    let ends =
      (group_loop (sum_elements sizes 0) count (length sizes) sizes 0
        (record { ends = []; cumulative_elements = 0 })).ends in
    let open_group = closed.open_group in
    let enough = closed.enough in
    (
      subst (Ends 0 (ends ++ length sizes ∷ [])) all
          (Ends-snoc 0 ends (last_end ends) (length sizes) closed.rising closed.inside),
      omega (arith, length-snoc ends (length sizes), open_group, enough, all),
    )
