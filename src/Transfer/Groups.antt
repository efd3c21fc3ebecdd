-- ===== src/Transfer/Groups.antt =====
-- `GroupChunks` of cpp/arcae/read_impl.cc: chunks are divided into groups, which several instances of
-- the table read.
pub mod Count
use arcae.Prelude.{
  ℕ, suc, ◌+◌, ◌-◌, ◌*◌, ◌/◌, ◌%◌, ◌^◌, min, max, Bool, ◌&&◌, ◌||◌, List, [], ◌∷◌, ◌++◌, length,
  map, ltb, leb, ◌==◌, if◌then◌else◌,
}
use arcae.Partition.Chunks.{DataChunk, chunk_elements}

-- `for (const auto& chunk : chunks) nelements += chunk.nElements();`
abbrev pub sum_elements : List ℕ → ℕ → ℕ
sum_elements [] nelements = nelements
sum_elements (n ∷ sizes) nelements = sum_elements sizes ((nelements + n) % 2 ^ 64)

pub record Grouping : Type 0 where
  pub ends : List ℕ
  pub cumulative_elements : ℕ

module _ (nelements ngroups nchunks : ℕ) where
  -- Whether the group is closed after chunk `c`.
  unfoldable pub closes : ℕ → ℕ → ℕ → Bool
  closes c n_ends cumulative_elements =
      let target = nelements * (n_ends + 1) % 2 ^ 64 / ngroups in
      let remaining_groups = ngroups - n_ends - 1 in
      ltb (n_ends + 1) ngroups
      && (leb target cumulative_elements || (nchunks - c - 1 == remaining_groups))

  -- The round for chunk `c`, of `n` elements.
  unfoldable pub group_step : ℕ → ℕ → Grouping → Grouping
  group_step c n st =
      let cumulative_elements = (st.cumulative_elements + n) % 2 ^ 64 in
      record {
        ends =
            if closes c (length st.ends) cumulative_elements
            then st.ends ++ suc c ∷ []
            else st.ends;
        cumulative_elements = cumulative_elements;
      }

  -- The rounds from chunk `c` on.
  unfoldable pub group_loop : List ℕ → ℕ → Grouping → Grouping
  group_loop [] c st = st
  group_loop (n ∷ sizes) c st = group_loop sizes (suc c) (group_step c n st)

abbrev pub group_count : ℕ → ℕ → ℕ
group_count ngroups nchunks = max 1 (min ngroups nchunks)

-- The end of each group, for chunks of so many elements.
unfoldable pub group_sizes : List ℕ → ℕ → List ℕ
group_sizes sizes ngroups =
    (group_loop (sum_elements sizes 0) (group_count ngroups (length sizes)) (length sizes) sizes 0
      (record { ends = []; cumulative_elements = 0 })).ends
    ++ length sizes ∷ []

unfoldable pub group_chunks : List DataChunk → ℕ → List ℕ
group_chunks chunks ngroups = group_sizes (map chunk_elements chunks) ngroups
