-- ===== src/Partition/Split.antt =====
-- `AlignBoundary` and `SplitRowSpans` of cpp/arcae/data_partition.cc: large reads are split by rows,
-- so that several instances of the table can read them.
pub mod Ends
pub mod Units
pub mod Rounds
pub mod Cover
use arcae.Prelude.{
  ℕ, zero, suc, ◌+◌, ◌-◌, ◌*◌, ◌/◌, ◌%◌, ◌^◌, min, Bool, true, false, ◌&&◌, ◌||◌, not, Option, none,
  some, List, [], ◌∷◌, ◌++◌, length, get_or, subspan, is_empty, ltb, leb, ◌==◌, if◌then◌else◌, ℤ,
  pos, negsuc, is_neg,
}
use arcae.Partition.{SpanPair, SpanPairs, disk_at}

-- `rownr_t(row)`: a conversion to 64 bits without a sign.
abbrev pub to_rownr : ℤ → ℕ
to_rownr (pos n) = n
to_rownr (negsuc n) = 2 ^ 64 - suc n

-- A span of rows that are not read from disk.
abbrev pub is_missing : SpanPair → Bool
is_missing span = is_empty span.disk || is_neg (disk_at span.disk 0)

pub record ReadRows : Type 0 where
  pub read : List (List ℤ)
  pub read_starts : List ℕ

unfoldable pub read_rows : ℕ → SpanPairs → ReadRows → ReadRows
read_rows start [] acc = acc
read_rows start (span ∷ spans) acc =
    read_rows (if is_missing span then start else start + length span.disk) spans (
      if is_missing span then acc else record {
        read = acc.read ++ span.disk ∷ [];
        read_starts = acc.read_starts ++ start ∷ [];
      })

-- `std::upper_bound` over numbers that ascend: how many are not above the value.
unfoldable pub upper_bound : List ℕ → ℕ → ℕ
upper_bound [] p = 0
upper_bound (x ∷ xs) p = if ltb p x then 0 else suc (upper_bound xs p)

-- The disk row at a position among the rows that are read.
unfoldable pub row_at : SpanPairs → ℕ → ℕ
unfolding read_rows upper_bound
row_at spans p =
    let rows = read_rows 0 spans (record { read = []; read_starts = [] }) in
    let s = upper_bound rows.read_starts p - 1 in
    to_rownr (disk_at (get_or rows.read s []) (p - get_or rows.read_starts s 0))

-- `std::ranges::lower_bound` and `upper_bound` over `len` positions from `first` on: a binary search
-- for the first that passes the test, if all positions behind one that passes do. A round leaves at
-- most half of the positions, so as many rounds as positions suffice.
unfoldable pub find_first : (ℕ → Bool) → ℕ → ℕ → ℕ → ℕ
find_first test zero first len = first
find_first test (suc rounds) first len =
    let half = len / 2 in
    let passes = test (first + half) in
    let rest =
      find_first test rounds (if passes then first else first + half + 1)
        (if passes then half else len - half - 1) in
    if len == 0 then first else rest

unfoldable pub align_boundary : ℕ → ℕ → (ℕ → ℕ) → (ℕ → ℕ) → ℕ
unfolding find_first
align_boundary p nrows row_at unit_start =
    let unit = unit_start (row_at p) in
    if unit == row_at p
    then p
    else let down = find_first (λ q. leb unit (row_at q)) p 0 p in
      let next =
        find_first (λ q. ltb unit (unit_start (row_at q))) (nrows - (p + 1)) (p + 1)
          (nrows - (p + 1)) in
      if leb (p - down) (next - p) then down else next

-- `ends.empty() ? 0 : ends.back()`.
abbrev pub last_end : List ℕ → ℕ
last_end ends = get_or ends (length ends - 1) 0

-- `if (unit_start) end = AlignBoundary(end, nrows, row_at, unit_start);`
unfoldable pub boundary : (ℕ → ℕ) → Option (ℕ → ℕ) → ℕ → ℕ → ℕ
boundary row_at none nrows end = end
boundary row_at (some unit_start) nrows end = align_boundary end nrows row_at unit_start

-- A boundary is kept if it lies behind the last one and before the last row.
unfoldable pub push_end : ℕ → ℕ → List ℕ → List ℕ
push_end end nrows ends =
    if ltb (last_end ends) end && ltb end nrows then ends ++ end ∷ [] else ends

-- The rounds of `for (std::size_t split = 1; split < nsplits; ++split)` from `split` on.
unfoldable pub ends_loop : (ℕ → ℕ) → Option (ℕ → ℕ) → ℕ → ℕ → ℕ → ℕ → List ℕ → List ℕ
ends_loop row_at unit_start nrows nsplits zero split ends = ends
ends_loop row_at unit_start nrows nsplits (suc rounds) split ends =
    ends_loop row_at unit_start nrows nsplits rounds (suc split)
      (push_end (boundary row_at unit_start nrows (split * nrows % 2 ^ 64 / nsplits)) nrows ends)

-- The position after the last row of each piece.
unfoldable pub piece_ends : (ℕ → ℕ) → Option (ℕ → ℕ) → ℕ → ℕ → List ℕ
piece_ends row_at unit_start nrows nsplits =
    ends_loop row_at unit_start nrows nsplits (nsplits - 1) 1 [] ++ nrows ∷ []

-- The rows read before the current span, the ends from that of the current piece on, and the pieces.
pub record Cutting : Type 0 where
  pub position : ℕ
  pub ends : List ℕ
  pub result : SpanPairs

abbrev pub next_end : Cutting → ℕ
next_end st = get_or st.ends 0 0

abbrev tail_ends : List ℕ → List ℕ
tail_ends [] = []
tail_ends (e ∷ ends) = ends

-- One round of the loop over a span, at `start`, which cuts off `n` rows.
unfoldable pub cut_step : SpanPair → ℕ → ℕ → Cutting → Cutting
cut_step span start n st = record {
  position = st.position + n;
  ends = if st.position + n == next_end st then tail_ends st.ends else st.ends;
  result =
      st.result ++ record { disk = subspan span.disk start n; mem = subspan span.mem start n } ∷ [];
}

-- `for (std::size_t start = 0; start < disk.size();)`; `none` means that the fuel ran out.
unfoldable pub cut_span : ℕ → SpanPair → ℕ → Cutting → Option Cutting
cut_span zero span start st = none
cut_span (suc fuel) span start st =
    let n = min (length span.disk - start) (next_end st - st.position) in
    let rest = cut_span fuel span (start + n) (cut_step span start n st) in
    if ltb start (length span.disk) then rest else some st

-- A round cuts off a row at least, so there are no more rounds than rows, and the last test.
unfoldable pub cut_spans : SpanPairs → Cutting → Option Cutting
cut_spans [] st = some st
cut_spans (span ∷ spans) st =
    if is_missing span
    then cut_spans spans (record st { result = st.result ++ span ∷ [] })
    else elim (cut_span (suc (length span.disk)) span 0 st) [
      | none ↦ none
      | some st' ↦ cut_spans spans st'
    ]

unfoldable pub split_row_spans : SpanPairs → ℕ → ℕ → Option (ℕ → ℕ) → Option SpanPairs
unfolding row_at
split_row_spans spans nrows nsplits unit_start =
    elim (cut_spans spans (record {
      position = 0;
      ends = piece_ends (row_at spans) unit_start nrows nsplits;
      result = [];
    })) [ none ↦ none | some st ↦ some st.result ]
