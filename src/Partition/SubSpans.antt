-- ===== src/Partition/SubSpans.antt =====
-- `MakeSubSpans` of cpp/arcae/data_partition.cc: the ranges of a dimension that are read at once.
pub mod Cover
pub mod Ranges
pub mod Duplicates
use arcae.Prelude.{
  ℕ, zero, suc, ◌+◌, ◌-◌, Bool, true, false, List, [], ◌∷◌, ◌++◌, length, subspan, if◌then◌else◌, ℤ,
  pos, is_neg, eqb_ℤ, ◌-ℤ◌, Result, ok, err, index_error, ◌>>=◌,
}
use arcae.Partition.{SpanPair, disk_at}

-- The variables that the loop changes.
pub record Scan : Type 0 where
  pub start : ℕ
  pub result : List SpanPair

abbrev pub start_scan : Scan
start_scan = record { start = 0; result = [] }

module _ (disk : List ℤ) (mem : List ℕ) where
  -- The part from `start` up to `current`.
  unfoldable pub sub_span : ℕ → ℕ → SpanPair
  sub_span start current = record {
    disk = subspan disk start (current - start);
    mem = subspan mem start (current - start);
  }

  -- `MakeSubSpan`.
  unfoldable pub make_sub_span : ℕ → Scan → Scan
  unfolding sub_span
  make_sub_span current st = record {
    start = current;
    result = st.result ++ sub_span st.start current ∷ [];
  }

  -- One round of the loop, at index `i`.
  unfoldable pub sub_spans_step : Bool → ℕ → Scan → Result Scan
  sub_spans_step entire i st =
      if is_neg (disk_at disk i)
      then ok st
      else if is_neg (disk_at disk st.start)
      then ok (make_sub_span i st)
      else if eqb_ℤ (disk_at disk i) (disk_at disk (i - 1))
      then err index_error
      else if eqb_ℤ (disk_at disk i -ℤ disk_at disk (i - 1)) (pos 1)
      then ok st
      else if entire
      then ok st
      else ok (make_sub_span i st)

  -- The rounds at `i`, `i + 1` and so on.
  unfoldable pub sub_spans_loop : Bool → ℕ → ℕ → Scan → Result Scan
  sub_spans_loop entire zero i st = ok st
  sub_spans_loop entire (suc rounds) i st =
      sub_spans_step entire i st >>= sub_spans_loop entire rounds (suc i)

  unfoldable pub make_sub_spans : Bool → Result (List SpanPair)
  make_sub_spans entire = do
    st ← sub_spans_loop entire (length disk - 1) 1 start_scan
    ok (make_sub_span (length disk) st).result
