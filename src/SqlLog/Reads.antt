-- ===== src/SqlLog/Reads.antt =====
-- Errors of `After` of pkg/logstructured/sqllog/sql.go.
use harikube.Common.{ℕ, ◌≤◌, ◌<◌, Bytes, none, List, [], ◌∷◌, ◌≡◌, refl, arith, true, false, ltb}
use harikube.Api.{Error}
use harikube.SqlLog.{
  SqlLog, after, after_rows, after_result, revisions_of, with_current, with_compact,
  current_revision,
}
use harikube.SqlLog.Rows.{rows_to_events, rows_to_events_from}
use harikube.SqlLog.Database.{Dialect, Scanned, bad_row, rows}

-- If the first row of a result cannot be scanned, `After` from a revision above 0 drops the error: when
-- both revisions can be read and the given one is not compacted, it returns no events and no error.
pub after-bad_row :
    {D : Type 0} (d : Dialect D) (key end : Bytes) (revision limit : ℕ) (s s' : SqlLog D)
    (e : Error) (l : List Scanned) (rev compact : ℕ)
    → d.after key end revision limit s.db ≡ rows (bad_row e ∷ l)
    → 0 < revision
    → current_revision d s ≡ (s', (rev, none))
    → d.get_compact_revision s'.db ≡ (compact, none)
    → compact ≤ revision
    → after d key end revision limit s ≡ (s', (rev, [], none))
unfolding after after_rows after_result revisions_of with_current with_compact rows_to_events
    rows_to_events_from
after-bad_row d key end revision limit s s' e l rev compact q positive p c bound =
    let above : ltb 0 revision ≡ true = ground arith in
    let kept : ltb revision compact ≡ false = ground arith in simp (q, above, p, c, kept) refl
