-- ===== src/SqlLog/Compacting.antt =====
-- Compaction of the SQL log: `safeCompactRev`, `compact`, `compactIter`, `Compact` and `compactStart`
-- of pkg/logstructured/sqllog/sql.go. A commit or a rollback that fails ends the process.
pub mod Ends
pub mod Outcome
use harikube.Common.{
  ℕ, zero, suc, ◌+◌, ◌-◌, Bytes, codes, Bool, true, false, not, ◌&&◌, Option, none, some, List, [],
  ◌∷◌, ltb, leb, ◌==◌, if◌then◌else◌,
}
use harikube.Api.{Error, KeyValue, Event, empty_kv}
use harikube.Server.Requests.{Reply, ok, failed, panicked}
use harikube.SqlLog.{SqlLog, append}
use harikube.SqlLog.Rows.{rows_to_events}
use harikube.SqlLog
use harikube.SqlLog.Database.{Dialect, Scanned, Query, rows, query_failed}

-- `safeCompactRev`
unfoldable pub safe_compact_rev : ℕ → ℕ → ℕ → ℕ
safe_compact_rev target current min_retain =
    let safe = current - min_retain in if ltb target safe then target else safe

-- The options of compaction.
pub record Options : Type 0 where
  pub min_retain : ℕ
  pub batch_size : ℕ
  pub enabled : Bool

-- What `compact` returns: the compact revision, the current revision, and the error.
abbrev pub Compacted : Type 0
Compacted = ℕ × ℕ × Option Error

-- The variables of the loop of `compactIter`.
pub record Iter : Type 0 where
  pub iter_rev : ℕ
  pub compacted_rev : ℕ
  pub current_rev : ℕ
  pub count : ℕ
  pub error : Option Error

abbrev first_iter : ℕ → Iter
first_iter compact_rev = record {
  iter_rev = compact_rev;
  compacted_rev = compact_rev;
  current_rev = 0;
  count = 0;
  error = none;
}

module _ {D : Type 0} (d : Dialect D) (options : Options) where
  -- The deferred `MustRollback`, before `compact` returns
  rolled_back : Reply Compacted → D × Option Error → D × Reply Compacted
  rolled_back r (db, none) = (db, r)
  rolled_back r (db, some e) = (db, panicked)

  returned : Reply Compacted → D → D × Reply Compacted
  unfolding rolled_back
  returned r db = rolled_back r (d.rollback db)

  tx_committed : ℕ → ℕ → D × Option Error → D × Reply Compacted
  unfolding returned
  tx_committed target current (db, none) = returned (ok (target, current, none)) db
  tx_committed target current (db, some e) = (db, panicked)

  tx_recorded : ℕ → ℕ → D × Option Error → D × Reply Compacted
  unfolding tx_committed returned
  tx_recorded target current (db, none) = tx_committed target current (d.commit db)
  tx_recorded target current (db, some e) = returned (ok (0, 0, some e)) db

  tx_deleted : ℕ → ℕ → D × (ℕ × Option Error) → D × Reply Compacted
  unfolding tx_recorded returned
  tx_deleted target current (db, (n, none)) =
      tx_recorded target current (d.tx_set_compact_revision target db)
  tx_deleted target current (db, (n, some e)) = returned (ok (0, 0, some e)) db

  compact_from : ℕ → ℕ → ℕ → D → ℕ × Option Error → D × Reply Compacted
  unfolding tx_deleted returned safe_compact_rev
  compact_from compact_rev target current db (db_compact, some e) = returned (ok (0, 0, some e)) db
  compact_from compact_rev target current db (db_compact, none) =
      let safe = safe_compact_rev target current options.min_retain in
      if not (compact_rev == db_compact)
      then returned (ok (db_compact, current, some Error.compacted)) db
      else if leb safe compact_rev
      then returned (ok (db_compact, current, some Error.compacted)) db
      else tx_deleted safe current (d.tx_compact safe db)

  compact_current : ℕ → ℕ → D → ℕ × Option Error → D × Reply Compacted
  unfolding compact_from returned
  compact_current compact_rev target db (current, some e) = returned (ok (0, 0, some e)) db
  compact_current compact_rev target db (current, none) =
      compact_from compact_rev target current db (d.get_compact_revision db)

  compact_begun : ℕ → ℕ → D × Option Error → D × Reply Compacted
  unfolding compact_current
  compact_begun compact_rev target (db, some e) = (db, ok (0, 0, some e))
  compact_begun compact_rev target (db, none) =
      compact_current compact_rev target db (d.current_revision db)

  -- `compact`
  unfoldable pub compact : ℕ → ℕ → D → D × Reply Compacted
  unfolding compact_begun
  compact compact_rev target db = compact_begun compact_rev target (d.begin_tx db)

  next_iter : ℕ → Iter → Iter
  next_iter target i =
      let next = i.iter_rev + options.batch_size in
      record i { iter_rev = if ltb target next then target else next }

  store_revisions : ℕ → ℕ → Iter → Iter
  store_revisions compacted current i =
      if not (compacted == 0) && not (current == 0)
      then record i { compacted_rev = compacted; current_rev = current }
      else i

  -- The rest of a turn, with the next turns.
  after_compact :
      (Iter → D → Option (D × Reply Iter)) → Iter → D × Reply Compacted → Option (D × Reply Iter)
  unfolding store_revisions
  after_compact rest i (db, ok (compacted, current, some e)) =
      some (db, ok (record (store_revisions compacted current i) { error = some e }))
  after_compact rest i (db, ok (compacted, current, none)) =
      let i' = store_revisions compacted current i in rest (record i' { count = i'.count + 1 }) db
  after_compact rest i (db, failed e) = some (db, failed e)
  after_compact rest i (db, panicked) = some (db, panicked)

  -- The loop of `compactIter` on fuel; `none` means that it ran out. `others` is what other clients do
  -- before each transaction.
  unfoldable pub compact_loop : (D → D) → ℕ → ℕ → Iter → D → Option (D × Reply Iter)
  unfolding after_compact next_iter
  compact_loop others zero target i db = if ltb i.iter_rev target then none else some (db, ok i)
  compact_loop others (suc fuel) target i db =
      let i' = next_iter target i in
      let rest =
        after_compact (compact_loop others fuel target) i'
          (compact i'.compacted_rev i'.iter_rev (others db)) in
      if ltb i.iter_rev target then rest else some (db, ok i)

  -- What follows the loop: `postCompact`, whose error is only logged, and the revisions.
  iterated : ℕ → ℕ → D × Reply Iter → D × Reply (ℕ × ℕ)
  iterated compact_rev target (db, ok i) = (
    if ltb 0 i.count then (d.post_compact db).0 else db,
    ok (if ltb 0 i.current_rev then (i.compacted_rev, i.current_rev) else (compact_rev, target)),
  )
  iterated compact_rev target (db, failed e) = (db, failed e)
  iterated compact_rev target (db, panicked) = (db, panicked)

  optionally : ℕ → ℕ → Option (D × Reply Iter) → Option (D × Reply (ℕ × ℕ))
  unfolding iterated
  optionally compact_rev target none = none
  optionally compact_rev target (some r) = some (iterated compact_rev target r)

  -- `compactIter`; `target` is fuel enough.
  unfoldable pub compact_iter : (D → D) → ℕ → ℕ → D → Option (D × Reply (ℕ × ℕ))
  unfolding optionally
  compact_iter others compact_rev target db =
      optionally compact_rev target (compact_loop others target target (first_iter compact_rev) db)
