-- ===== src/SqlLog.antt =====
-- pkg/logstructured/sqllog/sql.go: the log over a SQL database, without its goroutines.
pub mod Database
pub mod Rows
pub mod Compacting
pub mod Polling
pub mod Filtering
pub mod Starting
pub mod Reads
pub mod AsLog
use Database.{Dialect, SqlRow, Scanned, row, bad_row, Query, rows, query_failed}
use Rows.{Events, rows_to_events}
use harikube.Common.{
  ℕ, ◌-◌, Bytes, Bool, true, false, not, ◌&&◌, ◌||◌, Option, none, some, List, [], ◌∷◌, ◌++◌,
  length, ltb, ◌==◌, keep, if◌then◌else◌,
}
use harikube.Api.{Error, KeyValue, Event, empty_kv, in_range}

-- The capacity of `notify`
abbrev pub notify_capacity : ℕ
notify_capacity = 1024

-- `SQLLog`: the state of the database, `currentRev`, and what waits in `notify`.
pub record SqlLog (D : Type 0) : Type 0 where
  pub db : D
  pub current_rev : ℕ
  pub notify : List ℕ

abbrev pub kv_or_empty : Option KeyValue → KeyValue
kv_or_empty none = empty_kv
kv_or_empty (some kv) = kv

module _ {D : Type 0} (d : Dialect D) where
  -- The `select` that sends a revision to the polling loop, unless its channel is full.
  unfoldable pub notify_of : ℕ → SqlLog D → SqlLog D
  notify_of rev s =
      if ltb (length s.notify) notify_capacity
      then record s { notify = s.notify ++ rev ∷ [] }
      else s

  loaded_revision : SqlLog D → ℕ × Option Error → SqlLog D × (ℕ × Option Error)
  loaded_revision s (last_rev, some e) = (s, (last_rev, some e))
  loaded_revision s (last_rev, none) = (record s { current_rev = last_rev }, (last_rev, none))

  -- `CurrentRevision`; nothing comes between its load and its swap here.
  unfoldable pub current_revision : SqlLog D → SqlLog D × (ℕ × Option Error)
  unfolding loaded_revision
  current_revision s =
      if s.current_rev == 0
      then loaded_revision s (d.current_revision s.db)
      else (s, (s.current_rev, none))

  -- `CompactRevision`
  unfoldable pub compact_revision : SqlLog D → ℕ × Option Error
  compact_revision s = d.get_compact_revision s.db

  -- The revisions of a result, which are read again if it is empty and `again` holds.
  with_compact : SqlLog D × ℕ → List Event → ℕ × Option Error → SqlLog D × Events
  with_compact (s, rev) events (compact, none) =
      (s, record { rev = rev; compact = compact; events = events; error = none })
  with_compact (s, rev) events (compact, some e) =
      (s, record { rev = 0; compact = 0; events = []; error = some e })

  with_current : List Event → SqlLog D × (ℕ × Option Error) → SqlLog D × Events
  unfolding with_compact
  with_current events (s, (rev, none)) = with_compact (s, rev) events (d.get_compact_revision s.db)
  with_current events (s, (rev, some e)) =
      (s, record { rev = 0; compact = 0; events = []; error = some e })

  abbrev is_empty : List Event → Bool
  is_empty [] = true
  is_empty (e ∷ l) = false

  unfoldable pub revisions_of : Bool → Events → SqlLog D → SqlLog D × Events
  unfolding with_current current_revision
  revisions_of again r s =
      if again && is_empty r.events then with_current r.events (current_revision s) else (s, r)

  after_result : ℕ → SqlLog D × Events → SqlLog D × (ℕ × List Event × Option Error)
  after_result revision (s, r) =
      if ltb 0 revision && ltb revision r.compact
      then (s, (r.rev, [], some Error.compacted))
      else (s, (r.rev, r.events, r.error))

  after_rows : ℕ → Query → SqlLog D → SqlLog D × (ℕ × List Event × Option Error)
  unfolding after_result revisions_of rows_to_events
  after_rows revision (query_failed e) s = (s, (0, [], some e))
  after_rows revision (rows l) s =
      after_result revision (revisions_of (ltb 0 revision) (rows_to_events true true l) s)

  -- `After`
  unfoldable pub after :
      Bytes → Bytes → ℕ → ℕ → SqlLog D → SqlLog D × (ℕ × List Event × Option Error)
  unfolding after_rows
  after key end revision limit s = after_rows revision (d.after key end revision limit s.db) s

  list_found : ℕ → Events → Option Error → SqlLog D → SqlLog D × (ℕ × List Event × Option Error)
  unfolding notify_of
  list_found revision r (some e) s = (s, (0, [], some e))
  list_found revision r none s =
      if ltb r.rev revision
      then (s, (r.rev, [], some Error.future_rev))
      else if ltb 0 revision && ltb revision r.compact
      then (s, (r.rev, [], some Error.compacted))
      else (notify_of r.rev s, (r.rev, r.events, none))

  list_result : ℕ → SqlLog D × Events → SqlLog D × (ℕ × List Event × Option Error)
  unfolding list_found
  list_result revision (s, r) = list_found revision r r.error s

  list_events : ℕ → Events → Option Error → SqlLog D → SqlLog D × (ℕ × List Event × Option Error)
  unfolding list_result revisions_of
  list_events revision r (some e) s = (s, (0, [], some e))
  list_events revision r none s = list_result revision (revisions_of true r s)

  pub list_rows : ℕ → Bool → Query → SqlLog D → SqlLog D × (ℕ × List Event × Option Error)
  unfolding list_events rows_to_events
  list_rows revision keys_only (query_failed e) s = (s, (0, [], some e))
  list_rows revision keys_only (rows l) s =
      let r = rows_to_events (not keys_only) false l in list_events revision r r.error s

  -- `List`
  unfoldable pub list :
      Bytes → Bytes → ℕ → ℕ → Bool → Bool → SqlLog D → SqlLog D × (ℕ × List Event × Option Error)
  unfolding list_rows
  list key end limit revision include_deleted keys_only s =
      let start = d.translate_start_key key in
      list_rows revision keys_only
        (if revision == 0
          then d.list_current start end limit include_deleted keys_only s.db
          else d.list start end limit revision include_deleted keys_only s.db)
        s

  count_checked : ℕ → ℕ × ℕ × ℕ × Option Error → ℕ × ℕ × Option Error
  count_checked revision (rev, compact, n, some e) = (0, 0, some e)
  count_checked revision (rev, compact, n, none) =
      if ltb rev revision
      then (rev, 0, some Error.future_rev)
      else if ltb revision compact
      then (rev, 0, some Error.compacted)
      else (rev, n, none)

  -- `Count`
  unfoldable pub count : Bytes → Bytes → ℕ → SqlLog D → ℕ × ℕ × Option Error
  unfolding count_checked
  count key end revision s =
      let start = d.translate_start_key key in
      if revision == 0
      then d.count_current start end s.db
      else count_checked revision (d.count start end revision s.db)

  -- After the insert, `others` is what other calls do before the swap of `currentRev`, which was
  -- `current` when the insert began.
  pub append_inserted :
      (SqlLog D → SqlLog D) → ℕ → SqlLog D → D × (ℕ × Option Error) → SqlLog D × (ℕ × Option Error)
  unfolding notify_of
  append_inserted others current s (db, (rev, some e)) = (record s { db = db }, (0, some e))
  append_inserted others current s (db, (rev, none)) =
      let s' = others (notify_of rev (record s { db = db })) in
      (if s'.current_rev == current then record s' { current_rev = rev } else s', (rev, none))

  -- `Append`
  unfoldable pub append : (SqlLog D → SqlLog D) → Event → SqlLog D → SqlLog D × (ℕ × Option Error)
  unfolding append_inserted
  append others e s =
      let kv = kv_or_empty e.kv in
      let prev = kv_or_empty e.prev_kv in
      append_inserted others s.current_rev s (
        d.insert kv.key e.created e.deleted kv.create_revision prev.mod_revision kv.lease kv.value
          prev.value s.db)
