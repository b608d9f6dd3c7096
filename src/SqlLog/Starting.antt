-- ===== src/SqlLog/Starting.antt =====
-- `compactStart` and `Compact` of pkg/logstructured/sqllog/sql.go.
use harikube.Common.{
  ℕ, ◌<◌, Bytes, codes, true, false, Option, none, some, List, [], ◌∷◌, ◌≡◌, refl, ap, ◌∙◌, arith,
  ltb, leb, ◌==◌, keep, if◌then◌else◌,
}
use harikube.Api.{Error, KeyValue, Event, empty_kv}
use harikube.LogStructured.{kv_of}
use harikube.Server.Requests.{Reply, ok, failed, panicked}
use harikube.SqlLog.{SqlLog, append, current_revision}
use harikube.SqlLog.Rows.{Events, rows_to_events}
use harikube.SqlLog.Database.{Dialect, Query, rows, query_failed}
use harikube.SqlLog.Compacting.{Options, compact_iter}

abbrev pub compact_rev_key : Bytes
compact_rev_key = codes "compact_rev_key"

abbrev pub revision_of : Event → ℕ
revision_of e = (kv_of e).mod_revision

-- The previous revision of an event, or 0 for a nil `PrevKV`, which is never above `maxRev`.
abbrev prev_of : Option KeyValue → ℕ
prev_of none = 0
prev_of (some kv) = kv.mod_revision

-- The loop that finds the row with the largest previous revision; the second result is `maxID`.
unfoldable pub max_row : ℕ → ℕ → List Event → ℕ
unfolding kv_of
max_row max_rev max_id [] = max_id
max_row max_rev max_id (e ∷ es) =
    let newer = max_row (prev_of e.prev_kv) (revision_of e) es in
    let same = max_row max_rev max_id es in if ltb max_rev (prev_of e.prev_kv) then newer else same

-- The events whose rows stay, and those whose rows are deleted.
unfoldable pub survivors : List Event → List Event
unfolding max_row
survivors es = keep (λ e. revision_of e == max_row 0 0 es) es

abbrev go_on : {D : Type 0} → (D → D × Option Error) → D × Option Error → D × Option Error
go_on rest (db, none) = rest db
go_on rest (db, some e) = (db, some e)

module _ {D : Type 0} (d : Dialect D) where
  -- The loop that deletes the other rows
  delete_rows : ℕ → List Event → D → D × Option Error
  delete_rows max_id [] db = (db, none)
  delete_rows max_id (e ∷ es) db =
      let rest = delete_rows max_id es in
      if revision_of e == max_id
      then rest db
      else go_on rest (d.tx_delete_revision (revision_of e) db)

  -- The end of the transaction, with the deferred `MustRollback`; a rollback that fails, which ends
  -- the process, is left at its state.
  start_ended : SqlLog D → D × Option Error → SqlLog D × Option Error
  start_ended s (db, e) = (record s { db = (d.rollback db).0 }, e)

  start_begun : List Event → SqlLog D → D × Option Error → SqlLog D × Option Error
  unfolding start_ended delete_rows max_row
  start_begun events s (db, some e) = (record s { db = db }, some e)
  start_begun events s (db, none) =
      start_ended s (go_on d.commit (delete_rows (max_row 0 0 events) events db))

  appended : SqlLog D × (ℕ × Option Error) → SqlLog D × Option Error
  appended (s, (rev, e)) = (s, e)

  start_events : List Event → SqlLog D → SqlLog D × Option Error
  unfolding start_begun appended
  start_events [] s = appended (
      append d (λ x. x)
        (record {
          deleted = false;
          created = true;
          kv = some (record empty_kv { key = compact_rev_key });
          prev_kv = none;
        })
        s)
  start_events (e ∷ []) s = (s, none)
  start_events (e ∷ e' ∷ es) s = start_begun (e ∷ e' ∷ es) s (d.begin_tx s.db)

  start_rows : Events → Option Error → SqlLog D → SqlLog D × Option Error
  unfolding start_events
  start_rows r (some e) s = (s, some e)
  start_rows r none s = start_events r.events s

  start_query : Query → SqlLog D → SqlLog D × Option Error
  unfolding start_rows rows_to_events
  start_query (query_failed e) s = (s, some e)
  start_query (rows l) s = let r = rows_to_events true true l in start_rows r r.error s

  -- `compactStart`
  unfoldable pub compact_start : SqlLog D → SqlLog D × Option Error
  unfolding start_query
  compact_start s = start_query (d.after compact_rev_key [] 0 0 s.db) s

  -- `Start`, without the context that it keeps
  unfoldable pub start : Options → SqlLog D → SqlLog D × Option Error
  unfolding compact_start
  start options s =
      if ltb options.batch_size 100 then (s, some (Error.other 0)) else compact_start s

  iterated : SqlLog D → D × Reply (ℕ × ℕ) → SqlLog D × Reply (ℕ × Option Error)
  unfolding current_revision
  iterated s (db, ok r) = let (s', r') = current_revision d (record s { db = db }) in (s', ok r')
  iterated s (db, failed e) = (record s { db = db }, failed e)
  iterated s (db, panicked) = (record s { db = db }, panicked)

  optionally : SqlLog D → Option (D × Reply (ℕ × ℕ)) → Option (SqlLog D × Reply (ℕ × Option Error))
  unfolding iterated
  optionally s none = none
  optionally s (some r) = some (iterated s r)

  -- `Compact`; errors of the two reads are ignored. `none` would be an endless loop.
  unfoldable pub manual_compact :
      Options → (D → D) → ℕ → SqlLog D → Option (SqlLog D × Reply (ℕ × Option Error))
  unfolding optionally
  manual_compact options others target s =
      let (s', (current, _)) = current_revision d s in
      let (compact_rev, _) = d.get_compact_revision s'.db in
      if ltb current target
      then some (s', ok (0, some Error.future_rev))
      else if leb target compact_rev
      then some (s', ok (0, some Error.compacted))
      else if options.enabled
      then some (s', ok (current, none))
      else optionally s' (compact_iter d options others compact_rev target s'.db)

-- Rows of creations, as `scan` gives them, with their revision.
abbrev pub AllCreated : List Event → Type 0
AllCreated [] = Unit
AllCreated (e ∷ es) = (e.prev_kv ≡ none) × (0 < revision_of e) × AllCreated es

max_row-AllCreated : (es : List Event) → AllCreated es → max_row 0 0 es ≡ 0
unfolding max_row
max_row-AllCreated [] a = refl
max_row-AllCreated (e ∷ es) a =
    let none_before : ltb 0 (prev_of e.prev_kv) ≡ false =
      ap (λ p. ltb 0 (prev_of p)) a.0 ∙ (ground arith) in
    rw none_before (max_row-AllCreated es a.2)

keep-AllCreated : (es : List Event) → AllCreated es → keep (λ e. revision_of e == 0) es ≡ []
unfolding keep
keep-AllCreated [] a = refl
keep-AllCreated (e ∷ es) a =
    let other : (revision_of e == 0) ≡ false = ground (arith, a.1) in
    rw other (keep-AllCreated es a.2)

-- If there are two rows of the compact revision and both are creations, none of them survives the
-- cleanup of `compactStart`, since the event of a creation has no `PrevKV`.
pub survivors-AllCreated : (es : List Event) → AllCreated es → survivors es ≡ []
unfolding survivors
survivors-AllCreated es a = rw (max_row-AllCreated es a) (keep-AllCreated es a)
