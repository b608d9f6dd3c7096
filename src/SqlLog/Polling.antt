-- ===== src/SqlLog/Polling.antt =====
-- `poll` of pkg/logstructured/sqllog/sql.go: what one turn of the polling loop does with the events
-- that `After` gives. `late` says that more than a second has passed since `skipTime`, and an event of a
-- row has its `KV`.
pub mod Sending
pub mod Delivery
pub mod Filling
use harikube.Common.{
  ℕ, zero, suc, ◌+◌, ◌-◌, Bytes, Bool, true, false, not, ◌&&◌, Option, none, some, List, [], ◌∷◌,
  ◌++◌, map, length, ltb, ◌==◌, if◌then◌else◌,
}
use harikube.Api.{Error, KeyValue, Event, empty_kv}
use harikube.LogStructured.{kv_of}
use harikube.SqlLog.{SqlLog, notify_of}
use harikube.SqlLog.Rows.{Events, rows_to_events}
use harikube.SqlLog.Database.{Dialect, Query, rows, query_failed}

-- What the loop over the events of a turn leaves: `rev`, `saveLast`, `skip`, the revision that it asks
-- the database to fill, those that it puts into `notify`, and the events that it sends, where `none` is
-- a nil one: a fill record, or an event that is not taken.
pub record Pass : Type 0 where
  pub rev : ℕ
  pub save_last : Bool
  pub skip : ℕ
  pub fill : Option ℕ
  pub notified : List ℕ
  pub sequential : List (Option Event)

-- The loop is left before the given events, whose places in `sequential` stay nil.
abbrev pass_end : List Event → ℕ → ℕ → Pass
pass_end events rev skip = record {
  rev = rev;
  save_last = false;
  skip = skip;
  fill = none;
  notified = [];
  sequential = map (λ e. none) events;
}

-- `canSkipRevision`
unfoldable pub can_skip_revision : ℕ → ℕ → Bool → Bool
can_skip_revision rev skip late = rev == skip && late

-- An event is taken, with what comes of the rest.
abbrev taken : (Bytes → Bool) → Event → Pass → Pass
taken is_fill event rest = record rest {
  save_last = true;
  sequential = (if is_fill (kv_of event).key then none else some event) ∷ rest.sequential;
}

-- The loop over the events. A gap is recorded when it is first seen, filled when it is seen again,
-- and skipped when it is late.
unfoldable pub poll_events : (Bytes → Bool) → ℕ → ℕ → Bool → List Event → Pass
unfolding kv_of can_skip_revision
poll_events is_fill rev skip late [] = pass_end [] rev skip
poll_events is_fill rev skip late (event ∷ events) =
    let next = rev + 1 in
    let at = (kv_of event).mod_revision in
    let rest = taken is_fill event (poll_events is_fill at skip late events) in
    if at == next
    then rest
    else if can_skip_revision next skip late
    then rest
    else if not (skip == next)
    then record (pass_end (event ∷ events) rev next) { notified = next ∷ [] }
    else record (pass_end (event ∷ events) rev skip) { fill = some next }

-- `pollRevision`, `skip`, `currentRev`, and the batches sent to the watches so far.
pub record Poller : Type 0 where
  pub poll_rev : ℕ
  pub skip : ℕ
  pub current_rev : ℕ
  pub result : List (List (Option Event))

-- The end of a turn
unfoldable pub poll_done : Pass → Poller → Poller
poll_done p s =
    if p.save_last
    then record {
      poll_rev = p.rev;
      skip = p.skip;
      current_rev = if s.current_rev == s.poll_rev then p.rev else s.current_rev;
      result = s.result ++ p.sequential ∷ [];
    }
    else record s { skip = p.skip }

-- A turn that reads some events
unfoldable pub poll_turn : (Bytes → Bool) → Bool → List Event → Poller → Poller
unfolding poll_done
poll_turn is_fill late events s = poll_done (poll_events is_fill s.poll_rev s.skip late events) s

module _ {D : Type 0} (d : Dialect D) where
  fill_done : ℕ → SqlLog D → D × Option Error → SqlLog D
  unfolding notify_of
  fill_done next s (db, none) = notify_of d next (record s { db = db })
  fill_done next s (db, some e) = record s { db = db }

  filled : Option ℕ → SqlLog D → SqlLog D
  unfolding fill_done
  filled none s = s
  filled (some next) s = fill_done next s (d.fill next s.db)

  notify_all : List ℕ → SqlLog D → SqlLog D
  unfolding notify_of
  notify_all [] s = s
  notify_all (rev ∷ revs) s = notify_all revs (notify_of d rev s)

  poll_rows : Bool → Events → Option Error → SqlLog D × Poller → SqlLog D × Poller
  unfolding poll_done filled notify_all
  poll_rows late r (some e) (s, p) = (s, p)
  poll_rows late r none (s, p) =
      let pass = poll_events d.is_fill p.poll_rev p.skip late r.events in
      let p' = poll_done pass p in
      (record (filled pass.fill (notify_all pass.notified s)) { current_rev = p'.current_rev }, p')

  poll_query : Bool → Query → SqlLog D × Poller → SqlLog D × Poller
  unfolding poll_rows rows_to_events
  poll_query late (query_failed e) (s, p) = (s, p)
  poll_query late (rows l) (s, p) =
      let r = rows_to_events true true l in poll_rows late r r.error (s, p)

  -- A turn of `poll` on the log, after its wait; a batch without events leaves everything as it is.
  unfoldable pub poll : Bool → ℕ → SqlLog D × Poller → SqlLog D × Poller
  unfolding poll_query
  poll late poll_batch_size (s, p) =
      poll_query late (d.after [] [] p.poll_rev poll_batch_size s.db)
        (s, record p { current_rev = s.current_rev })
