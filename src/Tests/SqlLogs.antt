-- ===== src/Tests/SqlLogs.antt =====
-- A database that counts its revisions, as a dialect of the SQL log.
use harikube.Common.{
  ℕ, ◌+◌, Bytes, codes, Bool, true, false, none, some, [], ◌∷◌, ◌≡◌, refl, arith, ◌==◌,
  if◌then◌else◌,
}
use harikube.Api.{Error, Event, empty_kv}
use harikube.LogStructured.{kv_of}
use harikube.Server.Requests.{Reply, ok}
use harikube.SqlLog.{SqlLog, after, current_revision}
use harikube.SqlLog.Database.{Dialect, SqlRow, row, bad_row, rows}
use harikube.SqlLog.Reads.{after-bad_row}
use harikube.SqlLog.Filtering.{Selectors}
use harikube.SqlLog.Compacting.{Options, compact, compact_iter, compact_loop}
use harikube.SqlLog.Compacting.Ends.{compact_iter-some}
use harikube.SqlLog.Compacting.Outcome.{TxLaws, CompactOutcome, compact-CompactOutcome}
use harikube.SqlLog.Rows.{rows_to_events, scan}
use harikube.SqlLog.Polling.{Poller, poll, poll_turn}
use harikube.SqlLog.Polling.Filling.{poll-fill}
use harikube.SqlLog.Polling.Sending.{Table, RowsAfter, Complete, rows_of, all_sent}
use harikube.SqlLog.Polling.Delivery.{
  System, Reach, here, next, writes, polls, begin_poll, polled_all,
}

pub record Counters : Type 0 where
  pub current : ℕ
  pub compacted : ℕ
  -- the compact revision in the transaction that is open
  pub recorded : ℕ

abbrev counters : Dialect Counters
counters = record {
  list_current = λ key end limit include_deleted keys_only db. rows [];
  list = λ key end limit revision include_deleted keys_only db. rows [];
  count_current = λ key end db. (db.current, 0, none);
  count = λ key end revision db. (db.current, db.compacted, 0, none);
  current_revision = λ db. (db.current, none);
  after = λ key end revision limit db. rows [];
  insert = λ key created deleted create_revision prev_revision lease value old_value db.
      (record db { current = db.current + 1 }, (db.current + 1, none));
  get_compact_revision = λ db. (db.compacted, none);
  fill = λ revision db. (db, none);
  is_fill = λ key. false;
  translate_start_key = λ key. key;
  begin_tx = λ db. (record db { recorded = db.compacted }, none);
  tx_compact = λ revision db. (db, (0, none));
  tx_set_compact_revision = λ revision db. (record db { recorded = revision }, none);
  tx_delete_revision = λ revision db. (db, none);
  commit = λ db. (record db { compacted = db.recorded }, none);
  rollback = λ db. (record db { recorded = db.compacted }, none);
  post_compact = λ db. (db, none);
}

abbrev options : Options
options = record { min_retain = 2; batch_size = 3; enabled = false }

abbrev ten_revisions : Counters
ten_revisions = record { current = 10; compacted = 1; recorded = 1 }

compact_iter-some_example :
    (x : Counters × Reply (ℕ × ℕ)) × (compact_iter counters options (λ db. db) 1 10 ten_revisions
      ≡ some x)
compact_iter-some_example =
    compact_iter-some counters options (λ db. db) 1 10 ten_revisions (omega arith)

-- The last two revisions are retained.
compact_iter_run :
    compact_iter counters options (λ db. db) 1 10 ten_revisions
    ≡ some (record { current = 10; compacted = 8; recorded = 8 }, ok (8, 10))
unfolding compact_iter compact_loop compact
compact_iter_run = refl

-- Others see the compact revision that is committed.
abbrev counters_laws : TxLaws counters
counters_laws = record {
  view = λ db. record db { recorded = 0 };
  begin-view = λ db. refl;
  compact-view = λ revision db. refl;
  set-view = λ revision db. refl;
  rollback-view = λ db. refl;
  commit-fails = λ db db' e p. absurd (cc p);
}

compact-CompactOutcome_example :
    CompactOutcome counters_laws options 1 4 ten_revisions
      (compact counters options 1 4 ten_revisions)
compact-CompactOutcome_example = compact-CompactOutcome counters_laws options 1 4 ten_revisions

abbrev event_at : ℕ → Event
event_at revision = record {
  deleted = false;
  created = true;
  kv = some (record empty_kv { key = codes "a"; mod_revision = revision });
  prev_kv = none;
}

-- A table with the rows 3 and 5, which the polling from 2 on reads, and reads again from 3 on.
abbrev row_at : ℕ → SqlRow
row_at revision = record {
  current_rev = some 5;
  compact_rev = none;
  id = revision;
  name = codes "a";
  created = true;
  deleted = false;
  create_revision = 0;
  prev_revision = 0;
  lease = 0;
  value = [];
  old_value = [];
}

abbrev with_gap : Dialect Counters
with_gap = record counters {
  after = λ key end revision limit db.
      rows (if revision == 2 then row (row_at 3) ∷ row (row_at 5) ∷ [] else row (row_at 5) ∷ []);
}

abbrev five_log : SqlLog Counters
five_log = record {
  db = record { current = 5; compacted = 0; recorded = 0 };
  current_rev = 5;
  notify = [];
}

abbrev same_log : SqlLog Counters → SqlLog Counters
same_log s = s

abbrev first_turn : SqlLog Counters × Poller
first_turn = poll with_gap false 500 (five_log, begin_poll 2 5)

poll-fill_example :
    (first_turn.1.poll_rev ≡ 3)
    × ((poll with_gap false 500 (same_log first_turn.0, first_turn.1)).0.db
        ≡ (with_gap.fill 4 (same_log first_turn.0).db).0)
unfolding kv_of rows_to_events scan
poll-fill_example =
    poll-fill with_gap 500 five_log (begin_poll 2 5) (scan true true (row_at 3) ∷ [])
      (scan true true (row_at 5)) [] (scan true true (row_at 5)) [] same_log (refl, tt)
      (λ p. omega (arith, p))
      (record {
        l = row (row_at 3) ∷ row (row_at 5) ∷ [];
        query_eq = refl;
        no_error = refl;
        events_eq = refl;
      })
      (record { l = row (row_at 5) ∷ []; query_eq = refl; no_error = refl; events_eq = refl })
      (λ p. omega (arith, p))

abbrev no_fill : Bytes → Bool
no_fill key = false

abbrev no_rows : Table
no_rows revision = none

abbrev one_row : Table
one_row revision = if revision == 4 then some (event_at 4) else none

-- A row becomes visible, and the loop takes it.
abbrev polled_table : System
polled_table = record {
  table = one_row;
  poller = poll_turn no_fill false (event_at 4 ∷ []) (begin_poll 3 3);
}

RowsAfter-one_row : RowsAfter one_row 3 (event_at 4 ∷ [])
unfolding kv_of
RowsAfter-one_row = (omega arith, refl, (λ r p q. absurd (omega (arith, p, q))), tt)

polled : Reach no_fill (record { table = no_rows; poller = begin_poll 3 3 }) polled_table
polled =
    next (next here (writes {t = one_row} (λ r e p. absurd (cc p))))
      (polls (event_at 4 ∷ []) RowsAfter-one_row)

polled_all_example :
    (n : ℕ) × (polled_table.poller.poll_rev ≡ 3 + n)
    × Complete no_fill one_row 3 n
    × (all_sent no_fill polled_table.poller.result ≡ rows_of no_fill one_row 3 n)
polled_all_example = polled_all no_fill 3 3 no_rows polled

abbrev unreadable : Dialect Counters
unreadable = record counters {
  after = λ key end revision limit db. rows (bad_row (Error.other 7) ∷ []);
}

abbrev ten_log : SqlLog Counters
ten_log = record { db = ten_revisions; current_rev = 10; notify = [] }

after-bad_row_example : after unreadable (codes "a") [] 5 0 ten_log ≡ (ten_log, (10, [], none))
unfolding current_revision
after-bad_row_example =
    after-bad_row unreadable (codes "a") [] 5 0 ten_log ten_log (Error.other 7) [] 10 1 refl
      (omega arith) refl refl (omega arith)

-- A label selector that no object matches.
abbrev no_label : Selectors Unit
no_label = record {
  decode = λ key value. some tt;
  label_matches = λ labels obj. false;
  requirements = λ fields. [];
  fields = λ obj value field. [];
}

abbrev created_a : Event
created_a = record {
  deleted = false;
  created = true;
  kv = some (record empty_kv { key = codes "a"; value = codes "1"; mod_revision = 4 });
  prev_kv = none;
}
