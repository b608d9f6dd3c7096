-- ===== src/SqlLog/Rows.antt =====
-- `scan` and `RowsToEvents` of pkg/logstructured/sqllog/sql.go: the events of the rows of a query.
use harikube.Common.{ℕ, Bool, ◌&&◌, Option, none, some, List, [], ◌∷◌, ◌++◌, if◌then◌else◌}
use harikube.Api.{Error, Event, empty_kv}
use harikube.SqlLog.Database.{SqlRow, Scanned, row, bad_row}

abbrev pub or_zero : Option ℕ → ℕ
or_zero none = 0
or_zero (some n) = n

-- `scan`; columns that are not asked for keep the zero value.
unfoldable pub scan : Bool → Bool → SqlRow → Event
scan val prev r =
    let create_revision = if r.created then r.id else r.create_revision in
    record {
      deleted = r.deleted;
      created = r.created;
      kv = some (record empty_kv {
        key = r.name;
        value = if val then r.value else [];
        create_revision = create_revision;
        mod_revision = r.id;
        lease = r.lease;
      });
      prev_kv =
          if r.created
          then none
          else some (record empty_kv {
            key = r.name;
            value = if val && prev then r.old_value else [];
            create_revision = create_revision;
            mod_revision = r.prev_revision;
            lease = r.lease;
          });
    }

-- What `RowsToEvents` returns.
pub record Events : Type 0 where
  pub rev : ℕ
  pub compact : ℕ
  pub events : List Event
  pub error : Option Error

-- The loop of `RowsToEvents`, with its variables so far.
unfoldable pub rows_to_events_from : Bool → Bool → Events → List Scanned → Events
unfolding scan
rows_to_events_from val prev acc [] = acc
rows_to_events_from val prev acc (bad_row e ∷ l) = record {
  rev = 0;
  compact = 0;
  events = [];
  error = some e;
}
rows_to_events_from val prev acc (row r ∷ l) =
    rows_to_events_from val prev
      (record {
        rev = or_zero r.current_rev;
        compact = or_zero r.compact_rev;
        events = acc.events ++ scan val prev r ∷ [];
        error = none;
      })
      l

-- `RowsToEvents`
unfoldable pub rows_to_events : Bool → Bool → List Scanned → Events
unfolding rows_to_events_from
rows_to_events val prev l =
    rows_to_events_from val prev (record { rev = 0; compact = 0; events = []; error = none }) l
