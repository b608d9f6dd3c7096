-- ===== src/Tests/Tables.antt =====
-- A database that is a list of rows, as a dialect of the SQL log, and that log.
use harikube.Common.{
  ℕ, ◌+◌, Bytes, Bool, true, false, not, ◌||◌, Option, none, some, List, [], ◌∷◌, ◌++◌, ◌≡◌, refl,
  ap, sym, ◌∙◌, arith, last?, length, if◌then◌else◌, Bool-cases, inl, inr, subst,
}
use harikube.Api.{Error, KeyValue, Event, empty_kv}
use harikube.SqlLog.{SqlLog, kv_or_empty}
use harikube.SqlLog.Database.{Dialect, SqlRow, Scanned, row, rows}
use harikube.SqlLog.AsLog.{
  FoundRows, no_row, hidden_row, shown_row, DialectLaws, sql_log, sql_log_laws,
}
use harikube.LogStructured.{kv_of}
use harikube.LogStructured.Interface.{Log}
use harikube.LogStructured.Rows.{Row, of_key, has_next, Appends, prev_of, LogLaws}

abbrev pub row_to : Row → SqlRow
row_to r = record {
  current_rev = some r.revision;
  compact_rev = none;
  id = r.revision;
  name = r.key;
  created = r.created;
  deleted = r.deleted;
  create_revision = r.create_revision;
  prev_revision = r.prev_revision;
  lease = r.lease;
  value = r.value;
  old_value = [];
}

abbrev pub rows_to : Bool → Option Row → List Scanned
rows_to include_deletes none = []
rows_to include_deletes (some r) =
    if not r.deleted || include_deletes then row (row_to r) ∷ [] else []

abbrev pub row_of : ℕ → Event → Row
row_of revision e = record {
  revision = revision;
  key = (kv_of e).key;
  value = (kv_of e).value;
  created = e.created;
  deleted = e.deleted;
  create_revision = (kv_of e).create_revision;
  prev_revision = prev_of e.prev_kv;
  lease = (kv_of e).lease;
}

abbrev pub append_unless : Bool → Event → List Row → List Row × (ℕ × Option Error)
append_unless true e s = (s, (0, some Error.key_exists))
append_unless false e s = (s ++ row_of (length s + 1) e ∷ [], (length s + 1, none))

abbrev pub append_row : Event → List Row → List Row × (ℕ × Option Error)
append_row e s = append_unless (has_next (prev_of e.prev_kv) (of_key (kv_of e).key s)) e s

-- An insertion, as an event.
abbrev pub insert_event : Bytes → Bool → Bool → ℕ → ℕ → ℕ → Bytes → Event
insert_event key created deleted create_revision prev_revision lease value = record {
  deleted = deleted;
  created = created;
  kv = some (record empty_kv {
    key = key;
    value = value;
    create_revision = create_revision;
    lease = lease;
  });
  prev_kv = some (record empty_kv { mod_revision = prev_revision });
}

abbrev pub table : Dialect (List Row)
table = record {
  list_current = λ key end limit include_deletes keys_only db.
      rows (rows_to include_deletes (last? (of_key key db)));
  list = λ key end limit revision include_deletes keys_only db. rows [];
  count_current = λ key end db. (length db, 0, none);
  count = λ key end revision db. (length db, 0, 0, none);
  current_revision = λ db. (length db, none);
  after = λ key end revision limit db. rows [];
  insert = λ key created deleted create_revision prev_revision lease value old_value db.
      append_row (insert_event key created deleted create_revision prev_revision lease value) db;
  get_compact_revision = λ db. (0, none);
  fill = λ revision db. (db, none);
  is_fill = λ key. false;
  translate_start_key = λ key. key;
  begin_tx = λ db. (db, none);
  tx_compact = λ revision db. (db, (0, none));
  tx_set_compact_revision = λ revision db. (db, none);
  tx_delete_revision = λ revision db. (db, none);
  commit = λ db. (db, none);
  rollback = λ db. (db, none);
  post_compact = λ db. (db, none);
}

pub rows_to-FoundRows :
    (include_deletes : Bool) (o : Option Row) (l : List Scanned)
    → rows (rows_to include_deletes o) ≡ rows l
    → FoundRows include_deletes o l
rows_to-FoundRows include_deletes o l p = subst (FoundRows include_deletes o) (cc p) (found o)
  where
    found : (o' : Option Row) → FoundRows include_deletes o' (rows_to include_deletes o')
    found none = no_row
    found (some r) = elim (Bool-cases (not r.deleted || include_deletes)) [
      | inl seen ↦ simp seen (
          shown_row
            (record { id_eq = refl; deleted_eq = refl; created_eq = refl; create_eq = refl }) seen)
      | inr unseen ↦ simp unseen (hidden_row (ground arith) (ground arith))
    ]

append_row-done :
    (b : Bool) (e : Event) (s : List Row) {s' : List Row} {rev : ℕ}
    → append_unless b e s ≡ (s', (rev, none))
    → (new : Row) × (more : List Row) × Appends rev e new × (s' ≡ s ++ new ∷ more) × (b ≡ false)
append_row-done true e s p = absurd (cc p)
append_row-done false e s {rev = rev} p = (
  row_of rev e,
  [],
  record {
    revision_eq = refl;
    key_eq = refl;
    value_eq = refl;
    lease_eq = refl;
    created_eq = refl;
    create_eq = refl;
    prev_eq = refl;
    deletes = λ d. d;
    creates = λ c. refl;
  },
  cc p,
  refl,
)

pub append_row-failed :
    (b : Bool) (e : Event) (s : List Row) {s' : List Row} {rev : ℕ} {err : Error}
    → append_unless b e s ≡ (s', (rev, some err))
    → s' ≡ s
append_row-failed true e s p = cc p
append_row-failed false e s p = absurd (cc p)

kv_of-or_empty : (o : Option KeyValue) → elim o [ none ↦ empty_kv | some kv ↦ kv ] ≡ kv_or_empty o
kv_of-or_empty none = refl
kv_of-or_empty (some kv) = refl

prev_of-or_empty : (o : Option KeyValue) → (kv_or_empty o).mod_revision ≡ prev_of o
prev_of-or_empty none = refl
prev_of-or_empty (some kv) = refl

abbrev pub insertion : Event → Event
insertion e =
    let kv = kv_or_empty e.kv in
    insert_event kv.key e.created e.deleted kv.create_revision (kv_or_empty e.prev_kv).mod_revision
      kv.lease kv.value

pub insert_row-done :
    (e : Event) (s : List Row) {s' : List Row} {rev : ℕ}
    → append_row (insertion e) s ≡ (s', (rev, none))
    → (new : Row) × (more : List Row) × Appends rev e new
      × (s' ≡ s ++ new ∷ more)
      × (has_next (prev_of e.prev_kv) (of_key (kv_of e).key s) ≡ false)
unfolding kv_of
insert_row-done e s p =
    let kv = kv_of-or_empty e.kv in
    let prev = prev_of-or_empty e.prev_kv in
    let (new, more, a, rows_eq, alone) =
      append_row-done
        (has_next (kv_or_empty e.prev_kv).mod_revision (of_key (kv_or_empty e.kv).key s))
        (insertion e) s p in
    (
      new,
      more,
      record {
        revision_eq = a.revision_eq;
        key_eq = a.key_eq ∙ ap (λ x. x.key) (sym kv);
        value_eq = a.value_eq ∙ ap (λ x. x.value) (sym kv);
        lease_eq = a.lease_eq ∙ ap (λ x. x.lease) (sym kv);
        created_eq = a.created_eq;
        create_eq = a.create_eq ∙ ap (λ x. x.create_revision) (sym kv);
        prev_eq = a.prev_eq ∙ prev;
        deletes = a.deletes;
        creates = a.creates;
      },
      rows_eq,
      rw (kv, sym prev) alone,
    )

unfoldable pub table_laws : DialectLaws table
unfolding kv_of
table_laws = record {
  table = λ db. db;
  list-FoundRows = λ key include_deletes keys_only db {l} p.
      rows_to-FoundRows include_deletes (last? (of_key key db)) l p;
  insert-done = λ e db p. insert_row-done e db p;
  insert-failed = λ e db p.
      append_row-failed
        (has_next (kv_or_empty e.prev_kv).mod_revision (of_key (kv_or_empty e.kv).key db))
        (insertion e) db p;
}

-- Compaction does nothing here.
abbrev pub no_compaction : ℕ → SqlLog (List Row) → SqlLog (List Row) × (ℕ × Option Error)
no_compaction revision s = (s, (0, none))

abbrev pub log : Log (SqlLog (List Row))
log = sql_log table no_compaction

abbrev pub log_laws : LogLaws log
log_laws = sql_log_laws table_laws no_compaction
