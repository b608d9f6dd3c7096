-- ===== src/SqlLog/AsLog.antt =====
-- The SQL log as the log of `LogStructured`, over what a database promises of the newest row of a key
-- and of an insertion.
use harikube.Common.{
  ℕ, Bytes, Bool, true, false, not, ◌||◌, Option, none, some, List, [], ◌∷◌, ◌++◌, ◌≡◌, refl, sym,
  ap, ◌∙◌, arith, length, last?, ltb, ◌==◌, Bool-cases, inl, inr, subst,
}
use harikube.Api.{Error, Event}
use harikube.LogStructured.{kv_of}
use harikube.LogStructured.Interface.{Log}
use harikube.LogStructured.Rows.{
  Row, of_key, has_next, prev_of, Appends, Found, absent, hidden, shown, LogLaws,
}
use harikube.SqlLog
use harikube.SqlLog.{
  SqlLog, notify_of, notify_capacity, list_rows, list_events, list_result, list_found, revisions_of,
  with_current, with_compact, kv_or_empty, append_inserted,
}
use harikube.SqlLog.Database.{Dialect, SqlRow, Scanned, row, bad_row, Query, rows, query_failed}
use harikube.SqlLog.Rows.{Events, rows_to_events, rows_to_events_from, scan, or_zero}

-- A row of the table, read from the database.
pub record Reads (r : Row) (c : SqlRow) : Type 0 where
  pub id_eq : c.id ≡ r.revision
  pub deleted_eq : c.deleted ≡ r.deleted
  pub created_eq : c.created ≡ r.created
  pub create_eq : c.create_revision ≡ r.create_revision

-- What the query for the newest row of a key gives.
pub data FoundRows (include_deletes : Bool) : Option Row → List Scanned → Type 0 where
  unreadable : {o : Option Row} {e : Error} → FoundRows include_deletes o (bad_row e ∷ [])
  no_row : FoundRows include_deletes none []
  hidden_row :
      {r : Row} → r.deleted ≡ true → include_deletes ≡ false → FoundRows include_deletes (some r) []
  shown_row :
      {r : Row} {c : SqlRow}
      → Reads r c
      → (not r.deleted || include_deletes) ≡ true
      → FoundRows include_deletes (some r) (row c ∷ [])

-- What the drivers promise: the newest row of a key is found, and an insertion adds its row at the end,
-- unless it fails, as it does if a row of the key names the same revision before (the unique index over
-- name and prev_revision). The rows of a garbage collection may follow.
pub record DialectLaws {D : Type 0} (d : Dialect D) : Type 0 where
  pub table : D → List Row
  pub list-FoundRows :
      (key : Bytes) (include_deletes keys_only : Bool) (db : D) {l : List Scanned}
      → d.list_current (d.translate_start_key key) [] 1 include_deletes keys_only db ≡ rows l
      → FoundRows include_deletes (last? (of_key key (table db))) l
  pub insert-done :
      (e : Event) (db : D) {db' : D} {rev : ℕ}
      → let kv = kv_or_empty e.kv in
        let prev = kv_or_empty e.prev_kv in
        d.insert kv.key e.created e.deleted kv.create_revision prev.mod_revision kv.lease kv.value
            prev.value db
          ≡ (db', (rev, none))
        → (new : Row) × (more : List Row) × Appends rev e new
          × (table db' ≡ table db ++ new ∷ more)
          × (has_next (prev_of e.prev_kv) (of_key (kv_of e).key (table db)) ≡ false)
  pub insert-failed :
      (e : Event) (db : D) {db' : D} {rev : ℕ} {err : Error}
      → let kv = kv_or_empty e.kv in
        let prev = kv_or_empty e.prev_kv in
        d.insert kv.key e.created e.deleted kv.create_revision prev.mod_revision kv.lease kv.value
            prev.value db
          ≡ (db', (rev, some err))
        → table db' ≡ table db

module _ {D : Type 0} (d : Dialect D)
    (compacting : ℕ → SqlLog D → SqlLog D × (ℕ × Option Error)) where
  -- The methods of `SQLLog` as a `Log`. What a read leaves in `notify` and `currentRev` is left out.
  abbrev pub sql_log : Log (SqlLog D)
  sql_log = record {
    compact_revision = SqlLog.compact_revision d;
    current_revision = λ s. (SqlLog.current_revision d s).1;
    list = λ key end limit revision include_deleted keys_only s.
        (SqlLog.list d key end limit revision include_deleted keys_only s).1;
    count = SqlLog.count d;
    after = λ key end revision limit s. (SqlLog.after d key end revision limit s).1;
    append = SqlLog.append d (λ x. x);
    compact = compacting;
  }

module _ {D : Type 0} (d : Dialect D) where
  notify_of-db : (rev : ℕ) (s : SqlLog D) → (notify_of d rev s).db ≡ s.db
  unfolding notify_of
  notify_of-db rev s = elim (Bool-cases (ltb (length s.notify) notify_capacity)) [
    | inl room ↦ simp room refl
    | inr full ↦ simp full refl
  ]

  -- A list of events that is empty stays so.
  list_found-nil :
      (r : Events) (o : Option Error) (s : SqlLog D) {rev : ℕ} {events : List Event}
      → r.events ≡ []
      → (list_found d 0 r o s).1 ≡ (rev, events, none)
      → events ≡ []
  unfolding list_found
  list_found-nil r (some e) s p q = absurd (cc q)
  list_found-nil r none s p q =
      let current : ltb r.rev 0 ≡ false = ground arith in
      sym (ap (λ x. x.1) (simp current at q)) ∙ p

  with_current-nil :
      (x : SqlLog D × (ℕ × Option Error)) {rev : ℕ} {events : List Event}
      → (list_result d 0 (with_current d [] x)).1 ≡ (rev, events, none)
      → events ≡ []
  unfolding with_current with_compact list_result
  with_current-nil (s, (rev, some e)) q =
      list_found-nil (record { rev = 0; compact = 0; events = []; error = some e }) (some e) s refl
        q
  with_current-nil (s, (rev, none)) q = over (d.get_compact_revision s.db) q
    where
      over :
          (y : ℕ × Option Error) {rev' : ℕ} {events : List Event}
          → (list_result d 0 (with_compact d (s, rev) [] y)).1 ≡ (rev', events, none)
          → events ≡ []
      over (compact, none) p =
          list_found-nil (record { rev = rev; compact = compact; events = []; error = none }) none s
            refl p
      over (compact, some e) p =
          list_found-nil (record { rev = 0; compact = 0; events = []; error = some e }) (some e) s
            refl p

  found :
      (include_deletes keys_only : Bool) (o : Option Row) (s : SqlLog D) (l : List Scanned)
      {rev : ℕ} {events : List Event}
      → FoundRows include_deletes o l
      → (list_rows d 0 keys_only (rows l) s).1 ≡ (rev, events, none)
      → Found include_deletes keys_only o events
  unfolding list_rows list_events revisions_of list_result list_found rows_to_events
      rows_to_events_from scan kv_of
  found include_deletes keys_only o s l unreadable q = absurd (cc q)
  found include_deletes keys_only o s l no_row q =
      subst (Found include_deletes keys_only none) (sym (with_current-nil _ q)) absent
  found include_deletes keys_only o s l (hidden_row {r} g h) q =
      subst (Found include_deletes keys_only (some r)) (sym (with_current-nil _ q)) (hidden g h)
  found include_deletes keys_only o s l (shown_row {r} {c} g h) q =
      let current : ltb (or_zero c.current_rev) 0 ≡ false = ground arith in
      subst (Found include_deletes keys_only (some r)) (ap (λ x. x.1) (simp current at q))
        (shown (g.deleted_eq, g.id_eq, (rw (g.created_eq, g.id_eq, g.create_eq) refl)) h)

  inserted-db :
      (s : SqlLog D) (db : D) (rev : ℕ)
      → (append_inserted d (λ x. x) s.current_rev s (db, (rev, none))).0.db ≡ db
  unfolding append_inserted
  inserted-db s db rev =
      let s' = notify_of d rev (record s { db = db }) in
      elim (Bool-cases (s'.current_rev == s.current_rev)) [
        | inl same ↦ simp same (notify_of-db rev (record s { db = db }))
        | inr other ↦ simp other (notify_of-db rev (record s { db = db }))
      ]

module _ {D : Type 0} {d : Dialect D} (laws : DialectLaws d)
    (compacting : ℕ → SqlLog D → SqlLog D × (ℕ × Option Error)) where
  pub listed :
      (key : Bytes) (include_deletes keys_only : Bool) (s : SqlLog D) {rev : ℕ}
      {events : List Event} (q : Query)
      → d.list_current (d.translate_start_key key) [] 1 include_deletes keys_only s.db ≡ q
      → (list_rows d 0 keys_only q s).1 ≡ (rev, events, none)
      → Found include_deletes keys_only (last? (of_key key (laws.table s.db))) events
  unfolding list_rows
  listed key include_deletes keys_only s (query_failed e) p q = absurd (cc q)
  listed key include_deletes keys_only s (rows l) p q =
      found d include_deletes keys_only _ s l
        (laws.list-FoundRows key include_deletes keys_only s.db p) q

  abbrev pub Inserts : Event → SqlLog D → SqlLog D → ℕ → Type 0
  Inserts e s s' rev =
      (new : Row) × (more : List Row) × Appends rev e new
      × (laws.table s'.db ≡ laws.table s.db ++ new ∷ more)
      × (has_next (prev_of e.prev_kv) (of_key (kv_of e).key (laws.table s.db)) ≡ false)

  pub appended-Inserts :
      (e : Event) (s : SqlLog D) {s' : SqlLog D} {rev : ℕ} (x : D × (ℕ × Option Error))
      → let kv = kv_or_empty e.kv in
        let prev = kv_or_empty e.prev_kv in
        d.insert kv.key e.created e.deleted kv.create_revision prev.mod_revision kv.lease kv.value
            prev.value s.db
          ≡ x
        → append_inserted d (λ x. x) s.current_rev s x ≡ (s', (rev, none))
        → Inserts e s s' rev
  unfolding append_inserted
  appended-Inserts e s (db, (r, some err)) p q = absurd (cc q)
  appended-Inserts e s {s'} {rev} (db, (r, none)) p q =
      let (new, more, a, rows_eq, alone) = laws.insert-done e s.db p in
      let db_eq : s'.db ≡ db = sym (ap (λ y. y.0.db) q) ∙ inserted-db d s db r in
      let rev_eq : r ≡ rev = ap (λ y. y.1.0) q in
      (new, more, subst (λ n. Appends n e new) rev_eq a, rw db_eq rows_eq, alone)

  pub appended-fails :
      (e : Event) (s : SqlLog D) {s' : SqlLog D} {rev : ℕ} {err : Error}
      (x : D × (ℕ × Option Error))
      → let kv = kv_or_empty e.kv in
        let prev = kv_or_empty e.prev_kv in
        d.insert kv.key e.created e.deleted kv.create_revision prev.mod_revision kv.lease kv.value
            prev.value s.db
          ≡ x
        → append_inserted d (λ x. x) s.current_rev s x ≡ (s', (rev, some err))
        → laws.table s'.db ≡ laws.table s.db
  unfolding append_inserted
  appended-fails e s (db, (r, some err)) p q =
      ap (λ y. laws.table y.0.db) (sym q) ∙ laws.insert-failed e s.db p
  appended-fails e s (db, (r, none)) p q = absurd (cc q)

  -- The SQL log meets what `LogStructured` relies on.
  unfoldable pub sql_log_laws : LogLaws (sql_log d compacting)
  unfolding SqlLog.list SqlLog.append
  sql_log_laws = record {
    rows = λ s. laws.table s.db;
    list-Found =
        λ key include_deletes keys_only s p. listed key include_deletes keys_only s _ refl p;
    append-done = λ e s p. appended-Inserts e s _ refl p;
    append-failed = λ e s p. appended-fails e s _ refl p;
  }
