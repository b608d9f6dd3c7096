-- ===== src/Tests/Logs.antt =====
-- Writes of `LogStructured` over the SQL log, among other clients.
use harikube.Common.{
  ℕ, Bytes, codes, bytes_eq, bytes_eq_iff, Bool, true, false, none, List, [], ◌∷◌, ◌++◌, ◌≡◌, ◌⊎◌,
  refl, sym, arith, last?, keep, ltb, if◌then◌else◌, Bool-cases, inl, inr,
}
use harikube.Api.{Event}
use harikube.SqlLog
use harikube.SqlLog.{SqlLog, kv_or_empty}
use harikube.SqlLog.Rows.{rows_to_events, scan}
use harikube.SqlLog.AsLog.{sql_log_laws}
use harikube.LogStructured
use harikube.LogStructured.{kv_of}
use harikube.LogStructured.Rows.{Row, Linked, has_next}
use harikube.LogStructured.Atomic.{Grown}
use harikube.LogStructured.Creates.{CreateOutcome, create-CreateOutcome}
use harikube.LogStructured.Watching.{watch, concat, covered, revision_of, watch-concat}
use harikube.LogStructured.Deletes.{DeleteOutcome, delete-DeleteOutcome}
use harikube.Tests.Tables.{row_to, table_laws, log, log_laws}

abbrev created_row : ℕ → Bytes → Row
created_row revision key = record {
  revision = revision;
  key = key;
  value = codes "1";
  created = true;
  deleted = false;
  create_revision = 0;
  prev_revision = 0;
  lease = 0;
}

-- After a compaction: the row of the key before this one is gone.
abbrev compacted_row : Row
compacted_row = record (created_row 3 (codes "a")) {
  created = false;
  create_revision = 1;
  prev_revision = 1;
}

abbrev before : SqlLog (List Row)
before = record { db = compacted_row ∷ []; current_rev = 3; notify = [] }

-- Another client creates a key in between.
abbrev others : SqlLog (List Row) → SqlLog (List Row)
others s = record s { db = s.db ++ created_row 4 (codes "b") ∷ [] }

abbrev base_of : Bool → ℕ
base_of x = if x then 1 else 0

two_keys-Linked :
    (x y : Bool)
    → (x ≡ false) ⊎ (y ≡ false)
    → Linked (base_of x) (
        let rest = if y then created_row 4 (codes "b") ∷ [] else [] in
        if x then compacted_row ∷ rest else rest)
two_keys-Linked true true h = elim h [ inl p ↦ absurd (cc p) | inr p ↦ absurd (cc p) ]
two_keys-Linked true false h = (refl, tt)
two_keys-Linked false true h = (refl, tt)
two_keys-Linked false false h = tt

first-base : (x : Bool) → (if x then compacted_row ∷ [] else []) ≡ [] → base_of x ≡ 0
first-base true p = absurd (cc p)
first-base false p = refl

one_key : (key : Bytes) → (bytes_eq (codes "a") key ≡ false) ⊎ (bytes_eq (codes "b") key ≡ false)
one_key key = elim (Bool-cases (bytes_eq (codes "a") key)) [
  | inl a ↦ inr (rw (sym ((bytes_eq_iff (codes "a") key).0 a)) (unfold bytes_eq in refl))
  | inr other ↦ inl other
]

others-Grown : Grown log_laws before (others before)
unfolding keep sql_log_laws table_laws
others-Grown = record {
  extra = created_row 4 (codes "b") ∷ [];
  grown = refl;
  linked =
      λ key. two_keys-Linked (bytes_eq (codes "a") key) (bytes_eq (codes "b") key) (one_key key);
  base = λ key. base_of (bytes_eq (codes "a") key);
  fresh = λ key p. first-base (bytes_eq (codes "a") key) p;
}

create-CreateOutcome_example :
    CreateOutcome log_laws
      (codes "c")
      (codes "2")
      0
      before
      (others before)
      (LogStructured.create log others (codes "c") (codes "2") 0 before)
create-CreateOutcome_example =
    create-CreateOutcome {laws = log_laws} others others-Grown (codes "c") (codes "2") 0

delete-DeleteOutcome_example :
    DeleteOutcome log_laws
      (codes "a")
      3
      before
      (others before)
      (LogStructured.delete log others (codes "a") 3 before)
delete-DeleteOutcome_example =
    delete-DeleteOutcome {laws = log_laws} others others-Grown (codes "a") 3

-- The writes above are done.
update_run : (LogStructured.update log others (codes "a") (codes "2") 3 0 before).1.2 ≡ true
unfolding LogStructured.update LogStructured.get_event keep bytes_eq has_next last? SqlLog.list
    SqlLog.append SqlLog.current_revision rows_to_events
update_run = refl

create_run : (LogStructured.create log others (codes "c") (codes "2") 0 before).1 ≡ (3, none)
unfolding LogStructured.create LogStructured.get_event LogStructured.adjust_revision keep bytes_eq
    has_next last? SqlLog.list SqlLog.append
create_run = refl

abbrev event_at : ℕ → Event
event_at revision = scan true true (row_to (created_row revision (codes "a")))

abbrev watch_batches : List (List Event)
watch_batches = (event_at 1 ∷ event_at 2 ∷ []) ∷ (event_at 3 ∷ []) ∷ []

watch-concat_example :
    concat (watch log [] [] 2 watch_batches before).1
    ≡ [] ++ keep (λ e. ltb (covered 2 3 []) (revision_of e)) (concat watch_batches)
unfolding kv_of SqlLog.after SqlLog.current_revision rows_to_events
    harikube.LogStructured.Watching.first_revision
watch-concat_example =
    watch-concat log [] [] 2 3 [] watch_batches before refl
      (((omega arith, (omega arith, tt)), ((omega arith, tt), tt)))
