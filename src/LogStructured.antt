-- ===== src/LogStructured.antt =====
-- pkg/logstructured/logstructured.go: the methods of `LogStructured` over a `Log`.
--
-- A write reads the log, and then appends to it; its first argument is what other clients do to the
-- log in between. The deferred `adjustRevision` sees the state at the end. An event of a log has its
-- `KV`, so the code never meets a nil one: `kv_of` of an event without it is arbitrary.
pub mod Interface
pub mod Rows
pub mod Atomic
pub mod Updates
pub mod Creates
pub mod Deletes
pub mod Watching
use Interface.{Log}
use harikube.Common.{
  ℕ, ◌-◌, Bytes, Bool, true, false, not, ◌&&◌, Option, none, some, List, [], ◌∷◌, map, ltb, leb,
  ◌==◌, if◌then◌else◌, length,
}
use harikube.Api.{Error, KeyValue, Event, empty_kv, health_key, health_val}

unfoldable pub kv_of : Event → KeyValue
kv_of e = elim e.kv [ none ↦ empty_kv | some kv ↦ kv ]

abbrev pub create_event : Bytes → Bytes → ℕ → ℕ → Event
create_event key value lease prev_revision = record {
  deleted = false;
  created = true;
  kv = some (record empty_kv { key = key; value = value; lease = lease });
  prev_kv = some (record empty_kv { mod_revision = prev_revision });
}

abbrev pub delete_event : Bytes → ℕ → Event
delete_event key prev_revision = record {
  deleted = true;
  created = false;
  kv = some (record empty_kv { key = key });
  prev_kv = some (record empty_kv { mod_revision = prev_revision });
}

abbrev pub update_event : Bytes → Bytes → ℕ → KeyValue → Event
update_event key value lease kv = record {
  deleted = false;
  created = false;
  kv = some (record empty_kv {
    key = key;
    value = value;
    lease = lease;
    create_revision = kv.create_revision;
  });
  prev_kv = some (record empty_kv { mod_revision = kv.mod_revision });
}

first_of : ℕ × List Event × Option Error → ℕ × Option Event × Option Error
first_of (rev, events, some e) = (0, none, some e)
first_of (rev, [], none) = (rev, none, none)
first_of (rev, event ∷ events, none) = (rev, some event, none)

adjusted : ℕ → ℕ × Option Error → ℕ
adjusted rev (new_rev, none) = new_rev
adjusted rev (new_rev, some e) = rev

kv_response : ℕ × Option Event × Option Error → ℕ × Option KeyValue × Option Error
unfolding kv_of
kv_response (rev, none, e) = (rev, none, e)
kv_response (rev, some event, e) = (rev, some (kv_of event), e)

kvs_response : ℕ × List Event × Option Error → ℕ × List KeyValue × Option Error
unfolding kv_of
kvs_response (rev, events, e) = (rev, map kv_of events, e)

module _ {S : Type 0} (L : Log S) where
  -- `adjustRevision`
  unfoldable pub adjust_revision : ℕ → S → ℕ
  unfolding adjusted
  adjust_revision rev s = if rev == 0 then adjusted rev (L.current_revision s) else rev

  -- `get`
  unfoldable pub get_event : Bytes → ℕ → Bool → Bool → S → ℕ × Option Event × Option Error
  unfolding first_of
  get_event key revision include_deletes keys_only s =
      first_of (L.list key [] 1 revision include_deletes keys_only s)

  -- `Get`
  unfoldable pub get : Bytes → ℕ → Bool → S → ℕ × Option KeyValue × Option Error
  unfolding kv_response
  get key revision keys_only s =
      let (rev, kv, e) = kv_response (get_event key revision false keys_only s) in
      (adjust_revision rev s, kv, e)

  appended : S × (ℕ × Option Error) → S × (ℕ × Option Error)
  appended (s, (rev, e)) = (s, (adjust_revision rev s, e))

  create_over :
      (S → S) → Bytes → Bytes → ℕ → S → ℕ × Option Event × Option Error → S × (ℕ × Option Error)
  unfolding appended kv_of
  create_over others key value lease s (rev, prev, some e) = (s, (adjust_revision 0 s, some e))
  create_over others key value lease s (rev, none, none) =
      appended (L.append (create_event key value lease 0) (others s))
  create_over others key value lease s (rev, some prev, none) =
      if prev.deleted
      then appended (L.append (create_event key value lease (kv_of prev).mod_revision) (others s))
      else (s, (adjust_revision 0 s, some Error.key_exists))

  -- `Create`
  unfoldable pub create : (S → S) → Bytes → Bytes → ℕ → S → S × (ℕ × Option Error)
  unfolding create_over
  create others key value lease s =
      create_over others key value lease s (get_event key 0 true true s)

  -- What a failed deletion returns, given what is read afterwards.
  delete_lost :
      ℕ → KeyValue → S → ℕ × Option Event × Option Error → ℕ × Option KeyValue × Bool × Option Error
  unfolding kv_of
  delete_lost rev kv s (latest_rev, latest, some e) = (adjust_revision rev s, some kv, false, none)
  delete_lost rev kv s (latest_rev, none, none) = (adjust_revision rev s, some kv, false, none)
  delete_lost rev kv s (latest_rev, some latest, none) =
      (adjust_revision latest_rev s, some (kv_of latest), false, none)

  delete_appended :
      Bytes → KeyValue → S × (ℕ × Option Error) → S × (ℕ × Option KeyValue × Bool × Option Error)
  unfolding delete_lost
  delete_appended key kv (s, (rev, none)) = (s, (adjust_revision rev s, some kv, true, none))
  delete_appended key kv (s, (rev, some e)) =
      (s, delete_lost rev kv s (get_event key 0 true false s))

  delete_over :
      (S → S)
      → Bytes
      → ℕ
      → S
      → ℕ × Option Event × Option Error
      → S × (ℕ × Option KeyValue × Bool × Option Error)
  unfolding delete_appended kv_of
  delete_over others key revision s (rev, event, some e) =
      (s, (adjust_revision 0 s, none, false, some e))
  delete_over others key revision s (rev, none, none) =
      (s, (adjust_revision rev s, none, true, none))
  delete_over others key revision s (rev, some event, none) =
      if event.deleted
      then (s, (adjust_revision rev s, none, false, none))
      else if not (revision == 0) && not ((kv_of event).mod_revision == revision)
      then (s, (adjust_revision rev s, some (kv_of event), false, none))
      else delete_appended key (kv_of event)
          (L.append (delete_event key (kv_of event).mod_revision) (others s))

  -- `Delete`
  unfoldable pub delete : (S → S) → Bytes → ℕ → S → S × (ℕ × Option KeyValue × Bool × Option Error)
  unfolding delete_over
  delete others key revision s = delete_over others key revision s (get_event key 0 true false s)

  update_lost : S → ℕ × Option Event × Option Error → ℕ × Option KeyValue × Bool × Option Error
  unfolding kv_of
  update_lost s (rev, none, e) = (adjust_revision rev s, none, false, e)
  update_lost s (rev, some event, e) = (adjust_revision rev s, some (kv_of event), false, e)

  update_appended :
      Bytes → KeyValue → S × (ℕ × Option Error) → S × (ℕ × Option KeyValue × Bool × Option Error)
  unfolding update_lost
  update_appended key kv (s, (rev, none)) =
      (s, (adjust_revision rev s, some (record kv { mod_revision = rev }), true, none))
  update_appended key kv (s, (rev, some e)) = (s, update_lost s (get_event key 0 false false s))

  update_over :
      (S → S)
      → Bytes
      → Bytes
      → ℕ
      → ℕ
      → S
      → ℕ × Option Event × Option Error
      → S × (ℕ × Option KeyValue × Bool × Option Error)
  unfolding update_appended kv_of
  update_over others key value revision lease s (rev, event, some e) =
      (s, (adjust_revision 0 s, none, false, some e))
  update_over others key value revision lease s (rev, none, none) =
      (s, (adjust_revision 0 s, none, false, none))
  update_over others key value revision lease s (rev, some event, none) =
      let new_event = update_event key value lease (kv_of event) in
      if not ((kv_of event).mod_revision == revision)
      then (s, (adjust_revision rev s, some (kv_of event), false, none))
      else update_appended key (kv_of new_event) (L.append new_event (others s))

  -- `Update`
  unfoldable pub update :
      (S → S) → Bytes → Bytes → ℕ → ℕ → S → S × (ℕ × Option KeyValue × Bool × Option Error)
  unfolding update_over
  update others key value revision lease s =
      update_over others key value revision lease s (get_event key 0 false false s)

  -- `List`
  unfoldable pub list : Bytes → Bytes → ℕ → ℕ → Bool → S → ℕ × List KeyValue × Option Error
  unfolding kvs_response
  list key end limit revision keys_only s =
      kvs_response (L.list key end limit revision false keys_only s)

  -- `Count`
  unfoldable pub count : Bytes → Bytes → ℕ → S → ℕ × ℕ × Option Error
  count key end revision s = L.count key end revision s

  -- `Compact`
  unfoldable pub compact : ℕ → S → S × (ℕ × Option Error)
  compact revision s = L.compact revision s

  -- `Start`, after the start of the log; its error is only logged.
  unfoldable pub start : S → S
  start s = (create (λ x. x) health_key health_val 0 s).0
