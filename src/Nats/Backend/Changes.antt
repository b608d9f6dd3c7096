-- ===== src/Nats/Backend/Changes.antt =====
-- `Update` and `Delete` of pkg/drivers/nats/backend.go.
pub mod Swaps
pub mod Tombstones
use harikube.Common.{
  ℕ, ◌+◌, ◌-◌, Bytes, codes, Bool, true, false, not, ◌&&◌, ◌++◌, Option, none, some, List, [], ◌∷◌,
  ◌==◌, if◌then◌else◌, ltb, leb,
}
use harikube.Api.{Error, KeyValue, empty_kv}
use harikube.Memory.Map.{OrderedMap}
use harikube.Nats.Codec.{Base58}
use harikube.Nats.Index.{Failure, Result, done, fails, SeqOp, kv_count}
use harikube.Nats.Bucket.{Entry, Bucket, NatsData, Values}
use harikube.Nats.Store.{Kv, kv_entry, kv_get_revision, kv_create, kv_update, kv_delete, kv_list}
use harikube.Nats.Backend.{failure, is_no_key, is_wrong_last_seq, decode_entry, get_nats, create}

abbrev pub deleted_data : ℕ → KeyValue → NatsData
deleted_data rev kv = record { kv = kv; prev_revision = rev; created = false; deleted = true }

abbrev pub updated_data : Bytes → Bytes → ℕ → ℕ → KeyValue → NatsData
updated_data key value lease rev kv = record {
  kv = record empty_kv {
    key = key;
    create_revision = if kv.create_revision == 0 then rev else kv.create_revision;
    value = value;
    lease = lease;
  };
  prev_revision = kv.mod_revision;
  created = false;
  deleted = false;
}

abbrev pub kv_of_data : Option NatsData → Option KeyValue
kv_of_data none = none
kv_of_data (some nd) = some nd.kv

module _ {O : OrderedMap (List SeqOp)} {N : Type 0} (B : Bucket N) (K : Base58) (V : Values) where
  -- What `get` gives after a lost write.
  update_lost :
      Kv O N → ℕ × Option NatsData × Option Failure → ℕ × Option KeyValue × Bool × Option Failure
  update_lost s (rev, pnd, none) = (rev, kv_of_data pnd, false, none)
  update_lost s (rev, pnd, some e) =
      if is_no_key e
      then (s.index.last_seq, none, false, none)
      else (rev, kv_of_data pnd, false, some e)

  update_result :
      Bytes → KeyValue → Kv O N × Result ℕ → Kv O N × (ℕ × Option KeyValue × Bool × Option Failure)
  unfolding update_lost
  update_result key kv (s, done seq) =
      (s, (seq, some (record kv { mod_revision = seq }), true, none))
  update_result key kv (s, fails e) = (
    s,
    if is_wrong_last_seq e
        then update_lost s (get_nats B K V key 0 false true s)
        else (s.index.last_seq, none, false, some e),
  )

  update_write :
      (Kv O N → Kv O N)
      → Bytes
      → ℕ
      → KeyValue
      → Kv O N
      → Result Bytes
      → Kv O N × (ℕ × Option KeyValue × Bool × Option Failure)
  unfolding update_result
  update_write waiting key revision kv s (fails e) = (s, (s.index.last_seq, none, false, some e))
  update_write waiting key revision kv s (done packed) =
      update_result key kv (kv_update B K V waiting key packed revision s)

  update_over :
      (Kv O N → Kv O N)
      → (Kv O N → Kv O N)
      → Bytes
      → Bytes
      → ℕ
      → ℕ
      → Kv O N
      → ℕ × Option NatsData × Option Failure
      → Kv O N × (ℕ × Option KeyValue × Bool × Option Failure)
  unfolding update_write
  update_over others waiting key value revision lease s (rev, pnd, some e) =
      (s, (s.index.last_seq, none, false, if is_no_key e then none else some e))
  update_over others waiting key value revision lease s (rev, none, none) =
      (s, (s.index.last_seq, none, false, none))
  update_over others waiting key value revision lease s (rev, some p, none) =
      let nv = updated_data key value lease rev p.kv in
      if not (p.kv.mod_revision == revision)
      then (s, (rev, some p.kv, false, none))
      else update_write waiting key revision nv.kv (others s) (V.marshal nv)

  -- `Update`
  unfoldable pub update :
      (Kv O N → Kv O N)
      → (Kv O N → Kv O N)
      → Bytes
      → Bytes
      → ℕ
      → ℕ
      → Kv O N
      → Kv O N × (ℕ × Option KeyValue × Bool × Option Failure)
  unfolding update_over
  update others waiting key value revision lease s =
      update_over others waiting key value revision lease s (get_nats B K V key 0 false true s)

  -- What is read after a tombstone could not be written.
  delete_lost :
      Kv O N → ℕ × Option NatsData × Option Failure → ℕ × Option KeyValue × Bool × Option Failure
  delete_lost s (rev, pnd, none) = (rev, kv_of_data pnd, false, none)
  delete_lost s (rev, pnd, some e) =
      if is_no_key e then (rev, none, false, none) else (rev, kv_of_data pnd, false, some e)

  -- The end of a deletion, after its marker
  delete_marked :
      ℕ
      → ℕ
      → KeyValue
      → Kv O N × Option Failure
      → Kv O N × (ℕ × Option KeyValue × Bool × Option Failure)
  delete_marked rev drev kv (s, none) = (s, (drev, some kv, true, none))
  delete_marked rev drev kv (s, some e) = (
    s,
    if is_wrong_last_seq e
        then (s.index.last_seq, none, false, none)
        else (rev, some kv, false, none),
  )

  delete_result :
      (Kv O N → Kv O N)
      → Bytes
      → ℕ
      → KeyValue
      → Kv O N × Result ℕ
      → Kv O N × (ℕ × Option KeyValue × Bool × Option Failure)
  unfolding delete_lost delete_marked
  delete_result waiting key rev kv (s, done drev) =
      delete_marked rev drev kv (kv_delete B K V waiting key drev s)
  delete_result waiting key rev kv (s, fails e) = (
    s,
    if is_wrong_last_seq e
        then delete_lost s (get_nats B K V key 0 false true s)
        else (rev, some kv, false, none),
  )

  delete_write :
      (Kv O N → Kv O N)
      → Bytes
      → ℕ
      → KeyValue
      → Kv O N
      → Result Bytes
      → Kv O N × (ℕ × Option KeyValue × Bool × Option Failure)
  unfolding delete_result
  delete_write waiting key rev kv s (fails e) = (s, (rev, none, false, some e))
  delete_write waiting key rev kv s (done packed) =
      delete_result waiting key rev kv (kv_update B K V waiting key packed rev s)

  delete_over :
      (Kv O N → Kv O N)
      → (Kv O N → Kv O N)
      → Bytes
      → ℕ
      → Kv O N
      → ℕ × Option NatsData × Option Failure
      → Kv O N × (ℕ × Option KeyValue × Bool × Option Failure)
  unfolding delete_write
  delete_over others waiting key revision s (rev, pnd, some e) =
      (s, (rev, none, false, if is_no_key e then none else some e))
  delete_over others waiting key revision s (rev, none, none) = (s, (rev, none, true, none))
  delete_over others waiting key revision s (rev, some p, none) =
      if p.deleted
      then (s, (rev, none, false, none))
      else if not (revision == 0) && not (p.kv.mod_revision == revision)
      then (s, (rev, some p.kv, false, none))
      else delete_write waiting key rev p.kv (others s) (V.marshal (deleted_data rev p.kv))

  -- `Delete`; `waiting` is met after the tombstone and after its marker.
  unfoldable pub delete :
      (Kv O N → Kv O N)
      → (Kv O N → Kv O N)
      → Bytes
      → ℕ
      → Kv O N
      → Kv O N × (ℕ × Option KeyValue × Bool × Option Failure)
  unfolding delete_over
  delete others waiting key revision s =
      delete_over others waiting key revision s (get_nats B K V key 0 false true s)
