-- ===== src/Nats/Backend.antt =====
-- The methods of pkg/drivers/nats/backend.go. The first argument of a write is what other clients and
-- the watcher of the index do between its read and its write, the second what they do while it waits for
-- the index. The watcher of expiries, to which a write with a lease is told, is left out.
pub mod Changes
pub mod Reads
pub mod Compacting
use harikube.Common.{
  ℕ, ◌+◌, ◌-◌, Bytes, Bool, true, false, not, ◌&&◌, Option, none, some, List, [], ◌∷◌, ◌==◌,
  if◌then◌else◌, ltb,
}
use harikube.Api.{Error, KeyValue, empty_kv, health_key, health_val}
use harikube.Memory.Map.{OrderedMap}
use harikube.Nats.Codec.{Base58}
use harikube.Nats.Index.{Failure, Result, done, fails, SeqOp, kv_count}
use harikube.Nats.Bucket.{Entry, Bucket, NatsData, Values}
use harikube.Nats.Store.{Kv, kv_get_revision, kv_create, kv_update, kv_delete, kv_list}

abbrev pub failure : Error → Failure
failure e = Failure.server_error e

abbrev pub is_no_key : Failure → Bool
is_no_key Failure.no_key = true
is_no_key _ = false

abbrev pub is_wrong_last_seq : Failure → Bool
is_wrong_last_seq Failure.wrong_last_seq = true
is_wrong_last_seq _ = false

decoded_entry : ℕ → Result NatsData → Result NatsData
decoded_entry revision (fails e) = fails e
decoded_entry revision (done nd) = done (record nd {
  kv = record nd.kv {
    mod_revision = revision;
    create_revision = if nd.kv.create_revision == 0 then revision else nd.kv.create_revision;
  };
})

abbrev pub created_data : Bytes → Bytes → ℕ → ℕ → NatsData
created_data key value lease prev_revision = record {
  kv = record empty_kv { key = key; value = value; lease = lease };
  prev_revision = prev_revision;
  created = true;
  deleted = false;
}

-- `Decode` of `natsData`
unfoldable pub decode_entry : Values → Entry → Result NatsData
unfolding decoded_entry
decode_entry V e = decoded_entry e.revision (V.unmarshal (V.decompress e.value))

module _ {O : OrderedMap (List SeqOp)} {N : Type 0} (B : Bucket N) (K : Base58) (V : Values) where
  get_data : ℕ → Bool → Kv O N → Result NatsData → ℕ × Option NatsData × Option Failure
  get_data rev allow_deletes s (fails e) = (s.index.last_seq, none, some e)
  get_data rev allow_deletes s (done nd) =
      if nd.deleted && not allow_deletes
      then (s.index.last_seq, none, none)
      else if nd.created
      then (
        rev,
        some (record nd { kv = record nd.kv { create_revision = rev; mod_revision = rev } }),
        none,
      )
      else (rev, some nd, none)

  get_entry : Bool → Kv O N → Result Entry → ℕ × Option NatsData × Option Failure
  unfolding get_data decode_entry
  get_entry allow_deletes s (fails e) = (s.index.last_seq, none, some e)
  get_entry allow_deletes s (done e) = get_data e.revision allow_deletes s (decode_entry V e)

  -- `get`
  unfoldable pub get_nats : Bytes → ℕ → Bool → Bool → Kv O N → ℕ × Option NatsData × Option Failure
  unfolding get_entry
  get_nats key revision allow_deletes checked s =
      get_entry allow_deletes s (kv_get_revision B K V key revision checked s)

  create_result : Kv O N × Result ℕ → Kv O N × (ℕ × Option Failure)
  create_result (s, done seq) = (s, (seq, none))
  create_result (s, fails e) =
      (s, (s.index.last_seq, some (if is_wrong_last_seq e then failure Error.key_exists else e)))

  create_write :
      (Kv O N → Kv O N)
      → Bytes
      → ℕ
      → Option NatsData
      → Kv O N
      → Result Bytes
      → Kv O N × (ℕ × Option Failure)
  unfolding create_result
  create_write waiting key rev pnd s (fails e) = (s, (s.index.last_seq, some e))
  create_write waiting key rev none s (done packed) =
      create_result (kv_create B K V waiting key packed s)
  create_write waiting key rev (some p) s (done packed) =
      create_result (kv_update B K V waiting key packed rev s)

  create_over :
      (Kv O N → Kv O N)
      → (Kv O N → Kv O N)
      → Bytes
      → Bytes
      → ℕ
      → ℕ
      → Option NatsData
      → Kv O N
      → Kv O N × (ℕ × Option Failure)
  unfolding create_write
  create_over others waiting key value lease rev none s =
      create_write waiting key rev none (others s) (V.marshal (created_data key value lease 0))
  create_over others waiting key value lease rev (some p) s =
      if not p.deleted
      then (s, (rev, some (failure Error.key_exists)))
      else create_write waiting key rev (some p) (others s)
          (V.marshal (created_data key value lease p.kv.mod_revision))

  create_found :
      (Kv O N → Kv O N)
      → (Kv O N → Kv O N)
      → Bytes
      → Bytes
      → ℕ
      → Kv O N
      → ℕ × Option NatsData × Option Failure
      → Kv O N × (ℕ × Option Failure)
  unfolding create_over
  create_found others waiting key value lease s (rev, pnd, none) =
      create_over others waiting key value lease rev pnd s
  create_found others waiting key value lease s (rev, pnd, some e) =
      if is_no_key e
      then create_over others waiting key value lease rev pnd s
      else (s, (s.index.last_seq, some e))

  -- `Create`
  unfoldable pub create :
      (Kv O N → Kv O N)
      → (Kv O N → Kv O N)
      → Bytes
      → Bytes
      → ℕ
      → Kv O N
      → Kv O N × (ℕ × Option Failure)
  unfolding create_found
  create others waiting key value lease s =
      create_found others waiting key value lease s (get_nats key 0 true true s)
