-- ===== src/Nats/Store.antt =====
-- `KeyValue` of pkg/drivers/nats/kv.go over a bucket: reads by the index, and writes that wait for it.
pub mod Writes
use harikube.Common.{
  ℕ, Bytes, Bool, true, false, Option, none, some, List, [], ◌∷◌, length, ◌==◌, if◌then◌else◌, ltb,
}
use harikube.Memory.Map.{OrderedMap}
use harikube.Nats.Codec.{Base58, encode}
use harikube.Nats.Index.{
  Failure, Result, done, fails, SeqOp, KeySeq, Index, check_revision, get_revision_op, list_matches,
}
use harikube.Nats.Bucket.{Entry, Bucket, NatsData, Values}

-- The index, and the server behind it.
pub record Kv (O : OrderedMap (List SeqOp)) (N : Type 0) : Type 0 where
  pub index : Index O
  pub server : N

abbrev cons_entry : Entry → Result (List Entry) → Result (List Entry)
cons_entry e (done l) = done (e ∷ l)
cons_entry e (fails f) = fails f

-- A match is left out if its key is not found.
entry_added : Result Entry → Result (List Entry) → Result (List Entry)
entry_added (done e) rest = cons_entry e rest
entry_added (fails Failure.no_key) rest = rest
entry_added (fails f) rest = fails f

module _ {O : OrderedMap (List SeqOp)} {N : Type 0} (B : Bucket N) (K : Base58) (V : Values) where
  entry_of : ℕ → Option Bytes → Kv O N → Result Entry
  entry_of revision none s = fails Failure.invalid_key
  entry_of revision (some ek) s =
      if revision == 0 then B.get ek s.server else B.get_revision ek revision s.server

  -- `getRevision`
  unfoldable pub kv_entry : Bytes → ℕ → Kv O N → Result Entry
  unfolding entry_of
  kv_entry key revision s = entry_of revision (encode K key) s

  entry_at : Bytes → ℕ → Kv O N → Result SeqOp → Result Entry
  unfolding kv_entry
  entry_at key revision s (fails e) = fails e
  entry_at key revision s (done op) = kv_entry key (if ltb 0 revision then op.seq else revision) s

  entry_checked : Bytes → ℕ → Kv O N → Option Failure → Result Entry
  unfolding entry_at
  entry_checked key revision s (some e) = fails e
  entry_checked key revision s none =
      entry_at key revision s (get_revision_op key revision false s.index)

  -- `GetRevision`
  unfoldable pub kv_get_revision : Bytes → ℕ → Bool → Kv O N → Result Entry
  unfolding entry_checked
  kv_get_revision key revision checked s =
      entry_checked key revision s (if checked then check_revision key revision s.index else none)

  -- The end of a write; `waiting` is what happens until the index has seen it, or the wait times out.
  written : (Kv O N → Kv O N) → Kv O N → N × Result ℕ → Kv O N × Result ℕ
  written waiting s (n, done seq) = (waiting (record s { server = n }), done seq)
  written waiting s (n, fails e) = (record s { server = n }, fails e)

  create_packed : (Kv O N → Kv O N) → Bytes → Kv O N → Result Bytes → Kv O N × Result ℕ
  unfolding written
  create_packed waiting ek s (fails e) = (s, fails e)
  create_packed waiting ek s (done packed) = written waiting s (B.create ek packed s.server)

  create_encoded : (Kv O N → Kv O N) → Bytes → Kv O N → Option Bytes → Kv O N × Result ℕ
  unfolding create_packed
  create_encoded waiting value s none = (s, fails Failure.invalid_key)
  create_encoded waiting value s (some ek) = create_packed waiting ek s (V.compress value)

  -- `Create` of `KeyValue`
  unfoldable pub kv_create : (Kv O N → Kv O N) → Bytes → Bytes → Kv O N → Kv O N × Result ℕ
  unfolding create_encoded
  kv_create waiting key value s = create_encoded waiting value s (encode K key)

  update_packed : (Kv O N → Kv O N) → Bytes → ℕ → Kv O N → Result Bytes → Kv O N × Result ℕ
  unfolding written
  update_packed waiting ek last s (fails e) = (s, fails e)
  update_packed waiting ek last s (done packed) =
      written waiting s (B.update ek packed last s.server)

  update_encoded : (Kv O N → Kv O N) → Bytes → ℕ → Kv O N → Option Bytes → Kv O N × Result ℕ
  unfolding update_packed
  update_encoded waiting value last s none = (s, fails Failure.invalid_key)
  update_encoded waiting value last s (some ek) = update_packed waiting ek last s (V.compress value)

  -- `Update` of `KeyValue`
  unfoldable pub kv_update : (Kv O N → Kv O N) → Bytes → Bytes → ℕ → Kv O N → Kv O N × Result ℕ
  unfolding update_encoded
  kv_update waiting key value last s = update_encoded waiting value last s (encode K key)

  deleted_entry : (Kv O N → Kv O N) → Kv O N → N × Option Failure → Kv O N × Option Failure
  deleted_entry waiting s (n, none) = (waiting (record s { server = n }), none)
  deleted_entry waiting s (n, some e) = (record s { server = n }, some e)

  delete_encoded : (Kv O N → Kv O N) → ℕ → Kv O N → Option Bytes → Kv O N × Option Failure
  unfolding deleted_entry
  delete_encoded waiting last s none = (s, some Failure.invalid_key)
  delete_encoded waiting last s (some ek) = deleted_entry waiting s (B.delete ek last s.server)

  -- `Delete` of `KeyValue` after a revision
  unfoldable pub kv_delete : (Kv O N → Kv O N) → Bytes → ℕ → Kv O N → Kv O N × Option Failure
  unfolding delete_encoded
  kv_delete waiting key last s = delete_encoded waiting last s (encode K key)

  -- The loop of `List` over the matches
  unfoldable pub entries_of : List KeySeq → Kv O N → Result (List Entry)
  unfolding entry_added kv_entry
  entries_of [] s = done []
  entries_of (m ∷ ms) s = entry_added (kv_entry m.key m.seq s) (entries_of ms s)

  list_checked : Bytes → Bytes → ℕ → ℕ → Kv O N → Option Failure → Result (List Entry)
  unfolding entries_of list_matches
  list_checked key end limit revision s (some e) = fails e
  list_checked key end limit revision s none =
      entries_of (list_matches key end limit revision [] (O.seek s.index.bt key)) s

  -- `List` of `KeyValue`, with a key
  unfoldable pub kv_list : Bytes → Bytes → ℕ → ℕ → Kv O N → Result (List Entry)
  unfolding list_checked
  kv_list key end limit revision s =
      list_checked key end limit revision s (check_revision [] revision s.index)
