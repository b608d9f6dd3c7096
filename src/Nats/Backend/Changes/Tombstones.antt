-- ===== src/Nats/Backend/Changes/Tombstones.antt =====
-- A deletion in pkg/drivers/nats/backend.go writes a tombstone, and then its marker. This is the state in
-- between, which stays if the process ends there or the marker fails.
use harikube.Common.{ℕ, Bytes, Bool, true, false, none, some, List, ◌≡◌, refl}
use harikube.Api.{Error}
use harikube.Memory.Map.{OrderedMap}
use harikube.Nats.Codec.{Base58, encode}
use harikube.Nats.Index.{Failure, done, fails, SeqOp, Index, index_update, get_revision_op}
use harikube.Nats.Index.Deleted.{tombstone, get_revision_op-tombstone}
use harikube.Nats.Bucket.{Bucket, Values}
use harikube.Nats.Store.{Kv}
use harikube.Nats.Store.Writes.{kv_create-fails, kv_get_revision-no_key}
use harikube.Nats.Backend.{
  failure, created_data, get_nats, get_entry, create, create_found, create_over, create_write,
  create_result,
}
use harikube.Nats.Backend.Changes.{update, update_over, delete, delete_over}

module _ {O : OrderedMap (List SeqOp)} {N : Type 0} (B : Bucket N) (K : Base58) (V : Values) where
  get_nats-no_key :
      (key : Bytes) (allow checked : Bool) (s : Kv O N)
      → get_revision_op key 0 false s.index ≡ fails Failure.no_key
      → get_nats B K V key 0 allow checked s ≡ (s.index.last_seq, none, some Failure.no_key)
  unfolding get_nats get_entry
  get_nats-no_key key allow checked s p = rw (kv_get_revision-no_key B K V key checked s p) refl

  -- If the last operation that the index has seen on a key is a tombstone, and the bucket refuses to
  -- create the key since the tombstone is its last entry, then the key cannot be written any more, also
  -- when nothing else happens: `Create` says that the key exists, and `Update` and `Delete` that it does not.
  pub tombstone-stuck :
      (hsize seq : ℕ) (i : Index O) (n : N) (key value subject json packed : Bytes)
      (revision lease : ℕ)
      → encode K key ≡ some subject
      → V.marshal (created_data key value lease 0) ≡ done json
      → V.compress json ≡ done packed
      → B.create subject packed n ≡ (n, fails Failure.wrong_last_seq)
      → let s : Kv O N = record { index = index_update hsize key (tombstone seq) i; server = n } in
        (create B K V (λ x. x) (λ x. x) key value lease s
          ≡ (s, (s.index.last_seq, some (failure Error.key_exists))))
        × (update B K V (λ x. x) (λ x. x) key value revision lease s
            ≡ (s, (s.index.last_seq, none, false, none)))
        × (delete B K V (λ x. x) (λ x. x) key revision s
            ≡ (s, (s.index.last_seq, none, false, none)))
  unfolding create create_found create_over create_write create_result update update_over delete
      delete_over
  tombstone-stuck hsize seq i n key value subject json packed revision lease p j c r =
      let s : Kv O N = record { index = index_update hsize key (tombstone seq) i; server = n } in
      let gone = get_revision_op-tombstone hsize key seq i in
      let read = get_nats-no_key key true true s gone in
      let read' = get_nats-no_key key false true s gone in
      let refused = kv_create-fails B K V (λ x. x) key json subject packed s p c r in
      (rw (read, j, refused) refl, rw read' refl, rw read' refl)
