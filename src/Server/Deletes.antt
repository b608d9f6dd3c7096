-- ===== src/Server/Deletes.antt =====
-- The guarded deletion of Kubernetes, as a transaction over the in-memory backend.
use harikube.Common.{
  ℕ, ◌+◌, Bytes, ◌||◌, Option, none, some, List, ◌≡◌, refl, ap, ◌∙◌, Option-cases, Bool-cases, inl,
  inr, ◌==◌, if◌then◌else◌,
}
use harikube.Api.{Error}
use harikube.Memory
use harikube.Memory.{Memory}
use harikube.Memory.Entries.{Entry, to_key_value}
use harikube.Memory.Map.{OrderedMap}
use harikube.Memory.Spec
use harikube.Memory.Spec.{Spec}
use harikube.Memory.Writes.{Refines, delete-Refines}
use harikube.Server
use harikube.Server.{delete_done, range_response, delete_response}
use harikube.Server.Requests.{TxnResponse, Reply, ok}
use harikube.Server.InMemory.{memory_backend, no_error}
use harikube.Server.Txns.{txn}
use harikube.Server.Forms.{guarded_delete}

-- The reply of a deletion that compares the revision of the key, where 0 compares with nothing.
unfoldable pub deleted_reply : ℕ → Option Entry → Spec → Reply TxnResponse
deleted_reply revision none s = ok (range_response (Spec.now s) none)
deleted_reply revision (some e) s =
    if revision == 0 || e.revision == revision
    then ok (delete_response (Spec.now s + 1) (some (to_key_value e)))
    else ok (range_response (Spec.now s) (some (to_key_value e)))

module _ {B : OrderedMap (List Entry)} {s : Spec} {n : ℕ} {m : Memory B} (R : Refines s n m)
    (register : Bytes → Option Error) where
  txn-delete :
      (key : Bytes) (revision : ℕ)
      → txn memory_backend register (guarded_delete key revision) m
        ≡ delete_done memory_backend register (no_error (Memory.delete key revision m))
  unfolding txn Server.is_create Server.is_delete Server.delete
  txn-delete key revision = refl

  reply-deleted :
      (key : Bytes) (revision : ℕ)
      → delete_done memory_backend register
          (no_error ((Memory.delete key revision m).0, (Spec.delete key revision s).1))
        ≡ ((Memory.delete key revision m).0, deleted_reply revision (Spec.current_of s key) s)
  unfolding deleted_reply Spec.delete Server.delete
  reply-deleted key revision = elim (Option-cases (Spec.current_of s key)) [
    | inl absent ↦ rw absent refl
    | inr (e, there) ↦ elim (Bool-cases (revision == 0 || e.revision == revision)) [
      | inl same ↦ rw (there, same) refl
      | inr other ↦ rw (there, other) refl
    ]
  ]

  -- A guarded deletion through `Txn`, over the in-memory backend, writes a tombstone and returns the
  -- deleted pair exactly when the key is there, and the compared revision is 0 or that of the key;
  -- otherwise nothing changes and the reply holds the current pair, if there is one.
  pub txn-guarded_delete :
      (key : Bytes) (revision : ℕ)
      → Refines
          (Spec.delete key revision s).0
          n
          (txn memory_backend register (guarded_delete key revision) m).0
        × ((txn memory_backend register (guarded_delete key revision) m).1
            ≡ deleted_reply revision (Spec.current_of s key) s)
  txn-guarded_delete key revision =
      let w = delete-Refines R key revision in
      let m' = (Memory.delete key revision m).0 in
      let done =
        ap (λ y. delete_done memory_backend register (no_error (m', y))) w.1
        ∙ reply-deleted key revision in
      rw (txn-delete key revision, done) (w.0, refl)
