-- ===== src/Server/Guarded.antt =====
-- The guarded writes of Kubernetes, as transactions over the in-memory backend: they compare the
-- revision of a key, write if it matches, and read the key if it does not.
use harikube.Common.{
  ℕ, ◌+◌, ◌≤◌, ltb, Bytes, has_prefix, Bool, false, not, ◌&&◌, Option, none, some, List, ◌≡◌, refl,
  ap, ◌∙◌, arith, Option-cases, Bool-cases, inl, inr, ◌==◌, if◌then◌else◌,
}
use harikube.Api.{Error, KeyValue}
use harikube.Memory
use harikube.Memory.{Memory}
use harikube.Memory.Entries.{Entry, to_key_value, created_entry, updated_entry, shown, head_of}
use harikube.Memory.Map.{OrderedMap}
use harikube.Memory.Rising.{live}
use harikube.Memory.Spec
use harikube.Memory.Spec.{Spec, predecessor, read_revision}
use harikube.Memory.Writes.{Refines, create-Refines, update-Refines}
use harikube.Memory.Gets.{get-Refines}
use harikube.Server
use harikube.Server.{
  update_created, update_found, update_updated, crd_prefix, put_response, range_response,
  delete_response,
}
use harikube.Server.Requests.{TxnResponse, Reply, ok}
use harikube.Server.InMemory.{memory_backend, no_error}
use harikube.Server.Txns.{txn}
use harikube.Server.Forms.{guarded_put}

abbrev pub kv_of : Option Entry → Option KeyValue
kv_of none = none
kv_of (some e) = some (to_key_value e)

-- Whether a key has the given revision, where 0 means that it is not there.
unfoldable pub revision_is : ℕ → Option Entry → Bool
revision_is revision none = revision == 0
revision_is revision (some e) = not (revision == 0) && e.revision == revision

abbrev written_entry : Option Entry → Bytes → Bytes → ℕ → Spec → Entry
written_entry none key value lease s =
    created_entry (Spec.now s + 1) key value lease (predecessor s key)
written_entry (some e) key value lease s = updated_entry (Spec.now s + 1) key value lease e

-- The guarded write that etcd promises: one comparison, then the write or the read.
unfoldable pub spec_put : Bytes → Bytes → ℕ → ℕ → Spec → Spec × Reply TxnResponse
spec_put key value revision lease s =
    let current = Spec.current_of s key in
    if revision_is revision current
    then (
      Spec.append s (written_entry current key value lease s),
      ok (put_response (Spec.now s + 1)),
    )
    else (s, ok (range_response (Spec.now s) (kv_of current)))

pub live-alive : (o : Option Entry) (e : Entry) → live o ≡ some e → e.deleted ≡ false
live-alive none e p = cc
live-alive (some x) e p = ground arith

-- A read of the latest revision by its number.
pub get_now :
    (s : Spec) (key : Bytes) (e : Entry)
    → Spec.current_of s key ≡ some e
    → s.compacted ≤ Spec.now s
    → Spec.get key (Spec.now s) false s ≡ (Spec.now s, some (to_key_value e), none)
unfolding Spec.get Spec.current_of shown head_of
get_now s key e c le =
    let same : read_revision (Spec.now s) s ≡ Spec.now s = ground arith in
    let not_future : (ltb 0 (Spec.now s) && ltb (Spec.now s) (Spec.now s)) ≡ false = ground arith in
    let not_old : (ltb 0 (Spec.now s) && ltb (Spec.now s) s.compacted) ≡ false = ground arith in
    let alive = live-alive _ e c in rw (not_future, not_old, same, c, alive) refl

module _ {B : OrderedMap (List Entry)} {s : Spec} {n : ℕ} {m : Memory B} (R : Refines s n m)
    (register : Bytes → Option Error) where
  pub compacted_le : s.compacted ≤ Spec.now s
  compacted_le = omega (arith, R.compact, R.represents.compact_le, R.represents.current)

  put_absent :
      (key value : Bytes) (lease : ℕ)
      → has_prefix crd_prefix key ≡ false
      → Spec.current_of s key ≡ none
      → Server.update memory_backend register 0 key value lease m
        ≡ ((Memory.create key value lease m).0, ok (put_response (Spec.now s + 1)))
  unfolding Server.update Spec.create
  put_absent key value lease plain c =
      let m' = (Memory.create key value lease m).0 in
      let reply : (Memory.create key value lease m).1 ≡ (Spec.now s + 1, none) =
        (create-Refines R key value lease).1 ∙ (rw c refl) in
      ap (λ y. update_created memory_backend register key value lease (m', y)) reply
      ∙ (rw plain refl)

  put_taken :
      (key value : Bytes) (lease : ℕ) (e : Entry)
      → Spec.current_of s key ≡ some e
      → Server.update memory_backend register 0 key value lease m ≡ (
        (Memory.create key value lease m).0,
        ok (range_response (Spec.now s) (some (to_key_value e))),
      )
  unfolding Server.update Spec.create
  put_taken key value lease e c =
      let w = create-Refines R key value lease in
      let m' = (Memory.create key value lease m).0 in
      let reply : (Memory.create key value lease m).1 ≡ (Spec.now s, some Error.key_exists) =
        w.1 ∙ (rw c refl) in
      let same : Refines s n m' = rw c at w.0 in
      let answer : Memory.get key (Spec.now s) false m'
          ≡ (Spec.now s, some (to_key_value e), none) =
        get-Refines same key (Spec.now s) false ∙ get_now s key e c compacted_le in
      ap (λ y. update_created memory_backend register key value lease (m', y)) reply
      ∙ ap (update_found memory_backend register m') answer

  put_checked :
      (key value : Bytes) (revision lease : ℕ)
      → (revision == 0) ≡ false
      → has_prefix crd_prefix key ≡ false
      → Server.update memory_backend register revision key value lease m
        ≡ ((Memory.update key value revision lease m).0, (spec_put key value revision lease s).1)
  unfolding Server.update Spec.update spec_put revision_is
  put_checked key value revision lease given plain = rw given (
      ap
        (λ y.
          update_updated memory_backend register key value lease
            (no_error ((Memory.update key value revision lease m).0, y)))
        (update-Refines R key value revision lease).1
      ∙ (elim (Option-cases (Spec.current_of s key)) [
        | inl absent ↦ rw (absent, given) refl
        | inr (e, there) ↦ elim (Bool-cases (e.revision == revision)) [
          | inl same ↦ rw (there, given, same, plain) refl
          | inr other ↦ rw (there, given, other) refl
        ]
      ]))

  txn-update :
      (key value : Bytes) (revision lease : ℕ)
      → txn memory_backend register (guarded_put key value revision lease) m
        ≡ Server.update memory_backend register revision key value lease m
  unfolding txn Server.is_create Server.is_delete Server.is_update
  txn-update key value revision lease = refl

  -- The handler with revision 0 creates, with another revision updates.
  update-spec_put :
      (key value : Bytes) (revision lease : ℕ)
      → has_prefix crd_prefix key ≡ false
      → Refines
          (spec_put key value revision lease s).0
          n
          (Server.update memory_backend register revision key value lease m).0
        × ((Server.update memory_backend register revision key value lease m).1
            ≡ (spec_put key value revision lease s).1)
  unfolding spec_put revision_is Spec.create Spec.update
  update-spec_put key value revision lease plain = elim (Bool-cases (revision == 0)) [
    | inl none_given ↦
        let is_zero : revision ≡ 0 = ground arith in
        let w = (create-Refines R key value lease).0 in
        elim (Option-cases (Spec.current_of s key)) [
          | inl absent ↦
              rw (is_zero, put_absent key value lease plain absent, absent) (rw absent at w, refl)
          | inr (e, there) ↦
              rw (is_zero, put_taken key value lease e there, there) (rw there at w, refl)
        ]
    | inr given ↦
        let w = (update-Refines R key value revision lease).0 in
        elim (Option-cases (Spec.current_of s key)) [
          | inl absent ↦
              rw (put_checked key value revision lease given plain, absent, given)
                (rw absent at w, refl)
          | inr (e, there) ↦ elim (Bool-cases (e.revision == revision)) [
            | inl same ↦
                rw (put_checked key value revision lease given plain, there, given, same)
                  (rw (there, same) at w, refl)
            | inr other ↦
                rw (put_checked key value revision lease given plain, there, given, other)
                  (rw (there, other) at w, refl)
          ]
        ]
  ]

  -- A guarded put of Kubernetes through `Txn`, over the in-memory backend, is the atomic
  -- compare-and-swap of etcd. The value is written under the next revision exactly when the key has
  -- the compared revision, where 0 means that it is not there; otherwise nothing changes and the
  -- reply holds the current pair. Keys of custom resource definitions are left out.
  pub txn-guarded_put :
      (key value : Bytes) (revision lease : ℕ)
      → has_prefix crd_prefix key ≡ false
      → Refines
          (spec_put key value revision lease s).0
          n
          (txn memory_backend register (guarded_put key value revision lease) m).0
        × ((txn memory_backend register (guarded_put key value revision lease) m).1
            ≡ (spec_put key value revision lease s).1)
  txn-guarded_put key value revision lease plain =
      rw (txn-update key value revision lease) (update-spec_put key value revision lease plain)
