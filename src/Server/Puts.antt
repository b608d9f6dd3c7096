-- ===== src/Server/Puts.antt =====
-- `Put` over the in-memory backend.
use harikube.Common.{
  ℕ, ◌+◌, Bytes, bytes_eq, false, none, some, List, ◌≡◌, refl, ap, ◌∙◌, Bool-cases, inl, inr, ◌==◌,
  if◌then◌else◌,
}
use harikube.Api.{Error}
use harikube.Memory
use harikube.Memory.{Memory}
use harikube.Memory.Entries.{Entry, to_key_value, updated_entry}
use harikube.Memory.Map.{OrderedMap}
use harikube.Memory.Spec
use harikube.Memory.Spec.{Spec}
use harikube.Memory.Writes.{Refines, create-Refines, update-Refines}
use harikube.Memory.Gets.{get-Refines}
use harikube.Server.{compact_rev_key}
use harikube.Server.Requests.{PutRequest}
use harikube.Server.InMemory.{memory_backend, no_error}
use harikube.Server.Guarded.{get_now, compacted_le}
use harikube.Server.Ranges.{put, put_created, put_found, put_updated, redirect}

abbrev pub plain_put : Bytes → Bytes → ℕ → PutRequest
plain_put key value lease = record {
  key = key;
  value = value;
  lease = lease;
  prev_kv = false;
  ignore_value = false;
  ignore_lease = false;
}

module _ {B : OrderedMap (List Entry)} {s : Spec} {n : ℕ} {m : Memory B} (R : Refines s n m) where
  put_of_created :
      (key value : Bytes) (lease : ℕ)
      → bytes_eq key compact_rev_key ≡ false
      → put memory_backend (plain_put key value lease) m
        ≡ put_created memory_backend
            (plain_put key value lease)
            key
            (Memory.create key value lease m)
  unfolding put redirect
  put_of_created key value lease own = rw own refl

  -- `Put` of a key that is there writes only if the key was the last one to be written: the update
  -- compares the revision of the key with the current revision of the store, and not with that of
  -- the key. Otherwise nothing changes, and the reply has no error and the current revision.
  pub put-current :
      (key value : Bytes) (lease : ℕ) (e : Entry)
      → bytes_eq key compact_rev_key ≡ false
      → Spec.current_of s key ≡ some e
      → Refines
          (if e.revision == Spec.now s
            then Spec.append s (updated_entry (Spec.now s + 1) key value lease e)
            else s)
          n
          (put memory_backend (plain_put key value lease) m).0
        × ((put memory_backend (plain_put key value lease) m).1
            ≡ (some (if e.revision == Spec.now s then Spec.now s + 1 else Spec.now s, none), none))
  unfolding put Spec.create Spec.update
  put-current key value lease e own c =
      let w = create-Refines R key value lease in
      let m' = (Memory.create key value lease m).0 in
      let reply : (Memory.create key value lease m).1 ≡ (Spec.now s, some Error.key_exists) =
        w.1 ∙ (rw c refl) in
      let same : Refines s n m' = rw c at w.0 in
      let answer : Memory.get key (Spec.now s) false m'
          ≡ (Spec.now s, some (to_key_value e), none) =
        get-Refines same key (Spec.now s) false ∙ get_now s key e c (compacted_le R (λ v. none)) in
      let u = update-Refines same key value (Spec.now s) lease in
      let m'' = (Memory.update key value (Spec.now s) lease m').0 in
      let run : put memory_backend (plain_put key value lease) m
          ≡ put_updated memory_backend none
              (no_error (m'', (Spec.update key value (Spec.now s) lease s).1)) =
        put_of_created key value lease own
        ∙ ap (λ y. put_created memory_backend (plain_put key value lease) key (m', y)) reply
        ∙ ap (put_found memory_backend (plain_put key value lease) key m') answer
        ∙ ap (λ y. put_updated memory_backend none (no_error (m'', y))) u.1 in
      elim (Bool-cases (e.revision == Spec.now s)) [
        | inl last ↦ rw (run, c, last) (rw (c, last) at u.0, refl)
        | inr older ↦ rw (run, c, older) (rw (c, older) at u.0, refl)
      ]
