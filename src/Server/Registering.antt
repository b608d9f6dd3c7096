-- ===== src/Server/Registering.antt =====
-- What becomes of a custom resource definition that cannot be registered, over the in-memory
-- backend.
use harikube.Common.{ℕ, ◌+◌, Bytes, has_prefix, true, Option, none, some, List, ◌≡◌, refl, ap, ◌∙◌}
use harikube.Api.{Error}
use harikube.Memory
use harikube.Memory.{Memory}
use harikube.Memory.Entries.{Entry}
use harikube.Memory.Map.{OrderedMap}
use harikube.Memory.Spec
use harikube.Memory.Spec.{Spec}
use harikube.Memory.Writes.{Refines, create-Refines, delete-Refines}
use harikube.Server
use harikube.Server.{crd_prefix, put_response, create_done, create_rollback}
use harikube.Server.Requests.{ok}
use harikube.Server.InMemory.{memory_backend}
use harikube.Server.Puts.{plain_put}

module _ {B : OrderedMap (List Entry)} {s : Spec} {n : ℕ} {m : Memory B} (R : Refines s n m)
    (register : Bytes → Option Error) where
  -- If a new custom resource definition cannot be registered, `create` deletes it again, and still
  -- replies that the put succeeded, under the revision of the deletion.
  pub create-unregistered :
      (key value : Bytes) (lease : ℕ) (e : Error)
      → has_prefix crd_prefix key ≡ true
      → Spec.current_of s key ≡ none
      → register value ≡ some e
      → Refines
          (Spec.delete key 0 (Spec.create key value lease s).0).0
          n
          (Server.create memory_backend register (plain_put key value lease) m).0
        × ((Server.create memory_backend register (plain_put key value lease) m).1
            ≡ ok (put_response (Spec.delete key 0 (Spec.create key value lease s).0).1.0))
  unfolding Server.create Spec.create
  create-unregistered key value lease e crd c fails =
      let w = create-Refines R key value lease in
      let m' = (Memory.create key value lease m).0 in
      let reply : (Memory.create key value lease m).1 ≡ (Spec.now s + 1, none) =
        w.1 ∙ (rw c refl) in
      let d = delete-Refines w.0 key 0 in
      let m'' = (Memory.delete key 0 m').0 in
      let run : Server.create memory_backend register (plain_put key value lease) m
          ≡ (m'', ok (put_response (Memory.delete key 0 m').1.0)) =
        ap (λ y. create_done memory_backend register (plain_put key value lease) (m', y)) reply
        ∙ (rw (crd, fails) refl) in
      rw run (d.0, ap (λ x. ok (put_response x.0)) d.1)
