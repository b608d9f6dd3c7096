-- ===== src/Server/Races.antt =====
-- The compaction transaction of the apiserver among other clients of the in-memory backend.
use harikube.Common.{
  ℕ, ◌+◌, Bytes, true, false, none, some, List, [], ◌≡◌, refl, ap, ◌∙◌, arith, ◌==◌,
}
use harikube.Memory
use harikube.Memory.{Memory}
use harikube.Memory.Entries.{Entry, to_key_value, shown, head_of}
use harikube.Memory.Map.{OrderedMap}
use harikube.Memory.Spec
use harikube.Memory.Spec.{Spec, read_revision}
use harikube.Memory.Writes.{Refines, update-Refines}
use harikube.Memory.Gets.{get-Refines}
use harikube.Server.{compact_rev_api}
use harikube.Server.Requests.{TxnResponse, ok}
use harikube.Server.Version.{encode_version, decode_version}
use harikube.Server.InMemory.{memory_backend}
use harikube.Server.Guarded.{live-alive}
use harikube.Server.Txns.{compact, compact_read, compact_written, compact_write}

-- A read of the latest revision.
get_latest :
    (s : Spec) (key : Bytes) (e : Entry)
    → Spec.current_of s key ≡ some e
    → Spec.get key 0 false s ≡ (Spec.now s, some (to_key_value e), none)
unfolding Spec.get Spec.current_of shown head_of
get_latest s key e c = let alive = live-alive _ e c in rw (c, alive) refl

abbrev pub done_at : ℕ → TxnResponse
done_at rev = record { header = rev; succeeded = true; responses = [] }

module _ {B : OrderedMap (List Entry)} {s s' : Spec} {n n' : ℕ} {m : Memory B} (R : Refines s n m)
    (others : Memory B → Memory B) (R' : Refines s' n' (others m)) where
  written-update :
      (compare : ℕ) (value : Bytes) (e : Entry) (old : ℕ × Bytes)
      → (compare == 0) ≡ false
      → compact_written memory_backend old (
          compact_write memory_backend compare e.revision
            (encode_version (compare + 1) value)
            (others m))
        ≡ (
          (Memory.update compact_rev_api
              (encode_version (compare + 1) value)
              e.revision
              0
              (others m)).0,
          ok (record {
            header =
                (Memory.update compact_rev_api
                  (encode_version (compare + 1) value)
                  e.revision
                  0
                  (others m)).1.0;
            succeeded = true;
            responses = [];
          }),
        )
  unfolding compact
  written-update compare value e old later = rw later refl

  -- The compaction transaction reads the version of its key, and if it is the compared one, updates
  -- the key at the revision that was read, after what other clients did in between. Over the
  -- in-memory backend the reply says that it succeeded whatever becomes of that update.
  pub compact-unchecked :
      (compare : ℕ) (value : Bytes) (e : Entry)
      → (compare == 0) ≡ false
      → Spec.current_of s compact_rev_api ≡ some e
      → (decode_version e.value).0 ≡ compare
      → Refines
          (Spec.update compact_rev_api (encode_version (compare + 1) value) e.revision 0 s').0
          n'
          (compact memory_backend others compare value m).0
        × ((compact memory_backend others compare value m).1
            ≡ ok (record {
              header =
                  (Spec.update compact_rev_api
                    (encode_version (compare + 1) value)
                    e.revision
                    0
                    s').1.0;
              succeeded = true;
              responses = [];
            }))
  unfolding compact to_key_value
  compact-unchecked compare value e later c v =
      let w = update-Refines R' compact_rev_api (encode_version (compare + 1) value) e.revision 0 in
      let read : Memory.get compact_rev_api 0 false m ≡ (Spec.now s, some (to_key_value e), none) =
        get-Refines R compact_rev_api 0 false ∙ get_latest s compact_rev_api e c in
      let same : (compare == compare) ≡ true = ground arith in
      let run =
        ap (compact_read memory_backend others compare value m) read
        ∙ (rw (v, same)
            (written-update compare value e (compare, (decode_version e.value).1) later)) in
      rw run (w.0, ap (λ x. ok (done_at x.0)) w.1)
