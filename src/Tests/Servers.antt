-- ===== src/Tests/Servers.antt =====
-- The handlers of pkg/server over the in-memory backend at concrete requests.
use harikube.Common.{
  ℕ, ◌+◌, Bytes, codes, bytes_eq, has_prefix, ltb, ◌&&◌, false, Option, none, some, List, ◌≡◌, refl,
  arith, length, inl, ◌==◌, if◌then◌else◌,
}
use harikube.Api.{Error, KeyValue}
use harikube.Memory
use harikube.Memory.{Memory}
use harikube.Memory.Entries.{Entry, created_entry, updated_entry}
use harikube.Memory.Spec
use harikube.Memory.Spec.{Spec, read_revision}
use harikube.Memory.Writes.{Refines, create-Refines, update-Refines}
use harikube.Memory.Listing.{limited}
use harikube.Memory.Shows.{IsListing}
use harikube.Server
use harikube.Server.{put_response, compact_rev_api}
use harikube.Server.Requests.{ok}
use harikube.Server.InMemory.{memory_backend}
use harikube.Server.Version.{
  decode_version, encode_version, decode_version-encode_version, cut, parse_int, parse_uint_from,
}
use harikube.Server.Txns.{txn, compact}
use harikube.Server.Ranges.{list, put}
use harikube.Server.Guarded.{spec_put, txn-guarded_put}
use harikube.Server.Forms.{guarded_put, guarded_delete}
use harikube.Server.Deletes.{deleted_reply, txn-guarded_delete}
use harikube.Server.Puts.{plain_put, put-current}
use harikube.Server.Pages.{page, list-pages}
use harikube.Server.Races.{done_at, compact-unchecked}
use harikube.Server.Registering.{create-unregistered}
use harikube.Tests.InMemory.{program, spec_program, B, a, m2, s2, m2-Refines}

-- No custom resource definition can be registered here.
abbrev no_crd : Bytes → Option Error
no_crd value = some (Error.other 1)

txn-guarded_put_example :
    Refines
      (spec_put a (codes "3") 1 0 s2).0
      0
      (txn memory_backend no_crd (guarded_put a (codes "3") 1 0) m2).0
    × ((txn memory_backend no_crd (guarded_put a (codes "3") 1 0) m2).1
        ≡ (spec_put a (codes "3") 1 0 s2).1)
unfolding has_prefix
txn-guarded_put_example = txn-guarded_put m2-Refines no_crd a (codes "3") 1 0 refl

txn-guarded_delete_example :
    Refines (Spec.delete a 1 s2).0 0 (txn memory_backend no_crd (guarded_delete a 1) m2).0
    × ((txn memory_backend no_crd (guarded_delete a 1) m2).1
        ≡ deleted_reply 1 (Spec.current_of s2 a) s2)
txn-guarded_delete_example = txn-guarded_delete m2-Refines no_crd a 1

abbrev entry_a : Entry
entry_a = created_entry 1 a (codes "1") 0 0

put-current_example :
    Refines
      (if 1 == 2 then Spec.append s2 (updated_entry 3 a (codes "3") 0 entry_a) else s2)
      0
      (put memory_backend (plain_put a (codes "3") 0) m2).0
    × ((put memory_backend (plain_put a (codes "3") 0) m2).1
        ≡ (some (if 1 == 2 then 2 + 1 else 2, none), none))
unfolding program spec_program
put-current_example = put-current m2-Refines a (codes "3") 0 entry_a refl refl

list-pages_example :
    (full : List KeyValue) × IsListing s2 a (codes "/z") 0 false full
    × ((limit : ℕ)
        → list memory_backend m2 (page a (codes "/z") limit 0 false) ≡ (
          some (record {
            header = read_revision 0 s2;
            kvs = limited limit full;
            more = ltb 0 limit && ltb limit (length full);
            count = length full;
          }),
          none,
        ))
unfolding bytes_eq
list-pages_example = list-pages m2-Refines a (codes "/z") 0 false (inl refl) refl

decode_version-encode_version_example :
    decode_version (encode_version 12 (codes "7|x")) ≡ (12, codes "7|x")
decode_version-encode_version_example = decode_version-encode_version 12 (codes "7|x") (omega arith)

-- The compact revision key at version 1, and another client that raises it to version 2.
abbrev mc : Memory B
mc = (Memory.create compact_rev_api (codes "1|x") 0 m2).0

abbrev sc : Spec
sc = (Spec.create compact_rev_api (codes "1|x") 0 s2).0

mc-Refines : Refines sc 0 mc
mc-Refines = (create-Refines m2-Refines compact_rev_api (codes "1|x") 0).0

abbrev rival : Memory B → Memory B
rival m = (Memory.update compact_rev_api (codes "2|y") 3 0 m).0

abbrev entry_c : Entry
entry_c = created_entry 3 compact_rev_api (codes "1|x") 0 0

compact-unchecked_example :
    Refines
      (Spec.update compact_rev_api
        (encode_version 2 (codes "z"))
        3
        0
        (Spec.update compact_rev_api (codes "2|y") 3 0 sc).0).0
      0
      (compact memory_backend rival 1 (codes "z") mc).0
    × ((compact memory_backend rival 1 (codes "z") mc).1
        ≡ ok (
            done_at
              (Spec.update compact_rev_api
                (encode_version 2 (codes "z"))
                3
                0
                (Spec.update compact_rev_api (codes "2|y") 3 0 sc).0).1.0))
unfolding program spec_program decode_version cut parse_int parse_uint_from
compact-unchecked_example =
    compact-unchecked mc-Refines rival
      (update-Refines mc-Refines compact_rev_api (codes "2|y") 3 0).0 1 (codes "z") entry_c refl
      refl refl

abbrev crd : Bytes
crd = codes "/registry/apiextensions.k8s.io/customresourcedefinitions/x"

create-unregistered_example :
    Refines
      (Spec.delete crd 0 (Spec.create crd (codes "?") 0 s2).0).0
      0
      (Server.create memory_backend no_crd (plain_put crd (codes "?") 0) m2).0
    × ((Server.create memory_backend no_crd (plain_put crd (codes "?") 0) m2).1
        ≡ ok (put_response (Spec.delete crd 0 (Spec.create crd (codes "?") 0 s2).0).1.0))
unfolding program spec_program has_prefix
create-unregistered_example =
    create-unregistered m2-Refines no_crd crd (codes "?") 0 (Error.other 1) refl refl refl
