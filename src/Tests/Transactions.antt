-- ===== src/Tests/Transactions.antt =====
-- Creations of transactions over the in-memory backend, where a transaction keeps the state that it
-- began with.
use harikube.Common.{Bytes, codes, has_prefix, none, ◌≡◌, refl, ap, subst}
use harikube.Memory.{Memory}
use harikube.Server.Requests.{Reply, ok}
use harikube.Server.InMemory.{memory_backend}
use harikube.Transaction
use harikube.Transaction.{
  object, byte_map, text, Fields, no_fields, field, TxBackend, value_at, write_all, revision_of,
  parse_revision,
}
use harikube.Transaction.Outcome.{Refused, IsJson, create-Refused}
use harikube.Tests.InMemory.{B, m2}

abbrev tx_memory : TxBackend (Memory B) (Memory B)
tx_memory = record {
  base = memory_backend;
  within = λ t. memory_backend;
  current_revision = λ m. (m.current, none);
  begin = λ m. (m, ok m);
  commit = λ t m. (m, none);
  rollback = λ t m. (t, none);
}

abbrev resource : Fields
resource =
    field (codes "metadata") (object (field (codes "resourceVersion") (text (codes "1")) no_fields))
      no_fields

abbrev tx_key : Bytes
tx_key = codes "/harikube/transaction/x"

-- A decoder of JSON
abbrev json_decode : Bytes → Reply Fields
json_decode raw = ok resource

abbrev fields_of : Reply Fields → Fields
fields_of (ok l) = l
fields_of _ = no_fields

json_decode-IsJson : (raw : Bytes) (obj : Fields) → json_decode raw ≡ ok obj → IsJson obj
unfolding IsJson
json_decode-IsJson raw obj p = subst IsJson (ap fields_of p) ((tt, tt), tt)

create-Refused_example :
    Refused m2 (Transaction.create tx_memory json_decode tx_key (codes "q") 0 m2)
unfolding has_prefix
create-Refused_example =
    create-Refused tx_memory json_decode json_decode-IsJson tx_key (codes "q") 0 m2 refl
