-- ===== src/Server/Forms.antt =====
-- The transactions that Kubernetes sends: a comparison of the revision of a key, a write, and a read
-- of the key for when the comparison fails.
use harikube.Common.{ℕ, Bytes, false, [], ◌∷◌}
use harikube.Server.Requests.{
  TxnRequest, RangeRequest, put_op, range_op, delete_range_op, mod_target, equal, to_mod_revision,
}

abbrev range_of : Bytes → RangeRequest
range_of key = record {
  key = key;
  range_end = [];
  limit = 0;
  revision = 0;
  keys_only = false;
  count_only = false;
  serializable = false;
  sort_order = 0;
  sort_target = 0;
  min_mod_revision = 0;
  max_mod_revision = 0;
  min_create_revision = 0;
  max_create_revision = 0;
}

-- `If(ModRevision(key) == revision).Then(Put(key, value, lease)).Else(Get(key))`
abbrev pub guarded_put : Bytes → Bytes → ℕ → ℕ → TxnRequest
guarded_put key value revision lease = record {
  compare =
      record { key = key; target = mod_target; result = equal; union = to_mod_revision revision }
      ∷ [];
  success =
      put_op (record {
        key = key;
        value = value;
        lease = lease;
        prev_kv = false;
        ignore_value = false;
        ignore_lease = false;
      })
      ∷ [];
  failure = range_op (range_of key) ∷ [];
}

-- `If(ModRevision(key) == revision).Then(Delete(key)).Else(Get(key))`
abbrev pub guarded_delete : Bytes → ℕ → TxnRequest
guarded_delete key revision = record {
  compare =
      record { key = key; target = mod_target; result = equal; union = to_mod_revision revision }
      ∷ [];
  success = delete_range_op (record { key = key; range_end = [] }) ∷ [];
  failure = range_op (range_of key) ∷ [];
}
