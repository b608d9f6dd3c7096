-- ===== src/Server.antt =====
-- pkg/server: the handlers of `LimitedServer` and `KVServerBridge` over a `Backend`. A handler that
-- makes several calls of the backend makes them one after the other here, but for `compact`, whose
-- first argument is what other clients do between its read and its write.
pub mod Requests
pub mod Version
pub mod Ranges
pub mod Txns
pub mod InMemory
pub mod Forms
pub mod Guarded
pub mod Deletes
pub mod Puts
pub mod Pages
pub mod Races
pub mod Registering
pub mod Streams
pub mod Watches
use harikube.Common.{
  ℕ, ◌+◌, ◌-◌, Bytes, codes, bytes_eq, has_prefix, Bool, true, false, not, ◌&&◌, Option, none, some,
  List, [], ◌∷◌, map, length, take, ltb, ◌==◌, if◌then◌else◌,
}
use harikube.Api.{Error, KeyValue, Backend}
use Requests.{
  Compare, PutRequest, RangeRequest, DeleteRangeRequest, RequestOp, range_op, put_op,
  delete_range_op, txn_op, TxnRequest, RangeResponse, ResponseOp, put_done, range_done,
  delete_range_done, TxnResponse, Reply, ok, failed, panicked, mod_revision_of, version_of, is_mod,
  is_version, is_equal,
}
use Version.{encode_version, decode_version}

abbrev pub compact_rev_key : Bytes
compact_rev_key = codes "compact_rev_key"

abbrev pub compact_rev_api : Bytes
compact_rev_api = codes "compact_rev_key_apiserver"

abbrev pub crd_prefix : Bytes
crd_prefix = codes "/registry/apiextensions.k8s.io/customresourcedefinitions/"

-- `toKV` of a pair
unfoldable pub to_kv : KeyValue → KeyValue
to_kv kv =
    let (version, value) = decode_version kv.value in
    if bytes_eq kv.key compact_rev_api
    then record kv { key = compact_rev_key; version = version; value = value }
    else kv

-- `toKVs` of one pair that may be nil
unfoldable pub to_kvs : Option KeyValue → List KeyValue
to_kvs none = []
to_kvs (some kv) = to_kv kv ∷ []

-- `ErrKeyExists` is told by `==`, so a joined error is another one.
abbrev pub is_key_exists : Error → Bool
is_key_exists Error.key_exists = true
is_key_exists _ = false

create_form : List Compare → List RequestOp → List RequestOp → Option PutRequest
create_form (c ∷ []) (put_op put ∷ []) [] =
    if is_mod c.target && is_equal c.result && mod_revision_of c.union == 0 then some put else none
create_form _ _ _ = none

-- `isCreate`
unfoldable pub is_create : TxnRequest → Option PutRequest
unfolding create_form
is_create txn = create_form txn.compare txn.success txn.failure

delete_form : List Compare → List RequestOp → List RequestOp → Option (ℕ × Bytes)
delete_form [] (range_op r ∷ delete_range_op d ∷ []) [] = some (0, d.key)
delete_form (c ∷ []) (delete_range_op d ∷ []) (range_op r ∷ []) =
    if is_mod c.target && is_equal c.result then some (mod_revision_of c.union, d.key) else none
delete_form _ _ _ = none

-- `isDelete`
unfoldable pub is_delete : TxnRequest → Option (ℕ × Bytes)
unfolding delete_form
is_delete txn = delete_form txn.compare txn.success txn.failure

update_form : List Compare → List RequestOp → List RequestOp → Option (ℕ × Bytes × Bytes × ℕ)
update_form (c ∷ []) (put_op put ∷ []) (range_op r ∷ []) =
    if is_mod c.target && is_equal c.result
    then some (mod_revision_of c.union, c.key, put.value, put.lease)
    else none
update_form _ _ _ = none

-- `isUpdate`
unfoldable pub is_update : TxnRequest → Option (ℕ × Bytes × Bytes × ℕ)
unfolding update_form
is_update txn = update_form txn.compare txn.success txn.failure

compact_form : List Compare → List RequestOp → List RequestOp → Option (ℕ × Bytes)
compact_form (c ∷ []) (put_op put ∷ []) (range_op r ∷ []) =
    if is_version c.target && is_equal c.result && bytes_eq c.key compact_rev_key
    then some (version_of c.union, put.value)
    else none
compact_form _ _ _ = none

-- `isCompact`
unfoldable pub is_compact : TxnRequest → Option (ℕ × Bytes)
unfolding compact_form
is_compact txn = compact_form txn.compare txn.success txn.failure

abbrev pub put_response : ℕ → TxnResponse
put_response rev = record { header = rev; succeeded = true; responses = put_done rev ∷ [] }

-- The response of a comparison that fails: the pairs that are there.
unfoldable pub range_response : ℕ → Option KeyValue → TxnResponse
unfolding to_kvs
range_response rev kv = record {
  header = rev;
  succeeded = false;
  responses =
      range_done
        (record { header = rev; kvs = to_kvs kv; more = false; count = length (to_kvs kv) })
      ∷ [];
}

unfoldable pub delete_response : ℕ → Option KeyValue → TxnResponse
unfolding to_kvs
delete_response rev kv = record {
  header = rev;
  succeeded = true;
  responses = delete_range_done rev (to_kvs kv) (length (to_kvs kv)) ∷ [];
}

-- `register` is `util.RegisterCustomResourceDefinition`; what it stores is not read here.
module _ {S : Type 0} (B : Backend S) (register : Bytes → Option Error) where
  create_rollback : Error → S × (ℕ × Option KeyValue × Bool × Option Error) → S × Reply TxnResponse
  create_rollback e (s, (rev', kv, done, none)) = (s, ok (put_response rev'))
  create_rollback e (s, (rev', kv, done, some del_err)) = (s, failed (Error.joined e del_err))

  create_registered : Bytes → ℕ → Option Error → S → S × Reply TxnResponse
  create_registered key rev none s = (s, ok (put_response rev))
  create_registered key rev (some e) s = create_rollback e (B.delete key 0 s)

  create_done : PutRequest → S × (ℕ × Option Error) → S × Reply TxnResponse
  create_done put (s, (rev, some e)) =
      if is_key_exists e
      then (s, ok (record { header = rev; succeeded = false; responses = [] }))
      else (s, failed e)
  create_done put (s, (rev, none)) =
      create_registered put.key rev
        (if has_prefix crd_prefix put.key then register put.value else none) s

  -- `LimitedServer.create`
  unfoldable pub create : PutRequest → S → S × Reply TxnResponse
  unfolding create_done create_registered create_rollback
  create put s =
      if put.ignore_lease
      then (s, failed (Error.unimplemented (codes "ignoreLease")))
      else if put.ignore_value
      then (s, failed (Error.unimplemented (codes "ignoreValue")))
      else if put.prev_kv
      then (s, failed (Error.unimplemented (codes "prevKv")))
      else create_done put (B.create put.key put.value put.lease s)

  delete_done : S × (ℕ × Option KeyValue × Bool × Option Error) → S × Reply TxnResponse
  delete_done (s, (rev, kv, done, some e)) = (s, failed e)
  delete_done (s, (rev, kv, done, none)) =
      (s, ok (if done then delete_response rev kv else range_response rev kv))

  -- `LimitedServer.delete`
  unfoldable pub delete : Bytes → ℕ → S → S × Reply TxnResponse
  unfolding delete_done
  delete key revision s = delete_done (B.delete key revision s)

  -- The header of the response was set before.
  update_rollback_done :
      ℕ → Error → S × (ℕ × Option KeyValue × Bool × Option Error) → S × Reply TxnResponse
  update_rollback_done header e (s, (rev, kv, done, none)) =
      (s, ok (record { header = header; succeeded = true; responses = put_done rev ∷ [] }))
  update_rollback_done header e (s, (rev, kv, done, some e')) = (s, failed (Error.joined e e'))

  -- The function `revErr`, given what its `Get` returns: the value is written once more.
  update_rollback :
      Bytes → ℕ → ℕ → Error → ℕ × Option KeyValue × Option Error → S → S × Reply TxnResponse
  update_rollback key rev lease e (rev', kv, some e') s = (s, failed (Error.joined e e'))
  update_rollback key rev lease e (rev', none, none) s = (s, panicked)
  update_rollback key rev lease e (rev', some kv, none) s =
      update_rollback_done rev e (B.update key kv.value rev lease s)

  update_registered : Bytes → ℕ → ℕ → Option Error → S → S × Reply TxnResponse
  update_registered key rev lease none s = (s, ok (put_response rev))
  update_registered key rev lease (some e) s =
      update_rollback key rev lease e (B.get key rev false s) s

  update_found : S → ℕ × Option KeyValue × Option Error → S × Reply TxnResponse
  update_found s (rev, kv, some e) = (s, failed e)
  update_found s (rev, kv, none) = (s, ok (range_response rev kv))

  register_if_crd : Bytes → Bytes → Option Error
  register_if_crd key value = if has_prefix crd_prefix key then register value else none

  update_created : Bytes → Bytes → ℕ → S × (ℕ × Option Error) → S × Reply TxnResponse
  unfolding register_if_crd
  update_created key value lease (s, (rev, some e)) =
      if is_key_exists e then update_found s (B.get key rev false s) else (s, failed e)
  update_created key value lease (s, (rev, none)) =
      update_registered key rev lease (register_if_crd key value) s

  update_updated :
      Bytes → Bytes → ℕ → S × (ℕ × Option KeyValue × Bool × Option Error) → S × Reply TxnResponse
  unfolding register_if_crd
  update_updated key value lease (s, (rev, kv, done, some e)) = (s, failed e)
  update_updated key value lease (s, (rev, kv, true, none)) =
      update_registered key rev lease (register_if_crd key value) s
  update_updated key value lease (s, (rev, kv, false, none)) = (s, ok (range_response rev kv))

  -- `LimitedServer.update`
  unfoldable pub update : ℕ → Bytes → Bytes → ℕ → S → S × Reply TxnResponse
  unfolding update_created update_updated update_found update_registered update_rollback
      update_rollback_done
  update rev key value lease s =
      if rev == 0
      then update_created key value lease (B.create key value lease s)
      else update_updated key value lease (B.update key value rev lease s)
