-- ===== src/Server/Requests.antt =====
-- The etcd requests and responses as pkg/server uses them: the fields that it reads or sets, under
-- their documented protobuf meaning. A getter of an absent field returns 0.
use harikube.Common.{ℕ, Bytes, Bool, true, false, List}
use harikube.Api.{KeyValue, Error}

pub data CompareTarget : Type 0 where
  version_target create_target mod_target value_target lease_target : CompareTarget

pub data CompareResult : Type 0 where
  equal greater less not_equal : CompareResult

-- The union of a comparison.
pub data TargetUnion : Type 0 where
  unset : TargetUnion
  to_version to_create_revision to_mod_revision to_lease : ℕ → TargetUnion
  to_value : Bytes → TargetUnion

pub record Compare : Type 0 where
  pub key : Bytes
  pub target : CompareTarget
  pub result : CompareResult
  pub union : TargetUnion

abbrev pub mod_revision_of : TargetUnion → ℕ
mod_revision_of (to_mod_revision r) = r
mod_revision_of _ = 0

abbrev pub version_of : TargetUnion → ℕ
version_of (to_version v) = v
version_of _ = 0

abbrev pub is_mod : CompareTarget → Bool
is_mod mod_target = true
is_mod _ = false

abbrev pub is_version : CompareTarget → Bool
is_version version_target = true
is_version _ = false

abbrev pub is_equal : CompareResult → Bool
is_equal equal = true
is_equal _ = false

pub record RangeRequest : Type 0 where
  pub key : Bytes
  pub range_end : Bytes
  pub limit : ℕ
  pub revision : ℕ
  pub keys_only : Bool
  pub count_only : Bool
  pub serializable : Bool
  pub sort_order : ℕ
  pub sort_target : ℕ
  pub min_mod_revision : ℕ
  pub max_mod_revision : ℕ
  pub min_create_revision : ℕ
  pub max_create_revision : ℕ

pub record PutRequest : Type 0 where
  pub key : Bytes
  pub value : Bytes
  pub lease : ℕ
  pub prev_kv : Bool
  pub ignore_value : Bool
  pub ignore_lease : Bool

pub record DeleteRangeRequest : Type 0 where
  pub key : Bytes
  pub range_end : Bytes

-- What a nested transaction holds is never looked at.
pub data RequestOp : Type 0 where
  range_op : RangeRequest → RequestOp
  put_op : PutRequest → RequestOp
  delete_range_op : DeleteRangeRequest → RequestOp
  txn_op : RequestOp

pub record TxnRequest : Type 0 where
  pub compare : List Compare
  pub success : List RequestOp
  pub failure : List RequestOp

-- `RangeResponse`; its header is the revision.
pub record RangeResponse : Type 0 where
  pub header : ℕ
  pub kvs : List KeyValue
  pub more : Bool
  pub count : ℕ

pub data ResponseOp : Type 0 where
  put_done : ℕ → ResponseOp
  range_done : RangeResponse → ResponseOp
  delete_range_done : ℕ → List KeyValue → ℕ → ResponseOp

pub record TxnResponse : Type 0 where
  pub header : ℕ
  pub succeeded : Bool
  pub responses : List ResponseOp

-- What a handler returns: a response, an error, or the panic of a nil pointer.
pub data Reply {ℓ} (A : Type ℓ) : Type ℓ where
  ok : A → Reply A
  failed : Error → Reply A
  panicked : Reply A
