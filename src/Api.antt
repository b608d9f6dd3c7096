-- ===== src/Api.antt =====
-- pkg/server/types.go: what the backends and the servers exchange.
--
-- An int64 that holds a revision, a version, a lease or a count is a natural number. A pointer
-- that may be nil is an `Option`; a nil slice and an empty one are both `[]`.
use harikube.Common.{
  ℕ, Bytes, codes, Bool, ◌&&◌, ◌||◌, not, Option, none, some, List, [], bytes_eq, bytes_lt,
}

-- The error values that the code compares or returns; `other` stands for the errors of a driver,
-- told apart by a number, `joined` for `errors.Join`, and `wrapped` for an error with another one inside.
pub data Error : Type 0 where
  not_supported invalid_watch key_exists compacted future_rev no_leader unhealthy : Error
  canceled too_many_ops key_not_found : Error
  missing : Bytes → Error
  unimplemented : Bytes → Error
  other : ℕ → Error
  joined : Error → Error → Error
  wrapped : Error → Error

abbrev pub health_key : Bytes
health_key = codes "/registry/health"

abbrev pub health_val : Bytes
health_val = codes "{\"health\":\"true\"}"

pub record KeyValue : Type 0 where
  pub key : Bytes
  pub value : Bytes
  pub version : ℕ
  pub create_revision : ℕ
  pub mod_revision : ℕ
  pub lease : ℕ

pub record Event : Type 0 where
  pub deleted : Bool
  pub created : Bool
  pub kv : Option KeyValue
  pub prev_kv : Option KeyValue

abbrev pub empty_kv : KeyValue
empty_kv = record {
  key = [];
  value = [];
  version = 0;
  create_revision = 0;
  mod_revision = 0;
  lease = 0;
}

-- The test on a key in `Event.InRange`: any key, `[key, end)`, or exactly `key`.
unfoldable pub key_in_range : Bytes → Bytes → Bytes → Bool
key_in_range key end k =
    bytes_eq key []
    || not (bytes_eq end []) && (not (bytes_lt k key) && bytes_lt k end)
    || bytes_eq k key

in_range_kv : Bytes → Bytes → Option KeyValue → Bool
in_range_kv key end none = Bool.false
in_range_kv key end (some kv) = key_in_range key end kv.key

-- `(e *Event) InRange`, where `none` is the nil event.
unfoldable pub in_range : Bytes → Bytes → Option Event → Bool
unfolding in_range_kv key_in_range
in_range key end none = Bool.false
in_range key end (some e) = in_range_kv key end e.kv

-- The methods of `Backend` that the etcd requests call, over the state `S` of a backend: a write
-- returns the next state with its results, a read only its results.
pub record Backend (S : Type 0) : Type 0 where
  pub get : Bytes → ℕ → Bool → S → ℕ × Option KeyValue × Option Error
  pub create : Bytes → Bytes → ℕ → S → S × (ℕ × Option Error)
  pub delete : Bytes → ℕ → S → S × (ℕ × Option KeyValue × Bool × Option Error)
  pub list : Bytes → Bytes → ℕ → ℕ → Bool → S → ℕ × List KeyValue × Option Error
  pub count : Bytes → Bytes → ℕ → S → ℕ × ℕ × Option Error
  pub update : Bytes → Bytes → ℕ → ℕ → S → S × (ℕ × Option KeyValue × Bool × Option Error)
  pub compact : ℕ → S → S × (ℕ × Option Error)
