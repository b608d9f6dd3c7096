-- ===== src/Nats/Bucket.antt =====
-- What pkg/drivers/nats uses of NATS and of its encoders, over the state `N` of the server: the
-- key-value bucket of JetStream, and JSON and s2 for the values. All of it is a parameter. A value of
-- the bucket is one that the driver has written, and holds a `KV`.
use harikube.Common.{ℕ, Bytes, Bool, Option}
use harikube.Api.{KeyValue}
use harikube.Nats.Index.{Failure, Result}

-- The subject of an entry, its value, and its revision.
pub record Entry : Type 0 where
  pub subject : Bytes
  pub value : Bytes
  pub revision : ℕ

-- `create` writes where no put is the last operation; `update` and `delete` write after the given
-- revision.
pub record Bucket (N : Type 0) : Type 0 where
  pub get : Bytes → N → Result Entry
  pub get_revision : Bytes → ℕ → N → Result Entry
  pub create : Bytes → Bytes → N → N × Result ℕ
  pub update : Bytes → Bytes → ℕ → N → N × Result ℕ
  pub delete : Bytes → ℕ → N → N × Option Failure

-- `natsData`, without the time of its creation.
pub record NatsData : Type 0 where
  pub kv : KeyValue
  pub prev_revision : ℕ
  pub created : Bool
  pub deleted : Bool

-- `json.Marshal`, `json.Unmarshal`, and the value codec.
pub record Values : Type 0 where
  pub marshal : NatsData → Result Bytes
  pub unmarshal : Bytes → Result NatsData
  pub compress : Bytes → Result Bytes
  pub decompress : Bytes → Bytes
