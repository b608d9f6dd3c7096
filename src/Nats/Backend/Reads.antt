-- ===== src/Nats/Backend/Reads.antt =====
-- `List`, `Get` and `Count` of pkg/drivers/nats/backend.go.
use harikube.Common.{ℕ, Bytes, Option, none, some, List, [], ◌∷◌, if◌then◌else◌, ltb}
use harikube.Api.{KeyValue}
use harikube.Memory.Map.{OrderedMap}
use harikube.Nats.Codec.{Base58}
use harikube.Nats.Index.{Failure, Result, done, fails, SeqOp, kv_count}
use harikube.Nats.Bucket.{Entry, Bucket, NatsData, Values}
use harikube.Nats.Store.{Kv, kv_list}
use harikube.Nats.Backend.{decode_entry}

abbrev cons_kv : KeyValue → Result (List KeyValue) → Result (List KeyValue)
cons_kv kv (done l) = done (kv ∷ l)
cons_kv kv (fails e) = fails e

kv_added : Result NatsData → Result (List KeyValue) → Result (List KeyValue)
kv_added (fails e) rest = fails e
kv_added (done nd) rest = cons_kv nd.kv rest

-- The loop of `List`
unfoldable pub kvs_of : Values → List Entry → Result (List KeyValue)
unfolding kv_added
kvs_of V [] = done []
kvs_of V (e ∷ l) = kv_added (decode_entry V e) (kvs_of V l)

abbrev head_of : ℕ × List KeyValue × Option Failure → ℕ × Option KeyValue × Option Failure
head_of (rev, kvs, some e) = (rev, none, some e)
head_of (rev, [], none) = (rev, none, none)
head_of (rev, kv ∷ kvs, none) = (rev, some kv, none)

module _ {O : OrderedMap (List SeqOp)} {N : Type 0} (B : Bucket N) (K : Base58) (V : Values) where
  listed : ℕ → Kv O N → Result (List KeyValue) → ℕ × List KeyValue × Option Failure
  listed max_revision s (fails e) = (s.index.last_seq, [], some e)
  listed max_revision s (done kvs) =
      (if ltb 0 max_revision then max_revision else s.index.last_seq, kvs, none)

  list_entries : ℕ → Kv O N → Result (List Entry) → ℕ × List KeyValue × Option Failure
  unfolding listed kvs_of
  list_entries max_revision s (fails e) = (s.index.last_seq, [], some e)
  list_entries max_revision s (done entries) = listed max_revision s (kvs_of V entries)

  -- `List`
  unfoldable pub list : Bytes → Bytes → ℕ → ℕ → Kv O N → ℕ × List KeyValue × Option Failure
  unfolding list_entries
  list key end limit max_revision s =
      list_entries max_revision s (kv_list B K V key end limit max_revision s)

  -- `Get`
  unfoldable pub get : Bytes → ℕ → Kv O N → ℕ × Option KeyValue × Option Failure
  unfolding list
  get key revision s = head_of (list key [] 1 revision s)

  counted : ℕ → Kv O N → Result ℕ → ℕ × ℕ × Option Failure
  counted revision s (fails e) = (s.index.last_seq, 0, some e)
  counted revision s (done n) = (if ltb 0 revision then revision else s.index.last_seq, n, none)

  -- `Count`
  unfoldable pub count : Bytes → Bytes → ℕ → Kv O N → ℕ × ℕ × Option Failure
  unfolding counted
  count key end revision s = counted revision s (kv_count key end revision s.index)
