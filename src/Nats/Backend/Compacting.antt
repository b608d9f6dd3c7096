-- ===== src/Nats/Backend/Compacting.antt =====
-- `Compact` and `decodeCompactValue` of pkg/drivers/nats/backend.go.
use harikube.Common.{
  ℕ, ◌+◌, ◌-◌, Bytes, codes, Bool, true, false, Option, none, some, List, if◌then◌else◌, ltb,
}
use harikube.Api.{KeyValue}
use harikube.Memory.Map.{OrderedMap}
use harikube.Nats.Codec.{Base58}
use harikube.Nats.Index.{Failure, Result, done, fails, SeqOp}
use harikube.Nats.Bucket.{Entry, Bucket, NatsData, Values}
use harikube.Nats.Store.{Kv, kv_entry}
use harikube.Nats.Backend.{is_no_key, get_nats, create}
use harikube.Nats.Backend.Changes.{update}
use harikube.Server.Requests.{Reply, ok, panicked}
use harikube.Server.Version.{encode_version, decode_version, decimal, parse_int}

abbrev pub compact_rev_api : Bytes
compact_rev_api = codes "compact_rev_key_apiserver"

-- `decodeCompactValue`
unfoldable pub decode_compact_value : Bytes → ℕ × ℕ
decode_compact_value value = let (vers, rev) = decode_version value in (vers, parse_int rev)

-- The revision to compact to: a given one above 1, or what leaves `min_retain` revisions.
unfoldable pub target_rev : ℕ → ℕ → ℕ → ℕ
target_rev min_retain curr_rev revision = if ltb 1 revision then revision else curr_rev - min_retain

module _ {O : OrderedMap (List SeqOp)} {N : Type 0} (B : Bucket N) (K : Base58) (V : Values)
    (others waiting : Kv O N → Kv O N) (min_retain : ℕ) where
  update_done :
      ℕ
      → Kv O N × (ℕ × Option KeyValue × Bool × Option Failure)
      → Kv O N × Reply (ℕ × Option Failure)
  update_done curr_rev (s, (rev, kv, swapped, e)) = (s, ok (curr_rev, e))

  compact_value :
      ℕ → ℕ → Kv O N → ℕ × Option NatsData × Option Failure → Kv O N × Reply (ℕ × Option Failure)
  unfolding update_done target_rev decode_compact_value
  compact_value curr_rev revision s (rev, nd, some e) = (s, ok (s.index.last_seq, some e))
  compact_value curr_rev revision s (rev, none, none) = (s, panicked)
  compact_value curr_rev revision s (rev, some nd, none) =
      let (vers, compact_rev) = decode_compact_value nd.kv.value in
      let target = target_rev min_retain curr_rev revision in
      if ltb (compact_rev + 1) target
      then update_done curr_rev (
          update B K V others waiting compact_rev_api (encode_version (vers + 1) (decimal target))
            nd.kv.mod_revision 0 s)
      else (s, ok (curr_rev, none))

  compact_entry : ℕ → ℕ → Kv O N → Result Entry → Kv O N × Reply (ℕ × Option Failure)
  unfolding compact_value
  compact_entry curr_rev revision s (fails e) = (s, ok (s.index.last_seq, some e))
  compact_entry curr_rev revision s (done k) =
      compact_value curr_rev revision s (get_nats B K V compact_rev_api k.revision false true s)

  compact_created : ℕ → ℕ → Kv O N × (ℕ × Option Failure) → Kv O N × Reply (ℕ × Option Failure)
  unfolding compact_entry
  compact_created curr_rev revision (s, (rev, some e)) = (s, ok (s.index.last_seq, some e))
  compact_created curr_rev revision (s, (rev, none)) =
      compact_entry curr_rev revision s (kv_entry B K V compact_rev_api 0 s)

  compact_first : ℕ → ℕ → Kv O N → Result Entry → Kv O N × Reply (ℕ × Option Failure)
  unfolding compact_created compact_entry
  compact_first curr_rev revision s (done k) = compact_entry curr_rev revision s (done k)
  compact_first curr_rev revision s (fails e) =
      if is_no_key e
      then compact_created curr_rev revision
          (create B K V others waiting compact_rev_api (encode_version 1 (decimal 0)) 0 s)
      else (s, ok (s.index.last_seq, some e))

  -- `Compact`
  unfoldable pub compact : ℕ → Kv O N → Kv O N × Reply (ℕ × Option Failure)
  unfolding compact_first
  compact revision s =
      compact_first s.index.last_seq revision s (kv_entry B K V compact_rev_api 0 s)
