-- ===== src/Server/Ranges.antt =====
-- pkg/server: `get` (get.go), `list` (list.go), `Range` (server.go, kv.go) and `Put` (put.go).
use harikube.Common.{
  ℕ, ◌+◌, Bytes, codes, bytes_eq, Bool, true, false, not, ◌&&◌, Option, none, some, List, [], ◌∷◌,
  map, length, take, ltb, ◌==◌, if◌then◌else◌,
}
use harikube.Api.{Error, KeyValue, Backend}
use harikube.Server.{to_kv, is_key_exists, compact_rev_key, compact_rev_api}
use harikube.Server.Requests.{PutRequest, RangeRequest, RangeResponse, Reply, ok, failed, panicked}

-- What a handler that returns a response next to its error returns for the error alone.
abbrev refuse : Error → Option RangeResponse × Option Error
refuse e = (none, some e)

-- The apiserver's compact revision key stands for another one.
unfoldable pub redirect : Bytes → Bytes
redirect key = if bytes_eq key compact_rev_key then compact_rev_api else key

abbrev pub one_or_none : Option KeyValue → List KeyValue
one_or_none none = []
one_or_none (some kv) = kv ∷ []

get_response : ℕ × Option KeyValue × Option Error → Option RangeResponse × Option Error
get_response (rev, kv, e) = (
  some (record {
    header = rev;
    kvs = one_or_none kv;
    more = false;
    count = length (one_or_none kv);
  }),
  e,
)

count_response : ℕ × ℕ × Option Error → Option RangeResponse × Option Error
count_response (rev, count, e) =
    (some (record { header = rev; kvs = []; more = false; count = count }), e)

-- The response of a page that is not the last: the pairs of the page, and the count of all.
unfoldable pub more_response :
    List KeyValue → ℕ × ℕ × Option Error → Option RangeResponse × Option Error
more_response kvs (rev, count, e) =
    (some (record { header = rev; kvs = kvs; more = true; count = count }), e)

module _ {S : Type 0} (B : Backend S) (s : S) where
  unfoldable pub list_response :
      RangeRequest → ℕ × List KeyValue × Option Error → Option RangeResponse × Option Error
  list_response r (rev, kvs, e) =
      if ltb 0 r.limit && ltb r.limit (length kvs)
      then more_response (take r.limit kvs)
          (B.count r.key r.range_end (if r.revision == 0 then rev else r.revision) s)
      else (some (record { header = rev; kvs = kvs; more = false; count = length kvs }), e)

  -- `LimitedServer.get`
  unfoldable pub get : RangeRequest → Option RangeResponse × Option Error
  unfolding get_response redirect
  get r =
      if ltb 1 r.limit
      then refuse (Error.unimplemented (codes "limit"))
      else get_response (B.get (redirect r.key) r.revision r.keys_only s)

  -- `LimitedServer.list`. The backend is asked for one pair more than the limit.
  unfoldable pub list : RangeRequest → Option RangeResponse × Option Error
  unfolding list_response more_response count_response
  list r =
      if bytes_eq r.range_end []
      then refuse (Error.other 0)
      else if r.count_only
      then count_response (B.count r.key r.range_end r.revision s)
      else list_response r (
          B.list r.key r.range_end (if ltb 0 r.limit then r.limit + 1 else 0) r.revision r.keys_only
            s)

  -- `LimitedServer.Range`
  unfoldable pub limited_range : RangeRequest → Option RangeResponse × Option Error
  limited_range r = if bytes_eq r.range_end [] then get r else list r

  range_reply : Option RangeResponse × Option Error → Reply RangeResponse
  range_reply (resp, some e) = failed e
  range_reply (none, none) = panicked
  range_reply (some resp, none) = ok (record resp { kvs = map to_kv resp.kvs })

  -- `KVServerBridge.Range`, with its guards in order
  unfoldable pub range : RangeRequest → Reply RangeResponse
  unfolding range_reply
  range r =
      if not (r.max_create_revision == 0)
      then failed (Error.unimplemented (codes "maxCreateRevision"))
      else if not (r.sort_order == 0)
      then failed (Error.unimplemented (codes "sortOrder"))
      else if not (r.sort_target == 0)
      then failed (Error.unimplemented (codes "sortTarget"))
      else if r.serializable
      then failed (Error.unimplemented (codes "serializable"))
      else if not (r.min_mod_revision == 0)
      then failed (Error.unimplemented (codes "minModRevision"))
      else if not (r.min_create_revision == 0)
      then failed (Error.unimplemented (codes "minCreateRevision"))
      else if not (r.max_mod_revision == 0)
      then failed (Error.unimplemented (codes "maxModRevision"))
      else range_reply (limited_range r)

-- `PutResponse`, next to the error that `Put` returns
abbrev pub PutResponse : Type 0
PutResponse = ℕ × Option KeyValue

abbrev pub prev_kv_of : Bool → Option KeyValue → Option KeyValue
prev_kv_of true (some kv) = some (to_kv kv)
prev_kv_of _ _ = none

module _ {S : Type 0} (B : Backend S) where
  pub put_updated :
      Option KeyValue
      → S × (ℕ × Option KeyValue × Bool × Option Error)
      → S × (Option PutResponse × Option Error)
  put_updated prev (s, (rev, kv, done, e)) = (s, (some (rev, prev), e))

  -- The revision of the update is the one that `Get` answers at.
  pub put_found :
      PutRequest
      → Bytes
      → S
      → ℕ × Option KeyValue × Option Error
      → S × (Option PutResponse × Option Error)
  put_found r key s (rev, kv, some e) = (s, (none, some e))
  put_found r key s (rev, kv, none) =
      put_updated (prev_kv_of r.prev_kv kv) (B.update key r.value rev r.lease s)

  pub put_created :
      PutRequest → Bytes → S × (ℕ × Option Error) → S × (Option PutResponse × Option Error)
  put_created r key (s, (rev, some e)) =
      if is_key_exists e
      then put_found r key s (B.get key rev false s)
      else (s, (some (rev, none), some e))
  put_created r key (s, (rev, none)) = (s, (some (rev, none), none))

  -- `LimitedServer.Put`
  unfoldable pub put : PutRequest → S → S × (Option PutResponse × Option Error)
  unfolding put_created put_found put_updated redirect
  put r s =
      if r.ignore_value
      then (s, (none, some (Error.unimplemented (codes "ignoreValue"))))
      else if r.ignore_lease
      then (s, (none, some (Error.unimplemented (codes "ignoreLease"))))
      else put_created r (redirect r.key) (B.create (redirect r.key) r.value r.lease s)
