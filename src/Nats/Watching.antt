-- ===== src/Nats/Watching.antt =====
-- `Watch` of pkg/drivers/nats/kv.go, its subject and what its handler passes on, and the watches of
-- pkg/drivers/nats/backend.go: a turn of `Watch` and of `compactWatcher` on one update.
use harikube.Common.{
  ℕ, Bytes, bytes_eq, bytes_lt, codes, has_byte, Bool, true, ap, false, not, ◌&&◌, ◌||◌, Option,
  none, some, List, [], ◌∷◌, ◌++◌, ◌≡◌, refl, sym, ◌∙◌, ◌==◌, if◌then◌else◌, ltb, last?,
}
use harikube.Api.{KeyValue, Event, empty_kv}
use harikube.Memory.Map.{OrderedMap}
use harikube.Nats.Codec.{Base58, encode_range, slash, no_root_prefix, trim_suffix}
use harikube.Nats.Index.{
  Failure, Result, done, fails, SeqOp, Index, Operation, is_put, index_update,
}
use harikube.Nats.Bucket.{Bucket, NatsData, Values}
use harikube.Nats.Store.{Kv}
use harikube.Nats.Backend.{get_nats}
use harikube.Nats.Backend.Compacting.{decode_compact_value}

-- The key up to its last slash, with it.
unfoldable pub through_slash : Bytes → Bytes
through_slash [] = []
through_slash (c ∷ s) =
    let rest = through_slash s in
    if has_byte slash s then c ∷ rest else if c == slash then c ∷ [] else []

abbrev is_slash : Option ℕ → Bool
is_slash none = false
is_slash (some c) = c == slash

-- What a watch asks for: everything below the last token of a key.
unfoldable pub watch_filter : Bytes → Bytes
unfolding through_slash
watch_filter key =
    if not (bytes_eq key (slash ∷ [])) && is_slash (last? key)
    then trim_suffix key
    else if has_byte slash key
    then through_slash key
    else no_root_prefix

prefixed : Bytes → Option Bytes → Option Bytes
prefixed bucket none = none
prefixed bucket (some p) = some (codes "$KV." ++ bucket ++ codes "." ++ p)

-- The filter on subjects; `none` is an error.
unfoldable pub watch_subject : Base58 → Bytes → Bytes → Option Bytes
unfolding watch_filter prefixed
watch_subject K bucket key =
    let filter = watch_filter key in
    let subject = prefixed bucket (encode_range K filter) in
    if not (bytes_eq filter []) then subject else some []

-- The test of the key of a message with a subject
key_passes : Bytes → Bytes → Option Bytes → Bool
key_passes key end none = false
key_passes key end (some dkey) =
    not (bytes_eq key [] && bytes_lt dkey key || not (bytes_eq end []) && not (bytes_lt dkey end))

-- What the handler does with a message, given its subject below the prefix of the bucket, and its key
-- if that subject can be decoded: whether it is passed on.
unfoldable pub delivered : Bytes → Bytes → ℕ → ℕ → Bytes → Option Bytes → Bool
unfolding key_passes
delivered key end compact_rev seq skey decoded =
    if ltb seq compact_rev
    then false
    else if bytes_eq skey []
    then true
    else key_passes key end decoded

never_below : (key : Bytes) → bytes_lt key [] ≡ false
unfolding bytes_lt
never_below [] = refl
never_below (c ∷ s) = refl

passes-start : (key end : Bytes) (o : Option Bytes) → key_passes key end o ≡ key_passes [] end o
unfolding key_passes bytes_eq
passes-start key end none = refl
passes-start [] end (some dkey) = refl
passes-start (c ∷ s) end (some dkey) = rw (never_below dkey) refl

-- Below the subject of a watch, its handler passes on the same messages whatever the key of the watch
-- is: neither the start of a range nor the one key of a watch without an end is compared.
pub delivered-any_key :
    (key key' end : Bytes) (compact_rev seq : ℕ) (skey : Bytes) (o : Option Bytes)
    → delivered key end compact_rev seq skey o ≡ delivered key' end compact_rev seq skey o
unfolding delivered
delivered-any_key key key' end compact_rev seq skey o =
    ap (λ b. if ltb seq compact_rev then false else if bytes_eq skey [] then true else b)
      (passes-start key end o ∙ sym (passes-start key' end o))

previous_kv : ℕ → ℕ × Option NatsData × Option Failure → KeyValue
previous_kv prev_revision (rev, some pnd, none) = pnd.kv
previous_kv prev_revision _ = record empty_kv { mod_revision = prev_revision }

module _ {O : OrderedMap (List SeqOp)} {N : Type 0} (B : Bucket N) (K : Base58) (V : Values) where
  event_of : Bytes → NatsData → Kv O N → Event
  unfolding previous_kv
  event_of key nd s = record {
    created = nd.created;
    deleted = nd.deleted;
    kv = some nd.kv;
    prev_kv = some (
        if ltb 0 nd.prev_revision
        then previous_kv nd.prev_revision (get_nats B K V key nd.prev_revision false false s)
        else record empty_kv { mod_revision = nd.prev_revision });
  }

  put_event : Bytes → Result NatsData → Kv O N → Option Event
  unfolding event_of
  put_event key (fails e) s = none
  put_event key (done nd) s = some (event_of key nd s)

  -- What `Watch` of the backend sends for an update.
  unfoldable pub watch_event : Operation → Bytes → Result NatsData → Kv O N → Option Event
  unfolding put_event
  watch_event op key nd s = if is_put op then put_event key nd s else none

module _ {O : OrderedMap (List SeqOp)} where
  index_seen : ℕ → ℕ → Bytes → Result NatsData → Index O → Index O
  unfolding index_update
  index_seen hsize seq key (fails e) s = s
  index_seen hsize seq key (done nd) s =
      index_update hsize key
        (record { seq = seq; op = if nd.deleted then Operation.op_delete else Operation.op_put }) s

  -- A turn of `btreeWatcher`: a put of a tombstone counts as a deletion.
  unfoldable pub index_turn : ℕ → Operation → ℕ → Bytes → Result NatsData → Index O → Index O
  unfolding index_seen
  index_turn hsize op seq key nd s =
      if is_put op
      then index_seen hsize seq key nd s
      else index_update hsize key (record { seq = seq; op = op }) s

  compact_seen : Result NatsData → Index O → Index O
  compact_seen (fails e) s = s
  compact_seen (done nd) s =
      let rev = (decode_compact_value nd.kv.value).1 in
      if ltb 0 rev then record s { compact_rev = rev } else s

  -- A turn of `compactWatcher`
  unfoldable pub compact_watched : Operation → Result NatsData → Index O → Index O
  unfolding compact_seen
  compact_watched op nd s = if is_put op then compact_seen nd s else s
