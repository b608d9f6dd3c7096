-- ===== src/T4.antt =====
-- pkg/drivers/t4/backend.go: the backend over a node of T4, which is third-party code and a parameter.
-- The wait of `Start` for the node, and the goroutine of a watch, are left out.
pub mod Prefixes
use harikube.Common.{
  ℕ, Bytes, bytes_eq, Bool, true, false, not, ◌&&◌, Option, none, some, List, [], ◌∷◌, map, length,
  take, ltb, leb, ◌==◌, if◌then◌else◌,
}
use harikube.Api.{Error, KeyValue, Event, empty_kv}

-- The errors of T4 that the code tells apart.
pub data T4Error : Type 0 where
  no_leader compacted future_revision key_exists : T4Error
  other_error : Error → T4Error

pub record T4Pair : Type 0 where
  pub key : Bytes
  pub value : Bytes
  pub create_revision : ℕ
  pub revision : ℕ
  pub lease : ℕ

pub record T4Event : Type 0 where
  pub is_delete : Bool
  pub kv : Option T4Pair
  pub prev_kv : Option T4Pair

-- What a read asks for: a prefix, a revision, a key to start from, and a limit.
pub record ReadOptions : Type 0 where
  pub revision : Option ℕ
  pub from_key : Option Bytes
  pub limit : Option ℕ

pub record Node (T : Type 0) : Type 0 where
  pub current_revision : T → ℕ
  pub compact_revision : T → ℕ
  pub get : Bytes → ReadOptions → T → Option T4Pair × Option T4Error
  pub list : Bytes → ReadOptions → T → List T4Pair × Option T4Error
  pub count : Bytes → ReadOptions → T → ℕ × Option T4Error
  pub create : Bytes → Bytes → ℕ → T → T × (ℕ × Option T4Error)
  pub update : Bytes → Bytes → ℕ → ℕ → T → T × (ℕ × Option T4Pair × Bool × Option T4Error)
  pub delete_if_revision : Bytes → ℕ → T → T × (ℕ × Option T4Pair × Bool × Option T4Error)
  pub compact : ℕ → T → T × Option T4Error

-- `translateErr` of an error
unfoldable pub translate_err : T4Error → Error
translate_err T4Error.no_leader = Error.no_leader
translate_err T4Error.compacted = Error.compacted
translate_err T4Error.future_revision = Error.future_rev
translate_err T4Error.key_exists = Error.other 0
translate_err (T4Error.other_error e) = e

abbrev translated : Option T4Error → Option Error
translated none = none
translated (some e) = some (translate_err e)

pair_kv : Bool → T4Pair → KeyValue
pair_kv keys_only p = record empty_kv {
  key = p.key;
  create_revision = p.create_revision;
  mod_revision = p.revision;
  lease = p.lease;
  value = if keys_only then [] else p.value;
}

-- `toServerKV`
unfoldable pub to_server_kv : Bool → Option T4Pair → Option KeyValue
unfolding pair_kv
to_server_kv keys_only none = none
to_server_kv keys_only (some p) = some (pair_kv keys_only p)

abbrev is_none : Option T4Pair → Bool
is_none none = true
is_none (some p) = false

-- `toServerEvent`
unfoldable pub to_server_event : T4Event → Event
unfolding to_server_kv
to_server_event e = record {
  deleted = e.is_delete;
  created = not e.is_delete && is_none e.prev_kv;
  kv = to_server_kv false e.kv;
  prev_kv = to_server_kv false e.prev_kv;
}

-- `translateRange`: the prefix, and the key to start from or an empty one.
unfoldable pub translate_range : Bytes → Bytes → Bytes × Bytes
translate_range key end =
    if not (bytes_eq end []) && ltb (length end) (length key)
    then (take (length end) key, key)
    else (key, [])

-- `readOpts`
abbrev read_opts : ℕ → ReadOptions
read_opts revision = record {
  revision = if revision == 0 then none else some revision;
  from_key = none;
  limit = none;
}

module _ {T : Type 0} (N : Node T) where
  -- The tests at the start of a read; `none` lets it go on.
  unfoldable pub revision_error : ℕ → T → Option Error
  revision_error revision s =
      if ltb 0 revision && ltb (N.current_revision s) revision
      then some Error.future_rev
      else if ltb 0 revision && ltb revision (N.compact_revision s)
      then some Error.compacted
      else none

  got : Bool → T → Option T4Pair × Option T4Error → ℕ × Option KeyValue × Option Error
  unfolding to_server_kv
  got keys_only s (kv, none) = (N.current_revision s, to_server_kv keys_only kv, none)
  got keys_only s (kv, some e) = (N.current_revision s, none, some (translate_err e))

  get_checked : Bytes → ℕ → Bool → T → Option Error → ℕ × Option KeyValue × Option Error
  unfolding got
  get_checked key revision keys_only s (some e) = (N.current_revision s, none, some e)
  get_checked key revision keys_only s none = got keys_only s (N.get key (read_opts revision) s)

  -- `Get`
  unfoldable pub get : Bytes → ℕ → Bool → T → ℕ × Option KeyValue × Option Error
  unfolding get_checked
  get key revision keys_only s = get_checked key revision keys_only s (revision_error revision s)

  created : T × (ℕ × Option T4Error) → T × (ℕ × Option Error)
  created (s, (rev, some T4Error.key_exists)) = (s, (0, some Error.key_exists))
  created (s, (rev, e)) = (s, (rev, translated e))

  -- `Create`
  unfoldable pub create : Bytes → Bytes → ℕ → T → T × (ℕ × Option Error)
  unfolding created
  create key value lease s = created (N.create key value lease s)

  changed :
      T × (ℕ × Option T4Pair × Bool × Option T4Error)
      → T × (ℕ × Option KeyValue × Bool × Option Error)
  unfolding to_server_kv
  changed (s, (rev, old, done, some e)) = (s, (0, none, false, some (translate_err e)))
  changed (s, (rev, old, done, none)) = (s, (rev, to_server_kv false old, done, none))

  -- `Delete`
  unfoldable pub delete : Bytes → ℕ → T → T × (ℕ × Option KeyValue × Bool × Option Error)
  unfolding changed
  delete key revision s = changed (N.delete_if_revision key revision s)

  -- `Update`
  unfoldable pub update :
      Bytes → Bytes → ℕ → ℕ → T → T × (ℕ × Option KeyValue × Bool × Option Error)
  unfolding changed
  update key value revision lease s = changed (N.update key value revision lease s)

  listed : Bool → T → List T4Pair × Option T4Error → ℕ × List KeyValue × Option Error
  unfolding pair_kv
  listed keys_only s (kvs, none) = (N.current_revision s, map (pair_kv keys_only) kvs, none)
  listed keys_only s (kvs, some e) = (N.current_revision s, [], some (translate_err e))

  list_checked : Bytes → Bytes → ℕ → ℕ → Bool → T → Option Error → ℕ × List KeyValue × Option Error
  unfolding listed translate_range
  list_checked key end limit revision keys_only s (some e) = (N.current_revision s, [], some e)
  list_checked key end limit revision keys_only s none =
      let (prefix, start_key) = translate_range key end in
      listed keys_only s (
        N.list prefix
          (record (read_opts revision) {
            from_key = if bytes_eq start_key [] then none else some start_key;
            limit = if ltb 0 limit then some limit else none;
          })
          s)

  -- `List`
  unfoldable pub list : Bytes → Bytes → ℕ → ℕ → Bool → T → ℕ × List KeyValue × Option Error
  unfolding list_checked
  list key end limit revision keys_only s =
      list_checked key end limit revision keys_only s (revision_error revision s)

  counted : T → ℕ × Option T4Error → ℕ × ℕ × Option Error
  counted s (n, none) = (N.current_revision s, n, none)
  counted s (n, some e) = (N.current_revision s, 0, some (translate_err e))

  count_checked : Bytes → Bytes → ℕ → T → Option Error → ℕ × ℕ × Option Error
  unfolding counted translate_range
  count_checked key end revision s (some e) = (N.current_revision s, 0, some e)
  count_checked key end revision s none =
      let (prefix, start_key) = translate_range key end in
      counted s (
        N.count prefix
          (record (read_opts revision) {
            from_key = if bytes_eq key [] then none else some start_key;
          })
          s)

  -- `Count`
  unfoldable pub count : Bytes → Bytes → ℕ → T → ℕ × ℕ × Option Error
  unfolding count_checked
  count key end revision s = count_checked key end revision s (revision_error revision s)

  compact_result : ℕ → T × Option T4Error → T × (ℕ × Option Error)
  compact_result revision (s, none) = (s, (revision, none))
  compact_result revision (s, some e) = (s, (0, some (translate_err e)))

  -- `Compact`
  unfoldable pub compact : ℕ → T → T × (ℕ × Option Error)
  unfolding compact_result
  compact revision s = compact_result revision (N.compact revision s)

  -- Whether `Watch` refuses a revision as compacted
  unfoldable pub watch_refused : ℕ → T → Bool
  watch_refused revision s = ltb 0 revision && leb revision (N.compact_revision s)
