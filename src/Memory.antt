-- ===== src/Memory.antt =====
-- pkg/drivers/memory/memory.go: the in-memory backend, with the methods in the order of the file.
-- Every method runs under the backend's lock, so each is one step on the state.
pub mod Map
pub mod Entries
pub mod Compaction
pub mod Watching
pub mod Rising
pub mod Trim
pub mod History
pub mod Spec
pub mod Writes
pub mod CompactionLaws
pub mod Listing
pub mod Shows
pub mod Reads
pub mod Gets
pub mod Runs
pub mod WatchLaws
pub mod Interleaving
pub mod Turns
pub mod Delivery
pub mod Snapshots
use harikube.Common.{
  ℕ, ◌+◌, ◌-◌, Bytes, bytes_eq, bytes_lt, Bool, true, false, not, ◌&&◌, ◌||◌, Option, none, some,
  List, [], ◌∷◌, ◌++◌, map, length, drop, last?, ltb, leb, ◌==◌, if◌then◌else◌, keep,
}
use harikube.Api.{health_key, health_val, KeyValue, Event, Error, empty_kv, key_in_range}
use Map.{OrderedMap}
use Entries.{
  Entry, to_key_value, at_revision_from, or_nil, set_prev, is_live, prev_revision_of, created_entry,
  updated_entry, deleted_entry, shown, past_end, head_of, count_of,
}

module _ (B : OrderedMap (List Entry)) where
  -- `Memory`. `prev` is the pointer `prev` of the entry with a given revision, and `notify` counts
  -- how often `broadcast` has closed and replaced `notifyCh`.
  pub record Memory : Type 0 where
    pub current : ℕ
    pub compact : ℕ
    pub log : List Entry
    pub keys : B.Map
    pub prev : ℕ → Option Entry
    pub notify : ℕ

log_size : List Entry → ℕ
log_size [] = 0
log_size (e ∷ log) = length e.key + length e.value + 64 + log_size log

module _ {B : OrderedMap (List Entry)} where
  -- `New`
  abbrev pub new : Memory B
  new = record { current = 0; compact = 0; log = []; keys = B.empty; prev = λ r. none; notify = 0 }

  -- `hist, _ := m.keys.Get(key)`
  abbrev pub hist_of : Memory B → Bytes → List Entry
  hist_of m key = or_nil (B.get m.keys key)

  unfoldable pub broadcast : Memory B → Memory B
  broadcast m = record m { notify = m.notify + 1 }

  -- `appendEntry`
  unfoldable pub append_entry : Entry → Memory B → Memory B
  unfolding broadcast
  append_entry e m = broadcast (record m {
    log = m.log ++ e ∷ [];
    prev = set_prev m.prev e.revision (last? (hist_of m e.key));
    keys = B.set m.keys e.key (hist_of m e.key ++ e ∷ []);
  })

  unfoldable pub latest : Memory B → Bytes → Option Entry
  latest m key = last? (hist_of m key)

  unfoldable pub at_revision : Memory B → Bytes → ℕ → Option Entry
  at_revision m key revision = at_revision_from none revision (hist_of m key)

  -- `logIndexAfter`: the subtraction stops at 0, as the code clamps it.
  unfoldable pub log_index_after : Memory B → ℕ → ℕ
  log_index_after m rev =
      let i = rev - m.compact in if ltb (length m.log) i then length m.log else i

  -- `Create`. The increment of `nextRevision` and the append are one step under the lock.
  unfoldable pub create : Bytes → Bytes → ℕ → Memory B → Memory B × (ℕ × Option Error)
  unfolding prev_revision_of
  create key value lease m =
      if is_live (latest m key)
      then (m, (m.current, some Error.key_exists))
      else let rev = m.current + 1 in
        (
          append_entry (created_entry rev key value lease (prev_revision_of (latest m key)))
              (record m { current = rev }),
          (rev, none),
        )

  update_latest :
      Option Entry → Bytes → Bytes → ℕ → ℕ → Memory B → Memory B × (ℕ × Option KeyValue × Bool)
  update_latest none key value revision lease m = (m, (m.current, none, false))
  update_latest (some e) key value revision lease m =
      if e.deleted
      then (m, (m.current, none, false))
      else if not (e.revision == revision)
      then (m, (m.current, some (to_key_value e), false))
      else let rev = m.current + 1 in
        let new_entry = updated_entry rev key value lease e in
        (
          append_entry new_entry (record m { current = rev }),
          (rev, some (to_key_value new_entry), true),
        )

  -- `Update`, whose error is always nil
  unfoldable pub update : Bytes → Bytes → ℕ → ℕ → Memory B → Memory B × (ℕ × Option KeyValue × Bool)
  unfolding update_latest
  update key value revision lease m = update_latest (latest m key) key value revision lease m

  delete_latest : Option Entry → Bytes → ℕ → Memory B → Memory B × (ℕ × Option KeyValue × Bool)
  delete_latest none key revision m = (m, (m.current, none, false))
  delete_latest (some e) key revision m =
      if e.deleted
      then (m, (m.current, none, false))
      else if not (revision == 0) && not (e.revision == revision)
      then (m, (m.current, some (to_key_value e), false))
      else let rev = m.current + 1 in
        (
          append_entry (deleted_entry rev key e) (record m { current = rev }),
          (rev, some (to_key_value e), true),
        )

  -- `Delete`, whose error is always nil
  unfoldable pub delete : Bytes → ℕ → Memory B → Memory B × (ℕ × Option KeyValue × Bool)
  unfolding delete_latest
  delete key revision m = delete_latest (latest m key) key revision m

  -- The entry that `List` looks at: the latest one, or the one at a given revision.
  unfoldable pub entry_at : Memory B → ℕ → Bytes → Option Entry
  entry_at m revision k = if ltb 0 revision then at_revision m k revision else latest m k

  -- The loop of `List` over the iterator; `kvs` is what was found so far.
  unfoldable pub list_loop :
      Memory B
      → Bytes
      → Bytes
      → ℕ
      → ℕ
      → Bool
      → List KeyValue
      → List (Bytes × List Entry)
      → List KeyValue
  unfolding past_end
  list_loop m key end limit revision keys_only kvs [] = kvs
  list_loop m key end limit revision keys_only kvs (e ∷ rest) =
      let kvs' = kvs ++ shown keys_only (entry_at m revision e.0) in
      let more = list_loop m key end limit revision keys_only kvs' rest in
      if past_end key end e.0
      then kvs
      else if ltb 0 limit && leb limit (length kvs')
      then kvs'
      else more

  -- `List`; the selectors are ignored by this backend.
  unfoldable pub list : Bytes → Bytes → ℕ → ℕ → Bool → Memory B → ℕ × List KeyValue × Option Error
  list key end limit revision keys_only m =
      if ltb 0 revision && ltb m.current revision
      then (m.current, [], some Error.future_rev)
      else if ltb 0 revision && ltb revision m.compact
      then (m.current, [], some Error.compacted)
      else (
        if ltb 0 revision then revision else m.current,
        list_loop m key end limit revision keys_only [] (B.seek m.keys key),
        none,
      )

  -- `Get`
  unfoldable pub get : Bytes → ℕ → Bool → Memory B → ℕ × Option KeyValue × Option Error
  unfolding head_of
  get key revision keys_only m = head_of (list key [] 1 revision keys_only m)

  -- `Count`
  unfoldable pub count : Bytes → Bytes → ℕ → Memory B → ℕ × ℕ × Option Error
  unfolding count_of
  count key end revision m = count_of (list key end 0 revision true m)

  -- `Start`, whose errors are only logged; the goroutine for leases is not part of it.
  unfoldable pub start : Memory B → Memory B
  start m =
      let (m', _) = create health_key health_val 0 m in
      let (m'', _) = update health_key health_val 1 0 m' in m''

  -- `DbSize`
  unfoldable pub db_size : Memory B → ℕ
  unfolding log_size
  db_size m = log_size m.log
