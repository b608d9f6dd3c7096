-- ===== src/Memory/Watching.antt =====
-- `Watch` of pkg/drivers/memory/memory.go: the request, and the goroutine that delivers events.
use harikube.Common.{
  ℕ, ◌-◌, Bytes, ◌&&◌, Option, none, some, List, [], ◌∷◌, ◌++◌, ltb, leb, ◌==◌, if◌then◌else◌, drop,
  keep, map,
}
use harikube.Api.{KeyValue, Event, empty_kv, key_in_range}
use harikube.Memory.{Memory, log_index_after}
use harikube.Memory.Map.{OrderedMap}
use harikube.Memory.Entries.{Entry, to_key_value}

-- `PrevKV` of an event: the predecessor, or its revision alone.
unfoldable pub prev_kv_of : Entry → Option Entry → KeyValue
prev_kv_of e none = record empty_kv { mod_revision = e.prev_revision }
prev_kv_of e (some p) = to_key_value p

unfoldable pub to_event : (ℕ → Option Entry) → Entry → Event
unfolding prev_kv_of
to_event prev e = record {
  deleted = e.deleted;
  created = e.created;
  kv = some (to_key_value e);
  prev_kv = some (prev_kv_of e (prev e.revision));
}

-- `lastSeen` after a pass over these entries
unfoldable pub last_seen : ℕ → List Entry → ℕ
last_seen seen [] = seen
last_seen seen (e ∷ log) = last_seen e.revision log

-- Where the goroutine stands. `gen` is the channel that `getNotifyCh` returned, by the number of
-- broadcasts before it.
pub data Stage : Type 0 where
  grab : Stage
  scan : (gen : ℕ) → Stage
  send : (gen : ℕ) → List Event → Stage
  wait : (gen : ℕ) → Stage

pub record Watcher : Type 0 where
  pub key : Bytes
  pub end : Bytes
  pub seen : ℕ
  pub stage : Stage
  -- what the caller was sent, in order
  pub sent : List (List Event)

pub data WatchResult : Type 0 where
  -- the channel is closed at once: `CurrentRevision` and `CompactRevision`
  refused : ℕ → ℕ → WatchResult
  -- `CurrentRevision`, and the goroutine
  accepted : ℕ → Watcher → WatchResult

-- What the goroutine counts as seen when it begins: a start revision of 0 stands for the next one.
abbrev pub seen_at : (start rev : ℕ) → ℕ
seen_at start rev = if start == 0 then rev else start - 1

abbrev pub new_watcher : Bytes → Bytes → (start rev : ℕ) → Watcher
new_watcher key end start rev = record {
  key = key;
  end = end;
  seen = seen_at start rev;
  stage = grab;
  sent = [];
}

-- The request. `compact_rev` and `rev` are read one after the other, not under one lock.
unfoldable pub watch : Bytes → Bytes → (start compact_rev rev : ℕ) → WatchResult
watch key end start compact_rev rev =
    if ltb 0 start && leb start compact_rev
    then refused rev compact_rev
    else accepted (if start == 0 then rev else start) (new_watcher key end start rev)

-- `if len(batch) > 0`
unfoldable pub after_scan : ℕ → List Event → Stage
after_scan gen [] = wait gen
after_scan gen (e ∷ batch) = send gen (e ∷ batch)

module _ {B : OrderedMap (List Entry)} where
  -- The entries that a pass reads: those from `logIndexAfter(lastSeen)` on.
  abbrev pub unread : Memory B → ℕ → List Entry
  unread m seen = drop (log_index_after m seen) m.log

  -- The batch that a pass collects.
  unfoldable pub batch_of : Memory B → Bytes → Bytes → ℕ → List Event
  batch_of m key end seen =
      map (to_event m.prev) (keep (λ e. key_in_range key end e.key) (unread m seen))

  -- One step of the goroutine; `none` where it is blocked on `notifyCh`.
  unfoldable pub watch_at : Memory B → Watcher → Stage → Option Watcher
  unfolding after_scan
  watch_at m w grab = some (record w { stage = scan m.notify })
  watch_at m w (scan gen) = some (record w {
    seen = last_seen w.seen (unread m w.seen);
    stage = after_scan gen (batch_of m w.key w.end w.seen);
  })
  watch_at m w (send gen batch) = some (record w { sent = w.sent ++ batch ∷ []; stage = wait gen })
  watch_at m w (wait gen) = if gen == m.notify then none else some (record w { stage = grab })

  unfoldable pub watch_step : Memory B → Watcher → Option Watcher
  unfolding watch_at
  watch_step m w = watch_at m w w.stage
