-- ===== src/Server/Watches.antt =====
-- pkg/server/watch.go, the watches of a stream: creation, cancellation and progress, and `Send`, which
-- does not fail here. The loop of each watch is Streams; its parts are steps of their own here. What a
-- channel of progress can take is an argument.
pub mod Headers
use harikube.Common.{
  ℕ, ◌+◌, Bytes, bytes_eq, Bool, true, false, not, ◌&&◌, Option, none, some, List, [], ◌∷◌, ◌++◌,
  keep, map, ltb, ◌==◌, if◌then◌else◌,
}
use harikube.Api.{Error, Event}
use harikube.Server.Ranges.{redirect}

-- The number of a watch, or `InvalidWatchID`.
pub data WatchId : Type 0 where
  invalid_id : WatchId
  id_of : ℕ → WatchId

pub record Response : Type 0 where
  pub header : ℕ
  pub id : WatchId
  pub created : Bool
  pub canceled : Bool
  pub reason : Option Error
  pub compact_revision : ℕ
  pub events : List Event

-- A request to create a watch; `start` is `none` for a negative revision.
pub record CreateRequest : Type 0 where
  pub watch_id : ℕ
  pub key : Bytes
  pub range_end : Bytes
  pub start : Option ℕ
  pub progress_notify : Bool

pub record Watch : Type 0 where
  pub id : ℕ
  pub key : Bytes
  pub range_end : Bytes
  pub start : ℕ

-- `watcher` with its `server`: the counter of watches, `maxRevision`, the watches, those with a channel
-- of progress, `notify`, and the responses sent so far.
pub record Watcher : Type 0 where
  pub last_id : ℕ
  pub max_revision : ℕ
  pub watches : List Watch
  pub progress : List ℕ
  pub notify : Bool
  pub sent : List Response

abbrev pub new_watcher : ℕ → Watcher
new_watcher last_id = record {
  last_id = last_id;
  max_revision = 0;
  watches = [];
  progress = [];
  notify = false;
  sent = [];
}

abbrev plain : ℕ → WatchId → Response
plain header id = record {
  header = header;
  id = id;
  created = false;
  canceled = false;
  reason = none;
  compact_revision = 0;
  events = [];
}

-- `Send`
unfoldable pub send : Response → Watcher → Watcher
send r w =
    if r.header == 0
    then record w { sent = w.sent ++ r ∷ [] }
    else if ltb w.max_revision r.header
    then record w { max_revision = r.header; sent = w.sent ++ r ∷ [] }
    else record w { sent = w.sent ++ record r { header = w.max_revision } ∷ [] }

-- `CancelEarly`, given the current revision of the backend
unfoldable pub cancel_early : Error → ℕ × Option Error → Watcher → Watcher
unfolding send
cancel_early reason (rev, some e) w = w
cancel_early reason (rev, none) w =
    send
      (record (plain rev WatchId.invalid_id) {
        canceled = true;
        created = true;
        reason = some reason;
      })
      w

started : CreateRequest → ℕ → Watcher → Watcher
started r start w =
    let id = w.last_id + 1 in
    record w {
      last_id = id;
      watches =
          w.watches
          ++ record { id = id; key = redirect r.key; range_end = r.range_end; start = start } ∷ [];
      progress = if r.progress_notify then w.progress ++ id ∷ [] else w.progress;
    }

create_from : CreateRequest → ℕ × Option Error → Option ℕ → Watcher → Watcher
unfolding started cancel_early
create_from r current none w = cancel_early Error.compacted current w
create_from r current (some start) w = started r start w

-- `Create`
unfoldable pub create : CreateRequest → ℕ × Option Error → Watcher → Watcher
unfolding create_from cancel_early
create r current w =
    if not (r.watch_id == 0)
    then cancel_early Error.invalid_watch current w
    else create_from r current r.start w

-- `removeWatch`, and whether there was a watch
unfoldable pub remove_watch : ℕ → Watcher → Watcher
remove_watch id w = record w {
  watches = keep (λ x. not (x.id == id)) w.watches;
  progress = keep (λ x. not (x == id)) w.progress;
}

unfoldable pub has_watch : ℕ → List Watch → Bool
has_watch id [] = false
has_watch id (x ∷ l) = let rest = has_watch id l in if x.id == id then true else rest

-- `Cancel`
unfoldable pub cancel : ℕ → ℕ → ℕ → Option Error → Watcher → Watcher
unfolding remove_watch has_watch send
cancel id revision compact_rev e w =
    let w' = remove_watch id w in
    if not (has_watch id w.watches)
    then w'
    else send
        (record (plain revision (WatchId.id_of id)) {
          canceled = true;
          reason = e;
          compact_revision = compact_rev;
        })
        w'

-- The start of `watch`: the revisions are those of the result of the backend's watch.
unfoldable pub begin_watch : ℕ → ℕ → ℕ → Watcher → Watcher
unfolding send cancel
begin_watch id current_rev compact_rev w =
    let w' = send (record (plain 0 (WatchId.id_of id)) { created = true }) w in
    if compact_rev == 0 then w' else cancel id current_rev compact_rev (some Error.compacted) w'

-- A response of the loop of a watch
unfoldable pub send_events : ℕ → ℕ → List Event → Watcher → Watcher
unfolding send
send_events id revision events w =
    send (record (plain revision (WatchId.id_of id)) { events = events }) w

-- `Close`
unfoldable pub close : Watcher → Watcher
close w = record w { watches = []; progress = [] }

-- `Progress`
unfoldable pub request_progress : Watcher → Watcher
request_progress w = record w { notify = true }

all_synced : (ℕ → Bool) → List ℕ → Bool
all_synced synced [] = true
all_synced synced (id ∷ ids) = synced id && all_synced synced ids

broadcast_progress : (ℕ → Bool) → ℕ × Option Error → Watcher → Watcher
unfolding all_synced send
broadcast_progress synced (rev, some e) w = w
broadcast_progress synced (rev, none) w =
    let w' = record w { notify = false } in
    if all_synced synced w.progress then send (plain rev WatchId.invalid_id) w' else w'

-- `ProgressAll`; its response is sent at once.
unfoldable pub progress_all : (ℕ → Bool) → ℕ × Option Error → Watcher → Watcher
unfolding broadcast_progress
progress_all synced current w = if w.notify then broadcast_progress synced current w else w

progress_to : (ℕ → Bool) → ℕ × Option Error → List ℕ → List (ℕ × ℕ)
progress_to synced (rev, some e) ids = []
progress_to synced (rev, none) ids = map (λ id. (id, rev)) (keep synced ids)

-- `ProgressIfSynced`: the watches that are told to report progress, each with its revision.
unfoldable pub progress_if_synced : (ℕ → Bool) → ℕ × Option Error → Watcher → List (ℕ × ℕ)
unfolding progress_to
progress_if_synced synced current w = if w.notify then [] else progress_to synced current w.progress
