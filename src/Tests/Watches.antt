-- ===== src/Tests/Watches.antt =====
-- The loop of a watch stream: an event, a request for progress, and an event again.
use harikube.Common.{
  ℕ, codes, last?, map, keep, true, false, none, some, List, [], ◌∷◌, ◌++◌, ◌≡◌, refl, arith, inl,
  inr,
}
use harikube.Api.{Event}
use harikube.Server.Watches.{
  Response, new_watcher, create, begin_watch, send, send_events, request_progress, progress_all,
  cancel, remove_watch, has_watch,
}
use harikube.Server.Watches.Headers
use harikube.Server.Watches.Headers.{
  Act, creates, begins, sends, requests, broadcasts, cancels, Rises, run-Rises,
}
use harikube.Server.Streams.{
  Stream, Turn, batches, progress, run, events_sent, events_read, events_sent-run, last_revision,
}

abbrev created_at : ℕ → Event
created_at rev = record {
  deleted = false;
  created = true;
  kv = some (record {
    key = codes "/a";
    value = codes "1";
    version = 1;
    create_revision = rev;
    mod_revision = rev;
    lease = 0;
  });
  prev_kv = none;
}

abbrev turns : List Turn
turns =
    batches ((created_at 3 ∷ []) ∷ [])
    ∷ progress 3
    ∷ batches []
    ∷ batches ((created_at 4 ∷ []) ∷ [])
    ∷ []

abbrev idle_stream : Stream
idle_stream = record { max_rev = 0; sent = [] }

events_sent-run_example :
    events_sent (run 2 idle_stream turns).sent ≡ events_sent idle_stream.sent ++ events_read turns
unfolding last_revision last?
events_sent-run_example = events_sent-run 2 idle_stream turns (
  inr (record { positive = omega arith; from = omega arith }),
  (inl refl, (inr (record { positive = omega arith; from = omega arith }), tt)),
)

-- A watch is created, sends an event, and is asked for the current revision, which is behind it.
abbrev acts : List Act
acts =
    creates
      (record {
        watch_id = 0;
        key = codes "/a";
        range_end = [];
        start = some 0;
        progress_notify = true;
      })
      (3, none)
    ∷ begins 1 3 0
    ∷ sends 1 4 (created_at 4 ∷ [])
    ∷ requests
    ∷ broadcasts (λ id. true) (3, none)
    ∷ cancels 1 0 0 none
    ∷ []

run-Rises_example : Rises 0 (Headers.run acts (new_watcher 0)).sent
run-Rises_example = run-Rises 0 acts

-- The headers are those of the creation, of the event, of the progress, which is put forward, and of the
-- cancellation.
run_headers :
    map (λ (r : Response). r.header) (Headers.run acts (new_watcher 0)).sent ≡ 0 ∷ 4 ∷ 4 ∷ 0 ∷ []
unfolding create begin_watch send send_events request_progress progress_all cancel remove_watch
    has_watch keep
run_headers = refl
