-- ===== src/Server/Streams.antt =====
-- pkg/server/watch.go, the loop of `watcher.watch` over what it reads. A turn reads the queued batches
-- of events, or one progress revision. `Send` does not fail here, and each event has a `KV`. The
-- events are those given to `toEvents`.
use harikube.Common.{
  ℕ, ◌≤◌, Bool, true, false, not, ◌&&◌, ◌||◌, Option, none, some, List, [], ◌∷◌, ◌++◌, ◌≡◌, refl,
  ap, sym, ◌∙◌, arith, last?, leb, ◌==◌, if◌then◌else◌, Bool-cases, inl, inr, ◌⊎◌, append_assoc,
  append-nil,
}
use harikube.Api.{Event, KeyValue}

pub data Turn : Type 0 where
  batches : List (List Event) → Turn
  progress : ℕ → Turn

-- The loop's `maxRev`, and the responses sent so far: a revision with its events.
pub record Stream : Type 0 where
  pub max_rev : ℕ
  pub sent : List (ℕ × List Event)

abbrev pub concat : List (List Event) → List Event
concat [] = []
concat (l ∷ ls) = l ++ concat ls

abbrev kv_revision : Option KeyValue → ℕ
kv_revision none = 0
kv_revision (some kv) = kv.mod_revision

abbrev event_revision : Option Event → ℕ
event_revision none = 0
event_revision (some e) = kv_revision e.kv

-- The max revision from the collected events
unfoldable pub last_revision : List Event → ℕ
last_revision events = event_revision (last? events)

abbrev is_empty : List Event → Bool
is_empty [] = true
is_empty (e ∷ l) = false

-- Sends the response, if there is one to send.
unfoldable pub respond : ℕ → ℕ → List Event → Stream → Stream
respond start revision events st =
    if not (revision == 0) && (is_empty events || leb start revision)
    then record { max_rev = revision; sent = st.sent ++ (revision, events) ∷ [] }
    else st

-- One turn of the loop
unfoldable pub turn : ℕ → Stream → Turn → Stream
turn start st (batches bs) = respond start (last_revision (concat bs)) (concat bs) st
turn start st (progress rev) = respond start (if leb st.max_rev rev then rev else 0) [] st

unfoldable pub run : ℕ → Stream → List Turn → Stream
run start st [] = st
run start st (t ∷ ts) = run start (turn start st t) ts

-- The events of the responses, and those that were read.
abbrev pub events_sent : List (ℕ × List Event) → List Event
events_sent [] = []
events_sent (r ∷ rs) = r.1 ++ events_sent rs

abbrev pub events_read : List Turn → List Event
events_read [] = []
events_read (batches bs ∷ ts) = concat bs ++ events_read ts
events_read (progress rev ∷ ts) = events_read ts

-- Events whose last one is from the start revision on, or none.
abbrev pub FromStart : ℕ → List Event → Type 0
FromStart start l =
    (l ≡ []) ⊎ (record { positive : 1 ≤ last_revision l; from : start ≤ last_revision l })

-- What was read in each turn is from the start revision on.
abbrev pub From : ℕ → List Turn → Type 0
From start [] = Unit
From start (batches bs ∷ ts) = FromStart start (concat bs) × From start ts
From start (progress rev ∷ ts) = From start ts

events_sent-append :
    (rs : List (ℕ × List Event)) (rev : ℕ) (l : List Event)
    → events_sent (rs ++ (rev, l) ∷ []) ≡ events_sent rs ++ l
events_sent-append [] rev l = append-nil l
events_sent-append (r ∷ rs) rev l =
    ap (λ x. r.1 ++ x) (events_sent-append rs rev l) ∙ sym (append_assoc r.1 (events_sent rs) l)

batches-sent :
    (start : ℕ) (st : Stream) (bs : List (List Event))
    → FromStart start (concat bs)
    → events_sent (turn start st (batches bs)).sent ≡ events_sent st.sent ++ concat bs
unfolding turn respond last_revision last?
batches-sent start st bs (inl none_read) = simp none_read (sym (append-nil (events_sent st.sent)))
batches-sent start st bs (inr b) =
    let due : (not (last_revision (concat bs) == 0)
          && (is_empty (concat bs) || leb start (last_revision (concat bs))))
        ≡ true =
      ground (arith, b.positive, b.from) in
    rw due (events_sent-append st.sent (last_revision (concat bs)) (concat bs))

progress-sent :
    (start rev : ℕ) (st : Stream)
    → events_sent (turn start st (progress rev)).sent ≡ events_sent st.sent
unfolding turn respond
progress-sent start rev st =
    elim (Bool-cases (not ((if leb st.max_rev rev then rev else 0) == 0))) [
      | inl due ↦ simp due (events_sent-append st.sent _ [] ∙ append-nil (events_sent st.sent))
      | inr none_due ↦ simp none_due refl
    ]

-- If each read of events is empty or ends with one from the start revision on, then the events of the responses
-- are exactly those that were read, in order, however they are split into turns and whatever
-- progress is asked for in between.
pub events_sent-run :
    (start : ℕ) (st : Stream) (ts : List Turn)
    → From start ts
    → events_sent (run start st ts).sent ≡ events_sent st.sent ++ events_read ts
unfolding run
events_sent-run start st [] f = sym (append-nil (events_sent st.sent))
events_sent-run start st (batches bs ∷ ts) f =
    events_sent-run start (turn start st (batches bs)) ts f.1
    ∙ ap (λ x. x ++ events_read ts) (batches-sent start st bs f.0)
    ∙ append_assoc (events_sent st.sent) (concat bs) (events_read ts)
events_sent-run start st (progress rev ∷ ts) f =
    events_sent-run start (turn start st (progress rev)) ts f
    ∙ ap (λ x. x ++ events_read ts) (progress-sent start rev st)
