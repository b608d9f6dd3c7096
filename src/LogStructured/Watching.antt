-- ===== src/LogStructured/Watching.antt =====
-- `Watch` of pkg/logstructured/logstructured.go: what it returns, and what its goroutine sends, given
-- the batches that it reads from the log's own watch until that is closed.
use harikube.Common.{
  ℕ, ◌-◌, ◌≤◌, ◌<◌, Bytes, Bool, true, false, Option, none, some, List, [], ◌∷◌, ◌++◌, map, ◌≡◌,
  refl, ap, sym, arith, ltb, leb, keep, keep-append, if◌then◌else◌, Bool-cases, inl, inr,
}
use harikube.Api.{Error, Event}
use harikube.LogStructured.{kv_of}
use harikube.LogStructured.Interface.{Log}

-- `filter`: the events up to a revision are dropped from the front.
unfoldable pub filter : ℕ → List Event → List Event
filter rev [] = []
filter rev (event ∷ events) =
    let rest = filter rev events in
    if leb (kv_of event).mod_revision rev then rest else event ∷ events

-- What `Watch` returns besides the channel of events: the revisions for a request that was compacted,
-- and what is put into the channel of errors.
pub record WatchResult : Type 0 where
  pub current_revision : ℕ
  pub compact_revision : ℕ
  pub error : Option Error

abbrev is_compacted : Error → Bool
is_compacted Error.compacted = true
is_compacted _ = false

abbrev is_canceled : Error → Bool
is_canceled Error.canceled = true
is_canceled _ = false

abbrev no_result : WatchResult
no_result = record { current_revision = 0; compact_revision = 0; error = none }

-- `include the current revision in list`
unfoldable pub first_revision : ℕ → ℕ
first_revision revision = if ltb 1 revision then revision - 1 else revision

-- The goroutine: the events that `After` gave come first, and then the batches without those that it
-- covers.
unfoldable pub send_all : ℕ → ℕ → List Event → List (List Event) → List (List Event)
unfolding filter
send_all revision rev [] batches = map (filter revision) batches
send_all revision rev (kv ∷ kvs) batches = (kv ∷ kvs) ∷ map (filter rev) batches

module _ {S : Type 0} (L : Log S) where
  watch_failed : ℕ → Error → ℕ × Option Error → WatchResult
  watch_failed rev e (compact, ignored) =
      if is_canceled e
      then no_result
      else if is_compacted e
      then record { current_revision = rev; compact_revision = compact; error = none }
      else record no_result { error = some Error.unhealthy }

  watched :
      ℕ → List (List Event) → S → ℕ × List Event × Option Error → WatchResult × List (List Event)
  watched revision batches s (rev, kvs, none) = (no_result, send_all revision rev kvs batches)
  watched revision batches s (rev, kvs, some e) =
      (watch_failed rev e (L.compact_revision s), send_all revision rev kvs batches)

  -- `Watch`; `batches` is what is read from the log's watch.
  unfoldable pub watch : Bytes → Bytes → ℕ → List (List Event) → S → WatchResult × List (List Event)
  unfolding watched watch_failed first_revision
  watch key end revision batches s =
      watched (first_revision revision) batches s (L.after key end (first_revision revision) 0 s)

abbrev pub revision_of : Event → ℕ
revision_of e = (kv_of e).mod_revision

-- The revisions of the events do not fall.
abbrev NotBelow : ℕ → List Event → Type 0
NotBelow b [] = Unit
NotBelow b (e ∷ es) = (b ≤ revision_of e) × NotBelow (revision_of e) es

abbrev pub Rising : List (List Event) → Type 0
Rising [] = Unit
Rising (batch ∷ batches) = NotBelow 0 batch × Rising batches

abbrev pub concat : List (List Event) → List Event
concat [] = []
concat (l ∷ ls) = l ++ concat ls

-- Events that are all above a revision are all kept.
keep-above :
    (rev b : ℕ) (es : List Event)
    → rev < b
    → NotBelow b es
    → keep (λ e. ltb rev (revision_of e)) es ≡ es
unfolding keep
keep-above rev b [] p n = refl
keep-above rev b (e ∷ es) p n =
    let above : ltb rev (revision_of e) ≡ true = ground (arith, n.0) in
    rw above (ap (λ l. e ∷ l) (keep-above rev (revision_of e) es (omega (arith, n.0)) n.1))

filter-keep :
    (rev b : ℕ) (es : List Event)
    → NotBelow b es
    → filter rev es ≡ keep (λ e. ltb rev (revision_of e)) es
unfolding filter keep
filter-keep rev b [] n = refl
filter-keep rev b (e ∷ es) n = elim (Bool-cases (leb (revision_of e) rev)) [
  | inl covered ↦
      let below : ltb rev (revision_of e) ≡ false = ground arith in
      rw (covered, below) (filter-keep rev (revision_of e) es n.1)
  | inr new ↦
      let above : ltb rev (revision_of e) ≡ true = ground arith in
      rw (new, above) (ap (λ l. e ∷ l) (sym (keep-above rev (revision_of e) es (ground arith) n.1)))
]

map-filter-keep :
    (rev : ℕ) (batches : List (List Event))
    → Rising batches
    → concat (map (filter rev) batches) ≡ keep (λ e. ltb rev (revision_of e)) (concat batches)
map-filter-keep rev [] r = unfold keep in refl
map-filter-keep rev (batch ∷ batches) r =
    rw (filter-keep rev 0 batch r.0, map-filter-keep rev batches r.1, keep-append) refl

-- The revision that the events of `After` cover: its own, or the start if it found none.
abbrev pub covered : ℕ → ℕ → List Event → ℕ
covered revision rev [] = first_revision revision
covered revision rev (kv ∷ kvs) = rev

-- If `After` answers, a watch sends its events, and then exactly those later events of the log's watch
-- that it did not cover, in order.
pub watch-concat :
    {S : Type 0} (L : Log S) (key end : Bytes) (revision rev : ℕ) (kvs : List Event)
    (batches : List (List Event)) (s : S)
    → L.after key end (first_revision revision) 0 s ≡ (rev, kvs, none)
    → Rising batches
    → concat (watch L key end revision batches s).1
      ≡ kvs ++ keep (λ e. ltb (covered revision rev kvs) (revision_of e)) (concat batches)
unfolding watch send_all
watch-concat L key end revision rev [] batches s p r =
    rw p (map-filter-keep (first_revision revision) batches r)
watch-concat L key end revision rev (kv ∷ kvs) batches s p r =
    rw p (ap (λ l. (kv ∷ kvs) ++ l) (map-filter-keep rev batches r))
