-- ===== src/Broadcaster.antt =====
-- pkg/broadcaster/broadcaster.go: one stream of items for many subscribers. Each method, and each
-- item of `stream`, holds the lock and is one step.
pub mod Buffers
use harikube.Common.{
  ℕ, zero, suc, ◌+◌, ◌-◌, Bool, true, false, Option, none, some, List, [], ◌∷◌, ◌++◌, map, length,
  ltb, if◌then◌else◌,
}
use harikube.Api.{Error}

-- The capacity of a subscriber's channel
abbrev pub capacity : ℕ
capacity = 100

-- A channel in `subs`: the items sent into it, of which the first `taken` were received. `slow` says
-- that a goroutine is about to end it.
pub record Sub (A : Type 0) : Type 0 where
  pub sent : List A
  pub taken : ℕ
  pub slow : Bool

-- `Broadcaster`; the order of `subs` is that of an iteration over the map.
pub record Broadcaster (A : Type 0) : Type 0 where
  pub running : Bool
  pub subs : List (Sub A)

module _ {A : Type 0} where
  abbrev pub new_sub : Sub A
  new_sub = record { sent = []; taken = 0; slow = false }

  add_sub : Broadcaster A → Broadcaster A × Option Error
  add_sub b = (record b { subs = new_sub ∷ b.subs }, none)

  connected : Broadcaster A → Option Error → Broadcaster A × Option Error
  unfolding add_sub
  connected b (some e) = (b, some e)
  connected b none = add_sub (record b { running = true })

  -- `Subscribe`, with the error that `connect` returns if it is called
  unfoldable pub subscribe : Option Error → Broadcaster A → Broadcaster A × Option Error
  unfolding connected add_sub
  subscribe connect b = if b.running then add_sub b else connected b connect

  -- The `select` of `stream`: a full channel takes nothing, and its subscriber is to be dropped.
  unfoldable pub offer : A → Sub A → Sub A
  offer item s =
      if ltb (length s.sent - s.taken) capacity
      then record s { sent = s.sent ++ item ∷ [] }
      else record s { slow = true }

  -- One turn of the loop of `stream`
  unfoldable pub stream_item : A → Broadcaster A → Broadcaster A
  unfolding offer
  stream_item item b = record b { subs = map (offer item) b.subs }

  -- The end of `stream`
  unfoldable pub stream_end : Broadcaster A → Broadcaster A
  stream_end b = record { running = false; subs = [] }

  remove_at : ℕ → List (Sub A) → List (Sub A)
  remove_at i [] = []
  remove_at zero (s ∷ l) = l
  remove_at (suc i) (s ∷ l) = s ∷ remove_at i l

  -- `unsub` of the subscriber at a place; one that is not there is left alone.
  unfoldable pub unsub : ℕ → Broadcaster A → Broadcaster A
  unfolding remove_at
  unsub i b = record b { subs = remove_at i b.subs }

  take_sub : Sub A → Sub A
  take_sub s = if ltb s.taken (length s.sent) then record s { taken = s.taken + 1 } else s

  take_at : ℕ → List (Sub A) → List (Sub A)
  unfolding take_sub
  take_at i [] = []
  take_at zero (s ∷ l) = take_sub s ∷ l
  take_at (suc i) (s ∷ l) = s ∷ take_at i l

  -- A subscriber receives an item, if there is one.
  unfoldable pub receive : ℕ → Broadcaster A → Broadcaster A
  unfolding take_at
  receive i b = record b { subs = take_at i b.subs }

  -- The items of the stream since each of the subscriptions, newest first: a subscription that
  -- succeeds begins with no items.
  abbrev pub subscribed : Option Error → List (List A) → List (List A)
  subscribed none since = [] ∷ since
  subscribed (some e) since = since

  abbrev pub removed_at : ℕ → List (List A) → List (List A)
  removed_at i [] = []
  removed_at zero (l ∷ since) = since
  removed_at (suc i) (l ∷ since) = l ∷ removed_at i since

  -- The steps of the broadcaster, with the items of the stream beside it, which no step reads.
  pub data Step (b : Broadcaster A) (since : List (List A))
      : Broadcaster A → List (List A) → Type 0 where
    subscribes :
        (connect : Option Error)
        → Step b since (subscribe connect b).0 (subscribed (subscribe connect b).1 since)
    streams : (item : A) → Step b since (stream_item item b) (map (λ l. l ++ item ∷ []) since)
    ends : Step b since (stream_end b) []
    leaves : (i : ℕ) → Step b since (unsub i b) (removed_at i since)
    receives : (i : ℕ) → Step b since (receive i b) since

  pub data Reach (b : Broadcaster A) (since : List (List A))
      : Broadcaster A → List (List A) → Type 0 where
    here : Reach b since b since
    next :
        {c d : Broadcaster A} {l k : List (List A)}
        → Reach b since c l
        → Step c l d k
        → Reach b since d k
