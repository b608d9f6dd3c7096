-- ===== src/Tests/Broadcasts.antt =====
-- A run of the broadcaster: a subscription, one item, and its receipt.
use harikube.Common.{ℕ, false, none, [], ◌∷◌}
use harikube.Broadcaster.{
  Broadcaster, subscribe, stream_item, receive, here, next, subscribes, streams, receives,
}
use harikube.Broadcaster.Buffers.{AllGood, Reach-AllGood}

abbrev idle : Broadcaster ℕ
idle = record { running = false; subs = [] }

abbrev after_item : Broadcaster ℕ
after_item = receive 0 (stream_item 7 (subscribe none idle).0)

Reach-AllGood_example : AllGood ((7 ∷ []) ∷ []) after_item.subs
unfolding receive subscribe
Reach-AllGood_example =
    Reach-AllGood {b = idle} {since = []} tt
      (next (next (next here (subscribes none)) (streams 7)) (receives 0))
