-- ===== src/Broadcaster/Buffers.antt =====
-- What subscribers are sent, in every interleaving.
use harikube.Common.{
  ℕ, zero, suc, ◌+◌, ◌-◌, ◌≤◌, false, Option, none, some, List, [], ◌∷◌, ◌++◌, map, length,
  length-append, ltb, ◌≡◌, refl, ap, arith, Bool-cases, inl, inr,
}
use harikube.Api.{Error}
use harikube.Broadcaster.{
  capacity, Sub, Broadcaster, new_sub, subscribe, offer, stream_item, stream_end, unsub, remove_at,
  receive, take_at, take_sub, Step, subscribes, streams, ends, leaves, receives, Reach, here, next,
  connected, subscribed, removed_at,
}

-- A channel never holds more than its capacity, and a subscriber that is not about to be dropped has
-- been sent every item since its subscription.
pub record Good {A : Type 0} (since : List A) (s : Sub A) : Type 0 where
  pub received : s.taken ≤ length s.sent
  pub bounded : length s.sent ≤ s.taken + capacity
  pub complete : s.slow ≡ false → s.sent ≡ since

module _ {A : Type 0} where
  -- The subscribers are good, each for the items since its own subscription.
  abbrev pub AllGood : List (List A) → List (Sub A) → Type 0
  AllGood [] [] = Unit
  AllGood [] (s ∷ l) = ⊥
  AllGood (x ∷ since) [] = ⊥
  AllGood (x ∷ since) (s ∷ l) = Good x s × AllGood since l

  offer-Good : (item : A) (x : List A) (s : Sub A) → Good x s → Good (x ++ item ∷ []) (offer item s)
  unfolding offer
  offer-Good item x s g = elim (Bool-cases (ltb (length s.sent - s.taken) capacity)) [
    | inl room ↦ rw room (record {
      received = omega (arith, g.received, length-append s.sent (item ∷ []));
      bounded = ground (arith, g.received, g.bounded, length-append s.sent (item ∷ []));
      complete = λ fast. ap (λ l. l ++ item ∷ []) (g.complete fast);
    })
    | inr full ↦
        rw full (record {
          received = g.received;
          bounded = g.bounded;
          complete = λ fast. absurd (cc fast);
        })
  ]

  map-offer-AllGood :
      (item : A) (since : List (List A)) (l : List (Sub A))
      → AllGood since l
      → AllGood (map (λ x. x ++ item ∷ []) since) (map (offer item) l)
  map-offer-AllGood item [] [] g = tt
  map-offer-AllGood item [] (s ∷ l) g = g
  map-offer-AllGood item (x ∷ since) [] g = g
  map-offer-AllGood item (x ∷ since) (s ∷ l) g =
      (offer-Good item x s g.0, map-offer-AllGood item since l g.1)

  remove_at-AllGood :
      (i : ℕ) (since : List (List A)) (l : List (Sub A))
      → AllGood since l
      → AllGood (removed_at i since) (remove_at i l)
  unfolding remove_at
  remove_at-AllGood i [] [] g = tt
  remove_at-AllGood i [] (s ∷ l) g = absurd g
  remove_at-AllGood i (x ∷ since) [] g = absurd g
  remove_at-AllGood zero (x ∷ since) (s ∷ l) g = g.1
  remove_at-AllGood (suc i) (x ∷ since) (s ∷ l) g = (g.0, remove_at-AllGood i since l g.1)

  take_sub-Good : (x : List A) (s : Sub A) → Good x s → Good x (take_sub s)
  unfolding take_sub
  take_sub-Good x s g = elim (Bool-cases (ltb s.taken (length s.sent))) [
    | inl more ↦ rw more (record {
      received = ground arith;
      bounded = omega (arith, g.bounded);
      complete = g.complete;
    })
    | inr empty ↦ rw empty g
  ]

  take_at-AllGood :
      (i : ℕ) (since : List (List A)) (l : List (Sub A))
      → AllGood since l
      → AllGood since (take_at i l)
  unfolding take_at
  take_at-AllGood i [] [] g = tt
  take_at-AllGood i [] (s ∷ l) g = absurd g
  take_at-AllGood i (x ∷ since) [] g = absurd g
  take_at-AllGood zero (x ∷ since) (s ∷ l) g = (take_sub-Good x s g.0, g.1)
  take_at-AllGood (suc i) (x ∷ since) (s ∷ l) g = (g.0, take_at-AllGood i since l g.1)

  new_sub-Good : Good [] (new_sub {A = A})
  new_sub-Good = record { received = omega arith; bounded = omega arith; complete = λ f. refl }

  subscribe-AllGood :
      (connect : Option Error) (since : List (List A)) (b : Broadcaster A)
      → AllGood since b.subs
      → AllGood (subscribed (subscribe connect b).1 since) (subscribe connect b).0.subs
  unfolding subscribe
  subscribe-AllGood connect since b g = elim (Bool-cases b.running) [
    | inl on ↦ simp on (new_sub-Good, g)
    | inr off ↦ simp off (by_connect connect)
  ]
    where
      by_connect :
          (c : Option Error) → AllGood (subscribed (connected b c).1 since) (connected b c).0.subs
      by_connect none = (new_sub-Good, g)
      by_connect (some e) = g

  Step-AllGood :
      {b c : Broadcaster A} {since l : List (List A)}
      → Step b since c l
      → AllGood since b.subs
      → AllGood l c.subs
  unfolding stream_item stream_end unsub receive
  Step-AllGood (subscribes connect) g = subscribe-AllGood connect _ _ g
  Step-AllGood (streams item) g = map-offer-AllGood item _ _ g
  Step-AllGood ends g = tt
  Step-AllGood (leaves i) g = remove_at-AllGood i _ _ g
  Step-AllGood (receives i) g = take_at-AllGood i _ _ g

  -- In every interleaving of subscriptions, items, receives and unsubscriptions, the channel of a
  -- subscriber holds at most 100 items, and a subscriber that was never too slow has been sent every
  -- item that was streamed since its subscription, in order.
  pub Reach-AllGood :
      {b : Broadcaster A} {since : List (List A)} {c : Broadcaster A} {l : List (List A)}
      → AllGood since b.subs
      → Reach b since c l
      → AllGood l c.subs
  Reach-AllGood g here = g
  Reach-AllGood g (next r step) = Step-AllGood step (Reach-AllGood g r)
