-- ===== src/Memory/Delivery.antt =====
-- What a watch of the in-memory backend delivers, whatever the interleaving with the writers.
use harikube.Common.{
  ℕ, Bytes, none, List, ◌++◌, map, ◌≡◌, refl, ap, sym, ◌∙◌, inl, inr, arith, drop, drop-take,
  take_of_length-le, keep, ◌==◌, Bool-cases, append-nil,
}
use harikube.Api.{key_in_range}
use harikube.Memory.{Memory}
use harikube.Memory.Map.{OrderedMap}
use harikube.Memory.Entries.{Entry}
use harikube.Memory.History.{Represents}
use harikube.Memory.Watching.{
  Stage, grab, scan, send, wait, watch_at, watch_step, seen_at, new_watcher,
}
use harikube.Memory.Interleaving.{
  System, Reach, here, next, write, turn, Inv, write-Inv, notices, pending, owed, entry_notice,
}
use harikube.Memory.Turns.{turn-Inv, delivered_at, Awake-at}

-- Whatever the writers and the goroutine do, in any order.
pub Reach-Inv :
    {B : OrderedMap (List Entry)} {key end : Bytes} {start : ℕ} {h : List Entry} {s t : System B}
    → Inv key end start h s
    → Reach s t
    → (h' : List Entry) × Inv key end start h' t
Reach-Inv {h = h} I here = (h, I)
Reach-Inv I (next r (write c w)) = let (h', J) = Reach-Inv I r in write-Inv c w J
Reach-Inv I (next r (turn q)) =
    let (h', J) = Reach-Inv I r in (h', turn-Inv J _ refl (unfold watch_step in q))

module _ {B : OrderedMap (List Entry)} {m : Memory B} {h : List Entry} (R : Represents h 0 m)
    (fresh : m.compact ≡ 0) (key end : Bytes) (start : ℕ) {t : System B}
    (reach : Reach (record { memory = m; watcher = new_watcher key end start m.current }) t) where
  begin-Inv :
      Inv key end
        (seen_at start m.current)
        h
        (record { memory = m; watcher = new_watcher key end start m.current })
  begin-Inv = record {
    represents = R;
    uncompacted = fresh;
    key_eq = refl;
    end_eq = refl;
    from = omega arith;
    seen = inl refl;
    delivered = rw (drop-take (seen_at start m.current) h) (unfold keep in refl);
    awake = tt;
  }

  -- At any time the events sent, with the batch that waits to be sent, are those of the entries of
  -- the range from the start on up to the last one seen: in order, none lost and none repeated.
  pub delivered_so_far :
      (h' : List Entry) × Represents h' 0 t.memory
      × (notices t.watcher.sent ++ pending t.watcher.stage
          ≡ owed key end (seen_at start m.current) t.watcher.seen h')
  delivered_so_far = let (h', J) = Reach-Inv begin-Inv reach in (h', J.represents, J.delivered)

  blocked-delivered :
      {h' : List Entry}
      → Inv key end (seen_at start m.current) h' t
      → (g : Stage) → t.watcher.stage ≡ g
      → watch_at t.memory t.watcher g ≡ none
      → notices t.watcher.sent
        ≡ map entry_notice
            (keep (λ e. key_in_range key end e.key) (drop (seen_at start m.current) h'))
  unfolding watch_at
  blocked-delivered J grab p q = absurd (cc q)
  blocked-delivered J (scan gen) p q = absurd (cc q)
  blocked-delivered J (send gen batch) p q = absurd (cc q)
  blocked-delivered {h'} J (wait gen) p q = elim (Bool-cases (gen == t.memory.notify)) [
    | inl asleep ↦
        sym (append-nil (notices t.watcher.sent))
        ∙ delivered_at J (wait gen) p
        ∙ ap
            (λ l.
              map entry_notice
                (keep (λ e. key_in_range key end e.key) (drop (seen_at start m.current) l)))
            (take_of_length-le h' ((Awake-at J (wait gen) p).1 (ground arith)))
    | inr woken ↦ absurd (cc (rw woken at q))
  ]

  -- No wakeup is lost: a goroutine that is blocked has been sent every event since its start.
  pub blocked_is_complete :
      watch_step t.memory t.watcher ≡ none
      → (h' : List Entry) × Represents h' 0 t.memory
        × (notices t.watcher.sent
            ≡ map entry_notice
                (keep (λ e. key_in_range key end e.key) (drop (seen_at start m.current) h')))
  unfolding watch_step
  blocked_is_complete q =
      let (h', J) = Reach-Inv begin-Inv reach in
      (h', J.represents, blocked-delivered J t.watcher.stage refl q)
