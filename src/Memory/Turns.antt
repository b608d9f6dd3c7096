-- ===== src/Memory/Turns.antt =====
-- The turns of a watch goroutine of the in-memory backend keep the invariant.
use Prim.Native.Nat.{max}
use harikube.Common.{
  ℕ, zero, suc, ◌+◌, ◌≤◌, Bytes, Option, some, List, [], ◌∷◌, ◌++◌, map, ◌≡◌, refl, ap, sym, ◌∙◌,
  ◌⊎◌, inl, inr, arith, length, drop, take, drop-take-append, take_of_length-le, keep, keep-append,
  ◌==◌, Bool-cases, subst, append_assoc, append-nil,
}
use mathlib.Core.List.{map-append}
use harikube.Api.{Event, key_in_range}
use harikube.Memory.Map.{OrderedMap}
use harikube.Memory.Entries.{Entry}
use harikube.Memory.History.{Dense}
use harikube.Memory.Watching.{
  Watcher, Stage, grab, scan, send, wait, unread, batch_of, to_event, last_seen, after_scan,
  watch_at,
}
use harikube.Memory.WatchLaws.{unread-drop}
use harikube.Memory.Interleaving.{notice, entry_notice, notices, pending, owed, Awake, System, Inv}

last_seen-Dense :
    (b seen : ℕ) (l : List Entry) → Dense b l → seen ≡ b → last_seen seen l ≡ b + length l
unfolding last_seen
last_seen-Dense b seen [] d p = omega arith
last_seen-Dense b seen (e ∷ l) d p = last_seen-Dense (suc b) e.revision l d.1 d.0 ∙ (omega arith)

-- `lastSeen` after a pass over the rest of the history
last_seen-drop :
    (b k seen : ℕ) (l : List Entry)
    → Dense b l
    → seen ≡ b + k
    → last_seen seen (drop k l) ≡ max seen (b + length l)
unfolding drop
last_seen-drop b zero seen l d p = last_seen-Dense b seen l d (omega arith) ∙ (omega arith)
last_seen-drop b (suc k) seen [] d p = unfold last_seen in omega arith
last_seen-drop b (suc k) seen (e ∷ l) d p =
    last_seen-drop (suc b) k seen l d.1 (omega arith) ∙ (omega arith)

notices-append :
    (sent : List (List Event)) (batch : List Event)
    → notices (sent ++ batch ∷ []) ≡ notices sent ++ map notice batch
notices-append [] batch = append-nil (map notice batch)
notices-append (b ∷ sent) batch =
    rw (notices-append sent batch)
      (sym (append_assoc (map notice b) (notices sent) (map notice batch)))

pending-after_scan :
    (gen : ℕ) (batch : List Event) → pending (after_scan gen batch) ≡ map notice batch
unfolding after_scan
pending-after_scan gen [] = refl
pending-after_scan gen (e ∷ batch) = refl

notice-to_event :
    (prev : ℕ → Option Entry) (l : List Entry)
    → map notice (map (to_event prev) l) ≡ map entry_notice l
unfolding to_event
notice-to_event prev [] = refl
notice-to_event prev (e ∷ l) = ap (◌∷◌ (entry_notice e)) (notice-to_event prev l)

-- A pass pays what is owed for the rest of the history.
owed-pass :
    (key end : Bytes) (start seen : ℕ) (h : List Entry)
    → start ≤ seen
    → owed key end start seen h
        ++ map entry_notice (keep (λ e. key_in_range key end e.key) (drop seen h))
      ≡ owed key end start (max seen (length h)) h
owed-pass key end start seen h le =
    sym (map-append entry_notice _ _)
    ∙ ap (map entry_notice) (
        sym (keep-append (λ e. key_in_range key end e.key) (drop start (take seen h)) (drop seen h))
        ∙ ap (keep (λ e. key_in_range key end e.key)) (
            drop-take-append start seen h le
            ∙ ap (drop start) (sym (take_of_length-le h (omega arith)))))

module _ {B : OrderedMap (List Entry)} {key end : Bytes} {start : ℕ} {h : List Entry} {s : System B}
    (I : Inv key end start h s) where
  pub delivered_at :
      (g : Stage)
      → s.watcher.stage ≡ g
      → notices s.watcher.sent ++ pending g ≡ owed key end start s.watcher.seen h
  delivered_at g p =
      subst (λ x. notices s.watcher.sent ++ pending x ≡ owed key end start s.watcher.seen h) p
        I.delivered

  pub Awake-at :
      (g : Stage) → s.watcher.stage ≡ g → Awake s.memory.notify (length h) s.watcher.seen g
  Awake-at g p = subst (Awake s.memory.notify (length h) s.watcher.seen) p I.awake

  unread-rest : unread s.memory s.watcher.seen ≡ drop s.watcher.seen h
  unread-rest =
      unread-drop I.represents s.watcher.seen ∙ ap (λ k. drop k h) (omega (arith, I.uncompacted))

  batch-notices :
      map notice (batch_of s.memory s.watcher.key s.watcher.end s.watcher.seen)
      ≡ map entry_notice (keep (λ e. key_in_range key end e.key) (drop s.watcher.seen h))
  unfolding batch_of
  batch-notices = rw (I.key_eq, I.end_eq, unread-rest) (notice-to_event s.memory.prev _)

  stepped :
      {w w' : Watcher}
      → some w ≡ some w'
      → Inv key end start h (record s { watcher = w })
      → Inv key end start h (record s { watcher = w' })
  stepped q J = subst (λ x. Inv key end start h (record s { watcher = x })) (some_eq q) J
    where
      some_eq : {w w' : Watcher} → some w ≡ some w' → w ≡ w'
      some_eq q = cc

  seen-scan :
      last_seen s.watcher.seen (unread s.memory s.watcher.seen) ≡ max s.watcher.seen (length h)
  seen-scan =
      ap (last_seen s.watcher.seen) unread-rest
      ∙ last_seen-drop 0 s.watcher.seen s.watcher.seen h I.represents.dense (omega arith)
      ∙ (omega arith)

  scan-Inv :
      (gen : ℕ)
      → s.watcher.stage ≡ scan gen
      → Inv key end start h (record s {
        watcher = record s.watcher {
          seen = last_seen s.watcher.seen (unread s.memory s.watcher.seen);
          stage = after_scan gen (batch_of s.memory s.watcher.key s.watcher.end s.watcher.seen);
        };
      })
  scan-Inv gen p = record {
    represents = I.represents;
    uncompacted = I.uncompacted;
    key_eq = I.key_eq;
    end_eq = I.end_eq;
    from = omega (arith, seen-scan, I.from);
    seen = elim I.seen [
      | inl at_start ↦
          reached (last_seen s.watcher.seen (unread s.memory s.watcher.seen)) at_start seen-scan
      | inr within ↦ inr (omega (arith, seen-scan))
    ];
    delivered =
        ap (λ x. notices s.watcher.sent ++ x) (pending-after_scan gen _ ∙ batch-notices)
        ∙ ap
            (λ x.
              x
              ++ map entry_notice (keep (λ e. key_in_range key end e.key) (drop s.watcher.seen h)))
            (sym (append-nil (notices s.watcher.sent)) ∙ delivered_at (scan gen) p)
        ∙ owed-pass key end start s.watcher.seen h I.from
        ∙ ap (λ k. owed key end start k h) (sym seen-scan);
    awake =
        caught_up (batch_of s.memory s.watcher.key s.watcher.end s.watcher.seen)
          (Awake-at (scan gen) p);
  }
    where
      reached :
          (k : ℕ)
          → s.watcher.seen ≡ start
          → k ≡ max s.watcher.seen (length h)
          → (k ≡ start) ⊎ (k ≤ length h)
      reached k a b = omega arith

      caught_up :
          (batch : List Event)
          → gen ≤ s.memory.notify
          → Awake s.memory.notify
              (length h)
              (last_seen s.watcher.seen (unread s.memory s.watcher.seen))
              (after_scan gen batch)
      caught_up [] a = unfold after_scan in (a, λ q. omega (arith, seen-scan))
      caught_up (e ∷ batch) a = unfold after_scan in (a, λ q. omega (arith, seen-scan))

  -- A step of the goroutine from any stage.
  pub turn-Inv :
      (g : Stage) {w : Watcher}
      → s.watcher.stage ≡ g
      → watch_at s.memory s.watcher g ≡ some w
      → Inv key end start h (record s { watcher = w })
  unfolding watch_at
  turn-Inv grab p q = stepped q (record {
    represents = I.represents;
    uncompacted = I.uncompacted;
    key_eq = I.key_eq;
    end_eq = I.end_eq;
    from = I.from;
    seen = I.seen;
    delivered = delivered_at grab p;
    awake = omega arith;
  })
  turn-Inv (scan gen) p q = stepped q (scan-Inv gen p)
  turn-Inv (send gen batch) p q = stepped q (record {
    represents = I.represents;
    uncompacted = I.uncompacted;
    key_eq = I.key_eq;
    end_eq = I.end_eq;
    from = I.from;
    seen = I.seen;
    delivered = rw (notices-append, append-nil) (delivered_at (send gen batch) p);
    awake = Awake-at (send gen batch) p;
  })
  turn-Inv (wait gen) {w} p q = elim (Bool-cases (gen == s.memory.notify)) [
    | inl asleep ↦ absurd (cc (rw asleep at q))
    | inr woken ↦ stepped (rw woken at q) (record {
      represents = I.represents;
      uncompacted = I.uncompacted;
      key_eq = I.key_eq;
      end_eq = I.end_eq;
      from = I.from;
      seen = I.seen;
      delivered = delivered_at (wait gen) p;
      awake = tt;
    })
  ]
