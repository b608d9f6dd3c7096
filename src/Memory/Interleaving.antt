-- ===== src/Memory/Interleaving.antt =====
-- A watch goroutine of the in-memory backend among writers: every interleaving of the writes with
-- the steps of the goroutine, before any compaction.
use harikube.Common.{
  ℕ, suc, ◌+◌, ◌≤◌, Bytes, Bool, true, false, Option, some, List, [], ◌∷◌, ◌++◌, map, ◌≡◌, refl,
  sym, ◌∙◌, ◌⊎◌, inl, inr, arith, length, length-append, drop, take, drop-take, take-append_le,
  keep, ◌==◌, Bool-cases, Option-cases, not, ◌&&◌,
}
use harikube.Api.{Event, KeyValue, key_in_range}
use harikube.Memory
use harikube.Memory.{Memory, append_entry, latest}
use harikube.Memory.Runs.{Call, create, update, delete, get, compact, call}
use harikube.Memory.Map.{OrderedMap}
use harikube.Memory.Entries.{
  Entry, is_live, created_entry, updated_entry, deleted_entry, prev_revision_of, to_key_value,
}
use harikube.Memory.History.{Represents, append_entry-Represents}
use harikube.Memory.Watching.{Watcher, Stage, grab, scan, send, wait, watch_step}

-- What an event says apart from the previous value.
abbrev pub Notice : Type 0
Notice = Bool × Bool × Option KeyValue

abbrev pub notice : Event → Notice
notice e = (e.created, e.deleted, e.kv)

abbrev pub entry_notice : Entry → Notice
entry_notice e = (e.created, e.deleted, some (to_key_value e))

abbrev pub notices : List (List Event) → List Notice
notices [] = []
notices (batch ∷ batches) = map notice batch ++ notices batches

-- The batch that is collected and not sent yet.
abbrev pub pending : Stage → List Notice
pending grab = []
pending (scan gen) = []
pending (send gen batch) = map notice batch
pending (wait gen) = []

-- What the watch owes for the entries from `a` to `b` of the history.
abbrev pub owed : Bytes → Bytes → ℕ → ℕ → List Entry → List Notice
owed key end a b h = map entry_notice (keep (λ e. key_in_range key end e.key) (drop a (take b h)))

-- Where a goroutine that is asleep on the current channel must have read everything.
abbrev pub Awake : ℕ → ℕ → ℕ → Stage → Type 0
Awake notify total seen grab = Unit
Awake notify total seen (scan gen) = gen ≤ notify
Awake notify total seen (send gen batch) = (gen ≤ notify) × (gen ≡ notify → total ≤ seen)
Awake notify total seen (wait gen) = (gen ≤ notify) × (gen ≡ notify → total ≤ seen)

pub record System (B : OrderedMap (List Entry)) : Type 0 where
  pub memory : Memory B
  pub watcher : Watcher

abbrev pub is_compact : Call → Bool
is_compact (compact revision) = true
is_compact _ = false

module _ {B : OrderedMap (List Entry)} where
  -- A call of another method, or one step of the goroutine.
  pub data Step (s : System B) : System B → Type 0 where
    write : (c : Call) → is_compact c ≡ false → Step s (record s { memory = (call c s.memory).0 })
    turn :
        {w : Watcher} → watch_step s.memory s.watcher ≡ some w → Step s (record s { watcher = w })

  pub data Reach (s : System B) : System B → Type 0 where
    here : Reach s s
    next : {t u : System B} → Reach s t → Step t u → Reach s u

  -- `start` is what the watch had seen when it began, and `h` the entries appended so far.
  pub record Inv (key end : Bytes) (start : ℕ) (h : List Entry) (s : System B) : Type 0 where
    pub represents : Represents h 0 s.memory
    pub uncompacted : s.memory.compact ≡ 0
    pub key_eq : s.watcher.key ≡ key
    pub end_eq : s.watcher.end ≡ end
    pub from : start ≤ s.watcher.seen
    pub seen : (s.watcher.seen ≡ start) ⊎ (s.watcher.seen ≤ length h)
    pub delivered :
        notices s.watcher.sent ++ pending s.watcher.stage ≡ owed key end start s.watcher.seen h
    pub awake : Awake s.memory.notify (length h) s.watcher.seen s.watcher.stage

  appended : Entry → Memory B → Memory B
  appended e m = append_entry e (record m { current = e.revision })

  -- Every call but `Compact` leaves the state alone, or appends one entry under the next revision.
  abbrev Written : Memory B → Memory B → Type 0
  Written m m' = (m' ≡ m) ⊎ ((e : Entry) × (e.revision ≡ suc m.current) × (m' ≡ appended e m))

  call-Written : (c : Call) (m : Memory B) → is_compact c ≡ false → Written m (call c m).0
  unfolding call Memory.create Memory.update Memory.delete appended
  call-Written (create key value lease) m h = elim (Bool-cases (is_live (latest m key))) [
    | inl alive ↦ inl (rw alive)
    | inr dead ↦ inr (
      created_entry (m.current + 1) key value lease (prev_revision_of (latest m key)),
      omega arith,
      rw dead,
    )
  ]
  call-Written (update key value revision lease) m h = elim (Option-cases (latest m key)) [
    | inl e ↦ inl (simp e)
    | inr (e, p) ↦ elim (Bool-cases e.deleted) [
      | inl dead ↦ inl (simp (p, dead))
      | inr alive ↦ elim (Bool-cases (e.revision == revision)) [
        | inl same ↦
            inr
              (updated_entry (m.current + 1) key value lease e, omega arith, simp (p, alive, same))
        | inr other ↦ inl (simp (p, alive, other))
      ]
    ]
  ]
  call-Written (delete key revision) m h = elim (Option-cases (latest m key)) [
    | inl e ↦ inl (simp e)
    | inr (e, p) ↦ elim (Bool-cases e.deleted) [
      | inl dead ↦ inl (simp (p, dead))
      | inr alive ↦ elim (Bool-cases (not (revision == 0) && not (e.revision == revision))) [
        | inl other ↦ inl (simp (p, alive, other))
        | inr same ↦ inr (deleted_entry (m.current + 1) key e, omega arith, simp (p, alive, same))
      ]
    ]
  ]
  call-Written (get key revision keys_only) m h = inl refl
  call-Written (compact revision) m h = absurd (cc h)

owed-append :
    (key end : Bytes) (start seen : ℕ) (h : List Entry) (e : Entry)
    → (seen ≡ start) ⊎ (seen ≤ length h)
    → owed key end start seen (h ++ e ∷ []) ≡ owed key end start seen h
owed-append key end start seen h e (inl at_start) =
    rw (at_start, drop-take start (h ++ e ∷ []), drop-take start h)
owed-append key end start seen h e (inr within) = rw (take-append_le seen h (e ∷ []) within)

module _ {B : OrderedMap (List Entry)} {key end : Bytes} {start : ℕ} {h : List Entry}
    {s : System B} where
  append-Inv :
      (e : Entry)
      → e.revision ≡ suc s.memory.current
      → Inv key end start h s
      → Inv key end start (h ++ e ∷ []) (record s { memory = appended e s.memory })
  unfolding append_entry appended
  append-Inv e p I = record {
    represents = append_entry-Represents I.represents e p;
    uncompacted = I.uncompacted;
    key_eq = I.key_eq;
    end_eq = I.end_eq;
    from = I.from;
    seen = elim I.seen [
      | inl at_start ↦ inl at_start
      | inr within ↦ inr (omega (arith, length-append h (e ∷ [])))
    ];
    delivered = I.delivered ∙ sym (owed-append key end start s.watcher.seen h e I.seen);
    awake = still s.watcher.stage I.awake;
  }
    where
      still :
          (g : Stage)
          → Awake s.memory.notify (length h) s.watcher.seen g
          → Awake (s.memory.notify + 1) (length (h ++ e ∷ [])) s.watcher.seen g
      still grab a = tt
      still (scan gen) a = omega arith
      still (send gen batch) a = (omega arith, λ q. absurd (omega arith))
      still (wait gen) a = (omega arith, λ q. absurd (omega arith))

  pub write-Inv :
      (c : Call)
      → is_compact c ≡ false
      → Inv key end start h s
      → (h' : List Entry) × Inv key end start h' (record s { memory = (call c s.memory).0 })
  write-Inv c w I = by_effect (call-Written c s.memory w)
    where
      by_effect :
          {m : Memory B}
          → Written s.memory m
          → (h' : List Entry) × Inv key end start h' (record s { memory = m })
      by_effect (inl same) = (h, rw same I)
      by_effect (inr (e, p, q)) = (h ++ e ∷ [], rw q (append-Inv e p I))
