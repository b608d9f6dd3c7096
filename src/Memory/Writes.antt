-- ===== src/Memory/Writes.antt =====
-- The writes of the in-memory backend do what the specification says.
use harikube.Common.{
  ℕ, suc, ◌+◌, Bytes, false, Option, none, some, List, ◌≡◌, refl, ap, sym, ◌∙◌, arith, Option-cases,
  Bool-cases, inl, inr, ◌==◌,
}
use harikube.Memory
use harikube.Memory.{Memory, latest, append_entry}
use harikube.Memory.Map.{OrderedMap}
use harikube.Memory.Entries.{
  Entry, created_entry, updated_entry, deleted_entry, is_live, prev_revision_of,
}
use harikube.Memory.Rising.{live}
use harikube.Memory.History.{Represents, live-latest, append_entry-Represents, state_at}
use harikube.Memory.Spec
use harikube.Memory.Spec.{Spec, predecessor}

-- `m` stands for the state `s` of the specification, after `n` compactions.
pub record Refines {B : OrderedMap (List Entry)} (s : Spec) (n : ℕ) (m : Memory B) : Type 0 where
  pub represents : Represents s.history n m
  pub compact : m.compact ≡ s.compacted

module _ {B : OrderedMap (List Entry)} {s : Spec} {n : ℕ} {m : Memory B} (R : Refines s n m) where
  live-current : (k : Bytes) → live (latest m k) ≡ Spec.current_of s k
  unfolding Spec.current_of
  live-current k =
      live-latest R.represents k ∙ ap (λ r. state_at s.history r k) R.represents.current

  latest-predecessor : (k : Bytes) → prev_revision_of (latest m k) ≡ predecessor s k
  unfolding latest Spec.predecessor
  latest-predecessor k = rw (R.represents.hists k, R.compact)

  append-Refines :
      (e : Entry)
      → e.revision ≡ suc m.current
      → Refines (Spec.append s e) n (append_entry e (record m { current = e.revision }))
  append-Refines e p = record {
    represents = append_entry-Represents R.represents e p;
    compact = (unfold append_entry in R.compact);
  }

  -- The live entry of the specification, from the latest entry of the code.
  current_of-latest : (k : Bytes) {o : Option Entry} → latest m k ≡ o → Spec.current_of s k ≡ live o
  current_of-latest k e = sym (live-current k) ∙ ap live e

  now-current : Spec.now s ≡ m.current
  now-current = sym R.represents.current

  create-fresh :
      (key value : Bytes) (lease : ℕ)
      → is_live (latest m key) ≡ false
      → Spec.current_of s key ≡ none
      → Refines (Spec.create key value lease s).0 n (Memory.create key value lease m).0
        × ((Memory.create key value lease m).1 ≡ (Spec.create key value lease s).1)
  unfolding Memory.create Spec.create
  create-fresh key value lease dead absent =
      rw (dead, absent, now-current, ← latest-predecessor key)
        (append-Refines (created_entry (m.current + 1) key value lease _) (omega arith), refl)

  -- `Create` of a key with no live entry appends an entry of version 1 under the next revision;
  -- of a key with one it changes nothing and returns the current revision with the error.
  pub create-Refines :
      (key value : Bytes) (lease : ℕ)
      → Refines (Spec.create key value lease s).0 n (Memory.create key value lease m).0
        × ((Memory.create key value lease m).1 ≡ (Spec.create key value lease s).1)
  unfolding Memory.create Spec.create
  create-Refines key value lease = elim (Option-cases (latest m key)) [
    | inl e ↦ create-fresh key value lease (ap is_live e) (current_of-latest key e)
    | inr (e, p) ↦ elim (Bool-cases e.deleted) [
      | inl dead ↦ create-fresh key value lease (rw (p, dead)) (rw (current_of-latest key p, dead))
      | inr alive ↦ rw (p, current_of-latest key p, alive) (R, rw now-current)
    ]
  ]

  update-live :
      (key value : Bytes) (revision lease : ℕ) (e : Entry)
      → e.deleted ≡ false
      → latest m key ≡ some e
      → Spec.current_of s key ≡ some e
      → Refines
          (Spec.update key value revision lease s).0
          n
          (Memory.update key value revision lease m).0
        × ((Memory.update key value revision lease m).1
            ≡ (Spec.update key value revision lease s).1)
  unfolding Memory.update Spec.update
  update-live key value revision lease e alive p c = elim (Bool-cases (e.revision == revision)) [
    | inl same ↦
        simp (p, c, alive, same, now-current)
          (append-Refines (updated_entry (m.current + 1) key value lease e) (omega arith), refl)
    | inr other ↦ simp (p, c, alive, other, now-current) (R, refl)
  ]

  -- `Update` is a compare-and-swap on the revision of the live entry. It appends the new version
  -- under the next revision exactly when there is a live entry with the given revision. Otherwise
  -- it changes nothing and returns the live entry, if there is one.
  pub update-Refines :
      (key value : Bytes) (revision lease : ℕ)
      → Refines
          (Spec.update key value revision lease s).0
          n
          (Memory.update key value revision lease m).0
        × ((Memory.update key value revision lease m).1
            ≡ (Spec.update key value revision lease s).1)
  unfolding Memory.update Spec.update
  update-Refines key value revision lease = elim (Option-cases (latest m key)) [
    | inl e ↦ simp (e, current_of-latest key e, now-current) (R, refl)
    | inr (e, p) ↦ elim (Bool-cases e.deleted) [
      | inl dead ↦ simp (p, current_of-latest key p, dead, now-current) (R, refl)
      | inr alive ↦
          update-live key value revision lease e alive p (current_of-latest key p ∙ (simp alive))
    ]
  ]

  delete-live :
      (key : Bytes) (revision : ℕ) (e : Entry)
      → e.deleted ≡ false
      → latest m key ≡ some e
      → Spec.current_of s key ≡ some e
      → Refines (Spec.delete key revision s).0 n (Memory.delete key revision m).0
        × ((Memory.delete key revision m).1 ≡ (Spec.delete key revision s).1)
  unfolding Memory.delete Spec.delete
  delete-live key revision e alive p c = elim (Bool-cases (revision == 0)) [
    | inl any ↦ simp (p, c, alive, any, now-current) (append-Refines done (omega arith), refl)
    | inr given ↦ elim (Bool-cases (e.revision == revision)) [
      | inl same ↦
          simp (p, c, alive, given, same, now-current) (append-Refines done (omega arith), refl)
      | inr other ↦ simp (p, c, alive, given, other, now-current) (R, refl)
    ]
  ]
    where
      done : Entry
      done = deleted_entry (m.current + 1) key e

  -- `Delete` appends a tombstone under the next revision exactly when there is a live entry, and the
  -- given revision is 0 or the entry's. Otherwise it changes nothing and returns the live entry, if
  -- there is one.
  pub delete-Refines :
      (key : Bytes) (revision : ℕ)
      → Refines (Spec.delete key revision s).0 n (Memory.delete key revision m).0
        × ((Memory.delete key revision m).1 ≡ (Spec.delete key revision s).1)
  unfolding Memory.delete Spec.delete
  delete-Refines key revision = elim (Option-cases (latest m key)) [
    | inl e ↦ simp (e, current_of-latest key e, now-current) (R, refl)
    | inr (e, p) ↦ elim (Bool-cases e.deleted) [
      | inl dead ↦ simp (p, current_of-latest key p, dead, now-current) (R, refl)
      | inr alive ↦ delete-live key revision e alive p (current_of-latest key p ∙ (simp alive))
    ]
  ]
