-- ===== src/Memory/Snapshots.antt =====
-- Reads at a past revision are not disturbed by what is written later.
use harikube.Common.{
  ℕ, suc, ◌+◌, ◌≤◌, ◌<◌, Bytes, bytes_eq, Bool, true, false, Option, none, some, List, [], ◌∷◌,
  ◌++◌, ◌≡◌, refl, ap, sym, ◌∙◌, ◌⊎◌, inl, inr, arith, length, length-append, keep, keep-append,
  append-nil, ltb, leb, ◌==◌, ◌||◌, Bool-cases,
}
use harikube.Memory
use harikube.Memory.{Memory}
use harikube.Memory.Map.{OrderedMap}
use harikube.Memory.Entries.{Entry, updated_entry, deleted_entry, head_of, shown}
use harikube.Memory.Rising.{upto}
use harikube.Memory.History.{key_history, state_at}
use harikube.Memory.Spec
use harikube.Memory.Spec.{Spec, now, append, create_over, update_over, delete_over, read_revision}
use harikube.Memory.Writes.{Refines}
use harikube.Memory.Gets.{get-Refines}
use harikube.Memory.Runs.{Call, create, update, delete, get, compact, call, spec_call, call-Refines}

state_at-append :
    (h : List Entry) (e : Entry) (r : ℕ) (k : Bytes)
    → r < e.revision
    → state_at (h ++ e ∷ []) r k ≡ state_at h r k
state_at-append h e r k lt = rw keep-append (
    unfold keep in
    (elim (Bool-cases (bytes_eq e.key k)) [
      | inl same ↦
          rw (same, keep-append)
            (unfold keep in ground (arith, append-nil (upto r (key_history k h))))
      | inr other ↦ rw (other, append-nil)
    ]))

-- What a call may do to the state: append one entry under the next revision, and raise the compact
-- revision.
record Grown (s s' : Spec) : Type 0 where
  grown :
      (s'.history ≡ s.history)
      ⊎ ((e : Entry) × (e.revision ≡ suc (now s)) × (s'.history ≡ s.history ++ e ∷ []))
  compacted : s.compacted ≤ s'.compacted

same-Grown : (s : Spec) → Grown s s
same-Grown s = record { grown = inl refl; compacted = omega arith }

append-Grown : (s : Spec) (e : Entry) → e.revision ≡ suc (now s) → Grown s (append s e)
append-Grown s e p = record { grown = inr (e, p, refl); compacted = omega arith }

update_over-Grown :
    (o : Option Entry) (key value : Bytes) (revision lease : ℕ) (s : Spec)
    → Grown s (update_over o key value revision lease s).0
unfolding update_over
update_over-Grown none key value revision lease s = same-Grown s
update_over-Grown (some e) key value revision lease s = elim (Bool-cases (e.revision == revision)) [
  | inl same ↦
      simp same (append-Grown s (updated_entry (now s + 1) key value lease e) (omega arith))
  | inr other ↦ simp other (same-Grown s)
]

delete_over-Grown :
    (o : Option Entry) (key : Bytes) (revision : ℕ) (s : Spec)
    → Grown s (delete_over o key revision s).0
unfolding delete_over
delete_over-Grown none key revision s = same-Grown s
delete_over-Grown (some e) key revision s =
    elim (Bool-cases (revision == 0 || e.revision == revision)) [
      | inl goes ↦ simp goes (append-Grown s (deleted_entry (now s + 1) key e) (omega arith))
      | inr stays ↦ simp stays (same-Grown s)
    ]

create_over-Grown :
    (o : Option Entry) (key value : Bytes) (lease : ℕ) (s : Spec)
    → Grown s (create_over o key value lease s).0
unfolding create_over
create_over-Grown none key value lease s = append-Grown s _ (omega arith)
create_over-Grown (some e) key value lease s = same-Grown s

spec_call-Grown : (c : Call) (s : Spec) → Grown s (spec_call c s).0
unfolding spec_call Spec.create Spec.update Spec.delete Spec.compact
spec_call-Grown (create key value lease) s = create_over-Grown _ key value lease s
spec_call-Grown (update key value revision lease) s = update_over-Grown _ key value revision lease s
spec_call-Grown (delete key revision) s = delete_over-Grown _ key revision s
spec_call-Grown (get key revision keys_only) s = same-Grown s
spec_call-Grown (compact revision) s = elim (Bool-cases (ltb (now s) revision)) [
  | inl future ↦ rw future (same-Grown s)
  | inr here ↦ elim (Bool-cases (leb revision s.compacted)) [
    | inl old ↦ rw (here, old) (same-Grown s)
    | inr new ↦ rw (here, new) (record { grown = inl refl; compacted = ground arith })
  ]
]

get_past :
    (s : Spec) (key : Bytes) (r : ℕ) (keys_only : Bool)
    → 0 < r
    → r ≤ now s
    → s.compacted ≤ r
    → Spec.get key r keys_only s ≡ head_of (r, shown keys_only (state_at s.history r key), none)
unfolding Spec.get
get_past s key r keys_only p q c =
    let given : ltb 0 r ≡ true = ground arith in
    let not_future : ltb (now s) r ≡ false = ground arith in
    let not_compacted : ltb r s.compacted ≡ false = ground arith in
    rw (given, not_future, not_compacted)

state_at-Grown :
    {s s' : Spec} (G : Grown s s') (r : ℕ) (k : Bytes)
    → r ≤ now s
    → (r ≤ now s') × (state_at s'.history r k ≡ state_at s.history r k)
state_at-Grown {s} {s'} G r k q = elim G.grown [
  | inl same ↦ (omega (arith, ap length same), ap (λ h. state_at h r k) same)
  | inr (e, p, longer) ↦ (
    omega (arith, ap length longer, length-append s.history (e ∷ [])),
    ap (λ h. state_at h r k) longer ∙ state_at-append s.history e r k (omega arith),
  )
]

-- A read of a revision that exists has the same answer before and after any other call, as long as
-- the revision is not compacted: a snapshot does not change.
pub snapshot_stable :
    {B : OrderedMap (List Entry)} {s : Spec} {n : ℕ} {m : Memory B}
    → Refines s n m
    → (c : Call) (key : Bytes) (r : ℕ) (keys_only : Bool) → 0 < r
    → r ≤ m.current
    → (spec_call c s).0.compacted ≤ r
    → Memory.get key r keys_only (call c m).0 ≡ Memory.get key r keys_only m
snapshot_stable {s = s} {m = m} R c key r keys_only p q u =
    let (n', R', e) = call-Refines R c in
    let G = spec_call-Grown c s in
    let q' : r ≤ now s = omega (arith, R.represents.current) in
    let (within, same) = state_at-Grown G r key q' in
    get-Refines R' key r keys_only
    ∙ get_past (spec_call c s).0 key r keys_only p within u
    ∙ ap (λ o. head_of (r, shown keys_only o, none)) same
    ∙ sym (get_past s key r keys_only p q' (omega (arith, G.compacted)))
    ∙ sym (get-Refines R key r keys_only)
