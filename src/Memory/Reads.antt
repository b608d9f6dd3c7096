-- ===== src/Memory/Reads.antt =====
-- The reads of the in-memory backend show the states of the specification.
use harikube.Common.{
  ℕ, ◌≤◌, Bytes, Bool, true, false, ◌&&◌, none, List, [], ◌≡◌, refl, ap, sym, ◌∙◌, arith, last?,
  keep, ltb, Bool-cases, inl, inr, if◌then◌else◌,
}
use harikube.Api.{KeyValue}
use harikube.Memory.{Memory, latest, at_revision, entry_at, list}
use harikube.Memory.Map.{OrderedMap}
use harikube.Memory.Entries.{Entry, shown, at_revision_from}
use harikube.Memory.History.{state_at, live-at_revision, live-latest}
use harikube.Memory.Spec.{Spec, read_revision}
use harikube.Memory.Writes.{Refines}
use harikube.Memory.Listing.{listed, shows, limited, Single, loop-listed, vis}
use harikube.Memory.Shows.{
  find_kv, head?, IsListing, Readable, shown-live, shown-Single, has_key, has_key-lookup,
  has_key-keep, Ascending-keep, shows-find, shows-AscendingKv, state_at-key,
}

module _ {B : OrderedMap (List Entry)} {s : Spec} {n : ℕ} {m : Memory B} (R : Refines s n m) where
  compacted_le : m.compact ≤ s.compacted
  compacted_le = omega (arith, R.compact)

  vis-now :
      (keys_only : Bool) (r : ℕ) (k : Bytes)
      → ltb 0 r ≡ false
      → vis m r keys_only k ≡ shown keys_only (state_at s.history (read_revision r s) k)
  unfolding entry_at
  vis-now keys_only r k none_given = rw none_given (
      shown-live keys_only (latest m k)
      ∙ ap (shown keys_only)
          (live-latest R.represents k ∙ ap (λ x. state_at s.history x k) R.represents.current))

  pub vis-state :
      (keys_only : Bool) (r : ℕ) (k : Bytes)
      → Readable s r
      → vis m r keys_only k ≡ shown keys_only (state_at s.history (read_revision r s) k)
  unfolding entry_at
  vis-state keys_only r k ok = elim (Bool-cases (ltb 0 r)) [
    | inl given ↦ rw given (
        shown-live keys_only (at_revision m k r)
        ∙ ap (shown keys_only) (live-at_revision R.represents r k (from_compacted ok given)))
    | inr none_given ↦ vis-now keys_only r k none_given
  ]
    where
      from_compacted : Readable s r → ltb 0 r ≡ true → m.compact ≤ r
      from_compacted (inl z) g = absurd (ground arith)
      from_compacted (inr b) g = omega (arith, R.compact)

  vis-Single :
      (keys_only : Bool) (r : ℕ) (k : Bytes) → Readable s r → Single k (vis m r keys_only k)
  vis-Single keys_only r k ok =
      rw (vis-state keys_only r k ok)
        (shown-Single keys_only k _ (λ e. state_at-key s.history (read_revision r s) k {e = e}))

  no_key :
      (r : ℕ) (keys_only : Bool) (k : Bytes)
      → has_key k (B.scan m.keys) ≡ false
      → vis m r keys_only k ≡ []
  unfolding entry_at latest at_revision at_revision_from last? shown
  no_key r keys_only k h =
      let absent : B.get m.keys k ≡ none =
        sym (B.lookup-scan m.keys k) ∙ has_key-lookup k (B.scan m.keys) h in
      rw absent
        (elim (Bool-cases (ltb 0 r)) [ inl given ↦ rw given | inr none_given ↦ rw none_given ])

  find_listed :
      (key end : Bytes) (r : ℕ) (keys_only : Bool) (k : Bytes)
      → Readable s r
      → find_kv k (shows (vis m r keys_only) (keep (λ e. listed key end e.0) (B.scan m.keys)))
        ≡ (if listed key end k then head? (vis m r keys_only k) else none)
  find_listed key end r keys_only k ok =
      shows-find (vis m r keys_only) (λ j. vis-Single keys_only r j ok) k
        (keep (λ e. listed key end e.0) (B.scan m.keys))
        (Ascending-keep (listed key end) (B.scan m.keys) (B.scan-Ascending m.keys))
      ∙ ap (λ b. if b then head? (vis m r keys_only k) else none)
          (has_key-keep k (listed key end) (B.scan m.keys))
      ∙ absent_or (has_key k (B.scan m.keys)) refl
    where
      absent_or :
          (b : Bool)
          → has_key k (B.scan m.keys) ≡ b
          → (if listed key end k && b then head? (vis m r keys_only k) else none)
            ≡ (if listed key end k then head? (vis m r keys_only k) else none)
      absent_or true p = ground arith
      absent_or false p = ground (arith, ap head? (no_key r keys_only k p))

  in_bounds :
      (r : ℕ)
      → Readable s r
      → ((ltb 0 r && ltb m.current r) ≡ false) × ((ltb 0 r && ltb r m.compact) ≡ false)
  in_bounds r (inl z) = (ground arith, ground arith)
  in_bounds r (inr b) = (ground (arith, R.represents.current), ground (arith, R.compact))

  pub list-limited :
      (key end : Bytes) (limit r : ℕ) (keys_only : Bool)
      → Readable s r
      → list key end limit r keys_only m ≡ (
        read_revision r s,
        limited limit (shows (vis m r keys_only) (keep (λ e. listed key end e.0) (B.scan m.keys))),
        none,
      )
  unfolding list
  list-limited key end limit r keys_only ok =
      let (not_future, not_compacted) = in_bounds r ok in
      rw (not_future, not_compacted, loop-listed m key end r keys_only limit, R.represents.current)

  -- Every listing, whatever its limit, is the beginning of one complete listing of the range.
  pub list-IsListing :
      (key end : Bytes) (r : ℕ) (keys_only : Bool)
      → Readable s r
      → (full : List KeyValue) × IsListing s key end r keys_only full
        × ((limit : ℕ)
            → list key end limit r keys_only m ≡ (read_revision r s, limited limit full, none))
  list-IsListing key end r keys_only ok = (
    shows (vis m r keys_only) (keep (λ e. listed key end e.0) (B.scan m.keys)),
    record {
      found = λ k.
          find_listed key end r keys_only k ok
          ∙ ap (λ v. if listed key end k then head? v else none) (vis-state keys_only r k ok);
      ascending =
          shows-AscendingKv (vis m r keys_only) (λ k. vis-Single keys_only r k ok)
            (keep (λ e. listed key end e.0) (B.scan m.keys))
            (Ascending-keep (listed key end) (B.scan m.keys) (B.scan-Ascending m.keys));
    },
    λ limit. list-limited key end limit r keys_only ok,
  )
