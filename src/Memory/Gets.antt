-- ===== src/Memory/Gets.antt =====
-- `Get` of the in-memory backend, and the read that is refused.
use harikube.Common.{
  ℕ, ◌<◌, Bytes, bytes_eq_iff, bytes_eq_refl, bytes_lt_irrefl, Bool, true, false, ◌&&◌, none, some,
  List, [], ◌∷◌, ◌≡◌, refl, ap, sym, ◌∙◌, arith, take, ltb, Bool-cases, inl, inr, ◌⊎◌,
  if◌then◌else◌,
}
use harikube.Api.{KeyValue, Error}
use harikube.Memory
use harikube.Memory.Entries
use harikube.Memory.{Memory, list}
use harikube.Memory.Map.{OrderedMap}
use harikube.Memory.Entries.{Entry, shown, head_of}
use harikube.Memory.Spec
use harikube.Memory.Spec.{Spec, read_revision}
use harikube.Memory.Writes.{Refines}
use harikube.Memory.Listing.{listed}
use harikube.Memory.Shows.{IsListing, Readable, head?}
use harikube.Memory.Reads.{list-IsListing}

head_of-head? : (r : ℕ) (kvs : List KeyValue) → head_of (r, kvs, none) ≡ (r, head? kvs, none)
unfolding head_of
head_of-head? r [] = refl
head_of-head? r (kv ∷ kvs) = refl

head?-take : (kvs : List KeyValue) → head? (take 1 kvs) ≡ head? kvs
unfolding take
head?-take [] = refl
head?-take (kv ∷ kvs) = refl

-- The range of `Get` is the key alone.
listed_self : (key : Bytes) → listed key [] key ≡ true
unfolding listed Entries.past_end
listed_self key = ground (arith, bytes_lt_irrefl key, bytes_eq_refl key, bytes_eq_refl [])

listed_only : (key k : Bytes) → listed key [] k ≡ true → k ≡ key
unfolding listed Entries.past_end
listed_only key k h = ground (arith, bytes_eq_iff k key, bytes_eq_refl [])

module _ {s : Spec} {key : Bytes} {r : ℕ} {keys_only : Bool} where
  -- A listing of one key begins with it, or is empty.
  head?-IsListing :
      (kvs : List KeyValue)
      → IsListing s key [] r keys_only kvs
      → head? kvs
        ≡ head? (shown keys_only (Memory.History.state_at s.history (read_revision r s) key))
  head?-IsListing [] l = ground (arith, l.found key, listed_self key)
  head?-IsListing (kv ∷ kvs) l =
      let found_self = l.found kv.key in
      let found_key = l.found key in
      ground (
        arith,
        found_self,
        found_key,
        listed_self key,
        listed_only key kv.key,
        bytes_eq_refl kv.key,
        bytes_eq_iff kv.key key,
      )

module _ {B : OrderedMap (List Entry)} {s : Spec} {n : ℕ} {m : Memory B} (R : Refines s n m) where
  -- List refuses a revision above the current one with `ErrFutureRev`, and one below the compact
  -- revision with `ErrCompacted`.
  pub list_refused :
      (key end : Bytes) (limit r : ℕ) (keys_only : Bool)
      → 0 < r
      → (Spec.now s < r) ⊎ (r < s.compacted)
      → list key end limit r keys_only m
        ≡ (Spec.now s, [], some (if ltb (Spec.now s) r then Error.future_rev else Error.compacted))
  unfolding list
  list_refused key end limit r keys_only p (inl future) =
      ground (arith, R.represents.current, R.compact)
  list_refused key end limit r keys_only p (inr old) =
      ground (arith, R.represents.current, R.compact, R.represents.compact_le)

  get-Readable :
      (key : Bytes) (r : ℕ) (keys_only : Bool)
      → Readable s r
      → Memory.get key r keys_only m ≡ (
        read_revision r s,
        head? (shown keys_only (Memory.History.state_at s.history (read_revision r s) key)),
        none,
      )
  unfolding Memory.get
  get-Readable key r keys_only ok =
      let (full, l, lists) = list-IsListing R key [] r keys_only ok in
      ap head_of (lists 1)
      ∙ head_of-head? (read_revision r s) (take 1 full)
      ∙ ap (λ o. (read_revision r s, o, none)) (head?-take full ∙ head?-IsListing full l)

  get_refused :
      (key : Bytes) (r : ℕ) (keys_only : Bool) (e : Error)
      → list key [] 1 r keys_only m ≡ (Spec.now s, [], some e)
      → Memory.get key r keys_only m ≡ (Spec.now s, none, some e)
  unfolding Memory.get head_of
  get_refused key r keys_only e p = ap head_of p

  pub get-Refines :
      (key : Bytes) (r : ℕ) (keys_only : Bool)
      → Memory.get key r keys_only m ≡ Spec.get key r keys_only s
  unfolding Spec.get
  get-Refines key r keys_only = elim (Bool-cases (ltb 0 r && ltb (Spec.now s) r)) [
    | inl future ↦ rw future (
        let above : ltb (Spec.now s) r ≡ true = ground arith in
        get_refused key r keys_only Error.future_rev
          (list_refused key [] 1 r keys_only (ground arith) (inl (ground arith)) ∙ (rw above refl)))
    | inr here ↦ elim (Bool-cases (ltb 0 r && ltb r s.compacted)) [
      | inl old ↦
          let within : ltb (Spec.now s) r ≡ false = ground arith in
          rw (here, old)
            (get_refused key r keys_only Error.compacted (
              list_refused key [] 1 r keys_only (ground arith) (inr (ground arith))
              ∙ (rw within refl)))
      | inr new ↦
          rw (here, new)
            (get-Readable key r keys_only (readable here new)
              ∙ sym (head_of-head? (read_revision r s) _))
    ]
  ]
    where
      readable :
          (ltb 0 r && ltb (Spec.now s) r) ≡ false
          → (ltb 0 r && ltb r s.compacted) ≡ false
          → Readable s r
      readable p q = elim (Bool-cases (ltb 0 r)) [
        | inl given ↦ inr (record { from = ground arith; to = ground arith })
        | inr none_given ↦ inl (ground arith)
      ]
