-- ===== src/Memory/Shows.antt =====
-- What a listing of the in-memory backend promises, and that the pairs shown for keys in order
-- keep it.
use harikube.Common.{
  ℕ, ◌≤◌, Bytes, bytes_eq, bytes_eq_iff, bytes_lt, bytes_lt_trans, Bool, true, false, ◌&&◌, Option,
  none, some, List, [], ◌∷◌, ◌++◌, ◌≡◌, refl, ap, sym, ◌∙◌, arith, last?, last?-nil, keep, leb,
  Bool-cases, inl, inr, ◌⊎◌, if◌then◌else◌, subst,
}
use harikube.Api.{KeyValue}
use harikube.Memory.Map.{Above, Ascending, lookup}
use harikube.Memory.Entries.{Entry, shown}
use harikube.Memory.Rising.{live, upto, last?-cons}
use harikube.Memory.History.{state_at}
use harikube.Memory.Spec
use harikube.Memory.Spec.{Spec, read_revision}
use harikube.Memory.Listing.{listed, shows, Single}

-- The pair under a key.
abbrev pub find_kv : Bytes → List KeyValue → Option KeyValue
find_kv k [] = none
find_kv k (kv ∷ kvs) = if bytes_eq kv.key k then some kv else find_kv k kvs

abbrev pub head? : List KeyValue → Option KeyValue
head? [] = none
head? (kv ∷ kvs) = some kv

abbrev pub AboveKv : Bytes → List KeyValue → Type 0
AboveKv k [] = Unit
AboveKv k (kv ∷ kvs) = bytes_lt k kv.key ≡ true

abbrev pub AscendingKv : List KeyValue → Type 0
AscendingKv [] = Unit
AscendingKv (kv ∷ kvs) = AboveKv kv.key kvs × AscendingKv kvs

-- All that `List` promises of a range when there is no limit: exactly the live entries of the
-- range at the revision, each once, in the order of their keys.
pub record IsListing (s : Spec) (key end : Bytes) (revision : ℕ) (keys_only : Bool)
    (kvs : List KeyValue) : Type 0 where
  pub found :
      (k : Bytes)
      → find_kv k kvs ≡ (
          if listed key end k
          then head? (shown keys_only (state_at s.history (read_revision revision s) k))
          else none)
  pub ascending : AscendingKv kvs

-- The revisions that a read is answered at.
abbrev pub Readable : Spec → ℕ → Type 0
Readable s r = (r ≡ 0) ⊎ (record { from : s.compacted ≤ r; to : r ≤ Spec.now s })

pub shown-live :
    (keys_only : Bool) (o : Option Entry) → shown keys_only o ≡ shown keys_only (live o)
unfolding shown
shown-live keys_only none = refl
shown-live keys_only (some e) = ground arith

last?-keep :
    (p : Entry → Bool) (l : List Entry) {e : Entry} → last? (keep p l) ≡ some e → p e ≡ true
unfolding keep
last?-keep p [] h = absurd (ground (arith, last?-nil {A = Entry}))
last?-keep p (x ∷ l) {e} h = ground (arith, last?-keep p l {e = e}, last?-cons x (keep p l))

keep_comm : (p q : Entry → Bool) (l : List Entry) → keep p (keep q l) ≡ keep q (keep p l)
unfolding keep
keep_comm p q [] = refl
keep_comm p q (e ∷ l) = ground (arith, keep_comm p q l)

-- The state of a key is an entry of that key.
pub state_at-key :
    (h : List Entry) (r : ℕ) (k : Bytes) {e : Entry} → state_at h r k ≡ some e → e.key ≡ k
state_at-key h r k {e} p = (bytes_eq_iff e.key k).0 (
    last?-keep (λ x. bytes_eq x.key k) (upto r h) {e = e}
      (rw (keep_comm (λ x. bytes_eq x.key k) (λ x. leb x.revision r) h) (not_dead _ p)))
  where
    not_dead : (o : Option Entry) → live o ≡ some e → o ≡ some e
    not_dead none q = cc
    not_dead (some x) q = ground arith

pub shown-Single :
    (keys_only : Bool) (k : Bytes) (o : Option Entry)
    → ((e : Entry) → o ≡ some e → e.key ≡ k)
    → Single k (shown keys_only o)
unfolding shown
shown-Single keys_only k none h = tt
shown-Single keys_only k (some e) h = elim (Bool-cases e.deleted) [
  | inl dead ↦ simp dead tt
  | inr alive ↦ elim (Bool-cases keys_only) [
    | inl bare ↦ simp (alive, bare) (h e refl)
    | inr whole ↦ simp (alive, whole) (h e refl)
  ]
]

unfoldable pub has_key : Bytes → List (Bytes × List Entry) → Bool
has_key k [] = false
has_key k (e ∷ l) = if bytes_eq e.0 k then true else has_key k l

pub has_key-lookup :
    (k : Bytes) (l : List (Bytes × List Entry)) → has_key k l ≡ false → lookup k l ≡ none
unfolding has_key lookup
has_key-lookup k [] h = refl
has_key-lookup k (e ∷ l) h = ground (arith, has_key-lookup k l)

pub has_key-keep :
    (k : Bytes) (p : Bytes → Bool) (l : List (Bytes × List Entry))
    → has_key k (keep (λ e. p e.0) l) ≡ (p k && has_key k l)
unfolding has_key keep
has_key-keep k p [] = ground arith
has_key-keep k p ((j, v) ∷ l) = elim (Bool-cases (bytes_eq j k)) [
  | inl same ↦ ground (arith, has_key-keep k p l, ap p ((bytes_eq_iff j k).0 same))
  | inr other ↦ ground (arith, has_key-keep k p l)
]

Above-trans :
    (j k : Bytes) (l : List (Bytes × List Entry)) → bytes_lt j k ≡ true → Above k l → Above j l
Above-trans j k [] p q = tt
Above-trans j k (e ∷ l) p q = bytes_lt_trans j k e.0 p q

Above-keep :
    (p : Bytes → Bool) (j : Bytes) (l : List (Bytes × List Entry))
    → Above j l
    → Ascending l
    → Above j (keep (λ e. p e.0) l)
unfolding keep
Above-keep p j [] a s = tt
Above-keep p j (e ∷ l) a s = elim (Bool-cases (p e.0)) [
  | inl kept ↦ rw kept a
  | inr gone ↦ rw gone (Above-keep p j l (Above-trans j e.0 l a s.0) s.1)
]

pub Ascending-keep :
    (p : Bytes → Bool) (l : List (Bytes × List Entry))
    → Ascending l
    → Ascending (keep (λ e. p e.0) l)
unfolding keep
Ascending-keep p [] a = tt
Ascending-keep p (e ∷ l) a = elim (Bool-cases (p e.0)) [
  | inl kept ↦ rw kept (Above-keep p e.0 l a.0 a.1, Ascending-keep p l a.1)
  | inr gone ↦ rw gone (Ascending-keep p l a.1)
]

module _ (f : Bytes → List KeyValue) (single : (k : Bytes) → Single k (f k)) where
  shows-Above :
      (j : Bytes) (l : List (Bytes × List Entry)) → Above j l → Ascending l → AboveKv j (shows f l)
  unfolding shows
  shows-Above j [] a s = tt
  shows-Above j (e ∷ l) a s =
      step (f e.0) (single e.0) (shows-Above j l (Above-trans j e.0 l a s.0) s.1)
    where
      step : (v : List KeyValue) → Single e.0 v → AboveKv j (shows f l) → AboveKv j (v ++ shows f l)
      step [] t rest = rest
      step (kv ∷ []) t rest = subst (λ x. bytes_lt j x ≡ true) (sym t) a
      step (kv ∷ kv' ∷ v) t rest = absurd t

  pub shows-find :
      (k : Bytes) (l : List (Bytes × List Entry))
      → Ascending l
      → find_kv k (shows f l) ≡ (if has_key k l then head? (f k) else none)
  unfolding shows has_key
  shows-find k [] a = refl
  shows-find k ((j, v) ∷ l) a = step (f j) refl (single j) (shows-find k l a.1)
    where
      at_k : (w : List KeyValue) → f j ≡ w → bytes_eq j k ≡ true → f k ≡ w
      at_k w p same = ap f (sym ((bytes_eq_iff j k).0 same)) ∙ p

      step :
          (w : List KeyValue)
          → f j ≡ w
          → Single j w
          → find_kv k (shows f l) ≡ (if has_key k l then head? (f k) else none)
          → find_kv k (w ++ shows f l)
            ≡ (if (if bytes_eq j k then true else has_key k l) then head? (f k) else none)
      step [] p t rest = ground (arith, at_k [] p)
      step (kv ∷ []) p t rest = ground (arith, at_k (kv ∷ []) p, ap (λ x. bytes_eq x k) t)
      step (kv ∷ kv' ∷ w) p t rest = absurd t

  pub shows-AscendingKv : (l : List (Bytes × List Entry)) → Ascending l → AscendingKv (shows f l)
  unfolding shows
  shows-AscendingKv [] a = tt
  shows-AscendingKv (e ∷ l) a = step (f e.0) (single e.0) (shows-AscendingKv l a.1)
    where
      step :
          (v : List KeyValue)
          → Single e.0 v
          → AscendingKv (shows f l)
          → AscendingKv (v ++ shows f l)
      step [] t rest = rest
      step (kv ∷ []) t rest =
          (subst (λ x. AboveKv x (shows f l)) (sym t) (shows-Above e.0 l a.0 a.1), rest)
      step (kv ∷ kv' ∷ v) t rest = absurd t
