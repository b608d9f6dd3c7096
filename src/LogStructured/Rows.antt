-- ===== src/LogStructured/Rows.antt =====
-- What `LogStructured` relies on in a log: rows in the order of their revisions, where the rows of a
-- key are linked by their previous revisions, and no two rows of a key have the same one.
use harikube.Common.{
  ℕ, Bytes, bytes_eq, Bool, true, false, not, ◌||◌, Option, none, some, List, [], ◌∷◌, ◌++◌, ◌≡◌,
  refl, arith, last?, keep, ◌==◌, if◌then◌else◌,
}
use harikube.Api.{Error, KeyValue, Event}
use harikube.LogStructured.{kv_of}
use harikube.LogStructured.Interface.{Log}

pub record Row : Type 0 where
  pub revision : ℕ
  pub key : Bytes
  pub value : Bytes
  pub created : Bool
  pub deleted : Bool
  pub create_revision : ℕ
  pub prev_revision : ℕ
  pub lease : ℕ

-- The rows of one key, and the revision of the last of them, after `b`.
abbrev pub of_key : Bytes → List Row → List Row
of_key key rows = keep (λ r. bytes_eq r.key key) rows

abbrev pub last_revision : ℕ → List Row → ℕ
last_revision b [] = b
last_revision b (r ∷ rows) = last_revision r.revision rows

-- Each row names the revision of the row before, starting with `b`.
abbrev pub Linked : ℕ → List Row → Type 0
Linked b [] = Unit
Linked b (r ∷ rows) = (r.prev_revision ≡ b) × Linked r.revision rows

-- The rows of each key are linked; a compaction may have removed the first ones.
abbrev pub Chained : List Row → Type 0
Chained rows = (key : Bytes) → (b : ℕ) × Linked b (of_key key rows)

-- Whether a row names `p` as the revision before.
unfoldable pub has_next : ℕ → List Row → Bool
has_next p [] = false
has_next p (r ∷ rows) = let rest = has_next p rows in if r.prev_revision == p then true else rest

-- What `Append` is asked to write.
abbrev pub prev_of : Option KeyValue → ℕ
prev_of none = 0
prev_of (some kv) = kv.mod_revision

-- The row that `Append` writes for an event. An update may be written as a deletion, as `Insert` of
-- pkg/drivers/generic/generic.go does for an object that waits for its last finalizer.
pub record Appends (revision : ℕ) (e : Event) (new : Row) : Type 0 where
  pub revision_eq : new.revision ≡ revision
  pub key_eq : new.key ≡ (kv_of e).key
  pub value_eq : new.value ≡ (kv_of e).value
  pub lease_eq : new.lease ≡ (kv_of e).lease
  pub created_eq : new.created ≡ e.created
  pub create_eq : new.create_revision ≡ (kv_of e).create_revision
  pub prev_eq : new.prev_revision ≡ prev_of e.prev_kv
  pub deletes : e.deleted ≡ true → new.deleted ≡ true
  pub creates : e.created ≡ true → new.deleted ≡ e.deleted

-- What a read of the last row of a key shows: not a deleted one, unless asked for.
abbrev pub Shows : Bool → Row → Event → Type 0
Shows keys_only r e =
    (e.deleted ≡ r.deleted)
    × ((kv_of e).mod_revision ≡ r.revision)
    × ((kv_of e).create_revision ≡ (if r.created then r.revision else r.create_revision))

pub data Found (include_deletes keys_only : Bool) : Option Row → List Event → Type 0 where
  absent : Found include_deletes keys_only none []
  hidden :
      {r : Row}
      → r.deleted ≡ true
      → include_deletes ≡ false
      → Found include_deletes keys_only (some r) []
  shown :
      {r : Row} {e : Event}
      → Shows keys_only r e
      → (not r.deleted || include_deletes) ≡ true
      → Found include_deletes keys_only (some r) (e ∷ [])

-- The laws of a log. A read of the latest row may fail, and `Append` may fail and then writes
-- nothing; it fails in any case if a row of the key has the same previous revision. Otherwise it writes
-- the row of the event, and may write more rows after it, as the SQL driver does for the objects that
-- a deleted object owns.
pub record LogLaws {S : Type 0} (L : Log S) : Type 0 where
  pub rows : S → List Row
  pub list-Found :
      (key : Bytes) (include_deletes keys_only : Bool) (s : S) {rev : ℕ} {events : List Event}
      → L.list key [] 1 0 include_deletes keys_only s ≡ (rev, events, none)
      → Found include_deletes keys_only (last? (of_key key (rows s))) events
  pub append-done :
      (e : Event) (s : S) {s' : S} {rev : ℕ}
      → L.append e s ≡ (s', (rev, none))
      → (new : Row) × (more : List Row) × Appends rev e new
        × (rows s' ≡ rows s ++ new ∷ more)
        × (has_next (prev_of e.prev_kv) (of_key (kv_of e).key (rows s)) ≡ false)
  pub append-failed :
      (e : Event) (s : S) {s' : S} {rev : ℕ} {err : Error}
      → L.append e s ≡ (s', (rev, some err))
      → rows s' ≡ rows s

-- If no row names the last of `xs` as its revision before, nothing follows `xs`.
pub no_next-nil :
    (b : ℕ) (xs ys : List Row)
    → Linked b (xs ++ ys)
    → has_next (last_revision b xs) (xs ++ ys) ≡ false
    → ys ≡ []
unfolding has_next
no_next-nil b [] [] l h = refl
no_next-nil b [] (y ∷ ys) l h = absurd (ground (arith, l.0))
no_next-nil b (x ∷ xs) ys l h = no_next-nil x.revision xs ys l.1 (ground arith)

pub Linked-append :
    (b : ℕ) (xs : List Row) (r : Row)
    → Linked b xs
    → r.prev_revision ≡ last_revision b xs
    → Linked b (xs ++ r ∷ [])
Linked-append b [] r l p = (p, tt)
Linked-append b (x ∷ xs) r l p = (l.0, Linked-append x.revision xs r l.1 p)

-- The same from any revision before, for a row that follows the last one, or 0.
pub Linked-append_any :
    (b : ℕ) (xs : List Row) (r : Row)
    → Linked b xs
    → r.prev_revision ≡ last_revision 0 xs
    → (b' : ℕ) × Linked b' (xs ++ r ∷ [])
Linked-append_any b [] r l p = (0, (p, tt))
Linked-append_any b (x ∷ xs) r l p = (b, (l.0, Linked-append x.revision xs r l.1 p))

pub last_revision-none : (b : ℕ) (xs : List Row) → last? xs ≡ none → last_revision b xs ≡ b
unfolding last?
last_revision-none b [] p = refl
last_revision-none b (x ∷ []) p = cc
last_revision-none b (x ∷ y ∷ xs) p = absurd (last?-cons-none y xs p)
  where
    last?-cons-none : (z : Row) (zs : List Row) → last? (z ∷ zs) ≡ none → ⊥
    last?-cons-none z [] q = cc q
    last?-cons-none z (w ∷ zs) q = last?-cons-none w zs q

pub last_revision-some :
    (b : ℕ) (xs : List Row) (r : Row) → last? xs ≡ some r → last_revision b xs ≡ r.revision
unfolding last?
last_revision-some b [] r p = cc
last_revision-some b (x ∷ []) r p = cc
last_revision-some b (x ∷ y ∷ xs) r p = last_revision-some x.revision (y ∷ xs) r p

pub Found-some :
    {include_deletes keys_only : Bool} {o : Option Row} {e : Event} {events : List Event}
    → Found include_deletes keys_only o (e ∷ events)
    → (r : Row) × (o ≡ some r) × Shows keys_only r e × ((not r.deleted || include_deletes) ≡ true)
Found-some (shown {r} s p) = (r, refl, s, p)

pub Found-none : {keys_only : Bool} {o : Option Row} → Found true keys_only o [] → o ≡ none
Found-none absent = refl
Found-none (hidden d p) = absurd (cc p)
