-- ===== src/Ttl.antt =====
-- pkg/ttl/ttl.go: the expiry of keys with a lease, over a backend. Times are counted in milliseconds, and
-- the clock is an argument. The delaying queue, which is third-party code, holds keys with the times at
-- which they are due; the parts of `Run` are steps of their own. A lease is small enough for its
-- nanoseconds to fit an int64.
pub mod Expiry
use harikube.Common.{
  ℕ, zero, suc, ◌+◌, ◌-◌, ◌*◌, Bytes, bytes_eq, codes, Bool, true, false, not, ◌||◌, Option, none,
  some, List, [], ◌∷◌, length, last?, ltb, leb, ◌==◌, if◌then◌else◌,
}
use harikube.Api.{Error, KeyValue, Event, Backend}

-- `entry`
pub record Lease : Type 0 where
  pub mod_revision : ℕ
  pub expired_at : ℕ

-- The backend, `store`, and the queue.
pub record Ttl (S : Type 0) : Type 0 where
  pub backend : S
  pub store : Bytes → Option Lease
  pub queue : List (Bytes × ℕ)

abbrev pub retry_interval : ℕ
retry_interval = 250

abbrev pub list_page_size : ℕ
list_page_size = 1000

abbrev pub set_at : Bytes → Option Lease → (Bytes → Option Lease) → Bytes → Option Lease
set_at key e store k = if bytes_eq k key then e else store k

-- `AddAfter` at a time
abbrev add_after : {S : Type 0} → ℕ → Bytes → ℕ → Ttl S → Ttl S
add_after now key delay s = record s { queue = (key, now + delay) ∷ s.queue }

-- `save`, and the `AddAfter` that follows it
unfoldable pub save : {S : Type 0} → ℕ → KeyValue → Ttl S → Ttl S
save now kv s =
    let expires = kv.lease * 1000 in
    let saved = record s {
      store =
          set_at kv.key
            (some (record { mod_revision = kv.mod_revision; expired_at = now + expires })) s.store;
    } in
    add_after now kv.key expires saved

is_newer : ℕ → Option Lease → Bool
is_newer rev none = true
is_newer rev (some e) = ltb e.mod_revision rev

event_kv : {S : Type 0} → ℕ → Bool → Option KeyValue → Ttl S → Ttl S
unfolding save is_newer
event_kv now deleted none s = s
event_kv now deleted (some kv) s =
    if deleted
    then s
    else if kv.lease == 0
    then s
    else if is_newer kv.mod_revision (s.store kv.key)
    then save now kv s
    else s

-- What `Run` does with an event of its watch.
unfoldable pub on_event : {S : Type 0} → ℕ → Event → Ttl S → Ttl S
unfolding event_kv
on_event now e s = event_kv now e.deleted e.kv s

-- The loop of `seed` over a page
unfoldable pub seed_page : {S : Type 0} → ℕ → List KeyValue → Ttl S → Ttl S
unfolding save
seed_page now [] s = s
seed_page now (kv ∷ kvs) s = seed_page now kvs (if ltb 0 kv.lease then save now kv s else s)

abbrev pub key_of : Option KeyValue → Bytes
key_of none = []
key_of (some kv) = kv.key

-- `errors.Is(err, context.Canceled)`, which sees the errors inside.
abbrev is_canceled : Error → Bool
is_canceled Error.canceled = true
is_canceled (Error.joined e e') = is_canceled e || is_canceled e'
is_canceled (Error.wrapped e) = is_canceled e
is_canceled _ = false

abbrev pub is_failure : Option Error → Bool
is_failure none = false
is_failure (some e) = not (is_canceled e)

module _ {S : Type 0} (B : Backend S) where
  seed_result :
      (List KeyValue → Ttl S → Option (Ttl S × (ℕ × Option Error)))
      → ℕ
      → ℕ × List KeyValue × Option Error
      → Ttl S
      → Option (Ttl S × (ℕ × Option Error))
  seed_result rest rev (page_rev, kvs, some e) s = some (s, (rev, some e))
  seed_result rest rev (page_rev, kvs, none) s = rest kvs s

  -- The loop of `seed`, on fuel; `none` means that it ran out.
  unfoldable pub seed_loop : ℕ → ℕ → ℕ → List KeyValue → Ttl S → Option (Ttl S × (ℕ × Option Error))
  unfolding seed_result seed_page
  seed_loop zero now rev kvs s = none
  seed_loop (suc fuel) now rev [] s = some (s, (rev, none))
  seed_loop (suc fuel) now rev (kv ∷ kvs) s =
      let page = kv ∷ kvs in
      let s' = seed_page now page s in
      let more =
        seed_result (seed_loop fuel now rev) rev
          (B.list (key_of (last? page)) (codes "0") list_page_size rev true s'.backend) s' in
      if ltb (length page) list_page_size then some (s', (rev, none)) else more

  seed_first :
      ℕ → ℕ → ℕ × List KeyValue × Option Error → Ttl S → Option (Ttl S × (ℕ × Option Error))
  unfolding seed_loop
  seed_first fuel now (rev, kvs, some e) s = some (s, (rev, some e))
  seed_first fuel now (rev, kvs, none) s = seed_loop fuel now rev kvs s

  -- `seed`
  unfoldable pub seed : ℕ → ℕ → Ttl S → Option (Ttl S × (ℕ × Option Error))
  unfolding seed_first
  seed fuel now s =
      seed_first fuel now (B.list (codes "/") (codes "0") list_page_size 0 true s.backend) s

  -- The end of `handle`; `others` is what happens between the deletion of the key and that of its entry
  -- in the store.
  handle_deleted :
      (Ttl S → Ttl S) → ℕ → Bytes → Ttl S → S × (ℕ × Option KeyValue × Bool × Option Error) → Ttl S
  handle_deleted others now key s (b, (rev, kv, deleted, e)) =
      let s' = others (record s { backend = b }) in
      if is_failure e
      then add_after now key retry_interval s'
      else record s' { store = set_at key none s'.store }

  handle_entry : (Ttl S → Ttl S) → ℕ → Bytes → Option Lease → Ttl S → Ttl S
  unfolding handle_deleted
  handle_entry others now key none s = s
  handle_entry others now key (some e) s =
      if ltb now e.expired_at
      then add_after now key (e.expired_at - now) s
      else handle_deleted others now key s (B.delete key e.mod_revision s.backend)

  -- `handle` of a key that the queue gives
  unfoldable pub handle : (Ttl S → Ttl S) → ℕ → Bytes → Ttl S → Ttl S
  unfolding handle_entry
  handle others now key s = handle_entry others now key (s.store key) s
