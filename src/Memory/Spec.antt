-- ===== src/Memory/Spec.antt =====
-- What the in-memory backend promises, over the history of all entries: a multi-version store in
-- which a revision names a state of all keys.
use harikube.Common.{
  ℕ, ◌+◌, Bytes, Bool, true, false, ◌&&◌, ◌||◌, Option, none, some, List, [], ◌∷◌, ◌++◌, length,
  last?, ltb, leb, ◌==◌, if◌then◌else◌,
}
use harikube.Api.{KeyValue, Error}
use harikube.Memory.Entries.{
  Entry, to_key_value, prev_revision_of, created_entry, updated_entry, deleted_entry, shown, trim,
  head_of,
}
use harikube.Memory.History.{key_history, state_at}

pub record Spec : Type 0 where
  pub history : List Entry
  pub compacted : ℕ

abbrev pub append : Spec → Entry → Spec
append s e = record s { history = s.history ++ e ∷ [] }

-- The latest revision, and the live entry of a key at it.
abbrev pub now : Spec → ℕ
now s = length s.history

unfoldable pub current_of : Spec → Bytes → Option Entry
current_of s key = state_at s.history (now s) key

-- The revision that a new entry names as its predecessor; a compacted tombstone is forgotten.
unfoldable pub predecessor : Spec → Bytes → ℕ
predecessor s key = prev_revision_of (last? (trim s.compacted (key_history key s.history)))

unfoldable pub create_over : Option Entry → Bytes → Bytes → ℕ → Spec → Spec × (ℕ × Option Error)
create_over (some e) key value lease s = (s, (now s, some Error.key_exists))
create_over none key value lease s =
    (append s (created_entry (now s + 1) key value lease (predecessor s key)), (now s + 1, none))

-- A key with a live entry cannot be created.
unfoldable pub create : Bytes → Bytes → ℕ → Spec → Spec × (ℕ × Option Error)
unfolding create_over
create key value lease s = create_over (current_of s key) key value lease s

unfoldable pub update_over :
    Option Entry → Bytes → Bytes → ℕ → ℕ → Spec → Spec × (ℕ × Option KeyValue × Bool)
update_over none key value revision lease s = (s, (now s, none, false))
update_over (some e) key value revision lease s =
    let e' = updated_entry (now s + 1) key value lease e in
    if e.revision == revision
    then (append s e', (now s + 1, some (to_key_value e'), true))
    else (s, (now s, some (to_key_value e), false))

-- An update goes through exactly when its revision is that of the live entry.
unfoldable pub update : Bytes → Bytes → ℕ → ℕ → Spec → Spec × (ℕ × Option KeyValue × Bool)
unfolding update_over
update key value revision lease s = update_over (current_of s key) key value revision lease s

unfoldable pub delete_over : Option Entry → Bytes → ℕ → Spec → Spec × (ℕ × Option KeyValue × Bool)
delete_over none key revision s = (s, (now s, none, false))
delete_over (some e) key revision s =
    if revision == 0 || e.revision == revision
    then (append s (deleted_entry (now s + 1) key e), (now s + 1, some (to_key_value e), true))
    else (s, (now s, some (to_key_value e), false))

-- The same for a deletion, where revision 0 stands for any.
unfoldable pub delete : Bytes → ℕ → Spec → Spec × (ℕ × Option KeyValue × Bool)
unfolding delete_over
delete key revision s = delete_over (current_of s key) key revision s

unfoldable pub compact : ℕ → Spec → Spec × (ℕ × Option Error)
compact revision s =
    if ltb (now s) revision
    then (s, (0, some Error.future_rev))
    else if leb revision s.compacted
    then (s, (0, some Error.compacted))
    else (record s { compacted = revision }, (now s, none))

-- The revision that a read is answered at; 0 asks for the latest.
abbrev pub read_revision : ℕ → Spec → ℕ
read_revision revision s = if ltb 0 revision then revision else now s

unfoldable pub get : Bytes → ℕ → Bool → Spec → ℕ × Option KeyValue × Option Error
get key revision keys_only s =
    if ltb 0 revision && ltb (now s) revision
    then (now s, none, some Error.future_rev)
    else if ltb 0 revision && ltb revision s.compacted
    then (now s, none, some Error.compacted)
    else head_of (
      read_revision revision s,
      shown keys_only (state_at s.history (read_revision revision s) key),
      none,
    )
