-- ===== src/Memory/Entries.antt =====
-- The entries of pkg/drivers/memory/memory.go, and the parts of the methods that work on entries and
-- on the history of one key alone.
use harikube.Common.{
  ℕ, ◌+◌, Bytes, bytes_eq, bytes_lt, Bool, true, false, not, ◌&&◌, ◌||◌, Option, none, some, List,
  [], ◌∷◌, length, leb, ◌==◌, if◌then◌else◌,
}
use harikube.Api.{KeyValue, Error}

-- `entry`, but for its pointer `prev`: an entry is never changed after `appendEntry` except in that
-- field, which `Memory.prev` holds.
pub record Entry : Type 0 where
  pub revision : ℕ
  pub key : Bytes
  pub value : Bytes
  pub create_revision : ℕ
  pub version : ℕ
  pub prev_revision : ℕ
  pub lease : ℕ
  pub created : Bool
  pub deleted : Bool

unfoldable pub to_key_value : Entry → KeyValue
to_key_value e = record {
  key = e.key;
  value = e.value;
  version = e.version;
  create_revision = e.create_revision;
  mod_revision = e.revision;
  lease = e.lease;
}

-- The loop of `atRevision`; `result` is the entry found so far.
unfoldable pub at_revision_from : Option Entry → ℕ → List Entry → Option Entry
at_revision_from result revision [] = result
at_revision_from result revision (e ∷ hist) =
    let rest = at_revision_from (some e) revision hist in
    if leb e.revision revision then rest else result

-- The first loop of `Compact`: `floor` is the history from `floorIdx` on, `none` where that is -1.
unfoldable pub floor_from : Option (List Entry) → ℕ → List Entry → Option (List Entry)
floor_from floor revision [] = floor
floor_from floor revision (e ∷ hist) =
    let rest = floor_from (some (e ∷ hist)) revision hist in
    if leb e.revision revision then rest else floor

-- The `switch` of `Compact`: the history that stays.
unfoldable pub new_hist : List Entry → Option (List Entry) → List Entry
new_hist hist none = hist
new_hist hist (some []) = hist
new_hist hist (some (e ∷ rest)) = if e.deleted then rest else e ∷ rest

unfoldable pub trim : ℕ → List Entry → List Entry
unfolding floor_from new_hist
trim revision hist = new_hist hist (floor_from none revision hist)

abbrev pub or_nil : Option (List Entry) → List Entry
or_nil none = []
or_nil (some hist) = hist

-- `m.prev` where the entry with revision `r` gets the predecessor `p`.
abbrev pub set_prev : (ℕ → Option Entry) → ℕ → Option Entry → ℕ → Option Entry
set_prev prev r p q = if q == r then p else prev q

abbrev pub is_live : Option Entry → Bool
is_live none = false
is_live (some e) = not e.deleted

-- The entry that `Create` appends; the predecessor's revision is 0 without one.
unfoldable pub prev_revision_of : Option Entry → ℕ
prev_revision_of none = 0
prev_revision_of (some e) = e.revision

abbrev pub created_entry : ℕ → Bytes → Bytes → ℕ → ℕ → Entry
created_entry rev key value lease prev_rev = record {
  revision = rev;
  key = key;
  value = value;
  create_revision = rev;
  version = 1;
  prev_revision = prev_rev;
  lease = lease;
  created = true;
  deleted = false;
}

-- The entry that `Update` appends over `e`.
abbrev pub updated_entry : ℕ → Bytes → Bytes → ℕ → Entry → Entry
updated_entry rev key value lease e = record {
  revision = rev;
  key = key;
  value = value;
  create_revision = e.create_revision;
  version = e.version + 1;
  prev_revision = e.revision;
  lease = lease;
  created = false;
  deleted = false;
}

-- The entry that `Delete` appends over `e`: a tombstone.
abbrev pub deleted_entry : ℕ → Bytes → Entry → Entry
deleted_entry rev key e = record {
  revision = rev;
  key = key;
  value = e.value;
  create_revision = e.create_revision;
  version = e.version;
  prev_revision = e.revision;
  lease = e.lease;
  created = false;
  deleted = true;
}

-- The value that `List` shows of the entry it found, with `keysOnly`.
unfoldable pub shown : Bool → Option Entry → List KeyValue
unfolding to_key_value
shown keys_only none = []
shown keys_only (some e) =
    if e.deleted
    then []
    else if keys_only
    then record (to_key_value e) { value = [] } ∷ []
    else to_key_value e ∷ []

-- The first test in the loop of `List`.
unfoldable pub past_end : Bytes → Bytes → Bytes → Bool
past_end key end k =
    bytes_eq end [] && not (bytes_eq k key) || not (bytes_eq end []) && not (bytes_lt k end)

-- The tail of `Get`.
unfoldable pub head_of : ℕ × List KeyValue × Option Error → ℕ × Option KeyValue × Option Error
head_of (rev, kvs, some e) = (rev, none, some e)
head_of (rev, [], none) = (rev, none, none)
head_of (rev, kv ∷ kvs, none) = (rev, some kv, none)

-- The tail of `Count`.
unfoldable pub count_of : ℕ × List KeyValue × Option Error → ℕ × ℕ × Option Error
count_of (rev, kvs, some e) = (rev, 0, some e)
count_of (rev, kvs, none) = (rev, length kvs, none)
