-- ===== src/Memory/Map.antt =====
-- `btree.Map` of github.com/tidwall/btree, the ordered map of pkg/drivers/memory/memory.go. It is
-- third-party code, so it is a parameter: its operations, and the documented behaviour that the
-- backend relies on.
use harikube.Common.{
  Bytes, bytes_eq, bytes_lt, true, Option, none, some, List, [], ◌∷◌, ◌≡◌, if◌then◌else◌,
}

module _ {V : Type 0} where
  -- The pairs in strictly ascending order of their keys.
  abbrev pub Above : Bytes → List (Bytes × V) → Type 0
  Above k [] = Unit
  Above k (e ∷ l) = bytes_lt k e.0 ≡ true

  abbrev pub Ascending : List (Bytes × V) → Type 0
  Ascending [] = Unit
  Ascending (e ∷ l) = Above e.0 l × Ascending l

  unfoldable pub lookup : Bytes → List (Bytes × V) → Option V
  lookup k [] = none
  lookup k (e ∷ l) = if bytes_eq e.0 k then some e.1 else lookup k l

  -- The pairs from the first one whose key is not below `k`.
  unfoldable pub from_key : Bytes → List (Bytes × V) → List (Bytes × V)
  from_key k [] = []
  from_key k (e ∷ l) = let rest = from_key k l in if bytes_lt e.0 k then rest else e ∷ l

pub record OrderedMap (V : Type 0) : Type 1 where
  pub Map : Type 0
  pub empty : Map
  pub get : Map → Bytes → Option V
  pub set : Map → Bytes → V → Map
  pub delete : Map → Bytes → Map
  -- The pairs in the order of `Scan`.
  pub scan : Map → List (Bytes × V)
  -- The pairs that `Iter`, `Seek(key)` and then `Next` visit.
  pub seek : Map → Bytes → List (Bytes × V)
  pub get-empty : (k : Bytes) → get empty k ≡ none
  pub get-set :
      (m : Map) (k : Bytes) (v : V) (j : Bytes)
      → get (set m k v) j ≡ (if bytes_eq k j then some v else get m j)
  pub get-delete :
      (m : Map) (k j : Bytes) → get (delete m k) j ≡ (if bytes_eq k j then none else get m j)
  pub lookup-scan : (m : Map) (k : Bytes) → lookup k (scan m) ≡ get m k
  pub scan-Ascending : (m : Map) → Ascending (scan m)
  pub seek-scan : (m : Map) (k : Bytes) → seek m k ≡ from_key k (scan m)
