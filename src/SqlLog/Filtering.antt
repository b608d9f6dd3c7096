-- ===== src/SqlLog/Filtering.antt =====
-- `filter` of pkg/logstructured/sqllog/sql.go and `filterEventBySelectors` of helpers.go. The decoding of
-- objects and the parsing of selectors are parameters; a selector that cannot be parsed selects
-- everything, as does an empty one.
use harikube.Common.{
  ℕ, ◌+◌, Bytes, bytes_eq, has_prefix, Bool, true, false, not, ◌&&◌, ◌||◌, Option, none, some, List,
  [], ◌∷◌, length, ◌==◌, keep, ◌≡◌, refl, if◌then◌else◌,
}
use harikube.Api.{KeyValue, Event, in_range}

pub data Operator : Type 0 where
  equals double_equals not_equals other_operator : Operator

pub record Requirement : Type 0 where
  pub field : Bytes
  pub operator : Operator
  pub value : Bytes

-- `decode` takes a key and a value, and `fields` the object and the value.
pub record Selectors (Obj : Type 0) : Type 0 where
  pub decode : Bytes → Bytes → Option Obj
  pub label_matches : Bytes → Obj → Bool
  pub requirements : Bytes → List Requirement
  pub fields : Obj → Bytes → Bytes → Bytes

-- `strings.Contains`
unfoldable pub contains : Bytes → Bytes → Bool
contains [] sub = has_prefix sub []
contains (c ∷ s) sub = let rest = contains s sub in has_prefix sub (c ∷ s) || rest

unfoldable pub requirement_met : Operator → Bytes → Bytes → Bool
unfolding contains
requirement_met Operator.equals value wanted = contains value wanted
requirement_met Operator.double_equals value wanted = contains value wanted
requirement_met Operator.not_equals value wanted = not (contains value wanted)
requirement_met Operator.other_operator value wanted = false

module _ {Obj : Type 0} (P : Selectors Obj) where
  -- The loop over the requirements of a field selector
  count_matches : (Bytes → Bytes) → List Requirement → ℕ
  unfolding requirement_met
  count_matches fields [] = 0
  count_matches fields (r ∷ rs) =
      let rest = count_matches fields rs in
      if requirement_met r.operator (fields r.field) r.value then rest + 1 else rest

  decoded_matches : Bytes → Bytes → Bytes → Option Obj → Bool
  unfolding count_matches
  decoded_matches value labels fields none = true
  decoded_matches value labels fields (some obj) =
      if not (bytes_eq labels []) && not (P.label_matches labels obj)
      then false
      else if bytes_eq fields []
      then true
      else length (P.requirements fields)
        == count_matches (P.fields obj value) (P.requirements fields)

  -- `filterEventBySelectors`
  unfoldable pub filter_event_by_selectors : Option KeyValue → Bytes → Bytes → Bool
  unfolding decoded_matches
  filter_event_by_selectors none labels fields = true
  filter_event_by_selectors (some kv) labels fields =
      if bytes_eq kv.value [] || bytes_eq labels [] && bytes_eq fields []
      then true
      else decoded_matches kv.value labels fields (P.decode kv.key kv.value)

  prev_matches : Option KeyValue → Bytes → Bytes → Bool
  prev_matches none labels fields = false
  prev_matches (some kv) labels fields = filter_event_by_selectors (some kv) labels fields

  unfoldable pub event_matches : Bytes → Bytes → Option Event → Bool
  unfolding prev_matches
  event_matches labels fields none = false
  event_matches labels fields (some e) =
      filter_event_by_selectors e.kv labels fields || prev_matches e.prev_kv labels fields

  abbrev not_empty : List (Option Event) → Option (List (Option Event))
  not_empty [] = none
  not_empty (e ∷ l) = some (e ∷ l)

  -- The loop of `filter`
  unfoldable pub filter_all :
      Bytes → Bytes → Bytes → Bytes → List (Option Event) → List (Option Event)
  unfolding event_matches
  filter_all key end labels fields events =
      keep (λ e. in_range key end e && event_matches labels fields e) events

  -- `filter`; `none` is its second result false, where there is nothing to send.
  unfoldable pub filter :
      Bytes → Bytes → Bytes → Bytes → List (Option Event) → Option (List (Option Event))
  unfolding filter_all
  filter key end labels fields (e ∷ []) = if in_range key end e then some (e ∷ []) else none
  filter key end labels fields events = not_empty (filter_all key end labels fields events)

  -- What becomes of an event in the range that the selectors do not select depends on the size of the
  -- batch: alone it is passed on, with a fill record after it it is not.
  pub filter_alone :
      (key end labels fields : Bytes) (e : Event)
      → in_range key end (some e) ≡ true
      → event_matches labels fields (some e) ≡ false
      → (filter key end labels fields (some e ∷ []) ≡ some (some e ∷ []))
        × (filter key end labels fields (some e ∷ none ∷ []) ≡ none)
  unfolding filter keep in_range
  filter_alone key end labels fields e p q = (rw p refl, rw (p, q) refl)
