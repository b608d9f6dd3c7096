-- ===== src/Transaction/Outcome.antt =====
-- What a creation of a transaction comes to.
use harikube.Common.{
  ℕ, Bytes, codes, bytes_eq, has_prefix, true, Option, none, some, [], ◌≡◌, refl, Bool-cases, inl,
  inr, ◌≢◌, subst, arith,
}
use harikube.Api.{Error}
use harikube.Server.Requests.{Reply, ok, failed, panicked}
use harikube.Transaction.{
  Value, object, byte_map, text, other_value, Fields, no_fields, field, TxBackend, value_at,
  tx_prefix, create, with_resources, with_specs, with_object, at_revision,
}

-- What decoding JSON or YAML gives: no `map[string][]byte`.
unfoldable mutual
  pub IsJsonValue : Value → Type 0
  IsJsonValue (object l) = IsJson l
  IsJsonValue (byte_map l) = ⊥
  IsJsonValue (text t) = Unit
  IsJsonValue other_value = Unit

  pub IsJson : Fields → Type 0
  IsJson no_fields = Unit
  IsJson (field k v l) = IsJsonValue v × IsJson l

value_at-IsJson :
    (k : Bytes) (l : Fields) (v : Value) → IsJson l → value_at k l ≡ some v → IsJsonValue v
unfolding value_at IsJson
value_at-IsJson k no_fields v j p = absurd (cc p)
value_at-IsJson k (field i w l) v j p = elim (Bool-cases (bytes_eq i k)) [
  | inl here ↦ subst IsJsonValue (ground (arith, p, here)) j.0
  | inr there ↦ value_at-IsJson k l v j.1 (ground (arith, p, there))
]

-- Nothing is changed, and the creation does not succeed.
abbrev pub Refused : {S : Type 0} → S → S × Reply (ℕ × Option Error) → Type 0
Refused s (s', ok (rev, e)) = (s' ≡ s) × (e ≢ none)
Refused s (s', failed e) = s' ≡ s
Refused s (s', panicked) = s' ≡ s

module _ {S T : Type 0} (B : TxBackend S T) (decode : Bytes → Reply Fields)
    (json : (raw : Bytes) (obj : Fields) → decode raw ≡ ok obj → IsJson obj) where
  some-none : (e : Error) → some e ≢ none
  some-none e p = cc p

  resources-Refused :
      (lease rev : ℕ) (l : Fields) (s : S)
      → IsJson l
      → Refused s (with_resources B decode lease rev (value_at (codes "resources") l) s)
  unfolding with_resources IsJsonValue
  resources-Refused lease rev l s j = by_value (value_at (codes "resources") l) refl
    where
      by_value :
          (o : Option Value)
          → value_at (codes "resources") l ≡ o
          → Refused s (with_resources B decode lease rev o s)
      by_value none p = (refl, some-none _)
      by_value (some (byte_map r)) p =
          absurd (value_at-IsJson (codes "resources") l (byte_map r) j p)
      by_value (some (object r)) p = (refl, some-none _)
      by_value (some (text r)) p = (refl, some-none _)
      by_value (some other_value) p = (refl, some-none _)

  specs-Refused :
      (lease rev : ℕ) (l : Fields) (s : S)
      → IsJson l
      → Refused s (with_specs B decode lease rev (value_at (codes "specs") l) s)
  unfolding with_specs IsJsonValue
  specs-Refused lease rev l s j = by_value (value_at (codes "specs") l) refl
    where
      by_value :
          (o : Option Value)
          → value_at (codes "specs") l ≡ o
          → Refused s (with_specs B decode lease rev o s)
      by_value none p = (refl, some-none _)
      by_value (some (object r)) p =
          resources-Refused lease rev r s (value_at-IsJson (codes "specs") l (object r) j p)
      by_value (some (byte_map r)) p = refl
      by_value (some (text r)) p = refl
      by_value (some other_value) p = refl

  object-Refused :
      (lease rev : ℕ) (value : Bytes) (s : S)
      → Refused s (with_object B decode lease rev (decode value) s)
  unfolding with_object
  object-Refused lease rev value s = by_object (decode value) refl
    where
      by_object :
          (o : Reply Fields) → decode value ≡ o → Refused s (with_object B decode lease rev o s)
      by_object (ok obj) p = specs-Refused lease rev obj s (json value obj p)
      by_object (failed e) p = (refl, some-none _)
      by_object panicked p = refl

  current-Refused :
      (lease : ℕ) (value : Bytes) (s : S) (c : ℕ × Option Error)
      → Refused s (at_revision B decode value lease c s)
  unfolding at_revision
  current-Refused lease value s (rev, none) = object-Refused lease rev value s
  current-Refused lease value s (rev, some e) = (refl, some-none _)

  -- With a decoder that gives only the values of JSON, no creation of a transaction begins one:
  -- nothing is ever changed, and none succeeds.
  pub create-Refused :
      (key value : Bytes) (lease : ℕ) (s : S)
      → has_prefix tx_prefix key ≡ true
      → Refused s (create B decode key value lease s)
  unfolding create
  create-Refused key value lease s prefixed = elim (Bool-cases (bytes_eq value [])) [
    | inl empty ↦ rw (prefixed, empty) (refl, some-none _)
    | inr given ↦ rw (prefixed, given) (current-Refused lease value s (B.current_revision s))
  ]
