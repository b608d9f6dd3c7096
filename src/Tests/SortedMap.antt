-- ===== src/Tests/SortedMap.antt =====
-- An ordered map that meets what the in-memory backend assumes of `btree.Map`: a sorted list.
use harikube.Common.{
  Bytes, bytes_eq, bytes_lt, bytes_eq_iff, bytes_lt_trans, bytes_lt_total, true, none, some, List,
  [], ◌∷◌, ◌≡◌, refl, ap, ◌∙◌, arith, Bool-cases, inl, inr, subst, if◌then◌else◌,
}
use harikube.Memory.Map.{OrderedMap, Above, Ascending, lookup, from_key}
use harikube.Memory.CompactionLaws.{lookup-Above}

module _ {A : Type 0} where
  unfoldable pub insert : Bytes → A → List (Bytes × A) → List (Bytes × A)
  insert key v [] = (key, v) ∷ []
  insert k v ((j, w) ∷ l) =
      let rest = insert k v l in
      if bytes_eq j k
      then (k, v) ∷ l
      else if bytes_lt j k
      then (j, w) ∷ rest
      else (k, v) ∷ (j, w) ∷ l

  unfoldable pub remove : Bytes → List (Bytes × A) → List (Bytes × A)
  remove k [] = []
  remove k ((j, w) ∷ l) = let rest = remove k l in if bytes_eq j k then l else (j, w) ∷ rest

  pub lookup-nil : (k : Bytes) → lookup {V = A} k [] ≡ none
  unfolding lookup
  lookup-nil k = refl

  pub lookup-insert :
      (k : Bytes) (v : A) (l : List (Bytes × A)) (x : Bytes)
      → lookup x (insert k v l) ≡ (if bytes_eq k x then some v else lookup x l)
  unfolding lookup insert
  lookup-insert k v [] x = refl
  lookup-insert k v ((j, w) ∷ l) x =
      ground (arith, lookup-insert k v l x, bytes_eq_iff j k, bytes_eq_iff k x, bytes_eq_iff j x)

  pub lookup-remove :
      (k : Bytes) (l : List (Bytes × A)) (x : Bytes)
      → Ascending l
      → lookup x (remove k l) ≡ (if bytes_eq k x then none else lookup x l)
  unfolding lookup remove
  lookup-remove k [] x a = ground arith
  lookup-remove k ((j, w) ∷ l) x a = elim (Bool-cases (bytes_eq j k)) [
    | inl same ↦ elim (Bool-cases (bytes_eq k x)) [
      | inl here ↦
          rw (same, here)
            (lookup-Above x l
              (subst (λ y. Above y l) ((bytes_eq_iff j k).0 same ∙ (bytes_eq_iff k x).0 here) a.0)
              a.1)
      | inr there ↦ rw (same, there, ap (λ y. bytes_eq y x) ((bytes_eq_iff j k).0 same), there)
    ]
    | inr other ↦ rw (other) (
        ground
          (arith, lookup-remove k l x a.1, bytes_eq_iff j k, bytes_eq_iff k x, bytes_eq_iff j x))
  ]

  Above-insert :
      (i k : Bytes) (v : A) (l : List (Bytes × A))
      → bytes_lt i k ≡ true
      → Above i l
      → Above i (insert k v l)
  unfolding insert
  Above-insert i k v [] p a = p
  Above-insert i k v ((j, w) ∷ l) p a = elim (Bool-cases (bytes_eq j k)) [
    | inl same ↦ rw same p
    | inr other ↦ elim (Bool-cases (bytes_lt j k)) [
      | inl below ↦ rw (other, below) a
      | inr above ↦ rw (other, above) p
    ]
  ]

  pub insert-Ascending :
      (k : Bytes) (v : A) (l : List (Bytes × A)) → Ascending l → Ascending (insert k v l)
  unfolding insert
  insert-Ascending k v [] a = (tt, tt)
  insert-Ascending k v ((j, w) ∷ l) a = elim (Bool-cases (bytes_eq j k)) [
    | inl same ↦ rw same (subst (λ y. Above y l) ((bytes_eq_iff j k).0 same) a.0, a.1)
    | inr other ↦ elim (Bool-cases (bytes_lt j k)) [
      | inl below ↦ rw (other, below) (Above-insert j k v l below a.0, insert-Ascending k v l a.1)
      | inr above ↦ rw (other, above) (bytes_lt_total j k above other, a)
    ]
  ]

  Above-remove :
      (i k : Bytes) (l : List (Bytes × A)) → Above i l → Ascending l → Above i (remove k l)
  unfolding remove
  Above-remove i k [] a s = tt
  Above-remove i k ((j, w) ∷ l) a s = elim (Bool-cases (bytes_eq j k)) [
    | inl same ↦ rw same (above_tail l s.0)
    | inr other ↦ rw other a
  ]
    where
      above_tail : (l : List (Bytes × A)) → Above j l → Above i l
      above_tail [] p = tt
      above_tail (e ∷ l) p = bytes_lt_trans i j e.0 a p

  pub remove-Ascending : (k : Bytes) (l : List (Bytes × A)) → Ascending l → Ascending (remove k l)
  unfolding remove
  remove-Ascending k [] a = tt
  remove-Ascending k ((j, w) ∷ l) a = elim (Bool-cases (bytes_eq j k)) [
    | inl same ↦ rw same a.1
    | inr other ↦ rw other (Above-remove j k l a.0 a.1, remove-Ascending k l a.1)
  ]

abbrev pub Sorted : Type 0 → Type 0
Sorted A = (l : List (Bytes × A)) × Ascending l

abbrev pub sorted_map : {A : Type 0} → OrderedMap A
sorted_map {A} = record {
  Map = Sorted A;
  empty = ([], tt);
  get = λ m k. lookup k m.0;
  set = λ m k v. (insert k v m.0, insert-Ascending k v m.0 m.1);
  delete = λ m k. (remove k m.0, remove-Ascending k m.0 m.1);
  scan = λ m. m.0;
  seek = λ m k. from_key k m.0;
  get-empty = λ k. lookup-nil {A = A} k;
  get-set = λ m k v j. lookup-insert k v m.0 j;
  get-delete = λ m k j. lookup-remove k m.0 j m.1;
  lookup-scan = λ m k. refl;
  scan-Ascending = λ m. m.1;
  seek-scan = λ m k. refl;
}
