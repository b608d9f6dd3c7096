-- ===== src/T4/Prefixes.antt =====
-- The ranges of pkg/drivers/t4/backend.go as prefixes.
use harikube.Common.{
  ℕ, suc, Bytes, bytes_eq, bytes_lt, has_prefix, Bool, true, false, not, ◌&&◌, [], ◌∷◌, ◌++◌, ◌≡◌,
  refl, ap, sym, ◌∙◌, arith, length, take, if◌then◌else◌, bytes_eq_refl, length-append, ltb,
}
use harikube.T4.{translate_range}

not_below_nil : (k : Bytes) → bytes_lt k [] ≡ false
unfolding bytes_lt
not_below_nil [] = refl
not_below_nil (c ∷ k) = refl

range-prefix :
    (p : Bytes) (c : ℕ) (k : Bytes)
    → (not (bytes_lt k (p ++ c ∷ [])) && bytes_lt k (p ++ suc c ∷ [])) ≡ has_prefix (p ++ c ∷ []) k
unfolding bytes_lt has_prefix
range-prefix [] c [] = refl
range-prefix [] c (d ∷ k) = rw not_below_nil (ground arith)
range-prefix (a ∷ p) c [] = refl
range-prefix (a ∷ p) c (d ∷ k) = ground (arith, range-prefix p c k)

take_exact :
    (p : Bytes) (c d : ℕ) (l : Bytes) → take (length (p ++ d ∷ [])) (p ++ c ∷ l) ≡ p ++ c ∷ []
unfolding take
take_exact [] c d l = refl
take_exact (a ∷ p) c d l = ap (λ x. a ∷ x) (take_exact p c d l)

range_from :
    (p : Bytes) (c x : ℕ) (rest k : Bytes)
    → (not (bytes_lt k (p ++ c ∷ x ∷ rest)) && bytes_lt k (p ++ suc c ∷ []))
      ≡ (has_prefix (p ++ c ∷ []) k && not (bytes_lt k (p ++ c ∷ x ∷ rest)))
unfolding bytes_lt has_prefix
range_from [] c x rest [] = refl
range_from [] c x rest (d ∷ k) = rw not_below_nil (ground arith)
range_from (a ∷ p) c x rest [] = refl
range_from (a ∷ p) c x rest (d ∷ k) = ground (arith, range_from p c x rest k)

-- The keys that a read of T4 with a prefix and a key to start from is about.
abbrev pub is_read : Bytes × Bytes → Bytes → Bool
is_read (prefix, from_key) k =
    has_prefix prefix k && (if bytes_eq from_key [] then true else not (bytes_lt k from_key))

end_given : (p : Bytes) (c : ℕ) → bytes_eq (p ++ c ∷ []) [] ≡ false
unfolding bytes_eq
end_given [] c = refl
end_given (a ∷ p) c = refl

key_given : (p : Bytes) (c : ℕ) (l : Bytes) → bytes_eq (p ++ c ∷ l) [] ≡ false
unfolding bytes_eq
key_given [] c l = refl
key_given (a ∷ p) c l = refl

and_true : (b : Bool) → (b && true) ≡ b
and_true true = refl
and_true false = refl

-- A range that ends where a prefix does, as clients ask for to list a prefix: from the prefix itself, or,
-- for the next page, from a longer key with that prefix. The keys in it are exactly those that the prefix
-- and the start key of `translateRange` are about.
pub translate_range-is_read :
    (p : Bytes) (c : ℕ) (rest k : Bytes)
    → (not (bytes_lt k (p ++ c ∷ rest)) && bytes_lt k (p ++ suc c ∷ []))
      ≡ is_read (translate_range (p ++ c ∷ rest) (p ++ suc c ∷ [])) k
unfolding translate_range
translate_range-is_read p c [] k =
    let a = length-append p (c ∷ []) in
    let b = length-append p (suc c ∷ []) in
    let same : ltb (length (p ++ suc c ∷ [])) (length (p ++ c ∷ [])) ≡ false =
      ground (arith, a, b) in
    let given = end_given p (suc c) in
    let nil = bytes_eq_refl [] in simp (given, same, nil) (range-prefix p c k ∙ sym (and_true _))
translate_range-is_read p c (x ∷ rest) k =
    let a = length-append p (c ∷ x ∷ rest) in
    let b = length-append p (suc c ∷ []) in
    let longer : ltb (length (p ++ suc c ∷ [])) (length (p ++ c ∷ x ∷ rest)) ≡ true =
      ground (arith, a, b) in
    let given = end_given p (suc c) in
    let start = key_given p c (x ∷ rest) in
    let cut = take_exact p c (suc c) (x ∷ rest) in
    simp (given, longer, start, cut) (range_from p c x rest k)
