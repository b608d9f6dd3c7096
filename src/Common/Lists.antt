-- ===== src/Common/Lists.antt =====
-- Lists measured and cut by native numbers, under the library's names.
use Prim.Native.Nat.{ℕ, zero, suc, ◌+◌, ◌-◌, ◌≤◌}
use mathlib.Core.Path.{◌≡◌, refl, ap, sym, ◌∙◌}
use mathlib.Core.Bool.{Bool}
use mathlib.Core.List.{List, [], ◌∷◌, ◌++◌, map, append_assoc, append-nil}
use mathlib.Core.Option.{Option, none, some}
use native.Mathlib.Omega.{arith}
use harikube.Common.Tests.{if◌then◌else◌}

module _ {ℓ} {A : Type ℓ} where
  abbrev pub length : List A → ℕ
  length [] = 0
  length (x ∷ xs) = suc (length xs)

  unfoldable pub drop : ℕ → List A → List A
  drop zero xs = xs
  drop (suc n) [] = []
  drop (suc n) (x ∷ xs) = drop n xs

  unfoldable pub take : ℕ → List A → List A
  take zero xs = []
  take (suc n) [] = []
  take (suc n) (x ∷ xs) = x ∷ take n xs

  -- The elements that pass a Boolean test.
  unfoldable pub keep : (A → Bool) → List A → List A
  keep p [] = []
  keep p (x ∷ xs) = let rest = keep p xs in if p x then x ∷ rest else rest

  unfoldable pub reverse : List A → List A
  reverse [] = []
  reverse (x ∷ xs) = reverse xs ++ x ∷ []

  unfoldable pub last? : List A → Option A
  last? [] = none
  last? (x ∷ []) = some x
  last? (x ∷ y ∷ xs) = last? (y ∷ xs)

  pub length-append : (xs ys : List A) → length (xs ++ ys) ≡ length xs + length ys
  length-append [] ys = omega arith
  length-append (x ∷ xs) ys = omega (arith, length-append xs ys)

  pub drop-nil : (n : ℕ) → drop n [] ≡ []
  unfolding drop
  drop-nil zero = refl
  drop-nil (suc n) = refl

  pub length-drop : (n : ℕ) (xs : List A) → length (drop n xs) ≡ length xs - n
  unfolding drop
  length-drop zero xs = omega arith
  length-drop (suc n) [] = omega arith
  length-drop (suc n) (x ∷ xs) = omega (arith, length-drop n xs)

  pub drop-drop : (n m : ℕ) (xs : List A) → drop n (drop m xs) ≡ drop (m + n) xs
  unfolding drop
  drop-drop n zero xs = ap (λ k. drop k xs) (omega arith)
  drop-drop n (suc m) [] =
      let e : drop n [] ≡ [] = drop-nil n in
      let s : suc m + n ≡ suc (m + n) = omega arith in rw (e, s)
  drop-drop n (suc m) (x ∷ xs) =
      let s : suc m + n ≡ suc (m + n) = omega arith in rw (s, drop-drop n m xs)

  pub drop-append : (n : ℕ) (xs ys : List A) → n ≤ length xs → drop n (xs ++ ys) ≡ drop n xs ++ ys
  unfolding drop
  drop-append zero xs ys h = refl
  drop-append (suc n) [] ys h = absurd (omega arith)
  drop-append (suc n) (x ∷ xs) ys h = drop-append n xs ys (omega arith)

  pub drop_all : (n : ℕ) (xs : List A) → length xs ≤ n → drop n xs ≡ []
  unfolding drop
  drop_all zero [] h = refl
  drop_all zero (x ∷ xs) h = absurd (omega arith)
  drop_all (suc n) [] h = refl
  drop_all (suc n) (x ∷ xs) h = drop_all n xs (omega arith)

  pub take_of_length-le : (l : List A) {n : ℕ} → length l ≤ n → take n l ≡ l
  unfolding take
  take_of_length-le [] {n = zero} p = refl
  take_of_length-le [] {n = suc k} p = refl
  take_of_length-le (a ∷ l) {n = zero} p = absurd (omega arith)
  take_of_length-le (a ∷ l) {n = suc k} p = cc (take_of_length-le l {n = k} (omega arith))

  pub take-append_left : (n : ℕ) (xs ys : List A) → length xs ≡ n → take n (xs ++ ys) ≡ xs
  unfolding take
  take-append_left zero [] ys h = refl
  take-append_left zero (x ∷ xs) ys h = absurd (omega arith)
  take-append_left (suc n) [] ys h = absurd (omega arith)
  take-append_left (suc n) (x ∷ xs) ys h = ap (◌∷◌ x) (take-append_left n xs ys (omega arith))

  pub drop-take : (n : ℕ) (xs : List A) → drop n (take n xs) ≡ []
  unfolding drop take
  drop-take zero xs = refl
  drop-take (suc n) [] = refl
  drop-take (suc n) (x ∷ xs) = drop-take n xs

  -- The stretch from `a` to `b`, then the rest.
  pub drop-take-append :
      (a b : ℕ) (xs : List A) → a ≤ b → drop a (take b xs) ++ drop b xs ≡ drop a xs
  unfolding drop take
  drop-take-append zero zero xs h = refl
  drop-take-append zero (suc b) [] h = refl
  drop-take-append zero (suc b) (x ∷ xs) h = ap (◌∷◌ x) (drop-take-append zero b xs (omega arith))
  drop-take-append (suc a) zero xs h = absurd (omega arith)
  drop-take-append (suc a) (suc b) [] h = refl
  drop-take-append (suc a) (suc b) (x ∷ xs) h = drop-take-append a b xs (omega arith)

  pub take-append_le : (n : ℕ) (xs ys : List A) → n ≤ length xs → take n (xs ++ ys) ≡ take n xs
  unfolding take
  take-append_le zero xs ys h = refl
  take-append_le (suc n) [] ys h = absurd (omega arith)
  take-append_le (suc n) (x ∷ xs) ys h = ap (◌∷◌ x) (take-append_le n xs ys (omega arith))

  pub keep-append : (p : A → Bool) (xs ys : List A) → keep p (xs ++ ys) ≡ keep p xs ++ keep p ys
  unfolding keep
  keep-append p [] ys = refl
  keep-append p (x ∷ xs) ys = ground (arith, keep-append p xs ys)

  pub reverse-append : (xs ys : List A) → reverse (xs ++ ys) ≡ reverse ys ++ reverse xs
  unfolding reverse
  reverse-append [] ys = sym (append-nil (reverse ys))
  reverse-append (x ∷ xs) ys =
      ap (λ l. l ++ x ∷ []) (reverse-append xs ys) ∙ append_assoc (reverse ys) (reverse xs) (x ∷ [])

  pub last?-append : (xs : List A) (y : A) → last? (xs ++ y ∷ []) ≡ some y
  unfolding last?
  last?-append [] y = refl
  last?-append (x ∷ []) y = refl
  last?-append (x ∷ x' ∷ xs) y = last?-append (x' ∷ xs) y

  pub last?-nil : last? [] ≡ none
  unfolding last?
  last?-nil = refl

  pub last?-eq-none : (xs : List A) → last? xs ≡ none → xs ≡ []
  unfolding last?
  last?-eq-none [] h = refl
  last?-eq-none (x ∷ []) h = ground arith
  last?-eq-none (x ∷ y ∷ xs) h = ground (arith, last?-eq-none (y ∷ xs) h)

module _ {ℓ κ} {A : Type ℓ} {B : Type κ} where
  pub map-drop : (f : A → B) (n : ℕ) (xs : List A) → map f (drop n xs) ≡ drop n (map f xs)
  unfolding drop
  map-drop f zero xs = refl
  map-drop f (suc n) [] = refl
  map-drop f (suc n) (x ∷ xs) = map-drop f n xs

  -- `f x` where it is `some`, in order.
  unfoldable pub collect : (A → Option B) → List A → List B
  collect f [] = []
  collect f (x ∷ xs) = let rest = collect f xs in elim (f x) [ none ↦ rest | some y ↦ y ∷ rest ]
