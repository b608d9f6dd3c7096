-- ===== src/Common/Splits.antt =====
-- `strings.Split` and `strings.Join` at one byte.
use Prim.Native.Nat.{ℕ}
use mathlib.Core.Path.{◌≡◌, refl, ap, sym, ◌∙◌}
use mathlib.Core.Logic.{inl, inr}
use mathlib.Core.Bool.{Bool, true, false}
use mathlib.Core.List.{List, [], ◌∷◌, ◌++◌}
use native.Mathlib.Omega.{arith}
use harikube.Common.Tests.{◌==◌, if◌then◌else◌, Bool-cases}
use harikube.Common.Strings.{Bytes}

add_to_first : ℕ → List Bytes → List Bytes
add_to_first c [] = (c ∷ []) ∷ []
add_to_first c (s ∷ l) = (c ∷ s) ∷ l

-- `strings.Split`
unfoldable pub split : ℕ → Bytes → List Bytes
unfolding add_to_first
split sep [] = [] ∷ []
split sep (c ∷ s) = let rest = split sep s in if c == sep then [] ∷ rest else add_to_first c rest

-- `strings.Join`
unfoldable pub join : ℕ → List Bytes → Bytes
join sep [] = []
join sep (p ∷ []) = p
join sep (p ∷ q ∷ l) = p ++ sep ∷ join sep (q ∷ l)

unfoldable pub has_byte : ℕ → Bytes → Bool
has_byte b [] = false
has_byte b (c ∷ s) = let rest = has_byte b s in if c == b then true else rest

-- No part has the byte.
abbrev pub Without : ℕ → List Bytes → Type 0
Without sep [] = Unit
Without sep (p ∷ l) = (has_byte sep p ≡ false) × Without sep l

add_to_first-Without :
    (sep c : ℕ) (l : List Bytes)
    → (c == sep) ≡ false
    → Without sep l
    → Without sep (add_to_first c l)
unfolding add_to_first has_byte
add_to_first-Without sep c [] h w = (simp h refl, tt)
add_to_first-Without sep c (p ∷ l) h w = (simp h w.0, w.1)

pub split-Without : (sep : ℕ) (s : Bytes) → Without sep (split sep s)
unfolding split has_byte
split-Without sep [] = (refl, tt)
split-Without sep (c ∷ s) = elim (Bool-cases (c == sep)) [
  | inl here ↦ simp here (refl, split-Without sep s)
  | inr other ↦ simp other (add_to_first-Without sep c (split sep s) other (split-Without sep s))
]

split-cons : (sep : ℕ) (p : Bytes) → has_byte sep p ≡ false → split sep p ≡ p ∷ []
unfolding split has_byte add_to_first
split-cons sep [] h = refl
split-cons sep (c ∷ p) h = elim (Bool-cases (c == sep)) [
  | inl here ↦ absurd (ground arith)
  | inr other ↦ simp other (ap (add_to_first c) (split-cons sep p (ground arith)))
]

pub split-some : (sep : ℕ) (s : Bytes) → (p : Bytes) × (l : List Bytes) × (split sep s ≡ p ∷ l)
unfolding split add_to_first
split-some sep [] = ([], [], refl)
split-some sep (c ∷ s) =
    let (p, l, e) = split-some sep s in
    elim (Bool-cases (c == sep)) [
      | inl here ↦ ([], split sep s, simp here refl)
      | inr other ↦ (c ∷ p, l, simp (other, e) refl)
    ]

join-add_to_first : (sep c : ℕ) (l : List Bytes) → join sep (add_to_first c l) ≡ c ∷ join sep l
unfolding add_to_first join
join-add_to_first sep c [] = refl
join-add_to_first sep c (p ∷ []) = refl
join-add_to_first sep c (p ∷ q ∷ l) = refl

pub join-split : (sep : ℕ) (s : Bytes) → join sep (split sep s) ≡ s
unfolding split join
join-split sep [] = refl
join-split sep (c ∷ s) =
    let (p, l, e) = split-some sep s in
    elim (Bool-cases (c == sep)) [
      | inl here ↦
          let same : c ≡ sep = ground arith in
          simp (here, e)
            (ap (λ x. x ∷ join sep (p ∷ l)) (sym same)
              ∙ ap (λ x. c ∷ join sep x) (sym e)
              ∙ ap (λ x. c ∷ x) (join-split sep s))
      | inr other ↦
          simp other (join-add_to_first sep c (split sep s) ∙ ap (λ x. c ∷ x) (join-split sep s))
    ]

split-append :
    (sep : ℕ) (p s : Bytes) → has_byte sep p ≡ false → split sep (p ++ sep ∷ s) ≡ p ∷ split sep s
unfolding split has_byte add_to_first
split-append sep [] s h = let same : (sep == sep) ≡ true = ground arith in simp same refl
split-append sep (c ∷ p) s h = elim (Bool-cases (c == sep)) [
  | inl here ↦ absurd (ground arith)
  | inr other ↦ simp other (ap (add_to_first c) (split-append sep p s (ground arith)))
]

pub split-join :
    (sep : ℕ) (p : Bytes) (l : List Bytes)
    → Without sep (p ∷ l)
    → split sep (join sep (p ∷ l)) ≡ p ∷ l
unfolding join
split-join sep p [] w = split-cons sep p w.0
split-join sep p (q ∷ l) w = split-append sep p _ w.0 ∙ ap (λ x. p ∷ x) (split-join sep q l w.1)
