-- ===== src/Memory/Rising.antt =====
-- Histories in ascending order of revisions, and how `Compact` cuts them.
use harikube.Common.{
  ℕ, suc, ◌≤◌, ◌<◌, Bool, Option, none, some, List, [], ◌∷◌, ◌++◌, ◌≡◌, refl, ap, inl, inr, arith,
  keep, last?, last?-nil, leb, ltb, drop, Bool-cases, Option-cases, if◌then◌else◌, keep-append,
}
use harikube.Memory.Entries.{Entry, at_revision_from}

-- Revisions above `b`, each above the one before.
abbrev pub Rising : ℕ → List Entry → Type 0
Rising b [] = Unit
Rising b (e ∷ l) = (b < e.revision) × Rising e.revision l

-- The entries up to a revision, and those after it.
abbrev pub upto : ℕ → List Entry → List Entry
upto r = keep (λ e. leb e.revision r)

abbrev pub after : ℕ → List Entry → List Entry
after r = keep (λ e. ltb r e.revision)

-- The entry unless it is a tombstone.
abbrev pub live : Option Entry → Option Entry
live none = none
live (some e) = if e.deleted then none else some e

abbrev pub or_else : Option Entry → Option Entry → Option Entry
or_else none o = o
or_else (some e) o = some e

abbrev pub to_list : Option Entry → List Entry
to_list none = []
to_list (some e) = e ∷ []

pub Rising-weaken : (a b : ℕ) (l : List Entry) → a ≤ b → Rising b l → Rising a l
Rising-weaken a b [] h r = tt
Rising-weaken a b (e ∷ l) h r = (omega arith, r.1)

pub Rising-keep : (p : Entry → Bool) (b : ℕ) (l : List Entry) → Rising b l → Rising b (keep p l)
unfolding keep
Rising-keep p b [] r = tt
Rising-keep p b (e ∷ l) r = elim (Bool-cases (p e)) [
  | inl yes' ↦ rw yes' (r.0, Rising-keep p e.revision l r.1)
  | inr no' ↦ rw no' (Rising-keep p b l (Rising-weaken b e.revision l (omega arith) r.1))
]

pub Rising-drop : (b j : ℕ) (l : List Entry) → Rising b l → Rising b (drop j l)
unfolding drop
Rising-drop b ℕ.zero l r = r
Rising-drop b (suc j) [] r = tt
Rising-drop b (suc j) (e ∷ l) r = Rising-drop b j l (Rising-weaken b e.revision l (omega arith) r.1)

pub upto_above : (r b : ℕ) (l : List Entry) → r ≤ b → Rising b l → upto r l ≡ []
unfolding keep
upto_above r b [] h s = refl
upto_above r b (e ∷ l) h s = ground (arith, upto_above r e.revision l)

pub after_below : (r b : ℕ) (l : List Entry) → r ≤ b → Rising b l → after r l ≡ l
unfolding keep
after_below r b [] h s = refl
after_below r b (e ∷ l) h s = ground (arith, after_below r e.revision l)

-- A rising history is its part up to `r`, then its part after `r`.
pub upto-after : (r b : ℕ) (l : List Entry) → Rising b l → upto r l ++ after r l ≡ l
unfolding keep
upto-after r b [] s = refl
upto-after r b (e ∷ l) s =
    ground (arith, upto-after r e.revision l, upto_above r e.revision l, after_below r e.revision l)

pub last?-cons : (x : Entry) (xs : List Entry) → last? (x ∷ xs) ≡ or_else (last? xs) (some x)
unfolding last?
last?-cons x [] = refl
last?-cons x (y ∷ xs) = ground (arith, last?-cons y xs)

-- The loop of `atRevision` stops at the last entry up to the revision.
pub at_revision_from-upto :
    (o : Option Entry) (r b : ℕ) (l : List Entry)
    → Rising b l
    → at_revision_from o r l ≡ or_else (last? (upto r l)) o
unfolding at_revision_from keep
at_revision_from-upto o r b [] s = rw (last?-nil {A = Entry})
at_revision_from-upto o r b (e ∷ l) s = ground (
  arith,
  at_revision_from-upto (some e) r e.revision l,
  upto_above r e.revision l,
  last?-cons e (upto r l),
  last?-nil {A = Entry},
)

pub last?-append_or : (xs ys : List Entry) → last? (xs ++ ys) ≡ or_else (last? ys) (last? xs)
last?-append_or [] ys = elim (Option-cases (last? ys)) [
  | inl e ↦ rw (e, last?-nil {A = Entry})
  | inr (y, e) ↦ rw e
]
last?-append_or (x ∷ xs) ys =
    ground (arith, last?-cons x (xs ++ ys), last?-cons x xs, last?-append_or xs ys)

pub last?-upto-le :
    (r : ℕ) (l : List Entry) {e : Entry} → last? (upto r l) ≡ some e → e.revision ≤ r
unfolding keep
last?-upto-le r [] h = absurd (ground (arith, last?-nil {A = Entry}))
last?-upto-le r (x ∷ l) {e} h = ground (arith, last?-upto-le r l {e = e}, last?-cons x (upto r l))

pub upto-upto : (c r : ℕ) (l : List Entry) → c ≤ r → upto r (upto c l) ≡ upto c l
unfolding keep
upto-upto c r [] h = refl
upto-upto c r (e ∷ l) h = ground (arith, upto-upto c r l)

pub after-upto : (c r : ℕ) (l : List Entry) → c ≤ r → after r (upto c l) ≡ []
unfolding keep
after-upto c r [] h = refl
after-upto c r (e ∷ l) h = ground (arith, after-upto c r l)

-- A history read at `r` or later needs only the last entry up to `c` beside those after `c`.
pub last?-upto-split :
    (c r b : ℕ) (l : List Entry)
    → c ≤ r
    → Rising b l
    → last? (upto r l) ≡ or_else (last? (upto r (after c l))) (last? (upto c l))
last?-upto-split c r b l h s =
    let split : upto r (upto c l ++ after c l) ≡ upto r l = ap (upto r) (upto-after c b l s) in
    rw (← split, keep-append, upto-upto c r l h) (last?-append_or (upto c l) (upto r (after c l)))

pub after-after-upto :
    (c r b : ℕ) (l : List Entry) → c ≤ r → Rising b l → after r (after c l) ≡ after r l
after-after-upto c r b l h s =
    let split : after r (upto c l ++ after c l) ≡ after r l = ap (after r) (upto-after c b l s) in
    rw (← split, keep-append, after-upto c r l h)

-- No revision above `r`.
abbrev pub Below : ℕ → List Entry → Type 0
Below r [] = Unit
Below r (e ∷ l) = (e.revision ≤ r) × Below r l

pub Below-keep : (p : Entry → Bool) (r : ℕ) (l : List Entry) → Below r l → Below r (keep p l)
unfolding keep
Below-keep p r [] s = tt
Below-keep p r (e ∷ l) s = elim (Bool-cases (p e)) [
  | inl kept ↦ rw kept (s.0, Below-keep p r l s.1)
  | inr gone ↦ rw gone (Below-keep p r l s.1)
]

pub Below-drop : (r j : ℕ) (l : List Entry) → Below r l → Below r (drop j l)
unfolding drop
Below-drop r ℕ.zero l s = s
Below-drop r (suc j) [] s = tt
Below-drop r (suc j) (e ∷ l) s = Below-drop r j l s.1

pub upto_of_Below : (r : ℕ) (l : List Entry) → Below r l → upto r l ≡ l
unfolding keep
upto_of_Below r [] s = refl
upto_of_Below r (e ∷ l) s = ground (arith, upto_of_Below r l)

pub live-or_else-none : (o : Option Entry) → live (or_else o none) ≡ live o
live-or_else-none none = refl
live-or_else-none (some e) = refl
