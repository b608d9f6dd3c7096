-- ===== src/Memory/Trim.antt =====
-- What `Compact` keeps of a history: its floor if that is no tombstone, and all after it.
use harikube.Common.{
  ℕ, suc, ◌+◌, ◌≤◌, ◌<◌, Option, none, some, List, [], ◌∷◌, ◌++◌, ◌≡◌, refl, ap, sym, ◌∙◌, ◌⊎◌, inl,
  inr, arith, keep, last?, last?-nil, last?-eq-none, length, leb, drop, length-drop, Bool-cases,
  keep-append, append-nil, append_assoc, zero, drop-drop,
}
use harikube.Memory.Entries.{Entry, floor_from, new_hist, trim}
use harikube.Memory.Rising.{
  Rising, upto, after, live, or_else, to_list, Rising-drop, upto_above, after_below, upto-after,
  last?-cons, last?-append_or, last?-upto-le, last?-upto-split, after-after-upto,
}

abbrev floor_spec : Option (List Entry) → ℕ → List Entry → Option Entry → Option (List Entry)
floor_spec o r l none = o
floor_spec o r l (some e) = some (e ∷ after r l)

floor_from-spec :
    (o : Option (List Entry)) (r b : ℕ) (l : List Entry)
    → Rising b l
    → floor_from o r l ≡ floor_spec o r l (last? (upto r l))
unfolding floor_from keep
floor_from-spec o r b [] s = rw (last?-nil {A = Entry})
floor_from-spec o r b (e ∷ l) s = ground (
  arith,
  floor_from-spec (some (e ∷ l)) r e.revision l,
  upto_above r e.revision l,
  after_below r e.revision l,
  upto-after r e.revision l,
  last?-cons e (upto r l),
  last?-eq-none (upto r l),
  last?-nil {A = Entry},
)

new_hist-spec :
    (r b : ℕ) (l : List Entry) (o : Option Entry)
    → Rising b l
    → last? (upto r l) ≡ o
    → new_hist l (floor_spec none r l o) ≡ to_list (live o) ++ after r l
unfolding new_hist
new_hist-spec r b l none s h =
    let nothing = last?-eq-none (upto r l) h in sym (rw nothing at (upto-after r b l s))
new_hist-spec r b l (some e) s h = ground arith

pub trim_lem :
    (r b : ℕ) (l : List Entry)
    → Rising b l
    → trim r l ≡ to_list (live (last? (upto r l))) ++ after r l
unfolding trim
trim_lem r b l s = rw (floor_from-spec none r b l s) (new_hist-spec r b l _ s refl)

-- Before the first compaction nothing is cut.
pub trim-zero : (l : List Entry) → Rising 0 l → trim 0 l ≡ l
trim-zero l s =
    rw (trim_lem 0 0 l s, upto_above 0 0 l (omega arith) s, last?-nil {A = Entry})
      (after_below 0 0 l (omega arith) s)

pub trim-append :
    (r b : ℕ) (l : List Entry) (e : Entry)
    → Rising b (l ++ e ∷ [])
    → Rising b l
    → r < e.revision
    → trim r (l ++ e ∷ []) ≡ trim r l ++ e ∷ []
trim-append r b l e s s' h =
    rw (trim_lem r b (l ++ e ∷ []) s, trim_lem r b l s', keep-append, keep-append)
      (unfold keep in
        ground (
          arith,
          append-nil (upto r l),
          append_assoc (to_list (live (last? (upto r l)))) (after r l) (e ∷ []),
        ))

floor_suffix :
    (o : Option (List Entry)) (r : ℕ) (l : List Entry)
    → (floor_from o r l ≡ o) ⊎ ((j : ℕ) × (floor_from o r l ≡ some (drop j l)))
unfolding floor_from drop
floor_suffix o r [] = inl refl
floor_suffix o r (e ∷ l) = elim (Bool-cases (leb e.revision r)) [
  | inl le ↦ rw le (elim (floor_suffix (some (e ∷ l)) r l) [
    | inl here ↦ inr (0, here)
    | inr (j, there) ↦ inr (suc j, there)
  ])
  | inr gt ↦ inl (rw gt)
]

new_hist_suffix :
    (l : List Entry) (j : ℕ) (d : List Entry)
    → drop j l ≡ d
    → (i : ℕ) × (new_hist l (some d) ≡ drop i l)
unfolding new_hist drop
new_hist_suffix l j [] h = (0, refl)
new_hist_suffix l j (e ∷ d) h = elim (Bool-cases e.deleted) [
  | inl dead ↦ (j + 1, rw (dead, ← drop-drop 1 j l, h))
  | inr alive ↦ (j, simp alive (sym h))
]

-- What stays is a suffix.
pub trim-drop : (r : ℕ) (l : List Entry) → (j : ℕ) × (trim r l ≡ drop j l)
unfolding trim
trim-drop r l = elim (floor_suffix none r l) [
  | inl e ↦ (0, rw e (unfold new_hist drop in refl))
  | inr (j, e) ↦ rw e (new_hist_suffix l j (drop j l) refl)
]

pub Rising-trim : (r b : ℕ) (l : List Entry) → Rising b l → Rising b (trim r l)
Rising-trim r b l s = let (j, e) = trim-drop r l in rw e (Rising-drop b j l s)

drop_whole : (j : ℕ) (l : List Entry) → length (drop j l) ≡ length l → drop j l ≡ l
unfolding drop
drop_whole zero l h = refl
drop_whole (suc j) [] h = refl
drop_whole (suc j) (e ∷ l) h = absurd (omega (arith, length-drop j l))

-- The test on lengths in `Compact` finds whether anything was cut.
pub trim_whole : (r : ℕ) (l : List Entry) → length (trim r l) ≡ length l → trim r l ≡ l
trim_whole r l h = let (j, e) = trim-drop r l in e ∙ drop_whole j l (ap length (sym e) ∙ h)

read_floor :
    (c r : ℕ) (o : Option Entry)
    → c ≤ r
    → ((e : Entry) → o ≡ some e → e.revision ≤ c)
    → last? (upto r (to_list (live o))) ≡ live o
unfolding keep last?
read_floor c r none h below = refl
read_floor c r (some e) h below = let le = below e refl in ground arith

-- Reads at the compact revision or later see through a compaction.
pub read-trim :
    (c r b : ℕ) (l : List Entry)
    → c ≤ r
    → Rising b l
    → live (last? (upto r (trim c l))) ≡ live (last? (upto r l))
read-trim c r b l h s =
    rw
      (
        trim_lem c b l s,
        keep-append,
        last?-append_or,
        last?-upto-split c r b l h s,
        read_floor c r (last? (upto c l)) h (λ e. last?-upto-le c l {e = e}),
      )
      (or_live (last? (upto r (after c l))) (last? (upto c l)))
  where
    or_live : (o p : Option Entry) → live (or_else o (live p)) ≡ live (or_else o p)
    or_live none none = refl
    or_live none (some e) = ground arith
    or_live (some e) p = refl

after_floor :
    (c r : ℕ) (o : Option Entry)
    → c ≤ r
    → ((e : Entry) → o ≡ some e → e.revision ≤ c)
    → after r (to_list (live o)) ≡ []
unfolding keep
after_floor c r none h below = refl
after_floor c r (some e) h below = let le = below e refl in ground arith

-- A compaction after another one keeps what it would have kept of the whole history.
pub trim-trim : (c r b : ℕ) (l : List Entry) → c ≤ r → Rising b l → trim r (trim c l) ≡ trim r l
trim-trim c r b l h s =
    rw (trim_lem r b (trim c l) (Rising-trim c b l s), trim_lem r b l s, read-trim c r b l h s)
      (ap (◌++◌ (to_list (live (last? (upto r l))))) later)
  where
    later : after r (trim c l) ≡ after r l
    later =
        rw
          (
            trim_lem c b l s,
            keep-append,
            after_floor c r (last? (upto c l)) h (λ e. last?-upto-le c l {e = e}),
          )
          (after-after-upto c r b l h s)
