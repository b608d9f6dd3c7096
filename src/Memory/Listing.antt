-- ===== src/Memory/Listing.antt =====
-- The loop of `List`, against the keys of the range in order.
use harikube.Common.{
  ℕ, zero, suc, ◌+◌, ◌≤◌, Bytes, bytes_lt, bytes_eq_iff, bytes_lt_irrefl, bytes_lt_trans,
  bytes_le_lt_trans, Bool, true, false, not, ◌&&◌, Option, none, some, List, [], ◌∷◌, ◌++◌, ◌≡◌,
  refl, ap, sym, ◌∙◌, arith, append_assoc, append-nil, length, length-append, take,
  take_of_length-le, take-append_left, keep, ltb_zero, leb, Bool-cases, inl, inr,
}
use harikube.Api.{KeyValue}
use harikube.Memory.{Memory, list_loop, entry_at}
use harikube.Memory.Map.{OrderedMap, Above, Ascending, from_key}
use harikube.Memory.Entries.{Entry, shown, past_end}

abbrev Items : Type 0
Items = List (Bytes × List Entry)

-- The keys that `List` visits: `key` alone, or `[key, end)`.
unfoldable pub listed : Bytes → Bytes → Bytes → Bool
unfolding past_end
listed key end k = not (bytes_lt k key) && not (past_end key end k)

-- No key below the start.
abbrev NotBelow : Bytes → Items → Type 0
NotBelow key [] = Unit
NotBelow key (e ∷ l) = (bytes_lt e.0 key ≡ false) × NotBelow key l

Above-trans : (j k : Bytes) (l : Items) → bytes_lt j k ≡ true → Above k l → Above j l
Above-trans j k [] p q = tt
Above-trans j k (e ∷ l) p q = bytes_lt_trans j k e.0 p q

Above-NotBelow : (k : Bytes) (l : Items) → Above k l → Ascending l → NotBelow k l
Above-NotBelow k [] a s = tt
Above-NotBelow k (e ∷ l) a s =
    (not_lt (bytes_lt e.0 k) refl, Above-NotBelow k l (Above-trans k e.0 l a s.0) s.1)
  where
    not_lt : (b : Bool) → bytes_lt e.0 k ≡ b → bytes_lt e.0 k ≡ false
    not_lt false p = p
    not_lt true p = absurd (cc (bytes_lt_trans k e.0 k a p, bytes_lt_irrefl k))

Above-from : (k j : Bytes) (l : Items) → bytes_lt j k ≡ false → Above j l → Above k l
Above-from k j [] p a = tt
Above-from k j (e ∷ l) p a = bytes_le_lt_trans k j e.0 p a

from_key-NotBelow : (k : Bytes) (l : Items) → Ascending l → NotBelow k (from_key k l)
unfolding from_key
from_key-NotBelow k [] s = tt
from_key-NotBelow k (e ∷ l) s = elim (Bool-cases (bytes_lt e.0 k)) [
  | inl below ↦ rw below (from_key-NotBelow k l s.1)
  | inr from ↦ rw from (from, Above-NotBelow k l (Above-from k e.0 l from s.0) s.1)
]

from_key-Ascending : (k : Bytes) (l : Items) → Ascending l → Ascending (from_key k l)
unfolding from_key
from_key-Ascending k [] s = tt
from_key-Ascending k (e ∷ l) s = elim (Bool-cases (bytes_lt e.0 k)) [
  | inl below ↦ rw below (from_key-Ascending k l s.1)
  | inr from ↦ rw from s
]

-- What lies below the start is not listed.
keep-from_key :
    (key end : Bytes) (l : Items)
    → Ascending l
    → keep (λ e. listed key end e.0) (from_key key l) ≡ keep (λ e. listed key end e.0) l
unfolding from_key keep listed
keep-from_key key end [] s = refl
keep-from_key key end (e ∷ l) s = ground (arith, keep-from_key key end l)

-- Past the end of the range every key is.
past_end_mono :
    (key end j k : Bytes)
    → bytes_lt j key ≡ false
    → past_end key end j ≡ true
    → bytes_lt j k ≡ true
    → past_end key end k ≡ true
unfolding past_end
past_end_mono key end j k p q r = ground (
  arith,
  bytes_le_lt_trans key j k,
  bytes_lt_trans j k end,
  bytes_eq_iff k key,
  bytes_lt_irrefl key,
)

listed_past :
    (key end j : Bytes) (l : Items)
    → bytes_lt j key ≡ false
    → past_end key end j ≡ true
    → Above j l
    → Ascending l
    → keep (λ e. listed key end e.0) l ≡ []
unfolding keep
listed_past key end j [] p q a s = refl
listed_past key end j (e ∷ l) p q a s =
    let beyond = past_end_mono key end j e.0 p q a in
    let out : listed key end e.0 ≡ false = unfold listed in ground arith in
    rw out (listed_past key end j l p q (Above-trans j e.0 l a s.0) s.1)

-- What is shown of the listed keys, in order.
unfoldable pub shows : (Bytes → List KeyValue) → Items → List KeyValue
shows vis [] = []
shows vis (e ∷ l) = vis e.0 ++ shows vis l

-- `limit` 0 stands for none.
abbrev pub limited {ℓ} : {A : Type ℓ} → ℕ → List A → List A
limited zero l = l
limited (suc n) l = take (suc n) l

-- At most one pair, under the given key.
abbrev pub Single : Bytes → List KeyValue → Type 0
Single k [] = Unit
Single k (kv ∷ []) = kv.key ≡ k
Single k (kv ∷ kv' ∷ l) = ⊥

-- What `List` shows of a key.
abbrev pub vis : {B : OrderedMap (List Entry)} → Memory B → ℕ → Bool → Bytes → List KeyValue
vis m revision keys_only k = shown keys_only (entry_at m revision k)

module _ {B : OrderedMap (List Entry)} (m : Memory B) (key end : Bytes) (revision : ℕ)
    (keys_only : Bool) where
  abbrev rest_of : Items → List KeyValue
  rest_of l = shows (vis m revision keys_only) (keep (λ e. listed key end e.0) l)

  rest_past :
      (e : Bytes × List Entry) (l : Items)
      → NotBelow key (e ∷ l)
      → Ascending (e ∷ l)
      → past_end key end e.0 ≡ true
      → rest_of (e ∷ l) ≡ []
  unfolding shows keep
  rest_past e l b s past =
      let out : listed key end e.0 ≡ false = unfold listed in ground arith in
      rw (out, listed_past key end e.0 l b.0 past s.0 s.1)

  rest_inside :
      (e : Bytes × List Entry) (l : Items)
      → NotBelow key (e ∷ l)
      → past_end key end e.0 ≡ false
      → rest_of (e ∷ l) ≡ vis m revision keys_only e.0 ++ rest_of l
  unfolding shows keep
  rest_inside e l b inside =
      let here : listed key end e.0 ≡ true = unfold listed in ground arith in rw here

  -- With no limit the loop collects what is shown of every listed key.
  pub loop-unlimited :
      (kvs : List KeyValue) (l : Items)
      → NotBelow key l
      → Ascending l
      → list_loop m key end 0 revision keys_only kvs l ≡ kvs ++ rest_of l
  unfolding list_loop
  loop-unlimited kvs [] b s = unfold shows keep in rw append-nil
  loop-unlimited kvs (e ∷ l) b s = elim (Bool-cases (past_end key end e.0)) [
    | inl past ↦ rw (past, rest_past e l b s past) (sym (append-nil kvs))
    | inr inside ↦
        rw (inside, rest_inside e l b inside)
          (loop-unlimited (kvs ++ vis m revision keys_only e.0) l b.1 s.1
            ∙ append_assoc kvs (vis m revision keys_only e.0) (rest_of l))
  ]

  length-shown : (o : Option Entry) → length (shown keys_only o) ≤ 1
  unfolding shown
  length-shown none = omega arith
  length-shown (some e) = ground arith

  -- With a limit it stops at the first pairs.
  pub loop-limited :
      (n : ℕ) (kvs : List KeyValue) (l : Items)
      → NotBelow key l
      → Ascending l
      → length kvs ≤ n
      → list_loop m key end (suc n) revision keys_only kvs l ≡ take (suc n) (kvs ++ rest_of l)
  unfolding list_loop
  loop-limited n kvs [] b s h =
      unfold shows keep in rw append-nil (sym (take_of_length-le kvs (omega arith)))
  loop-limited n kvs (e ∷ l) b s h = elim (Bool-cases (past_end key end e.0)) [
    | inl past ↦
        rw (past, rest_past e l b s past, append-nil) (sym (take_of_length-le kvs (omega arith)))
    | inr inside ↦
        rw
          (
            inside,
            rest_inside e l b inside,
            ← append_assoc kvs (vis m revision keys_only e.0) (rest_of l),
          )
          (elim (Bool-cases (leb (suc n) (length (kvs ++ vis m revision keys_only e.0)))) [
            | inl full ↦
                rw (ltb_zero n, full)
                  (sym (
                    take-append_left (suc n) (kvs ++ vis m revision keys_only e.0) (rest_of l) (
                      full_length (length-append kvs (vis m revision keys_only e.0))
                        (length-shown (entry_at m revision e.0)) h full)))
            | inr room ↦
                rw (ltb_zero n, room)
                  (loop-limited n (kvs ++ vis m revision keys_only e.0) l b.1 s.1 (ground arith))
          ])
  ]
    where
      full_length : {a b k : ℕ} → k ≡ a + b → b ≤ 1 → a ≤ n → leb (suc n) k ≡ true → k ≡ suc n
      full_length p q r t = ground arith

  -- The loop from the start of the range, for any limit.
  pub loop-listed :
      (limit : ℕ)
      → list_loop m key end limit revision keys_only [] (B.seek m.keys key)
        ≡ limited limit (rest_of (B.scan m.keys))
  loop-listed limit =
      rw
        (
          B.seek-scan,
          ← ap (shows (vis m revision keys_only))
              (keep-from_key key end (B.scan m.keys) (B.scan-Ascending m.keys)),
        )
        (by_limit limit)
    where
      below : NotBelow key (from_key key (B.scan m.keys))
      below = from_key-NotBelow key (B.scan m.keys) (B.scan-Ascending m.keys)

      rising : Ascending (from_key key (B.scan m.keys))
      rising = from_key-Ascending key (B.scan m.keys) (B.scan-Ascending m.keys)

      by_limit :
          (k : ℕ)
          → list_loop m key end k revision keys_only [] (from_key key (B.scan m.keys))
            ≡ limited k (rest_of (from_key key (B.scan m.keys)))
      by_limit zero = loop-unlimited [] (from_key key (B.scan m.keys)) below rising
      by_limit (suc k) = loop-limited k [] (from_key key (B.scan m.keys)) below rising (omega arith)
