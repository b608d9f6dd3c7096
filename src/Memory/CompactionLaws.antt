-- ===== src/Memory/CompactionLaws.antt =====
-- `Compact` of the in-memory backend does what the specification says: every history is cut at its
-- floor, and the log begins one entry earlier with every compaction.
use harikube.Common.{
  ℕ, suc, ◌-◌, ◌≤◌, ◌<◌, Bytes, bytes_eq, bytes_lt, bytes_eq_iff, bytes_lt_irrefl, bytes_lt_trans,
  Bool, true, false, not, ◌||◌, ◌&&◌, Option, none, some, List, [], ◌∷◌, ◌++◌, ◌≡◌, refl, ap, sym,
  ◌∙◌, arith, subst, length, drop, drop-drop, ltb, leb, ◌==◌, Bool-cases, inl, inr, if◌then◌else◌,
}
use harikube.Api.{Error}
use harikube.Memory.{Memory, hist_of}
use harikube.Memory.Map.{OrderedMap, Above, Ascending, lookup}
use harikube.Memory.Entries.{Entry, trim, or_nil}
use harikube.Memory.Compaction.{compact_key, compact_scan, remove_keys, trim_keys, cut_log, compact}
use harikube.Memory.Trim.{trim_whole, trim-trim}
use harikube.Memory.History.{Represents, key_history, Rising-key_history}
use harikube.Memory.Spec
use harikube.Memory.Spec.{Spec}
use harikube.Memory.Writes.{Refines}

unfoldable contains : Bytes → List Bytes → Bool
contains k [] = false
contains k (j ∷ l) = bytes_eq j k || contains k l

contains-append :
    (k j : Bytes) (l : List Bytes) → contains k (l ++ j ∷ []) ≡ (contains k l || bytes_eq j k)
unfolding contains
contains-append k j [] = ground arith
contains-append k j (i ∷ l) = ground (arith, contains-append k j l)

length_zero : (l : List Entry) → length l ≡ 0 → l ≡ []
length_zero [] h = refl
length_zero (e ∷ l) h = absurd (omega arith)

pub lookup-Above :
    {A : Type 0} (k : Bytes) (l : List (Bytes × A)) → Above k l → Ascending l → lookup k l ≡ none
unfolding lookup
lookup-Above {A} k [] a s = refl
lookup-Above {A} k ((j, v) ∷ l) a s =
    let apart : bytes_eq j k ≡ false = elim (Bool-cases (bytes_eq j k)) [
      | inl same ↦ absurd (cc (ap (bytes_lt k) ((bytes_eq_iff j k).0 same), bytes_lt_irrefl k))
      | inr other ↦ other
    ] in
    rw apart (lookup-Above k l (above-trans l a s.0) s.1)
  where
    above-trans : (l : List (Bytes × A)) → bytes_lt k j ≡ true → Above j l → Above k l
    above-trans [] p q = tt
    above-trans (e ∷ l) p q = bytes_lt_trans k j e.0 p q

-- The history that the scan leaves under a key, by what it was.
abbrev scanned : ℕ → Option (List Entry) → Option (List Entry) → Option (List Entry)
scanned r none old = old
scanned r (some hist) old =
    if length (trim r hist) == 0
    then old
    else if not (length (trim r hist) == length hist)
    then some (trim r hist)
    else old

abbrev emptied : ℕ → Option (List Entry) → Bool
emptied r none = false
emptied r (some hist) = length (trim r hist) == 0

-- The cut of the log, which leaves the entry at the compact revision.
cut-drop :
    (h : List Entry) (n c r : ℕ)
    → n ≤ c
    → c < r
    → (if ltb 0 (r - c - 1) then drop (r - c - 1) (drop (c - n) h) else drop (c - n) h)
      ≡ drop (r - suc n) h
cut-drop h n c r p q = elim (Bool-cases (ltb 0 (r - c - 1))) [
  | inl some_cut ↦ rw some_cut (drop-drop (r - c - 1) (c - n) h ∙ ap (λ k. drop k h) (omega arith))
  | inr no_cut ↦ rw no_cut (ap (λ k. drop k h) (ground arith))
]

-- The number of compactions after a call.
abbrev pub counted : Option Error → ℕ → ℕ
counted none n = suc n
counted (some e) n = n

module _ {B : OrderedMap (List Entry)} where
  compact_key-get :
      (r : ℕ) (key : Bytes) (hist : List Entry) (s : Memory B × List Bytes) (k : Bytes)
      → B.get (compact_key r key hist s).0.keys k
        ≡ (if bytes_eq key k then scanned r (some hist) (B.get s.0.keys k) else B.get s.0.keys k)
  unfolding compact_key
  compact_key-get r key hist (m, rem) k = ground (arith, B.get-set m.keys key (trim r hist) k)

  compact_key-removed :
      (r : ℕ) (key : Bytes) (hist : List Entry) (s : Memory B × List Bytes) (k : Bytes)
      → contains k (compact_key r key hist s).1
        ≡ (contains k s.1 || bytes_eq key k && emptied r (some hist))
  unfolding compact_key
  compact_key-removed r key hist (m, rem) k = ground (arith, contains-append k key rem)

  scan-get :
      (r : ℕ) (items : List (Bytes × List Entry)) (s : Memory B × List Bytes) (k : Bytes)
      → Ascending items
      → B.get (compact_scan r items s).0.keys k ≡ scanned r (lookup k items) (B.get s.0.keys k)
  unfolding compact_scan lookup
  scan-get r [] s k a = refl
  scan-get r ((j, hist) ∷ items) s k a = elim (Bool-cases (bytes_eq j k)) [
    | inl same ↦
        let gone =
          lookup-Above k items (subst (λ x. Above x items) ((bytes_eq_iff j k).0 same) a.0) a.1 in
        rw (scan-get r items (compact_key r j hist s) k a.1, gone, compact_key-get, same)
    | inr other ↦ rw (scan-get r items (compact_key r j hist s) k a.1, compact_key-get, other)
  ]

  scan-removed :
      (r : ℕ) (items : List (Bytes × List Entry)) (s : Memory B × List Bytes) (k : Bytes)
      → Ascending items
      → contains k (compact_scan r items s).1 ≡ (contains k s.1 || emptied r (lookup k items))
  unfolding compact_scan lookup
  scan-removed r [] s k a = ground arith
  scan-removed r ((j, hist) ∷ items) s k a = elim (Bool-cases (bytes_eq j k)) [
    | inl same ↦
        let gone =
          lookup-Above k items (subst (λ x. Above x items) ((bytes_eq_iff j k).0 same) a.0) a.1 in
        rw (scan-removed r items (compact_key r j hist s) k a.1, gone, compact_key-removed, same)
          (ground arith)
    | inr other ↦
        rw (scan-removed r items (compact_key r j hist s) k a.1, compact_key-removed, other)
          (ground arith)
  ]

  remove_keys-get :
      (ks : List Bytes) (m : Memory B) (k : Bytes)
      → B.get (remove_keys ks m).keys k ≡ (if contains k ks then none else B.get m.keys k)
  unfolding remove_keys contains
  remove_keys-get [] m k = refl
  remove_keys-get (j ∷ ks) m k =
      rw (remove_keys-get ks (record m { keys = B.delete m.keys j }) k, B.get-delete) (ground arith)

  -- `Compact` cuts the history of every key, listed or not.
  pub hists-trim_keys :
      (r : ℕ) (m : Memory B) (k : Bytes) → hist_of (trim_keys r m) k ≡ trim r (hist_of m k)
  unfolding trim_keys
  hists-trim_keys r m k =
      rw
        (
          remove_keys-get (compact_scan r (B.scan m.keys) (m, [])).1
              (compact_scan r (B.scan m.keys) (m, [])).0 k,
          scan-removed r (B.scan m.keys) (m, []) k (B.scan-Ascending m.keys),
          scan-get r (B.scan m.keys) (m, []) k (B.scan-Ascending m.keys),
          B.lookup-scan,
        )
        (cut (B.get m.keys k))
    where
      cut :
          (o : Option (List Entry))
          → or_nil (if contains k [] || emptied r o then none else scanned r o o)
            ≡ trim r (or_nil o)
      cut none = unfold trim contains in refl
      cut (some hist) =
          unfold contains in ground (arith, trim_whole r hist, length_zero (trim r hist))

  -- What the histories' part of `Compact` leaves alone.
  abbrev Same : Memory B → Memory B → Type 0
  Same m m' = (m.current ≡ m'.current) × (m.compact ≡ m'.compact) × (m.log ≡ m'.log)

  compact_key-Same :
      (r : ℕ) (key : Bytes) (hist : List Entry) (s : Memory B × List Bytes)
      → Same (compact_key r key hist s).0 s.0
  unfolding compact_key
  compact_key-Same r key hist (m, rem) = ground arith

  scan-Same :
      (r : ℕ) (items : List (Bytes × List Entry)) (s : Memory B × List Bytes)
      → Same (compact_scan r items s).0 s.0
  unfolding compact_scan
  scan-Same r [] s = (refl, refl, refl)
  scan-Same r (e ∷ items) s =
      let (a, b, c) = scan-Same r items (compact_key r e.0 e.1 s) in
      let (a', b', c') = compact_key-Same r e.0 e.1 s in (a ∙ a', b ∙ b', c ∙ c')

  remove_keys-Same : (ks : List Bytes) (m : Memory B) → Same (remove_keys ks m) m
  unfolding remove_keys
  remove_keys-Same [] m = (refl, refl, refl)
  remove_keys-Same (k ∷ ks) m = remove_keys-Same ks (record m { keys = B.delete m.keys k })

  trim_keys-Same : (r : ℕ) (m : Memory B) → Same (trim_keys r m) m
  unfolding trim_keys
  trim_keys-Same r m =
      let s = compact_scan r (B.scan m.keys) (m, []) in
      let (a, b, c) = remove_keys-Same s.1 s.0 in
      let (a', b', c') = scan-Same r (B.scan m.keys) (m, []) in (a ∙ a', b ∙ b', c ∙ c')

  module _ {h : List Entry} {n : ℕ} {m : Memory B} (R : Represents h n m) where
    -- A compaction that goes through, of a revision above the compact revision.
    pub compaction-Represents :
        (r : ℕ) → m.compact < r → r ≤ m.current → Represents h (suc n) (cut_log r (trim_keys r m))
    unfolding cut_log
    compaction-Represents r p q =
        let (same_current, same_compact, same_log) = trim_keys-Same r m in
        record {
          dense = R.dense;
          current = same_current ∙ R.current;
          compact_le = rw same_current q;
          count_le = omega (arith, R.count_le);
          log = rw (same_compact, same_log, R.log) (cut-drop h n m.compact r R.count_le p);
          hists = λ k.
              hists-trim_keys r m k
              ∙ ap (trim r) (R.hists k)
              ∙ trim-trim m.compact r 0 (key_history k h) (omega arith)
                  (Rising-key_history k h R.dense);
        }

  -- `Compact` refuses a revision above the current one or at most the compact revision, and changes
  -- nothing then. Otherwise it sets the compact revision, and the histories that it leaves stand
  -- for the whole history as before.
  pub compact-Refines :
      {s : Spec} {n : ℕ} {m : Memory B} (R : Refines s n m) (r : ℕ)
      → Refines (Spec.compact r s).0 (counted (compact r m).1.1 n) (compact r m).0
        × ((compact r m).1 ≡ (Spec.compact r s).1)
  unfolding compact Spec.compact
  compact-Refines {s} {n} {m} R r = elim (Bool-cases (ltb m.current r)) [
    | inl future ↦ simp (sym R.represents.current, sym R.compact, future) (R, refl)
    | inr here ↦ elim (Bool-cases (leb r m.compact)) [
      | inl old ↦ simp (sym R.represents.current, sym R.compact, here, old) (R, refl)
      | inr new ↦
          simp (sym R.represents.current, sym R.compact, here, new)
            (
              record {
                represents = compaction-Represents R.represents r (ground arith) (ground arith);
                compact = unfold cut_log in refl;
              },
              refl,
            )
    ]
  ]
