-- ===== src/Memory/History.antt =====
-- The abstract view of the in-memory backend: the list of all entries ever appended, of which the
-- state holds what the compactions left.
use harikube.Common.{
  ℕ, suc, ◌+◌, ◌-◌, ◌≤◌, Bytes, bytes_eq, true, Option, none, List, [], ◌∷◌, ◌++◌, ◌≡◌, refl, ap,
  sym, ◌∙◌, arith, keep, last?, length, drop, Bool-cases, inl, inr, append-nil, subst, keep-append,
  length-append, drop-append, bytes_eq_iff,
}
use harikube.Memory.{Memory, hist_of, latest, at_revision, append_entry, new}
use harikube.Memory.Map.{OrderedMap}
use harikube.Memory.Entries.{Entry, trim}
use harikube.Memory.Rising.{
  Rising, upto, live, Rising-keep, Rising-weaken, at_revision_from-upto, Below, Below-keep,
  Below-drop, upto_of_Below, live-or_else-none,
}
use harikube.Memory.Trim.{trim-drop, trim-zero, trim-append, read-trim, Rising-trim}

-- The entries of one key, oldest first.
abbrev pub key_history : Bytes → List Entry → List Entry
key_history k = keep (λ e. bytes_eq e.key k)

-- The entry that a reader at revision `r` sees for a key: the last one up to `r`, unless that is a
-- tombstone.
abbrev pub state_at : List Entry → ℕ → Bytes → Option Entry
state_at h r k = live (last? (upto r (key_history k h)))

-- The revisions are `b + 1`, `b + 2` and so on.
abbrev pub Dense : ℕ → List Entry → Type 0
Dense b [] = Unit
Dense b (e ∷ h) = (e.revision ≡ suc b) × Dense (suc b) h

pub Dense-Rising : (b : ℕ) (h : List Entry) → Dense b h → Rising b h
Dense-Rising b [] d = tt
Dense-Rising b (e ∷ h) d =
    (omega arith, Rising-weaken e.revision (suc b) h (omega arith) (Dense-Rising (suc b) h d.1))

pub Dense-Below : (b r : ℕ) (h : List Entry) → Dense b h → b + length h ≤ r → Below r h
Dense-Below b r [] d le = tt
Dense-Below b r (e ∷ h) d le = (omega arith, Dense-Below (suc b) r h d.1 (omega arith))

pub Dense-append :
    (b : ℕ) (h : List Entry) (e : Entry)
    → Dense b h
    → e.revision ≡ suc (b + length h)
    → Dense b (h ++ e ∷ [])
Dense-append b [] e d p = (omega arith, tt)
Dense-append b (x ∷ h) e d p = (d.0, Dense-append (suc b) h e d.1 (omega arith))

pub Rising-key_history : (k : Bytes) (h : List Entry) → Dense 0 h → Rising 0 (key_history k h)
Rising-key_history k h d = Rising-keep (λ e. bytes_eq e.key k) 0 h (Dense-Rising 0 h d)

-- `m` is what `n` compactions left of the history `h`. The log begins `n - 1` entries before the
-- compact revision, or with the first entry.
pub record Represents {B : OrderedMap (List Entry)} (h : List Entry) (n : ℕ) (m : Memory B)
    : Type 0 where
  pub dense : Dense 0 h
  pub current : m.current ≡ length h
  pub compact_le : m.compact ≤ m.current
  pub count_le : n ≤ m.compact
  pub log : m.log ≡ drop (m.compact - n) h
  pub hists : (k : Bytes) → hist_of m k ≡ trim m.compact (key_history k h)

module _ {B : OrderedMap (List Entry)} where
  -- `New` represents the empty history.
  pub new-Represents : Represents [] 0 (new {B = B})
  unfolding drop keep
  new-Represents = record {
    dense = tt;
    current = refl;
    compact_le = omega arith;
    count_le = omega arith;
    log = refl;
    hists = λ k. rw (B.get-empty k) (sym (trim-zero [] tt));
  }

  module _ {h : List Entry} {n : ℕ} {m : Memory B} (R : Represents h n m) where
    pub hist-Rising : (k : Bytes) → Rising 0 (hist_of m k)
    hist-Rising k =
        rw (R.hists k) (Rising-trim m.compact 0 (key_history k h) (Rising-key_history k h R.dense))

    -- The lookups of the code, against the history.
    pub live-at_revision :
        (r : ℕ) (k : Bytes) → m.compact ≤ r → live (at_revision m k r) ≡ state_at h r k
    unfolding at_revision
    live-at_revision r k le =
        rw (at_revision_from-upto none r 0 (hist_of m k) (hist-Rising k), R.hists k)
          (live-or_else-none _
            ∙ read-trim m.compact r 0 (key_history k h) le (Rising-key_history k h R.dense))

    hist-Below : (k : Bytes) → Below m.current (trim m.compact (key_history k h))
    hist-Below k =
        let (j, e) = trim-drop m.compact (key_history k h) in
        rw e (
          Below-drop m.current j (key_history k h) (
            Below-keep (λ x. bytes_eq x.key k) m.current h
              (Dense-Below 0 m.current h R.dense (omega (arith, R.current)))))

    pub live-latest : (k : Bytes) → live (latest m k) ≡ state_at h m.current k
    unfolding latest
    live-latest k =
        rw (R.hists k, ← upto_of_Below m.current (trim m.compact (key_history k h)) (hist-Below k))
          (read-trim m.compact m.current 0 (key_history k h) R.compact_le
            (Rising-key_history k h R.dense))

    hists-append_entry_same :
        (e : Entry) (k : Bytes)
        → e.key ≡ k
        → e.revision ≡ suc m.current
        → bytes_eq e.key k ≡ true
        → hist_of m e.key ++ e ∷ [] ≡ trim m.compact (key_history k (h ++ e ∷ []))
    hists-append_entry_same e k eq p same =
        let grown : key_history k (h ++ e ∷ []) ≡ key_history k h ++ e ∷ [] =
          keep-append _ h (e ∷ []) ∙ ap (◌++◌ (key_history k h)) (unfold keep in rw same) in
        let rising : Rising 0 (key_history k h ++ e ∷ []) = subst (Rising 0) grown (
          Rising-key_history k (h ++ e ∷ [])
            (Dense-append 0 h e R.dense (omega (arith, R.current)))) in
        ap (λ j. hist_of m j ++ e ∷ []) eq
        ∙ ap (λ l. l ++ e ∷ []) (R.hists k)
        ∙ sym (
            trim-append m.compact 0 (key_history k h) e rising (Rising-key_history k h R.dense)
              (omega (arith, R.compact_le)))
        ∙ ap (trim m.compact) (sym grown)

    hists-append_entry :
        (e : Entry) (k : Bytes)
        → e.revision ≡ suc m.current
        → hist_of (append_entry e (record m { current = e.revision })) k
          ≡ trim m.compact (key_history k (h ++ e ∷ []))
    unfolding append_entry
    hists-append_entry e k p = elim (Bool-cases (bytes_eq e.key k)) [
      | inl same ↦
          rw (B.get-set, same) (hists-append_entry_same e k ((bytes_eq_iff e.key k).0 same) p same)
      | inr other ↦
          rw (B.get-set, other, keep-append)
            (unfold keep in rw (other, append-nil (key_history k h)) (R.hists k))
    ]

    -- An append under the next revision.
    pub append_entry-Represents :
        (e : Entry)
        → e.revision ≡ suc m.current
        → Represents (h ++ e ∷ []) n (append_entry e (record m { current = e.revision }))
    unfolding append_entry
    append_entry-Represents e p = record {
      dense = Dense-append 0 h e R.dense (omega (arith, R.current));
      current = omega (arith, R.current, length-append h (e ∷ []));
      compact_le = omega (arith, R.compact_le);
      count_le = R.count_le;
      log =
          rw R.log
            (sym (drop-append (m.compact - n) h (e ∷ []) (omega (arith, R.current, R.compact_le))));
      hists = λ k. hists-append_entry e k p;
    }
