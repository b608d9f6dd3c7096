-- ===== src/SqlLog/Polling/Sending.antt =====
-- What a turn of the polling loop sends, given the rows of the database.
use harikube.Common.{
  ℕ, zero, suc, ◌+◌, ◌<◌, Bytes, Bool, false, not, ◌&&◌, Option, none, some, List, [], ◌∷◌, ◌++◌,
  map, ◌≡◌, refl, ap, sym, ◌∙◌, arith, ◌==◌, if◌then◌else◌, Bool-cases, inl, inr, subst,
  append_assoc, append-nil,
}
use harikube.Api.{Event}
use harikube.LogStructured.{kv_of}
use harikube.SqlLog.Polling.{Pass, poll_events, taken, pass_end, can_skip_revision}

-- The rows of the database by their revision.
abbrev pub Table : Type 0
Table = ℕ → Option Event

abbrev pub revision_of : Event → ℕ
revision_of e = (kv_of e).mod_revision

-- What the query of `After` gives: rows above a revision in ascending order, none left out up to the
-- last.
abbrev pub RowsAfter : Table → ℕ → List Event → Type 0
RowsAfter table rev [] = Unit
RowsAfter table rev (e ∷ es) =
    (rev < revision_of e)
    × (table (revision_of e) ≡ some e)
    × ((r : ℕ) → rev < r → r < revision_of e → table r ≡ none)
    × RowsAfter table (revision_of e) es

-- What writers do: rows are added, at any free revision, and stay.
abbrev pub Extends : Table → Table → Type 0
Extends table table' = (r : ℕ) (e : Event) → table r ≡ some e → table' r ≡ some e

module _ (is_fill : Bytes → Bool) where
  abbrev shown_row : Option Event → List Event
  shown_row none = []
  shown_row (some e) = if is_fill (kv_of e).key then [] else e ∷ []

  -- The rows of the `n` revisions after `b`, without fill records.
  unfoldable pub rows_of : Table → ℕ → ℕ → List Event
  rows_of table b zero = []
  rows_of table b (suc n) = shown_row (table (suc b)) ++ rows_of table (suc b) n

  -- All of them are there.
  abbrev pub Complete : Table → ℕ → ℕ → Type 0
  Complete table b zero = Unit
  Complete table b (suc n) = ((e : Event) × (table (suc b) ≡ some e)) × Complete table (suc b) n

  pub rows_of-append :
      (table : Table) (b n m : ℕ)
      → rows_of table b (n + m) ≡ rows_of table b n ++ rows_of table (b + n) m
  unfolding rows_of
  rows_of-append table b zero m =
      let e : b + 0 ≡ b = omega arith in let f : 0 + m ≡ m = omega arith in rw (e, f) refl
  rows_of-append table b (suc n) m =
      let e : b + suc n ≡ suc b + n = omega arith in
      let f : suc n + m ≡ suc (n + m) = omega arith in
      rw (e, f)
        (ap (λ l. shown_row (table (suc b)) ++ l) (rows_of-append table (suc b) n m)
          ∙ sym (append_assoc (shown_row (table (suc b))) _ _))

  pub Complete-append :
      (table : Table) (b n m : ℕ)
      → Complete table b n
      → Complete table (b + n) m
      → Complete table b (n + m)
  Complete-append table b zero m c d =
      let e : b + 0 ≡ b = omega arith in let f : 0 + m ≡ m = omega arith in rw f (rw e at d)
  Complete-append table b (suc n) m c d =
      let e : b + suc n ≡ suc b + n = omega arith in
      let f : suc n + m ≡ suc (n + m) = omega arith in
      rw f (c.0, Complete-append table (suc b) n m c.1 (rw e at d))

  -- Writers cannot change what is complete.
  pub Complete-Extends :
      (table table' : Table) (b n : ℕ)
      → Extends table table'
      → Complete table b n
      → Complete table' b n × (rows_of table' b n ≡ rows_of table b n)
  unfolding rows_of
  Complete-Extends table table' b zero x c = (tt, refl)
  Complete-Extends table table' b (suc n) x ((e, p), c) =
      let (c', q) = Complete-Extends table table' (suc b) n x c in
      (((e, x (suc b) e p), c'), rw (p, x (suc b) e p, q) refl)

  abbrev pub sent_events : List (Option Event) → List Event
  sent_events [] = []
  sent_events (none ∷ l) = sent_events l
  sent_events (some e ∷ l) = e ∷ sent_events l

  -- What a loop from `rev` on has sent: all rows of the `n` revisions after it.
  pub record Sent (table : Table) (rev : ℕ) (p : Pass) : Type 0 where
    pub n : ℕ
    pub at : p.rev ≡ rev + n
    pub complete : Complete table rev n
    pub sent : sent_events p.sequential ≡ rows_of table rev n

  sent_events-none : (es : List Event) → sent_events (map (λ e. none) es) ≡ []
  sent_events-none [] = refl
  sent_events-none (e ∷ es) = sent_events-none es

  end-Sent : (table : Table) (rev skip : ℕ) → Sent table rev (pass_end [] rev skip)
  unfolding rows_of
  end-Sent table rev skip = record { n = 0; at = omega arith; complete = tt; sent = refl }

  taken-Sent :
      (table : Table) (rev : ℕ) (e : Event) (p : Pass)
      → table (suc rev) ≡ some e
      → Sent table (suc rev) p
      → Sent table rev (taken is_fill e p)
  unfolding rows_of
  taken-Sent table rev e p q s = record {
    n = suc s.n;
    at = omega (arith, s.at);
    complete = ((e, q), s.complete);
    sent = elim (Bool-cases (is_fill (kv_of e).key)) [
      | inl fill ↦ rw (q, fill) s.sent
      | inr real ↦ rw (q, real) (ap (λ l. e ∷ l) s.sent)
    ];
  }

  stopped-Sent :
      (table : Table) (rev : ℕ) (p : Pass)
      → p.rev ≡ rev
      → sent_events p.sequential ≡ []
      → Sent table rev p
  unfolding rows_of
  stopped-Sent table rev p q e = record { n = 0; at = omega (arith, q); complete = tt; sent = e }

  pub events-Sent :
      (table : Table) (rev skip : ℕ) (es : List Event)
      → RowsAfter table rev es
      → Sent table rev (poll_events is_fill rev skip false es)
  unfolding poll_events can_skip_revision
  events-Sent table rev skip [] r = end-Sent table rev skip
  events-Sent table rev skip (e ∷ es) r = elim (Bool-cases (revision_of e == rev + 1)) [
    | inl next ↦
        let at : revision_of e ≡ suc rev = ground arith in
        let rest = events-Sent table (revision_of e) skip es r.3 in
        simp next (
          taken-Sent table rev e _ (subst (λ x. table x ≡ some e) at r.1)
            (subst (λ x. Sent table x (poll_events is_fill (revision_of e) skip false es)) at rest))
    | inr gap ↦
        let in_time : (rev + 1 == skip && false) ≡ false = ground arith in
        elim (Bool-cases (not (skip == rev + 1))) [
          | inl first ↦
              simp (gap, in_time, first) (stopped-Sent table rev _ refl (sent_events-none (e ∷ es)))
          | inr again ↦
              simp (gap, in_time, again) (stopped-Sent table rev _ refl (sent_events-none (e ∷ es)))
        ]
  ]

  abbrev pub all_sent : List (List (Option Event)) → List Event
  all_sent [] = []
  all_sent (l ∷ ls) = sent_events l ++ all_sent ls

  pub all_sent-append :
      (ls : List (List (Option Event))) (l : List (Option Event))
      → all_sent (ls ++ l ∷ []) ≡ all_sent ls ++ sent_events l
  all_sent-append [] l = append-nil (sent_events l)
  all_sent-append (k ∷ ls) l =
      ap (λ x. sent_events k ++ x) (all_sent-append ls l)
      ∙ sym (append_assoc (sent_events k) (all_sent ls) (sent_events l))
