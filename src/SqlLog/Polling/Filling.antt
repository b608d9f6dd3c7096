-- ===== src/SqlLog/Polling/Filling.antt =====
-- How two turns of `poll` fill a gap between the revisions.
use harikube.Common.{
  ℕ, suc, ◌+◌, Bytes, Bool, true, false, ◌&&◌, Option, none, some, List, [], ◌∷◌, ◌++◌, length, ltb,
  ◌≡◌, refl, ap, sym, ◌∙◌, ◌≢◌, arith, ◌==◌, Bool-cases, inl, inr, subst,
}
use harikube.Api.{Error, Event}
use harikube.SqlLog.{SqlLog, notify_of, notify_capacity}
use harikube.SqlLog.Database.{Dialect, Scanned, rows}
use harikube.SqlLog.Rows.{rows_to_events}
use harikube.SqlLog.Polling.{
  poll_events, can_skip_revision, Poller, poll_done, poll, poll_query, poll_rows, filled, fill_done,
  notify_all,
}
use harikube.SqlLog.Polling.Sending.{revision_of}

-- The revisions follow on `rev` without a gap.
abbrev pub Consecutive : ℕ → List Event → Type 0
Consecutive rev [] = Unit
Consecutive rev (e ∷ es) = (revision_of e ≡ suc rev) × Consecutive (suc rev) es

-- The loop over the events stops at a gap, which it keeps in `skip`; a gap that it has met before is
-- to be filled.
module _ (is_fill : Bytes → Bool) where
  stops-skip :
      (rev skip : ℕ) (pre : List Event) (e : Event) (es : List Event)
      → Consecutive rev pre
      → revision_of e ≢ suc (rev + length pre)
      → ((poll_events is_fill rev skip false (pre ++ e ∷ es)).rev ≡ rev + length pre)
        × ((poll_events is_fill rev skip false (pre ++ e ∷ es)).skip ≡ suc (rev + length pre))
  unfolding poll_events can_skip_revision
  stops-skip rev skip [] e es c gap =
      let other : (revision_of e == rev + 1) ≡ false = ground (arith, gap) in
      let in_time : (rev + 1 == skip && false) ≡ false = ground arith in
      elim (Bool-cases (skip == rev + 1)) [
        | inl again ↦ simp (other, in_time, again) (omega arith, ground (arith, again))
        | inr first ↦ simp (other, in_time, first) (omega arith, omega arith)
      ]
  stops-skip rev skip (x ∷ pre) e es (at, c) gap =
      let next : (suc rev == rev + 1) ≡ true = ground arith in
      let (r, k) = stops-skip (suc rev) skip pre e es c (λ p. gap (omega (arith, p))) in
      simp (at, next) (r ∙ (omega arith), k ∙ (omega arith))

  poll_done-gap :
      (s : Poller) (pre : List Event) (e : Event) (es : List Event)
      → Consecutive s.poll_rev pre
      → revision_of e ≢ suc (s.poll_rev + length pre)
      → let p = poll_done (poll_events is_fill s.poll_rev s.skip false (pre ++ e ∷ es)) s in
        (p.poll_rev ≡ s.poll_rev + length pre) × (p.skip ≡ suc (s.poll_rev + length pre))
  unfolding poll_done poll_events can_skip_revision
  poll_done-gap s [] e es c gap =
      let other : (revision_of e == s.poll_rev + 1) ≡ false = ground (arith, gap) in
      let in_time : (s.poll_rev + 1 == s.skip && false) ≡ false = ground arith in
      elim (Bool-cases (s.skip == s.poll_rev + 1)) [
        | inl again ↦ simp (other, in_time, again) (omega arith, ground (arith, again))
        | inr first ↦ simp (other, in_time, first) (omega arith, omega arith)
      ]
  poll_done-gap s (x ∷ pre) e es (at, c) gap =
      let next : (suc s.poll_rev == s.poll_rev + 1) ≡ true = ground arith in
      let (r, k) = stops-skip (suc s.poll_rev) s.skip pre e es c (λ p. gap (omega (arith, p))) in
      simp (at, next) (r ∙ (omega arith), k ∙ (omega arith))

  fills :
      (rev : ℕ) (e : Event) (es : List Event)
      → revision_of e ≢ suc rev
      → let p = poll_events is_fill rev (suc rev) false (e ∷ es) in
        (p.fill ≡ some (suc rev)) × (p.notified ≡ [])
  unfolding poll_events can_skip_revision
  fills rev e es gap =
      let other : (revision_of e == rev + 1) ≡ false = ground (arith, gap) in
      let in_time : (rev + 1 == suc rev && false) ≡ false = ground arith in
      let again : (suc rev == rev + 1) ≡ true = ground arith in
      simp (other, in_time, again) (ap some (omega arith), refl)

module _ {D : Type 0} (d : Dialect D) where
  -- A turn at this state reads these events after a revision.
  pub record Reads (n rev : ℕ) (s : SqlLog D) (events : List Event) : Type 0 where
    pub l : List Scanned
    pub query_eq : d.after [] [] rev n s.db ≡ rows l
    pub no_error : (rows_to_events true true l).error ≡ none
    pub events_eq : (rows_to_events true true l).events ≡ events

  fill_done-db : (next : ℕ) (s : SqlLog D) (x : D × Option Error) → (fill_done d next s x).db ≡ x.0
  unfolding fill_done notify_of
  fill_done-db next s (db, none) = elim (Bool-cases (ltb (length s.notify) notify_capacity)) [
    | inl room ↦ simp room refl
    | inr full ↦ simp full refl
  ]
  fill_done-db next s (db, some e) = refl

  poll_lem :
      {n : ℕ} {s : SqlLog D} (p : Poller) {events : List Event}
      → Reads n p.poll_rev s events
      → let pass = poll_events d.is_fill p.poll_rev p.skip false events in
        let p' = poll_done pass (record p { current_rev = s.current_rev }) in
        poll d false n (s, p) ≡ (
          record (filled d pass.fill (notify_all d pass.notified s)) {
            current_rev = p'.current_rev;
          },
          p',
        )
  unfolding poll poll_query poll_rows
  poll_lem p r = rw (r.query_eq, r.no_error, r.events_eq) refl

  -- A turn takes the events before a gap. If the next turn reads the gap again, whatever happens in
  -- between, and is not late, it asks the database to fill exactly the revision that is missing.
  pub poll-fill :
      (n : ℕ) (s : SqlLog D) (p : Poller) (pre : List Event) (e : Event) (es : List Event)
      (e' : Event) (es' : List Event) (others : SqlLog D → SqlLog D)
      → Consecutive p.poll_rev pre
      → revision_of e ≢ suc (p.poll_rev + length pre)
      → Reads n p.poll_rev s (pre ++ e ∷ es)
      → let first = poll d false n (s, p) in
        let s' = others first.0 in
        Reads n (p.poll_rev + length pre) s' (e' ∷ es')
        → revision_of e' ≢ suc (p.poll_rev + length pre)
        → (first.1.poll_rev ≡ p.poll_rev + length pre)
          × ((poll d false n (s', first.1)).0.db ≡ (d.fill (suc (p.poll_rev + length pre)) s'.db).0)
  unfolding filled notify_all
  poll-fill n s p pre e es e' es' others c gap r r' gap' =
      let first = poll d false n (s, p) in
      let s' = others first.0 in
      let ran = poll_lem p r in
      let (at, kept) =
        poll_done-gap d.is_fill (record p { current_rev = s.current_rev }) pre e es c gap in
      let rev_eq : first.1.poll_rev ≡ p.poll_rev + length pre = ap (λ x. x.1.poll_rev) ran ∙ at in
      let skip_eq : first.1.skip ≡ suc (p.poll_rev + length pre) = ap (λ x. x.1.skip) ran ∙ kept in
      let again = poll_lem first.1 (subst (λ x. Reads n x s' (e' ∷ es')) (sym rev_eq) r') in
      let (fill_eq, quiet) = fills d.is_fill (p.poll_rev + length pre) e' es' gap' in
      (
        rev_eq,
        ap (λ x. x.0.db) again ∙ (rw (rev_eq, skip_eq, fill_eq, quiet) (fill_done-db _ s' _)),
      )
