-- ===== src/SqlLog/Polling/Delivery.antt =====
-- Polling among writers that make rows visible in any order.
use harikube.Common.{
  ℕ, ◌+◌, Bytes, Bool, false, List, [], ◌++◌, ◌≡◌, refl, ap, ap₂, sym, ◌∙◌, arith, Bool-cases, inl,
  inr, subst,
}
use harikube.Api.{Event}
use harikube.SqlLog.Polling.{poll_events, Poller, poll_done, poll_turn}
use harikube.SqlLog.Polling.Sending.{
  Table, RowsAfter, Extends, rows_of, Complete, rows_of-append, Complete-append, Complete-Extends,
  events-Sent, all_sent, all_sent-append,
}

pub record System : Type 0 where
  pub table : Table
  pub poller : Poller

module _ (is_fill : Bytes → Bool) where
  -- Writers add rows, or the loop takes a turn in which no gap is late.
  pub data Step (s : System) : System → Type 0 where
    writes : {t : Table} → Extends s.table t → Step s (record s { table = t })
    polls :
        (es : List Event)
        → RowsAfter s.table s.poller.poll_rev es
        → Step s (record s { poller = poll_turn is_fill false es s.poller })

  pub data Reach (s : System) : System → Type 0 where
    here : Reach s s
    next : {t u : System} → Reach s t → Step t u → Reach s u

  -- Since the polling started after `base`, everything up to the polled revision was there and sent.
  pub record Inv (base : ℕ) (s : System) : Type 0 where
    pub n : ℕ
    pub at : s.poller.poll_rev ≡ base + n
    pub complete : Complete is_fill s.table base n
    pub sent : all_sent is_fill s.poller.result ≡ rows_of is_fill s.table base n

  turn-Inv :
      {base : ℕ} {s : System} (es : List Event)
      → RowsAfter s.table s.poller.poll_rev es
      → Inv base s
      → Inv base (record s { poller = poll_turn is_fill false es s.poller })
  unfolding poll_turn poll_done
  turn-Inv {base} {s} es r I =
      let p = poll_events is_fill s.poller.poll_rev s.poller.skip false es in
      let S = events-Sent is_fill s.table s.poller.poll_rev s.poller.skip es r in
      let from : s.poller.poll_rev ≡ base + I.n = I.at in
      let more = subst (λ x. Complete is_fill s.table x S.n) from S.complete in
      elim (Bool-cases p.save_last) [
        | inl saved ↦ simp saved (record {
          n = I.n + S.n;
          at = omega (arith, S.at, I.at);
          complete = Complete-append is_fill s.table base I.n S.n I.complete more;
          sent =
              all_sent-append is_fill s.poller.result p.sequential
              ∙ ap₂ ◌++◌ I.sent (S.sent ∙ ap (λ x. rows_of is_fill s.table x S.n) from)
              ∙ sym (rows_of-append is_fill s.table base I.n S.n);
        })
        | inr unsaved ↦
            simp unsaved (record { n = I.n; at = I.at; complete = I.complete; sent = I.sent })
      ]

  Step-Inv : {base : ℕ} {s t : System} → Step s t → Inv base s → Inv base t
  Step-Inv (writes x) I =
      let (c, q) = Complete-Extends is_fill _ _ _ I.n x I.complete in
      record { n = I.n; at = I.at; complete = c; sent = I.sent ∙ sym q }
  Step-Inv (polls es r) I = turn-Inv es r I

  Reach-Inv : {base : ℕ} {s t : System} → Reach s t → Inv base s → Inv base t
  Reach-Inv here I = I
  Reach-Inv (next r step) I = Step-Inv step (Reach-Inv r I)

abbrev pub begin_poll : ℕ → ℕ → Poller
begin_poll base current = record { poll_rev = base; skip = 0; current_rev = current; result = [] }

-- From the start of polling, in every interleaving with writers that add rows at free revisions in any
-- order, and as long as no gap is late, all revisions up to the polled one are taken, and the events
-- sent are exactly those rows, in order, without the fill records: none is skipped that becomes visible
-- after a later one.
pub polled_all :
    (is_fill : Bytes → Bool) (base current : ℕ) (table : Table) {t : System}
    → Reach is_fill (record { table = table; poller = begin_poll base current }) t
    → (n : ℕ) × (t.poller.poll_rev ≡ base + n)
      × Complete is_fill t.table base n
      × (all_sent is_fill t.poller.result ≡ rows_of is_fill t.table base n)
unfolding rows_of
polled_all is_fill base current table r =
    let I = Reach-Inv is_fill r (record { n = 0; at = omega arith; complete = tt; sent = refl }) in
    (I.n, I.at, I.complete, I.sent)
