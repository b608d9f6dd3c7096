-- ===== src/SqlLog/Compacting/Outcome.antt =====
-- What one transaction of the compaction does.
use harikube.Common.{
  ℕ, ◌+◌, ◌≤◌, ◌<◌, not, Option, none, some, ◌≡◌, refl, ap, sym, ◌⊎◌, ◌∙◌, arith, leb, ◌==◌,
  Bool-cases, inl, inr,
}
use harikube.Api.{Error}
use harikube.Server.Requests.{Reply, ok, failed, panicked}
use harikube.SqlLog.Database.{Dialect}
use harikube.SqlLog.Compacting.{
  safe_compact_rev, Options, Compacted, compact, compact_begun, compact_current, compact_from,
  tx_deleted, tx_recorded, tx_committed, returned, rolled_back,
}

-- What a database promises of its transactions. `view` is the state that others see: what is done in a
-- transaction is not seen before the commit, nor ever, if it is rolled back or cannot be committed.
pub record TxLaws {D : Type 0} (d : Dialect D) : Type 0 where
  pub view : D → D
  pub begin-view : (db : D) → view (d.begin_tx db).0 ≡ view db
  pub compact-view : (revision : ℕ) (db : D) → view (d.tx_compact revision db).0 ≡ view db
  pub set-view : (revision : ℕ) (db : D) → view (d.tx_set_compact_revision revision db).0 ≡ view db
  pub rollback-view : (db : D) → view (d.rollback db).0 ≡ view db
  pub commit-fails : (db db' : D) (e : Error) → d.commit db ≡ (db', some e) → view db' ≡ view db

module _ {D : Type 0} {d : Dialect D} (laws : TxLaws d) (options : Options) where
  -- A compaction to `c` that is committed when the current revision is `current`, with its steps: both
  -- the deletion and the record in the transaction are made for `c`.
  pub record Allowed (compact_rev target : ℕ) (db : D) (c current : ℕ) : Type 0 where
    pub begun : D
    pub begun_eq : d.begin_tx db ≡ (begun, none)
    pub current_eq : d.current_revision begun ≡ (current, none)
    pub compact_eq : d.get_compact_revision begun ≡ (compact_rev, none)
    pub forward : compact_rev < c
    pub within : c ≤ target
    pub retained : c + options.min_retain ≤ current
    pub compacted : D
    pub deleted : ℕ
    pub compacted_eq : d.tx_compact c begun ≡ (compacted, (deleted, none))
    pub recorded : D
    pub recorded_eq : d.tx_set_compact_revision c compacted ≡ (recorded, none)
    pub committed : D
    pub committed_eq : d.commit recorded ≡ (committed, none)

  -- The same, and others see what is committed.
  pub record Compacts (compact_rev target : ℕ) (db db' : D) (c current : ℕ) : Type 0 where
    pub allowed : Allowed compact_rev target db c current
    pub seen : laws.view db' ≡ laws.view allowed.committed

  -- What a transaction has done, given what it returns.
  abbrev pub CompactOutcome : ℕ → ℕ → D → D × Reply Compacted → Type 0
  CompactOutcome compact_rev target db (db', ok (c, current, none)) =
      Compacts compact_rev target db db' c current
  CompactOutcome compact_rev target db (db', ok (c, current, some e)) = laws.view db' ≡ laws.view db
  CompactOutcome compact_rev target db (db', failed e) = laws.view db' ≡ laws.view db
  CompactOutcome compact_rev target db (db', panicked) =
      (laws.view db' ≡ laws.view db)
      ⊎ ((c : ℕ) × (current : ℕ) × Compacts compact_rev target db db' c current)

  module _ (compact_rev target : ℕ) (db : D) where
    refused :
        (c current : ℕ) (e : Error) (x : D)
        → laws.view x ≡ laws.view db
        → CompactOutcome compact_rev target db (returned d options (ok (c, current, some e)) x)
    unfolding returned rolled_back
    refused c current e x v = over (d.rollback x) (laws.rollback-view x ∙ v)
      where
        over :
            (y : D × Option Error)
            → laws.view y.0 ≡ laws.view db
            → CompactOutcome compact_rev target db
                (rolled_back d options (ok (c, current, some e)) y)
        over (db', none) w = w
        over (db', some e') w = inl w

    compacts :
        (c current : ℕ) (a : Allowed compact_rev target db c current)
        → CompactOutcome compact_rev target db
            (returned d options (ok (c, current, none)) a.committed)
    unfolding returned rolled_back
    compacts c current a = over (d.rollback a.committed) (laws.rollback-view a.committed)
      where
        over :
            (y : D × Option Error)
            → laws.view y.0 ≡ laws.view a.committed
            → CompactOutcome compact_rev target db (rolled_back d options (ok (c, current, none)) y)
        over (db', none) w = record { allowed = a; seen = w }
        over (db', some e') w = inr (c, current, record { allowed = a; seen = w })

    -- A transaction that has begun, and has read the current revision.
    module _ {begun : D} (b : d.begin_tx db ≡ (begun, none)) (v : laws.view begun ≡ laws.view db)
        {current : ℕ} (p : d.current_revision begun ≡ (current, none)) where
      -- A revision that the code goes on to compact to.
      record Fits (c : ℕ) : Type 0 where
        stored : d.get_compact_revision begun ≡ (compact_rev, none)
        forward : compact_rev < c
        within : c ≤ target
        retained : c + options.min_retain ≤ current

      committed-CompactOutcome :
          {c n : ℕ} {k r : D}
          → Fits c
          → d.tx_compact c begun ≡ (k, (n, none))
          → d.tx_set_compact_revision c k ≡ (r, none)
          → laws.view r ≡ laws.view db
          → (x : D × Option Error) → d.commit r ≡ x
          → CompactOutcome compact_rev target db (tx_committed d options c current x)
      unfolding tx_committed
      committed-CompactOutcome {r = r} f kp rp w (db', some e) q =
          inl (laws.commit-fails r db' e q ∙ w)
      committed-CompactOutcome {c} {n} {k} {r} f kp rp w (db', none) q =
          compacts c current (record {
            begun = begun;
            begun_eq = b;
            current_eq = p;
            compact_eq = f.stored;
            forward = f.forward;
            within = f.within;
            retained = f.retained;
            compacted = k;
            deleted = n;
            compacted_eq = kp;
            recorded = r;
            recorded_eq = rp;
            committed = db';
            committed_eq = q;
          })

      recorded-CompactOutcome :
          {c n : ℕ} {k : D}
          → Fits c
          → d.tx_compact c begun ≡ (k, (n, none))
          → laws.view k ≡ laws.view db
          → (x : D × Option Error) → d.tx_set_compact_revision c k ≡ x
          → CompactOutcome compact_rev target db (tx_recorded d options c current x)
      unfolding tx_recorded
      recorded-CompactOutcome {c} {k = k} f kp w (r, some e) q =
          refused 0 0 e r (ap (λ x. laws.view x.0) (sym q) ∙ laws.set-view c k ∙ w)
      recorded-CompactOutcome {c} {k = k} f kp w (r, none) q =
          committed-CompactOutcome f kp q (ap (λ x. laws.view x.0) (sym q) ∙ laws.set-view c k ∙ w)
            (d.commit r) refl

      deleted-CompactOutcome :
          {c : ℕ}
          → Fits c
          → (x : D × (ℕ × Option Error)) → d.tx_compact c begun ≡ x
          → CompactOutcome compact_rev target db (tx_deleted d options c current x)
      unfolding tx_deleted
      deleted-CompactOutcome {c} f (k, (n, some e)) q =
          refused 0 0 e k (ap (λ x. laws.view x.0) (sym q) ∙ laws.compact-view c begun ∙ v)
      deleted-CompactOutcome {c} f (k, (n, none)) q =
          recorded-CompactOutcome f q
            (ap (λ x. laws.view x.0) (sym q) ∙ laws.compact-view c begun ∙ v)
            (d.tx_set_compact_revision c k) refl

      from-CompactOutcome :
          (y : ℕ × Option Error)
          → d.get_compact_revision begun ≡ y
          → CompactOutcome compact_rev target db
              (compact_from d options compact_rev target current begun y)
      unfolding compact_from safe_compact_rev
      from-CompactOutcome (db_compact, some e) q = refused 0 0 e begun v
      from-CompactOutcome (db_compact, none) q =
          let safe = safe_compact_rev target current options.min_retain in
          elim (Bool-cases (not (compact_rev == db_compact))) [
            | inl moved ↦ rw moved (refused db_compact current Error.compacted begun v)
            | inr same ↦ elim (Bool-cases (leb safe compact_rev)) [
              | inl done ↦ rw (same, done) (refused db_compact current Error.compacted begun v)
              | inr due ↦
                  let stored : d.get_compact_revision begun ≡ (compact_rev, none) =
                    q ∙ ap (λ x. (x, none)) (ground arith) in
                  let fits : Fits safe = record {
                    stored = stored;
                    forward = ground arith;
                    within = ground arith;
                    retained = ground arith;
                  } in
                  rw (same, due) (deleted-CompactOutcome fits (d.tx_compact safe begun) refl)
            ]
          ]

  -- A transaction that succeeds has deleted and recorded up to one revision, forward from the compact
  -- revision of the database, at most to the target, and none of the latest revisions that are to be
  -- retained, and has committed that; one that returns an error leaves what others see as it was. If
  -- the process ends, it is one or the other.
  pub compact-CompactOutcome :
      (compact_rev target : ℕ) (db : D)
      → CompactOutcome compact_rev target db (compact d options compact_rev target db)
  unfolding compact compact_begun compact_current
  compact-CompactOutcome compact_rev target db = by_begin (d.begin_tx db) refl
    where
      by_current :
          {begun : D}
          → d.begin_tx db ≡ (begun, none)
          → laws.view begun ≡ laws.view db
          → (x : ℕ × Option Error) → d.current_revision begun ≡ x
          → CompactOutcome compact_rev target db
              (compact_current d options compact_rev target begun x)
      by_current {begun} b v (current, some e) p = refused compact_rev target db 0 0 e begun v
      by_current {begun} b v (current, none) p =
          from-CompactOutcome compact_rev target db b v p (d.get_compact_revision begun) refl

      by_begin :
          (x : D × Option Error)
          → d.begin_tx db ≡ x
          → CompactOutcome compact_rev target db (compact_begun d options compact_rev target x)
      by_begin (begun, some e) q = ap (λ x. laws.view x.0) (sym q) ∙ laws.begin-view db
      by_begin (begun, none) q =
          by_current q (ap (λ x. laws.view x.0) (sym q) ∙ laws.begin-view db)
            (d.current_revision begun) refl
