-- ===== src/SqlLog/Compacting/Ends.antt =====
-- The compaction loop ends.
use harikube.Common.{
  ℕ, zero, suc, ◌+◌, ◌≤◌, ◌<◌, false, not, ◌&&◌, Option, none, some, ◌≡◌, refl, ap, arith, ltb,
  ◌==◌, Bool-cases, inl, inr,
}
use harikube.Server.Requests.{Reply, ok, failed, panicked}
use harikube.SqlLog.Database.{Dialect}
use harikube.SqlLog.Compacting.{
  Options, Compacted, compact, Iter, next_iter, after_compact, store_revisions, compact_loop,
  compact_iter, first_iter, optionally, iterated,
}

module _ {D : Type 0} (d : Dialect D) (options : Options) where
  -- Whatever a transaction returns, the loop goes on to a result.
  after_compact-some :
      (rest : Iter → D → Option (D × Reply Iter)) (i : Iter) (r : D × Reply Compacted)
      → ((j : Iter) (db : D)
          → j.iter_rev ≡ i.iter_rev
          → (x : D × Reply Iter) × (rest j db ≡ some x))
      → (x : D × Reply Iter) × (after_compact d options rest i r ≡ some x)
  unfolding after_compact store_revisions
  after_compact-some rest i (db, ok (compacted, current, some e)) h = (_, refl)
  after_compact-some rest i (db, ok (compacted, current, none)) h =
      h _ db (elim (Bool-cases (not (compacted == 0) && not (current == 0))) [
        | inl valid ↦ simp valid refl
        | inr invalid ↦ simp invalid refl
      ])
  after_compact-some rest i (db, failed e) h = (_, refl)
  after_compact-some rest i (db, panicked) h = (_, refl)

  loop-some :
      (others : D → D) (fuel target : ℕ) (i : Iter) (db : D)
      → 0 < options.batch_size
      → target ≤ i.iter_rev + fuel
      → (x : D × Reply Iter) × (compact_loop d options others fuel target i db ≡ some x)
  unfolding compact_loop next_iter
  loop-some others zero target i db p q =
      let reached : ltb i.iter_rev target ≡ false = ground (arith, q) in
      ((db, ok i), rw reached refl)
  loop-some others (suc fuel) target i db p q = elim (Bool-cases (ltb i.iter_rev target)) [
    | inr reached ↦ ((db, ok i), rw reached refl)
    | inl more ↦
        let i' = next_iter d options target i in
        let (x, e) =
          after_compact-some (compact_loop d options others fuel target) i'
            (compact d options i'.compacted_rev i'.iter_rev (others db))
            (λ j db' same. loop-some others fuel target j db' p (ground (arith, same))) in
        (x, simp more e)
  ]

  -- The loop of `compactIter` ends: with a batch size above 0, for all that other clients and the
  -- database do, it has a result on fuel of the target revision.
  pub compact_iter-some :
      (others : D → D) (compact_rev target : ℕ) (db : D)
      → 0 < options.batch_size
      → (x : D × Reply (ℕ × ℕ)) × (compact_iter d options others compact_rev target db ≡ some x)
  unfolding compact_iter optionally
  compact_iter-some others compact_rev target db p =
      let (x, e) = loop-some others target target (first_iter compact_rev) db p (omega arith) in
      (iterated d options compact_rev target x, ap (optionally d options compact_rev target) e)
