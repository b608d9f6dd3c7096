-- ===== src/LogStructured/Atomic.antt =====
-- The writes of `LogStructured` among other clients.
use harikube.Common.{
  ℕ, Bytes, bytes_eq, bytes_eq_iff, false, Option, none, List, [], ◌∷◌, ◌++◌, ◌≡◌, ap, sym, ◌∙◌,
  inl, inr, last?, keep, keep-append, append-nil, Bool-cases, subst,
}
use harikube.Api.{Event}
use harikube.LogStructured.{kv_of}
use harikube.LogStructured.Interface.{Log}
use harikube.LogStructured.Rows.{
  Row, of_key, last_revision, Linked, Chained, has_next, Appends, prev_of, LogLaws, no_next-nil,
  Linked-append_any,
}

module _ {S : Type 0} {L : Log S} (laws : LogLaws L) where
  -- What other clients do between the states `s` and `s'`: they append rows, and keep them linked. The
  -- first row that is there of a key follows `base`, which is 0 for a key that has no row in `s`.
  pub record Grown (s s' : S) : Type 0 where
    pub extra : List Row
    pub grown : laws.rows s' ≡ laws.rows s ++ extra
    pub base : Bytes → ℕ
    pub linked : (key : Bytes) → Linked (base key) (of_key key (laws.rows s'))
    pub fresh : (key : Bytes) → of_key key (laws.rows s) ≡ [] → base key ≡ 0

  -- The state `s''` is `s'` with a new row of a key, written over its last row `o`, and linked to it;
  -- rows of other objects may have been written with it.
  pub record Written (key : Bytes) (s' : S) (o : Option Row) (new : Row) (s'' : S) : Type 0 where
    pub over : last? (of_key key (laws.rows s')) ≡ o
    pub more : List Row
    pub appended : laws.rows s'' ≡ laws.rows s' ++ new ∷ more
    pub linked : Chained (laws.rows s' ++ new ∷ [])

module _ {S : Type 0} {L : Log S} {laws : LogLaws L} {s s' : S} (G : Grown laws s s') where
  of_key-grown :
      (key : Bytes) → of_key key (laws.rows s') ≡ of_key key (laws.rows s) ++ of_key key G.extra
  of_key-grown key =
      ap (of_key key) G.grown ∙ keep-append (λ r. bytes_eq r.key key) (laws.rows s) G.extra

  last_revision-base :
      (b : ℕ) (xs : List Row) → (xs ≡ [] → b ≡ 0) → last_revision 0 xs ≡ last_revision b xs
  last_revision-base b [] p = sym (p (λ i. []))
  last_revision-base b (x ∷ xs) p = λ i. last_revision x.revision xs

  -- If no row follows the last one that was read, the key was left alone in between.
  untouched :
      (key : Bytes)
      → has_next (last_revision 0 (of_key key (laws.rows s))) (of_key key (laws.rows s')) ≡ false
      → of_key key (laws.rows s') ≡ of_key key (laws.rows s)
  untouched key h =
      let b = G.base key in
      let split = of_key-grown key in
      let from = last_revision-base b (of_key key (laws.rows s)) (G.fresh key) in
      let p = last_revision b (of_key key (laws.rows s)) in
      let nothing =
        no_next-nil b (of_key key (laws.rows s)) (of_key key G.extra)
          (subst (Linked b) split (G.linked key))
          (subst (λ l. has_next p l ≡ false) split (rw from at h)) in
      split ∙ ap (λ l. of_key key (laws.rows s) ++ l) nothing ∙ append-nil _

  append-Chained :
      (new : Row)
      → new.prev_revision ≡ last_revision 0 (of_key new.key (laws.rows s'))
      → Chained (laws.rows s' ++ new ∷ [])
  append-Chained new p k = rw keep-append (
      unfold keep in
      (elim (Bool-cases (bytes_eq new.key k)) [
        | inl same ↦ simp same (
            Linked-append_any (G.base k) (of_key k (laws.rows s')) new (G.linked k) (
              p
              ∙ ap (λ j. last_revision 0 (of_key j (laws.rows s')))
                  ((bytes_eq_iff new.key k).0 same)))
        | inr other ↦ simp (other, append-nil) (G.base k, G.linked k)
      ]))

  pub append-Written :
      (e : Event) {s'' : S} {rev : ℕ}
      → prev_of e.prev_kv ≡ last_revision 0 (of_key (kv_of e).key (laws.rows s))
      → L.append e s' ≡ (s'', (rev, none))
      → (new : Row) × Appends rev e new
        × Written laws (kv_of e).key s' (last? (of_key (kv_of e).key (laws.rows s))) new s''
  append-Written e {rev} p q =
      let (new, more, a, rows_eq, alone) = laws.append-done e s' q in
      let same =
        untouched (kv_of e).key
          (subst (λ x. has_next x (of_key (kv_of e).key (laws.rows s')) ≡ false) p alone) in
      (
        new,
        a,
        record {
          over = ap last? same;
          more = more;
          appended = rows_eq;
          linked = append-Chained new (
              a.prev_eq
              ∙ p
              ∙ ap (last_revision 0) (sym same)
              ∙ ap (λ k. last_revision 0 (of_key k (laws.rows s'))) (sym a.key_eq));
        },
      )
