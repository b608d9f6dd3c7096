-- ===== src/LogStructured/Creates.antt =====
-- `Create` of `LogStructured` among other clients.
use harikube.Common.{
  ℕ, Bytes, true, false, Option, none, some, List, [], ◌∷◌, ◌≡◌, refl, sym, ◌∙◌, inl, inr, arith,
  last?, Bool-cases,
}
use harikube.Api.{Error, Event}
use harikube.LogStructured
use harikube.LogStructured.{kv_of, create_event, first_of, create_over, appended}
use harikube.LogStructured.Interface.{Log}
use harikube.LogStructured.Rows.{
  Row, of_key, Found-some, Found-none, LogLaws, last_revision-some, last_revision-none,
  last_revision,
}
use harikube.LogStructured.Atomic.{Grown, Written, append-Written}
use harikube.LogStructured.Updates.{Unchanged}

-- A key can be created where it has no row, or a deleted one; `base` is the revision of that row.
abbrev pub Free : ℕ → Option Row → Type 0
Free base none = base ≡ 0
Free base (some e) = (e.deleted ≡ true) × (e.revision ≡ base)

-- The row that a creation writes after the revision `base`.
pub record IsCreate (key value : Bytes) (lease base : ℕ) (new : Row) : Type 0 where
  pub key_eq : new.key ≡ key
  pub value_eq : new.value ≡ value
  pub lease_eq : new.lease ≡ lease
  pub created : new.created ≡ true
  pub live : new.deleted ≡ false
  pub prev_eq : new.prev_revision ≡ base

module _ {S : Type 0} {L : Log S} (laws : LogLaws L) where
  abbrev Created : Bytes → Bytes → ℕ → S → S → S → Option Error → Type 0
  Created key value lease s s' s'' none =
      (o : Option Row) × (base : ℕ) × (new : Row) × Free base o
      × IsCreate key value lease base new
      × Written laws key s' o new s''
  Created key value lease s s' s'' (some e) = Unchanged laws s s' s''

  -- What a creation does, by the error that it returns.
  abbrev pub CreateOutcome : Bytes → Bytes → ℕ → S → S → S × (ℕ × Option Error) → Type 0
  CreateOutcome key value lease s s' (s'', (rev, e)) = Created key value lease s s' s'' e

module _ {S : Type 0} {L : Log S} {laws : LogLaws L} {s : S} (others : S → S)
    (G : Grown laws s (others s)) (key value : Bytes) (lease : ℕ) where
  -- `Create` among other clients that only append linked rows: without an error it has appended the
  -- new row at a moment when the key had no row, or its last row was a deletion; with an error it has
  -- written nothing.
  pub create-CreateOutcome :
      CreateOutcome laws key value lease s
        (others s)
        (LogStructured.create L others key value lease s)
  unfolding LogStructured.create LogStructured.get_event first_of create_over appended kv_of
  create-CreateOutcome = over (L.list key [] 1 0 true true s) refl
    where
      written :
          (o : Option Row) (base : ℕ)
          → Free base o
          → last? (of_key key (laws.rows s)) ≡ o
          → base ≡ last_revision 0 (of_key key (laws.rows s))
          → (y : S × (ℕ × Option Error))
          → L.append (create_event key value lease base) (others s) ≡ y
          → CreateOutcome laws key value lease s (others s) (appended L y)
      written o base free last at (s'', (rev, some e)) q =
          inr (laws.append-failed (create_event key value lease base) (others s) q)
      written o base free last at (s'', (rev, none)) q =
          let new = create_event key value lease base in
          let (row, a, w) = append-Written G new at q in
          (
            o,
            base,
            row,
            free,
            record {
              key_eq = a.key_eq;
              value_eq = a.value_eq;
              lease_eq = a.lease_eq;
              created = a.created_eq;
              live = a.creates refl;
              prev_eq = a.prev_eq;
            },
            record {
              over = w.over ∙ last;
              more = w.more;
              appended = w.appended;
              linked = w.linked;
            },
          )

      over :
          (x : ℕ × List Event × Option Error)
          → L.list key [] 1 0 true true s ≡ x
          → CreateOutcome laws key value lease s
              (others s)
              (create_over L others key value lease s (first_of x))
      over (rev, evs, some e) p = inl refl
      over (rev, [], none) p =
          let absent = Found-none (laws.list-Found key true true s p) in
          written none 0 refl absent (sym (last_revision-none 0 _ absent)) _ refl
      over (rev, ev ∷ evs, none) p =
          let (r, last, shows, visible) = Found-some (laws.list-Found key true true s p) in
          elim (Bool-cases ev.deleted) [
            | inr live ↦ simp live (inl refl)
            | inl dead ↦ simp dead (
                written (some r) (kv_of ev).mod_revision (ground (arith, shows.0), sym shows.1) last
                  (shows.1 ∙ sym (last_revision-some 0 _ r last)) _ refl)
          ]
