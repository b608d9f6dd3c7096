-- ===== src/LogStructured/Deletes.antt =====
-- `Delete` of `LogStructured` among other clients.
use harikube.Common.{
  ℕ, Bytes, Bool, true, false, not, ◌&&◌, ◌||◌, Option, none, some, List, [], ◌∷◌, ◌≡◌, refl, sym,
  ◌∙◌, ◌⊎◌, inl, inr, arith, last?, ◌==◌, Bool-cases,
}
use harikube.Api.{Error, KeyValue, Event}
use harikube.LogStructured
use harikube.LogStructured.{
  kv_of, delete_event, first_of, delete_over, delete_appended, delete_lost,
}
use harikube.LogStructured.Interface.{Log}
use harikube.LogStructured.Rows.{Row, of_key, Found-some, Found-none, LogLaws, last_revision-some}
use harikube.LogStructured.Atomic.{Grown, Written, append-Written}
use harikube.LogStructured.Updates.{Unchanged}

-- The row that a deletion writes over the row `e`.
pub record IsDelete (key : Bytes) (e new : Row) : Type 0 where
  pub key_eq : new.key ≡ key
  pub deleted : new.deleted ≡ true
  pub prev_eq : new.prev_revision ≡ e.revision

module _ {S : Type 0} {L : Log S} (laws : LogLaws L) where
  -- A deletion of a live row, at revision 0 or that of the row.
  pub record Removed (key : Bytes) (revision : ℕ) (s' s'' : S) : Type 0 where
    pub e : Row
    pub new : Row
    pub live : e.deleted ≡ false
    pub at : (revision == 0 || e.revision == revision) ≡ true
    pub is_delete : IsDelete key e new
    pub written : Written laws key s' (some e) new s''

  abbrev Deleted : Bytes → ℕ → S → S → S → Bool → Type 0
  Deleted key revision s s' s'' true =
      Removed key revision s' s''
      ⊎ ((last? (of_key key (laws.rows s)) ≡ none) × (laws.rows s'' ≡ laws.rows s))
  Deleted key revision s s' s'' false = Unchanged laws s s' s''

  -- What a deletion does, by the flag that it returns.
  abbrev pub DeleteOutcome :
      Bytes → ℕ → S → S → S × (ℕ × Option KeyValue × Bool × Option Error) → Type 0
  DeleteOutcome key revision s s' (s'', (rev, kv, done, e)) = Deleted key revision s s' s'' done

module _ {S : Type 0} {L : Log S} {laws : LogLaws L} {s : S} (others : S → S)
    (G : Grown laws s (others s)) (key : Bytes) (revision : ℕ) where
  -- `Delete` among other clients that only append linked rows: if it says that it is done, then either
  -- it has appended a deletion over a live row of the key, which was the last row of the key at that
  -- moment and has the given revision unless that is 0, or there was no row of the key and it has
  -- written nothing; otherwise it has written nothing.
  pub delete-DeleteOutcome :
      DeleteOutcome laws key revision s (others s) (LogStructured.delete L others key revision s)
  unfolding LogStructured.delete LogStructured.get_event first_of delete_over delete_appended
      delete_lost kv_of
  delete-DeleteOutcome = over (L.list key [] 1 0 true false s) refl
    where
      lost :
          (rev : ℕ) (kv : KeyValue) (s'' : S) (z : ℕ × Option Event × Option Error)
          → Unchanged laws s (others s) s''
          → DeleteOutcome laws key revision s (others s) (s'', delete_lost L rev kv s'' z)
      lost rev kv s'' (r, latest, some e) u = u
      lost rev kv s'' (r, none, none) u = u
      lost rev kv s'' (r, some latest, none) u = u

      removed :
          (ev : Event) (r : Row)
          → last? (of_key key (laws.rows s)) ≡ some r
          → r.deleted ≡ false
          → (revision == 0 || r.revision == revision) ≡ true
          → (kv_of ev).mod_revision ≡ r.revision
          → (y : S × (ℕ × Option Error))
          → L.append (delete_event key (kv_of ev).mod_revision) (others s) ≡ y
          → DeleteOutcome laws key revision s (others s) (delete_appended L key (kv_of ev) y)
      removed ev r last live at shows (s'', (rev, some e)) q =
          lost rev (kv_of ev) s'' (LogStructured.get_event L key 0 true false s'')
            (inr (laws.append-failed (delete_event key (kv_of ev).mod_revision) (others s) q))
      removed ev r last live at shows (s'', (rev, none)) q =
          let new = delete_event key (kv_of ev).mod_revision in
          let (row, a, w) = append-Written G new (shows ∙ sym (last_revision-some 0 _ r last)) q in
          inl (record {
            e = r;
            new = row;
            live = live;
            at = at;
            is_delete = record {
              key_eq = a.key_eq;
              deleted = a.deletes refl;
              prev_eq = a.prev_eq ∙ shows;
            };
            written = record {
              over = w.over ∙ last;
              more = w.more;
              appended = w.appended;
              linked = w.linked;
            };
          })

      over :
          (x : ℕ × List Event × Option Error)
          → L.list key [] 1 0 true false s ≡ x
          → DeleteOutcome laws key revision s
              (others s)
              (delete_over L others key revision s (first_of x))
      over (rev, evs, some e) p = inl refl
      over (rev, [], none) p = inr (Found-none (laws.list-Found key true false s p), refl)
      over (rev, ev ∷ evs, none) p =
          let (r, last, shows, visible) = Found-some (laws.list-Found key true false s p) in
          elim (Bool-cases ev.deleted) [
            | inl dead ↦ simp dead (inl refl)
            | inr live ↦
                elim (Bool-cases
                  (not (revision == 0) && not ((kv_of ev).mod_revision == revision))) [
                    | inl other ↦ simp (live, other) (inl refl)
                    | inr same ↦
                        simp (live, same)
                          (removed ev r last (sym shows.0 ∙ live) (ground (arith, shows.1)) shows.1
                            _ refl)
                  ]
          ]
