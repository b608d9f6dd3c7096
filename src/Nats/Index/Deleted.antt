-- ===== src/Nats/Index/Deleted.antt =====
-- A key whose last operation is a deletion, in the index of pkg/drivers/nats/kv.go.
use harikube.Common.{
  ℕ, Bytes, bytes_eq, bytes_eq_refl, false, not, ◌&&◌, none, some, List, [], ◌∷◌, ◌++◌, ◌≡◌, refl,
  ap, reverse, reverse-append, Bool-cases, inl, inr, ◌⊎◌,
}
use harikube.Memory.Map.{OrderedMap}
use harikube.Nats.Index.{
  Failure, fails, Operation, SeqOp, Index, seq_op_from, get_seq_op, add_op, found_op, ops_at,
  get_revision_op, index_update, check_revision, is_some,
}

abbrev pub tombstone : ℕ → SeqOp
tombstone seq = record { seq = seq; op = Operation.op_delete }

get_seq_op-tombstone :
    (ops : List SeqOp) (seq : ℕ) → get_seq_op (ops ++ tombstone seq ∷ []) 0 false ≡ none
unfolding get_seq_op seq_op_from reverse
get_seq_op-tombstone ops seq = ap (seq_op_from 0 false) (reverse-append ops (tombstone seq ∷ []))

module _ {O : OrderedMap (List SeqOp)} (hsize : ℕ) (key : Bytes) (seq : ℕ) (i : Index O) where
  pub get_revision_op-tombstone :
      get_revision_op key 0 false (index_update hsize key (tombstone seq) i) ≡ fails Failure.no_key
  unfolding get_revision_op ops_at found_op index_update add_op
  get_revision_op-tombstone = rw (O.get-set, bytes_eq_refl, get_seq_op-tombstone) refl

-- The latest revision is never refused but for a key that is not there.
pub check_revision-zero :
    {O : OrderedMap (List SeqOp)} (key : Bytes) (i : Index O)
    → (check_revision key 0 i ≡ none) ⊎ (check_revision key 0 i ≡ some Failure.no_key)
unfolding check_revision
check_revision-zero {O} key i =
    elim (Bool-cases (not (bytes_eq key []) && not (is_some (O.get i.bt key)))) [
      | inl gone ↦ inr (simp gone refl)
      | inr there ↦ inl (simp there refl)
    ]
