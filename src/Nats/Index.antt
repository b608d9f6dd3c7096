-- ===== src/Nats/Index.antt =====
-- The index of pkg/drivers/nats/kv.go: the operations on each key in the order of their sequence
-- numbers, as many as the history of the bucket holds. The time of expiry of an operation, which nothing
-- reads, is left out. The btree map is the parameter of the in-memory backend.
pub mod Deleted
use harikube.Common.{
  ℕ, suc, Bytes, bytes_eq, bytes_lt, Bool, true, false, not, ◌&&◌, ◌||◌, Option, none, some, List,
  [], ◌∷◌, ◌++◌, length, drop, reverse, ltb, leb, ◌==◌, if◌then◌else◌,
}
use harikube.Api.{Error}
use harikube.Memory.Map.{OrderedMap}

pub data Operation : Type 0 where
  op_put op_delete op_purge : Operation

abbrev pub is_put : Operation → Bool
is_put Operation.op_put = true
is_put _ = false

-- `seqOp`
pub record SeqOp : Type 0 where
  pub seq : ℕ
  pub op : Operation

-- `keySeq`
pub record KeySeq : Type 0 where
  pub key : Bytes
  pub seq : ℕ

-- The errors that the code tells apart: those of NATS, and those of the servers.
pub data Failure : Type 0 where
  no_key wrong_last_seq invalid_key : Failure
  server_error : Error → Failure

pub data Result {ℓ} (A : Type ℓ) : Type ℓ where
  done : A → Result A
  fails : Failure → Result A

abbrev pub reach : ℕ → SeqOp → Bool
reach revision op = revision == 0 || leb op.seq revision

-- The loop of `getSeqOp`, over the operations from the last to the first.
unfoldable pub seq_op_from : ℕ → Bool → List SeqOp → Option SeqOp
seq_op_from revision allow_deleted [] = none
seq_op_from revision allow_deleted (op ∷ ops) =
    let rest = seq_op_from revision allow_deleted ops in
    if reach revision op
    then if not (is_put op.op) && not allow_deleted then none else some op
    else rest

-- `getSeqOp`
unfoldable pub get_seq_op : List SeqOp → ℕ → Bool → Option SeqOp
unfolding seq_op_from
get_seq_op ops revision allow_deleted = seq_op_from revision allow_deleted (reverse ops)

-- What `btreeWatcher` makes of the operations of a key: the slice has the capacity `hsize`.
unfoldable pub add_op : ℕ → List SeqOp → SeqOp → List SeqOp
add_op hsize ops op = (if length ops == hsize then drop 1 ops else ops) ++ op ∷ []

abbrev ops_or_empty : Option (List SeqOp) → List SeqOp
ops_or_empty none = []
ops_or_empty (some ops) = ops

abbrev is_some : Option (List SeqOp) → Bool
is_some none = false
is_some (some ops) = true

found_op : Option SeqOp → Result SeqOp
found_op none = fails Failure.no_key
found_op (some op) = done op

ops_at : ℕ → Bool → Option (List SeqOp) → Result SeqOp
unfolding found_op get_seq_op
ops_at revision allow_deleted none = fails Failure.no_key
ops_at revision allow_deleted (some ops) = found_op (get_seq_op ops revision allow_deleted)

-- The end of a scan.
abbrev pub past_end : Bytes → Bytes → Bytes → Bool
past_end key end k =
    bytes_eq end [] && not (bytes_eq k key) || not (bytes_eq end []) && not (bytes_lt k end)

abbrev pub matched : Bytes → Option SeqOp → List KeySeq
matched k none = []
matched k (some op) = record { key = k; seq = op.seq } ∷ []

abbrev pub limit_met : ℕ → List KeySeq → Bool
limit_met limit matches = ltb 0 limit && leb limit (length matches)

-- The loop of `List` over the keys from the first one on, with the matches so far. A limit of 0 is none.
unfoldable pub list_matches :
    Bytes → Bytes → ℕ → ℕ → List KeySeq → List (Bytes × List SeqOp) → List KeySeq
unfolding get_seq_op
list_matches key end limit revision matches [] = matches
list_matches key end limit revision matches (e ∷ l) =
    let more = matches ++ matched e.0 (get_seq_op e.1 revision false) in
    let rest = list_matches key end limit revision more l in
    if past_end key end e.0 then matches else if limit_met limit more then more else rest

-- The loop of `getListOps`
unfoldable pub list_ops_from :
    Bytes → Bytes → ℕ → List KeySeq → List (Bytes × List SeqOp) → List KeySeq
unfolding get_seq_op
list_ops_from key end revision matches [] = matches
list_ops_from key end revision matches (e ∷ l) =
    let rest =
      list_ops_from key end revision (matches ++ matched e.0 (get_seq_op e.1 revision false)) l in
    if past_end key end e.0 then matches else rest

counted : Result (List KeySeq) → Result ℕ
counted (done l) = done (length l)
counted (fails e) = fails e

module _ (O : OrderedMap (List SeqOp)) where
  -- `bt`, `lastSeq` and `compactRev` of `KeyValue`
  pub record Index : Type 0 where
    pub bt : O.Map
    pub last_seq : ℕ
    pub compact_rev : ℕ

module _ {O : OrderedMap (List SeqOp)} where
  -- A turn of `btreeWatcher` with an entry that can be decoded.
  unfoldable pub index_update : ℕ → Bytes → SeqOp → Index O → Index O
  unfolding add_op
  index_update hsize key op s = record s {
    bt = O.set s.bt key (add_op hsize (ops_or_empty (O.get s.bt key)) op);
    last_seq = op.seq;
  }

  -- `checkRevision`; `none` is no error.
  unfoldable pub check_revision : Bytes → ℕ → Index O → Option Failure
  check_revision key revision s =
      if not (bytes_eq key []) && not (is_some (O.get s.bt key))
      then some Failure.no_key
      else if revision == 0
      then none
      else if ltb s.last_seq revision
      then some (Failure.server_error Error.future_rev)
      else if ltb revision s.compact_rev
      then some (Failure.server_error Error.compacted)
      else none

  -- `getRevisionOp`
  unfoldable pub get_revision_op : Bytes → ℕ → Bool → Index O → Result SeqOp
  unfolding ops_at
  get_revision_op key revision allow_deleted s = ops_at revision allow_deleted (O.get s.bt key)

  list_ops_checked : Bytes → Bytes → ℕ → Index O → Option Failure → Result (List KeySeq)
  unfolding list_ops_from
  list_ops_checked key end revision s (some e) = fails e
  list_ops_checked key end revision s none =
      done (list_ops_from key end revision [] (O.seek s.bt key))

  -- `getListOps`, with a key
  unfoldable pub get_list_ops : Bytes → Bytes → ℕ → Index O → Result (List KeySeq)
  unfolding list_ops_checked check_revision
  get_list_ops key end revision s =
      list_ops_checked key end revision s (check_revision [] revision s)

  -- `Count` of `KeyValue`
  unfoldable pub kv_count : Bytes → Bytes → ℕ → Index O → Result ℕ
  unfolding counted get_list_ops
  kv_count key end revision s = counted (get_list_ops key end revision s)
