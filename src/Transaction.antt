-- ===== src/Transaction.antt =====
-- pkg/drivers/transaction/transaction.go: the backend that runs several writes as one creation.
--
-- The decoder of Kubernetes objects is a parameter. A context that carries a transaction is a backend
-- of its own, `within`. A Go map is the list of its entries in the order of the iteration. A negative
-- resource version is refused here, as revisions are natural numbers.
pub mod Outcome
use Prim.Native.Nat.{max}
use harikube.Common.{
  ℕ, ◌+◌, ◌-◌, ◌*◌, Bytes, codes, bytes_eq, has_prefix, split, Bool, true, false, Option, none,
  some, List, [], ◌∷◌, ltb, ◌==◌, if◌then◌else◌,
}
use harikube.Api.{Error, KeyValue, Backend}
use harikube.Server.Requests.{Reply, ok, failed, panicked}
use harikube.Server.Version.{max_int64}

mutual
  -- What an object holds under a key, by its Go type: `map[string]interface{}`, `map[string][]byte`,
  -- `string`, or another one.
  pub data Value : Type 0 where
    object : Fields → Value
    byte_map : List (Bytes × Bytes) → Value
    text : Bytes → Value
    other_value : Value

  pub data Fields : Type 0 where
    no_fields : Fields
    field : Bytes → Value → Fields → Fields

pub record TxBackend (S T : Type 0) : Type 0 where
  pub base : Backend S
  pub within : T → Backend S
  pub current_revision : S → ℕ × Option Error
  pub begin : S → S × Reply T
  pub commit : T → S → S × Option Error
  pub rollback : T → S → S × Option Error

unfoldable pub value_at : Bytes → Fields → Option Value
value_at k no_fields = none
value_at k (field j v l) = let rest = value_at k l in if bytes_eq j k then some v else rest

digits_from : ℕ → Bytes → Option ℕ
digits_from n [] = some n
digits_from n (c ∷ s) =
    let n' = n * 10 + (c - 48) in
    let rest = digits_from n' s in
    if ltb c 48 then none else if ltb 57 c then none else if ltb max_int64 n' then none else rest

unsigned : Bytes → Option ℕ
unfolding digits_from
unsigned [] = none
unsigned (c ∷ s) = digits_from 0 (c ∷ s)

-- `strconv.ParseInt` with its error
unfoldable pub parse_revision : Bytes → Option ℕ
unfolding unsigned
parse_revision [] = none
parse_revision (c ∷ s) = if c == 43 then unsigned s else unsigned (c ∷ s)

abbrev pub tx_prefix : Bytes
tx_prefix = codes "/harikube/transaction/"

-- `errors.Join` with an error that may be nil
abbrev join : Option Error → Error → Error
join none e = e
join (some e') e = Error.joined e' e

abbrev missing_resource_version : Error
missing_resource_version = Error.joined (Error.missing (codes "resourceVersion")) Error.too_many_ops

revision_of_text : Option ℕ → Reply ℕ
revision_of_text none = failed missing_resource_version
revision_of_text (some n) = ok n

revision_of_value : Option Value → Reply ℕ
unfolding revision_of_text parse_revision
revision_of_value none = failed missing_resource_version
revision_of_value (some (text t)) = revision_of_text (parse_revision t)
revision_of_value (some _) = panicked

revision_of_metadata : Option Value → Reply ℕ
unfolding revision_of_value value_at
revision_of_metadata none =
    failed (Error.joined (Error.missing (codes "metadata")) Error.too_many_ops)
revision_of_metadata (some (object l)) = revision_of_value (value_at (codes "resourceVersion") l)
revision_of_metadata (some _) = panicked

-- The resource version of a decoded resource, up to the `ParseInt`.
unfoldable pub revision_of : Reply Fields → Reply ℕ
unfolding revision_of_metadata
revision_of (ok obj) = revision_of_metadata (value_at (codes "metadata") obj)
revision_of (failed e) = failed Error.too_many_ops
revision_of panicked = panicked

-- What a write leaves: the largest revision so far, and `txErr`.
abbrev pub Progress : Type 0
Progress = ℕ × Option Error

abbrev raised : {S : Type 0} → ℕ → S × (ℕ × Option Error) → S × Reply Progress
raised max_rev (s, (r, some e)) = (s, ok (max_rev, some e))
raised max_rev (s, (r, none)) = (s, ok (max max_rev r, none))

abbrev revision_error :
    {S : Type 0} → S × (ℕ × Option KeyValue × Bool × Option Error) → S × (ℕ × Option Error)
revision_error (s, (r, kv, done, e)) = (s, (r, e))

-- After one resource: the loop goes on without an error.
abbrev go_on : {S : Type 0} → (ℕ → S → S × Reply Progress) → S × Reply Progress → S × Reply Progress
go_on rest (s, ok (max_rev, none)) = rest max_rev s
go_on rest (s, ok (max_rev, some e)) = (s, ok (max_rev, some e))
go_on rest (s, failed e) = (s, failed e)
go_on rest (s, panicked) = (s, panicked)

module _ {S T : Type 0} (B : TxBackend S T) (decode : Bytes → Reply Fields) where
  -- The `switch` of the loop, inside the transaction.
  write_one : T → ℕ → ℕ → Bytes → Bytes → Bytes → ℕ → S → S × Reply Progress
  write_one t lease max_rev key verb raw revision s =
      if bytes_eq verb (codes "create")
      then raised max_rev ((B.within t).create key raw lease s)
      else if bytes_eq verb (codes "update")
      then raised max_rev (revision_error ((B.within t).update key raw revision lease s))
      else if bytes_eq verb (codes "delete")
      then raised max_rev (revision_error ((B.within t).delete key revision s))
      else (s, ok (max_rev, some Error.not_supported))

  split_key : T → ℕ → ℕ → List Bytes → Bytes → ℕ → S → S × Reply Progress
  split_key t lease max_rev (key ∷ verb ∷ []) raw revision s =
      write_one t lease max_rev key verb raw revision s
  split_key t lease max_rev _ raw revision s = (s, ok (max_rev, some Error.key_not_found))

  one_resource : T → ℕ → ℕ → Bytes → Bytes → Reply ℕ → S → S × Reply Progress
  one_resource t lease max_rev key raw (ok revision) s =
      split_key t lease max_rev (split 35 key) raw revision s
  one_resource t lease max_rev key raw (failed e) s = (s, ok (max_rev, some e))
  one_resource t lease max_rev key raw panicked s = (s, panicked)

  -- The loop over the resources; it ends at the first error.
  unfoldable pub write_all : T → ℕ → List (Bytes × Bytes) → ℕ → S → S × Reply Progress
  unfolding one_resource split_key write_one revision_of split
  write_all t lease [] max_rev s = (s, ok (max_rev, none))
  write_all t lease (r ∷ rs) max_rev s =
      go_on (write_all t lease rs)
        (one_resource t lease max_rev r.0 r.1 (revision_of (decode r.1)) s)

  rolled_back : ℕ → S × Option Error → S × Reply (ℕ × Option Error)
  rolled_back curr_rev (s, none) = (s, ok (curr_rev, some (Error.wrapped Error.too_many_ops)))
  rolled_back curr_rev (s, some e) = (s, ok (curr_rev, some (Error.joined e Error.too_many_ops)))

  committed : ℕ → ℕ → S × Option Error → S × Reply (ℕ × Option Error)
  committed curr_rev max_rev (s, none) = (s, ok (max_rev, none))
  committed curr_rev max_rev (s, some e) =
      (s, ok (curr_rev, some (Error.joined e Error.too_many_ops)))

  -- The end of `Create`, with its test as it stands: `txErr == nil` rolls back.
  unfoldable pub finish : T → ℕ → S × Reply Progress → S × Reply (ℕ × Option Error)
  unfolding rolled_back committed
  finish t curr_rev (s, ok (max_rev, none)) = rolled_back curr_rev (B.rollback t s)
  finish t curr_rev (s, ok (max_rev, some e)) = committed curr_rev max_rev (B.commit t s)
  finish t curr_rev (s, failed e) = (s, failed e)
  finish t curr_rev (s, panicked) = (s, panicked)

  begun : ℕ → List (Bytes × Bytes) → ℕ → S × Reply T → S × Reply (ℕ × Option Error)
  begun lease resources curr_rev (s, ok t) =
      finish t curr_rev (write_all t lease resources curr_rev s)
  begun lease resources curr_rev (s, failed e) =
      (s, ok (curr_rev, some (Error.joined e Error.unhealthy)))
  begun lease resources curr_rev (s, panicked) = (s, panicked)

  missing_resources : ℕ → S → S × Reply (ℕ × Option Error)
  missing_resources curr_rev s = (
    s,
    ok (curr_rev, some (Error.joined (Error.missing (codes "resources")) Error.not_supported)),
  )

  with_resources : ℕ → ℕ → Option Value → S → S × Reply (ℕ × Option Error)
  unfolding missing_resources
  with_resources lease curr_rev (some (byte_map resources)) s =
      begun lease resources curr_rev (B.begin s)
  with_resources lease curr_rev _ s = missing_resources curr_rev s

  with_specs : ℕ → ℕ → Option Value → S → S × Reply (ℕ × Option Error)
  with_specs lease curr_rev none s =
      (s, ok (curr_rev, some (Error.joined (Error.missing (codes "specs")) Error.not_supported)))
  with_specs lease curr_rev (some (object l)) s =
      with_resources lease curr_rev (value_at (codes "resources") l) s
  with_specs lease curr_rev (some _) s = (s, panicked)

  with_object : ℕ → ℕ → Reply Fields → S → S × Reply (ℕ × Option Error)
  with_object lease curr_rev (ok obj) s = with_specs lease curr_rev (value_at (codes "specs") obj) s
  with_object lease curr_rev (failed e) s = (s, ok (0, some (Error.joined e Error.not_supported)))
  with_object lease curr_rev panicked s = (s, panicked)

  at_revision : Bytes → ℕ → ℕ × Option Error → S → S × Reply (ℕ × Option Error)
  at_revision value lease (rev, some e) s = (s, ok (0, some (Error.joined e Error.unhealthy)))
  at_revision value lease (rev, none) s = with_object lease rev (decode value) s

  passed_on : S × (ℕ × Option Error) → S × Reply (ℕ × Option Error)
  passed_on (s, r) = (s, ok r)

  -- `Create`; the revision and the error are those that it returns.
  unfoldable pub create : Bytes → Bytes → ℕ → S → S × Reply (ℕ × Option Error)
  unfolding passed_on at_revision with_object with_specs with_resources begun value_at
  create key value lease s =
      if has_prefix tx_prefix key
      then (if bytes_eq value []
          then (s, ok (0, some (Error.joined (Error.missing (codes "value")) Error.not_supported)))
          else at_revision value lease (B.current_revision s) s)
      else passed_on (B.base.create key value lease s)
