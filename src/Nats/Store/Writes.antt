-- ===== src/Nats/Store/Writes.antt =====
-- `Update` of `KeyValue` in pkg/drivers/nats/kv.go writes after the given revision or not at all.
use harikube.Common.{ℕ, Bytes, Bool, true, false, inl, inr, Option, none, some, List, ◌≡◌, refl}
use harikube.Memory.Map.{OrderedMap}
use harikube.Nats.Codec.{Base58, encode}
use harikube.Nats.Index.{Failure, Result, done, fails, SeqOp, get_revision_op}
use harikube.Nats.Bucket.{Bucket, Values}
use harikube.Nats.Index.Deleted.{check_revision-zero}
use harikube.Nats.Store.{
  Kv, kv_update, update_encoded, update_packed, written, kv_create, create_encoded, create_packed,
  kv_get_revision, entry_checked, entry_at,
}

-- The documented `Update` of a bucket: it writes its value only after the given revision of the entry,
-- and a failed one leaves the bucket as it was.
pub record BucketLaws {N : Type 0} (B : Bucket N) : Type 0 where
  pub last : Bytes → N → ℕ
  pub content : Bytes → N → Bytes
  pub update-done :
      (subject value : Bytes) (revision : ℕ) (n : N) {n' : N} {seq : ℕ}
      → B.update subject value revision n ≡ (n', done seq)
      → (last subject n ≡ revision) × (last subject n' ≡ seq) × (content subject n' ≡ value)
  pub update-fails :
      (subject value : Bytes) (revision : ℕ) (n : N) {n' : N} {e : Failure}
      → B.update subject value revision n ≡ (n', fails e)
      → n' ≡ n

-- The entry of a key is replaced between two states of the server: it had the given revision, and has
-- the new one, and the new value in its compressed form.
pub record Swapped {N : Type 0} {B : Bucket N} (laws : BucketLaws B) (K : Base58) (V : Values)
    (key value : Bytes) (revision : ℕ) (n n' : N) (rev : ℕ) : Type 0 where
  pub subject : Bytes
  pub subject_eq : encode K key ≡ some subject
  pub packed : Bytes
  pub packed_eq : V.compress value ≡ done packed
  pub before : laws.last subject n ≡ revision
  pub after : laws.last subject n' ≡ rev
  pub holds : laws.content subject n' ≡ packed

module _ {O : OrderedMap (List SeqOp)} {N : Type 0} {B : Bucket N} (laws : BucketLaws B)
    (K : Base58) (V : Values) (waiting : Kv O N → Kv O N) (key value : Bytes) (revision : ℕ) where
  -- The state in the end is that of the write, after the wait for the index.
  abbrev pub KvOutcome : Kv O N → Kv O N × Result ℕ → Type 0
  KvOutcome s (s', done seq) =
      (n' : N) × Swapped laws K V key value revision s.server n' seq
      × (s' ≡ waiting (record s { server = n' }))
  KvOutcome s (s', fails e) = s'.server ≡ s.server

module _ {O : OrderedMap (List SeqOp)} {N : Type 0} {B : Bucket N} (laws : BucketLaws B)
    (K : Base58) (V : Values) (waiting : Kv O N → Kv O N) (key value : Bytes) (revision : ℕ)
    (s : Kv O N) where
  pub kv_update-KvOutcome :
      KvOutcome laws K V waiting key value revision s (kv_update B K V waiting key value revision s)
  unfolding kv_update update_encoded update_packed written
  kv_update-KvOutcome = encoded (encode K key) refl
    where
      sent :
          (subject packed : Bytes) (x : N × Result ℕ)
          → encode K key ≡ some subject
          → V.compress value ≡ done packed
          → B.update subject packed revision s.server ≡ x
          → KvOutcome laws K V waiting key value revision s (written B K V waiting s x)
      sent subject packed (n, done seq) p c q =
          let (at, now, holds) = laws.update-done subject packed revision s.server q in
          (
            n,
            record {
              subject = subject;
              subject_eq = p;
              packed = packed;
              packed_eq = c;
              before = at;
              after = now;
              holds = holds;
            },
            refl,
          )
      sent subject packed (n, fails e) p c q = laws.update-fails subject packed revision s.server q

      compressed :
          (subject : Bytes) (x : Result Bytes)
          → encode K key ≡ some subject
          → V.compress value ≡ x
          → KvOutcome laws K V waiting key value revision s
              (update_packed B K V waiting subject revision s x)
      compressed subject (fails e) p c = refl
      compressed subject (done packed) p c = sent subject packed _ p c refl

      encoded :
          (x : Option Bytes)
          → encode K key ≡ x
          → KvOutcome laws K V waiting key value revision s
              (update_encoded B K V waiting value revision s x)
      encoded none p = refl
      encoded (some subject) p = compressed subject (V.compress value) p refl

module _ {O : OrderedMap (List SeqOp)} {N : Type 0} (B : Bucket N) (K : Base58) (V : Values) where
  pub kv_create-fails :
      (waiting : Kv O N → Kv O N) (key value subject packed : Bytes) (s : Kv O N) {n : N}
      {e : Failure}
      → encode K key ≡ some subject
      → V.compress value ≡ done packed
      → B.create subject packed s.server ≡ (n, fails e)
      → kv_create B K V waiting key value s ≡ (record s { server = n }, fails e)
  unfolding kv_create create_encoded create_packed written
  kv_create-fails waiting key value subject packed s p q r = rw (p, q, r) refl

  -- A key that the index does not have, or has as deleted, is not found.
  pub kv_get_revision-no_key :
      (key : Bytes) (checked : Bool) (s : Kv O N)
      → get_revision_op key 0 false s.index ≡ fails Failure.no_key
      → kv_get_revision B K V key 0 checked s ≡ fails Failure.no_key
  unfolding kv_get_revision entry_checked entry_at
  kv_get_revision-no_key key false s p = rw p refl
  kv_get_revision-no_key key true s p = elim (check_revision-zero key s.index) [
    | inl fine ↦ rw (fine, p) refl
    | inr gone ↦ rw gone refl
  ]
