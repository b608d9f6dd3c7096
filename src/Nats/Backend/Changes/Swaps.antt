-- ===== src/Nats/Backend/Changes/Swaps.antt =====
-- `Update` of pkg/drivers/nats/backend.go among other clients.
use harikube.Common.{
  ℕ, Bytes, Bool, true, false, not, Option, none, some, List, if◌then◌else◌, arith, ◌≡◌, refl, ◌⊎◌,
  inl, inr, ◌==◌, Bool-cases,
}
use harikube.Api.{KeyValue}
use harikube.Memory.Map.{OrderedMap}
use harikube.Nats.Codec.{Base58}
use harikube.Nats.Index.{Failure, Result, done, fails, SeqOp}
use harikube.Nats.Bucket.{Bucket, NatsData, Values}
use harikube.Nats.Store.{Kv}
use harikube.Nats.Store.Writes.{BucketLaws, Swapped, KvOutcome, kv_update-KvOutcome}
use harikube.Nats.Backend.{is_no_key, is_wrong_last_seq, get_nats}
use harikube.Nats.Backend.Changes.{
  updated_data, update, update_over, update_write, update_result, update_lost,
}

-- The data that an update writes over the entry `p`, read when the last sequence number was `read_rev`.
pub record IsUpdated (key value : Bytes) (revision lease read_rev : ℕ) (p nd : NatsData)
    : Type 0 where
  pub key_eq : nd.kv.key ≡ key
  pub value_eq : nd.kv.value ≡ value
  pub lease_eq : nd.kv.lease ≡ lease
  pub create_eq :
      nd.kv.create_revision ≡ (if p.kv.create_revision == 0 then read_rev else p.kv.create_revision)
  pub prev_eq : nd.prev_revision ≡ revision
  pub live : nd.deleted ≡ false

module _ {O : OrderedMap (List SeqOp)} {N : Type 0} {B : Bucket N} (laws : BucketLaws B)
    (K : Base58) (V : Values) (waiting : Kv O N → Kv O N) (key value : Bytes)
    (revision lease : ℕ) where
  -- An update over the entry that it has read; the state in the end is that of the write to the
  -- server, after the wait for the index.
  pub record Replaced (s s' s'' : Kv O N) (rev : ℕ) : Type 0 where
    pub read_rev : ℕ
    pub p : NatsData
    pub read : get_nats B K V key 0 false true s ≡ (read_rev, some p, none)
    pub nd : NatsData
    pub is_updated : IsUpdated key value revision lease read_rev p nd
    pub marshalled : Bytes
    pub marshalled_eq : V.marshal nd ≡ done marshalled
    pub n' : N
    pub swapped : Swapped laws K V key marshalled revision s'.server n' rev
    pub at : s'' ≡ waiting (record s' { server = n' })

  abbrev Updated : Kv O N → Kv O N → Kv O N → ℕ → Bool → Type 0
  Updated s s' s'' rev true = Replaced s s' s'' rev
  Updated s s' s'' rev false = (s''.server ≡ s.server) ⊎ (s''.server ≡ s'.server)

  -- What an update does, by its flag; `s'` is the state after what other clients did.
  abbrev pub UpdateOutcome :
      Kv O N → Kv O N → Kv O N × (ℕ × Option KeyValue × Bool × Option Failure) → Type 0
  UpdateOutcome s s' (s'', (rev, kv, swapped, e)) = Updated s s' s'' rev swapped

module _ {O : OrderedMap (List SeqOp)} {N : Type 0} {B : Bucket N} (laws : BucketLaws B)
    (K : Base58) (V : Values) (others waiting : Kv O N → Kv O N) (key value : Bytes)
    (revision lease : ℕ) where
  -- Whatever other clients do between its read and its write: an update that says that it is done has
  -- replaced the entry of the key at the given revision by the new value, with the key, the lease and
  -- the create revision that belong to it; any other one has written nothing.
  pub update-Swapped :
      (s : Kv O N)
      → UpdateOutcome laws K V waiting key value revision lease s
          (others s)
          (update B K V others waiting key value revision lease s)
  unfolding update update_over update_write update_result update_lost
  update-Swapped s = over (get_nats B K V key 0 false true s) refl
    where
      lost :
          (s'' : Kv O N) (x : ℕ × Option NatsData × Option Failure)
          → s''.server ≡ (others s).server
          → UpdateOutcome laws K V waiting key value revision lease s
              (others s)
              (s'', update_lost B K V s'' x)
      lost s'' (rev, pnd, none) q = inr q
      lost s'' (rev, pnd, some e) q = elim (Bool-cases (is_no_key e)) [
        | inl gone ↦ simp gone (inr q)
        | inr other ↦ simp other (inr q)
      ]

      stored :
          (read_rev : ℕ) (p nd : NatsData) (packed : Bytes)
          → get_nats B K V key 0 false true s ≡ (read_rev, some p, none)
          → IsUpdated key value revision lease read_rev p nd
          → V.marshal nd ≡ done packed
          → (x : Kv O N × Result ℕ) → KvOutcome laws K V waiting key packed revision (others s) x
          → UpdateOutcome laws K V waiting key value revision lease s
              (others s)
              (update_result B K V key nd.kv x)
      stored read_rev p nd packed r u m (s'', done seq) (n', q, at) = record {
        read_rev = read_rev;
        p = p;
        read = r;
        nd = nd;
        is_updated = u;
        marshalled = packed;
        marshalled_eq = m;
        n' = n';
        swapped = q;
        at = at;
      }
      stored read_rev p nd packed r u m (s'', fails e) q = elim (Bool-cases (is_wrong_last_seq e)) [
        | inl conflict ↦ simp conflict (lost s'' (get_nats B K V key 0 false true s'') q)
        | inr other ↦ simp other (inr q)
      ]

      marshalled :
          (read_rev : ℕ) (p nd : NatsData)
          → get_nats B K V key 0 false true s ≡ (read_rev, some p, none)
          → IsUpdated key value revision lease read_rev p nd
          → (x : Result Bytes) → V.marshal nd ≡ x
          → UpdateOutcome laws K V waiting key value revision lease s
              (others s)
              (update_write B K V waiting key revision nd.kv (others s) x)
      marshalled read_rev p nd r u (fails e) m = inr refl
      marshalled read_rev p nd r u (done packed) m =
          stored read_rev p nd packed r u m _
            (kv_update-KvOutcome laws K V waiting key packed revision (others s))

      over :
          (x : ℕ × Option NatsData × Option Failure)
          → get_nats B K V key 0 false true s ≡ x
          → UpdateOutcome laws K V waiting key value revision lease s
              (others s)
              (update_over B K V others waiting key value revision lease s x)
      over (rev, pnd, some e) r = inl refl
      over (rev, none, none) r = inl refl
      over (rev, some p, none) r = elim (Bool-cases (not (p.kv.mod_revision == revision))) [
        | inl other ↦ simp other (inl refl)
        | inr same ↦ simp same (
            marshalled rev p (updated_data key value lease rev p.kv) r
              (record {
                key_eq = refl;
                value_eq = refl;
                lease_eq = refl;
                create_eq = refl;
                prev_eq = ground arith;
                live = refl;
              })
              _ refl)
      ]
