-- ===== src/Tests/NatsBuckets.antt =====
-- A bucket that holds the last revision of every subject, keys shifted by sixty for Base58, and the
-- theorems about the NATS driver on them.
use harikube.Common.{
  ℕ, ◌+◌, ◌-◌, Bytes, codes, bytes_eq, bytes_eq_refl, Bool, true, false, none, some, List, [], ◌∷◌,
  ◌++◌, map, ◌≡◌, refl, ap, subst, ap₂, arith, has_byte, has_prefix, join, split, ◌==◌,
  if◌then◌else◌, reverse, drop,
}
use harikube.Api.{Error}
use harikube.Memory.Map.{lookup}
use harikube.Nats.Codec.{Base58, Base58Laws, encode, encode_parts, decode, trim_prefix}
use harikube.Nats.Codec.RoundTrip.{decode-encode}
use harikube.Nats.Index.{
  Failure, Result, done, fails, Operation, SeqOp, Index, get_seq_op, index_update, check_revision,
  get_revision_op,
}
use harikube.Nats.Index.Deleted.{tombstone}
use harikube.Nats.History.{add_all, get_seq_op-add_all}
use harikube.Nats.Bucket.{Bucket, Values}
use harikube.Nats.Store.{Kv, kv_update, kv_get_revision}
use harikube.Nats.Store.Writes.{BucketLaws}
use harikube.Nats.Backend.{failure, created_data, create, get_nats}
use harikube.Nats.Backend.Changes.{update, delete}
use harikube.Nats.Backend.Changes.Swaps.{UpdateOutcome, update-Swapped}
use harikube.Nats.Backend.Changes.Tombstones.{tombstone-stuck}
use harikube.Nats.Watching.{delivered, delivered-any_key}
use harikube.Tests.SortedMap.{sorted_map, insert}

abbrev up : Bytes → Bytes
up b = map (λ c. 60 + c) b

abbrev down : Bytes → Bytes
down b = map (λ c. c - 60) b

abbrev shifted : Base58
shifted = record { encode = up; decode = λ b. some (down b) }

down-up : (b : Bytes) → down (up b) ≡ b
down-up [] = refl
down-up (c ∷ b) = let same : 60 + c - 60 ≡ c = omega arith in ap₂ ◌∷◌ same (down-up b)

has_byte-up : (b : Bytes) → has_byte 46 (up b) ≡ false
unfolding has_byte
has_byte-up [] = refl
has_byte-up (c ∷ b) =
    let other : (60 + c == 46) ≡ false = ground arith in rw (other, has_byte-up b) refl

abbrev shifted_laws : Base58Laws shifted
shifted_laws = record { decode-encode = λ b. ap some (down-up b); no_dot = has_byte-up }

abbrev pod : Bytes
pod = codes "/pods/a"

decode-encode_example :
    decode shifted (join 46 (up (codes "pods") ∷ up (codes "a") ∷ [])) ≡ some pod
unfolding encode encode_parts trim_prefix split has_prefix bytes_eq join
decode-encode_example =
    decode-encode shifted_laws pod (join 46 (up (codes "pods") ∷ up (codes "a") ∷ [])) refl
      (refl, (refl, tt)) (λ p. refl)

abbrev puts : List SeqOp
puts =
    record { seq = 1; op = Operation.op_put }
    ∷ record { seq = 4; op = Operation.op_put }
    ∷ record { seq = 6; op = Operation.op_put }
    ∷ []

get_seq_op-add_all_example : get_seq_op (add_all 2 [] puts) 5 false ≡ get_seq_op puts 5 false
unfolding add_all drop
get_seq_op-add_all_example =
    get_seq_op-add_all 2 5 false puts (record { seq = 6; op = Operation.op_put } ∷ [])
      (record { seq = 4; op = Operation.op_put }) (omega arith) refl refl

delivered-any_key_example :
    delivered (codes "/a/b") [] 0 3 (codes "a.c") (some (codes "/a/c"))
    ≡ delivered (codes "/a/c") [] 0 3 (codes "a.c") (some (codes "/a/c"))
delivered-any_key_example =
    delivered-any_key (codes "/a/b") (codes "/a/c") [] 0 3 (codes "a.c") (some (codes "/a/c"))

-- The server: the last sequence number, and that of each subject, with its value.
pub record Server : Type 0 where
  pub seq : ℕ
  pub last : Bytes → ℕ
  pub content : Bytes → Bytes

abbrev stored : Bytes → Bytes → Server → Server
stored subject value n = record {
  seq = n.seq + 1;
  last = λ k. if bytes_eq k subject then n.seq + 1 else n.last k;
  content = λ k. if bytes_eq k subject then value else n.content k;
}

abbrev store_if : Bool → Bytes → Bytes → Server → Server × Result ℕ
store_if true subject value n = (stored subject value n, done (n.seq + 1))
store_if false subject value n = (n, fails Failure.wrong_last_seq)

abbrev bucket : Bucket Server
bucket = record {
  get = λ subject n.
      done (record { subject = subject; value = n.content subject; revision = n.last subject });
  get_revision = λ subject revision n. fails Failure.no_key;
  create = λ subject value n. store_if (n.last subject == 0) subject value n;
  update = λ subject value revision n. store_if (n.last subject == revision) subject value n;
  delete = λ subject revision n. (n, none);
}

store_if-done :
    (b : Bool) (subject value : Bytes) (n : Server) {n' : Server} {seq : ℕ}
    → store_if b subject value n ≡ (n', done seq)
    → (b ≡ true) × (n'.last subject ≡ seq) × (n'.content subject ≡ value)
store_if-done true subject value n {seq = seq} p =
    let eq = bytes_eq_refl subject in
    let number : n.seq + 1 ≡ seq = cc p in
    (
      refl,
      subst (λ (x : Server). x.last subject ≡ seq) (ap (λ x. x.0) p) (simp eq number),
      subst (λ (x : Server). x.content subject ≡ value) (ap (λ x. x.0) p) (simp eq refl),
    )
store_if-done false subject value n p = absurd (cc p)

store_if-fails :
    (b : Bool) (subject value : Bytes) (n : Server) {n' : Server} {e : Failure}
    → store_if b subject value n ≡ (n', fails e)
    → n' ≡ n
store_if-fails true subject value n p = absurd (cc p)
store_if-fails false subject value n p = cc p

abbrev bucket_laws : BucketLaws bucket
bucket_laws = record {
  last = λ subject n. n.last subject;
  content = λ subject n. n.content subject;
  update-done = λ subject value revision n p.
      let (b, after, holds) = store_if-done (n.last subject == revision) subject value n p in
      (ground arith, after, holds);
  update-fails =
      λ subject value revision n p. store_if-fails (n.last subject == revision) subject value n p;
}

abbrev values : Values
values = record {
  marshal = λ nd. done nd.kv.value;
  unmarshal = λ v. done (created_data pod v 0 0);
  compress = λ v. done v;
  decompress = λ v. v;
}

abbrev empty_index : Index sorted_map
empty_index = record { bt = ([], tt); last_seq = 0; compact_rev = 0 }

-- One put of the key, of which the index knows.
abbrev one_put : Kv sorted_map Server
one_put = record {
  index = index_update 2 pod (record { seq = 1; op = Operation.op_put }) empty_index;
  server =
      stored (up (codes "pods") ++ 46 ∷ up (codes "a")) (codes "1")
        (record { seq = 0; last = λ k. 0; content = λ k. [] });
}

abbrev nothing : Kv sorted_map Server → Kv sorted_map Server
nothing s = s

update-Swapped_example :
    UpdateOutcome bucket_laws shifted values nothing pod
      (codes "2")
      1
      0
      one_put
      one_put
      (update bucket shifted values nothing nothing pod (codes "2") 1 0 one_put)
update-Swapped_example =
    update-Swapped bucket_laws shifted values nothing nothing pod (codes "2") 1 0 one_put

-- A tombstone is the last entry.
tombstone-stuck_example :
    let s : Kv sorted_map Server = record {
      index = index_update 2 pod (tombstone 2) empty_index;
      server =
          stored
            (up (codes "pods") ++ 46 ∷ up (codes "a"))
            (codes "1")
            (record { seq = 1; last = λ k. 1; content = λ k. [] });
    } in
    (create bucket shifted values nothing nothing pod (codes "1") 0 s
      ≡ (s, (s.index.last_seq, some (failure Error.key_exists))))
    × (update bucket shifted values nothing nothing pod (codes "1") 2 0 s
        ≡ (s, (s.index.last_seq, none, false, none)))
    × (delete bucket shifted values nothing nothing pod 2 s
        ≡ (s, (s.index.last_seq, none, false, none)))
unfolding encode encode_parts trim_prefix split has_prefix bytes_eq join
tombstone-stuck_example =
    tombstone-stuck bucket shifted values 2 2 empty_index
      (stored (up (codes "pods") ++ 46 ∷ up (codes "a")) (codes "1")
        (record { seq = 1; last = λ k. 1; content = λ k. [] }))
      pod (codes "1") (up (codes "pods") ++ 46 ∷ up (codes "a")) (codes "1") (codes "1") 2 0 refl
      refl refl refl

-- The update above is done.
update_run : (update bucket shifted values nothing nothing pod (codes "2") 1 0 one_put).1.2 ≡ true
unfolding update index_update get_nats encode encode_parts trim_prefix split has_prefix bytes_eq
    join kv_update kv_get_revision check_revision lookup insert get_revision_op reverse
update_run = refl
