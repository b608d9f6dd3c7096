-- ===== src/Ttl/Expiry.antt =====
-- What `handle` of pkg/ttl/ttl.go deletes, and what it forgets.
use harikube.Common.{
  ℕ, zero, suc, codes, length, last?, ◌≤◌, ◌<◌, Bytes, bytes_eq_refl, true, false, Option, none,
  some, List, [], ◌∷◌, ◌≡◌, ◌∙◌, refl, ◌⊎◌, inl, inr, arith, ltb, Bool-cases,
}
use harikube.Api.{Error, KeyValue, Backend}
use harikube.Ttl.{
  Lease, Ttl, save, is_failure, handle, handle_entry, handle_deleted, list_page_size, key_of,
  seed_page, seed_loop, seed_result, seed_first, seed,
}

module _ {S : Type 0} (B : Backend S) where
  -- The deletion of an expired lease, at the revision of the lease.
  pub record Expired (now : ℕ) (key : Bytes) (s s' : Ttl S) : Type 0 where
    pub lease : Lease
    pub stored : s.store key ≡ some lease
    pub expired : lease.expired_at ≤ now
    pub deletes : s'.backend ≡ (B.delete key lease.mod_revision s.backend).0

  -- `handle` changes the backend only by deleting its key, and only if the lease that is stored for the
  -- key has expired, at the revision that had that lease.
  pub handle-Expired :
      (now : ℕ) (key : Bytes) (s : Ttl S)
      → ((handle B (λ x. x) now key s).backend ≡ s.backend)
        ⊎ Expired now key s (handle B (λ x. x) now key s)
  unfolding handle handle_entry handle_deleted
  handle-Expired now key s = over (s.store key) refl
    where
      over :
          (o : Option Lease)
          → s.store key ≡ o
          → ((handle_entry B (λ x. x) now key o s).backend ≡ s.backend)
            ⊎ Expired now key s (handle_entry B (λ x. x) now key o s)
      over none p = inl refl
      over (some e) p = elim (Bool-cases (ltb now e.expired_at)) [
        | inl early ↦ simp early (inl refl)
        | inr due ↦ elim (Bool-cases (is_failure (B.delete key e.mod_revision s.backend).1.3)) [
          | inl failed ↦
              simp (due, failed)
                (inr (record { lease = e; stored = p; expired = ground arith; deletes = refl }))
          | inr gone ↦
              simp (due, gone)
                (inr (record { lease = e; stored = p; expired = ground arith; deletes = refl }))
        ]
      ]

  -- If a lease of a key is renewed between the deletion in `handle` and the end of it, and the deletion
  -- does not fail, the store has forgotten the new lease: whenever the key is due again, nothing is done
  -- with it, so that it is never deleted for its lease.
  pub handle-forgets :
      (now later later' : ℕ) (kv : KeyValue) (e : Lease) (s : Ttl S)
      → s.store kv.key ≡ some e
      → e.expired_at ≤ now
      → is_failure (B.delete kv.key e.mod_revision s.backend).1.3 ≡ false
      → let s' = handle B (save later kv) now kv.key s in
        (s'.store kv.key ≡ none) × (handle B (λ x. x) later' kv.key s' ≡ s')
  unfolding handle handle_entry handle_deleted
  handle-forgets now later later' kv e s p q r =
      let due : ltb now e.expired_at ≡ false = ground arith in
      let here = bytes_eq_refl kv.key in simp (p, due, r, here) (refl, refl)

-- A page of a state is short, or its last key has a lower rank than the key that the page was asked for,
-- as with pages in ascending order, where the rank is the number of keys from there on.
pub record Paged {S : Type 0} (B : Backend S) (b : S) (rank : Bytes → ℕ) : Type 0 where
  pub pages :
      (key : Bytes) (rev page_rev : ℕ) (kvs : List KeyValue)
      → B.list key (codes "0") list_page_size rev true b ≡ (page_rev, kvs, none)
      → (length kvs < list_page_size) ⊎ (rank (key_of (last? kvs)) < rank key)

seed_page-backend :
    {S : Type 0} (now : ℕ) (kvs : List KeyValue) (s : Ttl S)
    → (seed_page now kvs s).backend ≡ s.backend
unfolding seed_page save
seed_page-backend now [] s = refl
seed_page-backend now (kv ∷ kvs) s = elim (Bool-cases (ltb 0 kv.lease)) [
  | inl leased ↦ simp leased (seed_page-backend now kvs (save now kv s))
  | inr bare ↦ simp bare (seed_page-backend now kvs s)
]

module _ {S : Type 0} (B : Backend S) (b : S) (rank : Bytes → ℕ) (paged : Paged B b rank) where
  seed_loop-some :
      (fuel now rev : ℕ) (kvs : List KeyValue) (s : Ttl S)
      → s.backend ≡ b
      → (length kvs < list_page_size) ⊎ (rank (key_of (last? kvs)) < fuel)
      → (x : Ttl S × (ℕ × Option Error)) × (seed_loop B (suc fuel) now rev kvs s ≡ some x)
  unfolding seed_loop seed_result
  seed_loop-some fuel now rev [] s at h = (_, refl)
  seed_loop-some zero now rev (kv ∷ kvs) s at h =
      let short : ltb (length (kv ∷ kvs)) list_page_size ≡ true = ground (arith, h) in
      ((seed_page now (kv ∷ kvs) s, (rev, none)), simp short refl)
  seed_loop-some (suc fuel) now rev (kv ∷ kvs) s at h =
      elim (Bool-cases (ltb (length (kv ∷ kvs)) list_page_size)) [
        | inl short ↦ ((seed_page now (kv ∷ kvs) s, (rev, none)), simp short refl)
        | inr full ↦
            let s' = seed_page now (kv ∷ kvs) s in
            let at' = seed_page-backend now (kv ∷ kvs) s ∙ at in
            let last = key_of (last? (kv ∷ kvs)) in
            let below : rank last < suc fuel = ground (arith, h) in
            let (x, e) =
              next fuel last below s' at' (λ p h'. seed_loop-some fuel now rev p s' at' h')
                (B.list last (codes "0") list_page_size rev true s'.backend) refl in
            (x, simp full e)
      ]
    where
      next :
          (n : ℕ) (last : Bytes)
          → rank last < suc n
          → (s' : Ttl S) → s'.backend ≡ b
          → ((p : List KeyValue)
              → (length p < list_page_size) ⊎ (rank (key_of (last? p)) < n)
              → (x : Ttl S × (ℕ × Option Error)) × (seed_loop B (suc n) now rev p s' ≡ some x))
          → (y : ℕ × List KeyValue × Option Error)
          → B.list last (codes "0") list_page_size rev true s'.backend ≡ y
          → (x : Ttl S × (ℕ × Option Error)) × (seed_result B (seed_loop B (suc n) now rev) rev y s'
              ≡ some x)
      next n last below s' at' ih (page_rev, p, some e) q = (_, refl)
      next n last below s' at' ih (page_rev, p, none) q =
          ih p (elim (paged.pages last rev page_rev p (rw at' at q)) [
            | inl short ↦ inl short
            | inr lower ↦ inr (omega (arith, lower, below))
          ])

  -- `seed` ends: if every full page of the state of the backend ends with a key of a lower rank than the
  -- key that the page was asked for, as pages in ascending order do, fuel above the rank of the first
  -- key is enough.
  pub seed-some :
      (now : ℕ) (s : Ttl S)
      → s.backend ≡ b
      → (x : Ttl S × (ℕ × Option Error)) × (seed B (suc (rank (codes "/"))) now s ≡ some x)
  unfolding seed seed_first
  seed-some now s at = over (B.list (codes "/") (codes "0") list_page_size 0 true s.backend) refl
    where
      over :
          (y : ℕ × List KeyValue × Option Error)
          → B.list (codes "/") (codes "0") list_page_size 0 true s.backend ≡ y
          → (x : Ttl S × (ℕ × Option Error)) × (seed_first B (suc (rank (codes "/"))) now y s
              ≡ some x)
      over (rev, kvs, some e) q = (_, refl)
      over (rev, kvs, none) q =
          seed_loop-some (rank (codes "/")) now rev kvs s at
            (paged.pages (codes "/") 0 rev kvs (rw at at q))
