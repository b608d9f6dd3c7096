-- ===== src/Tests/Expiries.antt =====
-- The expiry of one key of a small backend.
use harikube.Common.{
  ℕ, zero, suc, ◌<◌, Bytes, bytes_eq, codes, Bool, true, false, Option, none, some, List, [], ◌∷◌,
  ◌≡◌, refl, subst, arith, ◌⊎◌, inl, inr, length, last?, if◌then◌else◌, Bool-cases,
}
use harikube.Api.{Error, KeyValue, Backend, empty_kv}
use harikube.Ttl.{Ttl, save, handle, seed, key_of}
use harikube.Ttl.Expiry.{Expired, handle-Expired, handle-forgets, Paged, seed-some}

-- The state says whether the key is there.
abbrev one_key : Backend Bool
one_key = record {
  get = λ key revision keys_only b. (1, none, none);
  create = λ key value lease b. (true, (1, none));
  delete = λ key revision b. (false, (2, none, b, none));
  list = λ key end limit revision keys_only b. (1, [], none);
  count = λ key end revision b. (1, 0, none);
  update = λ key value revision lease b. (b, (1, none, false, none));
  compact = λ revision b. (b, (0, none));
}

abbrev leased : KeyValue
leased = record empty_kv { key = codes "/a"; mod_revision = 1; lease = 5 }

abbrev no_leases : Ttl Bool
no_leases = record { backend = true; store = λ key. none; queue = [] }

handle-Expired_example :
    ((handle one_key (λ x. x) 6000 (codes "/a") (save 0 leased no_leases)).backend ≡ true)
    ⊎ Expired one_key 6000
        (codes "/a")
        (save 0 leased no_leases)
        (handle one_key (λ x. x) 6000 (codes "/a") (save 0 leased no_leases))
unfolding save
handle-Expired_example = handle-Expired one_key 6000 (codes "/a") (save 0 leased no_leases)

-- The key is deleted six seconds after it was stored, and not after four.
handle_run :
    ((handle one_key (λ x. x) 6000 (codes "/a") (save 0 leased no_leases)).backend ≡ false)
    × ((handle one_key (λ x. x) 4000 (codes "/a") (save 0 leased no_leases)).backend ≡ true)
unfolding save handle bytes_eq
handle_run = (refl, refl)

handle-forgets_example :
    ((handle one_key (save 6001 leased) 6000 (codes "/a") (save 0 leased no_leases)).store
        (codes "/a")
      ≡ none)
    × (handle one_key
          (λ x. x)
          20000
          (codes "/a")
          (handle one_key (save 6001 leased) 6000 (codes "/a") (save 0 leased no_leases))
        ≡ handle one_key (save 6001 leased) 6000 (codes "/a") (save 0 leased no_leases))
unfolding save bytes_eq
handle-forgets_example =
    handle-forgets one_key 6000 6001 20000 leased (record { mod_revision = 1; expired_at = 5000 })
      (save 0 leased no_leases) refl (omega arith) refl

-- A backend with a first page of a thousand pairs, the last of which is `/z`, and a second one.
abbrev pair_at : Bytes → KeyValue
pair_at key = record empty_kv { key = key; mod_revision = 1; lease = 5 }

abbrev full_page : ℕ → List KeyValue
full_page zero = pair_at (codes "/z") ∷ []
full_page (suc n) = pair_at (codes "/a") ∷ full_page n

abbrev two_pages : Backend Bool
two_pages = record one_key {
  list = λ key end limit revision keys_only b.
      (1, if bytes_eq key (codes "/") then full_page 999 else pair_at (codes "/z") ∷ [], none);
}

key_of-full_page : (n : ℕ) → key_of (last? (full_page n)) ≡ codes "/z"
unfolding last?
key_of-full_page zero = refl
key_of-full_page (suc zero) = refl
key_of-full_page (suc (suc n)) = key_of-full_page (suc n)

abbrev pages_left : Bytes → ℕ
pages_left key = if bytes_eq key (codes "/") then 1 else 0

two_pages-Paged : Paged two_pages true pages_left
two_pages-Paged = record {
  pages = λ key rev page_rev kvs p. elim (Bool-cases (bytes_eq key (codes "/"))) [
    | inl first ↦
        let page : full_page 999 ≡ kvs = cc (rw first at p) in
        inr (
          rw first (
            subst (λ l. pages_left (key_of (last? l)) < 1) page
              (rw (key_of-full_page 999) (unfold bytes_eq in (omega arith)))))
    | inr later ↦
        let page : pair_at (codes "/z") ∷ [] ≡ kvs = cc (rw later at p) in
        inl (subst (λ l. length l < 1000) page (omega arith))
  ];
}

seed-some_example :
    (x : Ttl Bool × (ℕ × Option Error)) × (seed two_pages (suc (pages_left (codes "/"))) 0 no_leases
      ≡ some x)
seed-some_example = seed-some two_pages true pages_left two_pages-Paged 0 no_leases refl
