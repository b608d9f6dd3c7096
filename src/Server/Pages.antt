-- ===== src/Server/Pages.antt =====
-- The pages of `list` over the in-memory backend.
use harikube.Common.{
  ℕ, zero, suc, ◌+◌, Bytes, bytes_eq, Bool, true, false, ◌&&◌, Option, none, some, List, [], ◌∷◌,
  ◌≡◌, refl, ap, ap₂, sym, ◌∙◌, arith, length, length-append, take, take_of_length-le, ltb, keep,
  Bool-cases, inl, inr, ◌==◌, if◌then◌else◌, ltb_zero,
}
use harikube.Api.{KeyValue}
use harikube.Memory
use harikube.Memory.{Memory}
use harikube.Memory.Entries.{Entry, shown, count_of}
use harikube.Memory.History.{state_at}
use harikube.Memory.Map.{OrderedMap}
use harikube.Memory.Spec.{Spec, read_revision}
use harikube.Memory.Writes.{Refines}
use harikube.Memory.Listing.{listed, shows, limited, vis}
use harikube.Memory.Shows.{IsListing, Readable}
use harikube.Memory.Reads.{list-limited, vis-state, list-IsListing}
use harikube.Server.Requests.{RangeRequest}
use harikube.Server.InMemory.{memory_backend}
use harikube.Server.Guarded.{compacted_le}
use harikube.Server.Ranges.{list, list_response, more_response}

abbrev pub page : Bytes → Bytes → ℕ → ℕ → Bool → RangeRequest
page key end limit revision keys_only = record {
  key = key;
  range_end = end;
  limit = limit;
  revision = revision;
  keys_only = keys_only;
  count_only = false;
  serializable = false;
  sort_order = 0;
  sort_target = 0;
  min_mod_revision = 0;
  max_mod_revision = 0;
  min_create_revision = 0;
  max_create_revision = 0;
}

module _ {A : Type 0} where
  take-suc : (n : ℕ) (l : List A) → take n (take (suc n) l) ≡ take n l
  unfolding take
  take-suc zero l = refl
  take-suc (suc n) [] = refl
  take-suc (suc n) (x ∷ l) = ap (◌∷◌ x) (take-suc n l)

  length-take-suc : (n : ℕ) (l : List A) → ltb n (length (take (suc n) l)) ≡ ltb n (length l)
  unfolding take
  length-take-suc zero [] = refl
  length-take-suc zero (x ∷ l) = ground arith
  length-take-suc (suc n) [] = refl
  length-take-suc (suc n) (x ∷ l) = ground (arith, length-take-suc n l)

length-shown :
    (keys_only : Bool) (o : Option Entry) → length (shown true o) ≡ length (shown keys_only o)
unfolding shown
length-shown keys_only none = refl
length-shown keys_only (some e) = ground arith

length-shows :
    (f g : Bytes → List KeyValue) (l : List (Bytes × List Entry))
    → ((k : Bytes) → length (f k) ≡ length (g k))
    → length (shows f l) ≡ length (shows g l)
unfolding shows
length-shows f g [] h = refl
length-shows f g (e ∷ l) h = omega (
  arith,
  length-append (f e.0) (shows f l),
  length-append (g e.0) (shows g l),
  h e.0,
  length-shows f g l h,
)

module _ {B : OrderedMap (List Entry)} {s : Spec} {n : ℕ} {m : Memory B} (R : Refines s n m)
    (key end : Bytes) (r : ℕ) (keys_only : Bool) (ok : Readable s r) where
  Readable-read_revision : Readable s (read_revision r s)
  Readable-read_revision = elim ok [
    | inl latest ↦
        inr (record { from = ground (arith, compacted_le R (λ v. none)); to = ground arith })
    | inr b ↦
        inr (record { from = ground (arith, b.from, b.to); to = ground (arith, b.from, b.to) })
  ]

  read_revision_again : read_revision (read_revision r s) s ≡ read_revision r s
  read_revision_again = ground arith

  abbrev all_pairs : List KeyValue
  all_pairs = shows (vis m r keys_only) (keep (λ e. listed key end e.0) (B.scan m.keys))

  length-vis :
      (k : Bytes) → length (vis m (read_revision r s) true k) ≡ length (vis m r keys_only k)
  length-vis k =
      ap length (
        vis-state R true (read_revision r s) k Readable-read_revision
        ∙ ap (λ x. shown true (state_at s.history x k)) read_revision_again)
      ∙ length-shown keys_only (state_at s.history (read_revision r s) k)
      ∙ ap length (sym (vis-state R keys_only r k ok))

  count-all :
      Memory.count key end (read_revision r s) m ≡ (read_revision r s, length all_pairs, none)
  unfolding Memory.count count_of
  count-all =
      let items = keep (λ e. listed key end e.0) (B.scan m.keys) in
      let same =
        length-shows (vis m (read_revision r s) true) (vis m r keys_only) items length-vis in
      ap count_of (list-limited R key end 0 (read_revision r s) true Readable-read_revision)
      ∙ ap₂ (λ x y. (x, y, none)) read_revision_again same

  asked : (if r == 0 then read_revision r s else r) ≡ read_revision r s
  asked = ground arith

  -- The response to a listing that the backend has answered.
  response-pages :
      (limit : ℕ)
      → list_response memory_backend m
          (page key end (suc limit) r keys_only)
          (read_revision r s, take (suc (suc limit)) all_pairs, none)
        ≡ (
          some (record {
            header = read_revision r s;
            kvs = take (suc limit) all_pairs;
            more = ltb 0 (suc limit) && ltb (suc limit) (length all_pairs);
            count = length all_pairs;
          }),
          none,
        )
  unfolding list_response more_response
  response-pages limit = elim (Bool-cases (ltb (suc limit) (length all_pairs))) [
    | inl more ↦
        rw
          (
            ltb_zero limit,
            length-take-suc (suc limit) all_pairs,
            more,
            asked,
            count-all,
            take-suc (suc limit) all_pairs,
          )
          refl
    | inr last ↦
        let whole : take (suc (suc limit)) all_pairs ≡ all_pairs =
          take_of_length-le all_pairs (ground arith) in
        let whole' : take (suc limit) all_pairs ≡ all_pairs =
          take_of_length-le all_pairs (ground arith) in
        rw (ltb_zero limit, whole, last, whole') refl
  ]

  page-all :
      (limit : ℕ)
      → bytes_eq end [] ≡ false
      → list memory_backend m (page key end limit r keys_only) ≡ (
        some (record {
          header = read_revision r s;
          kvs = limited limit all_pairs;
          more = ltb 0 limit && ltb limit (length all_pairs);
          count = length all_pairs;
        }),
        none,
      )
  unfolding list list_response
  page-all zero given = rw given (
      ap (list_response memory_backend m (page key end zero r keys_only))
        (list-limited R key end 0 r keys_only ok))
  page-all (suc limit) given =
      let asked_for : (if ltb 0 (suc limit) then suc limit + 1 else 0) ≡ suc (suc limit) =
        rw (ltb_zero limit) (omega arith) in
      let rq = page key end (suc limit) r keys_only in
      rw given refl
      ∙ ap (λ x. list_response memory_backend m rq (Memory.list key end x r keys_only m)) asked_for
      ∙ ap (list_response memory_backend m rq)
          (list-limited R key end (suc (suc limit)) r keys_only ok)
      ∙ response-pages limit

  -- A page of `list` over the in-memory backend, at a revision that can be read and with a range
  -- end, holds the first pairs of the range, up to the limit; it counts all pairs of the range, and
  -- says that there are more exactly if the limit leaves some out.
  pub list-pages :
      bytes_eq end [] ≡ false
      → (full : List KeyValue) × IsListing s key end r keys_only full
        × ((limit : ℕ)
            → list memory_backend m (page key end limit r keys_only) ≡ (
              some (record {
                header = read_revision r s;
                kvs = limited limit full;
                more = ltb 0 limit && ltb limit (length full);
                count = length full;
              }),
              none,
            ))
  list-pages given =
      let (full, l, lists) = list-IsListing R key end r keys_only ok in
      let same : all_pairs ≡ full =
        ap (λ x. x.1) (sym (list-limited R key end 0 r keys_only ok) ∙ lists 0) in
      (full, l, λ limit. rw (← same) (page-all limit given))
