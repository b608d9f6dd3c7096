-- ===== src/Nats/History.antt =====
-- The index of pkg/drivers/nats/kv.go: its short histories, and the two loops over its keys.
use harikube.Common.{
  ℕ, suc, ◌-◌, ◌≤◌, ◌<◌, Bytes, Bool, true, false, ◌||◌, Option, none, some, List, [], ◌∷◌, ◌++◌,
  ◌≡◌, refl, ap, sym, ◌∙◌, arith, length, length-append, drop, take, reverse, reverse-append,
  drop-take-append, take-append_left, take_of_length-le, append_assoc, append-nil, leb, ◌==◌,
  if◌then◌else◌, Bool-cases, inl, inr, subst,
}
use harikube.Nats.Index.{
  SeqOp, KeySeq, reach, seq_op_from, get_seq_op, add_op, past_end, matched, limit_met, list_matches,
  list_ops_from,
}

-- The operations of a key as the watcher adds them, one after the other.
unfoldable pub add_all : ℕ → List SeqOp → List SeqOp → List SeqOp
unfolding add_op
add_all hsize held [] = held
add_all hsize held (op ∷ ops) = add_all hsize (add_op hsize held op) ops

-- The last `hsize` operations are held.
add_all-drop :
    (hsize : ℕ) (held ops : List SeqOp)
    → 0 < hsize
    → length held ≤ hsize
    → add_all hsize held ops ≡ drop (length (held ++ ops) - hsize) (held ++ ops)
unfolding add_all add_op drop
add_all-drop hsize held [] p q =
    let none_left : length held - hsize ≡ 0 = omega (arith, q) in rw (append-nil, none_left) refl
add_all-drop hsize held (op ∷ ops) p q = elim (Bool-cases (length held == hsize)) [
  | inl full ↦ over (λ h. add_all-drop hsize h ops p) held q full
  | inr room ↦
      let more = length-append held (op ∷ []) in
      simp room (
        add_all-drop hsize (held ++ op ∷ []) ops p (ground (arith, more, q))
        ∙ ap (λ l. drop (length l - hsize) l) (append_assoc held (op ∷ []) ops))
]
  where
    over :
        ((h : List SeqOp)
          → length h ≤ hsize
          → add_all hsize h ops ≡ drop (length (h ++ ops) - hsize) (h ++ ops))
        → (held : List SeqOp) → length held ≤ hsize
        → (length held == hsize) ≡ true
        → add_all hsize (add_op hsize held op) ops
          ≡ drop (length (held ++ op ∷ ops) - hsize) (held ++ op ∷ ops)
    over ih [] q full = absurd (ground (arith, p))
    over ih (x ∷ xs) q full =
        let size : suc (length xs) ≡ hsize = ground arith in
        let whole = length-append xs (op ∷ ops) in
        let kept = length-append (xs ++ op ∷ []) ops in
        let grown = length-append xs (op ∷ []) in
        let fewer : length ((xs ++ op ∷ []) ++ ops) - hsize ≡ length ops =
          omega (arith, kept, grown, size) in
        let cut : suc (length (xs ++ op ∷ ops)) - hsize ≡ suc (length ops) =
          omega (arith, whole, size) in
        simp full (
          ih (xs ++ op ∷ []) (omega (arith, grown, size))
          ∙ ap (λ n. drop n ((xs ++ op ∷ []) ++ ops)) fewer
          ∙ ap (drop (length ops)) (append_assoc xs (op ∷ []) ops)
          ∙ ap (λ n. drop n (x ∷ (xs ++ op ∷ ops))) (sym cut))

-- What comes before an operation that the revision reaches is not looked at.
seq_op_from-reach :
    (revision : ℕ) (allow : Bool) (zs ys : List SeqOp) (oldest : SeqOp)
    → reach revision oldest ≡ true
    → seq_op_from revision allow ((zs ++ oldest ∷ []) ++ ys)
      ≡ seq_op_from revision allow (zs ++ oldest ∷ [])
unfolding seq_op_from
seq_op_from-reach revision allow [] ys oldest r = simp r refl
seq_op_from-reach revision allow (z ∷ zs) ys oldest r =
    rw (seq_op_from-reach revision allow zs ys oldest r) refl

get_seq_op-drop :
    (n revision : ℕ) (allow : Bool) (ops rest : List SeqOp) (oldest : SeqOp)
    → drop n ops ≡ oldest ∷ rest
    → reach revision oldest ≡ true
    → get_seq_op (oldest ∷ rest) revision allow ≡ get_seq_op ops revision allow
unfolding get_seq_op reverse drop
get_seq_op-drop n revision allow ops rest oldest d r =
    let whole : take n ops ++ (oldest ∷ rest) ≡ ops =
      ap (λ l. take n ops ++ l) (sym d) ∙ drop-take-append 0 n ops (omega arith) in
    sym (seq_op_from-reach revision allow (reverse rest) (reverse (take n ops)) oldest r)
    ∙ ap (seq_op_from revision allow)
        (sym (reverse-append (take n ops) (oldest ∷ rest)) ∙ ap reverse whole)

-- With a history of some length, an operation is looked up in the index as in the whole sequence of
-- operations, for the latest revision and for every one that the oldest operation held reaches.
pub get_seq_op-add_all :
    (hsize revision : ℕ) (allow : Bool) (ops rest : List SeqOp) (oldest : SeqOp)
    → 0 < hsize
    → add_all hsize [] ops ≡ oldest ∷ rest
    → (revision == 0 || leb oldest.seq revision) ≡ true
    → get_seq_op (add_all hsize [] ops) revision allow ≡ get_seq_op ops revision allow
get_seq_op-add_all hsize revision allow ops rest oldest p held r =
    ap (λ l. get_seq_op l revision allow) held
    ∙ get_seq_op-drop (length ops - hsize) revision allow ops rest oldest
        (sym (add_all-drop hsize [] ops p (omega arith)) ∙ held) r

length-matched : (k : Bytes) (o : Option SeqOp) → length (matched k o) ≤ 1
length-matched k none = omega arith
length-matched k (some op) = omega arith

list_ops_from-append :
    (key end : Bytes) (revision : ℕ) (matches : List KeySeq) (l : List (Bytes × List SeqOp))
    → list_ops_from key end revision matches l ≡ matches ++ list_ops_from key end revision [] l
unfolding list_ops_from
list_ops_from-append key end revision matches [] = sym (append-nil matches)
list_ops_from-append key end revision matches (e ∷ l) = elim (Bool-cases (past_end key end e.0)) [
  | inl past ↦ simp past (sym (append-nil matches))
  | inr within ↦
      let found = matched e.0 (get_seq_op e.1 revision false) in
      simp within (
        list_ops_from-append key end revision (matches ++ found) l
        ∙ append_assoc matches found (list_ops_from key end revision [] l)
        ∙ ap (λ x. matches ++ x) (sym (list_ops_from-append key end revision found l)))
]

list_matches-from :
    (key end : Bytes) (limit revision : ℕ) (matches : List KeySeq) (l : List (Bytes × List SeqOp))
    → length matches < limit
    → list_matches key end limit revision matches l
      ≡ take limit (list_ops_from key end revision matches l)
unfolding list_matches list_ops_from
list_matches-from key end limit revision matches [] p =
    sym (take_of_length-le matches (omega (arith, p)))
list_matches-from key end limit revision matches (e ∷ l) p =
    elim (Bool-cases (past_end key end e.0)) [
      | inl past ↦ simp past (sym (take_of_length-le matches (omega (arith, p))))
      | inr within ↦
          let found = matched e.0 (get_seq_op e.1 revision false) in
          let size = length-append matches found in
          let one = length-matched e.0 (get_seq_op e.1 revision false) in
          elim (Bool-cases (limit_met limit (matches ++ found))) [
            | inl met ↦
                let exact : length (matches ++ found) ≡ limit = ground (arith, p, size, one) in
                simp (within, met)
                  (sym (
                      take-append_left limit (matches ++ found)
                        (list_ops_from key end revision [] l) exact)
                    ∙ ap (take limit)
                        (sym (list_ops_from-append key end revision (matches ++ found) l)))
            | inr short ↦
                simp (within, short)
                  (list_matches-from key end limit revision (matches ++ found) l
                    (ground (arith, p, size, one)))
          ]
    ]

list_matches-unlimited :
    (key end : Bytes) (revision : ℕ) (matches : List KeySeq) (l : List (Bytes × List SeqOp))
    → list_matches key end 0 revision matches l ≡ list_ops_from key end revision matches l
unfolding list_matches list_ops_from
list_matches-unlimited key end revision matches [] = refl
list_matches-unlimited key end revision matches (e ∷ l) =
    rw
      (list_matches-unlimited key end revision
        (matches ++ matched e.0 (get_seq_op e.1 revision false)) l)
      refl

-- The loops of `List` and `Count` agree: the matches of a list are the first ones of those that are
-- counted, up to the limit, or all of them if the limit is 0.
pub list_matches-take :
    (key end : Bytes) (limit revision : ℕ) (l : List (Bytes × List SeqOp))
    → list_matches key end limit revision [] l ≡ (
        if limit == 0
        then list_ops_from key end revision [] l
        else take limit (list_ops_from key end revision [] l))
list_matches-take key end limit revision l = elim (Bool-cases (limit == 0)) [
  | inl unlimited ↦
      let zero_limit : limit ≡ 0 = ground arith in
      simp unlimited (
        subst (λ n. list_matches key end n revision [] l ≡ list_ops_from key end revision [] l)
          (sym zero_limit) (list_matches-unlimited key end revision [] l))
  | inr limited ↦ simp limited (list_matches-from key end limit revision [] l (ground arith))
]
