-- ===== src/Server/Watches/Headers.antt =====
-- The revisions in the headers of a watch stream never go backwards.
use harikube.Common.{
  ℕ, ◌≤◌, Bool, true, false, not, Option, none, some, List, [], ◌∷◌, ◌++◌, ◌≡◌, refl, sym, ap, ◌∙◌,
  ◌⊎◌, inl, inr, arith, ltb, ◌==◌, if◌then◌else◌, Bool-cases, subst,
}
use harikube.Api.{Error, Event}
use harikube.Server.Watches.{
  Response, CreateRequest, Watcher, new_watcher, send, cancel_early, create, create_from, started,
  remove_watch, has_watch, cancel, begin_watch, send_events, close, request_progress, progress_all,
  broadcast_progress, all_synced, plain, WatchId,
}

-- The last revision in a header, after `b`; a response without a revision has 0.
abbrev pub top : ℕ → List Response → ℕ
top b [] = b
top b (r ∷ l) = top (if r.header == 0 then b else r.header) l

abbrev pub Rises : ℕ → List Response → Type 0
Rises b [] = Unit
Rises b (r ∷ l) =
    ((r.header ≡ 0) ⊎ (b ≤ r.header)) × Rises (if r.header == 0 then b else r.header) l

-- What may happen on a stream.
pub data Act : Type 0 where
  creates : CreateRequest → ℕ × Option Error → Act
  begins : ℕ → ℕ → ℕ → Act
  sends : ℕ → ℕ → List Event → Act
  cancels : ℕ → ℕ → ℕ → Option Error → Act
  requests closes : Act
  broadcasts : (ℕ → Bool) → ℕ × Option Error → Act

abbrev pub act : Act → Watcher → Watcher
act (creates r current) w = create r current w
act (begins id current_rev compact_rev) w = begin_watch id current_rev compact_rev w
act (sends id revision events) w = send_events id revision events w
act (cancels id revision compact_rev e) w = cancel id revision compact_rev e w
act requests w = request_progress w
act closes w = close w
act (broadcasts synced current) w = progress_all synced current w

abbrev pub run : List Act → Watcher → Watcher
run [] w = w
run (a ∷ acts) w = run acts (act a w)

-- The headers sent so far rise to `max_revision`.
pub record Inv (w : Watcher) : Type 0 where
  pub rises : Rises 0 w.sent
  pub at : top 0 w.sent ≡ w.max_revision

top-append :
    (b : ℕ) (l : List Response) (r : Response)
    → top b (l ++ r ∷ []) ≡ (if r.header == 0 then top b l else r.header)
top-append b [] r = refl
top-append b (x ∷ l) r = top-append (if x.header == 0 then b else x.header) l r

Rises-append :
    (b : ℕ) (l : List Response) (r : Response)
    → Rises b l
    → (r.header ≡ 0) ⊎ (top b l ≤ r.header)
    → Rises b (l ++ r ∷ [])
Rises-append b [] r p q = (q, tt)
Rises-append b (x ∷ l) r p q = (p.0, Rises-append (if x.header == 0 then b else x.header) l r p.1 q)

send-Inv : (r : Response) (w : Watcher) → Inv w → Inv (send r w)
unfolding send
send-Inv r w i = elim (Bool-cases (r.header == 0)) [
  | inl silent ↦ simp silent (record {
    rises = Rises-append 0 w.sent r i.rises (inl (ground arith));
    at = top-append 0 w.sent r ∙ (simp silent i.at);
  })
  | inr loud ↦ elim (Bool-cases (ltb w.max_revision r.header)) [
    | inl later ↦
        simp (loud, later)
          (record {
            rises = Rises-append 0 w.sent r i.rises (inr (ground (arith, i.at)));
            at = top-append 0 w.sent r ∙ (simp loud refl);
          })
    | inr earlier ↦
        let positive : (w.max_revision == 0) ≡ false = ground arith in
        let r' : Response = record r { header = w.max_revision } in
        simp (loud, earlier)
          (record {
            rises = Rises-append 0 w.sent r' i.rises (inr (ground (arith, i.at)));
            at = top-append 0 w.sent r' ∙ (simp positive refl);
          })
  ]
]

-- What is sent and the revision are as before.
same-Inv : (w w' : Watcher) → w'.sent ≡ w.sent → w'.max_revision ≡ w.max_revision → Inv w → Inv w'
same-Inv w w' p q i = record {
  rises = subst (Rises 0) (sym p) i.rises;
  at = ap (top 0) p ∙ i.at ∙ sym q;
}

cancel_early-Inv :
    (e : Error) (x : ℕ × Option Error) (w : Watcher) → Inv w → Inv (cancel_early e x w)
unfolding cancel_early
cancel_early-Inv e (rev, some e') w i = i
cancel_early-Inv e (rev, none) w i = send-Inv _ w i

create_from-Inv :
    (r : CreateRequest) (x : ℕ × Option Error) (o : Option ℕ) (w : Watcher)
    → Inv w
    → Inv (create_from r x o w)
unfolding create_from started
create_from-Inv r x none w i = cancel_early-Inv Error.compacted x w i
create_from-Inv r x (some start) w i = same-Inv w _ refl refl i

create-Inv : (r : CreateRequest) (x : ℕ × Option Error) (w : Watcher) → Inv w → Inv (create r x w)
unfolding create
create-Inv r x w i = elim (Bool-cases (not (r.watch_id == 0))) [
  | inl given ↦ simp given (cancel_early-Inv Error.invalid_watch x w i)
  | inr auto ↦ simp auto (create_from-Inv r x r.start w i)
]

cancel-Inv :
    (id revision compact_rev : ℕ) (e : Option Error) (w : Watcher)
    → Inv w
    → Inv (cancel id revision compact_rev e w)
unfolding cancel remove_watch
cancel-Inv id revision compact_rev e w i =
    let j = same-Inv w (remove_watch id w) refl refl i in
    elim (Bool-cases (not (has_watch id w.watches))) [
      | inl unknown ↦ simp unknown j
      | inr known ↦ simp known (send-Inv _ (remove_watch id w) j)
    ]

begin_watch-Inv :
    (id current_rev compact_rev : ℕ) (w : Watcher)
    → Inv w
    → Inv (begin_watch id current_rev compact_rev w)
unfolding begin_watch
begin_watch-Inv id current_rev compact_rev w i =
    let r : Response = record (plain 0 (WatchId.id_of id)) { created = true } in
    elim (Bool-cases (compact_rev == 0)) [
      | inl fine ↦ simp fine (send-Inv r w i)
      | inr compacted ↦
          simp compacted (
            cancel-Inv id current_rev compact_rev (some Error.compacted) (send r w)
              (send-Inv r w i))
    ]

broadcast-Inv :
    (synced : ℕ → Bool) (x : ℕ × Option Error) (w : Watcher)
    → Inv w
    → Inv (broadcast_progress synced x w)
unfolding broadcast_progress
broadcast-Inv synced (rev, some e) w i = i
broadcast-Inv synced (rev, none) w i =
    let w' : Watcher = record w { notify = false } in
    let j = same-Inv w w' refl refl i in
    elim (Bool-cases (all_synced synced w.progress)) [
      | inl all ↦ simp all (send-Inv _ w' j)
      | inr pending ↦ simp pending j
    ]

act-Inv : (a : Act) (w : Watcher) → Inv w → Inv (act a w)
unfolding send_events request_progress close progress_all
act-Inv (creates r current) w i = create-Inv r current w i
act-Inv (begins id current_rev compact_rev) w i = begin_watch-Inv id current_rev compact_rev w i
act-Inv (sends id revision events) w i = send-Inv _ w i
act-Inv (cancels id revision compact_rev e) w i = cancel-Inv id revision compact_rev e w i
act-Inv requests w i = same-Inv w _ refl refl i
act-Inv closes w i = same-Inv w _ refl refl i
act-Inv (broadcasts synced current) w i = elim (Bool-cases w.notify) [
  | inl asked ↦ simp asked (broadcast-Inv synced current w i)
  | inr unasked ↦ simp unasked i
]

run-Inv : (acts : List Act) (w : Watcher) → Inv w → Inv (run acts w)
run-Inv [] w i = i
run-Inv (a ∷ acts) w i = run-Inv acts (act a w) (act-Inv a w i)

-- Whatever happens on a watch stream, in any order: the revisions in the headers of its responses never
-- go backwards, apart from those that are 0.
pub run-Rises : (last_id : ℕ) (acts : List Act) → Rises 0 (run acts (new_watcher last_id)).sent
run-Rises last_id acts =
    (run-Inv acts (new_watcher last_id) (record { rises = tt; at = refl })).rises
