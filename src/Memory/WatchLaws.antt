-- ===== src/Memory/WatchLaws.antt =====
-- What a watch of the in-memory backend reads in one pass over the log.
use Prim.Native.Nat.{max}
use harikube.Common.{
  ℕ, ◌-◌, Bytes, Option, List, [], ◌∷◌, map, ◌≡◌, refl, ap, sym, ◌∙◌, arith, length, length-drop,
  drop, drop-drop, drop_all, keep, ltb, Bool-cases, inl, inr,
}
use harikube.Api.{key_in_range}
use harikube.Memory.{Memory, log_index_after}
use harikube.Memory.Map.{OrderedMap}
use harikube.Memory.Entries.{Entry}
use harikube.Memory.History.{Represents}
use harikube.Memory.Interleaving.{notice, entry_notice}
use harikube.Memory.Watching.{unread, batch_of, to_event}

module _ {B : OrderedMap (List Entry)} {h : List Entry} {n : ℕ} {m : Memory B}
    (R : Represents h n m) where
  length-log : length m.log ≡ length h - (m.compact - n)
  length-log = ap length R.log ∙ length-drop (m.compact - n) h

  -- A pass of a watch that has seen the revisions up to `seen` reads all entries but the first
  -- `max(compact, seen) - n`, where `n` is the number of compactions so far.
  pub unread-drop : (seen : ℕ) → unread m seen ≡ drop (max m.compact seen - n) h
  unfolding log_index_after
  unread-drop seen = elim (Bool-cases (ltb (length m.log) (seen - m.compact))) [
    | inl beyond ↦ rw beyond (
        drop_all (length m.log) m.log (omega arith)
        ∙ sym (drop_all _ h (ground (arith, length-log, R.current, R.compact_le, R.count_le))))
    | inr within ↦
        rw (within, R.log)
          (drop-drop (seen - m.compact) (m.compact - n) h
            ∙ ap (λ k. drop k h) (omega (arith, R.count_le)))
  ]

notices-to_event :
    (prev : ℕ → Option Entry) (l : List Entry)
    → map notice (map (to_event prev) l) ≡ map entry_notice l
unfolding to_event
notices-to_event prev [] = refl
notices-to_event prev (e ∷ l) = ap (λ k. entry_notice e ∷ k) (notices-to_event prev l)

-- The batch of a watch that has seen the current revision: after `n` compactions it holds the events of
-- the last `n` entries once more, of those in the range of the watch.
pub batch_again :
    {B : OrderedMap (List Entry)} {h : List Entry} {n : ℕ} {m : Memory B}
    → Represents h n m
    → (key end : Bytes)
    → map notice (batch_of m key end m.current)
      ≡ map entry_notice (keep (λ e. key_in_range key end e.key) (drop (length h - n) h))
unfolding batch_of
batch_again {h = h} {n} {m} R key end =
    let from : max m.compact m.current - n ≡ length h - n =
      omega (arith, R.current, R.compact_le) in
    notices-to_event m.prev _
    ∙ ap (λ l. map entry_notice (keep (λ e. key_in_range key end e.key) l))
        (unread-drop R m.current ∙ ap (λ k. drop k h) from)
