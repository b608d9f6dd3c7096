-- ===== src/Memory/Runs.antt =====
-- Whole runs of the in-memory backend: every reply is the one of the specification.
use harikube.Common.{ℕ, Bytes, Bool, Option, List, [], ◌∷◌, ◌≡◌, refl, ap, ap₂}
use harikube.Api.{KeyValue, Error}
use harikube.Memory
use harikube.Memory.{Memory}
use harikube.Memory.Compaction
use harikube.Memory.Map.{OrderedMap}
use harikube.Memory.Entries.{Entry}
use harikube.Memory.Spec
use harikube.Memory.Spec.{Spec}
use harikube.Memory.History.{new-Represents}
use harikube.Memory.Writes.{Refines, create-Refines, update-Refines, delete-Refines}
use harikube.Memory.CompactionLaws.{counted, compact-Refines}
use harikube.Memory.Gets.{get-Refines}

-- A call of a method of the backend.
pub data Call : Type 0 where
  create : (key value : Bytes) (lease : ℕ) → Call
  update : (key value : Bytes) (revision lease : ℕ) → Call
  delete : (key : Bytes) (revision : ℕ) → Call
  get : (key : Bytes) (revision : ℕ) (keys_only : Bool) → Call
  compact : (revision : ℕ) → Call

pub data Reply : Type 0 where
  wrote : ℕ × Option Error → Reply
  changed : ℕ × Option KeyValue × Bool → Reply
  found : ℕ × Option KeyValue × Option Error → Reply

module _ {B : OrderedMap (List Entry)} where
  unfoldable pub call : Call → Memory B → Memory B × Reply
  call (create key value lease) m = let (m', r) = Memory.create key value lease m in (m', wrote r)
  call (update key value revision lease) m =
      let (m', r) = Memory.update key value revision lease m in (m', changed r)
  call (delete key revision) m = let (m', r) = Memory.delete key revision m in (m', changed r)
  call (get key revision keys_only) m = (m, found (Memory.get key revision keys_only m))
  call (compact revision) m = let (m', r) = Compaction.compact revision m in (m', wrote r)

  unfoldable pub run : List Call → Memory B → List Reply
  run [] m = []
  run (c ∷ calls) m = let (m', r) = call c m in r ∷ run calls m'

unfoldable pub spec_call : Call → Spec → Spec × Reply
spec_call (create key value lease) s = let (s', r) = Spec.create key value lease s in (s', wrote r)
spec_call (update key value revision lease) s =
    let (s', r) = Spec.update key value revision lease s in (s', changed r)
spec_call (delete key revision) s = let (s', r) = Spec.delete key revision s in (s', changed r)
spec_call (get key revision keys_only) s = (s, found (Spec.get key revision keys_only s))
spec_call (compact revision) s = let (s', r) = Spec.compact revision s in (s', wrote r)

unfoldable pub spec_run : List Call → Spec → List Reply
spec_run [] s = []
spec_run (c ∷ calls) s = let (s', r) = spec_call c s in r ∷ spec_run calls s'

abbrev pub start : Spec
start = record { history = []; compacted = 0 }

module _ {B : OrderedMap (List Entry)} where
  pub start-Refines : Refines start 0 (Memory.new {B = B})
  start-Refines = record { represents = new-Represents; compact = refl }

  pub call-Refines :
      {s : Spec} {n : ℕ} {m : Memory B} (R : Refines s n m) (c : Call)
      → (n' : ℕ) × Refines (spec_call c s).0 n' (call c m).0 × ((call c m).1 ≡ (spec_call c s).1)
  unfolding call spec_call
  call-Refines {n} R (create key value lease) =
      let (r, e) = create-Refines R key value lease in (n, r, ap wrote e)
  call-Refines {n} R (update key value revision lease) =
      let (r, e) = update-Refines R key value revision lease in (n, r, ap changed e)
  call-Refines {n} R (delete key revision) =
      let (r, e) = delete-Refines R key revision in (n, r, ap changed e)
  call-Refines {n} R (get key revision keys_only) =
      (n, R, ap found (get-Refines R key revision keys_only))
  call-Refines {n} {m} R (compact revision) =
      let (r, e) = compact-Refines R revision in
      (counted (Compaction.compact revision m).1.1 n, r, ap wrote e)

  run-Refines :
      (calls : List Call) {s : Spec} {n : ℕ} {m : Memory B}
      → Refines s n m
      → run calls m ≡ spec_run calls s
  unfolding run spec_run
  run-Refines [] R = refl
  run-Refines (c ∷ calls) R = let (n', r, e) = call-Refines R c in ap₂ ◌∷◌ e (run-Refines calls r)

-- From the empty backend, any sequence of creations, updates, deletions, reads and compactions has
-- exactly the replies of the specification: a list of all entries ever written and the compact
-- revision.
pub run-spec_run :
    (B : OrderedMap (List Entry)) (calls : List Call)
    → run calls (Memory.new {B = B}) ≡ spec_run calls start
run-spec_run B calls = run-Refines calls (start-Refines {B = B})
