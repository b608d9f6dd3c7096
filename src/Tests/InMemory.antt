-- ===== src/Tests/InMemory.antt =====
-- Runs of the in-memory backend.
use Prim.Native.Nat.{max}
use harikube.Common.{
  ℕ, ◌-◌, Bytes, codes, bytes_eq, bytes_lt, drop, keep, last?, true, false, none, some, List, [],
  ◌∷◌, ◌++◌, ◌≡◌, refl, arith, length, inl, map,
}
use harikube.Api.{KeyValue, Error, key_in_range}
use harikube.Memory
use harikube.Memory.{Memory}
use harikube.Memory.Map.{OrderedMap, lookup, from_key}
use harikube.Memory.Entries.{Entry, to_key_value, at_revision_from, trim, shown, past_end, head_of}
use harikube.Memory.Compaction
use harikube.Memory.Compaction.{
  compact_key, compact_scan, trim_keys, remove_keys, cut_log, clear_prev,
}
use harikube.Memory.Watching.{
  unread, batch_of, to_event, new_watcher, wait, watch_step, watch_at, after_scan, last_seen,
  seen_at,
}
use harikube.Memory.Spec
use harikube.Memory.Spec.{Spec, read_revision}
use harikube.Memory.Writes.{Refines, create-Refines}
use harikube.Memory.CompactionLaws.{counted, compact-Refines}
use harikube.Memory.Listing.{limited}
use harikube.Memory.Shows.{IsListing}
use harikube.Memory.Reads.{list-IsListing}
use harikube.Memory.Snapshots.{snapshot_stable}
use harikube.Memory.WatchLaws.{unread-drop, batch_again}
use harikube.Memory.Delivery.{delivered_so_far, blocked_is_complete}
use harikube.Memory.Interleaving.{
  System, Reach, here, next, turn, notices, pending, owed, notice, entry_notice,
}
use harikube.Memory.History.{Represents}
use harikube.Memory.Runs.{
  Call, run, spec_run, spec_call, start, start-Refines, run-spec_run, call, wrote, changed, found,
}
use harikube.Tests.SortedMap.{sorted_map, insert, remove}

unfoldable pub program : Unit {0}
unfolding bytes_eq bytes_lt drop keep last? lookup from_key at_revision_from trim shown past_end
    head_of Memory.append_entry Memory.create Memory.update Memory.delete Memory.latest
    Memory.at_revision Memory.entry_at Memory.list_loop Memory.list Memory.get compact_key
    compact_scan trim_keys remove_keys cut_log clear_prev Compaction.compact run call insert remove
    to_key_value Memory.log_index_after to_event batch_of key_in_range
program = tt

unfoldable pub spec_program : Unit {0}
unfolding spec_call Spec.create Spec.update Spec.delete Spec.compact Spec.current_of
    Spec.create_over Spec.update_over Spec.delete_over Spec.predecessor
spec_program = tt

abbrev calls : List Call
calls =
    Call.create (codes "/a") (codes "1") 0
    ∷ Call.update (codes "/a") (codes "2") 1 0
    ∷ Call.create (codes "/a") (codes "3") 0
    ∷ Call.update (codes "/a") (codes "3") 1 0
    ∷ Call.compact 2
    ∷ Call.get (codes "/a") 1 false
    ∷ Call.get (codes "/a") 2 true
    ∷ Call.delete (codes "/a") 0
    ∷ []

-- The replies of the backend to the calls.
calls_replies :
    run calls (Memory.new {B = sorted_map {A = List Entry}})
    ≡ wrote (1, none)
      ∷ changed (
        2,
        some (record {
          key = codes "/a";
          value = codes "2";
          version = 2;
          create_revision = 1;
          mod_revision = 2;
          lease = 0;
        }),
        true,
      )
      ∷ wrote (2, some Error.key_exists)
      ∷ changed (
        2,
        some (record {
          key = codes "/a";
          value = codes "2";
          version = 2;
          create_revision = 1;
          mod_revision = 2;
          lease = 0;
        }),
        false,
      )
      ∷ wrote (2, none)
      ∷ found (2, none, some Error.compacted)
      ∷ found (
        2,
        some (record {
          key = codes "/a";
          value = [];
          version = 2;
          create_revision = 1;
          mod_revision = 2;
          lease = 0;
        }),
        none,
      )
      ∷ changed (
        3,
        some (record {
          key = codes "/a";
          value = codes "2";
          version = 2;
          create_revision = 1;
          mod_revision = 2;
          lease = 0;
        }),
        true,
      )
      ∷ []
unfolding program
calls_replies = refl

run-spec_run_example :
    run calls (Memory.new {B = sorted_map {A = List Entry}}) ≡ spec_run calls start
run-spec_run_example = run-spec_run (sorted_map {A = List Entry}) calls

abbrev pub B : OrderedMap (List Entry)
B = sorted_map

abbrev pub a : Bytes
a = codes "/a"

abbrev pub b : Bytes
b = codes "/b"

abbrev pub empty : Memory B
empty = Memory.new

-- Two creations, and a compaction at revision 1.
abbrev pub m1 : Memory B
m1 = (Memory.create a (codes "1") 0 empty).0

abbrev pub m2 : Memory B
m2 = (Memory.create b (codes "2") 0 m1).0

abbrev m3 : Memory B
m3 = (Compaction.compact 1 m2).0

abbrev pub s1 : Spec
s1 = (Spec.create a (codes "1") 0 start).0

abbrev pub s2 : Spec
s2 = (Spec.create b (codes "2") 0 s1).0

abbrev s3 : Spec
s3 = (Spec.compact 1 s2).0

m1-Refines : Refines s1 0 m1
m1-Refines = (create-Refines (start-Refines {B = B}) a (codes "1") 0).0

pub m2-Refines : Refines s2 0 m2
m2-Refines = (create-Refines m1-Refines b (codes "2") 0).0

m3-Refines : Refines s3 1 m3
unfolding program
m3-Refines = (compact-Refines m2-Refines 1).0

compact-Refines_example :
    Refines
      (Spec.compact 1 s2).0
      (counted (Compaction.compact 1 m2).1.1 0)
      (Compaction.compact 1 m2).0
    × ((Compaction.compact 1 m2).1 ≡ (Spec.compact 1 s2).1)
compact-Refines_example = compact-Refines m2-Refines 1

list-IsListing_example :
    (full : List KeyValue) × IsListing s2 a (codes "/z") 0 false full
    × ((limit : ℕ)
        → Memory.list a (codes "/z") limit 0 false m2
          ≡ (read_revision 0 s2, limited limit full, none))
list-IsListing_example = list-IsListing m2-Refines a (codes "/z") 0 false (inl refl)

snapshot_stable_example :
    Memory.get a 1 false (call (Call.delete a 0) m2).0 ≡ Memory.get a 1 false m2
unfolding program spec_program
snapshot_stable_example =
    snapshot_stable m2-Refines (Call.delete a 0) a 1 false (omega arith) (omega arith) (omega arith)

unread-drop_example : unread m3 2 ≡ drop (max m3.compact 2 - 1) s3.history
unread-drop_example = unread-drop m3-Refines.represents 2

-- One compaction, and the watch that has seen everything is sent the last event again.
batch_again_example :
    map notice (batch_of m3 [] [] m3.current)
    ≡ map entry_notice
        (keep (λ e. key_in_range [] [] e.key) (drop (length s3.history - 1) s3.history))
batch_again_example = batch_again m3-Refines.represents [] []

-- A watch of all keys from the start: the goroutine reads the first entry and sends it.
abbrev begun : System B
begun = record { memory = m1; watcher = new_watcher [] [] 1 m1.current }

abbrev done : System B
done = record {
  memory = m1;
  watcher = record {
    key = [];
    end = [];
    seen = 1;
    stage = wait 1;
    sent = batch_of m1 [] [] 0 ∷ [];
  };
}

m1_uncompacted : m1.compact ≡ 0
unfolding program
m1_uncompacted = refl

begun-Reach : Reach begun done
unfolding program watch_step watch_at last_seen after_scan
begun-Reach = next (next (next here (turn refl)) (turn refl)) (turn refl)

done_blocked : watch_step done.memory done.watcher ≡ none
unfolding program watch_step watch_at
done_blocked = refl

delivered_so_far_example :
    (h : List Entry) × Represents h 0 done.memory
    × (notices done.watcher.sent ++ pending done.watcher.stage
        ≡ owed [] [] (seen_at 1 m1.current) done.watcher.seen h)
delivered_so_far_example = delivered_so_far m1-Refines.represents m1_uncompacted [] [] 1 begun-Reach

blocked_is_complete_example :
    (h : List Entry) × Represents h 0 done.memory
    × (notices done.watcher.sent
        ≡ map entry_notice (keep (λ e. key_in_range [] [] e.key) (drop (seen_at 1 m1.current) h)))
blocked_is_complete_example =
    blocked_is_complete m1-Refines.represents m1_uncompacted [] [] 1 begun-Reach done_blocked
