-- ===== src/Memory/Compaction.antt =====
-- `Compact` of pkg/drivers/memory/memory.go.
use harikube.Common.{
  ℕ, ◌-◌, Bytes, not, Option, none, some, List, [], ◌∷◌, ◌++◌, length, drop, ltb, leb, ◌==◌,
  if◌then◌else◌,
}
use harikube.Api.{Error}
use harikube.Memory.{Memory}
use harikube.Memory.Map.{OrderedMap}
use harikube.Memory.Entries.{Entry, trim, set_prev}

-- `newHist[0].prev = nil`
unfoldable pub clear_prev : List Entry → (ℕ → Option Entry) → ℕ → Option Entry
clear_prev [] prev = prev
clear_prev (e ∷ hist) prev = set_prev prev e.revision none

module _ {B : OrderedMap (List Entry)} where
  -- The function that `Compact` hands to `Scan`, for one key; the keys to remove come last.
  unfoldable pub compact_key :
      ℕ → Bytes → List Entry → Memory B × List Bytes → Memory B × List Bytes
  compact_key revision key hist (m, to_remove) =
      let kept = trim revision hist in
      if length kept == 0
      then (m, to_remove ++ key ∷ [])
      else if not (length kept == length hist)
      then (record m { prev = clear_prev kept m.prev; keys = B.set m.keys key kept }, to_remove)
      else (m, to_remove)

  -- `Scan`, over the pairs that the map holds when it begins: the function writes only to the key
  -- that it is called for.
  unfoldable pub compact_scan :
      ℕ → List (Bytes × List Entry) → Memory B × List Bytes → Memory B × List Bytes
  compact_scan revision [] s = s
  compact_scan revision (e ∷ items) s = compact_scan revision items (compact_key revision e.0 e.1 s)

  -- `for _, k := range toRemove`
  unfoldable pub remove_keys : List Bytes → Memory B → Memory B
  remove_keys [] m = m
  remove_keys (k ∷ ks) m = remove_keys ks (record m { keys = B.delete m.keys k })

  -- The histories after `Compact`, before the log is cut.
  unfoldable pub trim_keys : ℕ → Memory B → Memory B
  trim_keys revision m =
      let (m', to_remove) = compact_scan revision (B.scan m.keys) (m, []) in
      remove_keys to_remove m'

  -- The end of `Compact`: `cut` is the number of log entries to delete, and `slices.Delete(_, 0, 0)`
  -- changes nothing, as the guard `cut > 0` does.
  unfoldable pub cut_log : ℕ → Memory B → Memory B
  cut_log revision m =
      let cut = revision - m.compact - 1 in
      record m { log = if ltb 0 cut then drop cut m.log else m.log; compact = revision }

  unfoldable pub compact : ℕ → Memory B → Memory B × (ℕ × Option Error)
  compact revision m =
      if ltb m.current revision
      then (m, (0, some Error.future_rev))
      else if leb revision m.compact
      then (m, (0, some Error.compacted))
      else (cut_log revision (trim_keys revision m), (m.current, none))
