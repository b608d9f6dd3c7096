-- ===== src/Server/InMemory.antt =====
-- The in-memory backend behind the handlers: its methods as a `Backend`, whose `Update` and `Delete`
-- never fail.
use harikube.Common.{Bool, ℕ, Option, none, List}
use harikube.Api.{Backend, KeyValue, Error}
use harikube.Memory
use harikube.Memory.{Memory}
use harikube.Memory.Entries.{Entry}
use harikube.Memory.Compaction
use harikube.Memory.Map.{OrderedMap}

abbrev pub no_error :
    {S : Type 0}
    → S × (ℕ × Option KeyValue × Bool)
    → S × (ℕ × Option KeyValue × Bool × Option Error)
no_error (s, (rev, kv, done)) = (s, (rev, kv, done, none))

abbrev pub memory_backend : {B : OrderedMap (List Entry)} → Backend (Memory B)
memory_backend = record {
  get = Memory.get;
  create = Memory.create;
  delete = λ key revision m. no_error (Memory.delete key revision m);
  list = Memory.list;
  count = Memory.count;
  update = λ key value revision lease m. no_error (Memory.update key value revision lease m);
  compact = Compaction.compact;
}
