-- ===== src/Lib.antt =====
-- Verification of HariKube, a datastore that serves the etcd API of a Kubernetes API server.
--
-- Parts. The gRPC servers of pkg/server turn etcd requests into calls of a `Backend`. A backend is
-- the in-memory store (pkg/drivers/memory), or the log-structured store (pkg/logstructured) over a
-- SQL log (pkg/logstructured/sqllog), among others. pkg/drivers/transaction wraps a backend.
--
-- Files.
-- Common: shared notation, lists measured by native numbers, byte strings.
-- Api: pkg/server/types.go, the values that servers and backends exchange.
-- Memory: pkg/drivers/memory/memory.go. Entries holds the entries and the loops over one history;
--   Memory.antt the state and the methods `New`, `Create`, `Update`, `Delete`, `List`, `Get`, `Count`
--   and `Start`; Compaction `Compact`; Watching `Watch` and its goroutine, a stage at a time. The
--   btree map is a parameter, `OrderedMap` in Memory/Map, with its documented laws. The pointer
--   `prev` of an entry is a table by revision, since `Compact` writes through it. Spec is the
--   abstract store, a list of all entries and the compact revision; the other files are proofs.
-- Server: pkg/server, the handlers of `LimitedServer` and `KVServerBridge` over a `Backend`.
--   Requests holds the etcd requests and responses, Version the encoding of the version of the
--   compaction key (compact.go), Server.antt the forms of transactions with create.go, delete.go and
--   update.go, Ranges get.go, list.go, kv.go and put.go, Txns compact.go and `Txn`. Streams is the
--   loop of a watch in watch.go, Watches the creation, cancellation and progress of the watches of a
--   stream. Forms holds the transactions that Kubernetes sends, InMemory is the in-memory backend as a
--   `Backend`, and the other files are proofs about the two together. `util.RegisterCustomResourceDefinition` is a
--   parameter of the handlers.
-- Transaction: pkg/drivers/transaction/transaction.go, `Create` of a transaction key. The decoder of
--   objects and the wrapped backend are parameters; Outcome proves what a creation comes to.
-- LogStructured: pkg/logstructured/logstructured.go over the interface `Log` (Interface). The first
--   argument of a write is what other clients do between its read and its append, which is to append
--   rows: a compaction in between is left out. Rows holds what a log is relied on to do, Atomic the state of the rows around an append, Updates, Creates and
--   Deletes the three writes, Watching `Watch` over the batches that it reads.
-- SqlLog: pkg/logstructured/sqllog/sql.go over the interface `Dialect` of pkg/server/types.go, which
--   Database gives over the state of a database. SqlLog.antt has the reads and `Append`, Rows the
--   events of the rows of a query, Reads their errors, Compacting `compact` and `compactIter`, with
--   Outcome and Ends the proofs about them, AsLog the SQL log as a `Log` of LogStructured, Starting `Start`, `compactStart` and `Compact`, Filtering `filter` and
--   helpers.go, Polling a turn of `poll`. Polling/Sending and Polling/Delivery prove what the loop
--   sends, among writers whose rows become visible in any order, and Polling/Filling what it fills.
-- Nats: pkg/drivers/nats. Codec is codec.go, and Codec/RoundTrip its round trip. Index is the index of
--   kv.go, History its laws, Bucket what is used of JetStream and of the encoders of values, Store the
--   reads and writes of `KeyValue`. Backend is backend.go: `get` and `Create`, with the other writes in
--   Changes, List, Get and Count in Reads, and Compact in Compacting. The first argument of a write is
--   what happens between its read and its write, the second what happens while it waits for the index.
--   Watching is the filter of kv.go and a turn of the watches.
-- Ttl: pkg/ttl/ttl.go, `seed`, `handle`, and what `Run` does with an event, over any `Backend`. Expiry
--   proves what is deleted and what is forgotten.
-- T4: pkg/drivers/t4/backend.go over a node of T4; Prefixes is about its ranges.
-- Resources: the tables of pkg/util/selector.go from keys and kinds to types, and the readers of metadata.
-- Broadcaster: pkg/broadcaster/broadcaster.go, its methods and the turns of `stream` as steps; a
--   channel has the capacity of 100 that the code gives it. Buffers proves what subscribers are sent.
-- Tests: concrete runs and the theorems at concrete inputs. Tests/SortedMap is an ordered map that
--   meets the laws of `OrderedMap`.
--
-- Bounds. An int64 that holds a revision, version, lease or limit is a natural number: negative
-- arguments are left out (a negative revision reads like 0, and matches no entry), and so is
-- overflow at 2^63. Go strings and byte slices are lists of bytes. A method that holds the lock of
-- the store is one step. The digits of n are printed on fuel n + 1, as each step divides by ten. The loop
-- of `compactIter` runs on fuel of the target revision, which it reaches in steps of at least one;
-- `seed` of pkg/ttl runs on fuel above the rank of its first key, which falls from page to page;
-- every other loop is a recursion on a list.
--
-- Not modelled: the label and field selectors of the interface `Backend`, which the in-memory backend
-- ignores, the goroutines and timers of the SQL log (only the turns of their loops are), the loop of
-- pkg/ttl, pkg/query, the rest of pkg/util, the wiring (pkg/app, pkg/endpoint), metrics, TLS, signals,
-- the SQL drivers, the connections of the NATS and T4 drivers and the expiries of the former, Kafka
-- streams, and the generated or vendored code that the sources only call.
pub mod Common
pub mod Api
pub mod Memory
pub mod Server
pub mod Transaction
pub mod Broadcaster
pub mod LogStructured
pub mod SqlLog
pub mod Nats
pub mod Ttl
pub mod T4
pub mod Resources
pub mod Tests
