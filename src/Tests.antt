-- ===== src/Tests.antt =====
-- Concrete runs, and the theorems at inputs that meet their hypotheses.
mod SortedMap
mod InMemory
mod Servers
mod Transactions
mod Broadcasts
mod Watches
mod Tables
mod Logs
mod SqlLogs
mod NatsBuckets
mod Expiries
mod Ranges
