-- ===== src/Storage.antt =====
-- internal/storage: what the daemon keeps in SQLite, and the operations on it. A database
-- transaction is a function of the tables that returns the new tables or an error; an error leaves
-- the tables as they were, since every operation of the package defers a rollback.
pub mod Schema
pub mod Frames
pub mod Events
pub mod Transactions
pub mod Generations
pub mod Deployments
pub mod Health
pub mod Outbox
pub mod Retention
pub mod Invariant
pub mod Fences
pub mod Lifecycle
pub mod Advances
pub mod Stale
