-- ===== src/Tests.antt =====
-- Concrete runs of the models, and the theorems at concrete inputs.
mod Samples
mod Transactions
mod Lifecycle
mod Outbox
mod Health
mod Worker
mod Callback
mod Delivery
mod Reconcile
mod Blocks
mod Events
mod Daemon
mod Retention
mod Session
mod Secrets
