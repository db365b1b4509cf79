-- ===== src/Daemon.antt =====
-- internal/daemon: the daemon's side of a worker, and its delivery of messages.
pub mod Transaction
pub mod Destination
pub mod Delivery
pub mod Reconcile
