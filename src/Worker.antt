-- ===== src/Worker.antt =====
-- The worker's side of a transaction: protocol.go, event.go, coordinator.go, session.go, state.go,
-- supervisor.go and the end of runtime.go.
pub mod Protocol
pub mod Coordinator
pub mod Callback
pub mod Rounds
pub mod Settlement
pub mod Acceptance
pub mod Progress
pub mod Digest
pub mod Session
pub mod Secrets
