-- ===== src/Lib.antt =====
-- monitord keeps deployments of monitors, runs one worker process per deployment, and delivers
-- the events that the workers commit. This library models the durable store, the worker's and the
-- daemon's side of a commit, the worker's supervisor, the sender of the outbox, the
-- reconciliation of workers, and the sources of EVM blocks and logs.
--
-- The store (internal/storage) is a SQLite database. Its tables are the record `Store` of
-- Storage/Schema.antt, one list per table of internal/storage/schema.sql, and each operation is a
-- function from the tables to a result: an error leaves them as they were, since the transaction
-- of the source is rolled back. SQL statements are the list functions of Base/Table.antt. A
-- random identifier or token and the clock are arguments. The times are natural numbers of
-- milliseconds, and revisions, sequences and generations are natural numbers that grow by one;
-- SQLite's 64-bit bound on them is not modelled. An error says which of the source's errors it
-- is, not its text.
--
-- Base and its children: Boolean tests, byte sequences, lists, results, signed integers, decimal
-- and hexadecimal digits, sorting, tables and deletions from them.
-- Utf8: unicode/utf8 validity and `boundedText` of internal/storage/store.go; the loop of
-- `boundedOperationalError` in supervisor.go is the same.
-- Storage/Schema, Storage/Frames: the tables, and the frames of a worker with their validation
-- (internal/storage/transactions.go, `validateFrame`).
-- Storage/Events: `insertOutboxEvent`; a conflict on an event ID coalesces or fails.
-- Storage/Transactions: `ApplyTransaction`, `lookupTransaction` and `resolveTransaction`.
-- `CommitFate` says what becomes of COMMIT: it succeeds, or it reports an error while the
-- transaction is durable or not and the ledger can then be read or not.
-- Storage/Generations: internal/storage/generations.go. Storage/Deployments:
-- internal/storage/deployments.go, artifacts.go and `ClearCheckpoints` of checkpoints.go.
-- Storage/Health: internal/storage/health.go. Storage/Outbox: internal/storage/outbox.go.
-- Storage/Retention: internal/storage/retention.go; a slice reads its page from a snapshot of the
-- tables and deletes from the present ones.
-- Storage/Invariant, Storage/Fences, Storage/Lifecycle, Storage/Advances, Storage/Stale: what the
-- operations keep together; `Lifecycle.Call` is one call that changes the tables, one constructor
-- for each method of the store that does, `Outbox.Histories.Call` for those of the outbox and one
-- for a slice of either sweep; a history is a list of them in any order, which is how the daemon
-- and the command line interleave on the one writer of the database.
-- Mentions: mention specs of internal/delivery/discord.go.
-- Worker: the transaction frames of protocol.go and event.go, and coordinator.go. The loop of
-- `Commit` runs on a list of inputs: a control frame, a ready channel, a write, a deadline; the
-- lists are all the interleavings of the reader with the loop.
-- Worker/Callback, Worker/Rounds: supervisor.go and the end of `serveWorker` in runtime.go.
-- `Callback.Move` is the step relation of `runCallback`: one constructor for each case of its
-- selects, and one for each act of the callback, the clock and the daemon, so a chain of moves is
-- one interleaving. An error is the list of the kinds that `errors.Is` and `errors.As` find in
-- it. `Rounds.poll` runs on the list of the rounds a plan may come to, and `serve` is what
-- follows the start hook.
-- Daemon: internal/daemon/worker.go, `transaction`: a frame of the worker becomes a frame of the
-- store, and the store's acknowledgement is sent back. `Conditions` says what the reads, the
-- COMMIT and the write to the pipe come to. Daemon/Transaction/Session puts the worker's
-- coordinator, the daemon and the store together.
-- Daemon/Destination, Daemon/Delivery: the sender of internal/daemon/outbox.go with the errors of
-- internal/delivery/discord.go and the rate limit of delivery.go, on top of Storage/Outbox. Its
-- times are nanoseconds. What `Send` comes to is the given attempt; the goroutines of a batch are
-- any order of its reservations and any order of its settlements.
-- Daemon/Reconcile: `reconcile` and `stopWorker` of internal/daemon/reconcile.go on the map of
-- workers, a list with one slot for each key. The deployments are taken one after the other;
-- `Answers` says what the secrets, the store and the start of the process come to for each.
-- Evm/Blocks: the block source of catalog/quicknode/evm/blocks.go with `blocksByNumber` of
-- rpc.go. The endpoint and the monitor's `Handle` are the functions of `World`, at the moment of
-- each call, so a later call may be answered differently. The journal is kept newest first. `Run`
-- has the progress in memory, the saved one and the saved deliveries; a life of the monitor
-- starts from what is saved. Chain is the stack of canonical blocks that the deliveries are
-- checked against.
-- Evm/Events: the source of matching logs of catalog/quicknode/evm/events.go. `Endpoint` has the
-- endpoint, `Handle` and the session at the moment of each call, and `Progress` the cursor and
-- the live journal in memory and as they are saved. Events/Reconcile is `reconcileOne`, and
-- `Follow.follow` what the loop of `run` does, in any order. The ID of a log is compared by its
-- parts on one chain.
-- Worker/Session: `Session.Commit`, `Emit` and `Checkpoint` of session.go and `decodeState` of
-- state.go. The monitor's closure is the list of its calls, and the committer is any function; a
-- Go map is a list of entries with distinct keys.
-- Worker/Secrets: `normalizeSecretRefs` of session.go, with the name pattern of info.go.
-- Tests: the models and the theorems at concrete inputs.
--
-- Parameters: SHA-256, JSON validity and encoding, hex and strings.TrimSpace are fields of
-- `Platform`, `Wire` and `Codec`, the decoding of a destination, float64, the limiters of
-- golang.org/x/time/rate and math/rand are fields of `Library`, with no assumption but where a
-- theorem names one. The recursions are structural, but for the loop of `advance` in Evm/Blocks,
-- whose fuel is the target + 2: each round that goes on moves the cursor by at least one block,
-- so no more rounds are needed.
--
-- Not modelled: read-only queries and schema migration of internal/storage; the handshake and the
-- framing of the worker (runtime.go, wire.go); the processes of the workers and the loops of the
-- daemon (internal/daemon), delivery transports, monitor builds, configuration, the files of
-- secrets, the command line, and of the catalog the clients, the loading of the event source's
-- progress, the Solana source and the transactions of a block. SQLite's isolation, pragmas and
-- write-ahead log are taken for granted.
pub mod Base
pub mod Utf8
pub mod Storage
pub mod Mentions
pub mod Worker
pub mod Daemon
pub mod Evm
pub mod Tests
