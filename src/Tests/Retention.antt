-- ===== src/Tests/Retention.antt =====
-- A slice of each sweep on a store with an old event that is delivered, one that waits, and the
-- ledger row of a live generation.
use monitord.Base.{ℕ, ◌≡◌, refl, some, [], ◌∷◌, All, ok, text_eq, sort_by, insert_by}
use monitord.Base.Table.{find, update, count, select, delete, max_of}
use monitord.Storage.Schema.{Ack, Store, OutboxEvent, Generation}
use monitord.Storage.Frames.{validate_frame}
use monitord.Storage.Events.{insert_events, insert_outbox_event}
use monitord.Storage.Transactions.{commits, apply_transaction, apply_new, ack_of}
use monitord.Storage.Retention.{
  Sweep, outbox_sweep, transactions_sweep, first_cursor, is_expired, is_prunable_event, same_cursor,
}
use monitord.Storage.Retention.Discover.{discover, discover_outbox}
use monitord.Storage.Retention.Prune.{prune, delete_page, delete_candidate, delete_event}
use monitord.Storage.Retention.Kept.{Keeps, prune-Keeps}
use monitord.Storage.Retention.Replayed.{Slice, IsSpared, sweeps, sweeps-replay}
use monitord.Tests.Samples.{platform, id, store, frame, waiting_row, delivered_row}

abbrev old_event : OutboxEvent
old_event = record {
  outbox_id = 113 ∷ [];
  deployment_id = id;
  generation = 3;
  transaction_seq = some 1;
  event_id = 101 ∷ [];
  payload = [];
  payload_hash = [];
  created_at = 10;
}

abbrev awaited_event : OutboxEvent
awaited_event = record old_event { outbox_id = 111 ∷ []; event_id = 102 ∷ []; created_at = 11 }

abbrev old_store : Store
old_store = record store {
  outbox = record {
    events = awaited_event ∷ old_event ∷ [];
    deliveries = waiting_row ∷ delivered_row ∷ [];
  };
}

abbrev event_rowid : OutboxEvent → ℕ
event_rowid e = e.created_at

abbrev generation_rowid : Generation → ℕ
generation_rowid g = g.generation

abbrev slice : Sweep → Slice
slice w = record {
  sweep = w;
  now = 2000;
  budget = 5;
  before = first_cursor;
  snapshot = old_store;
  current = first_cursor;
}

abbrev pruned : Store
pruned =
    (prune event_rowid generation_rowid outbox_sweep 2000 5 first_cursor old_store first_cursor
      old_store).0

-- The old event goes with its delivery, and the awaited one stays, though it is as old.
pruned_lem : pruned.outbox ≡ record { events = awaited_event ∷ []; deliveries = waiting_row ∷ [] }
unfolding prune discover discover_outbox delete_page delete_candidate delete_event same_cursor
    is_prunable_event is_expired find select delete max_of sort_by insert_by text_eq
pruned_lem = refl

prune-Keeps_example : Keeps outbox_sweep 2000 old_store pruned
prune-Keeps_example =
    prune-Keeps event_rowid generation_rowid outbox_sweep 2000 5 first_cursor old_store first_cursor
      old_store

abbrev ack : Ack
ack = ack_of platform frame 5

committed : Store
committed = (apply_transaction platform frame commits 10 store).0

commits_once : apply_transaction platform frame commits 10 store ≡ (committed, ok ack)
unfolding committed apply_transaction apply_new validate_frame insert_events insert_outbox_event
    find update count text_eq
commits_once = refl

spared_lem :
    All
      (IsSpared event_rowid generation_rowid frame committed.generations)
      (slice outbox_sweep ∷ slice transactions_sweep ∷ [])
unfolding committed apply_transaction apply_new validate_frame insert_events insert_outbox_event
    find update count text_eq
spared_lem = (refl, (refl, tt))

sweeps-replay_example :
    apply_transaction platform frame commits 99 (
      sweeps event_rowid generation_rowid
        (slice outbox_sweep ∷ slice transactions_sweep ∷ [])
        committed)
    ≡ (
      sweeps event_rowid generation_rowid
          (slice outbox_sweep ∷ slice transactions_sweep ∷ [])
          committed,
      ok ack,
    )
sweeps-replay_example =
    sweeps-replay event_rowid generation_rowid platform frame commits 10 99
      (slice outbox_sweep ∷ slice transactions_sweep ∷ []) store committed ack commits_once
      spared_lem
