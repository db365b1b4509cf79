-- ===== src/Tests/Transactions.antt =====
-- The transaction protocol at the sample store.
use monitord.Base.{
  ℕ, ◌+◌, ◌≡◌, ◌≢◌, refl, ◌⊎◌, true, false, some, List, [], ◌∷◌, All, ok, err, text_eq,
}
use monitord.Base.Table.{find, update, count}
use monitord.Storage.Schema.{
  Ack, Store, generation_fenced, Outbox, Deployment, has_id, is_monitor_event,
}
use monitord.Storage.Frames.{validate_frame}
use monitord.Storage.Events.{insert_events, insert_outbox_event, event_row}
use monitord.Storage.Events.Occurrences.{find-insert_events, insert_events-IsRecorded, IsRecorded}
use monitord.Storage.Transactions.{commits, fails, apply_transaction, apply_new, ack_of}
use monitord.Storage.Transactions.Replay.{apply_transaction-replay}
use monitord.Storage.Transactions.Atomicity.{apply_transaction-lost_ack, attempts, attempts_once}
use monitord.Storage.Transactions.Fencing.{IsGranted, apply_transaction-guarded, apply_new-state}
use monitord.Tests.Samples.{platform, id, deployment, store, event, frame, stale_frame}

abbrev ack : Ack
ack = ack_of platform frame 5

committed : Store
committed = (apply_transaction platform frame commits 10 store).0

commits_once : apply_transaction platform frame commits 10 store ≡ (committed, ok ack)
unfolding committed apply_transaction apply_new validate_frame insert_events insert_outbox_event
    find update count text_eq
commits_once = refl

-- The ledger still answers after the generation has been fenced.
fenced_later : Store
fenced_later = record committed { deployments = record deployment { active_generation = 0 } ∷ [] }

apply_transaction-replay_example :
    apply_transaction platform frame commits 99 fenced_later ≡ (fenced_later, ok ack)
unfolding fenced_later
apply_transaction-replay_example =
    apply_transaction-replay platform frame commits 10 99 store committed fenced_later ack
      commits_once refl

attempts_once_example :
    (attempts platform frame
        ((fails false false, 1) ∷ (fails true false, 2) ∷ (commits, 3) ∷ [])
        store
      ≡ store)
    ⊎ ((now : ℕ) × (a : Ack) × (apply_transaction platform frame commits now store ≡ (
      attempts platform frame
          ((fails false false, 1) ∷ (fails true false, 2) ∷ (commits, 3) ∷ [])
          store,
      ok a,
    )))
attempts_once_example =
    attempts_once platform frame
      ((fails false false, 1) ∷ (fails true false, 2) ∷ (commits, 3) ∷ []) store

apply_transaction-lost_ack_example :
    apply_transaction platform frame (fails true true) 10 store ≡ (committed, ok ack)
apply_transaction-lost_ack_example =
    apply_transaction-lost_ack platform frame 10 store committed ack commits_once

stale_valid : validate_frame platform stale_frame ≡ true
unfolding validate_frame
stale_valid = refl

apply_transaction-guarded_example :
    IsGranted platform stale_frame store
    ⊎ (apply_transaction platform stale_frame commits 20 store ≡ (store, err generation_fenced))
unfolding find text_eq
apply_transaction-guarded_example =
    apply_transaction-guarded platform stale_frame commits 20 store stale_valid refl

applied_once : apply_new platform frame 10 store ≡ ok (ack, committed)
unfolding committed apply_transaction apply_new validate_frame insert_events insert_outbox_event
    find update count text_eq
applied_once = refl

apply_new-state_example :
    (d : Deployment) × (find (has_id id) store.deployments ≡ some d)
    × (d.active_generation ≡ 3)
    × (d.state_revision ≡ 4)
    × (find (has_id id) committed.deployments
        ≡ some (record d {
          state = frame.next_state;
          state_revision = d.state_revision + 1;
          updated_at = 10;
        }))
    × (ack.result_revision ≡ d.state_revision + 1)
    × ((other : List ℕ)
        → other ≢ id
        → find (has_id other) committed.deployments ≡ find (has_id other) store.deployments)
apply_new-state_example = apply_new-state platform frame 10 store committed ack applied_once

outbox_after : Outbox
outbox_after = committed.outbox

events_inserted :
    insert_events platform store.bindings frame 10 frame.events store.outbox ≡ ok outbox_after
unfolding outbox_after committed apply_transaction apply_new validate_frame insert_events
    insert_outbox_event find update count text_eq
events_inserted = refl

insert_events-IsRecorded_example :
    All
      (IsRecorded platform store.bindings frame 10 store.outbox (event ∷ []) outbox_after)
      (event ∷ [])
insert_events-IsRecorded_example =
    insert_events-IsRecorded platform store.bindings frame 10 (event ∷ []) store.outbox outbox_after
      events_inserted

events_again :
    insert_events platform store.bindings frame 30 (event ∷ []) outbox_after ≡ ok outbox_after
unfolding outbox_after committed apply_transaction apply_new validate_frame insert_events
    insert_outbox_event find update count text_eq
events_again = refl

find-insert_events_example :
    find (is_monitor_event id event.event_id) outbox_after.events
    ≡ some (event_row platform frame 10 event)
unfolding outbox_after committed apply_transaction apply_new validate_frame insert_events
    insert_outbox_event find update count text_eq
find-insert_events_example =
    find-insert_events platform store.bindings frame 30 (event ∷ []) outbox_after outbox_after id
      event.event_id (event_row platform frame 10 event) events_again refl
