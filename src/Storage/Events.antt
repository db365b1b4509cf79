-- ===== src/Storage/Events.antt =====
-- internal/storage/transactions.go: the rows that the events of a frame add to the outbox.
pub mod Occurrences
use monitord.Base.{
  ℕ, Text, Bool, true, false, not, ◌&&◌, ◌||◌, Option, none, some, List, [], ◌∷◌, ◌==◌,
  if◌then◌else◌, text_eq, any, Result, ok, err, ◌>>=◌,
}
use monitord.Base.Table.{find}
use monitord.Storage.Schema.{
  Error, payload_conflict, constraint, Platform, Binding, OutboxEvent, OutboxDelivery, pending,
  Outbox, is_monitor_event,
}
use monitord.Storage.Frames.{DeliveryTarget, EventInput, Frame}

module _ (p : Platform) where
  open p use {sha256, marshal}

  unfoldable pub identity_hash : EventInput → Text
  identity_hash e = sha256 (marshal e.message)

  abbrev pub target_row : Frame → ℕ → EventInput → DeliveryTarget → OutboxDelivery
  target_row f now e t = record {
    outbox_id = e.outbox_id;
    deployment_id = f.deployment_id;
    destination_id = t.destination_id;
    destination_revision = t.destination_revision;
    status = pending;
    attempt_count = 0;
    next_attempt_at = now;
    lease_owner = none;
    lease_expires_at = none;
    delivered_at = none;
    last_error = [];
    dead_at = none;
  }

  -- The row's primary key is taken, or its foreign key names no binding.
  abbrev pub refuses : List Binding → Frame → EventInput → DeliveryTarget → Outbox → Bool
  refuses bindings f e t o =
      any (λ r. text_eq r.outbox_id e.outbox_id && text_eq r.destination_id t.destination_id)
        o.deliveries
      || not (
          any
            (λ b.
              text_eq b.deployment_id f.deployment_id
              && (text_eq b.id t.destination_id && b.revision == t.destination_revision))
            bindings)

  unfoldable pub insert_targets :
      List Binding → Frame → ℕ → EventInput → List DeliveryTarget → Outbox → Result Error Outbox
  insert_targets bindings f now e [] o = ok o
  insert_targets bindings f now e (t ∷ ts) o =
      let rest =
        insert_targets bindings f now e ts
          (record o { deliveries = target_row f now e t ∷ o.deliveries }) in
      if refuses bindings f e t o then err constraint else rest

  -- A refused INSERT: the same occurrence coalesces, another content under its ID is a conflict.
  coalesce_event : EventInput → Option OutboxEvent → Outbox → Result Error Outbox
  unfolding identity_hash
  coalesce_event e none o = err constraint
  coalesce_event e (some old) o =
      if text_eq old.payload_hash (identity_hash e) then ok o else err payload_conflict

  abbrev pub event_row : Frame → ℕ → EventInput → OutboxEvent
  event_row f now e = record {
    outbox_id = e.outbox_id;
    deployment_id = f.deployment_id;
    generation = f.generation;
    transaction_seq = some f.sequence;
    event_id = e.event_id;
    payload = marshal (record e.message { time = now });
    payload_hash = identity_hash e;
    created_at = now;
  }

  -- The row's primary key, and UNIQUE (deployment_id, kind, event_id).
  abbrev pub clashes : Frame → EventInput → OutboxEvent → Bool
  clashes f e r = text_eq r.outbox_id e.outbox_id || is_monitor_event f.deployment_id e.event_id r

  unfoldable pub insert_outbox_event :
      List Binding → Frame → ℕ → EventInput → Outbox → Result Error Outbox
  unfolding coalesce_event insert_targets
  insert_outbox_event bindings f now e o =
      if any (clashes f e) o.events
      then coalesce_event e (find (is_monitor_event f.deployment_id e.event_id) o.events) o
      else insert_targets bindings f now e e.targets
          (record o { events = event_row f now e ∷ o.events })

  unfoldable pub insert_events :
      List Binding → Frame → ℕ → List EventInput → Outbox → Result Error Outbox
  insert_events bindings f now [] o = ok o
  insert_events bindings f now (e ∷ es) o = do
    o' ← insert_outbox_event bindings f now e o
    insert_events bindings f now es o'
