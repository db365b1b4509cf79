-- ===== src/Storage/Events/Occurrences.antt =====
-- internal/storage/transactions.go, the INSERT of an event and its conflict: an event ID names one
-- occurrence.
use monitord.Base.{
  ℕ, Text, ◌≡◌, refl, ◌⊎◌, inl, inr, true, false, some, List, [], ◌∷◌, text_eq, eq_of_text_eq,
  text_eq_refl, arith, any, All, ok, Option-cases, Bool-cases, chain_parts,
}
use monitord.Base.Table.{find, any_of_find, All-imp}
use monitord.Storage.Schema.{Platform, Binding, OutboxEvent, Outbox, is_monitor_event}
use mathlib.Core.Path.{subst}
use monitord.Storage.Frames.{DeliveryTarget, EventInput, Frame}
use monitord.Storage.Events.{
  identity_hash, insert_targets, event_row, clashes, insert_outbox_event, insert_events, target_row,
}

module _ (p : Platform) (bindings : List Binding) (f : Frame) (now : ℕ) where
  events-insert_targets :
      (e : EventInput) (ts : List DeliveryTarget) (o o' : Outbox)
      → insert_targets p bindings f now e ts o ≡ ok o'
      → o'.events ≡ o.events
  unfolding insert_targets
  events-insert_targets e [] o o' h = ground arith
  events-insert_targets e (t ∷ ts) o o' h = ground (
    arith,
    events-insert_targets e ts (record o { deliveries = target_row p f now e t ∷ o.deliveries }) o',
  )

  -- What one insertion does to the events: nothing, or one row more.
  insert_outbox_event_cases :
      (e : EventInput) (o o' : Outbox)
      → insert_outbox_event p bindings f now e o ≡ ok o'
      → ((any (clashes p f e) o.events ≡ true)
          × (r : OutboxEvent) × (find (is_monitor_event f.deployment_id e.event_id) o.events
              ≡ some r)
          × (text_eq r.payload_hash (identity_hash p e) ≡ true)
          × (o' ≡ o))
        ⊎ ((any (clashes p f e) o.events ≡ false) × (o'.events ≡ event_row p f now e ∷ o.events))
  unfolding insert_outbox_event
  insert_outbox_event_cases e o o' h = elim (Bool-cases (any (clashes p f e) o.events)) [
    | inl taken ↦
        elim (Option-cases (find (is_monitor_event f.deployment_id e.event_id) o.events)) [
          | inl x ↦ ground arith
          | inr (r, x) ↦ inl (taken, r, x, ground arith, ground arith)
        ]
    | inr free ↦ inr (
      free,
      ground (
        arith,
        events-insert_targets e e.targets (record o { events = event_row p f now e ∷ o.events }) o',
      ),
    )
  ]

  -- What the outbox holds under an event ID stays when another event, or the same, is inserted.
  find-insert_outbox_event :
      (e : EventInput) (o o' : Outbox) (id event : Text) (r : OutboxEvent)
      → insert_outbox_event p bindings f now e o ≡ ok o'
      → find (is_monitor_event id event) o.events ≡ some r
      → find (is_monitor_event id event) o'.events ≡ some r
  unfolding find
  find-insert_outbox_event e o o' id event r h found = elim (insert_outbox_event_cases e o o' h) [
    | inl (_, x, _, _, same) ↦ ground arith
    | inr (free, more) ↦ elim (Bool-cases (is_monitor_event id event (event_row p f now e))) [
      | inl same ↦
          let here = eq_of_text_eq f.deployment_id id (ground arith) in
          let this = eq_of_text_eq e.event_id event (ground arith) in
          let held = rw (← here, ← this) at found in
          absurd (
            ground (
              arith,
              any_of_find (is_monitor_event f.deployment_id e.event_id) (clashes p f e) o.events r
                  (λ a m. ground arith) held,
            ))
      | inr other ↦ ground arith
    ]
  ]

  -- What the outbox holds under an event ID is not changed by a frame.
  pub find-insert_events :
      (es : List EventInput) (o o' : Outbox) (id event : Text) (r : OutboxEvent)
      → insert_events p bindings f now es o ≡ ok o'
      → find (is_monitor_event id event) o.events ≡ some r
      → find (is_monitor_event id event) o'.events ≡ some r
  unfolding insert_events
  find-insert_events [] o o' id event r h found = ground arith
  find-insert_events (e ∷ es) o o' id event r h found =
      let (o₁, first, rest) =
        chain_parts (insert_outbox_event p bindings f now e o) (insert_events p bindings f now es)
          h in
      find-insert_events es o₁ o' id event r rest
        (find-insert_outbox_event e o o₁ id event r first found)

  abbrev pub IsAmong : EventInput → List EventInput → Type 0
  IsAmong x [] = ⊥
  IsAmong x (e ∷ es) = (x ≡ e) ⊎ IsAmong x es

  -- The row that stands for an event of the frame: its message is stamped with the time of the frame,
  -- and its digest is that of the message as the worker sent it.
  abbrev pub IsRowOf : EventInput → OutboxEvent → Type 0
  IsRowOf x r =
      (r.payload ≡ p.marshal (record x.message { time = now }))
      × (r.payload_hash ≡ p.sha256 (p.marshal x.message))
      × (r.outbox_id ≡ x.outbox_id)
      × (r.event_id ≡ x.event_id)
      × (r.deployment_id ≡ f.deployment_id)
      × (r.generation ≡ f.generation)
      × (r.transaction_seq ≡ some f.sequence)
      × (r.created_at ≡ now)

  -- The outbox `o'` holds the event under its ID, with the digest of its content: in the row that `o`
  -- held, or in the row of an event of the frame with the same ID.
  abbrev pub IsRecorded : Outbox → List EventInput → Outbox → EventInput → Type 0
  IsRecorded o es o' e =
      (r : OutboxEvent) × (find (is_monitor_event f.deployment_id e.event_id) o'.events ≡ some r)
      × (text_eq r.payload_hash (p.sha256 (p.marshal e.message)) ≡ true)
      × ((find (is_monitor_event f.deployment_id e.event_id) o.events ≡ some r)
          ⊎ ((x : EventInput) × IsAmong x es × (x.event_id ≡ e.event_id) × IsRowOf x r))

  event_row-IsRowOf : (e : EventInput) → IsRowOf e (event_row p f now e)
  unfolding identity_hash
  event_row-IsRowOf e = (refl, refl, refl, refl, refl, refl, refl, refl)

  insert_outbox_event-IsRecorded :
      (e : EventInput) (es : List EventInput) (o o' : Outbox)
      → insert_outbox_event p bindings f now e o ≡ ok o'
      → IsRecorded o (e ∷ es) o' e
  unfolding find identity_hash
  insert_outbox_event-IsRecorded e es o o' h = elim (insert_outbox_event_cases e o o' h) [
    | inl (_, r, x, same, unchanged) ↦ (r, ground arith, same, inl x)
    | inr (free, more) ↦ (
      event_row p f now e,
      ground (arith, more, text_eq_refl f.deployment_id, text_eq_refl e.event_id),
      text_eq_refl (identity_hash p e),
      inr (e, inl refl, refl, event_row-IsRowOf e),
    )
  ]

  -- What the outbox holds after one insertion was there before, or is the new row.
  find-before :
      (e : EventInput) (o o' : Outbox) (event : Text) (r : OutboxEvent)
      → insert_outbox_event p bindings f now e o ≡ ok o'
      → find (is_monitor_event f.deployment_id event) o'.events ≡ some r
      → (find (is_monitor_event f.deployment_id event) o.events ≡ some r)
        ⊎ ((e.event_id ≡ event) × (event_row p f now e ≡ r))
  unfolding find
  find-before e o o' event r h found = elim (insert_outbox_event_cases e o o' h) [
    | inl (_, x, _, _, same) ↦ inl (ground arith)
    | inr (free, more) ↦
        elim (Bool-cases (is_monitor_event f.deployment_id event (event_row p f now e))) [
          | inl mine ↦ inr (eq_of_text_eq e.event_id event (ground arith), ground (arith, more))
          | inr other ↦ inl (ground (arith, more))
        ]
  ]

  IsRecorded-cons :
      (e y : EventInput) (es : List EventInput) (o o₁ o' : Outbox)
      → insert_outbox_event p bindings f now e o ≡ ok o₁
      → IsRecorded o₁ es o' y
      → IsRecorded o (e ∷ es) o' y
  IsRecorded-cons e y es o o₁ o' h (r, found, same, inl held) =
      elim (find-before e o o₁ y.event_id r h held) [
        | inl before ↦ (r, found, same, inl before)
        | inr (id, row) ↦
            (r, found, same, inr (e, inl refl, id, subst (IsRowOf e) row (event_row-IsRowOf e)))
      ]
  IsRecorded-cons e y es o o₁ o' h (r, found, same, inr (x, among, id, row)) =
      (r, found, same, inr (x, inr among, id, row))

  -- Every event of a frame that is written is held under its ID, in a row with the digest of its
  -- message: the row was there before, or it is the row of an event of the frame with the same ID,
  -- with the whole message of that event, stamped with the time of the frame, and with the
  -- deployment, the generation and the sequence of the frame.
  pub insert_events-IsRecorded :
      (es : List EventInput) (o o' : Outbox)
      → insert_events p bindings f now es o ≡ ok o'
      → All (IsRecorded o es o') es
  unfolding insert_events
  insert_events-IsRecorded [] o o' h = tt
  insert_events-IsRecorded (e ∷ es) o o' h =
      let (o₁, first, rest) =
        chain_parts (insert_outbox_event p bindings f now e o) (insert_events p bindings f now es)
          h in
      let (r, found, same, origin) = insert_outbox_event-IsRecorded e es o o₁ first in
      (
        (r, find-insert_events es o₁ o' f.deployment_id e.event_id r rest found, same, origin),
        All-imp (IsRecorded o₁ es o') (IsRecorded o (e ∷ es) o') es
            (λ y. IsRecorded-cons e y es o o₁ o' first) (insert_events-IsRecorded es o₁ o' rest),
      )
