-- ===== src/Storage/Outbox.antt =====
-- internal/storage/outbox.go: leases on deliveries, and their settlement. SQLite's row IDs are the
-- primary key (outbox_id, destination_id) here, and rows that ORDER BY leaves in any order keep the
-- order of the table. The random claim ID and the time are arguments.
pub mod Leases
pub mod Claims
pub mod Histories
use monitord.Base.{
  ℕ, suc, ◌+◌, Text, codes, Bool, true, false, not, ◌&&◌, ◌||◌, Option, none, some, List, [], ◌∷◌,
  ◌++◌, ◌==◌, ltb, leb, if◌then◌else◌, text_eq, any, take, length, Result, ok, err, ◌>>=◌, ◌>>◌,
  guard, or_fail,
}
use monitord.Base.Table.{find, update, select, count}
use monitord.Utf8.{bounded_text}
use monitord.Storage.Schema.{
  Error, lease_lost, not_found, invalid, Deployment, Binding, OutboxEvent, OutboxDelivery,
  DeliveryStatus, pending, sending, delivered, dead, Outbox, Store, has_id,
}
use monitord.Storage.Frames.{is_blank}
use monitord.Storage.Health.{max_stored_error_bytes}

pub record ClaimedDelivery : Type 0 where
  pub outbox_id : Text
  pub deployment_id : Text
  pub deployment_name : Text
  pub destination_id : Text
  pub destination_revision : ℕ
  pub message_payload : Text
  pub destination_config : Text
  pub attempt_count : ℕ
  pub lease_owner : Text
  pub lease_expires_at : ℕ
  pub created_at : ℕ

abbrev pub is_sending : DeliveryStatus → Bool
is_sending sending = true
is_sending _ = false

abbrev pub is_delivered : DeliveryStatus → Bool
is_delivered delivered = true
is_delivered _ = false

abbrev pub is_dead : DeliveryStatus → Bool
is_dead dead = true
is_dead _ = false

abbrev pub reached : Option ℕ → ℕ → Bool
reached none now = false
reached (some t) now = leb t now

-- (status='pending' AND next_attempt_at<=now) OR (status='sending' AND lease_expires_at<=now).
abbrev pub is_ready : ℕ → OutboxDelivery → Bool
is_ready now d = elim d.status [
  | pending ↦ leb d.next_attempt_at now
  | sending ↦ reached d.lease_expires_at now
  | _ ↦ false
]

abbrev pub is_row : Text → Text → OutboxDelivery → Bool
is_row outbox destination d = text_eq d.outbox_id outbox && text_eq d.destination_id destination

-- ORDER BY next_attempt_at.
unfoldable pub insert_by_attempt : OutboxDelivery → List OutboxDelivery → List OutboxDelivery
insert_by_attempt d [] = d ∷ []
insert_by_attempt d (e ∷ es) =
    let rest = insert_by_attempt d es in
    if leb d.next_attempt_at e.next_attempt_at then d ∷ e ∷ es else e ∷ rest

unfoldable pub sort_by_attempt : List OutboxDelivery → List OutboxDelivery
unfolding insert_by_attempt
sort_by_attempt [] = []
sort_by_attempt (d ∷ ds) = insert_by_attempt d (sort_by_attempt ds)

-- The rows that a claim leases: the ready ones that come first, at most `limit`.
unfoldable pub chosen : ℕ → ℕ → List OutboxDelivery → List OutboxDelivery
unfolding sort_by_attempt
chosen now limit ds = take limit (sort_by_attempt (select (is_ready now) ds))

abbrev pub is_among : List OutboxDelivery → OutboxDelivery → Bool
is_among rows d = any (λ r. is_row r.outbox_id r.destination_id d) rows

abbrev pub lease : Text → ℕ → OutboxDelivery → OutboxDelivery
lease owner expires d = record d {
  status = sending;
  lease_owner = some owner;
  lease_expires_at = some expires;
}

abbrev pub owned_by : Option Text → Text → Bool
owned_by none owner = false
owned_by (some o) owner = text_eq o owner

abbrev pub expires_at : Option ℕ → ℕ → Bool
expires_at none t = false
expires_at (some e) t = e == t

-- The row joined with its event, its deployment and its binding.
claimed_row : Store → Text → ℕ → OutboxDelivery → Option ClaimedDelivery
claimed_row s owner expires d =
    let event =
      find (λ e. text_eq e.outbox_id d.outbox_id && text_eq e.deployment_id d.deployment_id)
        s.outbox.events in
    let binding =
      find
        (λ b.
          text_eq b.deployment_id d.deployment_id
          && (text_eq b.id d.destination_id && b.revision == d.destination_revision))
        s.bindings in
    elim event [
      | none ↦ none
      | some e ↦ elim (find (has_id e.deployment_id) s.deployments) [
        | none ↦ none
        | some p ↦ elim binding [
          | none ↦ none
          | some b ↦ some (record {
            outbox_id = d.outbox_id;
            deployment_id = e.deployment_id;
            deployment_name = p.name;
            destination_id = d.destination_id;
            destination_revision = d.destination_revision;
            message_payload = e.payload;
            destination_config = b.config;
            attempt_count = d.attempt_count;
            lease_owner = owner;
            lease_expires_at = expires;
            created_at = e.created_at;
          })
        ]
      ]
    ]

collect : Store → Text → ℕ → List OutboxDelivery → List ClaimedDelivery
unfolding claimed_row
collect s owner expires [] = []
collect s owner expires (d ∷ ds) =
    let rest = collect s owner expires ds in
    elim (claimed_row s owner expires d) [ none ↦ rest | some c ↦ c ∷ rest ]

abbrev pub set_deliveries : List OutboxDelivery → Store → Store
set_deliveries ds s = record s { outbox = record s.outbox { deliveries = ds } }

abbrev pub claim_owner : Text → Text → Text
claim_owner owner claim_id = owner ++ (codes ":" ++ claim_id)

-- `ClaimOutbox`.
unfoldable pub claim_outbox :
    Text → Text → ℕ → ℕ → ℕ → Store → Result Error (List ClaimedDelivery × Store)
unfolding chosen collect
claim_outbox owner claim_id now duration limit s =
    let name = claim_owner owner claim_id in
    let expires = now + duration in
    let rows = chosen now limit s.outbox.deliveries in
    let s' = set_deliveries (update (is_among rows) (lease name expires) s.outbox.deliveries) s in
    let mine = λ (d : OutboxDelivery).
      is_sending d.status
      && (owned_by d.lease_owner name && expires_at d.lease_expires_at expires) in
    do
      guard (not (is_blank owner || (duration == 0 || limit == 0))) invalid
      ok (
          if count (is_among rows) s.outbox.deliveries == 0
          then ([], s)
          else (collect s' name expires (sort_by_attempt (select mine s'.outbox.deliveries)), s'))

-- WHERE outbox_id=? AND destination_id=? AND status='sending' AND lease_owner=?.
abbrev pub is_leased : Text → Text → Text → OutboxDelivery → Bool
is_leased outbox destination owner d =
    is_row outbox destination d && (is_sending d.status && owned_by d.lease_owner owner)

-- `finishDelivery`, and the statement of `DeferDelivery`.
unfoldable pub finish_delivery :
    Text → Text → Text → (OutboxDelivery → OutboxDelivery) → Store → Result Error Store
finish_delivery outbox destination owner set s =
    let target = is_leased outbox destination owner in
    do
      guard (count target s.outbox.deliveries == 1) lease_lost
      ok (set_deliveries (update target set s.outbox.deliveries) s)

abbrev pub set_delivered : ℕ → OutboxDelivery → OutboxDelivery
set_delivered now d = record d {
  status = delivered;
  delivered_at = some now;
  lease_owner = none;
  lease_expires_at = none;
  last_error = [];
}

abbrev pub set_deferred : ℕ → OutboxDelivery → OutboxDelivery
set_deferred at d = record d {
  status = pending;
  next_attempt_at = at;
  lease_owner = none;
  lease_expires_at = none;
}

abbrev pub set_dead : Text → ℕ → OutboxDelivery → OutboxDelivery
set_dead message now d = record d {
  status = dead;
  attempt_count = d.attempt_count + 1;
  dead_at = some now;
  lease_owner = none;
  lease_expires_at = none;
  last_error = message;
}

abbrev pub set_retry : Text → ℕ → OutboxDelivery → OutboxDelivery
set_retry message at d = record d {
  status = pending;
  attempt_count = d.attempt_count + 1;
  next_attempt_at = at;
  lease_owner = none;
  lease_expires_at = none;
  last_error = message;
}

unfoldable pub mark_delivered : Text → Text → Text → ℕ → Store → Result Error Store
unfolding finish_delivery
mark_delivered outbox destination owner now s =
    finish_delivery outbox destination owner (set_delivered now) s

unfoldable pub defer_delivery : Text → Text → Text → ℕ → Store → Result Error Store
unfolding finish_delivery
defer_delivery outbox destination owner at s =
    finish_delivery outbox destination owner (set_deferred at) s

-- `MarkDeliveryFailed`.
unfoldable pub mark_delivery_failed :
    Text → Text → Text → Text → ℕ → ℕ → ℕ → Store → Result Error Store
unfolding finish_delivery
mark_delivery_failed outbox destination owner error now at max_attempts s =
    let message = bounded_text error max_stored_error_bytes in
    do
      guard (not (ltb max_attempts 1)) invalid
      d ← or_fail (find (is_leased outbox destination owner) s.outbox.deliveries) lease_lost
      if leb max_attempts (d.attempt_count + 1)
          then finish_delivery outbox destination owner (set_dead message now) s
          else finish_delivery outbox destination owner (set_retry message at) s

abbrev pub revive : ℕ → OutboxDelivery → OutboxDelivery
revive now d = record d {
  status = pending;
  attempt_count = 0;
  next_attempt_at = now;
  dead_at = none;
  last_error = [];
}

-- `RetryDeadDelivery`.
unfoldable pub retry_dead_delivery : Text → Text → ℕ → Store → Result Error Store
retry_dead_delivery outbox destination now s =
    let target = λ (d : OutboxDelivery). is_row outbox destination d && is_dead d.status in
    do
      guard (count target s.outbox.deliveries == 1) not_found
      ok (set_deliveries (update target (revive now) s.outbox.deliveries) s)
