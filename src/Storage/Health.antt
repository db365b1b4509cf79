-- ===== src/Storage/Health.antt =====
-- internal/storage/health.go: the operational state of a deployment, and the notifications that
-- its changes queue. A random outbox ID and the time are arguments.
pub mod Latch
use monitord.Base.{
  ℕ, ◌+◌, ◌*◌, ◌/◌, Text, codes, Bool, true, false, not, ◌&&◌, ◌||◌, Option, none, some, List, [],
  ◌∷◌, ◌++◌, map, ◌==◌, ltb, leb, if◌then◌else◌, coalesce, is_some, text_eq, any, decimal, Result,
  ok, err, ◌>>=◌, ◌>>◌, guard, or_fail,
}
use monitord.Base.Table.{find, update, select, count}
use monitord.Utf8.{bounded_text}
use monitord.Storage.Schema.{
  Error, generation_fenced, invalid, constraint, concurrent_mutation, Message, Platform, Deployment,
  is_active, Generation, HealthStatus, starting, healthy, failing, unhealthy, stopped, RunStatus,
  success, failure, deferred, Health, Binding, OutboxEvent, OutboxDelivery, pending, Store, has_id,
  is_generation, is_health,
}
use monitord.Storage.Frames.{is_blank}
use monitord.Storage.Generations.{or_reason}

abbrev pub max_stored_error_bytes : ℕ
max_stored_error_bytes = 16384

-- `duration` is in nanoseconds. A negative duration, which the source refuses, has no number here.
pub record RunOutcome : Type 0 where
  pub deployment_id : Text
  pub generation : ℕ
  pub status : RunStatus
  pub duration : ℕ
  pub error : Text
  pub finished_at : Option ℕ

pub data Transition : Type 0 where
  became_unhealthy recovered : Transition

-- WHERE deployment_id=? AND generation=?.
abbrev pub is_health_of : Text → ℕ → Health → Bool
is_health_of id n h = is_health id h && h.generation == n

-- The active deployment joined with its health.
unfoldable pub monitored : Text → Store → Option (Deployment × Health)
monitored id s = elim (find (λ d. has_id id d && is_active d.status) s.deployments) [
  | none ↦ none
  | some d ↦ elim (find (is_health id) s.health) [ none ↦ none | some h ↦ some (d, h) ]
]

abbrev mark_notified : Bool → Health → Health
mark_notified b h = record h { unhealthy_notified = b }

abbrev notice : Transition → Text → ℕ → ℕ → Message
notice t name failures at = record {
  title = elim t [
    | became_unhealthy ↦ codes "Monitor unhealthy"
    | recovered ↦ codes "Monitor recovered"
  ];
  message = elim t [
    | became_unhealthy ↦
        codes "The monitor has failed " ++ (decimal failures ++ codes " consecutive times.")
    | recovered ↦ codes "The monitor is healthy again."
  ];
  summary = [];
  details = [];
  url = [];
  image = [];
  thumbnail = [];
  author = record { name = []; url = []; icon_url = [] };
  level = elim t [ became_unhealthy ↦ codes "failure" | recovered ↦ codes "success" ];
  color = 0;
  fields = [];
  footer = name;
  footer_icon = [];
  mentions = some [];
  time = at;
}

abbrev is_unhealthy_notice : Transition → Bool
is_unhealthy_notice became_unhealthy = true
is_unhealthy_notice recovered = false

abbrev pub notice_id : Transition → Text → Text
notice_id became_unhealthy outbox_id = codes "unhealthy" ++ (codes ":" ++ outbox_id)
notice_id recovered outbox_id = codes "recovered" ++ (codes ":" ++ outbox_id)

abbrev pub notice_event : Platform → Text → Text → ℕ → Transition → ℕ → Text → ℕ → OutboxEvent
notice_event p id name n t failures outbox_id at =
    let payload = p.marshal (notice t name failures at) in
    record {
      outbox_id = outbox_id;
      deployment_id = id;
      generation = n;
      transaction_seq = none;
      event_id = notice_id t outbox_id;
      payload = payload;
      payload_hash = p.sha256 payload;
      created_at = at;
    }

abbrev pub notice_delivery : Text → ℕ → Binding → OutboxDelivery
notice_delivery outbox_id at b = record {
  outbox_id = outbox_id;
  deployment_id = b.deployment_id;
  destination_id = b.id;
  destination_revision = b.revision;
  status = pending;
  attempt_count = 0;
  next_attempt_at = at;
  lease_owner = none;
  lease_expires_at = none;
  delivered_at = none;
  last_error = [];
  dead_at = none;
}

-- WHERE deployment_id=? AND retired_at IS NULL.
abbrev pub is_bound : Text → Binding → Bool
is_bound id b = text_eq b.deployment_id id && not (is_some b.retired_at)

-- The outbox ID is new, so the INSERT of the deliveries meets no duplicate key.
unfoldable pub enqueue_notice :
    Platform → Text → Text → ℕ → Transition → ℕ → ℕ → Text → Store → Result Error Store
enqueue_notice p id name n t failures at outbox_id s = do
  guard
      (not (
        any
          (λ e.
            text_eq e.outbox_id outbox_id
            || (text_eq e.deployment_id id
                && (not (is_some e.transaction_seq) && text_eq e.event_id (notice_id t outbox_id))))
          s.outbox.events))
      constraint
  ok (record s {
    health = update (is_health id) (mark_notified (is_unhealthy_notice t)) s.health;
    outbox = record {
      events = notice_event p id name n t failures outbox_id at ∷ s.outbox.events;
      deliveries =
          map (notice_delivery outbox_id at) (select (is_bound id) s.bindings)
          ++ s.outbox.deliveries;
    };
  })

-- CASE WHEN failures>=threshold THEN 'unhealthy' ELSE 'failing' END.
abbrev pub failed_status : ℕ → ℕ → HealthStatus
failed_status threshold failures = if leb threshold failures then unhealthy else failing

abbrev pub defer_health : ℕ → ℕ → Health → Health
defer_health threshold now h = record h {
  status =
      if leb threshold h.consecutive_failures
      then unhealthy
      else if ltb 0 h.consecutive_failures
      then failing
      else h.status;
  updated_at = now;
}

abbrev pub succeed_health : ℕ → ℕ → ℕ → Health → Health
succeed_health n now duration h = record h {
  generation = n;
  status = healthy;
  consecutive_failures = 0;
  last_run_status = some success;
  last_run_at = some now;
  last_duration_ms = some duration;
  last_success_at = some now;
  last_error = [];
  updated_at = now;
}

abbrev pub fail_health : ℕ → ℕ → ℕ → ℕ → Text → Health → Health
fail_health n threshold now duration error h = record h {
  generation = n;
  status = failed_status threshold (h.consecutive_failures + 1);
  consecutive_failures = h.consecutive_failures + 1;
  last_run_status = some failure;
  last_run_at = some now;
  last_duration_ms = some duration;
  last_failure_at = some now;
  last_error = error;
  updated_at = now;
}

-- An UPDATE of the health row of one generation that must affect one row.
unfoldable pub update_health : Text → ℕ → (Health → Health) → Store → Result Error Store
update_health id n f s = do
  guard (count (is_health_of id n) s.health == 1) concurrent_mutation
  ok (record s { health = update (is_health_of id n) f s.health })

abbrev Recorded : Type 0
Recorded = Result Error (Option Transition × Store)

-- A notification is queued if the test asks for one.
unfoldable pub notify_if :
    Bool → Platform → Text → Text → ℕ → Transition → ℕ → ℕ → Text → Store → Recorded
unfolding enqueue_notice
notify_if false p id name n t failures at outbox_id s = ok (none, s)
notify_if true p id name n t failures at outbox_id s = do
  s' ← enqueue_notice p id name n t failures at outbox_id s
  ok (some t, s')

-- The three kinds of outcome, against the rows that were read first.
unfoldable pub settle_run :
    Platform → RunOutcome → Text → Text → ℕ → Deployment × Health → RunStatus → Store → Recorded
unfolding update_health notify_if
settle_run p o error outbox_id now (d, h) deferred s = do
  s' ← update_health o.deployment_id o.generation (defer_health d.failure_threshold now) s
  ok (none, s')
settle_run p o error outbox_id now (d, h) success s = do
  s' ←
      update_health o.deployment_id o.generation
        (succeed_health o.generation now (o.duration / 1000000)) s
  notify_if h.unhealthy_notified p o.deployment_id d.name o.generation recovered 0 now outbox_id s'
settle_run p o error outbox_id now (d, h) failure s =
    let failures = h.consecutive_failures + 1 in
    do
      s' ←
          update_health o.deployment_id o.generation
            (fail_health o.generation d.failure_threshold now (o.duration / 1000000) error) s
      notify_if (not h.unhealthy_notified && leb d.failure_threshold failures) p o.deployment_id
          d.name o.generation became_unhealthy failures now outbox_id s'

abbrev is_success : RunStatus → Bool
is_success success = true
is_success _ = false

abbrev pub finish_time : RunOutcome → ℕ → ℕ
finish_time o now = elim o.finished_at [ none ↦ now | some t ↦ t ]

-- `RecordRun`.
unfoldable pub record_run : Platform → RunOutcome → Text → ℕ → Store → Recorded
unfolding monitored settle_run
record_run p o outbox_id now s =
    let error = bounded_text o.error max_stored_error_bytes in
    do
      guard (not (is_blank o.deployment_id || ltb o.generation 1)) invalid
      guard (not (is_success o.status && not (is_blank error))) invalid
      row ← or_fail (monitored o.deployment_id s) generation_fenced
      guard (row.0.active_generation == o.generation) generation_fenced
      settle_run p o error outbox_id (finish_time o now) row o.status s

abbrev pub is_starting : HealthStatus → Bool
is_starting starting = true
is_starting _ = false

-- `MarkGenerationStable`.
unfoldable pub mark_stable : Platform → Text → ℕ → Text → ℕ → Store → Recorded
unfolding notify_if
mark_stable p id n outbox_id now s =
    let target = λ (h : Health). is_health_of id n h && is_starting h.status in
    do
      d ←
          or_fail
            (find (λ d. has_id id d && (is_active d.status && d.active_generation == n))
              s.deployments)
            generation_fenced
      h ← or_fail (find target s.health) generation_fenced
      guard (count target s.health == 1) concurrent_mutation
      notify_if h.unhealthy_notified p id d.name n recovered 0 now outbox_id (record s {
        health =
            update target
              (λ h. record h {
                status = healthy;
                consecutive_failures = 0;
                last_error = [];
                updated_at = now;
              })
              s.health;
      })

abbrev pub fail_operation : ℕ → ℕ → ℕ → Text → Health → Health
fail_operation n threshold now cause h = record h {
  generation = n;
  status = failed_status threshold (h.consecutive_failures + 1);
  consecutive_failures = h.consecutive_failures + 1;
  last_failure_at = some now;
  last_error = cause;
  updated_at = now;
}

-- `recordOperationalFailure`: `generation` is given if the failure is fenced by one.
unfoldable pub record_operational_failure :
    Platform → Text → Option ℕ → Text → Text → ℕ → Store → Recorded
unfolding monitored notify_if
record_operational_failure p id generation message outbox_id now s =
    let cause = bounded_text message max_stored_error_bytes in
    do
      guard
          (not (
            is_blank id
            || (is_blank cause || (elim generation [ none ↦ false | some n ↦ ltb n 1 ]))))
          invalid
      row ← or_fail (monitored id s) generation_fenced
      guard (elim generation [ none ↦ true | some n ↦ row.0.active_generation == n ])
          generation_fenced
      let n : ℕ = elim generation [ none ↦ 0 | some _ ↦ row.0.active_generation ]
      let failures = row.1.consecutive_failures + 1
      guard (count (is_health id) s.health == 1) concurrent_mutation
      notify_if (not row.1.unhealthy_notified && leb row.0.failure_threshold failures) p id
          row.0.name n became_unhealthy failures now outbox_id
          (record s {
            health =
                update (is_health id) (fail_operation n row.0.failure_threshold now cause) s.health;
          })

-- `MarkGenerationReady`.
unfoldable pub mark_ready : Text → ℕ → ℕ → Store → Result Error Store
mark_ready id n now s =
    let target =
      λ (g : Generation). is_generation id n g && (g.is_live && not (is_some g.ready_at)) in
    do
      guard (not (is_blank id || ltb n 1)) invalid
      guard (count target s.generations == 1) concurrent_mutation
      guard (count (is_health_of id n) s.health == 1) concurrent_mutation
      ok (record s {
        generations = update target (λ g. record g { ready_at = some now }) s.generations;
        health =
            update (is_health_of id n)
              (λ h. record h { generation = n; status = starting; updated_at = now }) s.health;
      })

-- `MarkGenerationStopped`.
unfoldable pub mark_stopped : Text → ℕ → Text → Text → ℕ → Store → Result Error Store
mark_stopped id n reason message now s =
    let error = bounded_text message max_stored_error_bytes in
    do
      guard (not (is_blank id || ltb n 1)) invalid
      guard (count (is_generation id n) s.generations == 1) concurrent_mutation
      ok (record s {
        generations =
            update (is_generation id n)
              (λ g. record g {
                is_live = false;
                stopped_at = coalesce g.stopped_at now;
                stop_error = or_reason g.stop_error error;
                stop_reason = or_reason g.stop_reason reason;
                retired_at = coalesce g.retired_at now;
              })
              s.generations;
        health =
            update (is_health_of id n)
              (λ h. record h {
                status = if is_blank error then stopped else h.status;
                last_error = if is_blank error then h.last_error else error;
                updated_at = now;
              })
              s.health;
      })
