-- ===== src/Storage/Health/Latch.antt =====
-- The failure counter and the notification latch of a deployment, against an automaton.
use monitord.Base.{
  ℕ, ◌+◌, ◌≤◌, ◌<◌, Text, ap, ◌≡◌, refl, inl, inr, Bool, true, false, not, ◌&&◌, ◌==◌, Option, none,
  some, List, [], ◌∷◌, arith, leb, text_eq, Option-cases, if◌then◌else◌, ok, chain_parts, ◌/◌,
}
use monitord.Base.Table.{find, count, find-update, find_sound, find_affected}
use monitord.Utf8.{bounded_text}
use monitord.Storage.Schema.{
  Platform, Deployment, is_active, Health, RunStatus, success, failure, deferred, Store, has_id,
  is_health,
}
use monitord.Storage.Health.{
  RunOutcome, Transition, became_unhealthy, recovered, monitored, is_health_of, update_health,
  notify_if, settle_run, record_run, defer_health, succeed_health, fail_health, finish_time,
  max_stored_error_bytes,
}

-- The counter and the latch. A success clears both and reports a recovery if the latch was set;
-- the failure that reaches the threshold sets the latch and reports once.
pub record Alarm : Type 0 where
  pub failures : ℕ
  pub latched : Bool

abbrev pub alarm_of : Health → Alarm
alarm_of h = record { failures = h.consecutive_failures; latched = h.unhealthy_notified }

unfoldable pub step_alarm : ℕ → Alarm → RunStatus → Alarm × Option Transition
step_alarm threshold a deferred = (a, none)
step_alarm threshold a success =
    (record { failures = 0; latched = false }, if a.latched then some recovered else none)
step_alarm threshold a failure =
    let reached = not a.latched && leb threshold (a.failures + 1) in
    (
      record { failures = a.failures + 1; latched = if reached then true else a.latched },
      if reached then some became_unhealthy else none,
    )

-- The health row after an update of the rows of one generation.
update_health-row :
    (id : Text) (n : ℕ) (f : Health → Health) (s s' : Store) (h : Health)
    → ((h : Health) → (f h).deployment_id ≡ h.deployment_id)
    → count (is_health id) s.health ≤ 1
    → find (is_health id) s.health ≡ some h
    → update_health id n f s ≡ ok s'
    → find (is_health id) s'.health ≡ some (f h)
unfolding update_health
update_health-row id n f s s' h keeps unique found e =
    let after =
      find-update (is_health_of id n) (is_health id) f s.health
        (λ r. ap (λ (x : Text). text_eq x id) (keeps r)) in
    let key = find_sound (is_health id) s.health h found in
    let mine =
      find_affected (is_health id) (λ h. h.generation == n) s.health h unique (ground arith)
        found in
    ground (arith, after)

-- The health row after a notification that is queued if `b` holds.
notify_if-row :
    (b : Bool) (p : Platform) (id name : Text) (n : ℕ) (t : Transition) (failures at : ℕ)
    (outbox_id : Text) (s s' : Store) (h : Health) (out : Option Transition)
    → find (is_health id) s.health ≡ some h
    → notify_if b p id name n t failures at outbox_id s ≡ ok (out, s')
    → (h' : Health) × (find (is_health id) s'.health ≡ some h')
      × (h'.consecutive_failures ≡ h.consecutive_failures)
      × (h'.unhealthy_notified ≡ (
          if b
          then elim t [ became_unhealthy ↦ true | recovered ↦ false ]
          else h.unhealthy_notified))
      × (out ≡ (if b then some t else none))
unfolding notify_if
notify_if-row false p id name n t failures at outbox_id s s' h out found e =
    (h, ground arith, refl, refl, ground arith)
notify_if-row true p id name n became_unhealthy failures at outbox_id s s' h out found e =
    let after =
      find-update (is_health id) (is_health id) (λ h. record h { unhealthy_notified = true })
        s.health (λ _. refl) in
    (
      record h { unhealthy_notified = true },
      ground (arith, after, find_sound (is_health id) s.health h found),
      refl,
      refl,
      ground arith,
    )
notify_if-row true p id name n recovered failures at outbox_id s s' h out found e =
    let after =
      find-update (is_health id) (is_health id) (λ h. record h { unhealthy_notified = false })
        s.health (λ _. refl) in
    (
      record h { unhealthy_notified = false },
      ground (arith, after, find_sound (is_health id) s.health h found),
      refl,
      refl,
      ground arith,
    )

-- What a recorded run does to the health row, as the automaton says.
abbrev pub Follows : ℕ → Health → RunStatus → Option Transition → Text → Store → Type 0
Follows threshold h status out id s' =
    (h' : Health) × (find (is_health id) s'.health ≡ some h')
    × ((alarm_of h', out) ≡ step_alarm threshold (alarm_of h) status)

settle_run-Follows :
    (p : Platform) (o : RunOutcome) (error outbox_id : Text) (now : ℕ) (d : Deployment) (h : Health)
    (status : RunStatus) (s s' : Store) (out : Option Transition)
    → count (is_health o.deployment_id) s.health ≤ 1
    → find (is_health o.deployment_id) s.health ≡ some h
    → settle_run p o error outbox_id now (d, h) status s ≡ ok (out, s')
    → Follows d.failure_threshold h status out o.deployment_id s'
unfolding settle_run step_alarm
settle_run-Follows p o error outbox_id now d h deferred s s' out unique found e =
    let move = defer_health d.failure_threshold now in
    let (s₁, u, e₁) =
      chain_parts (update_health o.deployment_id o.generation move s) (λ s'. ok (none, s')) e in
    let row =
      update_health-row o.deployment_id o.generation move s s₁ h (λ _. refl) unique found u in
    (move h, ground arith, ground arith)
settle_run-Follows p o error outbox_id now d h success s s' out unique found e =
    let move = succeed_health o.generation now (o.duration / 1000000) in
    let (s₁, u, e₁) =
      chain_parts (update_health o.deployment_id o.generation move s)
        (notify_if h.unhealthy_notified p o.deployment_id d.name o.generation recovered 0 now
          outbox_id)
        e in
    let row =
      update_health-row o.deployment_id o.generation move s s₁ h (λ _. refl) unique found u in
    let (h', there, same, latch, told) =
      notify_if-row h.unhealthy_notified p o.deployment_id d.name o.generation recovered 0 now
        outbox_id s₁ s' (move h) out row e₁ in
    (h', there, ground arith)
settle_run-Follows p o error outbox_id now d h failure s s' out unique found e =
    let move = fail_health o.generation d.failure_threshold now (o.duration / 1000000) error in
    let reached =
      not h.unhealthy_notified && leb d.failure_threshold (h.consecutive_failures + 1) in
    let (s₁, u, e₁) =
      chain_parts (update_health o.deployment_id o.generation move s)
        (notify_if reached p o.deployment_id d.name o.generation became_unhealthy
          (h.consecutive_failures + 1) now outbox_id)
        e in
    let row =
      update_health-row o.deployment_id o.generation move s s₁ h (λ _. refl) unique found u in
    let (h', there, same, latch, told) =
      notify_if-row reached p o.deployment_id d.name o.generation became_unhealthy
        (h.consecutive_failures + 1) now outbox_id s₁ s' (move h) out row e₁ in
    (h', there, ground arith)

monitored-found :
    (id : Text) (s : Store) (d : Deployment) (h : Health)
    → monitored id s ≡ some (d, h)
    → (find (λ d. has_id id d && is_active d.status) s.deployments ≡ some d)
      × (find (is_health id) s.health ≡ some h)
unfolding monitored
monitored-found id s d h e = ground arith

-- A recorded run moves the counter, the latch and the reported transition of its deployment as the
-- automaton does under the deployment's threshold, where each deployment has one health row.
pub record_run-Follows :
    (p : Platform) (o : RunOutcome) (outbox_id : Text) (now : ℕ) (s s' : Store)
    (out : Option Transition)
    → count (is_health o.deployment_id) s.health ≤ 1
    → record_run p o outbox_id now s ≡ ok (out, s')
    → (d : Deployment) × (h : Health) × (find
          (λ d. has_id o.deployment_id d && is_active d.status)
          s.deployments
        ≡ some d)
      × (find (is_health o.deployment_id) s.health ≡ some h)
      × (d.active_generation ≡ o.generation)
      × Follows d.failure_threshold h o.status out o.deployment_id s'
unfolding record_run
record_run-Follows p o outbox_id now s s' out unique e =
    elim (Option-cases (monitored o.deployment_id s)) [
      | inl missing ↦ absurd (ground arith)
      | inr ((d, h), row) ↦
          let (active_row, health_row) = monitored-found o.deployment_id s d h row in
          (
            d,
            h,
            active_row,
            health_row,
            ground arith,
            settle_run-Follows p o (bounded_text o.error max_stored_error_bytes) outbox_id
                (finish_time o now) d h o.status s s' out unique health_row (ground arith),
          )
    ]

-- Reports alternate: a recovery follows an alarm, and an alarm a recovery.
pub data Alternates : Bool → List Transition → Type 0 where
  quiet : (b : Bool) → Alternates b []
  alarm : {ts : List Transition} → Alternates true ts → Alternates false (became_unhealthy ∷ ts)
  recovery : {ts : List Transition} → Alternates false ts → Alternates true (recovered ∷ ts)

abbrev report_first : Option Transition → List Transition → List Transition
report_first none ts = ts
report_first (some t) ts = t ∷ ts

-- The reports of a sequence of runs.
unfoldable pub reports : ℕ → Alarm → List RunStatus → List Transition
reports threshold a [] = []
reports threshold a (r ∷ rs) =
    let (a', t) = step_alarm threshold a r in
    let rest = reports threshold a' rs in report_first t rest

success-Alternates :
    (b : Bool) (ts : List Transition)
    → Alternates false ts
    → Alternates b (report_first (if b then some recovered else none) ts)
success-Alternates true ts h = recovery h
success-Alternates false ts h = h

failure-Alternates :
    (b reached : Bool) (ts : List Transition)
    → Alternates (if not b && reached then true else b) ts
    → Alternates b (report_first (if not b && reached then some became_unhealthy else none) ts)
failure-Alternates false true ts h = alarm h
failure-Alternates false false ts h = h
failure-Alternates true reached ts h = h

-- Whatever the outcomes, alarms and recoveries alternate, from the latch as it stands.
reports-Alternates :
    (threshold : ℕ) (a : Alarm) (rs : List RunStatus)
    → Alternates a.latched (reports threshold a rs)
unfolding reports step_alarm
reports-Alternates threshold a [] = quiet a.latched
reports-Alternates threshold a (deferred ∷ rs) = reports-Alternates threshold a rs
reports-Alternates threshold a (success ∷ rs) =
    success-Alternates a.latched _
      (reports-Alternates threshold (step_alarm threshold a success).0 rs)
reports-Alternates threshold a (failure ∷ rs) =
    failure-Alternates a.latched (leb threshold (a.failures + 1)) _
      (reports-Alternates threshold (step_alarm threshold a failure).0 rs)

-- The latch is set if the counter is at the threshold or above.
abbrev pub IsAlarmed : ℕ → Alarm → Type 0
IsAlarmed threshold a = threshold ≤ a.failures → a.latched ≡ true

-- Under a positive threshold every outcome keeps that a counter at the threshold or above has its
-- latch set: no run reaches the threshold without its alarm.
step_alarm-IsAlarmed :
    (threshold : ℕ) (a : Alarm) (r : RunStatus)
    → 0 < threshold
    → IsAlarmed threshold a
    → IsAlarmed threshold (step_alarm threshold a r).0
unfolding step_alarm
step_alarm-IsAlarmed threshold a r pos h = ground (arith)
