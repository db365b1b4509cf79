-- ===== src/Storage/Generations.antt =====
-- internal/storage/generations.go: the generation fence of a deployment, and the rows by which it
-- is kept. A random worker token and the time are arguments.
use monitord.Base.{
  ℕ, ◌+◌, Text, codes, Bool, true, false, not, ◌&&◌, ◌||◌, none, some, List, [], ◌∷◌, ◌==◌, ltb,
  if◌then◌else◌, coalesce, text_eq, any, Result, ok, ◌>>=◌, ◌>>◌, guard, or_fail,
}
use monitord.Base.Table.{find, update, count, max_of}
use monitord.Storage.Schema.{
  Error, invalid, concurrent_mutation, config_revision_changed, snapshot_changed, not_found,
  Platform, Deployment, is_active, Generation, Health, HealthStatus, starting, Store, has_id,
  of_deployment, is_generation, is_health,
}
use monitord.Storage.Frames.{is_blank}

pub record Activation : Type 0 where
  pub deployment_id : Text
  pub artifact_id : Text
  pub config_revision : ℕ
  pub state_revision : ℕ
  pub active_generation : ℕ
  pub secret_fingerprint : Text

pub record ActiveGeneration : Type 0 where
  pub deployment_id : Text
  pub generation : ℕ
  pub worker_token : Text

-- stop_reason=CASE WHEN stop_reason='' THEN reason ELSE stop_reason END.
abbrev pub or_reason : Text → Text → Text
or_reason old reason = if is_blank old then reason else old

-- SET status='retired',retired_at=now,stopped_at=COALESCE(stopped_at,now),stop_reason=…
abbrev pub retire : Text → ℕ → Generation → Generation
retire reason now g = record g {
  is_live = false;
  retired_at = some now;
  stopped_at = coalesce g.stopped_at now;
  stop_reason = or_reason g.stop_reason reason;
}

-- The same with retired_at=COALESCE(retired_at,now).
abbrev pub retire_once : Text → ℕ → Generation → Generation
retire_once reason now g = record g {
  is_live = false;
  retired_at = coalesce g.retired_at now;
  stopped_at = coalesce g.stopped_at now;
  stop_reason = or_reason g.stop_reason reason;
}

-- WHERE deployment_id=? AND status='active'.
abbrev pub is_live_of : Text → Generation → Bool
is_live_of id g = of_deployment id g && g.is_live

abbrev pub set_active_generation : ℕ → ℕ → Deployment → Deployment
set_active_generation n now d = record d { active_generation = n; updated_at = now }

-- expires_at IS NULL OR expires_at>now.
abbrev pub is_unexpired : ℕ → Deployment → Bool
is_unexpired now d = elim d.expires_at [ none ↦ true | some t ↦ ltb now t ]

-- The row that INSERT INTO deployment_health(deployment_id,generation,status,updated_at) makes.
abbrev pub new_health : Text → ℕ → HealthStatus → ℕ → Health
new_health id n status now = record {
  deployment_id = id;
  generation = n;
  status = status;
  consecutive_failures = 0;
  last_run_status = none;
  last_run_at = none;
  last_duration_ms = none;
  last_success_at = none;
  last_failure_at = none;
  last_error = [];
  unhealthy_notified = false;
  updated_at = now;
}

-- `ensureDeploymentHealth` of health.go: insert, or set generation, status and time.
unfoldable pub ensure_health : Text → ℕ → HealthStatus → ℕ → List Health → List Health
ensure_health id n status now rows =
    if any (is_health id) rows
    then update (is_health id) (λ h. record h { generation = n; status = status; updated_at = now })
        rows
    else new_health id n status now ∷ rows

unfoldable pub recover_generations : ℕ → Store → Store
recover_generations now s = record s {
  generations = update (λ g. g.is_live) (retire_once (codes "daemon restarted") now) s.generations;
  deployments =
      update (λ d. is_active d.status && ltb 0 d.active_generation) (set_active_generation 0 now)
        s.deployments;
  health =
      update (λ h. any (λ d. text_eq d.id h.deployment_id && is_active d.status) s.deployments)
        (λ h. record h { generation = 0; status = starting; updated_at = now }) s.health;
}

-- The row that an activation selects.
abbrev pub is_activatable : Text → ℕ → Deployment → Bool
is_activatable id now d = has_id id d && (is_active d.status && is_unexpired now d)

-- The snapshot of the activation against the row.
unfoldable pub check_snapshot : Activation → Deployment → Result Error (Unit {0})
check_snapshot a d = do
  guard (d.config_revision == a.config_revision) config_revision_changed
  guard
      (text_eq d.artifact_id a.artifact_id
        && (d.state_revision == a.state_revision && d.active_generation == a.active_generation))
      snapshot_changed

abbrev pub new_generation : Platform → Activation → Text → ℕ → ℕ → Generation
new_generation p a token n now = record {
  deployment_id = a.deployment_id;
  generation = n;
  worker_token_hash = p.sha256 token;
  artifact_id = a.artifact_id;
  config_revision = a.config_revision;
  secret_fingerprint = a.secret_fingerprint;
  is_live = true;
  last_transaction_seq = 0;
  started_at = now;
  ready_at = none;
  stopped_at = none;
  stop_reason = [];
  stop_error = [];
  retired_at = none;
}

-- The generations after the active one, if any, is retired.
unfoldable pub retire_active : Text → ℕ → ℕ → List Generation → List Generation
retire_active id n now rows =
    if ltb 0 n
    then update (λ g. is_generation id n g && g.is_live) (retire (codes "generation replaced") now)
        rows
    else rows

abbrev pub is_snapshot : Activation → Deployment → Bool
is_snapshot a d =
    has_id a.deployment_id d
    && (text_eq d.artifact_id a.artifact_id
        && (d.active_generation == a.active_generation
            && (d.config_revision == a.config_revision && d.state_revision == a.state_revision)))

-- MAX(generation) + 1 over the deployment's generations.
abbrev pub next_generation : Text → Store → ℕ
next_generation id s = max_of (of_deployment id) (λ g. g.generation) s.generations + 1

-- The tables after a granted activation.
abbrev pub activated : Platform → Activation → Text → ℕ → Store → Store
activated p a token now s =
    let n = next_generation a.deployment_id s in
    record s {
      generations =
          new_generation p a token n now
          ∷ retire_active a.deployment_id a.active_generation now s.generations;
      deployments = update (is_snapshot a) (set_active_generation n now) s.deployments;
      health = ensure_health a.deployment_id n starting now s.health;
    }

-- `ActivateGeneration`. The first time is that of the expiry test.
unfoldable pub activate_generation :
    Platform → Activation → Text → ℕ → ℕ → Store → Result Error (ActiveGeneration × Store)
unfolding check_snapshot
activate_generation p a token started now s = do
  guard (not (is_blank a.deployment_id || (is_blank a.artifact_id || ltb a.config_revision 1)))
      invalid
  guard (not (is_blank a.secret_fingerprint)) invalid
  d ← or_fail (find (is_activatable a.deployment_id started) s.deployments) not_found
  check_snapshot a d
  guard (count (is_snapshot a) s.deployments == 1) concurrent_mutation
  ok (
    record {
      deployment_id = a.deployment_id;
      generation = next_generation a.deployment_id s;
      worker_token = token;
    },
    activated p a token now s,
  )
