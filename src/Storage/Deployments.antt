-- ===== src/Storage/Deployments.antt =====
-- internal/storage/deployments.go, artifacts.go and `ClearCheckpoints` of checkpoints.go: the life
-- of a deployment. A random ID and the time are arguments.
use monitord.Base.{
  ℕ, ◌+◌, Text, codes, Bool, true, false, not, ◌&&◌, ◌||◌, Option, none, some, List, [], ◌∷◌, ◌++◌,
  ◌==◌, ltb, leb, if◌then◌else◌, is_some, text_eq, any, decimal, Result, ok, err, ◌>>=◌, ◌>>◌,
  guard, or_fail,
}
use monitord.Base.Table.{find, update, delete, count, max_of}
use monitord.Storage.Schema.{
  Error, state_conflict, not_found, invalid_status, invalid, constraint, queued_deliveries,
  Platform, DeploymentStatus, active, inactive, archived, is_active, is_inactive, is_archived,
  Deployment, starting, stopped, Binding, OutboxDelivery, pending, sending, Artifact, Store, has_id,
  is_health,
}
use monitord.Storage.Frames.{is_blank}
use monitord.Storage.Generations.{
  retire, retire_once, is_live_of, ensure_health, set_active_generation,
}

pub record DeployInput : Type 0 where
  pub name : Text
  pub info_name : Text
  pub source_dir : Text
  pub config_hash : Text
  pub artifact : Artifact
  pub state : Text
  pub failure_threshold : ℕ
  pub max_events_per_transaction : ℕ
  pub event_retention_ms : ℕ
  pub expires_at : Option ℕ
  pub destinations : List Text
  pub expected_state_revision : Option ℕ

abbrev has_name : Text → Deployment → Bool
has_name name d = text_eq d.name name

abbrev has_content : Text → Artifact → Bool
has_content h a = text_eq a.content_hash h

-- INSERT … ON CONFLICT(content_hash) DO NOTHING.
insert_artifact : Artifact → List Artifact → Result Error (List Artifact)
insert_artifact a rows =
    if any (has_content a.content_hash) rows
    then ok rows
    else if any (λ r. text_eq r.id a.id) rows
    then err constraint
    else ok (a ∷ rows)

-- `putArtifact`; a zero `CreatedAt` is 0 here.
unfoldable pub put_artifact :
    Platform → Artifact → ℕ → List Artifact → Result Error (Artifact × List Artifact)
unfolding insert_artifact
put_artifact p a now rows =
    let row = record a {
      id = if is_blank a.id then a.content_hash else a.id;
      created_at = if a.created_at == 0 then now else a.created_at;
    } in
    do
      guard (not (is_blank a.content_hash || (is_blank a.path || not (p.json_valid a.describe))))
          invalid
      rows' ← insert_artifact row rows
      stored ← or_fail (find (has_content a.content_hash) rows') not_found
      ok (stored, rows')

valid_input : Platform → DeployInput → Bool
valid_input p i =
    not (is_blank (p.trim_space i.name))
    && (not (is_blank (p.trim_space i.info_name))
        && (not (is_blank i.config_hash)
            && (p.json_valid i.state
                && (any (λ _. true) i.destinations
                    && (not (ltb i.failure_threshold 1)
                        && (not (ltb i.max_events_per_transaction 1)
                            && (not (ltb 256 i.max_events_per_transaction)
                                && (not (i.event_retention_ms == 0)
                                    && not (any (λ d. not (p.json_valid d)) i.destinations)))))))))

abbrev pub new_deployment : DeployInput → Text → Text → ℕ → Deployment
new_deployment i artifact id now = record {
  id = id;
  name = i.name;
  info_name = i.info_name;
  source_dir = i.source_dir;
  status = active;
  artifact_id = artifact;
  config_revision = 1;
  config_hash = i.config_hash;
  failure_threshold = i.failure_threshold;
  max_events_per_transaction = i.max_events_per_transaction;
  event_retention_ms = i.event_retention_ms;
  active_generation = 0;
  state = i.state;
  state_revision = 0;
  created_at = now;
  updated_at = now;
  expires_at = i.expires_at;
  archived_at = none;
}

abbrev pub redeployed : DeployInput → Text → Text → ℕ → Deployment → Deployment
redeployed i artifact old_hash now d = record d {
  info_name = i.info_name;
  source_dir = i.source_dir;
  artifact_id = artifact;
  config_hash = i.config_hash;
  config_revision = d.config_revision + (if text_eq old_hash i.config_hash then 0 else 1);
  failure_threshold = i.failure_threshold;
  max_events_per_transaction = i.max_events_per_transaction;
  event_retention_ms = i.event_retention_ms;
  active_generation = 0;
  state = i.state;
  state_revision = d.state_revision + 1;
  status = active;
  expires_at = i.expires_at;
  archived_at = none;
  updated_at = now;
}

abbrev is_expected : Option ℕ → ℕ → Bool
is_expected none n = false
is_expected (some m) n = m == n

-- The row of the deployment, by its name: inserted under a new ID, or replaced.
unfoldable pub put_deployment :
    DeployInput → Text → Text → ℕ → List Deployment → Result Error (Text × List Deployment)
put_deployment i artifact new_id now rows = elim (find (has_name i.name) rows) [
  | none ↦ do
    guard (not (is_some i.expected_state_revision)) state_conflict
    guard (not (any (has_id new_id) rows)) constraint
    ok (new_id, new_deployment i artifact new_id now ∷ rows)
  | some d ↦ do
    guard (not (is_archived d.status)) invalid_status
    guard (is_expected i.expected_state_revision d.state_revision) state_conflict
    ok (d.id, update (has_id d.id) (redeployed i artifact d.config_hash now) rows)
]

-- The bindings of `Destinations`, numbered from 1, each with the next revision under its ID.
bind_destinations : Platform → Text → ℕ → ℕ → List Text → List Binding → List Binding
bind_destinations p id now i [] rows = rows
bind_destinations p id now i (config ∷ rest) rows =
    let destination = codes "destination-" ++ decimal i in
    let row : Binding = record {
      id = destination;
      revision =
          max_of (λ b. text_eq b.deployment_id id && text_eq b.id destination) (λ b. b.revision)
            rows
          + 1;
      deployment_id = id;
      config = config;
      config_hash = p.sha256 config;
      created_at = now;
      retired_at = none;
    } in
    bind_destinations p id now (i + 1) rest (row ∷ rows)

abbrev pub retire_all : Text → Text → ℕ → Store → Store
retire_all id reason now s = record s {
  generations = update (is_live_of id) (retire reason now) s.generations;
}

-- `Deploy`, up to the COMMIT. The ID that it reads the deployment back by is the result.
unfoldable pub deploy : Platform → DeployInput → Text → ℕ → Store → Result Error (Text × Store)
unfolding valid_input put_artifact put_deployment bind_destinations
deploy p i new_id now s = do
  guard (valid_input p i) invalid
  (artifact, artifacts) ← put_artifact p i.artifact now s.artifacts
  (id, deployments) ← put_deployment i artifact.id new_id now s.deployments
  ok (
    id,
    retire_all id (codes "deployment replaced") now (record s {
      artifacts = artifacts;
      deployments = deployments;
      health = ensure_health id 0 starting now s.health;
      bindings = bind_destinations p id now 1 i.destinations (
          update (λ b. text_eq b.deployment_id id && not (is_some b.retired_at))
            (λ b. record b { retired_at = some now }) s.bindings);
    }),
  )

-- expires_at IS NOT NULL AND expires_at<=now.
abbrev pub is_due : ℕ → Deployment → Bool
is_due now d = elim d.expires_at [ none ↦ false | some t ↦ leb t now ]

abbrev pub expire : ℕ → Deployment → Deployment
expire now d = record d { status = inactive; active_generation = 0; updated_at = now }

unfoldable pub deactivate_due : ℕ → Store → ℕ × Store
deactivate_due now s =
    let due = λ (d : Deployment). is_active d.status && is_due now d in
    let deployments = update due (expire now) s.deployments in
    if any due s.deployments
    then (
      count due s.deployments,
      record s {
        generations =
            update
              (λ g. g.is_live && any (λ d. text_eq d.id g.deployment_id && due d) s.deployments)
              (retire (codes "deployment expired") now) s.generations;
        deployments = deployments;
        health =
            update
              (λ h.
                any (λ d. text_eq d.id h.deployment_id && (is_inactive d.status && is_due now d))
                  deployments)
              (λ h. record h { generation = 0; status = stopped; updated_at = now }) s.health;
      },
    )
    else (0, s)

abbrev pub same_status : DeploymentStatus → DeploymentStatus → Bool
same_status active d = is_active d
same_status inactive d = is_inactive d
same_status archived d = is_archived d

abbrev pub status_name : DeploymentStatus → Text
status_name active = codes "active"
status_name inactive = codes "inactive"
status_name archived = codes "archived"

abbrev pub with_status : DeploymentStatus → Option ℕ → ℕ → Deployment → Deployment
with_status to expires now d = record d {
  status = to;
  active_generation = 0;
  expires_at = expires;
  archived_at = if is_archived to then some now else none;
  updated_at = now;
}

-- `setDeploymentStatus`; the clock is read once here.
unfoldable pub set_deployment_status :
    Text → DeploymentStatus → DeploymentStatus → Option ℕ → ℕ → Store → Result Error Store
set_deployment_status id from to expires now s =
    let target = λ (d : Deployment). has_id id d && same_status from d.status in
    let moved = record s {
      deployments = update target (with_status to expires now) s.deployments;
      health = ensure_health id 0 (if is_active to then starting else stopped) now s.health;
    } in
    do
      guard (count target s.deployments == 1) invalid_status
      ok (
          if is_active from
          then retire_all id (codes "deployment " ++ status_name to) now moved
          else moved)

unfoldable pub pause_deployment : Text → ℕ → Store → Result Error Store
unfolding set_deployment_status
pause_deployment id now s = set_deployment_status id active inactive none now s

unfoldable pub resume_deployment : Text → Option ℕ → ℕ → Store → Result Error Store
unfolding set_deployment_status
resume_deployment id expires now s = set_deployment_status id inactive active expires now s

abbrev pub archive : ℕ → Deployment → Deployment
archive now d = record d {
  status = archived;
  expires_at = none;
  archived_at = some now;
  updated_at = now;
}

unfoldable pub archive_deployment : Text → ℕ → Store → Result Error Store
archive_deployment id now s =
    let target = λ (d : Deployment). has_id id d && is_inactive d.status in
    do
      guard (count target s.deployments == 1) invalid_status
      ok (
          retire_all id (codes "deployment archived") now
            (record s { deployments = update target (archive now) s.deployments }))

abbrev is_queued : OutboxDelivery → Bool
is_queued d = elim d.status [ pending ↦ true | sending ↦ true | _ ↦ false ]

-- The row is deleted, and with it all rows that refer to it (ON DELETE CASCADE).
unfoldable pub purge_deployment : Text → Bool → Store → Result Error Store
purge_deployment id force s =
    let target = λ (d : Deployment). has_id id d && is_archived d.status in
    do
      guard
          (force || not (any (λ d. text_eq d.deployment_id id && is_queued d) s.outbox.deliveries))
          queued_deliveries
      guard (count target s.deployments == 1) invalid_status
      ok (record s {
        deployments = delete target s.deployments;
        generations = delete (λ g. text_eq g.deployment_id id) s.generations;
        health = delete (is_health id) s.health;
        checkpoints = delete (λ c. text_eq c.deployment_id id) s.checkpoints;
        transactions = delete (λ t. text_eq t.deployment_id id) s.transactions;
        bindings = delete (λ b. text_eq b.deployment_id id) s.bindings;
        outbox = record {
          events = delete (λ e. text_eq e.deployment_id id) s.outbox.events;
          deliveries = delete (λ d. text_eq d.deployment_id id) s.outbox.deliveries;
        };
      })

abbrev pub with_state : Text → ℕ → Deployment → Deployment
with_state state now d = record d {
  state = state;
  state_revision = d.state_revision + 1;
  active_generation = 0;
  updated_at = now;
}

unfoldable pub replace_state : Platform → Text → ℕ → Text → ℕ → Store → Result Error (ℕ × Store)
replace_state p id base state now s =
    let target = λ (d : Deployment). has_id id d && d.state_revision == base in
    do
      guard (p.json_valid state) invalid
      d ← or_fail (find (has_id id) s.deployments) not_found
      guard (not (is_archived d.status)) invalid_status
      guard (count target s.deployments == 1) state_conflict
      ok (
        base + 1,
        retire_all id (codes "state replaced") now (record s {
          deployments = update target (with_state state now) s.deployments;
          health =
              ensure_health id 0 (if is_active d.status then starting else stopped) now s.health;
        }),
      )

-- The result is the number of checkpoints that were deleted.
unfoldable pub clear_checkpoints : Text → ℕ → Store → Result Error (ℕ × Store)
clear_checkpoints id now s =
    let target = λ (d : Deployment). has_id id d && is_inactive d.status in
    do
      guard (not (is_blank id)) invalid
      guard (count target s.deployments == 1)
          (if count (has_id id) s.deployments == 0 then not_found else invalid_status)
      ok (
        count (λ c. text_eq c.deployment_id id) s.checkpoints,
        record s {
          deployments = update target (set_active_generation 0 now) s.deployments;
          generations =
              update (is_live_of id) (retire_once (codes "checkpoints cleared") now) s.generations;
          health = ensure_health id 0 stopped now s.health;
          checkpoints = delete (λ c. text_eq c.deployment_id id) s.checkpoints;
        },
      )
