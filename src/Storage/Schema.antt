-- ===== src/Storage/Schema.antt =====
-- internal/storage/schema.sql and the structs that its rows are read into. A table is the list of
-- its rows, the newest first. Times are milliseconds (`toMs`); an INTEGER column that the program
-- keeps non-negative is a natural number.
use monitord.Base.{ℕ, Text, Bool, true, false, Option, List, ◌&&◌, ◌==◌, text_eq, is_some}

pub data Error : Type 0 where
  generation_fenced sequence_conflict missing_sequence payload_conflict : Error
  state_conflict not_found invalid_status lease_lost : Error
  -- The errors that the source builds in place: a refused argument, a violated table constraint,
  -- `requireOneRow`, a failed COMMIT, and the refusals of activation and purge.
  invalid constraint concurrent_mutation commit_failed : Error
  config_revision_changed snapshot_changed queued_deliveries : Error

-- The parts of encoding/json, crypto/sha256 and strings that the package calls, as functions.
-- `marshal` stands for `json.Marshal` of a `delivery.Message`.
pub record Author : Type 0 where
  pub name : Text
  pub url : Text
  pub icon_url : Text

pub record Field : Type 0 where
  pub name : Text
  pub value : Text
  pub is_inline : Bool

pub record Message : Type 0 where
  pub title : Text
  pub message : Text
  pub summary : Text
  pub details : Text
  pub url : Text
  pub image : Text
  pub thumbnail : Text
  pub author : Author
  pub level : Text
  pub color : ℕ
  pub fields : List Field
  pub footer : Text
  pub footer_icon : Text
  pub mentions : Option (List Text)
  pub time : ℕ

pub record Platform : Type 0 where
  pub sha256 : Text → Text
  pub json_valid : Text → Bool
  pub trim_space : Text → Text
  pub marshal : Message → Text

pub data DeploymentStatus : Type 0 where
  active inactive archived : DeploymentStatus

abbrev pub is_active : DeploymentStatus → Bool
is_active active = true
is_active _ = false

abbrev pub is_inactive : DeploymentStatus → Bool
is_inactive inactive = true
is_inactive _ = false

abbrev pub is_archived : DeploymentStatus → Bool
is_archived archived = true
is_archived _ = false

pub record Deployment : Type 0 where
  pub id : Text
  pub name : Text
  pub info_name : Text
  pub source_dir : Text
  pub status : DeploymentStatus
  pub artifact_id : Text
  pub config_revision : ℕ
  pub config_hash : Text
  pub failure_threshold : ℕ
  pub max_events_per_transaction : ℕ
  pub event_retention_ms : ℕ
  pub active_generation : ℕ
  pub state : Text
  pub state_revision : ℕ
  pub created_at : ℕ
  pub updated_at : ℕ
  pub expires_at : Option ℕ
  pub archived_at : Option ℕ

-- `is_live` is the column `status`: 'active' or 'retired'.
pub record Generation : Type 0 where
  pub deployment_id : Text
  pub generation : ℕ
  pub worker_token_hash : Text
  pub artifact_id : Text
  pub config_revision : ℕ
  pub secret_fingerprint : Text
  pub is_live : Bool
  pub last_transaction_seq : ℕ
  pub started_at : ℕ
  pub ready_at : Option ℕ
  pub stopped_at : Option ℕ
  pub stop_reason : Text
  pub stop_error : Text
  pub retired_at : Option ℕ

pub data HealthStatus : Type 0 where
  starting healthy failing unhealthy stopped : HealthStatus

pub data RunStatus : Type 0 where
  success failure deferred : RunStatus

pub record Health : Type 0 where
  pub deployment_id : Text
  pub generation : ℕ
  pub status : HealthStatus
  pub consecutive_failures : ℕ
  pub last_run_status : Option RunStatus
  pub last_run_at : Option ℕ
  pub last_duration_ms : Option ℕ
  pub last_success_at : Option ℕ
  pub last_failure_at : Option ℕ
  pub last_error : Text
  pub unhealthy_notified : Bool
  pub updated_at : ℕ

pub record Checkpoint : Type 0 where
  pub deployment_id : Text
  pub source : Text
  pub value : Text
  pub value_hash : Text
  pub updated_generation : ℕ
  pub updated_seq : ℕ
  pub updated_at : ℕ

pub data AckStatus : Type 0 where
  accepted replayed : AckStatus

pub record Ack : Type 0 where
  pub deployment_id : Text
  pub generation : ℕ
  pub sequence : ℕ
  pub payload_hash : Text
  pub result_revision : ℕ
  pub status : AckStatus

-- A ledger row. `ack_payload` is the acknowledgement that its JSON text decodes to.
pub record Transaction : Type 0 where
  pub deployment_id : Text
  pub generation : ℕ
  pub seq : ℕ
  pub payload_hash : Text
  pub base_revision : ℕ
  pub result_revision : ℕ
  pub ack_payload : Ack
  pub committed_at : ℕ

pub record Binding : Type 0 where
  pub id : Text
  pub revision : ℕ
  pub deployment_id : Text
  pub config : Text
  pub config_hash : Text
  pub created_at : ℕ
  pub retired_at : Option ℕ

-- `transaction_seq` is a number for the kind 'monitor' and NULL for 'health'.
pub record OutboxEvent : Type 0 where
  pub outbox_id : Text
  pub deployment_id : Text
  pub generation : ℕ
  pub transaction_seq : Option ℕ
  pub event_id : Text
  pub payload : Text
  pub payload_hash : Text
  pub created_at : ℕ

pub data DeliveryStatus : Type 0 where
  pending sending delivered dead : DeliveryStatus

pub record OutboxDelivery : Type 0 where
  pub outbox_id : Text
  pub deployment_id : Text
  pub destination_id : Text
  pub destination_revision : ℕ
  pub status : DeliveryStatus
  pub attempt_count : ℕ
  pub next_attempt_at : ℕ
  pub lease_owner : Option Text
  pub lease_expires_at : Option ℕ
  pub delivered_at : Option ℕ
  pub last_error : Text
  pub dead_at : Option ℕ

pub record Artifact : Type 0 where
  pub id : Text
  pub content_hash : Text
  pub path : Text
  pub describe : Text
  pub created_at : ℕ

pub record Outbox : Type 0 where
  pub events : List OutboxEvent
  pub deliveries : List OutboxDelivery

pub record Store : Type 0 where
  pub artifacts : List Artifact
  pub deployments : List Deployment
  pub generations : List Generation
  pub health : List Health
  pub checkpoints : List Checkpoint
  pub transactions : List Transaction
  pub bindings : List Binding
  pub outbox : Outbox

-- The keys by which rows are found.
abbrev pub has_id : Text → Deployment → Bool
has_id id d = text_eq d.id id

abbrev pub of_deployment : Text → Generation → Bool
of_deployment id g = text_eq g.deployment_id id

abbrev pub is_generation : Text → ℕ → Generation → Bool
is_generation id n g = text_eq g.deployment_id id && g.generation == n

abbrev pub is_transaction : Text → ℕ → ℕ → Transaction → Bool
is_transaction id n k t = text_eq t.deployment_id id && (t.generation == n && t.seq == k)

abbrev pub is_monitor_event : Text → Text → OutboxEvent → Bool
is_monitor_event id event e =
    text_eq e.deployment_id id && (is_some e.transaction_seq && text_eq e.event_id event)

abbrev pub is_health : Text → Health → Bool
is_health id h = text_eq h.deployment_id id
