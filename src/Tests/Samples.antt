-- ===== src/Tests/Samples.antt =====
-- One deployment with an active generation, and a frame of its worker.
use monitord.Base.{Text, true, false, none, some, [], ◌∷◌}
use monitord.Storage.Schema.{
  Message, Platform, Deployment, active, Generation, Health, failing, Binding, OutboxDelivery,
  pending, sending, delivered, Store,
}
use monitord.Storage.Frames.{EventInput, Frame}

-- A platform on which every text is JSON and the digest of a text is the text behind a mark.
abbrev pub platform : Platform
platform = record {
  sha256 = λ t. 35 ∷ t;
  json_valid = λ t. true;
  trim_space = λ t. t;
  marshal = λ m. m.time ∷ m.title;
}

abbrev pub id : Text
id = 100 ∷ 49 ∷ []

abbrev pub token : Text
token = 1 ∷ 2 ∷ 3 ∷ 4 ∷ 5 ∷ 6 ∷ 7 ∷ 8 ∷ 9 ∷ 10 ∷ 11 ∷ 12 ∷ 13 ∷ 14 ∷ 15 ∷ 16 ∷ []

abbrev pub deployment : Deployment
deployment = record {
  id = id;
  name = 110 ∷ [];
  info_name = 110 ∷ [];
  source_dir = [];
  status = active;
  artifact_id = 97 ∷ [];
  config_revision = 2;
  config_hash = 99 ∷ [];
  failure_threshold = 2;
  max_events_per_transaction = 16;
  event_retention_ms = 1000;
  active_generation = 3;
  state = 123 ∷ 125 ∷ [];
  state_revision = 4;
  created_at = 0;
  updated_at = 0;
  expires_at = none;
  archived_at = none;
}

abbrev pub generation : Generation
generation = record {
  deployment_id = id;
  generation = 3;
  worker_token_hash = 35 ∷ token;
  artifact_id = 97 ∷ [];
  config_revision = 2;
  secret_fingerprint = 102 ∷ [];
  is_live = true;
  last_transaction_seq = 0;
  started_at = 0;
  ready_at = some 1;
  stopped_at = none;
  stop_reason = [];
  stop_error = [];
  retired_at = none;
}

abbrev pub health : Health
health = record {
  deployment_id = id;
  generation = 3;
  status = failing;
  consecutive_failures = 1;
  last_run_status = none;
  last_run_at = none;
  last_duration_ms = none;
  last_success_at = none;
  last_failure_at = none;
  last_error = [];
  unhealthy_notified = false;
  updated_at = 0;
}

abbrev pub binding : Binding
binding = record {
  id = 98 ∷ [];
  revision = 1;
  deployment_id = id;
  config = [];
  config_hash = [];
  created_at = 0;
  retired_at = none;
}

abbrev pub store : Store
store = record {
  artifacts = [];
  deployments = deployment ∷ [];
  generations = generation ∷ [];
  health = health ∷ [];
  checkpoints = [];
  transactions = [];
  bindings = binding ∷ [];
  outbox = record { events = []; deliveries = [] };
}

abbrev pub message : Message
message = record {
  title = 84 ∷ [];
  message = [];
  summary = [];
  details = [];
  url = [];
  image = [];
  thumbnail = [];
  author = record { name = []; url = []; icon_url = [] };
  level = [];
  color = 0;
  fields = [];
  footer = [];
  footer_icon = [];
  mentions = none;
  time = 0;
}

abbrev pub event : EventInput
event = record {
  outbox_id = 111 ∷ [];
  event_id = 101 ∷ [];
  message = message;
  targets = record { destination_id = 98 ∷ []; destination_revision = 1 } ∷ [];
}

abbrev pub frame : Frame
frame = record {
  deployment_id = id;
  generation = 3;
  worker_token = token;
  sequence = 1;
  base_state_revision = 4;
  next_state = 91 ∷ 93 ∷ [];
  checkpoints = record { source = 115 ∷ []; value = 49 ∷ [] } ∷ [];
  events = event ∷ [];
  payload_hash = 7 ∷ [];
}

abbrev pub stale_frame : Frame
stale_frame = record frame { generation = 2 }

abbrev pub waiting_row : OutboxDelivery
waiting_row = record {
  outbox_id = 111 ∷ [];
  deployment_id = id;
  destination_id = 98 ∷ [];
  destination_revision = 1;
  status = pending;
  attempt_count = 0;
  next_attempt_at = 5;
  lease_owner = none;
  lease_expires_at = none;
  delivered_at = none;
  last_error = [];
  dead_at = none;
}

abbrev pub leased_row : OutboxDelivery
leased_row = record waiting_row {
  outbox_id = 112 ∷ [];
  status = sending;
  lease_owner = some (119 ∷ []);
  lease_expires_at = some 40;
}

abbrev pub delivered_row : OutboxDelivery
delivered_row = record waiting_row {
  outbox_id = 113 ∷ [];
  status = delivered;
  delivered_at = some 3;
}

abbrev pub queue : Store
queue = record store {
  outbox = record { events = []; deliveries = waiting_row ∷ leased_row ∷ delivered_row ∷ [] };
}
