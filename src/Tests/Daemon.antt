-- ===== src/Tests/Daemon.antt =====
-- One commit from the coordinator through the daemon to the store and back.
use monitord.Base.{
  text_leb, sort_by, insert_by, ◌≡◌, refl, true, false, none, some, [], ◌∷◌, All, Text, text_eq,
  codes, arith, ok, err, Result, all_hex, decimal, ap,
}
use monitord.Base.Table.{find, update, count}
use monitord.Storage.Schema.{Deployment, Store, has_id}
use monitord.Storage.Frames.{validate_frame}
use monitord.Storage.Transactions.{fails, active_row, apply_transaction, apply_new}
use monitord.Storage.Events.{insert_events, insert_outbox_event}
use monitord.Worker.Protocol.{TransactionAck, Event, valid_ack}
use monitord.Worker.Coordinator.{
  Wire, TransactionCommit, Coordinator, Status, settled, arrives, acked, same_identity, expected_of,
  frame_of, hash_frame, commit, submit, settle, advance,
}
use monitord.Daemon.Transaction.{
  Worker, Conditions, Refusal, transaction, storage_frame, list_active_bindings, bound, mutations,
  events_of, message_of, event_level, corrected, fixed, outbox_key, send_ack, wire_ack,
}
use monitord.Daemon.Transaction.Acks.{IsKeyed, transaction-same_identity}
use monitord.Daemon.Transaction.Session.{Agrees, Exchange, exchange-Agrees}
use monitord.Tests.Samples.{platform, id, token, deployment, generation, store}

digest : Text
unfolding codes
digest = codes "00000000000000000000000000000000000000000000000000000000000000ff"

abbrev wire : Wire
wire = record {
  marshal_text = λ t. t;
  marshal_number = λ n. n ∷ [];
  marshal_raw = λ t. t;
  marshal_entries = λ cs. [];
  marshal_events = λ es. [];
  marshal_frame = λ f. f.next_state;
  sha256 = λ t. t;
  hex = λ t. digest;
  trim_space = λ t. t;
  json_valid = λ t. true;
}

abbrev worker : Worker
worker = record { deployment_id = id; generation = 3; worker_token = token; max_events = 16 }

-- COMMIT reports an error after it has become durable.
abbrev conditions : Conditions
conditions = record { bindings_read = true; fate = fails true true; ack_written = true; now = 9 }

abbrev coordinator : Coordinator
coordinator = record {
  hello = record { deployment_id = id; generation = 3; worker_token = digest };
  seq = 0;
  revision = 4;
  ack_ready = false;
  expected_ack = none;
  pending_ack = none;
  last_ack = none;
  fatal = none;
}

abbrev event : Event
event = record {
  id = 101 ∷ [];
  correction_of = 100 ∷ [];
  severity = [];
  title = 84 ∷ [];
  body = [];
  url = [];
  description = [];
  image = [];
  thumbnail = [];
  color = 0;
  fields = [];
  footer = [];
  mentions = none;
}

abbrev tx : TransactionCommit
tx = record {
  next_state = 91 ∷ 93 ∷ [];
  checkpoints = record { source = 115 ∷ []; raw = 49 ∷ [] } ∷ [];
  events = event ∷ [];
}

ack : TransactionAck
unfolding codes
ack = record {
  deployment_id = id;
  generation = 3;
  sequence = 1;
  payload_hash = digest;
  result_revision = 5;
  status = codes "accepted";
}

abbrev answer : Store × Result Refusal TransactionAck
answer = transaction platform wire (λ t. t) worker conditions (frame_of wire tx coordinator) store

answer_lem : answer.1 ≡ ok ack
unfolding transaction frame_of hash_frame digest codes ack storage_frame sort_by insert_by text_leb
    list_active_bindings bound mutations events_of message_of event_level corrected fixed decimal
    outbox_key send_ack wire_ack valid_ack all_hex apply_transaction apply_new validate_frame
    insert_events insert_outbox_event find update count text_eq
answer_lem = refl

outcome : Coordinator × Status
unfolding commit submit settle advance
outcome = elim (commit wire tx true true true (arrives ack ∷ acked ∷ []) coordinator) [
  | ok out ↦ out
  | err e ↦ (coordinator, settled [])
]

outcome_lem : commit wire tx true true true (arrives ack ∷ acked ∷ []) coordinator ≡ ok outcome
unfolding outcome commit ack digest text_eq codes
outcome_lem = refl

agreed : Agrees platform coordinator store
unfolding active_row find text_eq
agreed = record {
  deployment = deployment;
  generation = generation;
  row = refl;
  active = refl;
  revision = refl;
  sequence = refl;
  past = tt;
  keyed = tt;
  alive = refl;
  last = tt;
}

sent_lem : answer ≡ (answer.0, ok ack)
sent_lem = ap (λ (r : Result Refusal TransactionAck). (answer.0, r)) answer_lem

exchange : Exchange platform wire (λ t. t) worker tx coordinator store outcome.0 answer.0
exchange = record {
  conditions = conditions;
  ack = ack;
  rest = [];
  status = outcome.1;
  sent = sent_lem;
  committed = outcome_lem;
}

exchange-Agrees_example :
    (outcome.1 ≡ settled (91 ∷ 93 ∷ []))
    × (r : Deployment) × (find (has_id id) answer.0.deployments ≡ some r)
    × (r.state ≡ 91 ∷ 93 ∷ [])
    × (r.state_revision ≡ outcome.0.revision)
    × Agrees platform outcome.0 answer.0
unfolding exchange
exchange-Agrees_example =
    exchange-Agrees platform wire (λ t. t) worker tx coordinator outcome.0 store answer.0 agreed
      (omega arith) exchange

transaction-same_identity_example :
    (same_identity (expected_of (frame_of wire tx coordinator)) ack ≡ true)
    × (valid_ack ack ≡ true)
    × All IsKeyed answer.0.transactions
transaction-same_identity_example =
    transaction-same_identity platform wire (λ t. t) worker conditions
      (frame_of wire tx coordinator) store answer.0 ack tt sent_lem
