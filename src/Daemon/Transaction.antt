-- ===== src/Daemon/Transaction.antt =====
-- internal/daemon/worker.go, `transaction`: the daemon turns a frame of its worker into a frame of the
-- store, applies it and sends the acknowledgement. The log of slow settlements is left out.
pub mod Acks
pub mod Writes
pub mod Session
use monitord.Base.{
  ℕ, zero, suc, ◌+◌, ◌^◌, Text, sort_by, text_eq, text_leb, codes, decimal, Bool, true, false, not,
  ◌&&◌, ◌||◌, Option, none, some, List, [], ◌∷◌, ◌++◌, map, ◌==◌, ltb, length, if◌then◌else◌,
  Result, ok, err, is_some,
}
use monitord.Storage.Schema.{
  Error, Message, Field, Platform, Store, Binding, AckStatus, accepted, replayed, Ack,
}
use monitord.Storage.Frames.{Frame, CheckpointMutation, DeliveryTarget, EventInput}
use monitord.Storage.Transactions.{CommitFate, apply_transaction}
use monitord.Worker.Protocol.{
  Event, EventField, Entry, TransactionFrame, TransactionAck, valid_ack, is_empty,
}
use monitord.Worker.Coordinator.{Wire, hash_frame}

-- The fields of a running worker that `transaction` reads, its token in bytes.
pub record Worker : Type 0 where
  pub deployment_id : Text
  pub generation : ℕ
  pub worker_token : Text
  pub max_events : ℕ

-- What the calls of the database and of the pipe come to.
pub record Conditions : Type 0 where
  pub bindings_read : Bool
  pub fate : CommitFate
  pub ack_written : Bool
  pub now : ℕ

-- `unsent` is an acknowledgementError.
pub data Refusal : Type 0 where
  fenced wrong_hash too_many_events bindings_unread unsent : Refusal
  refused : Error → Refusal

-- `ListActiveBindings`, and the deliveries that an event gets from it.
abbrev pub is_active_binding : Text → Binding → Bool
is_active_binding id b = text_eq b.deployment_id id && not (is_some b.retired_at)

unfoldable pub bound : Text → List Binding → List Binding
bound id [] = []
bound id (b ∷ bs) = if is_active_binding id b then b ∷ bound id bs else bound id bs

unfoldable pub list_active_bindings : Text → List Binding → List Binding
unfolding bound sort_by text_leb
list_active_bindings id bs = sort_by (λ (a b : Binding). text_leb a.id b.id) (bound id bs)

abbrev pub target_of : Binding → DeliveryTarget
target_of b = record { destination_id = b.id; destination_revision = b.revision }

abbrev pub field_of : EventField → Field
field_of f = record { name = f.name; value = f.value; is_inline = f.is_inline }

unfoldable pub event_level : Text → Text
event_level severity =
    if text_eq severity (codes "critical")
    then codes "critical"
    else if text_eq severity (codes "warn")
    then codes "warn"
    else codes "info"

unfoldable pub corrected : Text → List Field → List Field
corrected id fields =
    if is_empty id
    then fields
    else record { name = codes "corrects"; value = id; is_inline = false } ∷ fields

unfoldable pub message_of : Event → Message
unfolding event_level corrected
message_of e = record {
  title = e.title;
  message = e.body;
  summary = e.description;
  details = [];
  url = e.url;
  image = e.image;
  thumbnail = e.thumbnail;
  author = record { name = []; url = []; icon_url = [] };
  level = event_level e.severity;
  color = e.color;
  fields = corrected e.correction_of (map field_of e.fields);
  footer = e.footer;
  footer_icon = [];
  mentions = e.mentions;
  time = 0;
}

-- `int64` of a uint64; the negative numbers that it makes are refused as 0 is.
abbrev pub int64 : ℕ → ℕ
int64 n = if ltb n (2 ^ 63) then n else 0

abbrev pub mutation_of : Entry → CheckpointMutation
mutation_of c = record { source = c.source; value = c.raw }

unfoldable pub mutations : List Entry → List CheckpointMutation
unfolding sort_by text_leb
mutations cs = map mutation_of (sort_by (λ (a b : Entry). text_leb a.source b.source) cs)

-- The first 32 bytes, and zeros behind them.
unfoldable pub fixed : ℕ → Text → Text
fixed zero h = []
fixed (suc n) [] = 0 ∷ fixed n []
fixed (suc n) (b ∷ h) = b ∷ fixed n h

abbrev pub status_text : AckStatus → Text
status_text accepted = codes "accepted"
status_text replayed = codes "replayed"

-- `unhex` is the bytes that hex.DecodeString returns, also beside an error.
module _ (p : Platform) (w : Wire) (unhex : Text → Text) where
  unfoldable pub outbox_key : Text → ℕ → ℕ → ℕ → Text
  outbox_key id generation sequence i =
      w.hex (p.sha256 (id ++ 0 ∷ decimal generation ++ 0 ∷ decimal sequence ++ 0 ∷ decimal i))

  unfoldable pub events_of :
      Text → TransactionFrame → List DeliveryTarget → ℕ → List Event → List EventInput
  unfolding message_of outbox_key
  events_of id f targets i [] = []
  events_of id f targets i (e ∷ es) =
      record {
        outbox_id = outbox_key id f.generation f.sequence i;
        event_id = e.id;
        message = message_of e;
        targets = targets;
      }
      ∷ events_of id f targets (i + 1) es

  -- The frame for the store. Bindings are listed only where there are events.
  unfoldable pub storage_frame : Worker → TransactionFrame → List Binding → Frame
  unfolding mutations events_of list_active_bindings fixed
  storage_frame d f bindings = record {
    deployment_id = f.deployment_id;
    generation = int64 f.generation;
    worker_token = d.worker_token;
    sequence = int64 f.sequence;
    base_state_revision = f.base_state_revision;
    next_state = f.next_state;
    checkpoints = mutations f.checkpoints;
    events =
        events_of d.deployment_id f (map target_of (list_active_bindings d.deployment_id bindings))
          0 f.events;
    payload_hash = fixed 32 (unhex f.payload_hash);
  }

  unfoldable pub wire_ack : TransactionFrame → Ack → TransactionAck
  wire_ack f a = record {
    deployment_id = a.deployment_id;
    generation = a.generation;
    sequence = a.sequence;
    payload_hash = f.payload_hash;
    result_revision = a.result_revision;
    status = status_text a.status;
  }

  -- `send` validates the acknowledgement before it writes it.
  unfoldable pub send_ack :
      TransactionFrame → Bool → Store × Result Error Ack → Store × Result Refusal TransactionAck
  unfolding wire_ack
  send_ack f written (s, err e) = (s, err (refused e))
  send_ack f written (s, ok a) =
      if valid_ack (wire_ack f a) && written then (s, ok (wire_ack f a)) else (s, err unsent)

  abbrev pub is_own : Worker → TransactionFrame → Bool
  is_own d f =
      text_eq f.deployment_id d.deployment_id
      && (f.generation == d.generation && text_eq f.worker_token (w.hex d.worker_token))

  -- `verifyWireHash`.
  abbrev pub verify_wire_hash : TransactionFrame → Bool
  verify_wire_hash f = text_eq f.payload_hash (w.hex (hash_frame w f))

  -- The tables after the call, and the acknowledgement that is sent.
  unfoldable pub transaction :
      Worker → Conditions → TransactionFrame → Store → Store × Result Refusal TransactionAck
  unfolding storage_frame send_ack hash_frame
  transaction d k f s =
      if not (is_own d f)
      then (s, err fenced)
      else if not (verify_wire_hash f)
      then (s, err wrong_hash)
      else if ltb d.max_events (length f.events)
      then (s, err too_many_events)
      else if ltb 0 (length f.events) && not k.bindings_read
      then (s, err bindings_unread)
      else send_ack f k.ack_written
          (apply_transaction p (storage_frame d f s.bindings) k.fate k.now s)
