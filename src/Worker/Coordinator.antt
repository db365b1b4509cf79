-- ===== src/Worker/Coordinator.antt =====
-- coordinator.go: one commit of the worker, and the control frames that arrive meanwhile. Contexts,
-- timers and the callback scope decide only which input comes next, so they are the sequence of
-- inputs. The JSON encoder, SHA-256 and hex of Go's library are the parameters of `Wire`.
use monitord.Base.{
  ℕ, zero, suc, ◌+◌, ◌*◌, ◌^◌, ◌/◌, ◌%◌, Text, text_eq, Bool, true, false, not, ◌&&◌, Option, none,
  some, List, [], ◌∷◌, ◌++◌, ◌==◌, ltb, length, if◌then◌else◌, Result, ok, err,
}
use monitord.Worker.Protocol.{
  Event, TransactionAck, Entry, TransactionFrame, accepted_status, valid_ack, valid_transaction,
}

pub data Failure : Type 0 where
  cancelled invalid_frame oversized send_failed : Failure
  unsolicited identity_mismatch conflicting no_payload : Failure
  rejected : Text → Failure
  control_failed stop_deadline : Failure

-- json.Marshal at the types of the eight hashed fields and of the whole frame, sha256.Sum256 and
-- hex.EncodeToString; strings.TrimSpace and json.Valid, which the validation calls.
pub record Wire : Type 0 where
  pub marshal_text : Text → Text
  pub marshal_number : ℕ → Text
  pub marshal_raw : Text → Text
  pub marshal_entries : List Entry → Text
  pub marshal_events : List Event → Text
  pub marshal_frame : TransactionFrame → Text
  pub sha256 : Text → Text
  pub hex : Text → Text
  pub trim_space : Text → Text
  pub json_valid : Text → Bool

-- The fields of the daemon's Hello that a commit reads.
pub record Hello : Type 0 where
  pub deployment_id : Text
  pub generation : ℕ
  pub worker_token : Text

-- The fields of transactionCommit that `Commit` reads.
pub record TransactionCommit : Type 0 where
  pub next_state : Text
  pub checkpoints : List Entry
  pub events : List Event

-- `ack_ready` is the channel of capacity one, `fatal` is fatalErr with fatalDone closed.
pub record Coordinator : Type 0 where
  pub hello : Hello
  pub seq : ℕ
  pub revision : ℕ
  pub ack_ready : Bool
  pub expected_ack : Option TransactionAck
  pub pending_ack : Option TransactionAck
  pub last_ack : Option TransactionAck
  pub fatal : Option Failure

unfoldable pub same_identity : TransactionAck → TransactionAck → Bool
same_identity a b =
    text_eq a.deployment_id b.deployment_id
    && (a.generation == b.generation
        && (a.sequence == b.sequence && text_eq a.payload_hash b.payload_hash))

unfoldable pub same_ack : TransactionAck → TransactionAck → Bool
unfolding same_identity
same_ack a b = same_identity a b && a.result_revision == b.result_revision

unfoldable pub is_same : Option TransactionAck → TransactionAck → Bool
unfolding same_ack
is_same none a = false
is_same (some b) a = same_ack b a

abbrev pub expected_of : TransactionFrame → TransactionAck
expected_of f = record {
  deployment_id = f.deployment_id;
  generation = f.generation;
  sequence = f.sequence;
  payload_hash = f.payload_hash;
  result_revision = 0;
  status = [];
}

unfoldable pub expect_ack : TransactionFrame → Coordinator → Coordinator
expect_ack f c = record c { expected_ack = some (expected_of f); pending_ack = none }

unfoldable pub clear_expected : Coordinator → Coordinator
clear_expected c = record c { expected_ack = none; pending_ack = none }

-- The tests of `receiveTransactionAck` after the one on the last acknowledgement.
unfoldable pub take_ack :
    Option TransactionAck
    → Option TransactionAck
    → TransactionAck
    → Coordinator
    → Result Failure Coordinator
unfolding same_ack same_identity
take_ack none held a c = err unsolicited
take_ack (some e) none a c =
    if same_identity e a
    then ok (record c { pending_ack = some a; ack_ready = true })
    else err identity_mismatch
take_ack (some e) (some held) a c =
    if same_identity e a
    then (if same_ack held a then ok c else err conflicting)
    else err identity_mismatch

unfoldable pub receive_ack : TransactionAck → Coordinator → Result Failure Coordinator
unfolding take_ack is_same
receive_ack a c = if is_same c.last_ack a then ok c else take_ack c.expected_ack c.pending_ack a c

unfoldable pub accept_pending :
    Option TransactionAck → Coordinator → Result Failure (TransactionAck × Coordinator)
accept_pending none c = err no_payload
accept_pending (some a) c =
    ok (a, record c { last_ack = some a; pending_ack = none; expected_ack = none })

unfoldable pub accept_ack : Coordinator → Result Failure (TransactionAck × Coordinator)
unfolding accept_pending
accept_ack c = accept_pending c.pending_ack c

-- What the select of `Commit` meets next: a control frame that the reader goroutine takes off the
-- wire, the reader's own failure, or one of the ready cases. The Boolean says whether the write
-- succeeds; `times_out` is a stop deadline that is reached, or that cannot be read.
pub data Input : Type 0 where
  arrives : TransactionAck → Input
  disconnects : Input
  acked : Input
  retries : Bool → Input
  finds_fatal : Input
  times_out : Input

pub data Status : Type 0 where
  waiting : Status
  settled : Text → Status
  uncertain : Failure → Status

-- `reportFatal` keeps the first error.
abbrev pub keep_first : Option Failure → Failure → Coordinator → Coordinator
keep_first (some old) e c = c
keep_first none e c = record c { fatal = some e }

unfoldable pub report_fatal : Failure → Coordinator → Coordinator
report_fatal e c = keep_first c.fatal e c

unfoldable pub received : Coordinator → Result Failure Coordinator → Coordinator
unfolding report_fatal
received c (ok d) = d
received c (err e) = report_fatal e c

-- One acknowledgement in `readControl`, which returns once it has reported a failure. `readInbound`
-- refuses a frame that does not validate.
abbrev pub while_open : Option Failure → Coordinator → Coordinator → Coordinator
while_open (some old) c d = c
while_open none c d = d

unfoldable pub control_ack : TransactionAck → Coordinator → Coordinator
unfolding received receive_ack valid_ack
control_ack a c =
    while_open c.fatal c (received c (if valid_ack a then receive_ack a c else err control_failed))

unfoldable pub answered :
    TransactionFrame
    → Coordinator
    → Result Failure (TransactionAck × Coordinator)
    → Coordinator × Status
unfolding accepted_status
answered f c (err e) = (c, uncertain e)
answered f c (ok (a, d)) =
    if accepted_status a.status
    then (record d { revision = a.result_revision }, settled f.next_state)
    else (d, uncertain (rejected a.status))

-- One round of the loop. A case whose channel is not ready is not chosen.
abbrev pub fatal_case : Option Failure → Coordinator → Coordinator × Status
fatal_case (some e) c = (c, uncertain e)
fatal_case none c = (c, waiting)

unfoldable pub advance : TransactionFrame → Input → Coordinator → Coordinator × Status
unfolding control_ack report_fatal answered accept_ack
advance f (arrives a) c = (control_ack a c, waiting)
advance f disconnects c = (report_fatal control_failed c, waiting)
advance f acked c =
    let taken = record c { ack_ready = false } in
    if c.ack_ready then answered f taken (accept_ack taken) else (c, waiting)
advance f (retries sent) c = if sent then (c, waiting) else (c, uncertain send_failed)
advance f finds_fatal c = fatal_case c.fatal c
advance f times_out c = (c, uncertain stop_deadline)

-- The loop, until it returns or the inputs end.
unfoldable pub settle : TransactionFrame → List Input → Coordinator × Status → Coordinator × Status
settle f [] (c, r) = (c, r)
settle f (i ∷ is) (c, waiting) = settle f is (advance f i c)
settle f (i ∷ is) (c, settled state) = (c, settled state)
settle f (i ∷ is) (c, uncertain e) = (c, uncertain e)

-- binary.BigEndian.PutUint64, as its last `k` of eight bytes.
unfoldable pub put_uint : ℕ → ℕ → Text
put_uint zero n = []
put_uint (suc k) n = put_uint k (n / 256) ++ (n % 256) ∷ []

unfoldable pub framed : List Text → Text
unfolding put_uint
framed [] = []
framed (raw ∷ rest) = put_uint 8 (length raw % 2 ^ 64) ++ (raw ++ framed rest)

-- The deferred clearExpectedAck, once Commit returns.
abbrev pub released : Coordinator × Status → Coordinator × Status
released (c, waiting) = (c, waiting)
released (c, settled state) = (clear_expected c, settled state)
released (c, uncertain e) = (clear_expected c, uncertain e)

module _ (w : Wire) where
  unfoldable pub hash_fields : TransactionFrame → List Text
  hash_fields f =
      w.marshal_text f.deployment_id
      ∷ w.marshal_number f.generation
      ∷ w.marshal_text f.worker_token
      ∷ w.marshal_number f.sequence
      ∷ w.marshal_number f.base_state_revision
      ∷ w.marshal_raw f.next_state
      ∷ w.marshal_entries f.checkpoints
      ∷ w.marshal_events f.events
      ∷ []

  unfoldable pub hash_frame : TransactionFrame → Text
  unfolding framed hash_fields
  hash_frame f = w.sha256 (framed (hash_fields f))

  unfoldable pub frame_of : TransactionCommit → Coordinator → TransactionFrame
  unfolding hash_frame
  frame_of tx c =
      let open_frame : TransactionFrame = record {
        deployment_id = c.hello.deployment_id;
        generation = c.hello.generation;
        worker_token = c.hello.worker_token;
        sequence = (c.seq + 1) % 2 ^ 64;
        base_state_revision = c.revision;
        next_state = tx.next_state;
        checkpoints = tx.checkpoints;
        events = tx.events;
        payload_hash = [];
      } in
      record open_frame { payload_hash = w.hex (hash_frame open_frame) }

  unfoldable pub submit : TransactionFrame → Bool → List Input → Coordinator → Coordinator × Status
  unfolding expect_ack settle
  submit f sent inputs c =
      if sent
      then released (settle f inputs (record (expect_ack f c) { seq = f.sequence }, waiting))
      else released (expect_ack f c, uncertain send_failed)

  -- `Commit`: whether the context is alive at its start, whether it still is before the frame is
  -- written, whether the write succeeds, and the inputs of the loop.
  unfoldable pub commit :
      TransactionCommit
      → Bool
      → Bool
      → Bool
      → List Input
      → Coordinator
      → Result Failure (Coordinator × Status)
  unfolding frame_of valid_transaction submit
  commit tx alive admitted sent inputs c =
      let f = frame_of tx c in
      if not alive
      then err cancelled
      else if not (valid_transaction w.trim_space w.json_valid f)
      then err invalid_frame
      else if ltb (4 * 1024 * 1024) (length (w.marshal_frame f) + 1)
      then err oversized
      else if not admitted
      then err cancelled
      else ok (submit f sent inputs c)
