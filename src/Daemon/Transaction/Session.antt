-- ===== src/Daemon/Transaction/Session.antt =====
-- A commit from the worker's coordinator through the daemon to the store, and its acknowledgement back.
use monitord.Base.{
  ◌+◌, ◌^◌, ◌<◌, ◌≤◌, Text, text_eq, text_eq_refl, eq_of_text_eq, ◌≡◌, refl, sym, ap, ◌∙◌, inl, inr,
  true, false, Option, none, some, List, ◌∷◌, All, arith, ok, Option-cases,
}
use monitord.Base.Table.{find, find_sound, All-find, All-imp}
use monitord.Storage.Schema.{Platform, Transaction, Store, Deployment, Generation, has_id}
use monitord.Storage.Frames.{Frame}
use monitord.Storage.Transactions.{active_row}
use monitord.Storage.Transactions.Inversion.{apply_new-Applied}
use monitord.Storage.Transactions.Replay.{ledger_of}
use monitord.Storage.Transactions.Fencing.{active_row-found}
use monitord.Worker.Protocol.{TransactionFrame, TransactionAck}
use monitord.Worker.Coordinator.{
  Wire, TransactionCommit, Coordinator, Status, settled, Input, arrives, acked, is_same, same_ack,
  same_identity, expected_of, frame_of, commit,
}
use monitord.Worker.Acceptance.{commit-accepted}
use monitord.Daemon.Transaction.{Worker, Conditions, storage_frame, wire_ack, transaction}
use monitord.Daemon.Transaction.Writes.{applied_new, advanced, apply_new-row}
use monitord.Daemon.Transaction.Acks.{
  IsKeyed, transaction-Sent, acknowledged, frame_keys, transaction-same_identity,
}

-- The ledger row is not one of a frame that the coordinator has yet to send.
abbrev pub IsPast : Coordinator → Transaction → Type 0
IsPast c t =
    text_eq t.deployment_id c.hello.deployment_id ≡ true
    → t.generation ≡ c.hello.generation
    → t.seq ≤ c.seq

abbrev pub IsPastAck : Coordinator → Option TransactionAck → Type 0
IsPastAck c none = Unit
IsPastAck c (some a) = a.sequence ≤ c.seq

-- The worker and the store agree on the state's revision and on the last sequence.
pub record Agrees (p : Platform) (c : Coordinator) (s : Store) : Type 0 where
  pub deployment : Deployment
  pub generation : Generation
  pub row : active_row p c.hello.deployment_id s ≡ some (deployment, generation)
  pub active : deployment.active_generation ≡ c.hello.generation
  pub revision : deployment.state_revision ≡ c.revision
  pub sequence : generation.last_transaction_seq ≡ c.seq
  pub past : All (IsPast c) s.transactions
  pub keyed : All IsKeyed s.transactions
  pub alive : c.fatal ≡ none
  pub last : IsPastAck c c.last_ack

past-ledger_of :
    (c : Coordinator) (f : Frame) (s : Store)
    → f.deployment_id ≡ c.hello.deployment_id
    → f.generation ≡ c.hello.generation
    → f.sequence ≡ c.seq + 1
    → All (IsPast c) s.transactions
    → ledger_of f s ≡ none
past-ledger_of c f s id generation sequence past = elim (Option-cases (ledger_of f s)) [
  | inl e ↦ e
  | inr (t, e) ↦
      let old : IsPast c t = All-find (IsPast c) _ s.transactions t past e in
      let key = find_sound _ s.transactions t e in
      let same = eq_of_text_eq t.deployment_id f.deployment_id (ground arith) in
      let bound : t.seq ≤ c.seq =
        old (rw (same ∙ id) (text_eq_refl c.hello.deployment_id)) (ground arith) in
      absurd (ground (arith, key))
]

new_ack :
    (c : Coordinator) (a : TransactionAck) (o : Option TransactionAck)
    → IsPastAck c o
    → a.sequence ≡ c.seq + 1
    → is_same o a ≡ false
unfolding is_same same_identity same_ack
new_ack c a none past e = refl
new_ack c a (some b) past e = ground arith

ack_sequence :
    (f : TransactionFrame) (a : TransactionAck)
    → same_identity (expected_of f) a ≡ true
    → a.sequence ≡ f.sequence
unfolding same_identity
ack_sequence f a h = ground arith

-- The coordinator after it has taken the acknowledgement.
abbrev after_ack : Wire → TransactionCommit → Coordinator → TransactionAck → Coordinator
after_ack w tx c a = record c {
  seq = (frame_of w tx c).sequence;
  ack_ready = false;
  expected_ack = none;
  pending_ack = none;
  last_ack = some a;
  revision = a.result_revision;
}

module _ (p : Platform) (w : Wire) (unhex : Text → Text) (d : Worker) (k : Conditions)
    (tx : TransactionCommit) (c : Coordinator) (s s' : Store) (a : TransactionAck) where
  -- The store's side: the rows of the deployment after the call.
  record Stored : Type 0 where
    pub deployment : Deployment
    pub generation : Generation
    pub row : active_row p c.hello.deployment_id s' ≡ some (deployment, generation)
    pub active : deployment.active_generation ≡ c.hello.generation
    pub state : deployment.state ≡ tx.next_state
    pub revision : deployment.state_revision ≡ a.result_revision
    pub last : generation.last_transaction_seq ≡ c.seq + 1
    pub sequence : (frame_of w tx c).sequence ≡ c.seq + 1
    pub past : All (IsPast (after_ack w tx c a)) s'.transactions

  stored :
      Agrees p c s
      → c.seq + 1 < 2 ^ 63
      → transaction p w unhex d k (frame_of w tx c) s ≡ (s', ok a)
      → Stored
  unfolding frame_of storage_frame wire_ack
  stored agrees room h =
      let f = frame_of w tx c in
      let sent = transaction-Sent p w unhex d k f s a s' h in
      let g = storage_frame p w unhex d f s.bindings in
      let (v, _, _, _) = acknowledged p g k.now k.fate s s' sent.ack sent.applied in
      let (generation, sequence) = frame_keys p w unhex d f s v in
      let next : g.sequence ≡ c.seq + 1 = ground arith in
      let unseen = past-ledger_of c g s refl generation next agrees.past in
      let new = applied_new p g k.fate k.now s s' sent.ack sent.applied unseen in
      let (row, _, last, result) =
        apply_new-row p g k.now s s' sent.ack agrees.deployment agrees.generation agrees.row new in
      let applied = apply_new-Applied p g k.now s sent.ack s' new in
      let sent_sequence : f.sequence ≡ c.seq + 1 = ground arith in
      record {
        deployment = advanced g k.now agrees.deployment;
        generation = record agrees.generation { last_transaction_seq = g.sequence };
        row = row;
        active = agrees.active;
        state = refl;
        revision = ground (arith, sent.said, result);
        last = next;
        sequence = sent_sequence;
        past = rw applied.stored (
          (λ _ _. ground arith),
          All-imp (IsPast c) (IsPast (after_ack w tx c a)) s.transactions
              (λ t past id number. ground (arith, past id number)) agrees.past,
        );
      }

  after_ack-Agrees :
      Agrees p c s
      → Stored
      → same_identity (expected_of (frame_of w tx c)) a ≡ true
      → All IsKeyed s'.transactions
      → Agrees p (after_ack w tx c a) s'
  after_ack-Agrees agrees st same keyed = record {
    deployment = st.deployment;
    generation = st.generation;
    row = st.row;
    active = st.active;
    revision = st.revision;
    sequence = st.last ∙ sym st.sequence;
    past = st.past;
    keyed = keyed;
    alive = agrees.alive;
    last = ground (arith, ack_sequence (frame_of w tx c) a same);
  }

-- One commit that is acknowledged: the frame of the coordinator is applied by the daemon, whatever is
-- reported of the COMMIT, and the acknowledgement that the daemon sends reaches the coordinator.
pub record Exchange (p : Platform) (w : Wire) (unhex : Text → Text) (d : Worker)
    (tx : TransactionCommit) (c : Coordinator) (s : Store) (c' : Coordinator) (s' : Store)
    : Type 0 where
  pub conditions : Conditions
  pub ack : TransactionAck
  pub rest : List Input
  pub status : Status
  pub sent : transaction p w unhex d conditions (frame_of w tx c) s ≡ (s', ok ack)
  pub committed : commit w tx true true true (arrives ack ∷ acked ∷ rest) c ≡ ok (c', status)

-- Where a coordinator and the store agree on the deployment's state revision and the last sequence, a
-- commit whose acknowledgement arrives and is taken returns the committed state; that state is then
-- the deployment's in the store, at the revision that the coordinator has; and the two agree again,
-- with room for the next sequence below 2^63.
pub exchange-Agrees :
    (p : Platform) (w : Wire) (unhex : Text → Text) (d : Worker) (tx : TransactionCommit)
    (c c' : Coordinator) (s s' : Store)
    → Agrees p c s
    → c.seq + 1 < 2 ^ 63
    → (e : Exchange p w unhex d tx c s c' s')
    → (e.status ≡ settled tx.next_state)
      × (r : Deployment) × (find (has_id c.hello.deployment_id) s'.deployments ≡ some r)
      × (r.state ≡ tx.next_state)
      × (r.state_revision ≡ c'.revision)
      × Agrees p c' s'
exchange-Agrees p w unhex d tx c c' s s' agrees room e =
    let a = e.ack in
    let k = e.conditions in
    let (same, valid, keyed) =
      transaction-same_identity p w unhex d k (frame_of w tx c) s s' a agrees.keyed e.sent in
    let st = stored p w unhex d k tx c s s' a agrees room e.sent in
    let left =
      commit-accepted w tx a e.rest c (c', e.status) agrees.alive valid
        (new_ack c a c.last_ack agrees.last (ack_sequence (frame_of w tx c) a same ∙ st.sequence))
        same e.committed in
    let at : c' ≡ after_ack w tx c a = ap (λ (r : Coordinator × Status). r.0) left in
    let (found, _) =
      active_row-found p c.hello.deployment_id s' st.deployment st.generation st.row in
    (
      ap (λ (r : Coordinator × Status). r.1) left,
      st.deployment,
      found,
      st.state,
      st.revision ∙ ap (λ (x : Coordinator). x.revision) (sym at),
      rw at (after_ack-Agrees p w unhex d k tx c s s' a agrees st same keyed),
    )
