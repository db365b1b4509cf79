-- ===== src/Daemon/Transaction/Acks.antt =====
-- internal/daemon/worker.go, `transaction`: the acknowledgement that the daemon sends.
use mathlib.Core.Path.{subst}
use monitord.Base.{
  ℕ, Text, text_eq_refl, eq_of_text_eq, ◌≡◌, refl, sym, ap, ◌∙◌, inl, inr, Bool, true, false, ◌&&◌,
  none, some, All, arith, Result, ok, err, Bool-cases, Result-cases,
}
use monitord.Base.Table.{find_sound, All-find}
use monitord.Storage.Schema.{Error, Platform, Ack, Transaction, Store}
use monitord.Storage.Frames.{Frame, validate_frame}
use monitord.Storage.Transactions.{
  CommitFate, commits, fails, lookup_transaction, apply_new, apply_transaction,
}
use monitord.Storage.Transactions.Inversion.{apply_new-Applied}
use monitord.Storage.Transactions.Replay.{
  ledger_of, lookup-found, lookup-of_ledger, apply_new-ledger, apply_transaction-answered,
}
use monitord.Storage.Transactions.Atomicity.{apply_transaction-store}
use monitord.Worker.Protocol.{TransactionFrame, TransactionAck, valid_ack}
use monitord.Worker.Coordinator.{Wire, same_identity, expected_of}
use monitord.Daemon.Transaction.{
  Worker, Conditions, int64, storage_frame, wire_ack, send_ack, is_own, verify_wire_hash,
  transaction,
}

-- A ledger row holds an acknowledgement of its own key.
pub record IsKeyed (t : Transaction) : Type 0 where
  pub deployment : t.ack_payload.deployment_id ≡ t.deployment_id
  pub generation : t.ack_payload.generation ≡ t.generation
  pub sequence : t.ack_payload.sequence ≡ t.seq

module _ (p : Platform) (f : Frame) (now : ℕ) where
  -- An acknowledgement, whatever became of the COMMIT, is the one of the frame's ledger row.
  pub acknowledged :
      (fate : CommitFate) (s s' : Store) (ack : Ack)
      → apply_transaction p f fate now s ≡ (s', ok ack)
      → (validate_frame p f ≡ true)
        × (t : Transaction) × (ledger_of f s' ≡ some t)
        × (t.ack_payload ≡ ack)
  unfolding apply_transaction
  acknowledged commits s s' ack h =
      let (v, t, found, hash, payload) = apply_transaction-answered p f now s s' ack h in
      (v, t, found, payload)
  acknowledged (fails durable readable) s s' ack h =
      elim (Result-cases (lookup_transaction p f s)) [
        | inl (none, e) ↦ elim (Result-cases (apply_new p f now s)) [
          | inl ((ack', s''), a) ↦ resolved durable readable s'' ack' e a h
          | inr (x, a) ↦ ground arith
        ]
        | inl (some ack', e) ↦
            let (t, found, hash, payload) = lookup-found p f s ack' e in
            (ground arith, t, ground arith, ground arith)
        | inr (x, e) ↦ ground arith
      ]
    where
      resolved :
          (durable readable : Bool) (s'' : Store) (ack' : Ack)
          → lookup_transaction p f s ≡ ok none
          → apply_new p f now s ≡ ok (ack', s'')
          → apply_transaction p f (fails durable readable) now s ≡ (s', ok ack)
          → (validate_frame p f ≡ true)
            × (t : Transaction) × (ledger_of f s' ≡ some t)
            × (t.ack_payload ≡ ack)
      resolved true true s'' ack' e a h =
          let (t, found, hash, payload) = apply_new-ledger p f now s s'' ack' a in
          let looked = lookup-of_ledger p f s'' t found hash in
          (ground arith, t, ground arith, ground arith)
      resolved true false s'' ack' e a h = absurd (ground arith)
      resolved false true s'' ack' e a h = absurd (ground arith)
      resolved false false s'' ack' e a h = absurd (ground arith)

  apply_new-IsKeyed :
      (s s' : Store) (ack : Ack)
      → apply_new p f now s ≡ ok (ack, s')
      → All IsKeyed s.transactions
      → All IsKeyed s'.transactions
  apply_new-IsKeyed s s' ack h keyed =
      let a = apply_new-Applied p f now s ack s' h in
      rw a.stored (record { deployment = refl; generation = refl; sequence = refl }, keyed)

  pub apply_transaction-IsKeyed :
      (fate : CommitFate) (s : Store)
      → All IsKeyed s.transactions
      → All IsKeyed (apply_transaction p f fate now s).0.transactions
  apply_transaction-IsKeyed fate s keyed = elim (apply_transaction-store p f now s fate) [
    | inl same ↦ rw same keyed
    | inr (ack, h) ↦ apply_new-IsKeyed s _ ack h keyed
  ]

-- What has been checked and done where an acknowledgement has been sent.
pub record Sent (p : Platform) (w : Wire) (unhex : Text → Text) (d : Worker) (k : Conditions)
    (f : TransactionFrame) (s : Store) (a : TransactionAck) (s' : Store) : Type 0 where
  pub ack : Ack
  pub own : is_own p w unhex d f ≡ true
  pub hashed : verify_wire_hash p w unhex f ≡ true
  pub applied :
      apply_transaction p (storage_frame p w unhex d f s.bindings) k.fate k.now s ≡ (s', ok ack)
  pub said : a ≡ wire_ack p w unhex f ack
  pub valid : valid_ack a ≡ true

module _ (p : Platform) (w : Wire) (unhex : Text → Text) (d : Worker) (k : Conditions)
    (f : TransactionFrame) (s : Store) where
  send_ack-Sent :
      (r : Store × Result Error Ack) (a : TransactionAck) (s' : Store)
      → apply_transaction p (storage_frame p w unhex d f s.bindings) k.fate k.now s ≡ r
      → is_own p w unhex d f ≡ true
      → verify_wire_hash p w unhex f ≡ true
      → send_ack p w unhex f k.ack_written r ≡ (s', ok a)
      → Sent p w unhex d k f s a s'
  unfolding send_ack
  send_ack-Sent (s'', err e) a s' applied own hashed h = absurd (ground arith)
  send_ack-Sent (s'', ok ack) a s' applied own hashed h =
      elim (Bool-cases (valid_ack (wire_ack p w unhex f ack) && k.ack_written)) [
        | inl e ↦ record {
          ack = ack;
          own = own;
          hashed = hashed;
          applied = ground arith;
          said = ground arith;
          valid = ground arith;
        }
        | inr e ↦ absurd (ground arith)
      ]

  pub transaction-Sent :
      (a : TransactionAck) (s' : Store)
      → transaction p w unhex d k f s ≡ (s', ok a)
      → Sent p w unhex d k f s a s'
  unfolding transaction
  transaction-Sent a s' h = elim (Bool-cases (is_own p w unhex d f)) [
    | inr e ↦ absurd (ground arith)
    | inl own ↦ elim (Bool-cases (verify_wire_hash p w unhex f)) [
      | inr e ↦ absurd (ground arith)
      | inl hashed ↦
          send_ack-Sent
            (apply_transaction p (storage_frame p w unhex d f s.bindings) k.fate k.now s) a s' refl
            own hashed (ground arith)
    ]
  ]

pub frame_keys :
    (p : Platform) (w : Wire) (unhex : Text → Text) (d : Worker) (f : TransactionFrame) (s : Store)
    → validate_frame p (storage_frame p w unhex d f s.bindings) ≡ true
    → (int64 f.generation ≡ f.generation) × (int64 f.sequence ≡ f.sequence)
unfolding validate_frame storage_frame
frame_keys p w unhex d f s v = (ground arith, ground arith)

wire_ack-same_identity :
    (p : Platform) (w : Wire) (unhex : Text → Text) (f : TransactionFrame) (ack : Ack)
    → f.deployment_id ≡ ack.deployment_id
    → f.generation ≡ ack.generation
    → f.sequence ≡ ack.sequence
    → same_identity (expected_of f) (wire_ack p w unhex f ack) ≡ true
unfolding same_identity wire_ack
wire_ack-same_identity p w unhex f ack id generation sequence =
    rw (sym id, sym generation, sym sequence)
      (ground (arith, text_eq_refl f.deployment_id, text_eq_refl f.payload_hash))

-- In a store whose ledger rows hold acknowledgements of their own keys, an acknowledgement that the
-- daemon sends, whatever became of the COMMIT and also for a frame it has seen before, is valid and
-- has the identity that the worker expects of its frame; and the ledger stays such.
pub transaction-same_identity :
    (p : Platform) (w : Wire) (unhex : Text → Text) (d : Worker) (k : Conditions)
    (f : TransactionFrame) (s s' : Store) (a : TransactionAck)
    → All IsKeyed s.transactions
    → transaction p w unhex d k f s ≡ (s', ok a)
    → (same_identity (expected_of f) a ≡ true) × (valid_ack a ≡ true) × All IsKeyed s'.transactions
unfolding storage_frame
transaction-same_identity p w unhex d k f s s' a keyed h =
    let sent = transaction-Sent p w unhex d k f s a s' h in
    let g = storage_frame p w unhex d f s.bindings in
    let stays : All IsKeyed s'.transactions =
      subst (λ (r : Store × Result Error Ack). All IsKeyed r.0.transactions) sent.applied
        (apply_transaction-IsKeyed p g k.now k.fate s keyed) in
    let (v, t, found, payload) = acknowledged p g k.now k.fate s s' sent.ack sent.applied in
    let key : IsKeyed t = All-find IsKeyed _ s'.transactions t stays found in
    let named = find_sound _ s'.transactions t found in
    let (generation, sequence) = frame_keys p w unhex d f s v in
    let deployment : sent.ack.deployment_id ≡ f.deployment_id =
      ap (λ (x : Ack). x.deployment_id) (sym payload)
      ∙ key.deployment
      ∙ eq_of_text_eq t.deployment_id f.deployment_id (ground arith) in
    let of_generation : sent.ack.generation ≡ f.generation =
      ap (λ (x : Ack). x.generation) (sym payload) ∙ key.generation ∙ ground arith in
    let of_sequence : sent.ack.sequence ≡ f.sequence =
      ap (λ (x : Ack). x.sequence) (sym payload) ∙ key.sequence ∙ ground arith in
    (
      rw sent.said (
          wire_ack-same_identity p w unhex f sent.ack (sym deployment) (sym of_generation)
            (sym of_sequence)),
      sent.valid,
      stays,
    )
