-- ===== src/Storage/Transactions/Replay.antt =====
-- A frame that is sent again: the answer comes from the ledger, and nothing is written twice.
use monitord.Base.{
  ℕ, ◌+◌, ◌≡◌, inl, inr, true, Option, none, some, text_eq, text_eq_refl, arith, ok, Option-cases,
  Result-cases,
}
use monitord.Base.Table.{find}
use monitord.Storage.Schema.{Platform, Ack, Transaction, Store, is_transaction}
use monitord.Storage.Frames.{Frame, validate_frame}
use monitord.Storage.Transactions.{
  CommitFate, commits, lookup_transaction, apply_new, apply_transaction, ledger_row,
}
use monitord.Storage.Transactions.Inversion.{apply_new-Applied}

abbrev pub ledger_of : Frame → Store → Option Transaction
ledger_of f s = find (is_transaction f.deployment_id f.generation f.sequence) s.transactions

module _ (p : Platform) (f : Frame) where
  -- The ledger row of an applied frame is found at once, and holds its acknowledgement.
  pub apply_new-ledger :
      (now : ℕ) (s s' : Store) (ack : Ack)
      → apply_new p f now s ≡ ok (ack, s')
      → (t : Transaction) × (ledger_of f s' ≡ some t)
        × (text_eq t.payload_hash f.payload_hash ≡ true)
        × (t.ack_payload ≡ ack)
  unfolding find
  apply_new-ledger now s s' ack h =
      let a = apply_new-Applied p f now s ack s' h in
      (
        ledger_row p f (a.deployment.state_revision + 1) now,
        ground (arith, a.stored, text_eq_refl f.deployment_id),
        text_eq_refl f.payload_hash,
        ground (arith, a.acked),
      )

  -- A lookup that finds an acknowledgement has found its row with the frame's payload hash.
  pub lookup-found :
      (s : Store) (ack : Ack)
      → lookup_transaction p f s ≡ ok (some ack)
      → (t : Transaction) × (ledger_of f s ≡ some t)
        × (text_eq t.payload_hash f.payload_hash ≡ true)
        × (t.ack_payload ≡ ack)
  unfolding lookup_transaction
  lookup-found s ack h = elim (Option-cases (ledger_of f s)) [
    | inl e ↦ ground arith
    | inr (t, e) ↦ (t, e, ground arith, ground arith)
  ]

  pub lookup-of_ledger :
      (s : Store) (t : Transaction)
      → ledger_of f s ≡ some t
      → text_eq t.payload_hash f.payload_hash ≡ true
      → lookup_transaction p f s ≡ ok (some t.ack_payload)
  unfolding lookup_transaction
  lookup-of_ledger s t e h = ground arith

  pub apply_transaction-found :
      (fate : CommitFate) (now : ℕ) (s : Store) (ack : Ack)
      → validate_frame p f ≡ true
      → lookup_transaction p f s ≡ ok (some ack)
      → apply_transaction p f fate now s ≡ (s, ok ack)
  unfolding apply_transaction
  apply_transaction-found fate now s ack v h = ground arith

  -- A successful call leaves a ledger row that answers the frame.
  pub apply_transaction-answered :
      (now : ℕ) (s s' : Store) (ack : Ack)
      → apply_transaction p f commits now s ≡ (s', ok ack)
      → (validate_frame p f ≡ true)
        × (t : Transaction) × (ledger_of f s' ≡ some t)
        × (text_eq t.payload_hash f.payload_hash ≡ true)
        × (t.ack_payload ≡ ack)
  unfolding apply_transaction
  apply_transaction-answered now s s' ack h = elim (Result-cases (lookup_transaction p f s)) [
    | inl (none, e) ↦ elim (Result-cases (apply_new p f now s)) [
      | inl ((ack', s''), a) ↦
          let (t, found, hash, payload) = apply_new-ledger now s s'' ack' a in
          (ground arith, t, ground arith, hash, ground arith)
      | inr (x, a) ↦ ground arith
    ]
    | inl (some ack', e) ↦
        let (t, found, hash, payload) = lookup-found s ack' e in
        (ground arith, t, ground arith, hash, ground arith)
    | inr (x, e) ↦ ground arith
  ]

  -- Once a frame has been acknowledged, sending it again, whatever becomes of the COMMIT and at any
  -- later time, returns the same acknowledgement and writes nothing, in every later state of the
  -- tables that still has the frame's ledger row: also after the worker's generation was fenced.
  pub apply_transaction-replay :
      (fate : CommitFate) (now later : ℕ) (s s' t : Store) (ack : Ack)
      → apply_transaction p f commits now s ≡ (s', ok ack)
      → ledger_of f t ≡ ledger_of f s'
      → apply_transaction p f fate later t ≡ (t, ok ack)
  apply_transaction-replay fate now later s s' t ack h same =
      let (v, row, found, hash, payload) = apply_transaction-answered now s s' ack h in
      ground (arith, lookup-of_ledger t row, apply_transaction-found fate later t row.ack_payload v)
