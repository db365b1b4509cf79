-- ===== src/Storage/Transactions.antt =====
-- internal/storage/transactions.go: the commit of one worker transaction.
pub mod Inversion
pub mod Replay
pub mod Atomicity
pub mod Fencing
use monitord.Base.{
  ℕ, ◌+◌, Text, Bool, true, false, ◌&&◌, Option, none, some, List, [], ◌∷◌, ◌==◌, leb,
  if◌then◌else◌, text_eq, any, Result, ok, err, ◌>>=◌, ◌>>◌, guard, or_fail,
}
use monitord.Base.Table.{find, update, count}
use monitord.Storage.Schema.{
  Error, generation_fenced, sequence_conflict, missing_sequence, payload_conflict, state_conflict,
  invalid, commit_failed, Platform, Deployment, Generation, Checkpoint, Ack, accepted, Transaction,
  Outbox, Store, has_id, is_generation, is_transaction,
}
use monitord.Storage.Frames.{CheckpointMutation, Frame, validate_frame}
use monitord.Storage.Events.{insert_events}

-- What becomes of COMMIT: it succeeds, or it reports an error while the transaction is durable or
-- not, and the ledger can then be read or not.
pub data CommitFate : Type 0 where
  commits : CommitFate
  fails : Bool → Bool → CommitFate

module _ (p : Platform) where
  open p use {sha256}

  unfoldable pub matches_payload : Frame → Option Transaction → Result Error (Option Ack)
  matches_payload f none = ok none
  matches_payload f (some t) =
      if text_eq t.payload_hash f.payload_hash
      then ok (some t.ack_payload)
      else err payload_conflict

  -- `lookupTransaction`, and `resolveTransaction` on the read pool.
  unfoldable pub lookup_transaction : Frame → Store → Result Error (Option Ack)
  unfolding matches_payload
  lookup_transaction f s =
      matches_payload f
        (find (is_transaction f.deployment_id f.generation f.sequence) s.transactions)

  -- INSERT … ON CONFLICT(deployment_id, source) DO UPDATE.
  unfoldable pub upsert_checkpoint :
      Frame → ℕ → List Checkpoint → CheckpointMutation → List Checkpoint
  upsert_checkpoint f now rows c =
      let row : Checkpoint = record {
        deployment_id = f.deployment_id;
        source = c.source;
        value = c.value;
        value_hash = sha256 c.value;
        updated_generation = f.generation;
        updated_seq = f.sequence;
        updated_at = now;
      } in
      let at =
        λ (r : Checkpoint). text_eq r.deployment_id f.deployment_id && text_eq r.source c.source in
      if any at rows then update at (λ _. row) rows else row ∷ rows

  unfoldable pub upsert_checkpoints :
      Frame → ℕ → List CheckpointMutation → List Checkpoint → List Checkpoint
  unfolding upsert_checkpoint
  upsert_checkpoints f now [] rows = rows
  upsert_checkpoints f now (c ∷ cs) rows =
      upsert_checkpoints f now cs (upsert_checkpoint f now rows c)

  -- The deployment joined with its active generation.
  unfoldable pub active_row : Text → Store → Option (Deployment × Generation)
  active_row id s = elim (find (has_id id) s.deployments) [
    | none ↦ none
    | some d ↦
        elim (find (λ g. is_generation id d.active_generation g && g.is_live) s.generations) [
          | none ↦ none
          | some g ↦ some (d, g)
        ]
  ]

  -- The checks on the frame against the active generation, in the source's order.
  unfoldable pub admit : Frame → Deployment × Generation → Result Error (Unit {0})
  admit f (d, g) = do
    guard
        (d.active_generation == f.generation && text_eq g.worker_token_hash (sha256 f.worker_token))
        generation_fenced
    guard (f.sequence == g.last_transaction_seq + 1)
        (if leb f.sequence g.last_transaction_seq then missing_sequence else sequence_conflict)
    guard (f.base_state_revision == d.state_revision) state_conflict

  abbrev pub ack_of : Frame → ℕ → Ack
  ack_of f revision = record {
    deployment_id = f.deployment_id;
    generation = f.generation;
    sequence = f.sequence;
    payload_hash = f.payload_hash;
    result_revision = revision;
    status = accepted;
  }

  abbrev pub ledger_row : Frame → ℕ → ℕ → Transaction
  ledger_row f revision now = record {
    deployment_id = f.deployment_id;
    generation = f.generation;
    seq = f.sequence;
    payload_hash = f.payload_hash;
    base_revision = f.base_state_revision;
    result_revision = revision;
    ack_payload = ack_of f revision;
    committed_at = now;
  }

  abbrev pub is_target_deployment : Frame → Deployment → Bool
  is_target_deployment f d =
      text_eq d.id f.deployment_id
      && (d.active_generation == f.generation && d.state_revision == f.base_state_revision)

  abbrev pub is_target_generation : Frame → ℕ → Generation → Bool
  is_target_generation f last g =
      is_generation f.deployment_id f.generation g && g.last_transaction_seq == last

  -- The tables after the writes of one frame, with the outbox that its events lead to.
  abbrev pub written : Frame → ℕ → Deployment × Generation → Outbox → Store → Store
  written f now (d, g) o s =
      let revision = d.state_revision + 1 in
      record s {
        deployments =
            update (is_target_deployment f)
              (λ r. record r { state = f.next_state; state_revision = revision; updated_at = now })
              s.deployments;
        generations =
            update (is_target_generation f g.last_transaction_seq)
              (λ r. record r { last_transaction_seq = f.sequence }) s.generations;
        transactions = ledger_row f revision now ∷ s.transactions;
        checkpoints = upsert_checkpoints f now f.checkpoints s.checkpoints;
        outbox = o;
      }

  -- The writes of one admitted frame: the state, the sequence, the ledger, the checkpoints and the
  -- outbox. The lookup before has found no ledger row, so the INSERT meets no duplicate key.
  unfoldable pub write_frame :
      Frame → ℕ → Deployment × Generation → Store → Result Error (Ack × Store)
  write_frame f now (d, g) s =
      let revision = d.state_revision + 1 in
      do
        guard (count (is_target_deployment f) s.deployments == 1) generation_fenced
        guard (count (is_target_generation f g.last_transaction_seq) s.generations == 1)
            sequence_conflict
        o ← insert_events p s.bindings f now f.events s.outbox
        ok (ack_of f revision, written f now (d, g) o s)

  -- What is done on a frame whose ledger row has not been found.
  unfoldable pub apply_new : Frame → ℕ → Store → Result Error (Ack × Store)
  unfolding admit write_frame active_row
  apply_new f now s = do
    row ← or_fail (active_row f.deployment_id s) generation_fenced
    admit f row
    write_frame f now row s

  -- The answer to a failed COMMIT, from what the ledger then holds.
  resolve : Frame → Store → Bool → Result Error Ack
  unfolding lookup_transaction
  resolve f s false = err commit_failed
  resolve f s true = elim (lookup_transaction f s) [
    | ok (some ack) ↦ ok ack
    | _ ↦ err commit_failed
  ]

  commit_frame : Frame → CommitFate → Store → Ack × Store → Store × Result Error Ack
  unfolding resolve
  commit_frame f commits s (ack, s') = (s', ok ack)
  commit_frame f (fails durable readable) s (ack, s') =
      let after = if durable then s' else s in (after, resolve f after readable)

  finish : Frame → CommitFate → Store → Result Error (Ack × Store) → Store × Result Error Ack
  unfolding commit_frame
  finish f fate s (err e) = (s, err e)
  finish f fate s (ok r) = commit_frame f fate s r

  answer_or_apply :
      Frame → CommitFate → ℕ → Store → Result Error (Option Ack) → Store × Result Error Ack
  unfolding finish
  answer_or_apply f fate now s (err e) = (s, err e)
  answer_or_apply f fate now s (ok (some ack)) = (s, ok ack)
  answer_or_apply f fate now s (ok none) = finish f fate s (apply_new f now s)

  -- `ApplyTransaction`: the tables after the call, and its result.
  unfoldable pub apply_transaction : Frame → CommitFate → ℕ → Store → Store × Result Error Ack
  unfolding answer_or_apply
  apply_transaction f fate now s =
      if validate_frame p f
      then answer_or_apply f fate now s (lookup_transaction f s)
      else (s, err invalid)
