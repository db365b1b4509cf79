-- ===== src/Daemon/Transaction/Writes.antt =====
-- internal/storage/transactions.go: what is written for a frame that the ledger has not seen.
use mathlib.Core.Path.{subst}
use monitord.Base.{ℕ, ◌+◌, ◌≡◌, refl, sym, ap, ◌∙◌, inl, inr, ◌&&◌, none, some, arith, Result, ok}
use monitord.Base.Table.{find, find_sound, find-update}
use monitord.Storage.Schema.{Error, Platform, Ack, Store, Deployment, Generation, is_generation}
use monitord.Storage.Frames.{Frame}
use monitord.Storage.Transactions.{
  CommitFate, apply_new, apply_transaction, active_row, is_target_generation,
}
use monitord.Storage.Transactions.Inversion.{apply_new-Applied}
use monitord.Storage.Transactions.Replay.{ledger_of, apply_new-ledger}
use monitord.Storage.Transactions.Fencing.{apply_new-state, active_row-found}
use monitord.Storage.Transactions.Atomicity.{apply_transaction-store}
use monitord.Daemon.Transaction.Acks.{acknowledged}

-- A ledger without the frame's row is written, and the acknowledgement is that of the write.
pub applied_new :
    (p : Platform) (f : Frame) (fate : CommitFate) (now : ℕ) (s s' : Store) (ack : Ack)
    → apply_transaction p f fate now s ≡ (s', ok ack)
    → ledger_of f s ≡ none
    → apply_new p f now s ≡ ok (ack, s')
applied_new p f fate now s s' ack h none_yet =
    let (v, t, found, payload) = acknowledged p f now fate s s' ack h in
    elim (apply_transaction-store p f now s fate) [
      | inl same ↦
          let unchanged : s' ≡ s = sym (ap (λ (r : Store × Result Error Ack). r.0) h) ∙ same in
          absurd (ground (arith, unchanged))
      | inr (ack', a) ↦
          let new : apply_new p f now s ≡ ok (ack', s') =
            subst (λ (r : Store × Result Error Ack). apply_new p f now s ≡ ok (ack', r.0)) h a in
          let (t', found', hash, payload') = apply_new-ledger p f now s s' ack' new in
          ground (arith, new)
    ]

abbrev pub advanced : Frame → ℕ → Deployment → Deployment
advanced f now d = record d {
  state = f.next_state;
  state_revision = d.state_revision + 1;
  updated_at = now;
}

-- The active rows after a write.
pub apply_new-row :
    (p : Platform) (f : Frame) (now : ℕ) (s s' : Store) (ack : Ack) (d : Deployment)
    (g : Generation)
    → active_row p f.deployment_id s ≡ some (d, g)
    → apply_new p f now s ≡ ok (ack, s')
    → (active_row p f.deployment_id s'
        ≡ some (advanced f now d, record g { last_transaction_seq = f.sequence }))
      × (d.state_revision ≡ f.base_state_revision)
      × (f.sequence ≡ g.last_transaction_seq + 1)
      × (ack.result_revision ≡ d.state_revision + 1)
unfolding active_row
apply_new-row p f now s s' ack d g row h =
    let a = apply_new-Applied p f now s ack s' h in
    let (d0, found0, active, revision, after, result, _) = apply_new-state p f now s s' ack h in
    let (found, live) = active_row-found p f.deployment_id s d g row in
    let same_d : d0 ≡ d = ground arith in
    let same_deployment : a.deployment ≡ d = ground (arith, a.row) in
    let same_g : a.generation ≡ g = ground (arith, a.row) in
    let key = find_sound _ s.generations g live in
    let generations =
      find-update (is_target_generation p f a.generation.last_transaction_seq)
        (λ r. is_generation f.deployment_id d.active_generation r && r.is_live)
        (λ r. record r { last_transaction_seq = f.sequence }) s.generations (λ r. refl) in
    let joined : find (λ r. is_generation f.deployment_id d.active_generation r && r.is_live)
          s'.generations
        ≡ some (record g { last_transaction_seq = f.sequence }) =
      ground (arith, a.stored, generations, live, key, active) in
    (ground (arith, after, joined), ground arith, ground (arith, a.next_sequence), ground arith)
