-- ===== src/Storage/Transactions/Inversion.antt =====
-- What a successful `apply_new` has checked and done.
use monitord.Base.{
  ℕ, ◌+◌, ◌≡◌, inl, inr, true, some, text_eq, arith, ok, Option-cases, Result-cases,
}
use monitord.Base.Table.{count}
use monitord.Storage.Schema.{Platform, Deployment, Generation, Ack, Outbox, Store}
use monitord.Storage.Frames.{Frame}
use monitord.Storage.Events.{insert_events}
use monitord.Storage.Transactions.{
  active_row, admit, write_frame, apply_new, is_target_deployment, ack_of, written,
}

pub record Applied (p : Platform) (f : Frame) (now : ℕ) (s : Store) (ack : Ack) (s' : Store)
    : Type 0 where
  pub deployment : Deployment
  pub generation : Generation
  pub outbox : Outbox
  pub row : active_row p f.deployment_id s ≡ some (deployment, generation)
  pub same_generation : deployment.active_generation ≡ f.generation
  pub same_token : text_eq generation.worker_token_hash (p.sha256 f.worker_token) ≡ true
  pub next_sequence : f.sequence ≡ generation.last_transaction_seq + 1
  pub same_revision : f.base_state_revision ≡ deployment.state_revision
  pub one_deployment : count (is_target_deployment p f) s.deployments ≡ 1
  pub inserted : insert_events p s.bindings f now f.events s.outbox ≡ ok outbox
  pub acked : ack ≡ ack_of p f (deployment.state_revision + 1)
  pub stored : s' ≡ written p f now (deployment, generation) outbox s

module _ (p : Platform) (f : Frame) (now : ℕ) (s : Store) where
  write_frame-Applied :
      (d : Deployment) (g : Generation) (ack : Ack) (s' : Store)
      → active_row p f.deployment_id s ≡ some (d, g)
      → admit p f (d, g) ≡ ok tt
      → write_frame p f now (d, g) s ≡ ok (ack, s')
      → Applied p f now s ack s'
  unfolding admit write_frame
  write_frame-Applied d g ack s' row admitted h =
      elim (Result-cases (insert_events p s.bindings f now f.events s.outbox)) [
        | inl (o, e) ↦ record {
          deployment = d;
          generation = g;
          outbox = o;
          row = row;
          same_generation = ground arith;
          same_token = ground arith;
          next_sequence = ground arith;
          same_revision = ground arith;
          one_deployment = ground arith;
          inserted = e;
          acked = ground arith;
          stored = ground arith;
        }
        | inr (x, e) ↦ ground arith
      ]

  pub apply_new-Applied :
      (ack : Ack) (s' : Store) → apply_new p f now s ≡ ok (ack, s') → Applied p f now s ack s'
  unfolding apply_new
  apply_new-Applied ack s' h = elim (Option-cases (active_row p f.deployment_id s)) [
    | inl e ↦ absurd (ground arith)
    | inr ((d, g), e) ↦ elim (Result-cases (admit p f (d, g))) [
      | inl (tt, a) ↦ write_frame-Applied d g ack s' e a (ground arith)
      | inr (x, a) ↦ absurd (ground arith)
    ]
  ]
