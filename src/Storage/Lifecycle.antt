-- ===== src/Storage/Lifecycle.antt =====
-- internal/storage: any history of a store, that is of the calls that change its tables, in any
-- order: commits of workers, activations, the health and the ends of generations, restarts of the
-- daemon, the actions of the operator, the outbox and the slices of the sweeps.

use monitord.Base.{ℕ, Text, Bool, Option, List, [], ◌∷◌, Result, ok, err, ◌≡◌, refl, inl, inr}
use monitord.Storage.Schema.{Error, Platform, Store, OutboxEvent, Generation}
use monitord.Storage.Frames.{Frame}
use monitord.Storage.Transactions.{CommitFate, apply_transaction}
use monitord.Storage.Transactions.Atomicity.{apply_transaction-store}
use monitord.Storage.Generations.{Activation, activate_generation, recover_generations}
use monitord.Storage.Deployments.{
  DeployInput, deploy, pause_deployment, resume_deployment, archive_deployment, deactivate_due,
  replace_state, clear_checkpoints, purge_deployment,
}
use monitord.Storage.Health.{
  RunOutcome, mark_ready, mark_stopped, mark_stable, record_run, record_operational_failure,
}
use monitord.Storage.Outbox.Histories
use monitord.Storage.Retention.Replayed.{Slice, after_slice}
use monitord.Storage.Invariant.{Inv}
use monitord.Storage.Invariant.Beside.{
  IsBeside-Inv, IsSame-Inv, mark_ready-IsBeside, mark_stopped-IsBeside, mark_stable-IsSame,
  record_run-IsSame, record_operational_failure-IsSame, step-IsSame, after_slice-IsSame,
}
use monitord.Storage.Invariant.Operations.{
  apply_new-Inv, recover_generations-Inv, pause_deployment-Inv, resume_deployment-Inv,
  archive_deployment-Inv, deactivate_due-Inv, replace_state-Inv, clear_checkpoints-Inv,
  purge_deployment-Inv,
}
use monitord.Storage.Invariant.Activation.{activate_generation-Inv}
use monitord.Storage.Invariant.Redeploy.{deploy-Inv}

-- The arguments of one call.
pub data Call : Type 0 where
  commits_frame : Frame → CommitFate → ℕ → Call
  activates : Activation → Text → ℕ → ℕ → Call
  recovers : ℕ → Call
  deploys : DeployInput → Text → ℕ → Call
  pauses : Text → ℕ → Call
  resumes : Text → Option ℕ → ℕ → Call
  archives : Text → ℕ → Call
  deactivates : ℕ → Call
  replaces : Text → ℕ → Text → ℕ → Call
  clears : Text → ℕ → Call
  purges : Text → Bool → Call
  readies : Text → ℕ → ℕ → Call
  stops : Text → ℕ → Text → Text → ℕ → Call
  stabilizes : Text → ℕ → Text → ℕ → Call
  records : RunOutcome → Text → ℕ → Call
  breaks : Text → Option ℕ → Text → Text → ℕ → Call
  delivers : Histories.Call → Call
  sweeps : (OutboxEvent → ℕ) → (Generation → ℕ) → Slice → Call

-- A call that returns an error leaves the tables as they were.
abbrev pub after {ℓ} : {A : Type ℓ} → (A → Store) → Store → Result Error A → Store
after f s (ok a) = f a
after f s (err e) = s

unfoldable pub step : Platform → Store → Call → Store
step p s (commits_frame f fate now) = (apply_transaction p f fate now s).0
step p s (activates a token started now) =
    after (λ r. r.1) s (activate_generation p a token started now s)
step p s (recovers now) = recover_generations now s
step p s (deploys i new_id now) = after (λ r. r.1) s (deploy p i new_id now s)
step p s (pauses id now) = after (λ t. t) s (pause_deployment id now s)
step p s (resumes id expires now) = after (λ t. t) s (resume_deployment id expires now s)
step p s (archives id now) = after (λ t. t) s (archive_deployment id now s)
step p s (deactivates now) = (deactivate_due now s).1
step p s (replaces id base state now) = after (λ r. r.1) s (replace_state p id base state now s)
step p s (clears id now) = after (λ r. r.1) s (clear_checkpoints id now s)
step p s (purges id force) = after (λ t. t) s (purge_deployment id force s)
step p s (readies id n now) = after (λ t. t) s (mark_ready id n now s)
step p s (stops id n reason message now) = after (λ t. t) s (mark_stopped id n reason message now s)
step p s (stabilizes id n outbox_id now) = after (λ r. r.1) s (mark_stable p id n outbox_id now s)
step p s (records o outbox_id now) = after (λ r. r.1) s (record_run p o outbox_id now s)
step p s (breaks id n message outbox_id now) =
    after (λ r. r.1) s (record_operational_failure p id n message outbox_id now s)
step p s (delivers c) = Histories.step s c
step p s (sweeps event_row generation_row x) = after_slice event_row generation_row x s

unfoldable pub run : Platform → Store → List Call → Store
run p s [] = s
run p s (c ∷ cs) = run p (step p s c) cs

after_ok {ℓ κ} :
    {A : Type ℓ} (P : Store → Type κ) (f : A → Store) (s : Store) (r : Result Error A)
    → P s
    → ((a : A) → r ≡ ok a → P (f a))
    → P (after f s r)
after_ok P f s (ok a) h step = step a refl
after_ok P f s (err e) h step = h

pub step-Inv : (p : Platform) (s : Store) (c : Call) → Inv s → Inv (step p s c)
unfolding step
step-Inv p s (commits_frame f fate now) v = elim (apply_transaction-store p f now s fate) [
  | inl same ↦ rw same v
  | inr (ack, e) ↦ apply_new-Inv p f now s _ ack e v
]
step-Inv p s (activates a token started now) v =
    after_ok Inv _ s (activate_generation p a token started now s) v
      (λ r e. activate_generation-Inv p a token started now s r.1 r.0 e v)
step-Inv p s (recovers now) v = recover_generations-Inv now s v
step-Inv p s (deploys i new_id now) v =
    after_ok Inv _ s (deploy p i new_id now s) v (λ r e. deploy-Inv p i new_id now s r.1 r.0 e v)
step-Inv p s (pauses id now) v =
    after_ok Inv _ s (pause_deployment id now s) v (λ t e. pause_deployment-Inv id now s t e v)
step-Inv p s (resumes id expires now) v =
    after_ok Inv _ s (resume_deployment id expires now s) v
      (λ t e. resume_deployment-Inv id expires now s t e v)
step-Inv p s (archives id now) v =
    after_ok Inv _ s (archive_deployment id now s) v (λ t e. archive_deployment-Inv id now s t e v)
step-Inv p s (deactivates now) v = deactivate_due-Inv now s v
step-Inv p s (replaces id base state now) v =
    after_ok Inv _ s (replace_state p id base state now s) v
      (λ r e. replace_state-Inv p id base state now s r.1 r.0 e v)
step-Inv p s (clears id now) v =
    after_ok Inv _ s (clear_checkpoints id now s) v
      (λ r e. clear_checkpoints-Inv id now s r.1 r.0 e v)
step-Inv p s (purges id force) v =
    after_ok Inv _ s (purge_deployment id force s) v (λ t e. purge_deployment-Inv id force s t e v)
step-Inv p s (readies id n now) v =
    after_ok Inv _ s (mark_ready id n now s) v
      (λ t e. IsBeside-Inv s t (mark_ready-IsBeside id n now s t e) v)
step-Inv p s (stops id n reason message now) v =
    after_ok Inv _ s (mark_stopped id n reason message now s) v
      (λ t e. IsBeside-Inv s t (mark_stopped-IsBeside id n reason message now s t e) v)
step-Inv p s (stabilizes id n outbox_id now) v =
    after_ok Inv _ s (mark_stable p id n outbox_id now s) v
      (λ r e. IsSame-Inv s r.1 (mark_stable-IsSame p id n outbox_id now s r.1 r.0 e) v)
step-Inv p s (records o outbox_id now) v =
    after_ok Inv _ s (record_run p o outbox_id now s) v
      (λ r e. IsSame-Inv s r.1 (record_run-IsSame p o outbox_id now s r.1 r.0 e) v)
step-Inv p s (breaks id n message outbox_id now) v =
    after_ok Inv _ s (record_operational_failure p id n message outbox_id now s) v (λ r e.
      IsSame-Inv s r.1 (record_operational_failure-IsSame p id n message outbox_id now s r.1 r.0 e)
        v)
step-Inv p s (delivers c) v = IsSame-Inv s (Histories.step s c) (step-IsSame s c) v
step-Inv p s (sweeps event_row generation_row x) v =
    IsSame-Inv s (after_slice event_row generation_row x s)
      (after_slice-IsSame event_row generation_row x s) v

-- Every history of the calls that change the tables, successful or refused, keeps `Inv`: a live generation is the active one of
-- its deployment, so that a deployment has at most one worker that may write, generations are
-- positive, deployment IDs are unique, and a deployment that is not active has no generation.
pub run-Inv : (p : Platform) (s : Store) (cs : List Call) → Inv s → Inv (run p s cs)
unfolding run
run-Inv p s [] v = v
run-Inv p s (c ∷ cs) v = run-Inv p (step p s c) cs (step-Inv p s c v)
