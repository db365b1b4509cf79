-- ===== src/Tests/Lifecycle.antt =====
-- The life of a deployment at the sample store.
use monitord.Base.{
  ◌<◌, ◌≡◌, refl, inl, true, none, List, [], ◌∷◌, All, arith, ok, err, text_eq, codes,
}
use monitord.Base.Table.{find, update, count, select, max_of}
use monitord.Storage.Schema.{Store, generation_fenced, of_deployment}
use monitord.Storage.Frames.{validate_frame}
use monitord.Storage.Transactions.{commits, apply_transaction, apply_new}
use monitord.Storage.Transactions.Replay.{ledger_of}
use monitord.Storage.Generations.{
  Activation, ActiveGeneration, activate_generation, recover_generations, activated, ensure_health,
}
use monitord.Storage.Events.{insert_events, insert_outbox_event}
use monitord.Storage.Deployments.{replace_state, pause_deployment}
use monitord.Storage.Invariant.{Inv}
use monitord.Storage.Invariant.Activation.{activate_generation-fresh}
use monitord.Storage.Lifecycle.{
  Call, commits_frame, recovers, pauses, stops, purges, delivers, run, run-Inv, step,
}
use monitord.Storage.Outbox.Histories.{claims}
use monitord.Storage.Outbox.Histories
use monitord.Storage.Outbox.{claim_outbox}
use monitord.Storage.Health.{mark_stopped}
use monitord.Storage.Deployments.{purge_deployment}
use monitord.Storage.Stale.{IsStale, run-fenced}
use monitord.Tests.Samples.{platform, id, deployment, store, frame, stale_frame}

abbrev activation : Activation
activation = record {
  deployment_id = id;
  artifact_id = 97 ∷ [];
  config_revision = 2;
  state_revision = 4;
  active_generation = 3;
  secret_fingerprint = 102 ∷ [];
}

abbrev history : List Call
history =
    commits_frame frame commits 10
    ∷ stops id 3 (codes "exit") [] 15
    ∷ pauses id 20
    ∷ recovers 30
    ∷ purges (120 ∷ []) true
    ∷ delivers (claims (119 ∷ []) (99 ∷ []) 40 5 1)
    ∷ []

store-Inv : Inv store
unfolding find count select text_eq
store-Inv = record {
  fenced = ((λ live. (deployment, refl, refl)), tt);
  numbered = (omega arith, tt);
  unique = λ k. ground arith;
  quiet = λ k d found. inl (ground arith);
}

run-Inv_example : Inv (run platform store history)
run-Inv_example = run-Inv platform store history store-Inv

stale : IsStale id 2 store
unfolding find max_of text_eq
stale = record { positive = omega arith; past = omega arith; absent = λ d found e. ground arith }

stale_valid : validate_frame platform stale_frame ≡ true
unfolding validate_frame
stale_valid = refl

stale_unseen : ledger_of stale_frame (run platform store history) ≡ none
unfolding run step apply_transaction apply_new validate_frame insert_events insert_outbox_event
    pause_deployment recover_generations ensure_health mark_stopped purge_deployment Histories.step
    claim_outbox find update count select text_eq codes
stale_unseen = refl

-- A frame of generation 2 after generation 3 has committed a transaction and stopped, the deployment
-- was paused, another one was purged and a delivery worker made a claim.
run-fenced_example :
    apply_transaction platform stale_frame commits 50 (run platform store history)
    ≡ (run platform store history, err generation_fenced)
unfolding text_eq
run-fenced_example =
    run-fenced platform stale_frame commits 50 store history
      (refl, (refl, (refl, (refl, (refl, (refl, tt)))))) stale stale_valid stale_unseen

abbrev granted : ActiveGeneration
granted = record { deployment_id = id; generation = 4; worker_token = 1 ∷ [] }

activate_generation-fresh_example :
    All (λ r. of_deployment id r ≡ true → r.generation < 4) store.generations
unfolding activate_generation find count select max_of text_eq
activate_generation-fresh_example =
    activate_generation-fresh platform activation (1 ∷ []) 5 6 store
      (activated platform activation (1 ∷ []) 6 store) granted refl

replaced : Store
unfolding replace_state update ensure_health count find text_eq
replaced = elim (replace_state platform id 4 (123 ∷ 125 ∷ []) 7 store) [
  | ok (n, s) ↦ s
  | err e ↦ store
]
