-- ===== src/Storage/Stale.antt =====
-- internal/storage: a generation that has been superseded, and the frames of its worker.
use monitord.Base.{
  ℕ, ◌≤◌, ◌<◌, Text, ◌≡◌, ◌≢◌, refl, sym, ◌∙◌, inl, inr, Bool, true, false, not, All, ◌&&◌, ◌==◌,
  none, some, List, [], ◌∷◌, arith, codes, ◌++◌, text_eq, err,
}
use monitord.Base.Table.{find, update-never}
use monitord.Storage.Schema.{
  Platform, Deployment, active, inactive, is_active, is_inactive, Store, has_id, generation_fenced,
}
use monitord.Storage.Frames.{Frame, validate_frame}
use monitord.Storage.Transactions.{CommitFate, apply_transaction}
use monitord.Storage.Transactions.Replay.{ledger_of}
use monitord.Storage.Transactions.Atomicity.{apply_transaction-store}
use monitord.Storage.Transactions.Fencing.{apply_transaction-fenced, active_row-found}
use monitord.Storage.Generations.{
  activate_generation, recover_generations, is_live_of, retire, retire_once, set_active_generation,
}
use monitord.Storage.Deployments.{
  deploy, pause_deployment, resume_deployment, archive_deployment, replace_state, clear_checkpoints,
  with_status, archive, with_state, purge_deployment,
}
use monitord.Storage.Advances.{
  latest, Advances, Advances-refl, update-Advances, apply_new-Advances, activate-Advances,
  deploy-Advances, deactivate-Advances, after-Advances, IsBeside-Advances, IsSame-Advances,
  purge-Advances,
}
use monitord.Storage.Lifecycle.{
  Call, commits_frame, activates, recovers, deploys, pauses, resumes, archives, deactivates,
  replaces, clears, purges, readies, stops, stabilizes, records, breaks, delivers, sweeps, step,
  run,
}
use monitord.Storage.Health.{
  mark_ready, mark_stopped, mark_stable, record_run, record_operational_failure,
}
use monitord.Storage.Outbox.Histories
use monitord.Storage.Retention.Replayed.{after_slice}
use monitord.Storage.Invariant.Beside.{
  mark_ready-IsBeside, mark_stopped-IsBeside, mark_stable-IsSame, record_run-IsSame,
  record_operational_failure-IsSame, step-IsSame, after_slice-IsSame,
}

-- No row of the deployment has the generation as its active one, and it is not above the latest.
pub record IsStale (id : Text) (n : ℕ) (s : Store) : Type 0 where
  pub positive : 0 < n
  pub past : n ≤ latest id s.generations
  pub absent : (d : Deployment) → find (has_id id) s.deployments ≡ some d → d.active_generation ≢ n

Advances-IsStale :
    (id : Text) (n : ℕ) (s t : Store) → Advances id s t → IsStale id n s → IsStale id n t
Advances-IsStale id n s t a v = record {
  positive = v.positive;
  past = omega (arith, a.grows, v.past);
  absent = λ d h e. elim (a.moves d h) [
    | inl zero ↦ absurd (omega (arith, v.positive))
    | inr (inl (x, there, same)) ↦ v.absent x there (sym same ∙ e)
    | inr (inr above) ↦ absurd (omega (arith, v.past))
  ];
}

-- The call is not a purge of the deployment.
abbrev pub is_spared : Text → Call → Bool
is_spared id (purges k force) = not (text_eq k id)
is_spared id _ = true

step-Advances :
    (p : Platform) (id : Text) (s : Store) (c : Call)
    → is_spared id c ≡ true
    → Advances id s (step p s c)
unfolding step pause_deployment resume_deployment archive_deployment replace_state clear_checkpoints
    recover_generations
step-Advances p id s (commits_frame f fate now) spared =
    elim (apply_transaction-store p f now s fate) [
      | inl same ↦ rw same (Advances-refl id s)
      | inr (ack, e) ↦ apply_new-Advances p id f now s _ ack e
    ]
step-Advances p id s (activates a token started now) spared =
    after-Advances id _ s (activate_generation p a token started now s)
      (λ r e. activate-Advances p id a token started now s r.1 r.0 e)
step-Advances p id s (recovers now) spared =
    update-Advances id _ (set_active_generation 0 now) _
      (retire_once (codes "daemon restarted") now) s _ (λ _. refl) (λ _. inl refl) (λ _. refl)
      (λ _. refl) refl refl
step-Advances p id s (deploys i new_id now) spared =
    after-Advances id _ s (deploy p i new_id now s)
      (λ r e. deploy-Advances p id i new_id now s r.1 r.0 e)
step-Advances p id s (pauses k now) spared =
    after-Advances id _ s (pause_deployment k now s) (λ t e.
      update-Advances id (λ d. has_id k d && is_active d.status) (with_status inactive none now)
        (is_live_of k) (retire (codes "deployment " ++ codes "inactive") now) s t (λ _. refl)
        (λ _. inl refl) (λ _. refl) (λ _. refl) (ground arith) (ground arith))
step-Advances p id s (resumes k expires now) spared =
    after-Advances id _ s (resume_deployment k expires now s) (λ t e.
      let gs : t.generations ≡ s.generations = ground arith in
      update-Advances id (λ d. has_id k d && is_inactive d.status) (with_status active expires now)
        (λ _. false) (λ g. g) s t (λ _. refl) (λ _. inl refl) (λ _. refl) (λ _. refl) (ground arith)
        (gs ∙ sym (update-never (λ g. g) s.generations)))
step-Advances p id s (archives k now) spared =
    after-Advances id _ s (archive_deployment k now s) (λ t e.
      update-Advances id (λ d. has_id k d && is_inactive d.status) (archive now) (is_live_of k)
        (retire (codes "deployment archived") now) s t (λ _. refl) (λ _. inr refl) (λ _. refl)
        (λ _. refl) (ground arith) (ground arith))
step-Advances p id s (deactivates now) spared = deactivate-Advances id now s
step-Advances p id s (replaces k base state now) spared =
    after-Advances id _ s (replace_state p k base state now s) (λ r e.
      update-Advances id (λ d. has_id k d && d.state_revision == base) (with_state state now)
        (is_live_of k) (retire (codes "state replaced") now) s r.1 (λ _. refl) (λ _. inl refl)
        (λ _. refl) (λ _. refl) (ground arith) (ground arith))
step-Advances p id s (clears k now) spared =
    after-Advances id _ s (clear_checkpoints k now s) (λ r e.
      update-Advances id (λ d. has_id k d && is_inactive d.status) (set_active_generation 0 now)
        (is_live_of k) (retire_once (codes "checkpoints cleared") now) s r.1 (λ _. refl)
        (λ _. inl refl) (λ _. refl) (λ _. refl) (ground arith) (ground arith))
step-Advances p id s (purges k force) spared =
    after-Advances id _ s (purge_deployment k force s)
      (λ t e. purge-Advances id k force s t (ground arith) e)
step-Advances p id s (readies k n now) spared =
    after-Advances id _ s (mark_ready k n now s)
      (λ t e. IsBeside-Advances id s t (mark_ready-IsBeside k n now s t e))
step-Advances p id s (stops k n reason message now) spared =
    after-Advances id _ s (mark_stopped k n reason message now s)
      (λ t e. IsBeside-Advances id s t (mark_stopped-IsBeside k n reason message now s t e))
step-Advances p id s (stabilizes k n outbox_id now) spared =
    after-Advances id _ s (mark_stable p k n outbox_id now s)
      (λ r e. IsSame-Advances id s r.1 (mark_stable-IsSame p k n outbox_id now s r.1 r.0 e))
step-Advances p id s (records o outbox_id now) spared =
    after-Advances id _ s (record_run p o outbox_id now s)
      (λ r e. IsSame-Advances id s r.1 (record_run-IsSame p o outbox_id now s r.1 r.0 e))
step-Advances p id s (breaks k n message outbox_id now) spared =
    after-Advances id _ s (record_operational_failure p k n message outbox_id now s) (λ r e.
      IsSame-Advances id s r.1
        (record_operational_failure-IsSame p k n message outbox_id now s r.1 r.0 e))
step-Advances p id s (delivers c) spared =
    IsSame-Advances id s (Histories.step s c) (step-IsSame s c)
step-Advances p id s (sweeps event_row generation_row x) spared =
    IsSame-Advances id s (after_slice event_row generation_row x s)
      (after_slice-IsSame event_row generation_row x s)

-- A stale generation stays stale in any history that does not purge its deployment.
pub run-IsStale :
    (p : Platform) (id : Text) (n : ℕ) (s : Store) (cs : List Call)
    → All (λ c. is_spared id c ≡ true) cs
    → IsStale id n s
    → IsStale id n (run p s cs)
unfolding run
run-IsStale p id n s [] spared v = v
run-IsStale p id n s (c ∷ cs) spared v =
    run-IsStale p id n (step p s c) cs spared.1
      (Advances-IsStale id n s (step p s c) (step-Advances p id s c spared.0) v)

-- A generation is stale that some row of the deployment has reached and none has as its active one.
-- After any history of the calls that change the tables, as long as it does not purge the deployment,
-- its worker is refused every well-formed frame that is not in the ledger, and its attempt writes
-- nothing.
pub run-fenced :
    (p : Platform) (f : Frame) (fate : CommitFate) (now : ℕ) (s : Store) (cs : List Call)
    → All (λ c. is_spared f.deployment_id c ≡ true) cs
    → IsStale f.deployment_id f.generation s
    → validate_frame p f ≡ true
    → ledger_of f (run p s cs) ≡ none
    → apply_transaction p f fate now (run p s cs) ≡ (run p s cs, err generation_fenced)
run-fenced p f fate now s cs spared v valid unseen =
    let stale = run-IsStale p f.deployment_id f.generation s cs spared v in
    apply_transaction-fenced p f fate now (run p s cs) valid unseen
      (λ d g row. inl (stale.absent d (active_row-found p f.deployment_id (run p s cs) d g row).0))
