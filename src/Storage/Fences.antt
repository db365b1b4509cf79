-- ===== src/Storage/Fences.antt =====
-- Operator actions fence the worker: after them no generation of the deployment may write.
use monitord.Base.{
  ℕ, Text, ◌≡◌, refl, inl, inr, Bool, true, none, some, arith, ap, sym, ◌∙◌, ◌≤◌, ◌&&◌, ◌==◌,
  text_eq_refl, text_eq, ok, err, Option-cases,
}
use monitord.Base.Table.{find, update, count, find-update, find_sound, find_affected}
use monitord.Storage.Schema.{
  Platform, Deployment, Store, has_id, inactive, is_active, is_inactive, generation_fenced,
}
use monitord.Storage.Frames.{Frame, validate_frame}
use monitord.Storage.Transactions.{CommitFate, apply_transaction}
use monitord.Storage.Transactions.Fencing.{IsStranger, active_row-found, apply_transaction-fenced}
use monitord.Storage.Transactions.Replay.{ledger_of}
use monitord.Storage.Generations.{set_active_generation}
use monitord.Storage.Deployments.{
  DeployInput, deploy, pause_deployment, replace_state, clear_checkpoints, with_status, with_state,
  redeployed,
}
use monitord.Storage.Invariant.Redeploy.{deploy-parts, put_deployment-cases}

-- The deployment's row has no active generation.
abbrev pub HasNoGeneration : Text → Store → Type 0
HasNoGeneration id s =
    (d : Deployment) → find (has_id id) s.deployments ≡ some d → d.active_generation ≡ 0

module _ (p : Platform) where
  -- A well-formed frame names a positive generation, so it is a stranger where none is active.
  pub IsStranger-of_no_generation :
      (f : Frame) (s : Store)
      → validate_frame p f ≡ true
      → HasNoGeneration f.deployment_id s
      → IsStranger p f s
  unfolding validate_frame
  IsStranger-of_no_generation f s v h d g row = inl (λ e.
      let (found, _) = active_row-found p f.deployment_id s d g row in ground (arith, h d found))

  -- A deployment that no generation is active in refuses every frame that it has not committed.
  pub fenced_of_no_generation :
      (f : Frame) (fate : CommitFate) (now : ℕ) (s : Store)
      → validate_frame p f ≡ true
      → ledger_of f s ≡ none
      → HasNoGeneration f.deployment_id s
      → apply_transaction p f fate now s ≡ (s, err generation_fenced)
  fenced_of_no_generation f fate now s v unseen h =
      apply_transaction-fenced p f fate now s v unseen (IsStranger-of_no_generation f s v h)

-- An update of the one row that a statement affects, under a unique key, clears the fence.
affected-HasNoGeneration :
    (id : Text) (cond : Deployment → Bool) (f : Deployment → Deployment) (s s' : Store)
    → ((d : Deployment) → (f d).id ≡ d.id)
    → ((d : Deployment) → (f d).active_generation ≡ 0)
    → count (has_id id) s.deployments ≤ 1
    → count (λ d. has_id id d && cond d) s.deployments ≡ 1
    → s'.deployments ≡ update (λ d. has_id id d && cond d) f s.deployments
    → HasNoGeneration id s'
affected-HasNoGeneration id cond f s s' keeps zero unique one ds d found =
    let after =
      find-update (λ d. has_id id d && cond d) (has_id id) f s.deployments
        (λ r. ap (λ (x : Text). text_eq x id) (keeps r)) in
    elim (Option-cases (find (has_id id) s.deployments)) [
      | inl e ↦ absurd (ground (arith, after, ds))
      | inr (x, e) ↦
          let hit = find_affected (has_id id) cond s.deployments x unique one e in
          let key = find_sound (has_id id) s.deployments x e in
          let same : f x ≡ d = ground (arith, after, ds) in
          ap (λ (r : Deployment). r.active_generation) (sym same) ∙ zero x
    ]

-- A pause that succeeds leaves its deployment without an active generation.
pub pause-HasNoGeneration :
    (id : Text) (now : ℕ) (s s' : Store)
    → count (has_id id) s.deployments ≤ 1
    → pause_deployment id now s ≡ ok s'
    → HasNoGeneration id s'
unfolding pause_deployment
pause-HasNoGeneration id now s s' unique h =
    affected-HasNoGeneration id (λ d. is_active d.status) (with_status inactive none now) s s'
      (λ _. refl) (λ _. refl) unique (ground arith) (ground arith)

-- A state replacement that succeeds leaves its deployment without an active generation.
pub replace_state-HasNoGeneration :
    (p : Platform) (id : Text) (base : ℕ) (state : Text) (now n : ℕ) (s s' : Store)
    → count (has_id id) s.deployments ≤ 1
    → replace_state p id base state now s ≡ ok (n, s')
    → HasNoGeneration id s'
unfolding replace_state
replace_state-HasNoGeneration p id base state now n s s' unique h =
    affected-HasNoGeneration id (λ d. d.state_revision == base) (with_state state now) s s'
      (λ _. refl) (λ _. refl) unique (ground arith) (ground arith)

pub clear_checkpoints-HasNoGeneration :
    (id : Text) (now n : ℕ) (s s' : Store)
    → count (has_id id) s.deployments ≤ 1
    → clear_checkpoints id now s ≡ ok (n, s')
    → HasNoGeneration id s'
unfolding clear_checkpoints
clear_checkpoints-HasNoGeneration id now n s s' unique h =
    affected-HasNoGeneration id (λ d. is_inactive d.status) (set_active_generation 0 now) s s'
      (λ _. refl) (λ _. refl) unique (ground arith) (ground arith)

pub deploy-HasNoGeneration :
    (p : Platform) (i : DeployInput) (new_id id : Text) (now : ℕ) (s s' : Store)
    → deploy p i new_id now s ≡ ok (id, s')
    → HasNoGeneration id s'
unfolding find
deploy-HasNoGeneration p i new_id id now s s' h d found =
    let (artifact, put, gs) = deploy-parts p i new_id now s s' id h in
    elim (put_deployment-cases i artifact new_id id now s.deployments s'.deployments put) [
      | inl (fresh, ds) ↦ ground (arith, ds, text_eq_refl id)
      | inr (x, _, _, ds) ↦
          let after =
            find-update (has_id id) (has_id id) (redeployed i artifact x.config_hash now)
              s.deployments (λ _. refl) in
          elim (Option-cases (find (has_id id) s.deployments)) [
            | inl e ↦ absurd (ground (arith, after, ds))
            | inr (y, e) ↦ ground (arith, after, ds, find_sound (has_id id) s.deployments y e)
          ]
    ]
