-- ===== src/Storage/Invariant/Activation.antt =====
-- `ActivateGeneration`: what a granted activation has checked, its new number, and the invariant.
use mathlib.Core.Path.{subst}
use monitord.Base.{
  sym, ◌∙◌, ℕ, ◌≤◌, ◌<◌, Text, codes, ◌≡◌, refl, inl, inr, Bool, true, false, ◌&&◌, some, List, [],
  ◌∷◌, All, All-and, arith, ltb, text_eq, eq_of_text_eq, Bool-cases, Option-cases, ok,
}
use monitord.Base.Table.{
  find, update, max_of, find-update, find_sound, find_key, All-update_to, All-update, All-imp,
  count-update-le,
}
use monitord.Storage.Schema.{
  Platform, Deployment, active, Generation, Store, has_id, of_deployment, is_active, is_generation,
}
use monitord.Storage.Generations.{
  Activation, ActiveGeneration, is_activatable, is_snapshot, is_unexpired, activate_generation,
  activated, next_generation, new_generation, retire_active, retire, set_active_generation,
}
use monitord.Storage.Invariant.{IsFenced, Inv}
use monitord.Storage.Invariant.Moves.{IsFenced-update, active_of_live, AllQuiet-update}

pub record Granted (p : Platform) (a : Activation) (token : Text) (started now : ℕ) (s : Store)
    (g : ActiveGeneration) (s' : Store) : Type 0 where
  pub deployment : Deployment
  pub row : find (is_activatable a.deployment_id started) s.deployments ≡ some deployment
  pub same_artifact : text_eq deployment.artifact_id a.artifact_id ≡ true
  pub same_config : deployment.config_revision ≡ a.config_revision
  pub same_state : deployment.state_revision ≡ a.state_revision
  pub same_active : deployment.active_generation ≡ a.active_generation
  pub number : g.generation ≡ next_generation a.deployment_id s
  pub stored : s' ≡ activated p a token now s

-- The largest number is at least each of them.
max_of_bounds {ℓ} :
    {A : Type ℓ} (q : A → Bool) (key : A → ℕ) (rs : List A)
    → All (λ r. q r ≡ true → key r ≤ max_of q key rs) rs
unfolding max_of
max_of_bounds q key [] = tt
max_of_bounds q key (r ∷ rs) = (
  λ h. ground arith,
  All-imp _ _ rs (λ x below h. ground (arith, below h)) (max_of_bounds q key rs),
)

module _ (p : Platform) (a : Activation) (token : Text) (started now : ℕ) (s s' : Store) where
  pub activate_generation-Granted :
      (g : ActiveGeneration)
      → activate_generation p a token started now s ≡ ok (g, s')
      → Granted p a token started now s g s'
  unfolding activate_generation
  activate_generation-Granted g h =
      elim (Option-cases (find (is_activatable a.deployment_id started) s.deployments)) [
        | inl e ↦ ground arith
        | inr (d, e) ↦ record {
          deployment = d;
          row = e;
          same_artifact = ground arith;
          same_config = ground arith;
          same_state = ground arith;
          same_active = ground arith;
          number = ground arith;
          stored = ground arith;
        }
      ]

  -- A granted activation takes a number above every earlier generation of the deployment.
  pub activate_generation-fresh :
      (g : ActiveGeneration)
      → activate_generation p a token started now s ≡ ok (g, s')
      → All
          (λ r. of_deployment a.deployment_id r ≡ true → r.generation < g.generation)
          s.generations
  activate_generation-fresh g h =
      let granted = activate_generation-Granted g h in
      All-imp _ _ s.generations (λ r below e. omega (arith, below e, granted.number))
        (max_of_bounds (of_deployment a.deployment_id) (λ r. r.generation) s.generations)

  -- The row that is activated, found by its ID, before and after.
  pub activate_generation-row :
      (g : ActiveGeneration)
      → Granted p a token started now s g s'
      → Inv s
      → (d : Deployment) × (find (has_id a.deployment_id) s.deployments ≡ some d)
        × (is_active d.status ≡ true)
        × (d.active_generation ≡ a.active_generation)
        × (find (has_id a.deployment_id) s'.deployments
            ≡ some (set_active_generation g.generation now d))
  activate_generation-row g granted v =
      let d = granted.deployment in
      let fits = find_sound (is_activatable a.deployment_id started) s.deployments d granted.row in
      let found =
        find_key (has_id a.deployment_id) (λ d. is_active d.status && is_unexpired started d)
          s.deployments d (v.unique a.deployment_id) granted.row in
      let after =
        find-update (is_snapshot a) (has_id a.deployment_id)
          (set_active_generation g.generation now) s.deployments (λ _. refl) in
      (
        d,
        found,
        ground arith,
        granted.same_active,
        ground (
          arith, granted.stored, after, granted.number, granted.same_artifact, granted.same_config,
          granted.same_state, granted.same_active,
        ),
      )

  -- The generations of before, after the active one is retired.
  old-IsFenced :
      (g : ActiveGeneration)
      → Granted p a token started now s g s'
      → Inv s
      → All
          (IsFenced (update (is_snapshot a) (set_active_generation g.generation now) s.deployments))
          (retire_active a.deployment_id a.active_generation now s.generations)
  unfolding retire_active
  old-IsFenced g granted v =
      let (d, found, live, same, after) = activate_generation-row g granted v in
      let move = set_active_generation g.generation now in
      let both =
        All-and (IsFenced s.deployments) (λ g. 0 < g.generation) s.generations v.fenced
          v.numbered in
      let stays =
        λ (r : Generation) (fenced : IsFenced s.deployments r)
            (other : r.is_live ≡ true → text_eq r.deployment_id a.deployment_id ≡ false).
          IsFenced-update (is_snapshot a) move s.deployments r (λ _. refl)
            (λ x _ t key is_live here. absurd (
              ground (
                arith,
                other is_live,
                eq_of_text_eq x.id r.deployment_id,
                eq_of_text_eq x.id a.deployment_id,
              )))
            fenced in
      elim (Bool-cases (ltb 0 a.active_generation)) [
        | inl positive ↦ rw positive (
            All-update_to (IsFenced s.deployments) _
              (λ r. is_generation a.deployment_id a.active_generation r && r.is_live)
              (retire (codes "generation replaced") now) s.generations
              (λ r hit h is_live. absurd (ground arith))
              (λ r miss h. stays r h (λ is_live.
                elim (Bool-cases (text_eq r.deployment_id a.deployment_id)) [
                  | inl mine ↦ absurd (
                      ground (
                        arith,
                        active_of_live s.deployments a.deployment_id d r h is_live mine found,
                      ))
                  | inr other ↦ other
                ]))
              v.fenced)
        | inr zero ↦ rw zero (
            All-imp (λ r. IsFenced s.deployments r × (0 < r.generation)) _ s.generations
              (λ r h. stays r h.0 (λ is_live.
                elim (Bool-cases (text_eq r.deployment_id a.deployment_id)) [
                  | inl mine ↦ absurd (
                      ground (
                        arith,
                        h.1,
                        active_of_live s.deployments a.deployment_id d r h.0 is_live mine found,
                      ))
                  | inr other ↦ other
                ]))
              both)
      ]

  old_numbered :
      Inv s
      → All
          (λ g. 0 < g.generation)
          (retire_active a.deployment_id a.active_generation now s.generations)
  unfolding retire_active
  old_numbered v = elim (Bool-cases (ltb 0 a.active_generation)) [
    | inl positive ↦ rw positive (
        All-update (λ g. 0 < g.generation) _ (retire (codes "generation replaced") now)
          s.generations (λ _ _ e. e) v.numbered)
    | inr zero ↦ rw zero v.numbered
  ]

  -- A row that the activation updates is the one that it selected, which is active.
  active_status :
      (g : ActiveGeneration)
      → Granted p a token started now s g s'
      → Inv s
      → (id : Text) (x : Deployment) → find (has_id id) s.deployments ≡ some x
      → is_snapshot a x ≡ true
      → x.status ≡ active
  active_status g granted v id x there t =
      let (d, found, live, same, after) = activate_generation-row g granted v in
      let key = find_sound (has_id id) s.deployments x there in
      let mine = eq_of_text_eq x.id id key in
      let its = eq_of_text_eq x.id a.deployment_id (ground arith) in
      let one = rw (sym mine ∙ its) at there in ground arith

  -- A granted activation keeps the invariant: the new generation is the only live one of its
  -- deployment.
  pub activate_generation-Inv :
      (g : ActiveGeneration)
      → activate_generation p a token started now s ≡ ok (g, s')
      → Inv s
      → Inv s'
  unfolding retire_active
  activate_generation-Inv g h v =
      let granted = activate_generation-Granted g h in
      let (d, found, live, same, after) = activate_generation-row g granted v in
      let ds : s'.deployments
          ≡ update (is_snapshot a) (set_active_generation g.generation now) s.deployments =
        ground (arith, granted.stored, granted.number) in
      let gs : s'.generations
          ≡ new_generation p a token g.generation now
            ∷ retire_active a.deployment_id a.active_generation now s.generations =
        ground (arith, granted.stored, granted.number) in
      record {
        fenced = rw gs (
          (λ _. (set_active_generation g.generation now d, after, refl)),
          subst
              (λ (x : List Deployment).
                All (IsFenced x)
                  (retire_active a.deployment_id a.active_generation now s.generations))
              (sym ds) (old-IsFenced g granted v),
        );
        numbered = rw gs (omega (arith, granted.number), old_numbered v);
        unique = λ k.
            rw ds (
              count-update-le (is_snapshot a) (has_id k) _ s.deployments 1 (λ _. refl)
                (v.unique k));
        quiet = rw ds (
            AllQuiet-update (is_snapshot a) (set_active_generation g.generation now) s.deployments
              (λ _. refl) (λ id x there t e. inl (active_status g granted v id x there t)) v.quiet);
      }
