-- ===== src/Storage/Advances.antt =====
-- internal/storage: what a change of the tables does to the generation numbers of a deployment.
use monitord.Base.{
  ℕ, ◌+◌, ◌≤◌, ◌<◌, Text, ◌≡◌, refl, ap, sym, ◌∙◌, ◌⊎◌, inl, inr, Bool, true, false, not, ◌&&◌,
  some, List, [], ◌∷◌, arith, ltb, codes, any, text_eq, eq_of_text_eq, Bool-cases, Option-cases,
  Result, ok, err,
}
use monitord.Base.Table.{
  find, update, max_of, find-update, find_sound, max_of-update, update-never, delete, select,
}
use monitord.Storage.Schema.{
  Error, Platform, Deployment, is_active, is_archived, Generation, Ack, Store, has_id,
  of_deployment, is_generation,
}
use monitord.Storage.Frames.{Frame}
use monitord.Storage.Transactions.{apply_new, is_target_deployment, is_target_generation}
use monitord.Storage.Transactions.Inversion.{apply_new-Applied}
use monitord.Storage.Generations.{
  Activation, ActiveGeneration, activate_generation, is_live_of, retire, retire_active, is_snapshot,
  set_active_generation, next_generation, new_generation,
}
use monitord.Storage.Deployments.{
  DeployInput, deploy, deactivate_due, redeployed, expire, is_due, purge_deployment,
}
use monitord.Storage.Invariant.Activation.{activate_generation-Granted}
use monitord.Storage.Invariant.Redeploy.{deploy-parts, put_deployment-cases}
use monitord.Base.Deletions.{find-select_kept}
use monitord.Storage.Invariant.Beside.{IsBeside, IsSame, IsSame-IsBeside}
use monitord.Storage.Lifecycle.{after}

-- The largest generation number that a deployment has had.
abbrev pub latest : Text → List Generation → ℕ
latest id = max_of (of_deployment id) (λ g. g.generation)

-- What an operation may do to the numbers of a deployment: the latest does not fall, and the
-- active one stays, becomes 0 or becomes a number above the latest.
pub record Advances (id : Text) (s t : Store) : Type 0 where
  pub grows : latest id s.generations ≤ latest id t.generations
  pub moves :
      (d : Deployment)
      → find (has_id id) t.deployments ≡ some d
      → (d.active_generation ≡ 0)
        ⊎ ((x : Deployment) × (find (has_id id) s.deployments ≡ some x)
            × (d.active_generation ≡ x.active_generation))
        ⊎ (latest id s.generations < d.active_generation)

pub Advances-refl : (id : Text) (s : Store) → Advances id s s
Advances-refl id s = record { grows = omega arith; moves = λ d h. inr (inl (d, h, refl)) }

-- An update of deployments that keeps the active generation or clears it.
pub update-Advances :
    (id : Text) (target : Deployment → Bool) (f : Deployment → Deployment)
    (which : Generation → Bool) (r : Generation → Generation) (s t : Store)
    → ((d : Deployment) → (f d).id ≡ d.id)
    → ((d : Deployment)
        → ((f d).active_generation ≡ 0) ⊎ ((f d).active_generation ≡ d.active_generation))
    → ((g : Generation) → (r g).deployment_id ≡ g.deployment_id)
    → ((g : Generation) → (r g).generation ≡ g.generation)
    → t.deployments ≡ update target f s.deployments
    → t.generations ≡ update which r s.generations
    → Advances id s t
update-Advances id target f which r s t keeps moved owner number ds gs = record {
  grows = omega (
    arith,
    ap (latest id) gs,
    max_of-update which (of_deployment id) (λ g. g.generation) r s.generations
        (λ g. ap (λ (x : Text). text_eq x id) (owner g)) number,
  );
  moves = λ d h.
      let e =
        find-update target (has_id id) f s.deployments
          (λ x. ap (λ (y : Text). text_eq y id) (keeps x)) in
      elim (Option-cases (find (has_id id) s.deployments)) [
        | inl missing ↦ absurd (ground (arith, ds))
        | inr (x, there) ↦ elim (Bool-cases (target x)) [
          | inl hit ↦
              let same : f x ≡ d = ground (arith, ds) in
              elim (moved x) [
                | inl zero ↦ inl (ap (λ (y : Deployment). y.active_generation) (sym same) ∙ zero)
                | inr kept ↦
                    inr (
                      inl
                        (x, there, ap (λ (y : Deployment). y.active_generation) (sym same) ∙ kept))
              ]
          | inr miss ↦
              let same : x ≡ d = ground (arith, ds) in
              inr (inl (x, there, ap (λ (y : Deployment). y.active_generation) (sym same)))
        ]
      ];
}

pub apply_new-Advances :
    (p : Platform) (id : Text) (f : Frame) (now : ℕ) (s t : Store) (ack : Ack)
    → apply_new p f now s ≡ ok (ack, t)
    → Advances id s t
apply_new-Advances p id f now s t ack h =
    let a = apply_new-Applied p f now s ack t h in
    update-Advances id (is_target_deployment p f)
      (λ r. record r {
        state = f.next_state;
        state_revision = a.deployment.state_revision + 1;
        updated_at = now;
      })
      (is_target_generation p f a.generation.last_transaction_seq)
      (λ r. record r { last_transaction_seq = f.sequence }) s t (λ _. refl) (λ _. inr refl)
      (λ _. refl) (λ _. refl) (ground (arith, a.stored)) (ground (arith, a.stored))

latest-retire_active :
    (id k : Text) (n now : ℕ) (gs : List Generation)
    → latest id (retire_active k n now gs) ≡ latest id gs
unfolding retire_active
latest-retire_active id k n now gs = elim (Bool-cases (ltb 0 n)) [
  | inl positive ↦ rw positive (
      max_of-update (λ g. is_generation k n g && g.is_live) (of_deployment id) (λ g. g.generation)
        (retire (codes "generation replaced") now) gs (λ _. refl) (λ _. refl))
  | inr zero ↦ rw zero
]

pub activate-Advances :
    (p : Platform) (id : Text) (a : Activation) (token : Text) (started now : ℕ) (s t : Store)
    (g : ActiveGeneration)
    → activate_generation p a token started now s ≡ ok (g, t)
    → Advances id s t
unfolding max_of
activate-Advances p id a token started now s t g h =
    let granted = activate_generation-Granted p a token started now s t g h in
    let n = next_generation a.deployment_id s in
    let ds : t.deployments ≡ update (is_snapshot a) (set_active_generation n now) s.deployments =
      ground (arith, granted.stored) in
    let gs : t.generations
        ≡ new_generation p a token n now
          ∷ retire_active a.deployment_id a.active_generation now s.generations =
      ground (arith, granted.stored) in
    let same = latest-retire_active id a.deployment_id a.active_generation now s.generations in
    record {
      grows = rw gs (ground (arith, same));
      moves = λ d h.
          let e =
            find-update (is_snapshot a) (has_id id) (set_active_generation n now) s.deployments
              (λ _. refl) in
          elim (Option-cases (find (has_id id) s.deployments)) [
            | inl missing ↦ absurd (ground (arith, ds))
            | inr (x, there) ↦ elim (Bool-cases (is_snapshot a x)) [
              | inl hit ↦
                  let key = find_sound (has_id id) s.deployments x there in
                  let mine = eq_of_text_eq x.id id key in
                  let its = eq_of_text_eq x.id a.deployment_id (ground arith) in
                  let one = ap (λ (k : Text). latest k s.generations) (sym mine ∙ its) in
                  let moved : set_active_generation n now x ≡ d = ground (arith, ds) in
                  inr (inr (omega (arith, one, ap (λ (y : Deployment). y.active_generation) moved)))
              | inr miss ↦
                  let kept : x ≡ d = ground (arith, ds) in
                  inr (inl (x, there, ap (λ (y : Deployment). y.active_generation) (sym kept)))
            ]
          ];
    }

pub deploy-Advances :
    (p : Platform) (id : Text) (i : DeployInput) (new_id : Text) (now : ℕ) (s t : Store) (k : Text)
    → deploy p i new_id now s ≡ ok (k, t)
    → Advances id s t
unfolding find
deploy-Advances p id i new_id now s t k h =
    let (artifact, put, gs) = deploy-parts p i new_id now s t k h in
    let r = retire (codes "deployment replaced") now in
    elim (put_deployment-cases i artifact new_id k now s.deployments t.deployments put) [
      | inl (fresh, ds) ↦ record {
        grows = omega (
          arith,
          ap (latest id) gs,
          max_of-update (is_live_of k) (of_deployment id) (λ g. g.generation) r s.generations
              (λ _. refl) (λ _. refl),
        );
        moves = λ d h. elim (Bool-cases (text_eq k id)) [
          | inl mine ↦ inl (ground (arith, ds))
          | inr other ↦ inr (inl (d, ground (arith, ds), refl))
        ];
      }
      | inr (d, _, _, ds) ↦
          update-Advances id (has_id k) (redeployed i artifact d.config_hash now) (is_live_of k) r s
            t (λ _. refl) (λ _. inl refl) (λ _. refl) (λ _. refl) ds gs
    ]

pub after-Advances {ℓ} :
    {A : Type ℓ} (id : Text) (f : A → Store) (s : Store) (r : Result Error A)
    → ((a : A) → r ≡ ok a → Advances id s (f a))
    → Advances id s (after f s r)
after-Advances id f s (ok a) step = step a refl
after-Advances id f s (err e) step = Advances-refl id s

pub deactivate-Advances : (id : Text) (now : ℕ) (s : Store) → Advances id s (deactivate_due now s).1
unfolding deactivate_due
deactivate-Advances id now s =
    elim (Bool-cases (any (λ d. is_active d.status && is_due now d) s.deployments)) [
      | inl due ↦ rw due (
          update-Advances id _ (expire now) _ (retire (codes "deployment expired") now) s _
            (λ _. refl) (λ _. inl refl) (λ _. refl) (λ _. refl) refl refl)
      | inr quiet ↦ rw quiet (Advances-refl id s)
    ]

pub IsBeside-Advances : (id : Text) (s t : Store) → IsBeside s t → Advances id s t
IsBeside-Advances id s t b =
    update-Advances id (λ _. false) (λ d. d) b.which b.change s t (λ _. refl) (λ _. inr refl)
      b.owner b.number (b.deployments ∙ sym (update-never (λ d. d) s.deployments)) b.generations

pub IsSame-Advances : (id : Text) (s t : Store) → IsSame s t → Advances id s t
IsSame-Advances id s t same = IsBeside-Advances id s t (IsSame-IsBeside s t same)

latest-delete :
    (id k : Text) (gs : List Generation)
    → text_eq k id ≡ false
    → latest id (delete (λ g. text_eq g.deployment_id k) gs) ≡ latest id gs
unfolding delete select max_of
latest-delete id k [] other = refl
latest-delete id k (g ∷ gs) other = elim (Bool-cases (text_eq g.deployment_id k)) [
  | inl gone ↦
      let its = eq_of_text_eq g.deployment_id k gone in
      let kept : of_deployment id g ≡ false = rw its other in
      ground (arith, latest-delete id k gs other)
  | inr stays ↦ ground (arith, latest-delete id k gs other)
]

purge_spares :
    (id k : Text) (d : Deployment)
    → text_eq k id ≡ false
    → has_id id d ≡ true
    → not (has_id k d && is_archived d.status) ≡ true
purge_spares id k d other mine = elim (Bool-cases (text_eq d.id k)) [
  | inl hit ↦
      let its = eq_of_text_eq d.id k hit in
      absurd (ground (arith, ap (λ (x : Text). text_eq x id) its))
  | inr miss ↦ ground arith
]

-- A purge of another deployment.
pub purge-Advances :
    (id k : Text) (force : Bool) (s t : Store)
    → text_eq k id ≡ false
    → purge_deployment k force s ≡ ok t
    → Advances id s t
unfolding purge_deployment delete
purge-Advances id k force s t other h =
    let gone = λ (d : Deployment). has_id k d && is_archived d.status in
    let ds : t.deployments ≡ delete gone s.deployments = ground arith in
    let gs : t.generations ≡ delete (λ g. text_eq g.deployment_id k) s.generations = ground arith in
    record {
      grows = rw gs (omega (arith, latest-delete id k s.generations other));
      moves = λ d found.
          let same =
            find-select_kept (has_id id) (λ x. not (gone x)) s.deployments
              (λ x mine. purge_spares id k x other mine) in
          inr (inl (d, sym same ∙ ap (find (has_id id)) (sym ds) ∙ found, refl));
    }
