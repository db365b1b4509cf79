-- ===== src/Storage/Invariant/Redeploy.antt =====
-- `Deploy`: the row that it leaves, and the invariant.
use monitord.Base.{
  sym, ℕ, ◌<◌, Text, codes, ◌≡◌, refl, ◌⊎◌, inl, inr, false, some, List, ◌∷◌, arith, any, text_eq,
  eq_of_text_eq, Bool-cases, Option-cases, ok, Result-cases,
}
use monitord.Base.Table.{
  find, update, count, select, All-update_to, All-update, count_of_any, find_of_not_any,
}
use monitord.Storage.Schema.{Platform, Deployment, Store, has_id}
use monitord.Storage.Generations.{is_live_of, retire}
use monitord.Storage.Deployments.{
  DeployInput, deploy, put_artifact, put_deployment, redeployed, new_deployment,
}
use monitord.Storage.Invariant.{IsFenced, Inv}
use monitord.Storage.Invariant.Operations.{moved-Inv}

-- The deployments after a deploy: a new row under an ID that no row has, or one row updated.
pub put_deployment-cases :
    (i : DeployInput) (artifact new_id id : Text) (now : ℕ) (ds ds' : List Deployment)
    → put_deployment i artifact new_id now ds ≡ ok (id, ds')
    → ((any (has_id id) ds ≡ false) × (ds' ≡ new_deployment i artifact id now ∷ ds))
      ⊎ ((d : Deployment) × (find (λ d. text_eq d.name i.name) ds ≡ some d)
          × (id ≡ d.id)
          × (ds' ≡ update (has_id id) (redeployed i artifact d.config_hash now) ds))
unfolding put_deployment
put_deployment-cases i artifact new_id id now ds ds' h =
    elim (Option-cases (find (λ d. text_eq d.name i.name) ds)) [
      | inl e ↦ inl (ground arith)
      | inr (d, e) ↦ inr (d, e, ground arith, ground arith)
    ]

module _ (p : Platform) (i : DeployInput) (new_id : Text) (now : ℕ) (s s' : Store) (id : Text) where
  -- What a successful deploy does to the deployments and the generations.
  pub deploy-parts :
      deploy p i new_id now s ≡ ok (id, s')
      → (artifact : Text) × (put_deployment i artifact new_id now s.deployments
          ≡ ok (id, s'.deployments))
        × (s'.generations
            ≡ update (is_live_of id) (retire (codes "deployment replaced") now) s.generations)
  unfolding deploy
  deploy-parts h = elim (Result-cases (put_artifact p i.artifact now s.artifacts)) [
    | inl ((artifact, rows), a) ↦
        elim (Result-cases (put_deployment i artifact.id new_id now s.deployments)) [
          | inl ((id', ds), b) ↦ (artifact.id, ground arith, ground arith)
          | inr (x, b) ↦ ground arith
        ]
    | inr (x, a) ↦ ground arith
  ]

  deploy_new-Inv :
      (artifact : Text)
      → any (has_id id) s.deployments ≡ false
      → s'.deployments ≡ new_deployment i artifact id now ∷ s.deployments
      → s'.generations
        ≡ update (is_live_of id) (retire (codes "deployment replaced") now) s.generations
      → Inv s
      → Inv s'
  unfolding find count select
  deploy_new-Inv artifact fresh ds gs v =
      let r = retire (codes "deployment replaced") now in
      record {
        fenced =
            rw (ds, gs)
              (All-update_to (IsFenced s.deployments)
                (IsFenced (new_deployment i artifact id now ∷ s.deployments)) (is_live_of id) r
                s.generations (λ g hit h live. absurd (ground arith))
                (λ g miss h live.
                  let (d, found, here) = h live in
                  (
                    d,
                    elim (Bool-cases (text_eq id g.deployment_id)) [
                      | inl same ↦
                          let mine = eq_of_text_eq id g.deployment_id same in
                          let there = rw (sym mine) at found in
                          absurd
                            (ground (arith, find_of_not_any (has_id id) s.deployments fresh, there))
                      | inr other ↦ rw other found
                    ],
                    here,
                  ))
                v.fenced);
        numbered = rw gs (
            All-update (λ g. 0 < g.generation) (is_live_of id) r s.generations (λ _ _ e. e)
              v.numbered);
        unique = λ k. rw ds (elim (Bool-cases (text_eq id k)) [
          | inl same ↦
              let mine = eq_of_text_eq id k same in
              let none_yet = rw mine at (count_of_any (has_id id) s.deployments fresh) in
              ground arith
          | inr other ↦ rw other (v.unique k)
        ]);
        quiet = λ k d found. elim (Bool-cases (text_eq id k)) [
          | inl same ↦ inl (ground (arith, ds))
          | inr other ↦ v.quiet k d (ground (arith, ds))
        ];
      }

  -- A successful deploy keeps the invariant.
  pub deploy-Inv : deploy p i new_id now s ≡ ok (id, s') → Inv s → Inv s'
  deploy-Inv h v =
      let (artifact, put, gs) = deploy-parts h in
      elim (put_deployment-cases i artifact new_id id now s.deployments s'.deployments put) [
        | inl (fresh, ds) ↦ deploy_new-Inv artifact fresh ds gs v
        | inr (d, _, _, ds) ↦
            moved-Inv id (has_id id) (redeployed i artifact d.config_hash now)
              (retire (codes "deployment replaced") now) s (λ _. refl) (λ d t. t) (λ _. refl)
              (λ _. refl) (λ d t e. inr refl) v s' ds gs
      ]
