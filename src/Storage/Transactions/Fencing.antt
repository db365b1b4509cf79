-- ===== src/Storage/Transactions/Fencing.antt =====
-- Who may write a deployment's state, and what a write does to it.
use monitord.Base.{
  ℕ, ◌+◌, Text, ◌≡◌, refl, ◌≢◌, ◌⊎◌, true, false, none, some, text_eq, eq_of_text_eq, arith, ok,
  err, inl, inr, Option-cases, Bool-cases, ◌&&◌, ◌==◌, any,
}
use monitord.Base.Table.{find, find-update, find_sound, any_of_found}
use monitord.Storage.Schema.{
  generation_fenced, Platform, Deployment, Generation, Ack, Store, has_id, is_generation,
}
use monitord.Storage.Frames.{Frame, validate_frame}
use monitord.Storage.Transactions.{
  CommitFate, active_row, apply_new, apply_transaction, is_target_deployment,
}
use monitord.Storage.Transactions.Inversion.{apply_new-Applied}
use monitord.Storage.Transactions.Replay.{ledger_of}

module _ (p : Platform) where
  -- The two rows of the join.
  pub active_row-found :
      (id : Text) (s : Store) (d : Deployment) (g : Generation)
      → active_row p id s ≡ some (d, g)
      → (find (has_id id) s.deployments ≡ some d)
        × (find (λ r. is_generation id d.active_generation r && r.is_live) s.generations ≡ some g)
  unfolding active_row
  active_row-found id s d g h = ground arith

  module _ (f : Frame) where
    -- No active generation of the deployment has the frame's number and its token.
    abbrev pub IsStranger : Store → Type 0
    IsStranger s =
        (d : Deployment) (g : Generation)
        → active_row p f.deployment_id s ≡ some (d, g)
        → (d.active_generation ≢ f.generation)
          ⊎ (text_eq g.worker_token_hash (p.sha256 f.worker_token) ≡ false)

    apply_new-fenced :
        (now : ℕ) (s : Store) → IsStranger s → apply_new p f now s ≡ err generation_fenced
    unfolding apply_new
    apply_new-fenced now s stranger = elim (Option-cases (active_row p f.deployment_id s)) [
      | inl e ↦ ground arith
      | inr ((d, g), e) ↦ ground (arith, stranger d g e)
    ]

    -- A well-formed frame that is not in the ledger, and whose deployment has no active generation
    -- with the frame's number and token, is refused as fenced, and nothing is written.
    pub apply_transaction-fenced :
        (fate : CommitFate) (now : ℕ) (s : Store)
        → validate_frame p f ≡ true
        → ledger_of f s ≡ none
        → IsStranger s
        → apply_transaction p f fate now s ≡ (s, err generation_fenced)
    unfolding apply_transaction
    apply_transaction-fenced fate now s v unseen stranger =
        ground (arith, apply_new-fenced now s stranger)

    -- The tables grant the frame: its deployment's active generation has the frame's number, and a live
    -- row of that generation has the digest of the frame's token.
    abbrev pub IsGranted : Store → Type 0
    IsGranted s =
        (d : Deployment) × (find (has_id f.deployment_id) s.deployments ≡ some d)
        × (d.active_generation ≡ f.generation)
        × (any
              (λ g.
                is_generation f.deployment_id f.generation g
                && (g.is_live && text_eq g.worker_token_hash (p.sha256 f.worker_token)))
              s.generations
            ≡ true)

    row-IsGranted :
        (s : Store) (d : Deployment) (g : Generation)
        → active_row p f.deployment_id s ≡ some (d, g)
        → d.active_generation ≡ f.generation
        → text_eq g.worker_token_hash (p.sha256 f.worker_token) ≡ true
        → IsGranted s
    row-IsGranted s d g row same token =
        let (there, live) = active_row-found f.deployment_id s d g row in
        let own =
          λ (r : Generation). is_generation f.deployment_id d.active_generation r && r.is_live in
        let sound = find_sound own s.generations g live in
        (d, there, same, any_of_found own _ s.generations g live (ground arith))

    -- A well-formed frame that is not in the ledger either has the tables' grant, which is that the
    -- active generation of its deployment has its number and a live row with the digest of its token,
    -- or is refused as fenced, and then nothing is written, whatever would become of the COMMIT.
    pub apply_transaction-guarded :
        (fate : CommitFate) (now : ℕ) (s : Store)
        → validate_frame p f ≡ true
        → ledger_of f s ≡ none
        → IsGranted s ⊎ (apply_transaction p f fate now s ≡ (s, err generation_fenced))
    apply_transaction-guarded fate now s v unseen =
        let refused = apply_transaction-fenced fate now s v unseen in
        elim (Option-cases (active_row p f.deployment_id s)) [
          | inl missing ↦ inr (refused (λ d g row. absurd (ground arith)))
          | inr ((d, g), here) ↦ elim (Bool-cases (d.active_generation == f.generation)) [
            | inr other ↦ inr (refused (λ x y row. inl (ground arith)))
            | inl same ↦ elim (Bool-cases (text_eq g.worker_token_hash (p.sha256 f.worker_token))) [
              | inr wrong ↦ inr (refused (λ x y row. inr (ground arith)))
              | inl token ↦ inl (row-IsGranted s d g here (ground arith) token)
            ]
          ]
        ]

    -- A write moves exactly one deployment, from the revision that the frame was based on to the
    -- next: its state becomes the frame's, and its other columns stay but for the time.
    pub apply_new-state :
        (now : ℕ) (s s' : Store) (ack : Ack)
        → apply_new p f now s ≡ ok (ack, s')
        → (d : Deployment) × (find (has_id f.deployment_id) s.deployments ≡ some d)
          × (d.active_generation ≡ f.generation)
          × (d.state_revision ≡ f.base_state_revision)
          × (find (has_id f.deployment_id) s'.deployments
              ≡ some (record d {
                state = f.next_state;
                state_revision = d.state_revision + 1;
                updated_at = now;
              }))
          × (ack.result_revision ≡ d.state_revision + 1)
          × ((id : Text)
              → id ≢ f.deployment_id
              → find (has_id id) s'.deployments ≡ find (has_id id) s.deployments)
    apply_new-state now s s' ack h =
        let a = apply_new-Applied p f now s ack s' h in
        let d = a.deployment in
        let (found, _) = active_row-found f.deployment_id s d a.generation a.row in
        let after = λ (id : Text).
          find-update (is_target_deployment p f) (has_id id)
            (λ r. record r {
              state = f.next_state;
              state_revision = d.state_revision + 1;
              updated_at = now;
            })
            s.deployments (λ r. refl) in
        (
          d,
          found,
          a.same_generation,
          ground (arith, a.same_revision),
          ground (
            arith,
            a.stored,
            after f.deployment_id,
            found,
            a.same_generation,
            a.same_revision,
            find_sound (has_id f.deployment_id) s.deployments d found,
          ),
          ground (arith, a.acked),
          λ id other. elim (Option-cases (find (has_id id) s.deployments)) [
            | inl e ↦ ground (arith, a.stored, after id)
            | inr (x, e) ↦ ground (
              arith,
              a.stored,
              after id,
              find_sound (has_id id) s.deployments x e,
              eq_of_text_eq x.id id,
              eq_of_text_eq x.id f.deployment_id,
            )
          ],
        )
