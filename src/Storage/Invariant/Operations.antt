-- ===== src/Storage/Invariant/Operations.antt =====
-- Every operation on deployments and generations keeps the invariant.
use monitord.Base.{
  ◌∙◌, sym, ap, ℕ, ◌≤◌, ◌<◌, Text, codes, ◌≡◌, refl, inl, inr, Bool, true, false, not, ◌&&◌, ◌==◌,
  Option, none, All-and, ◌++◌, arith, any, text_eq, eq_of_text_eq, Bool-cases, ok,
}
use native.Mathlib.Nat.{le_trans}
use monitord.Base.Table.{
  update, delete, select, count, find_sound, find_key, All-update_to, All-update, All-imp,
  All-select, All-select_to, count-update, count-update-le, any_of_found, find-select,
  find-of_select, count-select-le,
}
use monitord.Storage.Schema.{
  Platform, Deployment, active, inactive, Generation, Ack, Store, has_id, is_active, is_inactive,
  is_archived,
}
use monitord.Storage.Frames.{Frame}
use monitord.Storage.Transactions.{apply_new, is_target_deployment, is_target_generation}
use monitord.Storage.Transactions.Inversion.{apply_new-Applied}
use monitord.Storage.Generations.{
  recover_generations, is_live_of, retire, retire_once, set_active_generation,
}
use monitord.Storage.Deployments.{
  deactivate_due, is_due, pause_deployment, resume_deployment, expire, archive, with_state,
  with_status, archive_deployment, purge_deployment, replace_state, clear_checkpoints,
}
use monitord.Storage.Invariant.{IsFenced, IsQuiet, Inv}
use monitord.Storage.Invariant.Moves.{
  IsFenced-update, IsFenced-retire, IsFenced-keep, AllQuiet-update,
}

pub apply_new-Inv :
    (p : Platform) (f : Frame) (now : ℕ) (s s' : Store) (ack : Ack)
    → apply_new p f now s ≡ ok (ack, s')
    → Inv s
    → Inv s'
apply_new-Inv p f now s s' ack h v =
    let a = apply_new-Applied p f now s ack s' h in
    let d = a.deployment in
    let g = a.generation in
    rw a.stored (record {
      fenced =
          IsFenced-keep (is_target_deployment p f) _
            (is_target_generation p f g.last_transaction_seq) _ s.deployments s.generations
            (λ _. refl) (λ _. refl) (λ _. refl) (λ _. refl) (λ _ e. e) v.fenced;
      numbered =
          All-update _ (is_target_generation p f g.last_transaction_seq) _ s.generations
            (λ _ _ e. e) v.numbered;
      unique = λ id.
          count-update-le (is_target_deployment p f) (has_id id) _ s.deployments 1 (λ _. refl)
            (v.unique id);
      quiet =
          AllQuiet-update (is_target_deployment p f) _ s.deployments (λ _. refl) (λ _ _ _ _ e. e)
            v.quiet;
    })

pub recover_generations-Inv : (now : ℕ) (s : Store) → Inv s → Inv (recover_generations now s)
unfolding recover_generations
recover_generations-Inv now s v = record {
  fenced =
      All-update_to (IsFenced s.deployments) _ (λ g. g.is_live) _ s.generations
        (λ g hit h live. absurd (ground arith)) (λ g miss h live. absurd (ground arith)) v.fenced;
  numbered = All-update _ (λ g. g.is_live) _ s.generations (λ _ _ e. e) v.numbered;
  unique = λ id. count-update-le _ (has_id id) _ s.deployments 1 (λ _. refl) (v.unique id);
  quiet =
      AllQuiet-update _ (set_active_generation 0 now) s.deployments (λ _. refl)
        (λ _ _ _ _ _. inr refl) v.quiet;
}

-- One deployment is updated, its live generations are retired, and no key changes.
module _ (id : Text) (target : Deployment → Bool) (f : Deployment → Deployment)
    (r : Generation → Generation) (s : Store) (keeps : (d : Deployment) → (f d).id ≡ d.id)
    (within : (d : Deployment) → target d ≡ true → has_id id d ≡ true)
    (retired : (g : Generation) → (r g).is_live ≡ false)
    (number : (g : Generation) → (r g).generation ≡ g.generation)
    (quiet : (d : Deployment) → target d ≡ true → IsQuiet d → IsQuiet (f d)) (v : Inv s) where
  pub unique-update : (k : Text) → count (has_id k) (update target f s.deployments) ≤ 1
  unique-update k =
      rw
        (count-update target (has_id k) f s.deployments
          (λ d. ap (λ (x : Text). text_eq x k) (keeps d)))
        (v.unique k)

  pub moved-Inv :
      (t : Store)
      → t.deployments ≡ update target f s.deployments
      → t.generations ≡ update (is_live_of id) r s.generations
      → Inv t
  moved-Inv t ed eg = record {
    fenced =
        rw (ed, eg)
          (IsFenced-retire id target f r s.deployments s.generations keeps within retired v.fenced);
    numbered = rw eg (
        All-update (λ g. 0 < g.generation) (is_live_of id) r s.generations
          (λ g _ e. rw (number g) e) v.numbered);
    unique = λ k. rw ed (unique-update k);
    quiet = rw ed (AllQuiet-update target f s.deployments keeps (λ _ d _ t e. quiet d t e) v.quiet);
  }

pub replace_state-Inv :
    (p : Platform) (id : Text) (base : ℕ) (state : Text) (now : ℕ) (s s' : Store) (n : ℕ)
    → replace_state p id base state now s ≡ ok (n, s')
    → Inv s
    → Inv s'
unfolding replace_state
replace_state-Inv p id base state now s s' n h v =
    moved-Inv id (λ d. has_id id d && d.state_revision == base) (with_state state now)
      (retire (codes "state replaced") now) s (λ _. refl) (λ d t. ground arith) (λ _. refl)
      (λ _. refl) (λ d t e. inr refl) v s' (ground arith) (ground arith)

pub pause_deployment-Inv :
    (id : Text) (now : ℕ) (s s' : Store) → pause_deployment id now s ≡ ok s' → Inv s → Inv s'
unfolding pause_deployment
pause_deployment-Inv id now s s' h v =
    moved-Inv id (λ d. has_id id d && is_active d.status) (with_status inactive none now)
      (retire (codes "deployment " ++ codes "inactive") now) s (λ _. refl) (λ d t. ground arith)
      (λ _. refl) (λ _. refl) (λ d t e. inr refl) v s' (ground arith) (ground arith)

-- A deployment that is not active has no live generation, so there is none to retire.
pub resume_deployment-Inv :
    (id : Text) (expires : Option ℕ) (now : ℕ) (s s' : Store)
    → resume_deployment id expires now s ≡ ok s'
    → Inv s
    → Inv s'
unfolding resume_deployment
resume_deployment-Inv id expires now s s' h v =
    let target = λ (d : Deployment). has_id id d && is_inactive d.status in
    let move = with_status active expires now in
    let ds : s'.deployments ≡ update target move s.deployments = ground arith in
    let gs : s'.generations ≡ s.generations = ground arith in
    record {
      fenced =
          rw (ds, gs)
            (All-imp (λ g. IsFenced s.deployments g × (0 < g.generation))
              (IsFenced (update target move s.deployments)) s.generations
              (λ g both.
                IsFenced-update target move s.deployments g (λ _. refl)
                  (λ d found t key live same.
                    absurd (ground (arith, v.quiet g.deployment_id d found, both.1)))
                  both.0)
              (All-and (IsFenced s.deployments) (λ g. 0 < g.generation) s.generations v.fenced
                v.numbered));
      numbered = rw gs v.numbered;
      unique = λ k.
          rw ds (count-update-le target (has_id k) move s.deployments 1 (λ _. refl) (v.unique k));
      quiet =
          rw ds
            (AllQuiet-update target move s.deployments (λ _. refl) (λ _ _ _ _ _. inl refl) v.quiet);
    }

pub clear_checkpoints-Inv :
    (id : Text) (now : ℕ) (s s' : Store) (n : ℕ)
    → clear_checkpoints id now s ≡ ok (n, s')
    → Inv s
    → Inv s'
unfolding clear_checkpoints
clear_checkpoints-Inv id now s s' n h v =
    moved-Inv id (λ d. has_id id d && is_inactive d.status) (set_active_generation 0 now)
      (retire_once (codes "checkpoints cleared") now) s (λ _. refl) (λ d t. ground arith)
      (λ _. refl) (λ _. refl) (λ d t e. inr refl) v s' (ground arith) (ground arith)

pub archive_deployment-Inv :
    (id : Text) (now : ℕ) (s s' : Store) → archive_deployment id now s ≡ ok s' → Inv s → Inv s'
unfolding archive_deployment
archive_deployment-Inv id now s s' h v =
    moved-Inv id (λ d. has_id id d && is_inactive d.status) (archive now)
      (retire (codes "deployment archived") now) s (λ _. refl) (λ d t. ground arith) (λ _. refl)
      (λ _. refl) (λ d t e. inr (ground arith)) v s' (ground arith) (ground arith)

pub deactivate_due-Inv : (now : ℕ) (s : Store) → Inv s → Inv (deactivate_due now s).1
unfolding deactivate_due
deactivate_due-Inv now s v =
    elim (Bool-cases (any (λ d. is_active d.status && is_due now d) s.deployments)) [
      | inl some_due ↦ rw some_due (record {
        fenced =
            All-update_to (IsFenced s.deployments) _
              (λ g.
                g.is_live
                && any (λ d. text_eq d.id g.deployment_id && (is_active d.status && is_due now d))
                    s.deployments)
              (retire (codes "deployment expired") now) s.generations
              (λ g hit h live. absurd (ground arith))
              (λ g miss h.
                IsFenced-update (λ d. is_active d.status && is_due now d) (expire now) s.deployments
                  g (λ _. refl)
                  (λ d found t key live same. absurd (
                    ground (
                      arith,
                      any_of_found (has_id g.deployment_id)
                          (λ d.
                            text_eq d.id g.deployment_id && (is_active d.status && is_due now d))
                          s.deployments d found,
                    )))
                  h)
              v.fenced;
        numbered =
            All-update (λ g. 0 < g.generation) _ (retire (codes "deployment expired") now)
              s.generations (λ _ _ e. e) v.numbered;
        unique = λ id.
            count-update-le _ (has_id id) (expire now) s.deployments 1 (λ _. refl) (v.unique id);
        quiet =
            AllQuiet-update _ (expire now) s.deployments (λ _. refl) (λ _ _ _ _ _. inr refl)
              v.quiet;
      })
      | inr none_due ↦ rw none_due v
    ]

pub purge_deployment-Inv :
    (id : Text) (force : Bool) (s s' : Store) → purge_deployment id force s ≡ ok s' → Inv s → Inv s'
unfolding purge_deployment delete
purge_deployment-Inv id force s s' h v =
    let gone = λ (d : Deployment). not (has_id id d && is_archived d.status) in
    let ds : s'.deployments ≡ select gone s.deployments = ground arith in
    let gs : s'.generations ≡ select (λ g. not (text_eq g.deployment_id id)) s.generations =
      ground arith in
    record {
      fenced =
          rw (ds, gs)
            (All-select_to (IsFenced s.deployments) (IsFenced (select gone s.deployments)) _
              s.generations
              (λ g other fenced live.
                let (d, found, here) = fenced live in
                let key = find_sound (has_id g.deployment_id) s.deployments d found in
                (
                  d,
                  find-select (has_id g.deployment_id) gone s.deployments d found
                      (ground (arith, eq_of_text_eq d.id g.deployment_id, eq_of_text_eq d.id id)),
                  here,
                ))
              v.fenced);
      numbered = rw gs (All-select (λ g. 0 < g.generation) _ s.generations v.numbered);
      unique = λ k. rw ds (le_trans (count-select-le (has_id k) gone s.deployments) (v.unique k));
      quiet = rw ds (λ k d found. v.quiet k d (
          find_key (has_id k) gone s.deployments d (v.unique k)
            (sym (find-of_select (has_id k) gone s.deployments) ∙ found)));
    }
