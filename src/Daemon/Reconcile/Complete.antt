-- ===== src/Daemon/Reconcile/Complete.antt =====
-- internal/daemon/reconcile.go: all the deployments of one reconciliation.
use monitord.Base.{
  ℕ, ltb, ◌≡◌, refl, sym, ap, ◌∙◌, subst, inl, inr, Text, text_eq, text_eq_refl, eq_of_text_eq,
  true, false, not, ◌&&◌, Option, none, some, List, [], ◌∷◌, All, All-intro, All-and, any, arith,
  if◌then◌else◌, is_some, Bool-cases, Option-cases,
}
use monitord.Base.Table.{select, All-select_to, All-imp}
use monitord.Daemon.Reconcile.{
  RunningWorker, WorkerSlot, RuntimeDeployment, Answers, is_slot, slot_or_new, slot_of, stop_worker,
  postpone, is_stale, is_moved, launch_failed, put_worker, start, reconcile_running,
  reconcile_deployment, is_active, reconcile_all, reconcile, Reconciled,
}
use monitord.Daemon.Reconcile.Current.{
  Current, InSlot, slot_of-set_other, slot_of-stop_other, find-select_weaker,
  reconcile_deployment-InSlot,
}

module _ (id : Text) (m : RuntimeDeployment) (other : text_eq m.id id ≡ false) where
  -- A step leaves the slot of another deployment as it is.
  abbrev Same : List WorkerSlot → List WorkerSlot → Type 0
  Same slots after = slot_of id after ≡ slot_of id slots

  postpone-Same : (now : ℕ) (slots : List WorkerSlot) → Same slots (postpone m.id now slots)
  unfolding postpone
  postpone-Same now slots = slot_of-set_other id _ slots other

  launch_failed-Same :
      (now : ℕ) (a : Answers) (slots : List WorkerSlot)
      → Same slots (launch_failed m.id now a slots).0
  launch_failed-Same now a slots = elim (Bool-cases a.cancelled) [
    | inl stop ↦ rw stop refl
    | inr on ↦ rw on (postpone-Same now slots)
  ]

  put_worker-Same :
      (snapshot : RuntimeDeployment) (fingerprint : Text) (generation : ℕ) (slots : List WorkerSlot)
      → Same slots (put_worker m.id snapshot fingerprint generation slots)
  unfolding put_worker
  put_worker-Same snapshot fingerprint generation slots = slot_of-set_other id _ slots other

  start-Same :
      (fingerprint : Text) (now : ℕ) (a : Answers) (slots : List WorkerSlot)
      → Same slots (start m fingerprint now a slots).0
  start-Same fingerprint now a slots = elim (Option-cases a.snapshot) [
    | inl missing ↦ rw missing (launch_failed-Same now a slots)
    | inr (snapshot, found) ↦ elim (Bool-cases (is_moved snapshot m)) [
      | inl moved ↦ rw found (rw moved refl)
      | inr same ↦ elim (Option-cases a.launched) [
        | inl failed ↦ rw found (rw same (rw failed (launch_failed-Same now a slots)))
        | inr (generation, started) ↦
            rw found (rw same (rw started (put_worker-Same snapshot fingerprint generation slots)))
      ]
    ]
  ]

  reconcile_running-Same :
      (now : ℕ) (a : Answers) (o : Option Text) (v : Option RunningWorker) (slots : List WorkerSlot)
      → Same slots (reconcile_running m now a o v slots).0
  reconcile_running-Same now a none none slots = postpone-Same now slots
  reconcile_running-Same now a none (some w) slots =
      postpone-Same now (stop_worker m.id slots) ∙ slot_of-stop_other id m.id slots other
  reconcile_running-Same now a (some fingerprint) none slots = start-Same fingerprint now a slots
  reconcile_running-Same now a (some fingerprint) (some w) slots =
      elim (Bool-cases (is_stale m fingerprint w)) [
        | inl stale ↦ rw stale (
            start-Same fingerprint now a (stop_worker m.id slots)
            ∙ slot_of-stop_other id m.id slots other)
        | inr fresh ↦ rw fresh refl
      ]

  reconcile_deployment-Same :
      (now : ℕ) (a : Answers) (slots : List WorkerSlot)
      → Same slots (reconcile_deployment m now a slots).0
  unfolding reconcile_deployment
  reconcile_deployment-Same now a slots =
      let s = slot_of m.id slots in
      elim (Bool-cases (not (is_some s.worker) && ltb now s.next_start)) [
        | inl early ↦ rw early refl
        | inr due ↦ rw due (reconcile_running-Same now a a.secrets s.worker slots)
      ]

-- The IDs of the listed deployments differ.
abbrev pub HasDistinctIds : List RuntimeDeployment → Type 0
HasDistinctIds [] = Unit
HasDistinctIds (m ∷ ms) =
    All (λ (k : RuntimeDeployment). text_eq k.id m.id ≡ false) ms × HasDistinctIds ms

abbrev Listed : List RuntimeDeployment → RuntimeDeployment → Type 0
Listed ms k = any (λ (m : RuntimeDeployment). text_eq m.id k.id) ms ≡ true

listing_covers : (ms : List RuntimeDeployment) → All (Listed ms) ms
listing_covers [] = tt
listing_covers (m ∷ ms) = (
  rw (text_eq_refl m.id) refl,
  All-imp (Listed ms) (Listed (m ∷ ms)) ms (λ k h. ground (arith, h)) (listing_covers ms),
)

module _ (answers : RuntimeDeployment → Answers) (now : ℕ) where
  reconcile_all-Same :
      (id : Text) (ms : List RuntimeDeployment) (slots : List WorkerSlot)
      → All (λ (k : RuntimeDeployment). text_eq k.id id ≡ false) ms
      → slot_of id (reconcile_all answers now ms slots).0 ≡ slot_of id slots
  unfolding reconcile_all
  reconcile_all-Same id [] slots h = refl
  reconcile_all-Same id (m ∷ ms) slots h =
      let first = reconcile_deployment m now (answers m) slots in
      let step = reconcile_deployment-Same id m h.0 now (answers m) slots in
      elim (Bool-cases first.1) [
        | inl on ↦ rw on (reconcile_all-Same id ms first.0 h.1 ∙ step)
        | inr stop ↦ rw stop step
      ]

  InSlot-Same :
      (m : RuntimeDeployment) (a : Answers) (before after : List WorkerSlot)
      → slot_of m.id after ≡ slot_of m.id before
      → InSlot m a before
      → InSlot m a after
  InSlot-Same m a before after same h =
      subst (λ (s : WorkerSlot). Current m a s.worker) (sym same) h

  reconcile_all-InSlot :
      (ms : List RuntimeDeployment) (slots : List WorkerSlot)
      → HasDistinctIds ms
      → (reconcile_all answers now ms slots).1 ≡ true
      → All (λ m. InSlot m (answers m) (reconcile_all answers now ms slots).0) ms
  unfolding reconcile_all
  reconcile_all-InSlot [] slots h done = tt
  reconcile_all-InSlot (m ∷ ms) slots h done =
      let first = reconcile_deployment m now (answers m) slots in
      elim (Bool-cases first.1) [
        | inl on ↦
            let rest = reconcile_all answers now ms first.0 in
            let whole : reconcile_all answers now (m ∷ ms) slots ≡ rest =
              ap (λ b. if b then rest else first) on in
            subst (λ (r : Reconciled). All (λ k. InSlot k (answers k) r.0) (m ∷ ms)) (sym whole)
              (
                InSlot-Same m (answers m) first.0 rest.0 (reconcile_all-Same m.id ms first.0 h.0)
                    (reconcile_deployment-InSlot m now (answers m) slots),
                reconcile_all-InSlot ms first.0 h.1
                    (sym (ap (λ (r : Reconciled). r.1) whole) ∙ done),
              )
        | inr stop ↦ cc
      ]

  any_listed :
      (ms : List RuntimeDeployment) (id : Text) (s : WorkerSlot)
      → any (λ (m : RuntimeDeployment). text_eq m.id id) ms ≡ true
      → is_slot id s ≡ true
      → is_active ms s ≡ true
  any_listed ms id s h k =
      subst (λ t. any (λ (m : RuntimeDeployment). text_eq m.id t) ms ≡ true)
        (sym (eq_of_text_eq s.id id k)) h

  slot_of-active :
      (ms : List RuntimeDeployment) (id : Text) (slots : List WorkerSlot)
      → any (λ (m : RuntimeDeployment). text_eq m.id id) ms ≡ true
      → slot_of id (select (is_active ms) slots) ≡ slot_of id slots
  unfolding slot_of
  slot_of-active ms id slots h =
      ap (slot_or_new id)
        (find-select_weaker (is_slot id) (is_active ms) slots (λ s k. any_listed ms id s h k))

  -- Where a reconciliation comes to its end, every slot that is left belongs to a listed deployment,
  -- and every worker in the slot of a listed deployment has the fingerprint of the secrets as they
  -- were resolved now, and the artifact and the configuration that the deployment was listed with.
  -- The IDs of the listed deployments differ.
  pub reconcile-Current :
      (ms : List RuntimeDeployment) (slots : List WorkerSlot)
      → HasDistinctIds ms
      → (reconcile answers now ms slots).1 ≡ true
      → All (λ s. is_active ms s ≡ true) (reconcile answers now ms slots).0
        × All (λ m. InSlot m (answers m) (reconcile answers now ms slots).0) ms
  unfolding reconcile
  reconcile-Current ms slots h done =
      let all = reconcile_all answers now ms slots in
      elim (Bool-cases all.1) [
        | inl on ↦ rw on (
          All-select_to (λ s. Unit {0}) (λ s. is_active ms s ≡ true) (is_active ms) all.0
              (λ s hit u. hit) (All-intro (λ s. Unit {0}) all.0 (λ s. tt)),
          All-imp (λ m. InSlot m (answers m) all.0 × Listed ms m)
              (λ m. InSlot m (answers m) (select (is_active ms) all.0)) ms
              (λ m p.
                InSlot-Same m (answers m) all.0 (select (is_active ms) all.0)
                  (slot_of-active ms m.id all.0 p.1) p.0)
              (All-and (λ m. InSlot m (answers m) all.0) (Listed ms) ms
                (reconcile_all-InSlot ms slots h on) (listing_covers ms)),
        )
        | inr stop ↦ cc
      ]
