-- ===== src/Daemon/Reconcile/Current.antt =====
-- internal/daemon/reconcile.go: the workers that run once a reconciliation has come to its end.
use monitord.Base.{
  ℕ, ltb, ◌≡◌, refl, sym, ap, subst, ◌∙◌, inl, inr, Text, text_eq, text_eq_refl, eq_of_text_eq,
  Bool, true, false, not, ◌&&◌, Option, none, some, List, [], ◌∷◌, arith, if◌then◌else◌, is_some,
  Bool-cases, Option-cases,
}
use monitord.Base.Table.{find, delete, select}
use monitord.Daemon.Reconcile.{
  RunningWorker, WorkerSlot, RuntimeDeployment, Answers, is_slot, slot_or_new, slot_of, set_slot,
  stop_worker, postpone, is_stale, is_moved, launch_failed, put_worker, start, reconcile_running,
  reconcile_deployment,
}

pub find-select_weaker {ℓ} :
    {A : Type ℓ} (q p : A → Bool) (rs : List A)
    → ((r : A) → q r ≡ true → p r ≡ true)
    → find q (select p rs) ≡ find q rs
unfolding find select
find-select_weaker q p [] imp = refl
find-select_weaker q p (r ∷ rs) imp = ground (arith, imp r, find-select_weaker q p rs imp)

find-delete_same {ℓ} : {A : Type ℓ} (q : A → Bool) (rs : List A) → find q (delete q rs) ≡ none
unfolding find delete select
find-delete_same q [] = refl
find-delete_same q (r ∷ rs) = ground (arith, find-delete_same q rs)

-- Another key.
other_slot :
    (id key : Text) (s : WorkerSlot)
    → text_eq key id ≡ false
    → is_slot id s ≡ true
    → not (is_slot key s) ≡ true
other_slot id key s other h = elim (Bool-cases (text_eq s.id key)) [
  | inl e ↦ absurd (ground (arith, eq_of_text_eq s.id key, eq_of_text_eq s.id id, text_eq_refl key))
  | inr e ↦ rw e refl
]

find-delete_other :
    (id key : Text) (slots : List WorkerSlot)
    → text_eq key id ≡ false
    → find (is_slot id) (delete (is_slot key) slots) ≡ find (is_slot id) slots
unfolding delete
find-delete_other id key slots other =
    find-select_weaker (is_slot id) (λ s. not (is_slot key s)) slots
      (λ s h. other_slot id key s other h)

pub slot_of-stop_other :
    (id key : Text) (slots : List WorkerSlot)
    → text_eq key id ≡ false
    → slot_of id (stop_worker key slots) ≡ slot_of id slots
unfolding slot_of stop_worker
slot_of-stop_other id key slots other = ap (slot_or_new id) (find-delete_other id key slots other)

slot_of-stop_same :
    (id : Text) (slots : List WorkerSlot) → (slot_of id (stop_worker id slots)).worker ≡ none
unfolding slot_of stop_worker
slot_of-stop_same id slots =
    ap (λ o. (slot_or_new id o).worker) (find-delete_same (is_slot id) slots)

pub slot_of-set_other :
    (id : Text) (s : WorkerSlot) (slots : List WorkerSlot)
    → text_eq s.id id ≡ false
    → slot_of id (set_slot s slots) ≡ slot_of id slots
unfolding slot_of set_slot find
slot_of-set_other id s slots other =
    ap (λ b. slot_or_new id (if b then some s else find (is_slot id) (delete (is_slot s.id) slots)))
      other
    ∙ ap (slot_or_new id) (find-delete_other id s.id slots other)

slot_of-set_same : (s : WorkerSlot) (slots : List WorkerSlot) → slot_of s.id (set_slot s slots) ≡ s
unfolding slot_of set_slot find
slot_of-set_same s slots =
    ap
      (λ b.
        slot_or_new s.id (if b then some s else find (is_slot s.id) (delete (is_slot s.id) slots)))
      (text_eq_refl s.id)

-- What a step may leave in the slot of its deployment.
abbrev pub Current : RuntimeDeployment → Answers → Option RunningWorker → Type 0
Current m a none = Unit
Current m a (some w) =
    (a.secrets ≡ some w.secret_fingerprint)
    × (w.artifact_id ≡ m.artifact_id)
    × (w.config_revision ≡ m.config_revision)

abbrev pub InSlot : RuntimeDeployment → Answers → List WorkerSlot → Type 0
InSlot m a slots = Current m a (slot_of m.id slots).worker

no_worker :
    (m : RuntimeDeployment) (a : Answers) (o : Option RunningWorker) → o ≡ none → Current m a o
no_worker m a o e = subst (Current m a) (sym e) tt

postpone-worker :
    (id : Text) (now : ℕ) (slots : List WorkerSlot)
    → (slot_of id (postpone id now slots)).worker ≡ (slot_of id slots).worker
unfolding postpone
postpone-worker id now slots = ap (λ s. s.worker) (slot_of-set_same _ slots)

launch_failed-InSlot :
    (m : RuntimeDeployment) (now : ℕ) (a : Answers) (slots : List WorkerSlot)
    → (slot_of m.id slots).worker ≡ none
    → InSlot m a (launch_failed m.id now a slots).0
launch_failed-InSlot m now a slots e = elim (Bool-cases a.cancelled) [
  | inl stop ↦ rw stop (no_worker m a _ e)
  | inr on ↦ rw on (no_worker m a _ (postpone-worker m.id now slots ∙ e))
]

some-Current :
    (m : RuntimeDeployment) (a : Answers) (x : RunningWorker) (o : Option RunningWorker)
    → o ≡ some x
    → a.secrets ≡ some x.secret_fingerprint
    → x.artifact_id ≡ m.artifact_id
    → x.config_revision ≡ m.config_revision
    → Current m a o
some-Current m a x o e secrets artifact revision =
    subst (Current m a) (sym e) (secrets, artifact, revision)

put_worker-InSlot :
    (m snapshot : RuntimeDeployment) (a : Answers) (fingerprint : Text) (generation : ℕ)
    (slots : List WorkerSlot)
    → a.secrets ≡ some fingerprint
    → is_moved snapshot m ≡ false
    → InSlot m a (put_worker m.id snapshot fingerprint generation slots)
unfolding put_worker
put_worker-InSlot m snapshot a fingerprint generation slots secrets same =
    some-Current m a
      (record {
        secret_fingerprint = fingerprint;
        generation = generation;
        artifact_id = snapshot.artifact_id;
        config_revision = snapshot.config_revision;
      })
      _ (ap (λ (s : WorkerSlot). s.worker) (slot_of-set_same _ slots)) secrets
      (eq_of_text_eq snapshot.artifact_id m.artifact_id (ground arith)) (ground arith)

start-InSlot :
    (m : RuntimeDeployment) (fingerprint : Text) (now : ℕ) (a : Answers) (slots : List WorkerSlot)
    → a.secrets ≡ some fingerprint
    → (slot_of m.id slots).worker ≡ none
    → InSlot m a (start m fingerprint now a slots).0
start-InSlot m fingerprint now a slots secrets idle = elim (Option-cases a.snapshot) [
  | inl missing ↦ rw missing (launch_failed-InSlot m now a slots idle)
  | inr (snapshot, found) ↦ elim (Bool-cases (is_moved snapshot m)) [
    | inl moved ↦ rw found (rw moved (no_worker m a _ idle))
    | inr same ↦ elim (Option-cases a.launched) [
      | inl failed ↦ rw found (rw same (rw failed (launch_failed-InSlot m now a slots idle)))
      | inr (generation, started) ↦ rw found (
          rw same
            (rw started (put_worker-InSlot m snapshot a fingerprint generation slots secrets same)))
    ]
  ]
]

reconcile_running-InSlot :
    (m : RuntimeDeployment) (now : ℕ) (a : Answers) (o : Option Text) (v : Option RunningWorker)
    (slots : List WorkerSlot)
    → a.secrets ≡ o
    → (slot_of m.id slots).worker ≡ v
    → InSlot m a (reconcile_running m now a o v slots).0
reconcile_running-InSlot m now a none none slots secrets idle =
    no_worker m a _ (postpone-worker m.id now slots ∙ idle)
reconcile_running-InSlot m now a none (some w) slots secrets running =
    no_worker m a _
      (postpone-worker m.id now (stop_worker m.id slots) ∙ slot_of-stop_same m.id slots)
reconcile_running-InSlot m now a (some fingerprint) none slots secrets idle =
    start-InSlot m fingerprint now a slots secrets idle
reconcile_running-InSlot m now a (some fingerprint) (some w) slots secrets running =
    elim (Bool-cases (is_stale m fingerprint w)) [
      | inl stale ↦ rw stale (
          start-InSlot m fingerprint now a (stop_worker m.id slots) secrets
            (slot_of-stop_same m.id slots))
      | inr fresh ↦
          let same = eq_of_text_eq w.secret_fingerprint fingerprint (ground arith) in
          rw fresh (
            some-Current m a w _ running (secrets ∙ ap some (sym same))
              (eq_of_text_eq w.artifact_id m.artifact_id (ground arith)) (ground arith))
    ]

pub reconcile_deployment-InSlot :
    (m : RuntimeDeployment) (now : ℕ) (a : Answers) (slots : List WorkerSlot)
    → InSlot m a (reconcile_deployment m now a slots).0
unfolding reconcile_deployment
reconcile_deployment-InSlot m now a slots =
    let s = slot_of m.id slots in
    elim (Bool-cases (not (is_some s.worker) && ltb now s.next_start)) [
      | inl early ↦ rw early (no_worker m a _ (idle s.worker (ground arith)))
      | inr due ↦ rw due (reconcile_running-InSlot m now a a.secrets s.worker slots refl refl)
    ]
  where
    idle : (o : Option RunningWorker) → is_some o ≡ false → o ≡ none
    idle none h = refl
    idle (some w) h = cc
