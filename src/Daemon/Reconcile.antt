-- ===== src/Daemon/Reconcile.antt =====
-- internal/daemon/reconcile.go, `reconcile` and `stopWorker`, with the slot of a worker that
-- internal/daemon/registry.go keeps: which worker runs for which deployment. What the secrets, the
-- store and the start of a process come to is given for each deployment. Times are nanoseconds.
pub mod Current
pub mod Complete
use monitord.Base.{
  ℕ, ◌+◌, ◌*◌, ◌^◌, min, ltb, ◌==◌, Text, text_eq, Bool, true, false, not, ◌&&◌, ◌||◌, Option, none,
  some, List, [], ◌∷◌, any, if◌then◌else◌, is_some,
}
use monitord.Base.Table.{find, delete, select}

pub record RunningWorker : Type 0 where
  pub secret_fingerprint : Text
  pub generation : ℕ
  pub artifact_id : Text
  pub config_revision : ℕ

-- One entry of the map of workers; a start time of 0 is no delay.
pub record WorkerSlot : Type 0 where
  pub id : Text
  pub worker : Option RunningWorker
  pub failures : ℕ
  pub next_start : ℕ

-- The metadata of a deployment, and also its snapshot.
pub record RuntimeDeployment : Type 0 where
  pub id : Text
  pub artifact_id : Text
  pub config_revision : ℕ
  pub active_generation : ℕ
  pub source_dir : Text

-- What reconciling one deployment meets: the fingerprint of its secrets, its snapshot, the generation
-- of the worker that `launch` starts, and whether the context is cancelled at an error.
pub record Answers : Type 0 where
  pub secrets : Option Text
  pub snapshot : Option RuntimeDeployment
  pub launched : Option ℕ
  pub cancelled : Bool

abbrev pub is_slot : Text → WorkerSlot → Bool
is_slot id s = text_eq s.id id

abbrev pub slot_or_new : Text → Option WorkerSlot → WorkerSlot
slot_or_new id none = record { id = id; worker = none; failures = 0; next_start = 0 }
slot_or_new id (some s) = s

unfoldable pub slot_of : Text → List WorkerSlot → WorkerSlot
unfolding find
slot_of id slots = slot_or_new id (find (is_slot id) slots)

unfoldable pub set_slot : WorkerSlot → List WorkerSlot → List WorkerSlot
unfolding delete
set_slot s slots = s ∷ delete (is_slot s.id) slots

-- `stopWorker`, which forgets the slot.
unfoldable pub stop_worker : Text → List WorkerSlot → List WorkerSlot
unfolding delete
stop_worker id slots = delete (is_slot id) slots

abbrev pub start_delay : ℕ → ℕ
start_delay failures = 10 ^ 9 * 2 ^ min failures 8

-- One more failure, and a later start.
unfoldable pub postpone : Text → ℕ → List WorkerSlot → List WorkerSlot
unfolding slot_of set_slot
postpone id now slots =
    let s = slot_of id slots in
    set_slot
      (record {
        id = id;
        worker = s.worker;
        failures = s.failures + 1;
        next_start = now + start_delay (s.failures + 1);
      })
      slots

abbrev pub is_stale : RuntimeDeployment → Text → RunningWorker → Bool
is_stale m fingerprint w =
    not (text_eq w.secret_fingerprint fingerprint)
    || (not (w.generation == m.active_generation)
        || (not (text_eq w.artifact_id m.artifact_id)
            || not (w.config_revision == m.config_revision)))

abbrev pub is_moved : RuntimeDeployment → RuntimeDeployment → Bool
is_moved snapshot m =
    not (text_eq snapshot.artifact_id m.artifact_id)
    || (not (snapshot.config_revision == m.config_revision)
        || (not (snapshot.active_generation == m.active_generation)
            || not (text_eq snapshot.source_dir m.source_dir)))

-- The slots after one deployment, and whether the loop goes on.
abbrev pub Reconciled : Type 0
Reconciled = List WorkerSlot × Bool

abbrev pub launch_failed : Text → ℕ → Answers → List WorkerSlot → Reconciled
launch_failed id now a slots = if a.cancelled then (slots, false) else (postpone id now slots, true)

-- `launch`, where it succeeds: a worker from the snapshot in the slot.
unfoldable pub put_worker : Text → RuntimeDeployment → Text → ℕ → List WorkerSlot → List WorkerSlot
unfolding slot_of set_slot
put_worker id snapshot fingerprint generation slots =
    set_slot
      (record {
        id = id;
        worker = some (record {
          secret_fingerprint = fingerprint;
          generation = generation;
          artifact_id = snapshot.artifact_id;
          config_revision = snapshot.config_revision;
        });
        failures = (slot_of id slots).failures;
        next_start = 0;
      })
      slots

-- From `GetRuntimeDeployment` on.
abbrev pub start : RuntimeDeployment → Text → ℕ → Answers → List WorkerSlot → Reconciled
start m fingerprint now a slots = elim a.snapshot [
  | none ↦ launch_failed m.id now a slots
  | some snapshot ↦ if is_moved snapshot m then (slots, true) else elim a.launched [
    | none ↦ launch_failed m.id now a slots
    | some generation ↦ (put_worker m.id snapshot fingerprint generation slots, true)
  ]
]

-- With the worker that runs for the deployment, if one does.
abbrev pub reconcile_running :
    RuntimeDeployment
    → ℕ
    → Answers
    → Option Text
    → Option RunningWorker
    → List WorkerSlot
    → Reconciled
reconcile_running m now a none none slots = (postpone m.id now slots, true)
reconcile_running m now a none (some w) slots = (postpone m.id now (stop_worker m.id slots), true)
reconcile_running m now a (some fingerprint) none slots = start m fingerprint now a slots
reconcile_running m now a (some fingerprint) (some w) slots =
    if is_stale m fingerprint w
    then start m fingerprint now a (stop_worker m.id slots)
    else (slots, true)

unfoldable pub reconcile_deployment : RuntimeDeployment → ℕ → Answers → List WorkerSlot → Reconciled
unfolding slot_of stop_worker postpone put_worker
reconcile_deployment m now a slots =
    let s = slot_of m.id slots in
    if not (is_some s.worker) && ltb now s.next_start
    then (slots, true)
    else reconcile_running m now a a.secrets s.worker slots

abbrev pub is_active : List RuntimeDeployment → WorkerSlot → Bool
is_active ms s = any (λ m. text_eq m.id s.id) ms

-- `reconcile`, with what each deployment meets; a slot of no listed deployment is forgotten.
unfoldable pub reconcile_all :
    (RuntimeDeployment → Answers) → ℕ → List RuntimeDeployment → List WorkerSlot → Reconciled
unfolding reconcile_deployment
reconcile_all answers now [] slots = (slots, true)
reconcile_all answers now (m ∷ ms) slots =
    let rest = reconcile_all answers now ms in
    let first = reconcile_deployment m now (answers m) slots in
    if first.1 then rest first.0 else first

unfoldable pub reconcile :
    (RuntimeDeployment → Answers) → ℕ → List RuntimeDeployment → List WorkerSlot → Reconciled
unfolding reconcile_all select
reconcile answers now ms slots =
    let all = reconcile_all answers now ms slots in
    if all.1 then (select (is_active ms) all.0, true) else all
