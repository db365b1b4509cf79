-- ===== src/Tests/Reconcile.antt =====
-- A reconciliation that replaces a stale worker and forgets the slot of an unlisted deployment.
use monitord.Base.{◌≡◌, refl, text_eq, true, false, some, List, [], ◌∷◌, All}
use monitord.Base.Table.{find, select, delete}
use monitord.Daemon.Reconcile.{
  RunningWorker, WorkerSlot, RuntimeDeployment, Answers, slot_of, set_slot, stop_worker, put_worker,
  reconcile_deployment, is_active, reconcile_all, reconcile,
}
use monitord.Daemon.Reconcile.Current.{InSlot}
use monitord.Daemon.Reconcile.Complete.{reconcile-Current}

abbrev old_worker : RunningWorker
old_worker = record {
  secret_fingerprint = 1 ∷ [];
  generation = 3;
  artifact_id = 97 ∷ [];
  config_revision = 1;
}

abbrev slots : List WorkerSlot
slots =
    record { id = 100 ∷ []; worker = some old_worker; failures = 0; next_start = 0 }
    ∷ record { id = 101 ∷ []; worker = some old_worker; failures = 2; next_start = 0 }
    ∷ []

-- The artifact of the deployment is another one by now.
abbrev deployment : RuntimeDeployment
deployment = record {
  id = 100 ∷ [];
  artifact_id = 98 ∷ [];
  config_revision = 2;
  active_generation = 3;
  source_dir = [];
}

abbrev answers : RuntimeDeployment → Answers
answers m = record {
  secrets = some (1 ∷ []);
  snapshot = some m;
  launched = some 4;
  cancelled = false;
}

completed : (reconcile answers 5 (deployment ∷ []) slots).1 ≡ true
unfolding reconcile reconcile_all reconcile_deployment slot_of stop_worker put_worker set_slot find
    select delete text_eq
completed = refl

reconcile-Current_example :
    All (λ s. is_active (deployment ∷ []) s ≡ true) (reconcile answers 5 (deployment ∷ []) slots).0
    × All
        (λ m. InSlot m (answers m) (reconcile answers 5 (deployment ∷ []) slots).0)
        (deployment ∷ [])
reconcile-Current_example = reconcile-Current answers 5 (deployment ∷ []) slots (tt, tt) completed
