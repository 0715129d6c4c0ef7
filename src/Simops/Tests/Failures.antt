-- ===== src/Simops/Tests/Failures.antt =====
-- A failed worker that is observed again as running.
use radiant_prj.Common.{◌≡◌, refl, some, true}
use radiant_prj.Common.Error.{Result, ok, err}
use radiant_prj.Common.Dict.{lookup, inner, insert}
use radiant_prj.Simops.Types.{ObservedWorkerLifecycle, ObservedWorkerState, WorkerRecord}
use radiant_prj.Simops.State.{ensure_worker_state, worker_phase_set}
use radiant_prj.Simops.Facts.{apply_worker_runtime_observation}
use radiant_prj.Simops.Store.{Store, add_workers, get_run}
use radiant_prj.Simops.Store.Observe.{
  find_worker, put_worker, observe_worker, observe_worker_state, apply_observed_worker_lifecycle,
  update_worker_observed_lifecycle,
}
use radiant_prj.Simops.Changes
use radiant_prj.Simops.Changes.Failures.{is_set, stored_worker, Succeeds}
use radiant_prj.Simops.Changes.Failures.InPlace.{reached-Succeeds, here, next}
use radiant_prj.Simops.Tests.Data.{scheduler, gone}
use radiant_prj.Simops.Tests.Stores.{one_run}

abbrev after_or : Store → Result Store → Store
after_or s (ok u) = u
after_or s (err e) = s

abbrev back : ObservedWorkerLifecycle
back = record gone { state = ObservedWorkerState.active; message = "running"; observed_at = 11 }

abbrev failed_store : Store
failed_store = after_or one_run (update_worker_observed_lifecycle gone 9 one_run)

abbrev late_store : Store
late_store = after_or failed_store (update_worker_observed_lifecycle back 12 failed_store)

abbrev failed_worker : WorkerRecord
failed_worker = observe_worker (record scheduler { state = ensure_worker_state scheduler }) gone 9

observed_back : update_worker_observed_lifecycle back 12 failed_store ≡ ok late_store
unfolding update_worker_observed_lifecycle get_run find_worker put_worker lookup inner insert
    add_workers
observed_back = refl

failed_worker_set : is_set failed_worker ≡ true
unfolding worker_phase_set observe_worker observe_worker_state apply_worker_runtime_observation
    ensure_worker_state apply_observed_worker_lifecycle
failed_worker_set = refl

reached-Succeeds_example :
    (w : WorkerRecord) × (stored_worker "RUN-1" "scheduler-01" late_store ≡ some w)
    × Succeeds failed_worker w
unfolding update_worker_observed_lifecycle get_run find_worker put_worker lookup inner insert
    add_workers
reached-Succeeds_example =
    reached-Succeeds {run_id = "RUN-1"} {s = failed_store} {u = late_store} "scheduler-01"
      failed_worker (next here (Changes.Change.observed back 12 observed_back) refl) refl
      failed_worker_set
