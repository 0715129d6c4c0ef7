-- ===== src/Simops/Worker/Coherence.antt =====
-- What holds of a worker's state whatever is observed, launched or stopped, and in whatever order.

use radiant_prj.Common.{String, ◌≡◌, ◌≢◌, List, [], ◌∷◌, ◌++◌, arith}
use radiant_prj.Simops.Types.{
  ActiveExecution, WorkerPhase, LaunchDisposition, ConditionStatus, FailureStage,
  DegradationEvidence, WorkerState, WorkerRecord, CleanupDisposition, ObservedWorkerLifecycle,
  StopTransition, Time,
}
use radiant_prj.Simops.State.{ensure_worker_state}
use radiant_prj.Simops.Facts.{
  apply_degradation, apply_worker_runtime_observation, apply_worker_launch_outcome,
  apply_worker_cleanup_outcome,
}
use radiant_prj.Simops.Store.Observe.{observe_worker_state}
use radiant_prj.Simops.Store.Stop.{mark_stop_failure, mark_stopped, stop_worker_state}
use radiant_prj.Simops.Worker.{Step, Reach, observed, launched, stopped, here, next}

pub record IsCoherent (s : WorkerState) : Type 0 where
  pub staged_failed :
      s.failure_stage ≢ FailureStage.none → s.condition.status ≡ ConditionStatus.failed
  pub failed_phase : s.phase ≡ WorkerPhase.failed → s.condition.status ≡ ConditionStatus.failed
  pub degraded_listed :
      s.condition.status ≡ ConditionStatus.degraded → s.condition.degradations ≢ []
  pub nominal_unlisted :
      s.condition.status ≡ ConditionStatus.nominal → s.condition.degradations ≡ []
  pub active_executing :
      s.active_execution ≡ ActiveExecution.active_observed → s.phase ≡ WorkerPhase.executing
  pub active_launched :
      s.active_execution ≡ ActiveExecution.active_observed
      → s.launch_disposition ≡ LaunchDisposition.launched

append-ne-nil : (es : List DegradationEvidence) (e : DegradationEvidence) → es ++ e ∷ [] ≢ []
append-ne-nil [] e h = cc
append-ne-nil (x ∷ es) e h = cc

observe-IsCoherent :
    (s : WorkerState)
    → IsCoherent s
    → (o : ObservedWorkerLifecycle) → IsCoherent (observe_worker_state s o)
unfolding observe_worker_state apply_worker_runtime_observation apply_degradation
observe-IsCoherent s h o = ground (arith, append-ne-nil s.condition.degradations)

launch-IsCoherent :
    (s : WorkerState)
    → IsCoherent s
    → (d : LaunchDisposition) (at : Time) (source message : String)
    → IsCoherent (apply_worker_launch_outcome s d at source message).0
unfolding apply_worker_launch_outcome apply_degradation
launch-IsCoherent s h d at source message = ground (arith, append-ne-nil s.condition.degradations)

cleanup-IsCoherent :
    (s : WorkerState)
    → IsCoherent s
    → (d : CleanupDisposition) (at : Time) (source message : String)
    → IsCoherent (apply_worker_cleanup_outcome s d at source message).0
unfolding apply_worker_cleanup_outcome
cleanup-IsCoherent s h d at source message = ground (arith, append-ne-nil s.condition.degradations)

mark_stop_failure-IsCoherent :
    (t : StopTransition) (now : Time) (s : WorkerState)
    → IsCoherent s
    → IsCoherent (mark_stop_failure t now s)
unfolding mark_stop_failure
mark_stop_failure-IsCoherent t now s h = ground (arith, append-ne-nil s.condition.degradations)

mark_stopped-IsCoherent :
    (t : StopTransition) (s : WorkerState) → IsCoherent s → IsCoherent (mark_stopped t s)
unfolding mark_stopped
mark_stopped-IsCoherent t s h = ground arith

stop-IsCoherent :
    (s : WorkerState)
    → IsCoherent s
    → (t : StopTransition) (now : Time) → IsCoherent (stop_worker_state t now s)
unfolding stop_worker_state
stop-IsCoherent s h t now = mark_stopped-IsCoherent t _ (
    mark_stop_failure-IsCoherent t now _
      (cleanup-IsCoherent s h t.cleanup now "stop-orchestrator" t.cleanup_failure))

Step-IsCoherent : {s u : WorkerState} → Step s u → IsCoherent s → IsCoherent u
Step-IsCoherent {s} (observed o) h = observe-IsCoherent s h o
Step-IsCoherent {s} (launched d at source message) h = launch-IsCoherent s h d at source message
Step-IsCoherent {s} (stopped t now) h = stop-IsCoherent s h t now

Reach-IsCoherent : {s u : WorkerState} → Reach s u → IsCoherent s → IsCoherent u
Reach-IsCoherent here h = h
Reach-IsCoherent (next r st) h = Step-IsCoherent st (Reach-IsCoherent r h)

ensure-IsCoherent :
    (w : WorkerRecord) → w.state.phase ≡ WorkerPhase.unset → IsCoherent (ensure_worker_state w)
unfolding ensure_worker_state
ensure-IsCoherent w h = ground arith

-- From the state that a new record gets, and after any observations, launch outcomes and stop
-- transitions: a failure stage or the phase failed comes with the status failed, a degraded worker
-- has evidence and a nominal one has none, and an active execution is launched and executing.
pub reached-IsCoherent :
    (w : WorkerRecord) {u : WorkerState}
    → w.state.phase ≡ WorkerPhase.unset
    → Reach (ensure_worker_state w) u
    → IsCoherent u
reached-IsCoherent w h r = Reach-IsCoherent r (ensure-IsCoherent w h)
