-- ===== src/Simops/Worker/Outcomes.antt =====
-- What single operations on a worker's state decide.
use radiant_prj.Common.{String, ◌≡◌, ◌≢◌, ◌⊎◌, true, false, ◌==◌, none, arith}
use radiant_prj.Simops.Types.{
  Lifecycle, ActiveExecution, WorkerPhase, RunPhase, ConditionStatus, CleanupDisposition,
  LaunchDisposition, FailureStage, WorkerState, WorkerRecord, RunState, ObservedWorkerLifecycle,
  StopTransition, Time,
}
use radiant_prj.Simops.State.{
  ensure_worker_state, ensure_run_state, project_worker_lifecycle, project_run_lifecycle,
}
use radiant_prj.Simops.Facts.{
  is_settled, observed_worker_state_is_terminal, apply_degradation,
  apply_worker_runtime_observation, apply_worker_launch_outcome, apply_worker_cleanup_outcome,
}
use radiant_prj.Simops.Store.Observe.{observe_worker_state}
use radiant_prj.Simops.Store.Stop.{stop_worker_state, is_clean}

-- An observation never takes a terminal execution back: it stays terminal, and an observation that
-- is not terminal only adds evidence of the contradiction.
pub terminal_kept :
    (s : WorkerState) (o : ObservedWorkerLifecycle)
    → s.active_execution ≡ ActiveExecution.terminal_observed
    → ((observe_worker_state s o).active_execution ≡ ActiveExecution.terminal_observed)
      × (observed_worker_state_is_terminal o.state ≡ false
          → observe_worker_state s o
            ≡ apply_degradation s (record {
              code = "terminal-contradiction";
              source = o.runtime;
              message = o.message;
              observed_at = o.observed_at;
            }))
unfolding observe_worker_state apply_worker_runtime_observation observed_worker_state_is_terminal
    apply_degradation
terminal_kept s o h = ground arith

-- The first outcome that settles a launch, launched or rejected, is final: every later outcome
-- leaves the state alone and gives no evidence.
pub launch_settled :
    (s : WorkerState) (d d' : LaunchDisposition) (at at' : Time)
    (source message source' message' : String)
    → is_settled d ≡ true
    → let u = (apply_worker_launch_outcome s d at source message).0 in
      apply_worker_launch_outcome u d' at' source' message' ≡ (u, none)
unfolding apply_worker_launch_outcome
launch_settled s d d' at at' source message source' message' h = ground arith

-- A stop transition stops a worker exactly when the transition is clean and the worker's status is
-- not failed in the end. The cleanup disposition is recorded in any case, and a worker that is not
-- stopped keeps its phase and its execution.
pub stop_outcome :
    (t : StopTransition) (now : Time) (s : WorkerState)
    → let u = stop_worker_state t now s in
      (u.cleanup ≡ t.cleanup)
      × (is_clean t ≡ true
          → u.condition.status ≢ ConditionStatus.failed
          → (u.phase ≡ WorkerPhase.stopped)
            × (u.active_execution ≡ ActiveExecution.terminal_observed))
      × ((is_clean t ≡ false) ⊎ (u.condition.status ≡ ConditionStatus.failed)
          → (u.phase ≡ s.phase) × (u.active_execution ≡ s.active_execution))
unfolding stop_worker_state apply_worker_cleanup_outcome apply_degradation
stop_outcome t now s = ground arith

-- A confirmed failure to stop leaves the status failed and the stage stop. A failed cleanup without a
-- confirmed failure to stop leaves the status failed and the stage cleanup.
pub stop_failure_stage :
    (t : StopTransition) (now : Time) (s : WorkerState)
    → let u = stop_worker_state t now s in
      ((t.stop_failure == "") ≡ false
        → t.stop_confirmed ≡ true
        → (u.condition.status ≡ ConditionStatus.failed) × (u.failure_stage ≡ FailureStage.stop))
      × (t.cleanup ≡ CleanupDisposition.failed
          → ((t.stop_failure == "") ≡ true) ⊎ (t.stop_confirmed ≡ false)
          → (u.condition.status ≡ ConditionStatus.failed)
            × (u.failure_stage ≡ FailureStage.cleanup))
unfolding stop_worker_state apply_worker_cleanup_outcome apply_degradation
stop_failure_stage t now s = ground arith

-- A worker's record with no phase gets the phase that projects back to its lifecycle, and a run's
-- record too. The lifecycle degraded is the exception: it is read as a planned worker and an
-- admitted run, and comes back as created.
pub project-ensure :
    (w : WorkerRecord) (l : Lifecycle) (state : RunState)
    → w.state.phase ≡ WorkerPhase.unset
    → state.phase ≡ RunPhase.unset
    → w.lifecycle ≢ Lifecycle.unset
    → l ≢ Lifecycle.unset
    → ((project_worker_lifecycle (ensure_worker_state w).phase ≡ w.lifecycle)
        ⊎ ((w.lifecycle ≡ Lifecycle.degraded)
            × (project_worker_lifecycle (ensure_worker_state w).phase ≡ Lifecycle.created)))
      × ((project_run_lifecycle (ensure_run_state l state).phase ≡ l)
          ⊎ ((l ≡ Lifecycle.degraded)
              × (project_run_lifecycle (ensure_run_state l state).phase ≡ Lifecycle.created)))
unfolding project_worker_lifecycle project_run_lifecycle ensure_worker_state ensure_run_state
project-ensure w l state h k wl ll = ground arith
