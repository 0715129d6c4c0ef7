-- ===== src/Simops/Tests/Workers.antt =====
-- The theorems about the state of workers, at examples.
use mathlib.Core.List.{Perm}
use mathlib.Core.List.{Permᴰ}
use radiant_prj.Common.{◌≡◌, ◌≢◌, refl, ◌⊎◌, true, false, none, [], ◌∷◌, ◌==◌}
use radiant_prj.Simops.Types.{
  Lifecycle, ActiveExecution, WorkerPhase, RunPhase, ConditionStatus, CleanupDisposition,
  LaunchDisposition, FailureStage, WorkerState, ObservedWorkerState,
}
use radiant_prj.Simops.State.{
  initial_worker_state, initial_run_state, ensure_worker_state, ensure_run_state,
  project_worker_lifecycle, project_run_lifecycle,
}
use radiant_prj.Simops.Facts.{
  observed_worker_state_is_terminal, apply_degradation, apply_worker_runtime_observation,
  apply_worker_launch_outcome,
}
use radiant_prj.Simops.Derive.{count_worker, tally, verdict, derive_run_state}
use radiant_prj.Simops.Derive.Verdict.{phase_of, status_of, derive_verdict}
use radiant_prj.Simops.Derive.Order.{derive-perm}
use radiant_prj.Simops.Store.{bare_state}
use radiant_prj.Simops.Store.Observe.{observe_worker_state}
use radiant_prj.Simops.Store.Stop.{stop_worker_state, is_clean}
use radiant_prj.Simops.Worker.{here, next, observed, stopped}
use radiant_prj.Simops.Worker.Coherence.{IsCoherent, reached-IsCoherent}
use radiant_prj.Simops.Worker.History.{Extends, reached-Extends}
use radiant_prj.Simops.Worker.Outcomes.{
  terminal_kept, launch_settled, stop_outcome, stop_failure_stage, project-ensure,
}
use radiant_prj.Simops.Tests.Data.{scheduler, storage, gone, clean_stop, bad_stop}

abbrev failed_state : WorkerState
failed_state = record initial_worker_state {
  phase = WorkerPhase.failed;
  active_execution = ActiveExecution.terminal_observed;
  condition = record { status = ConditionStatus.failed; degradations = [] };
  failure_stage = FailureStage.launch;
}

observe_failure : observe_worker_state initial_worker_state gone ≡ failed_state
unfolding observe_worker_state apply_worker_runtime_observation
observe_failure = refl

derive_two :
    (derive_run_state (initial_run_state 0) (scheduler ∷ storage ∷ [])).phase ≡ RunPhase.running
unfolding derive_run_state verdict tally count_worker
derive_two = refl

derive_verdict_example :
    let ws = scheduler ∷ storage ∷ [] in
    ((derive_run_state (initial_run_state 0) ws).phase ≡ phase_of ws)
    × ((derive_run_state (initial_run_state 0) ws).condition.status ≡ status_of ws)
derive_verdict_example = derive_verdict (initial_run_state 0) (scheduler ∷ storage ∷ [])

derive-perm_example :
    let state = initial_run_state 0 in
    let ws = scheduler ∷ storage ∷ [] in
    let vs = storage ∷ scheduler ∷ [] in
    ((derive_run_state state ws).phase ≡ (derive_run_state state vs).phase)
    × ((derive_run_state state ws).condition.status ≡ (derive_run_state state vs).condition.status)
    × Perm
        (derive_run_state state ws).condition.degradations
        (derive_run_state state vs).condition.degradations
derive-perm_example = derive-perm (initial_run_state 0) ∣ Permᴰ.swap refl refl ∣₁

reached-IsCoherent_example : IsCoherent (observe_worker_state (ensure_worker_state scheduler) gone)
reached-IsCoherent_example = reached-IsCoherent scheduler refl (next here (observed gone))

reached-Extends_example :
    Extends initial_worker_state
      (stop_worker_state bad_stop 12 (observe_worker_state initial_worker_state gone))
reached-Extends_example = reached-Extends (next (next here (observed gone)) (stopped bad_stop 12))

terminal_kept_example :
    let o = record gone { state = ObservedWorkerState.active } in
    ((observe_worker_state failed_state o).active_execution ≡ ActiveExecution.terminal_observed)
    × (observed_worker_state_is_terminal o.state ≡ false
        → observe_worker_state failed_state o
          ≡ apply_degradation failed_state (record {
            code = "terminal-contradiction";
            source = o.runtime;
            message = o.message;
            observed_at = o.observed_at;
          }))
terminal_kept_example =
    terminal_kept failed_state (record gone { state = ObservedWorkerState.active }) refl

launch_settled_example :
    let u =
      (apply_worker_launch_outcome initial_worker_state LaunchDisposition.rejected 1 "" "").0 in
    apply_worker_launch_outcome u LaunchDisposition.launched 2 "" "" ≡ (u, none)
launch_settled_example =
    launch_settled initial_worker_state LaunchDisposition.rejected LaunchDisposition.launched 1 2 ""
      "" "" "" refl

-- A worker that succeeded before its launch was recorded.
abbrev early : WorkerState
early = record initial_worker_state {
  phase = WorkerPhase.completed;
  active_execution = ActiveExecution.terminal_observed;
}

early_observed :
    observe_worker_state initial_worker_state
      (record gone { state = ObservedWorkerState.succeeded })
    ≡ early
unfolding observe_worker_state apply_worker_runtime_observation
early_observed = refl

stop_outcome_example :
    let u = stop_worker_state clean_stop 12 initial_worker_state in
    (u.cleanup ≡ CleanupDisposition.completed)
    × (is_clean clean_stop ≡ true
        → u.condition.status ≢ ConditionStatus.failed
        → (u.phase ≡ WorkerPhase.stopped)
          × (u.active_execution ≡ ActiveExecution.terminal_observed))
    × ((is_clean clean_stop ≡ false) ⊎ (u.condition.status ≡ ConditionStatus.failed)
        → (u.phase ≡ WorkerPhase.planned) × (u.active_execution ≡ ActiveExecution.unobserved))
stop_outcome_example = stop_outcome clean_stop 12 initial_worker_state

stop_failure_stage_example :
    let u = stop_worker_state bad_stop 12 initial_worker_state in
    ((bad_stop.stop_failure == "") ≡ false
      → bad_stop.stop_confirmed ≡ true
      → (u.condition.status ≡ ConditionStatus.failed) × (u.failure_stage ≡ FailureStage.stop))
    × (bad_stop.cleanup ≡ CleanupDisposition.failed
        → ((bad_stop.stop_failure == "") ≡ true) ⊎ (bad_stop.stop_confirmed ≡ false)
        → (u.condition.status ≡ ConditionStatus.failed) × (u.failure_stage ≡ FailureStage.cleanup))
stop_failure_stage_example = stop_failure_stage bad_stop 12 initial_worker_state

project-ensure_example :
    ((project_worker_lifecycle (ensure_worker_state scheduler).phase ≡ Lifecycle.starting)
      ⊎ ((Lifecycle.starting ≡ Lifecycle.degraded)
          × (project_worker_lifecycle (ensure_worker_state scheduler).phase ≡ Lifecycle.created)))
    × ((project_run_lifecycle (ensure_run_state Lifecycle.stopped (bare_state 7)).phase
          ≡ Lifecycle.stopped)
        ⊎ ((Lifecycle.stopped ≡ Lifecycle.degraded)
            × (project_run_lifecycle (ensure_run_state Lifecycle.stopped (bare_state 7)).phase
                ≡ Lifecycle.created)))
project-ensure_example =
    project-ensure scheduler Lifecycle.stopped (bare_state 7) refl refl (λ e. cc) (λ e. cc)
