-- ===== src/Simops/State.antt =====
-- backend/slurm-gateway/internal/gateway/simops_state.go: the states of new and of old
-- records, and the lifecycle that a phase is shown as.
use radiant_prj.Common.{Bool, true, false, [], if◌then◌else◌}
use radiant_prj.Simops.Types.{
  Time, Lifecycle, ActiveExecution, RunPhase, WorkerPhase, LaunchDisposition, ConditionStatus,
  CleanupDisposition, FailureStage, WorkerState, RunState, WorkerRecord,
}

abbrev pub initial_worker_state : WorkerState
initial_worker_state = record {
  phase = WorkerPhase.planned;
  launch_disposition = LaunchDisposition.unattempted;
  active_execution = ActiveExecution.unobserved;
  condition = record { status = ConditionStatus.nominal; degradations = [] };
  failure_stage = FailureStage.none;
  cleanup = CleanupDisposition.not_requested;
}

abbrev pub initial_run_state : Time → RunState
initial_run_state deadline = record {
  phase = RunPhase.admitted;
  condition = record { status = ConditionStatus.nominal; degradations = [] };
  cleanup = CleanupDisposition.not_requested;
  launch_observation_deadline = deadline;
}

-- The switch of ensureSimopsWorkerState.
worker_state_of_lifecycle : Lifecycle → WorkerState
worker_state_of_lifecycle Lifecycle.starting = record initial_worker_state {
  phase = WorkerPhase.launching;
}
worker_state_of_lifecycle Lifecycle.streaming = record initial_worker_state {
  phase = WorkerPhase.executing;
}
worker_state_of_lifecycle Lifecycle.complete = record initial_worker_state {
  phase = WorkerPhase.completed;
  active_execution = ActiveExecution.terminal_observed;
}
worker_state_of_lifecycle Lifecycle.failed = record initial_worker_state {
  phase = WorkerPhase.failed;
  active_execution = ActiveExecution.terminal_observed;
  condition = record { status = ConditionStatus.failed; degradations = [] };
}
worker_state_of_lifecycle Lifecycle.stopped = record initial_worker_state {
  phase = WorkerPhase.stopped;
  active_execution = ActiveExecution.terminal_observed;
}
worker_state_of_lifecycle _ = initial_worker_state

-- `phase != ""`
unfoldable pub worker_phase_set : WorkerPhase → Bool
worker_phase_set WorkerPhase.unset = false
worker_phase_set _ = true

unfoldable pub ensure_worker_state : WorkerRecord → WorkerState
unfolding worker_state_of_lifecycle worker_phase_set
ensure_worker_state w =
    if worker_phase_set w.state.phase then w.state else worker_state_of_lifecycle w.lifecycle

run_state_of_lifecycle : Lifecycle → RunState
run_state_of_lifecycle Lifecycle.starting = record (initial_run_state 0) {
  phase = RunPhase.launching;
}
run_state_of_lifecycle Lifecycle.streaming = record (initial_run_state 0) {
  phase = RunPhase.running;
}
run_state_of_lifecycle Lifecycle.complete = record (initial_run_state 0) {
  phase = RunPhase.completed;
}
run_state_of_lifecycle Lifecycle.failed = record (initial_run_state 0) {
  phase = RunPhase.failed;
  condition = record { status = ConditionStatus.failed; degradations = [] };
}
run_state_of_lifecycle Lifecycle.stopped = record (initial_run_state 0) { phase = RunPhase.stopped }
run_state_of_lifecycle _ = initial_run_state 0

run_phase_set : RunPhase → Bool
run_phase_set RunPhase.unset = false
run_phase_set _ = true

-- ensureSimopsRunState reads the record's lifecycle and state only.
unfoldable pub ensure_run_state : Lifecycle → RunState → RunState
unfolding run_state_of_lifecycle run_phase_set
ensure_run_state lifecycle state =
    if run_phase_set state.phase then state else run_state_of_lifecycle lifecycle

unfoldable pub project_worker_lifecycle : WorkerPhase → Lifecycle
project_worker_lifecycle WorkerPhase.planned = Lifecycle.created
project_worker_lifecycle WorkerPhase.launching = Lifecycle.starting
project_worker_lifecycle WorkerPhase.executing = Lifecycle.streaming
project_worker_lifecycle WorkerPhase.completed = Lifecycle.complete
project_worker_lifecycle WorkerPhase.failed = Lifecycle.failed
project_worker_lifecycle WorkerPhase.stopped = Lifecycle.stopped
project_worker_lifecycle WorkerPhase.unset = Lifecycle.created

unfoldable pub project_run_lifecycle : RunPhase → Lifecycle
project_run_lifecycle RunPhase.admitted = Lifecycle.created
project_run_lifecycle RunPhase.launching = Lifecycle.starting
project_run_lifecycle RunPhase.running = Lifecycle.streaming
project_run_lifecycle RunPhase.stopping = Lifecycle.degraded
project_run_lifecycle RunPhase.completed = Lifecycle.complete
project_run_lifecycle RunPhase.failed = Lifecycle.failed
project_run_lifecycle RunPhase.stopped = Lifecycle.stopped
project_run_lifecycle RunPhase.unset = Lifecycle.created
