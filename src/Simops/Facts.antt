-- ===== src/Simops/Facts.antt =====
-- backend/slurm-gateway/internal/gateway/simops_state.go: what an observation, a launch and a
-- cleanup do to a worker's state. A function that also returns a `*Evidence` returns a pair with an
-- `Option`.
use radiant_prj.Common.{
  String, ◌==◌, Bool, true, false, ◌&&◌, not, Option, none, some, [], ◌∷◌, ◌++◌, if◌then◌else◌,
}
use radiant_prj.Simops.Types.{
  Time, Lifecycle, ActiveExecution, WorkerPhase, LaunchDisposition, ConditionStatus,
  CleanupDisposition, FailureStage, ObservedWorkerState, DegradationEvidence, WorkerState,
  ObservedWorkerLifecycle, WorkerRecord,
}
use radiant_prj.Simops.State.{ensure_worker_state}

degrade_status : ConditionStatus → ConditionStatus
degrade_status ConditionStatus.nominal = ConditionStatus.degraded
degrade_status s = s

unfoldable pub apply_degradation : WorkerState → DegradationEvidence → WorkerState
unfolding degrade_status
apply_degradation s e = record s {
  condition = record {
    status = degrade_status s.condition.status;
    degradations = s.condition.degradations ++ e ∷ [];
  };
}

unfoldable pub observed_worker_state_is_terminal : ObservedWorkerState → Bool
observed_worker_state_is_terminal ObservedWorkerState.succeeded = true
observed_worker_state_is_terminal ObservedWorkerState.failed = true
observed_worker_state_is_terminal ObservedWorkerState.image_pull_failed = true
observed_worker_state_is_terminal ObservedWorkerState.stopped = true
observed_worker_state_is_terminal _ = false

abbrev pub is_terminal : ActiveExecution → Bool
is_terminal ActiveExecution.terminal_observed = true
is_terminal _ = false

is_active : ActiveExecution → Bool
is_active ActiveExecution.active_observed = true
is_active _ = false

absent_if_unseen : ActiveExecution → ActiveExecution
absent_if_unseen ActiveExecution.unobserved = ActiveExecution.absent_observed
absent_if_unseen ActiveExecution.uncertain = ActiveExecution.absent_observed
absent_if_unseen e = e

observed_failure : WorkerState → WorkerState
unfolding is_active
observed_failure s = record s {
  active_execution = ActiveExecution.terminal_observed;
  phase = WorkerPhase.failed;
  condition = record s.condition { status = ConditionStatus.failed };
  failure_stage =
      if is_active s.active_execution then FailureStage.execution else FailureStage.launch;
}

-- The switch of applyWorkerRuntimeObservation.
unfoldable pub observe : ObservedWorkerState → WorkerState → WorkerState
unfolding observed_failure absent_if_unseen
observe ObservedWorkerState.active s = record s {
  active_execution = ActiveExecution.active_observed;
  launch_disposition = LaunchDisposition.launched;
  phase = WorkerPhase.executing;
}
observe ObservedWorkerState.succeeded s = record s {
  active_execution = ActiveExecution.terminal_observed;
  phase = WorkerPhase.completed;
}
observe ObservedWorkerState.failed s = observed_failure s
observe ObservedWorkerState.image_pull_failed s = observed_failure s
observe ObservedWorkerState.stopped s = record s {
  active_execution = ActiveExecution.terminal_observed;
  phase = WorkerPhase.stopped;
}
observe ObservedWorkerState.missing s = record s {
  active_execution = absent_if_unseen s.active_execution;
}
observe _ s = s

unfoldable pub apply_worker_runtime_observation :
    WorkerState → ObservedWorkerLifecycle → WorkerState × Option DegradationEvidence
unfolding observe observed_worker_state_is_terminal
apply_worker_runtime_observation s o =
    if is_terminal s.active_execution && not (observed_worker_state_is_terminal o.state)
    then (
      s,
      some (record {
        code = "terminal-contradiction";
        source = o.runtime;
        message = o.message;
        observed_at = o.observed_at;
      }),
    )
    else (observe o.state s, none)

abbrev pub is_settled : LaunchDisposition → Bool
is_settled LaunchDisposition.launched = true
is_settled LaunchDisposition.rejected = true
is_settled _ = false

launch_uncertain : Time → String → String → DegradationEvidence
launch_uncertain at source message = record {
  code = "launch-uncertain";
  source = source;
  message = message;
  observed_at = at;
}

-- The switch of applyWorkerLaunchOutcome.
unfoldable pub launch_outcome :
    LaunchDisposition → WorkerState → DegradationEvidence → WorkerState × Option DegradationEvidence
unfolding apply_degradation
launch_outcome LaunchDisposition.launched s e = (
  record s { launch_disposition = LaunchDisposition.launched; phase = WorkerPhase.launching },
  none,
)
launch_outcome LaunchDisposition.rejected s e = (
  record s {
    launch_disposition = LaunchDisposition.rejected;
    phase = WorkerPhase.failed;
    condition = record s.condition { status = ConditionStatus.failed };
    failure_stage = FailureStage.launch;
  },
  none,
)
launch_outcome LaunchDisposition.attempted_absent s e = (
  apply_degradation
      (record s {
        launch_disposition = LaunchDisposition.attempted_absent;
        active_execution = ActiveExecution.uncertain;
        phase = WorkerPhase.launching;
      })
      e,
  some e,
)
launch_outcome _ s e = (s, none)

unfoldable pub apply_worker_launch_outcome :
    WorkerState
    → LaunchDisposition
    → Time
    → String
    → String
    → WorkerState × Option DegradationEvidence
unfolding launch_outcome launch_uncertain
apply_worker_launch_outcome s d at source message =
    if is_settled s.launch_disposition
    then (s, none)
    else launch_outcome d s (launch_uncertain at source message)

cleanup_evidence : String → Time → String → String → DegradationEvidence
cleanup_evidence code at source message = record {
  code = code;
  source = source;
  message = message;
  observed_at = at;
}

-- The switch of applyWorkerCleanupOutcome.
unfoldable pub apply_worker_cleanup_outcome :
    WorkerState
    → CleanupDisposition
    → Time
    → String
    → String
    → WorkerState × Option DegradationEvidence
unfolding cleanup_evidence apply_degradation
apply_worker_cleanup_outcome s CleanupDisposition.incomplete at source message =
    let e = cleanup_evidence "cleanup-incomplete" at source message in
    (apply_degradation (record s { cleanup = CleanupDisposition.incomplete }) e, some e)
apply_worker_cleanup_outcome s CleanupDisposition.failed at source message = (
  record s {
    cleanup = CleanupDisposition.failed;
    condition = record s.condition { status = ConditionStatus.failed };
    failure_stage = FailureStage.cleanup;
  },
  some (cleanup_evidence "cleanup-failed" at source message),
)
apply_worker_cleanup_outcome s d at source message = (record s { cleanup = d }, none)

abbrev pub is_failed_lifecycle : Lifecycle → Bool
is_failed_lifecycle Lifecycle.failed = true
is_failed_lifecycle _ = false

is_unattempted : LaunchDisposition → Bool
is_unattempted LaunchDisposition.unattempted = true
is_unattempted _ = false

-- materializeWorkerLaunchState on the worker's state, after `ensure_worker_state`.
materialize_state :
    WorkerState → Lifecycle → String → Time → WorkerState × Option DegradationEvidence
unfolding is_unattempted
materialize_state s lifecycle runtime_id now =
    if not (runtime_id == "")
    then (
      (apply_worker_launch_outcome s LaunchDisposition.launched now "launch"
          "runtime accepted launch").0,
      none,
    )
    else if is_failed_lifecycle lifecycle
    then (
      (apply_worker_launch_outcome s LaunchDisposition.rejected now "launch"
          "runtime rejected launch").0,
      none,
    )
    else if is_unattempted s.launch_disposition
    then apply_worker_launch_outcome s LaunchDisposition.attempted_absent now "launch"
        "launch accepted without an observed runtime resource"
    else (s, none)

unfoldable pub materialize_worker_launch_state :
    WorkerRecord → WorkerRecord × Option DegradationEvidence
unfolding materialize_state
materialize_worker_launch_state w =
    let (state, evidence) =
      materialize_state (ensure_worker_state w) w.lifecycle w.runtime_id w.updated_at in
    (record w { state = state }, evidence)
