-- ===== src/Simops/Store/Stop.antt =====
-- simops_store.go: ApplyStopTransition.
use radiant_prj.Common.{
  ◌==◌, Bool, true, false, not, ◌&&◌, Option, none, some, List, [], ◌∷◌, ◌++◌, ◌==ℕ◌, if◌then◌else◌,
}
use radiant_prj.Common.Error.{Result, ok, ◌>>=◌}
use radiant_prj.Common.Dict.{Dict, insert, values, inner}
use radiant_prj.Simops.Types
use radiant_prj.Simops.Types.{
  Time, Lifecycle, ActiveExecution, RunPhase, WorkerPhase, ConditionStatus, CleanupDisposition,
  FailureStage, DegradationEvidence, WorkerState, RunState, RunRecord, WorkerRecord, Event,
  PublicationIntent, StopTransition, StopOutcome,
}
use radiant_prj.Simops.State.{
  ensure_run_state, ensure_worker_state, project_worker_lifecycle, project_run_lifecycle,
}
use radiant_prj.Simops.Facts.{apply_degradation, apply_worker_cleanup_outcome}
use radiant_prj.Simops.Derive.{derive_run_state, is_failed_status}
use radiant_prj.Simops.Store.{Store, get_run}
use radiant_prj.Simops.Store.Observe.{append_evidence}
use radiant_prj.Simops.Store.Intents.{new_publication_intent, put_intent}

abbrev pub is_completed_cleanup : CleanupDisposition → Bool
is_completed_cleanup CleanupDisposition.completed = true
is_completed_cleanup _ = false

abbrev pub is_stopped_phase : RunPhase → Bool
is_stopped_phase RunPhase.stopped = true
is_stopped_phase _ = false

-- `transition.Cleanup == SimopsCleanupCompleted && transition.StopFailure == ""`
abbrev pub is_clean : StopTransition → Bool
is_clean t = is_completed_cleanup t.cleanup && t.stop_failure == ""

unfoldable pub stop_evidence : StopTransition → Time → DegradationEvidence
stop_evidence t now = record {
  code = "stop-incomplete";
  source = "stop-orchestrator";
  message = t.stop_failure;
  observed_at = now;
}

-- The part of the loop's body under `transition.StopFailure != ""`.
unfoldable pub mark_stop_failure : StopTransition → Time → WorkerState → WorkerState
unfolding stop_evidence apply_degradation
mark_stop_failure t now s =
    let s' = apply_degradation s (stop_evidence t now) in
    if t.stop_failure == ""
    then s
    else if t.stop_confirmed
    then record s' {
      condition = record s'.condition { status = ConditionStatus.failed };
      failure_stage = FailureStage.stop;
    }
    else s'

unfoldable pub mark_stopped : StopTransition → WorkerState → WorkerState
mark_stopped t s =
    if is_clean t && not (is_failed_status s.condition.status)
    then record s {
      phase = WorkerPhase.stopped;
      active_execution = ActiveExecution.terminal_observed;
    }
    else s

-- The state of one worker before the test for a clean stop.
unfoldable pub settle_worker : StopTransition → Time → WorkerState → WorkerState
unfolding mark_stop_failure
settle_worker t now s =
    mark_stop_failure t now
      (apply_worker_cleanup_outcome s t.cleanup now "stop-orchestrator" t.cleanup_failure).0

unfoldable pub stop_worker_state : StopTransition → Time → WorkerState → WorkerState
unfolding settle_worker mark_stopped
stop_worker_state t now s = mark_stopped t (settle_worker t now s)

-- One round of the loop, on the worker's record.
unfoldable pub stop_worker : StopTransition → Time → WorkerRecord → WorkerRecord
unfolding stop_worker_state settle_worker
stop_worker t now w =
    let settled = settle_worker t now (ensure_worker_state w) in
    let state = stop_worker_state t now (ensure_worker_state w) in
    record w {
      state = state;
      lifecycle =
          if is_clean t && not (is_failed_status settled.condition.status)
          then project_worker_lifecycle state.phase
          else w.lifecycle;
      updated_at = now;
    }

option_list : Option DegradationEvidence → List DegradationEvidence
option_list none = []
option_list (some e) = e ∷ []

-- What one round of the loop appends to `evidenceByWorker`.
unfoldable pub stop_worker_evidence :
    StopTransition → Time → WorkerRecord → List DegradationEvidence
unfolding option_list stop_evidence
stop_worker_evidence t now w =
    (if t.stop_failure == "" then [] else stop_evidence t now ∷ [])
    ++ option_list
        (apply_worker_cleanup_outcome (ensure_worker_state w) t.cleanup now "stop-orchestrator"
          t.cleanup_failure).1

unfoldable pub stop_workers : StopTransition → Time → Dict WorkerRecord → Dict WorkerRecord
stop_workers t now [] = []
stop_workers t now ((id, w) ∷ m) = (id, stop_worker t now w) ∷ stop_workers t now m

unfoldable pub stop_evidences :
    StopTransition
    → Time
    → Dict WorkerRecord
    → Dict (Dict (List DegradationEvidence))
    → Dict (Dict (List DegradationEvidence))
stop_evidences t now [] es = es
stop_evidences t now ((id, w) ∷ m) es =
    stop_evidences t now m (append_evidence t.run_id id (stop_worker_evidence t now w) es)

degraded_unless_failed : ConditionStatus → ConditionStatus
degraded_unless_failed ConditionStatus.failed = ConditionStatus.failed
degraded_unless_failed _ = ConditionStatus.degraded

-- The run's state, from the state that it had and the workers after the loop.
unfoldable pub stop_run_state : StopTransition → RunState → List WorkerRecord → RunState
unfolding degraded_unless_failed
stop_run_state t s ws =
    let s1 = record s { phase = RunPhase.stopping; cleanup = t.cleanup } in
    if is_clean t then record (derive_run_state s1 ws) { cleanup = t.cleanup } else record s1 {
      condition = record s1.condition { status = degraded_unless_failed s1.condition.status };
    }

unfoldable pub stop_run : StopTransition → Time → RunRecord → List WorkerRecord → RunRecord
stop_run t now r ws =
    let state = stop_run_state t (ensure_run_state r.lifecycle r.state) ws in
    record r { state = state; lifecycle = project_run_lifecycle state.phase; updated_at = now }

unfoldable pub stopped_event : RunRecord → Time → Event
stopped_event r now = record {
  run_id = r.run_id;
  worker_id = "";
  event_type = "run.lifecycle";
  lifecycle = Lifecycle.stopped;
  frame = "";
  occurred_at = now;
  redpanda_topic = "";
  redpanda_partition = Types.ℤ.pos 0;
  redpanda_offset = Types.ℤ.pos 0;
}

-- The store after the loop and the write of the run.
unfoldable pub store_stopped : StopTransition → Time → RunRecord → Store → Store
unfolding stop_workers stop_evidences
store_stopped t now r s =
    let ws = inner t.run_id s.workers_by_run in
    record s {
      runs = insert t.run_id (stop_run t now r (values (stop_workers t now ws))) s.runs;
      workers_by_run = insert t.run_id (stop_workers t now ws) s.workers_by_run;
      evidence_by_worker = stop_evidences t now ws s.evidence_by_worker;
    }

-- A run that is stopped gets an intent to publish that, in the place of one with that identifier.
unfoldable pub announce : RunRecord → Time → List WorkerRecord → Store → StopOutcome × Store
announce r now ws s =
    let i = new_publication_intent (stopped_event r now) now in
    if is_stopped_phase r.state.phase
    then (record { run = r; workers = ws; intent = some i }, put_intent r.run_id i s)
    else (record { run = r; workers = ws; intent = none }, s)

-- `OccurredAt`, or the clock where that is the zero time.
abbrev pub transition_time : StopTransition → Time → Time
transition_time t clock = if t.occurred_at ==ℕ 0 then clock else t.occurred_at

unfoldable pub apply_stop_transition : StopTransition → Time → Store → Result (StopOutcome × Store)
unfolding announce store_stopped
apply_stop_transition t clock s = do
  r ← get_run t.run_id s
  let now = transition_time t clock
  let ws = values (stop_workers t now (inner t.run_id s.workers_by_run))
  ok (announce (stop_run t now r ws) now ws (store_stopped t now r s))
