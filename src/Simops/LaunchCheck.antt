-- ===== src/Simops/LaunchCheck.antt =====
-- backend/slurm-gateway/internal/gateway/simops_run_lifecycle.go: what is checked about a launch, and
-- the records that a failed launch leaves. A set is a list of its members. The proofs are in the
-- modules below.
pub mod Complete
pub mod Failed
use Prim.Native.String.{◌++◌ as ◌<>◌}
use radiant_prj.Common.{
  ℕ, String, Bool, true, false, not, ◌&&◌, ◌||◌, ◌==◌, ◌==ℕ◌, Option, none, some, List, [], ◌∷◌,
  length, map, if◌then◌else◌,
}
use radiant_prj.Common.Error.{Error, Result, ok, err, ◌>>=◌, ◌>>◌, guard}
use radiant_prj.Common.Dict.{Dict, lookup, insert, has}
use radiant_prj.Common.Text.{trim_space}
use radiant_prj.Simops.Types.{
  Time, Lifecycle, ObservedWorkerState, ObservedWorkerLifecycle, WorkerRecord, SpoolCommand,
  ArtifactRecord, RunRecord, WorkerState, WorkerPhase, LaunchDisposition, ActiveExecution,
  ConditionStatus, FailureStage, CleanupDisposition,
}

-- The fields that plannedWorkerRecords leaves out have their zero values.
abbrev pub unset_state : WorkerState
unset_state = record {
  phase = WorkerPhase.unset;
  launch_disposition = LaunchDisposition.unset;
  active_execution = ActiveExecution.unset;
  condition = record { status = ConditionStatus.unset; degradations = [] };
  failure_stage = FailureStage.unset;
  cleanup = CleanupDisposition.unset;
}

unfoldable pub planned_worker : RunRecord → Time → String → WorkerRecord
planned_worker r now kind =
    let mode = trim_space r.launch_mode in
    record {
      run_id = r.run_id;
      worker_id = kind <> "-01";
      worker_kind = kind;
      lifecycle = Lifecycle.starting;
      state = unset_state;
      observed_lifecycle = ObservedWorkerState.unset;
      observed_reason = "";
      observed_message = "";
      runtime = "";
      runtime_id = "";
      observed_exit_code = none;
      observed_at = none;
      launch_mode = if mode == "" then "resident" else mode;
      endpoint = "";
      frames = 0;
      updated_at = now;
      labels = [];
    }

unfoldable pub planned_worker_records : RunRecord → List String → Time → List WorkerRecord
unfolding planned_worker
planned_worker_records r kinds now = map (planned_worker r now) kinds

unfoldable pub validate_planned_artifact : String → ArtifactRecord → Result (Unit {0})
validate_planned_artifact run_id a = do
  guard (not (trim_space a.artifact_id == "")) (Error.message "planned artifact_id is required")
  guard (trim_space a.run_id == trim_space run_id)
      (Error.message "planned artifact run_id does not match Run")
  guard (not (trim_space a.kind == "" || trim_space a.status == ""))
      (Error.message "planned artifact kind and status are required")

-- `expected`: the kind of each planned worker.
unfoldable pub expected_kinds : List WorkerRecord → Dict String → Dict String
expected_kinds [] m = m
expected_kinds (w ∷ ws) m = expected_kinds ws (insert w.worker_id w.worker_kind m)

unexpected : WorkerRecord → Error
unexpected w = Error.message ("runtime returned unexpected worker " <> w.worker_id)

-- The test of one launched worker.
unfoldable pub check_launched : Dict String → Dict (Unit {0}) → WorkerRecord → Result (Unit {0})
unfolding unexpected
check_launched expected seen w = elim (lookup w.worker_id expected) [
  | none ↦ err (unexpected w)
  | some kind ↦
      guard (kind == w.worker_kind)
        (Error.message "runtime returned worker %q with kind %q instead of %q")
      >> guard (not (has w.worker_id seen)) (Error.message "runtime returned duplicate worker %q")
]

-- The loop over the launched workers, which returns `seen`.
unfoldable pub check_all_launched :
    Dict String → Dict (Unit {0}) → List WorkerRecord → Result (Dict (Unit {0}))
unfolding check_launched
check_all_launched expected seen [] = ok seen
check_all_launched expected seen (w ∷ ws) = do
  check_launched expected seen w
  check_all_launched expected (insert w.worker_id tt seen) ws

unfoldable pub validate_launched_workers : List WorkerRecord → List WorkerRecord → Result (Unit {0})
validate_launched_workers planned launched = do
  seen ← check_all_launched (expected_kinds planned []) [] launched
  guard (length seen ==ℕ length (expected_kinds planned []))
      (Error.message "runtime returned %d of %d planned workers")

-- The switch of observedRuntimeResourceExists.
resource_state : ObservedWorkerState → Bool
resource_state ObservedWorkerState.pending = true
resource_state ObservedWorkerState.active = true
resource_state ObservedWorkerState.succeeded = true
resource_state ObservedWorkerState.failed = true
resource_state ObservedWorkerState.stopped = true
resource_state _ = false

unfoldable pub observed_runtime_resource_exists : ObservedWorkerLifecycle → Bool
unfolding resource_state
observed_runtime_resource_exists o =
    if not (trim_space o.runtime_id == "") then true else resource_state o.state

-- Workers by their identifiers; a later one replaces an earlier one.
unfoldable pub workers_by_id : List WorkerRecord → Dict WorkerRecord → Dict WorkerRecord
workers_by_id [] m = m
workers_by_id (w ∷ ws) m = workers_by_id ws (insert w.worker_id w m)

unfoldable pub failed_worker_outcome : Dict WorkerRecord → Bool → Time → WorkerRecord → WorkerRecord
failed_worker_outcome launched compensated now w = elim (lookup w.worker_id launched) [
  | none ↦ record w { lifecycle = Lifecycle.failed; updated_at = now }
  | some l ↦ record l {
    lifecycle = if compensated then Lifecycle.stopped else Lifecycle.failed;
    updated_at = now;
  }
]

unfoldable pub outcomes_of : Dict WorkerRecord → Bool → Time → List WorkerRecord → List WorkerRecord
outcomes_of launched compensated now [] = []
outcomes_of launched compensated now (w ∷ ws) =
    failed_worker_outcome launched compensated now w ∷ outcomes_of launched compensated now ws

unfoldable pub failed_worker_outcomes :
    List WorkerRecord → List WorkerRecord → Bool → Time → List WorkerRecord
unfolding outcomes_of
failed_worker_outcomes planned launched compensated now =
    outcomes_of (workers_by_id launched []) compensated now planned

unfoldable pub failed_command_outcome :
    Dict WorkerRecord → Bool → Time → SpoolCommand → SpoolCommand
failed_command_outcome launched compensated now c =
    if compensated && has c.worker_id launched
    then record c {
      state = Lifecycle.stopped;
      message = trim_space (c.message <> "; stopped by Run launch compensation");
      updated_at = now;
    }
    else record c {
      state = Lifecycle.failed;
      message = trim_space (c.message <> "; Run launch compensation failed");
      updated_at = now;
    }

commands_of : Dict WorkerRecord → Bool → Time → List SpoolCommand → List SpoolCommand
commands_of launched compensated now [] = []
commands_of launched compensated now (c ∷ cs) =
    failed_command_outcome launched compensated now c ∷ commands_of launched compensated now cs

unfoldable pub failed_command_outcomes :
    List SpoolCommand → List WorkerRecord → Bool → Time → List SpoolCommand
unfolding commands_of
failed_command_outcomes commands launched compensated now =
    commands_of (workers_by_id launched []) compensated now commands
