-- ===== src/Simops/Contract.antt =====
-- backend/slurm-gateway/internal/gateway/simops_adapters.go: ContractSimopsSpooler, the runtime that
-- only writes down what it is asked for. Its clock is an argument, and what the context's Err answers a
-- function of the calls that were made before. The proofs are in the modules below.
pub mod Accepted
pub mod Streams
use Prim.Native.String.{◌++◌ as ◌<>◌}
use radiant_prj.Common.{String, ◌==◌, Option, none, some, List, [], ◌∷◌, map, if◌then◌else◌}
use radiant_prj.Common.Error.{Error, Result, ok, err}
use radiant_prj.Common.Dict.{insert}
use radiant_prj.Common.Text.{trim_space}
use radiant_prj.Simops.Types.{
  Time, Lifecycle, ObservedWorkerState, ObservedWorkerLifecycle, RunRecord, WorkerRecord,
  SpoolCommand, lifecycle_text,
}
use radiant_prj.Simops.Connection.{Profile}
use radiant_prj.Simops.LaunchCheck.{unset_state}
use radiant_prj.Simops.Runtime.{Call, Launch, Spooler}

unfoldable pub contract_runtime_id : String → String → String
contract_runtime_id run_id worker_id =
    "contract://" <> trim_space run_id <> "/" <> trim_space worker_id

unfoldable pub contract_mode : String → Profile → String
contract_mode mode p =
    let own = trim_space p.launch_mode in
    let given = trim_space mode in
    if own == "" then if given == "" then "resident" else given else own

unfoldable pub contract_worker : String → Time → RunRecord → Profile → WorkerRecord
contract_worker mode now run p = record {
  run_id = run.run_id;
  worker_id = p.worker_id;
  worker_kind = p.worker_kind;
  lifecycle = Lifecycle.starting;
  state = unset_state;
  observed_lifecycle = ObservedWorkerState.unset;
  observed_reason = "";
  observed_message = "";
  runtime = "contract";
  runtime_id = contract_runtime_id run.run_id p.worker_id;
  observed_exit_code = none;
  observed_at = none;
  launch_mode = contract_mode mode p;
  endpoint = p.gateway.ingest_url;
  frames = 0;
  updated_at = now;
  labels = insert "simops.runtime_adapter" "contract" (insert "simops.runtime" "contract" p.labels);
}

unfoldable pub contract_command : String → Time → RunRecord → Profile → SpoolCommand
contract_command mode now run p = record {
  command_id = run.run_id <> "-" <> p.worker_id <> "-start";
  run_id = run.run_id;
  worker_id = p.worker_id;
  mode = contract_mode mode p;
  state = Lifecycle.starting;
  message = "Bucket launch command accepted by contract spooler";
  metadata =
      ("runtime_adapter", "contract")
      ∷ ("runtime_id", contract_runtime_id run.run_id p.worker_id)
      ∷ ("requested_state", lifecycle_text Lifecycle.starting)
      ∷ ("worker_id", p.worker_id)
      ∷ ("worker_kind", p.worker_kind)
      ∷ [];
  created_at = now;
  updated_at = now;
}

unfoldable pub contract_observed_lifecycle : Lifecycle → ObservedWorkerState × String × String
contract_observed_lifecycle Lifecycle.complete = (
  ObservedWorkerState.succeeded, "contract-terminal",
  "contract runtime reports successful terminal worker state",
)
contract_observed_lifecycle Lifecycle.failed = (
  ObservedWorkerState.failed, "contract-retryable-failure",
  "contract runtime reports a stable retryable worker failure",
)
contract_observed_lifecycle Lifecycle.degraded = (
  ObservedWorkerState.failed, "contract-retryable-failure",
  "contract runtime reports a stable retryable worker failure",
)
contract_observed_lifecycle Lifecycle.stopped = (
  ObservedWorkerState.stopped, "contract-stopped",
  "contract runtime reports worker stopped by explicit request",
)
contract_observed_lifecycle _ = (
  ObservedWorkerState.active, "contract-runtime", "contract runtime reports worker record present",
)

unfoldable pub contract_observation : Time → RunRecord → Profile → ObservedWorkerLifecycle
contract_observation now run p =
    let (state, reason, message) = contract_observed_lifecycle run.lifecycle in
    record {
      run_id = run.run_id;
      worker_id = p.worker_id;
      worker_kind = p.worker_kind;
      state = state;
      runtime = "contract";
      runtime_id = contract_runtime_id run.run_id p.worker_id;
      reason = reason;
      message = message;
      exit_code = none;
      observed_at = now;
      labels = p.labels;
    }

-- StartRunProfiles, by the context's error.
unfoldable pub contract_launch : Option Error → String → Time → RunRecord → List Profile → Launch
contract_launch (some e) mode now run ps = record { workers = []; commands = []; error = some e }
contract_launch none mode now run ps = record {
  workers = map (contract_worker mode now run) ps;
  commands = map (contract_command mode now run) ps;
  error = none;
}

-- SyncRunProfiles, by the context's error.
unfoldable pub contract_sync :
    Option Error → Time → RunRecord → List Profile → Result (List ObservedWorkerLifecycle)
contract_sync (some e) now run ps = err e
contract_sync none now run ps = ok (map (contract_observation now run) ps)

unfoldable pub contract_spooler : (List Call → Option Error) → String → Time → Spooler
unfolding contract_launch contract_sync
contract_spooler context_error mode now = record {
  start_run_profiles = λ calls. contract_launch (context_error calls) mode now;
  stop_run_profiles = λ calls run_id ps. context_error calls;
  cleanup_run_profiles = λ calls run_id ps. context_error calls;
  sync_run_profiles = λ calls. contract_sync (context_error calls) now;
}
