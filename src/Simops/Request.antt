-- ===== src/Simops/Request.antt =====
-- backend/slurm-gateway/internal/gateway/simops_controller.go: what a request is checked for, and the
-- defaults that it gets. The proofs are in the module below.
pub mod Checked
use Prim.Native.String.{◌++◌ as ◌<>◌}
use radiant_prj.Common.{
  ℕ, String, Bool, true, false, not, ◌&&◌, ◌||◌, ◌==◌, List, [], ◌∷◌, ◌==ℕ◌, ltb, leb, length,
  is_empty, if◌then◌else◌,
}
use radiant_prj.Common.Error.{Error, Result, ok, err, ◌>>=◌, ◌>>◌, guard}
use radiant_prj.Common.Dict.{Dict, has, insert}
use radiant_prj.Common.Text.{trim_space}
use radiant_prj.Simops.Types.{ℤ, RunRequest, RunRecord, TelemetryFrame}
use radiant_prj.Simops.Profile.{allowed_worker}

unfoldable pub allowed_scenario : String → Bool
allowed_scenario v =
    v == "nominal"
    || v == "scheduler-drift"
    || v == "checkpoint-pressure"
    || v == "cloud-burst"
    || v == "fabric-warning"

unfoldable pub allowed_work_script : String → Bool
allowed_work_script v = allowed_scenario v || v == "module-rerun"

unfoldable pub allowed_launch_mode : String → Bool
allowed_launch_mode v = v == "resident" || v == "spawn" || v == "auto"

-- `if value == "" { value = default }`, after the trim.
unfoldable pub default_text : String → String → String
default_text default value = let v = trim_space value in if v == "" then default else v

-- `if limit == 0 { limit = 120 }`
unfoldable pub default_limit : ℤ → ℤ
default_limit (ℤ.pos n) = if n ==ℕ 0 then ℤ.pos 120 else ℤ.pos n
default_limit (ℤ.negsuc n) = ℤ.negsuc n

unfoldable pub limit_in_bounds : ℤ → Bool
limit_in_bounds (ℤ.pos n) = leb 1 n && leb n 3600
limit_in_bounds (ℤ.negsuc n) = false

-- The request with every default filled in.
unfoldable pub with_defaults : String → RunRequest → RunRequest
unfolding default_text default_limit
with_defaults launch_mode q =
    let scenario = default_text "scheduler-drift" q.scenario_id in
    record q {
      scenario_id = scenario;
      source = default_text "frontend" q.source;
      work_script = default_text scenario q.work_script;
      launch_mode = default_text launch_mode q.launch_mode;
      runtime_limit_sec = default_limit q.runtime_limit_sec;
      idempotency_key = trim_space q.idempotency_key;
    }

unfoldable pub normalize_run_request : String → RunRequest → Result RunRequest
normalize_run_request launch_mode q = do
  let r = with_defaults launch_mode q
  guard (allowed_scenario r.scenario_id) (Error.message "scenario_id is not supported")
  guard (r.source == "frontend" || r.source == "work-script")
      (Error.message "source must be frontend or work-script")
  guard (allowed_work_script r.work_script)
      (Error.message "work_script is not in the configured SimOps allowlist")
  guard (allowed_launch_mode r.launch_mode)
      (Error.message "launch_mode must be resident, spawn, or auto")
  guard (limit_in_bounds r.runtime_limit_sec)
      (Error.message "runtime_limit_sec is outside the configured bounds")
  ok r

abbrev pub default_simops_workers : List String
default_simops_workers = "scheduler" ∷ "storage" ∷ "burst" ∷ "fabric" ∷ []

unfoldable pub normalize_kinds : Dict (Unit {0}) → List String → Result (List String)
normalize_kinds seen [] = ok []
normalize_kinds seen (value ∷ raw) = do
  let worker = trim_space value
  guard (allowed_worker worker)
      (Error.message ("worker_kinds contains unsupported worker " <> value))
  guard (not (has worker seen)) (Error.message ("worker_kinds contains duplicate worker " <> value))
  rest ← normalize_kinds (insert worker tt seen) raw
  ok (worker ∷ rest)

unfoldable pub normalize_worker_kinds : List String → Result (List String)
normalize_worker_kinds raw =
    if is_empty raw
    then ok default_simops_workers
    else if ltb 4 (length raw)
    then err (Error.message "at most four SimOps worker kinds can be selected")
    else normalize_kinds [] raw

unfoldable pub validate_telemetry_frame : RunRecord → TelemetryFrame → Result (Unit {0})
validate_telemetry_frame run f = do
  guard (f.schema_version == "simops.telemetry.v1")
      (Error.message "unsupported telemetry schemaVersion")
  guard (f.run_id == run.run_id) (Error.message "telemetry runId does not match ingest path")
  guard (f.scenario_id == run.scenario_id) (Error.message "telemetry scenarioId does not match run")
  guard (allowed_worker f.worker_kind) (Error.message "telemetry workerKind is not supported")
  guard (not (trim_space f.worker_id == "")) (Error.message "telemetry workerId is required")
  guard (not (f.sequence ==ℕ 0)) (Error.message "telemetry sequence must be positive")
  guard (not (trim_space f.emitted_at == "")) (Error.message "telemetry emittedAt is required")
  guard (not (trim_space f.payload_type == "")) (Error.message "telemetry payloadType is required")
  guard (not (f.payload == "" || f.payload == "null"))
      (Error.message "telemetry payload is required")
