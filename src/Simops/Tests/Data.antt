-- ===== src/Simops/Tests/Data.antt =====
-- Example records.
use radiant_prj.Common.{none, some, [], true, false}
use radiant_prj.Simops.Types.{
  ℤ, Lifecycle, WorkerPhase, LaunchDisposition, ActiveExecution, ConditionStatus,
  CleanupDisposition, FailureStage, ObservedWorkerState, WorkerState, RunRecord, WorkerRecord,
  ObservedWorkerLifecycle, StopTransition,
}
use radiant_prj.Simops.State.{initial_worker_state, initial_run_state}
use radiant_prj.Simops.Config.{Config}

abbrev pub no_state : WorkerState
no_state = record {
  phase = WorkerPhase.unset;
  launch_disposition = LaunchDisposition.unset;
  active_execution = ActiveExecution.unset;
  condition = record { status = ConditionStatus.unset; degradations = [] };
  failure_stage = FailureStage.unset;
  cleanup = CleanupDisposition.unset;
}

abbrev pub scheduler : WorkerRecord
scheduler = record {
  run_id = "RUN-1";
  worker_id = "scheduler-01";
  worker_kind = "scheduler";
  lifecycle = Lifecycle.starting;
  state = no_state;
  observed_lifecycle = ObservedWorkerState.unset;
  observed_reason = "";
  observed_message = "";
  runtime = "docker";
  runtime_id = "container-1";
  observed_exit_code = none;
  observed_at = none;
  launch_mode = "resident";
  endpoint = "";
  frames = 0;
  updated_at = 5;
  labels = [];
}

abbrev pub storage : WorkerRecord
storage = record scheduler {
  worker_id = "storage-01";
  worker_kind = "storage";
  state = record initial_worker_state { phase = WorkerPhase.executing };
}

abbrev pub first_run : RunRecord
first_run = record {
  run_id = "RUN-1";
  scenario_id = "scheduler-drift";
  lifecycle = Lifecycle.starting;
  state = initial_run_state 900;
  source = "frontend";
  work_script = "scheduler-drift";
  launch_mode = "resident";
  runtime_limit_sec = ℤ.pos 120;
  idempotency_key = "k";
  submitted_by = "a|b";
  ingest_token = "t";
  created_at = 5;
  updated_at = 5;
}

abbrev pub gone : ObservedWorkerLifecycle
gone = record {
  run_id = "RUN-1";
  worker_id = "scheduler-01";
  worker_kind = "scheduler";
  state = ObservedWorkerState.failed;
  runtime = "docker";
  runtime_id = "container-1";
  reason = "exit";
  message = "exit 1";
  exit_code = some (ℤ.pos 1);
  observed_at = 9;
  labels = [];
}

abbrev pub clean_stop : StopTransition
clean_stop = record {
  run_id = "RUN-1";
  cleanup = CleanupDisposition.completed;
  stop_failure = "";
  stop_confirmed = false;
  cleanup_failure = "";
  cleanup_confirmed = false;
  occurred_at = 12;
}

abbrev pub bad_stop : StopTransition
bad_stop = record clean_stop {
  cleanup = CleanupDisposition.failed;
  stop_failure = "timeout";
  stop_confirmed = true;
}

abbrev pub local : Config
local = record {
  enabled = true;
  control_store = "memory";
  postgres_dsn = "";
  telemetry_log = "memory";
  redpanda_brokers = "redpanda:9092, other:9092";
  redpanda_topic = "simops.telemetry.v1";
  timescale_consumer_group = "timescale";
  iceberg_consumer_group = "iceberg";
  moq_consumer_group = "moq";
  launch_mode = "resident";
  worker_runtime = "docker";
  worker_image = "radiant-simops-generator:latest";
  worker_manifest_root = "/manifests/";
  worker_ingest_base_url = "http://127.0.0.1:8080/";
  worker_frame_override = ℤ.pos 0;
  worker_network = "bridge";
  worker_kubernetes_namespace = "simops";
  worker_kubernetes_service_account = "";
  worker_kubeconfig = "";
  worker_cleanup_ttl = ℤ.pos 60000000000;
  lifecycle_recovery_timeout = ℤ.pos 10000000000;
  launch_observation_timeout = ℤ.pos 30000000000;
  worker_auto_remove = true;
  moq_web_transport_url = "https://127.0.0.1:4433";
  stream_token_ttl = ℤ.pos 60000000000;
  max_active_runs = ℤ.pos 8;
  iceberg_catalog = "rest";
  iceberg_catalog_dsn = "";
  iceberg_warehouse = "s3://warehouse";
  iceberg_s3_endpoint = "";
  iceberg_s3_bucket = "bucket";
  iceberg_s3_region = "us-east-1";
  iceberg_s3_access_key_id = "";
  iceberg_s3_secret_key = "";
  iceberg_writer_mode = "manifest";
  iceberg_batch_size = ℤ.pos 10;
  iceberg_flush_interval = ℤ.pos 1000000000;
  iceberg_rust_command = "";
  iceberg_manifest_dir = "/tmp";
}
