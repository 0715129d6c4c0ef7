-- ===== src/Simops/Profile.antt =====
-- backend/slurm-gateway/internal/gateway/simops_run_connection_profile.go: what a worker of a run is
-- launched, stopped and observed with. An error text that quotes a value (%q) is left at its format.
pub mod Trust
use Prim.Native.String.{◌++◌ as ◌<>◌}
use radiant_prj.Common.{
  ℕ, ◌+◌, ◌-◌, ◌/◌, ◌%◌, ltb, String, ◌==◌, Bool, true, false, not, ◌&&◌, ◌||◌, Option, none, some,
  List, [], ◌∷◌, if◌then◌else◌,
}
use radiant_prj.Common.Error.{Error, Result, ok, err, ◌>>=◌, ◌>>◌, guard}
use radiant_prj.Common.Dict.{Dict, insert}
use radiant_prj.Common.Text.{trim_space}
use radiant_prj.Common.Text.Edit.{
  trim_right_char, trim_char, to_lower, dash_for, dash_runs, take, longer_than, cut, path_join,
  split,
}
use radiant_prj.Simops.Types.{ℤ, RunRecord, WorkerRecord}
use radiant_prj.Simops.Config.{Config}
use radiant_prj.Simops.Connection.{Role, role_text, DataPlaneConnection, Profile}

unfoldable pub allowed_worker : String → Bool
allowed_worker k = k == "scheduler" || k == "storage" || k == "burst" || k == "fabric"

abbrev is_negative : ℤ → Bool
is_negative (ℤ.pos n) = false
is_negative (ℤ.negsuc n) = true

-- `if strings.TrimSpace(value) == "" { return err }`
require : String → String → Result (Unit {0})
require value text = guard (not (trim_space value == "")) (Error.message text)

unfoldable pub validate_run_profile_inputs : Config → RunRecord → Result (Unit {0})
unfolding require
validate_run_profile_inputs cfg run = do
  require run.run_id "run identity is required"
  require run.scenario_id "scenario identity is required"
  require run.ingest_token "run ingest token is required"
  require cfg.worker_image "SIMOPS_WORKER_IMAGE is required to build a run connection profile"
  require cfg.worker_manifest_root
      "SIMOPS_WORKER_MANIFEST_ROOT is required to build a run connection profile"
  require cfg.worker_ingest_base_url
      "SIMOPS_WORKER_INGEST_BASE_URL is required to build a run connection profile"
  require cfg.worker_kubernetes_namespace
      "SIMOPS_WORKER_KUBERNETES_NAMESPACE is required to build a run connection profile"
  guard (not (is_negative cfg.worker_cleanup_ttl))
      (Error.message "SIMOPS_WORKER_CLEANUP_TTL must be zero or positive")

-- int32(ttl / time.Second), for a count of nanoseconds that is not negative.
ttl_seconds : ℤ → ℤ
ttl_seconds (ℤ.pos n) =
    let m = (n / 1000000000) % 4294967296 in
    if ltb m 2147483648 then ℤ.pos m else ℤ.negsuc (4294967295 - m)
ttl_seconds (ℤ.negsuc n) =
    let m = (4294967296 - ((n + 1) / 1000000000) % 4294967296) % 4294967296 in
    if ltb m 2147483648 then ℤ.pos m else ℤ.negsuc (4294967295 - m)

unfoldable pub docker_run_container_name : String → String → String
docker_run_container_name run_id worker_id =
    "simops-" <> trim_space run_id <> "-" <> trim_space worker_id

-- The name is cut to 63 characters, and then loses the dashes at its end.
unfoldable pub kubernetes_run_job_name : String → String → String
kubernetes_run_job_name run_id worker_id =
    let lowered = to_lower (trim_space run_id <> "-" <> trim_space worker_id) in
    let raw = trim_char b'-' (dash_runs (dash_for b'.' (dash_for b'_' lowered))) in
    let name = "simops-" <> raw in
    if raw == ""
    then "simops-run"
    else if longer_than 63 name
    then trim_right_char b'-' (take 63 name)
    else name

unfoldable pub run_connection_labels : Profile → Dict String
run_connection_labels p =
    let labels =
      ("simops.run_id", p.run_id)
      ∷ ("simops.worker_id", p.worker_id)
      ∷ ("simops.role", role_text p.role)
      ∷ ("simops.launch_mode", p.launch_mode)
      ∷ ("simops.scenario_id", p.scenario_id)
      ∷ ("simops.worker_image", p.worker_image)
      ∷ [] in
    if p.worker_kind == "" then labels else insert "simops.worker_kind" p.worker_kind labels

-- csvValues of simops_adapters.go
drop_blank : List String → List String
drop_blank [] = []
drop_blank (p ∷ ps) =
    let rest = drop_blank ps in if trim_space p == "" then rest else trim_space p ∷ rest

unfoldable pub csv_values : String → List String
unfolding drop_blank
csv_values raw = drop_blank (split b',' raw)

unfoldable pub build_run_data_plane_connection : Config → DataPlaneConnection
build_run_data_plane_connection cfg = record {
  brokers = csv_values cfg.redpanda_brokers;
  topic = trim_space cfg.redpanda_topic;
  postgres_dsn = trim_space cfg.postgres_dsn;
  catalog = trim_space cfg.iceberg_catalog;
  catalog_dsn = trim_space cfg.iceberg_catalog_dsn;
  warehouse = trim_space cfg.iceberg_warehouse;
  s3_endpoint = trim_space cfg.iceberg_s3_endpoint;
  s3_bucket = trim_space cfg.iceberg_s3_bucket;
  s3_region = trim_space cfg.iceberg_s3_region;
  s3_access_key_id = trim_space cfg.iceberg_s3_access_key_id;
  s3_secret_key = trim_space cfg.iceberg_s3_secret_key;
}

-- The run's mode, or the configured one, or resident.
launch_mode_of : Config → RunRecord → String
launch_mode_of cfg run =
    if not (trim_space run.launch_mode == "")
    then trim_space run.launch_mode
    else if not (trim_space cfg.launch_mode == "")
    then trim_space cfg.launch_mode
    else "resident"

-- The profile before its labels and its data plane. `worker_id` has been trimmed.
bare_profile : Config → RunRecord → Role → String → String → Profile
unfolding launch_mode_of ttl_seconds
bare_profile cfg run role worker_id kind =
    let run_id = trim_space run.run_id in
    let scenario_id = trim_space run.scenario_id in
    let base = trim_right_char b'/' (trim_space cfg.worker_ingest_base_url) in
    record {
      run_id = run_id;
      scenario_id = scenario_id;
      launch_mode = launch_mode_of cfg run;
      worker_id = worker_id;
      worker_kind = kind;
      role = role;
      gateway = record {
        ingest_url = base <> "/internal/simops/runs/" <> run_id <> "/ingest";
        result_ingest_url = base <> "/internal/simops/runs/" <> run_id <> "/results";
        ingest_token = trim_space run.ingest_token;
      };
      worker_image = trim_space cfg.worker_image;
      manifest_path =
          path_join (trim_right_char b'/' (trim_space cfg.worker_manifest_root))
            ("run-manifest." <> scenario_id <> ".json");
      labels = [];
      docker = record {
        network = trim_space cfg.worker_network;
        container_name = docker_run_container_name run_id worker_id;
        auto_remove = cfg.worker_auto_remove;
      };
      kubernetes = record {
        namespace = trim_space cfg.worker_kubernetes_namespace;
        job_name = kubernetes_run_job_name run_id worker_id;
        service_account = trim_space cfg.worker_kubernetes_service_account;
      };
      cleanup = record {
        ttl_seconds_after_finished = ttl_seconds cfg.worker_cleanup_ttl;
        auto_remove = cfg.worker_auto_remove;
      };
      data_plane = none;
    }

unfoldable pub build_run_connection_profile :
    Config → RunRecord → Role → String → String → Bool → Result Profile
unfolding bare_profile
build_run_connection_profile cfg run role worker_id kind include_data_plane = do
  validate_run_profile_inputs cfg run
  guard (not (trim_space worker_id == "")) (Error.message "worker identity is required")
  let p = bare_profile cfg run role (trim_space worker_id) kind
  ok (record p {
    labels = run_connection_labels p;
    data_plane = if include_data_plane then some (build_run_data_plane_connection cfg) else none;
  })

unfoldable pub build_run_worker_connection_profile : Config → RunRecord → String → Result Profile
build_run_worker_connection_profile cfg run kind = do
  guard (allowed_worker kind) (Error.message "worker kind %q is not supported")
  build_run_connection_profile cfg run Role.ordinary_worker (kind <> "-01") kind false

unfoldable pub build_run_worker_connection_profiles :
    Config → RunRecord → List String → Result (List Profile)
build_run_worker_connection_profiles cfg run [] = ok []
build_run_worker_connection_profiles cfg run (k ∷ ks) = do
  p ← build_run_worker_connection_profile cfg run k
  ps ← build_run_worker_connection_profiles cfg run ks
  ok (p ∷ ps)

-- The namespace and the job's name of "namespace/job".
unfoldable pub parse_kubernetes_runtime_id : String → Option (String × String)
parse_kubernetes_runtime_id runtime_id =
    let (before, after, found) = cut b'/' (trim_space runtime_id) in
    let namespace = trim_space before in
    let job_name = trim_space after in
    if found && not (namespace == "") && not (job_name == "")
    then some (namespace, job_name)
    else none

unfoldable pub apply_stored_worker_runtime : Profile → WorkerRecord → Profile
apply_stored_worker_runtime p w =
    let runtime_id = trim_space w.runtime_id in
    if trim_space w.runtime == "docker"
    then (if runtime_id == ""
        then p
        else record p { docker = record p.docker { container_name = runtime_id } })
    else if trim_space w.runtime == "kubernetes"
    then (elim (parse_kubernetes_runtime_id w.runtime_id) [
      | none ↦ p
      | some (namespace, job_name) ↦ record p {
        kubernetes = record p.kubernetes { namespace = namespace; job_name = job_name };
      }
    ])
    else p

unfoldable pub build_run_worker_connection_profile_for_record :
    Config → RunRecord → WorkerRecord → Result Profile
build_run_worker_connection_profile_for_record cfg run w = do
  guard (allowed_worker w.worker_kind) (Error.message "worker kind %q is not supported")
  p ← build_run_connection_profile cfg run Role.ordinary_worker w.worker_id w.worker_kind false
  ok (apply_stored_worker_runtime p w)

unfoldable pub build_run_worker_connection_profiles_for_records :
    Config → RunRecord → List WorkerRecord → Result (List Profile)
build_run_worker_connection_profiles_for_records cfg run [] = ok []
build_run_worker_connection_profiles_for_records cfg run (w ∷ ws) = do
  p ← build_run_worker_connection_profile_for_record cfg run w
  ps ← build_run_worker_connection_profiles_for_records cfg run ws
  ok (p ∷ ps)

is_trusted : Role → Bool
is_trusted Role.ordinary_worker = false
is_trusted _ = true

unfoldable pub build_trusted_run_connection_profile : Config → RunRecord → Role → Result Profile
unfolding is_trusted
build_trusted_run_connection_profile cfg run role = do
  guard (is_trusted role) (Error.message "role %q is not trusted for data-plane refs")
  build_run_connection_profile cfg run role (role_text role) "" true
