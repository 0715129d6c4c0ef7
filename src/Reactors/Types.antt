-- ===== src/Reactors/Types.antt =====
-- backend/slurm-gateway/internal/gateway/reactor_telemetry_worker_set.go: the records. The fields of
-- a worker that no code fills (the broker, database, lake, socket and cluster credential) stay with
-- their texts.
use radiant_prj.Common.{ℕ, String, Option, none, List, Bool}
use radiant_prj.Common.Error.{Error}
use radiant_prj.Simops.Types.{Time, ℤ}
use radiant_prj.Workbench.Types.{ResidentSource}

pub data SetLifecycle : Type 0 where
  starting active launch_failed cleanup cleanup_failed removed : SetLifecycle

pub record RegisterRequest : Type 0 where
  pub game_session_id : String
  pub reactor_id : String
  pub idempotency_key : String

pub record RemoveRequest : Type 0 where
  pub game_session_id : String
  pub reactor_id : String
  pub idempotency_key : String

pub record GatewayProfile : Type 0 where
  pub ingest_base_url : String
  pub ingest_token : String

pub record ReactorWorker : Type 0 where
  pub worker_id : String
  pub source_id : String
  pub game_session_id : String
  pub reactor_id : String
  pub worker_index : ℕ
  pub max_frames : ℕ
  pub gateway : GatewayProfile
  pub broker_url : String
  pub database_url : String
  pub lake_url : String
  pub container_socket : String
  pub cluster_credential : String

pub record WorkerSet : Type 0 where
  pub set_id : String
  pub game_session_id : String
  pub reactor_id : String
  pub register_idempotency : String
  pub remove_idempotency : String
  pub lifecycle : SetLifecycle
  pub workers : List ReactorWorker
  pub credentials_revoked : Bool
  pub created_at : Time
  pub updated_at : Time
  pub expires_at : Time
  pub measured_retention_sec : ℤ
  pub cleanup_deadline : Time
  pub last_error : String

pub record ReactorLaunch : Type 0 where
  pub set_id : String
  pub workers : List ReactorWorker

-- What the manager asks of the runtime and of the registrar of sources.
pub data ReactorCall : Type 0 where
  registered_source : ResidentSource → ReactorCall
  started_set : ReactorLaunch → ReactorCall
  stopped_set : String → ReactorCall

-- ReactorTelemetryRuntime: an answer may depend on the calls that were made before.
pub record ReactorRuntime : Type 0 where
  pub start_worker_set : List ReactorCall → ReactorLaunch → Option Error
  pub stop_worker_set : List ReactorCall → String → Option Error

-- ContractReactorTelemetryRuntime
abbrev pub contract_reactor_runtime : ReactorRuntime
contract_reactor_runtime = record {
  start_worker_set = λ calls launch. none;
  stop_worker_set = λ calls id. none;
}
