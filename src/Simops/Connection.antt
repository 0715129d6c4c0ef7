-- ===== src/Simops/Connection.antt =====
-- backend/slurm-gateway/internal/gateway/simops_run_connection_profile.go: the records.
use radiant_prj.Common.{String, Bool, Option, List}
use radiant_prj.Common.Dict.{Dict}
use radiant_prj.Simops.Types.{ℤ}

pub data Role : Type 0 where
  ordinary_worker stream_gateway projector iceberg_writer : Role

unfoldable pub role_text : Role → String
role_text Role.ordinary_worker = "ordinary-worker"
role_text Role.stream_gateway = "stream-gateway"
role_text Role.projector = "projector"
role_text Role.iceberg_writer = "iceberg-writer"

pub record GatewayConnection : Type 0 where
  pub ingest_url : String
  pub result_ingest_url : String
  pub ingest_token : String

pub record DockerConnection : Type 0 where
  pub network : String
  pub container_name : String
  pub auto_remove : Bool

pub record KubernetesConnection : Type 0 where
  pub namespace : String
  pub job_name : String
  pub service_account : String

pub record CleanupPolicy : Type 0 where
  pub ttl_seconds_after_finished : ℤ
  pub auto_remove : Bool

-- The data plane's references: brokers and stores with their credentials.
pub record DataPlaneConnection : Type 0 where
  pub brokers : List String
  pub topic : String
  pub postgres_dsn : String
  pub catalog : String
  pub catalog_dsn : String
  pub warehouse : String
  pub s3_endpoint : String
  pub s3_bucket : String
  pub s3_region : String
  pub s3_access_key_id : String
  pub s3_secret_key : String

pub record Profile : Type 0 where
  pub run_id : String
  pub scenario_id : String
  pub launch_mode : String
  pub worker_id : String
  pub worker_kind : String
  pub role : Role
  pub gateway : GatewayConnection
  pub worker_image : String
  pub manifest_path : String
  pub labels : Dict String
  pub docker : DockerConnection
  pub kubernetes : KubernetesConnection
  pub cleanup : CleanupPolicy
  pub data_plane : Option DataPlaneConnection
