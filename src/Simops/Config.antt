-- ===== src/Simops/Config.antt =====
-- SimopsConfig of backend/slurm-gateway/internal/gateway/config.go. A `time.Duration` is a whole
-- number of nanoseconds.
use radiant_prj.Common.{String, Bool}
use radiant_prj.Simops.Types.{ℤ}

pub record Config : Type 0 where
  pub enabled : Bool
  pub control_store : String
  pub postgres_dsn : String
  pub telemetry_log : String
  pub redpanda_brokers : String
  pub redpanda_topic : String
  pub timescale_consumer_group : String
  pub iceberg_consumer_group : String
  pub moq_consumer_group : String
  pub launch_mode : String
  pub worker_runtime : String
  pub worker_image : String
  pub worker_manifest_root : String
  pub worker_ingest_base_url : String
  pub worker_frame_override : ℤ
  pub worker_network : String
  pub worker_kubernetes_namespace : String
  pub worker_kubernetes_service_account : String
  pub worker_kubeconfig : String
  pub worker_cleanup_ttl : ℤ
  pub lifecycle_recovery_timeout : ℤ
  pub launch_observation_timeout : ℤ
  pub worker_auto_remove : Bool
  pub moq_web_transport_url : String
  pub stream_token_ttl : ℤ
  pub max_active_runs : ℤ
  pub iceberg_catalog : String
  pub iceberg_catalog_dsn : String
  pub iceberg_warehouse : String
  pub iceberg_s3_endpoint : String
  pub iceberg_s3_bucket : String
  pub iceberg_s3_region : String
  pub iceberg_s3_access_key_id : String
  pub iceberg_s3_secret_key : String
  pub iceberg_writer_mode : String
  pub iceberg_batch_size : ℤ
  pub iceberg_flush_interval : ℤ
  pub iceberg_rust_command : String
  pub iceberg_manifest_dir : String
