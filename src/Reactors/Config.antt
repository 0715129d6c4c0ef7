-- ===== src/Reactors/Config.antt =====
-- backend/slurm-gateway/internal/gateway/reactor_telemetry_worker_set.go: ReactorTelemetryConfig.
-- Durations are numbers of nanoseconds.
use radiant_prj.Common.{ℕ, zero, suc, ◌+◌, ◌-◌, ◌/◌, ◌%◌, String, ◌==◌, Bool, false, not, ◌&&◌, leb}
use radiant_prj.Common.Error.{Error, Result, ok, ◌>>◌, guard}
use radiant_prj.Common.Text.{trim_space}
use radiant_prj.Simops.Types.{ℤ}

abbrev pub max_dynamic_reactors : ℕ
max_dynamic_reactors = 4

abbrev pub max_resident_workers : ℕ
max_resident_workers = 3

pub record ReactorConfig : Type 0 where
  pub enabled : Bool
  pub control_store : String
  pub postgres_dsn : String
  pub runtime : String
  pub worker_image : String
  pub worker_network : String
  pub max_reactors_per_session : ℤ
  pub workers_per_set : ℤ
  pub session_ttl : ℤ
  pub measured_retention : ℤ
  pub cleanup_timeout : ℤ
  pub reconcile_interval : ℤ
  pub ingest_base_url : String
  pub credential_signing_key : String

abbrev pub default_reactor_config : ReactorConfig
default_reactor_config = record {
  enabled = false;
  control_store = "memory";
  postgres_dsn = "";
  runtime = "contract";
  worker_image = "radiant-scada-standins:latest";
  worker_network = "bridge";
  max_reactors_per_session = ℤ.pos max_dynamic_reactors;
  workers_per_set = ℤ.pos max_resident_workers;
  session_ttl = ℤ.pos 86400000000000;
  measured_retention = ℤ.pos 86400000000000;
  cleanup_timeout = ℤ.pos 300000000000;
  reconcile_interval = ℤ.pos 30000000000;
  ingest_base_url = "http://127.0.0.1:8080";
  credential_signing_key = "local-reactor-telemetry-signing-key";
}

-- At least 1 and at most the bound.
unfoldable pub within : ℕ → ℤ → Bool
within bound (ℤ.pos n) = leb 1 n && leb n bound
within bound (ℤ.negsuc n) = false

unfoldable pub validate_reactor_config : ReactorConfig → Result (Unit {0})
unfolding within
validate_reactor_config c = do
  guard (within max_dynamic_reactors c.max_reactors_per_session)
      (Error.message "reactor telemetry max reactors per session must be between 1 and %d")
  guard (within max_resident_workers c.workers_per_set)
      (Error.message "reactor telemetry workers per set must be between 1 and %d")
  guard (within 86400000000000 c.session_ttl)
      (Error.message "reactor telemetry session TTL must be positive and no greater than 24 hours")
  guard (within 86400000000000 c.measured_retention) (
      Error.message
        "reactor telemetry measured retention must be positive and no greater than 24 hours")
  guard (within 300000000000 c.cleanup_timeout) (
      Error.message
        "reactor telemetry cleanup timeout must be positive and no greater than five minutes")
  guard (within 60000000000 c.reconcile_interval) (
      Error.message
        "reactor telemetry reconcile interval must be positive and no greater than one minute")
  guard (not (trim_space c.ingest_base_url == ""))
      (Error.message "reactor telemetry ingest base URL is required")
  guard (not (trim_space c.credential_signing_key == ""))
      (Error.message "reactor telemetry credential signing key is required")
  ok tt

-- `d / time.Second`, which cuts towards zero
unfoldable pub whole_seconds : ℤ → ℤ
whole_seconds (ℤ.pos n) = ℤ.pos (n / 1000000000)
whole_seconds (ℤ.negsuc n) = elim (suc n / 1000000000) [ zero ↦ ℤ.pos 0 | suc k ↦ ℤ.negsuc k ]

-- `uint64((d + time.Second - 1) / time.Second)`, modulo 2^64 for a negative quotient
unfoldable pub frames_of : ℤ → ℕ
frames_of (ℤ.pos n) = (n + 999999999) / 1000000000
frames_of (ℤ.negsuc n) =
    (18446744073709551616 - (suc n - 999999999) / 1000000000) % 18446744073709551616

-- The rounds of `for index := 0; index < n; index++`
unfoldable pub rounds : ℤ → ℕ
rounds (ℤ.pos n) = n
rounds (ℤ.negsuc n) = 0
