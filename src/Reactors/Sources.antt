-- ===== src/Reactors/Sources.antt =====
-- backend/slurm-gateway/internal/gateway/reactor_telemetry_worker_set.go: the source that a worker is
-- declared as. `digest` stands for hex.EncodeToString of the first 8 bytes of sha256.Sum256.
use Prim.Native.String.{◌++◌ as ◌<>◌}
use radiant_prj.Common.{ℕ, zero, suc, String, List, [], ◌∷◌}
use radiant_prj.Workbench.Types.{
  ScadaSourceTag, ResidentSource, value_measured, source_schema_version, synthetic_public_standin,
}
use radiant_prj.Reactors.Types.{ReactorWorker}

-- stableTelemetryID; the parts are joined by the caller.
unfoldable pub stable_telemetry_id : (String → String) → String → String → String
stable_telemetry_id digest prefix joined_parts = prefix <> "-" <> digest joined_parts

unfoldable pub telemetry_tag :
    (String → String) → ReactorWorker → String → String → String → ScadaSourceTag
unfolding stable_telemetry_id
telemetry_tag digest worker suffix signal_kind unit = record {
  source_id = worker.source_id;
  reactor_id = worker.reactor_id;
  tag_id = worker.source_id <> suffix;
  asset_id = stable_telemetry_id digest "asset" worker.reactor_id;
  signal_kind = signal_kind;
  unit = unit;
  value_basis = value_measured;
}

-- The group of tags of the worker's index; an index that is out of range takes the first group.
unfoldable pub tags_of_group : (String → String) → ReactorWorker → ℕ → List ScadaSourceTag
unfolding telemetry_tag
tags_of_group digest worker (suc zero) =
    telemetry_tag digest worker "-pressure" "pressure" "MPa"
    ∷ telemetry_tag digest worker "-actuator" "actuatorState" "state"
    ∷ []
tags_of_group digest worker (suc (suc zero)) =
    telemetry_tag digest worker "-electrical" "electricalState" "state"
    ∷ telemetry_tag digest worker "-comms" "comms" "ms"
    ∷ []
tags_of_group digest worker _ =
    telemetry_tag digest worker "-flux" "flux" "relative-flux"
    ∷ telemetry_tag digest worker "-temperature" "temperature" "degC"
    ∷ []

unfoldable pub reactor_telemetry_tags : (String → String) → ReactorWorker → List ScadaSourceTag
unfolding tags_of_group
reactor_telemetry_tags digest worker = tags_of_group digest worker worker.worker_index

unfoldable pub build_resident_source : (String → String) → ReactorWorker → ResidentSource
unfolding reactor_telemetry_tags
build_resident_source digest worker = record {
  schema_version = source_schema_version;
  source_id = worker.source_id;
  reactor_id = worker.reactor_id;
  display_name = "Reactor-scoped public-safe resident source stand-in";
  lifecycle = "resident";
  synthetic_status = synthetic_public_standin;
  scada_ingest = record { topic = "scada.telemetry.v1"; endpoint_kind = "gateway-http" };
  tags = reactor_telemetry_tags digest worker;
}
