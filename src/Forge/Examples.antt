-- ===== src/Forge/Examples.antt =====
-- Example records of the Artifact Forge.

use radiant_prj.Common.{String, true, none, some, [], ◌∷◌}
use radiant_prj.Common.Error.{ok}
use radiant_prj.Simops.Types.{ℤ, Lifecycle, RunRecord}
use radiant_prj.Simops.Store.{new_store}
use radiant_prj.Simops.Runtime.{memory_event_log}
use radiant_prj.Simops.Contract.{contract_spooler}
use radiant_prj.Simops.Tests.Data.{local, first_run}
use radiant_prj.Workbench.Types.{ResultFrame, ResultValue, ValueLineage, TwinLineageInput}
use radiant_prj.Forge.Types.{Decision, Evidence, ResultArtifact, ForgeRecord}
use radiant_prj.Forge.Store.{forge_store_key}
use radiant_prj.Forge.Manager.{ForgeManager, ForgeWorld}

abbrev pub held : ForgeRecord
held = record {
  request_id = "forge-1";
  game_session_id = "S1";
  reactor_id = "R1";
  simulation_job_id = "J1";
  simulation_recipe = "scheduler-drift";
  idempotency_key = "K1";
  submitted_by = "alice";
  run_id = "RUN-1";
  decision = Decision.awaiting_run;
  message = "";
  outcome = none;
  trace = record { simulation_job_id = "J1"; run_id = "RUN-1"; artifact_id = ""; lineage_id = "" };
  events = [];
  created_at = 5;
  updated_at = 5;
  last_activity_at = 5;
  session_expires_at = 86400000000005;
  retain_until = 691200000000005;
}

abbrev pub artifact : ResultArtifact
artifact = record {
  artifact_id = "simulated-result-RUN-1";
  run_id = "RUN-1";
  kind = "simulated-result-state";
  media_type = "application/vnd.radiant.simops-result+json";
  schema_version = "simops.result.v1";
  recipe = "scheduler-drift";
  status = "projection-committed";
  integrity = "verified";
  complete = true;
  expected_value = "VAL-SIMULATED-FORECAST-MARGIN";
  persisted_at = 6;
}

abbrev pub margin : ResultValue
margin = record {
  result_id = "RES-1";
  entity_id = "E1";
  value_id = "VAL-SIMULATED-FORECAST-MARGIN";
  label = "margin";
  unit = "pct";
  value = "4.2";
  confidence = record { numerator = ℤ.pos 3; exponent = 2 };
}

abbrev pub frame : ResultFrame
frame = record {
  schema_version = "simops.result.v1";
  run_id = "RUN-1";
  scenario_id = "scheduler-drift";
  worker_id = "scheduler-01";
  worker_kind = "scheduler";
  sequence = 1;
  produced_at = "2026-01-01T00:00:00Z";
  received_at = "";
  result_type = "syntheticEngineeringState";
  model_id = "M1";
  input_window = record { window_start = ""; window_end = "" };
  value_basis = "simulated";
  synthetic_status = "public-safe-standin";
  values = margin ∷ [];
  lineage_inputs = [];
  lineage_artifacts = [];
}

abbrev pub input : String → String → TwinLineageInput
input kind identity = record { source_kind = kind; source_id = identity; value_basis = "simulated" }

abbrev pub lineage : ValueLineage
lineage = record {
  schema_version = "digital-twin.lineage.v1";
  lineage_id = "LIN-SIM-MARGIN";
  value_id = "VAL-SIMULATED-FORECAST-MARGIN";
  value_basis = "simulated";
  inputs =
      input "game-session" "S1"
      ∷ input "fleet-reactor" "R1"
      ∷ input "simulation-run" "RUN-1"
      ∷ input "simulation-recipe" "scheduler-drift"
      ∷ [];
  processing_steps = [];
  artifacts =
      record {
        artifact_id = "simulated-result-RUN-1";
        path = "simops://results/run_id=RUN-1";
        media_type = "application/vnd.radiant.simops-result+json";
      }
      ∷ [];
}

abbrev pub evidence : Evidence
evidence = record {
  artifact = artifact;
  result = some frame;
  expected_value = some margin;
  lineage = some lineage;
}

-- A configuration under which no run is admitted.
abbrev pub manager : ForgeManager
manager = record {
  policy = record {
    cfg = record local { max_active_runs = ℤ.pos 0 };
    spooler = contract_spooler (λ calls. none) "" 5;
    event_log = memory_event_log none true;
    artifact = none;
    marshal = λ d. "{}";
    context_error = none;
  };
  digest = λ s. "0123456789abcdef";
  eligibility = some (λ run. ok evidence);
}

abbrev pub completed_run : RunRecord
completed_run = record first_run { lifecycle = Lifecycle.complete }

abbrev pub world : ForgeWorld
world = record {
  store = record { records = (forge_store_key "S1" "K1", held) ∷ [] };
  simops = record { store = record new_store { runs = ("RUN-1", completed_run) ∷ [] }; calls = [] };
}
