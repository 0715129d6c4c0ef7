-- ===== src/Workbench/Types.antt =====
-- backend/slurm-gateway/internal/gateway/workbench_types.go, twin_types.go and scada_types.go: the
-- records of a simulated result, of a value's lineage, and of a resident source and its frames. A
-- named text type with constants stays a text; JSON text and opaque JSON values are texts too.
use radiant_prj.Common.{ℕ, ◌*◌, String, Bool, true, List, ltb, zero, suc}
use radiant_prj.Simops.Types.{ℤ}

-- A finite `float64`: the numerator over two to the power of the exponent.
pub record Float : Type 0 where
  pub numerator : ℤ
  pub exponent : ℕ

abbrev pub pow2 : ℕ → ℕ
pow2 zero = 1
pow2 (suc n) = 2 * pow2 n

-- `x < 0 || x > 1`
unfoldable pub is_outside_unit : Float → Bool
is_outside_unit x = elim x.numerator [ ℤ.pos n ↦ ltb (pow2 x.exponent) n | ℤ.negsuc n ↦ true ]

abbrev pub result_schema_version : String
result_schema_version = "simops.result.v1"

abbrev pub lineage_schema_version : String
lineage_schema_version = "digital-twin.lineage.v1"

abbrev pub scada_schema_version : String
scada_schema_version = "scada.telemetry.v1"

abbrev pub source_schema_version : String
source_schema_version = "scada.resident-source-declaration.v1"

abbrev pub synthetic_public_standin : String
synthetic_public_standin = "public-safe-standin"

abbrev pub simulated_margin_value : String
simulated_margin_value = "VAL-SIMULATED-FORECAST-MARGIN"

abbrev pub value_simulated : String
value_simulated = "simulated"

abbrev pub value_measured : String
value_measured = "measured"

pub record TwinLineageInput : Type 0 where
  pub source_kind : String
  pub source_id : String
  pub value_basis : String

pub record TwinLineageArtifact : Type 0 where
  pub artifact_id : String
  pub path : String
  pub media_type : String

pub record ValueLineage : Type 0 where
  pub schema_version : String
  pub lineage_id : String
  pub value_id : String
  pub value_basis : String
  pub inputs : List TwinLineageInput
  pub processing_steps : List String
  pub artifacts : List TwinLineageArtifact

pub record ResultInputWindow : Type 0 where
  pub window_start : String
  pub window_end : String

pub record ResultValue : Type 0 where
  pub result_id : String
  pub entity_id : String
  pub value_id : String
  pub label : String
  pub unit : String
  pub value : String
  pub confidence : Float

pub record ResultFrame : Type 0 where
  pub schema_version : String
  pub run_id : String
  pub scenario_id : String
  pub worker_id : String
  pub worker_kind : String
  pub sequence : ℕ
  pub produced_at : String
  pub received_at : String
  pub result_type : String
  pub model_id : String
  pub input_window : ResultInputWindow
  pub value_basis : String
  pub synthetic_status : String
  pub values : List ResultValue
  pub lineage_inputs : List TwinLineageInput
  pub lineage_artifacts : List TwinLineageArtifact

pub record ScadaSourceTag : Type 0 where
  pub source_id : String
  pub reactor_id : String
  pub tag_id : String
  pub asset_id : String
  pub signal_kind : String
  pub unit : String
  pub value_basis : String

pub record ScadaIngest : Type 0 where
  pub topic : String
  pub endpoint_kind : String

pub record ResidentSource : Type 0 where
  pub schema_version : String
  pub source_id : String
  pub reactor_id : String
  pub display_name : String
  pub lifecycle : String
  pub synthetic_status : String
  pub scada_ingest : ScadaIngest
  pub tags : List ScadaSourceTag
