-- ===== src/Twin/Types.antt =====
-- backend/slurm-gateway/internal/gateway/twin_types.go, workbench_types.go and
-- twin_state_publication.go: the records of a state of the twin and of its publication.
use radiant_prj.Common.{String, ◌==◌, Bool, List, if◌then◌else◌}
use radiant_prj.Common.Error.{Error}
use radiant_prj.Common.Text.{trim_space}
use radiant_prj.Simops.Types.{ℤ, Time}
use radiant_prj.Workbench.Types.{Float, ValueLineage}

abbrev pub value_imputed : String
value_imputed = "imputed"

pub record TwinFreshness : Type 0 where
  pub age_sec : ℤ
  pub status : String

pub record TwinValue : Type 0 where
  pub value_id : String
  pub label : String
  pub value_basis : String
  pub unit : String
  -- a JSON value
  pub value : String
  pub confidence : Float
  pub freshness : TwinFreshness
  pub lineage_id : String
  pub source_ids : List String

pub record TwinEntity : Type 0 where
  pub entity_id : String
  pub display_name : String
  pub values : List TwinValue

pub record TwinState : Type 0 where
  pub schema_version : String
  pub twin_id : String
  pub as_of : Time
  pub entities : List TwinEntity

pub record ProjectionPosition : Type 0 where
  pub topic : String
  pub partition : ℤ
  pub offset : ℤ

pub record Publication : Type 0 where
  pub publication_id : String
  pub source : ProjectionPosition
  pub twin_state_topic : String
  pub state : TwinState
  pub lineage : List ValueLineage
  pub acknowledged : Bool

pub data PublicationRecovery : Type 0 where
  complete retry_same_publication : PublicationRecovery

pub data PublicationStage : Type 0 where
  persistence event_delivery : PublicationStage

pub record Outcome : Type 0 where
  pub publication_id : String
  pub persisted : Bool
  pub duplicate : Bool
  pub delivered : Bool
  pub recovery : PublicationRecovery

pub record PublicationError : Type 0 where
  pub stage : PublicationStage
  pub outcome : Outcome
  pub cause : Error

-- TwinStateProjection; `raw` is empty in those that a publication makes.
pub record TwinProjection : Type 0 where
  pub as_of : Time
  pub state : TwinState
  pub lineage : List ValueLineage
  pub lineage_present : Bool
  pub publication_id : String
  pub publication_source : ProjectionPosition
  pub raw : String
  pub redpanda_topic : String
  pub redpanda_partition : ℤ
  pub redpanda_offset : ℤ

-- normalizeTopic of simops_iceberg_writer.go
unfoldable pub normalize_topic : String → String
normalize_topic topic = if trim_space topic == "" then "simops.telemetry.v1" else trim_space topic
