-- ===== src/Forge/Types.antt =====
-- backend/slurm-gateway/internal/gateway/artifact_forge.go: the records of the Artifact Forge. The
-- names leave out the prefix ArtifactForge where they stay clear.
use radiant_prj.Common.{ℕ, String, Option, List, Bool}
use radiant_prj.Simops.Types.{Time}
use radiant_prj.Workbench.Types.{ResultFrame, ResultValue, ValueLineage}

abbrev pub scheduler_drift_recipe : String
scheduler_drift_recipe = "scheduler-drift"

abbrev pub eligible_artifact_kind : String
eligible_artifact_kind = "simulated-result-state"

abbrev pub eligible_media_type : String
eligible_media_type = "application/vnd.radiant.simops-result+json"

abbrev pub simulated_margin_card : String
simulated_margin_card = "artifactForge.simulated-margin-card.v1"

abbrev pub artifact_committed : String
artifact_committed = "projection-committed"

abbrev pub integrity_verified : String
integrity_verified = "verified"

-- `unset` is the zero value.
pub data Decision : Type 0 where
  unset awaiting_run run_failed run_launch_retryable telemetry_ineligible : Decision
  artifact_incomplete artifact_ineligible integrity_failed result_missing : Decision
  lineage_missing lineage_ineligible outcome_applied intent_rejected : Decision

-- string(decision), by which decisions are compared
unfoldable pub decision_text : Decision → String
decision_text Decision.unset = ""
decision_text Decision.awaiting_run = "awaiting-run"
decision_text Decision.run_failed = "run-failed"
decision_text Decision.run_launch_retryable = "run-launch-retryable"
decision_text Decision.telemetry_ineligible = "operational-telemetry-ineligible"
decision_text Decision.artifact_incomplete = "artifact-incomplete"
decision_text Decision.artifact_ineligible = "artifact-ineligible"
decision_text Decision.integrity_failed = "artifact-integrity-failed"
decision_text Decision.result_missing = "simulated-result-missing"
decision_text Decision.lineage_missing = "lineage-missing"
decision_text Decision.lineage_ineligible = "lineage-ineligible"
decision_text Decision.outcome_applied = "outcome-applied"
decision_text Decision.intent_rejected = "intent-rejected"

pub data EventType : Type 0 where
  accepted rejected run_associated launch_retryable eligibility_evaluated : EventType
  outcome_applied : EventType

unfoldable pub event_type_text : EventType → String
event_type_text EventType.accepted = "artifact-forge.intent.accepted"
event_type_text EventType.rejected = "artifact-forge.intent.rejected"
event_type_text EventType.run_associated = "artifact-forge.run.associated"
event_type_text EventType.launch_retryable = "artifact-forge.run.launch-retryable"
event_type_text EventType.eligibility_evaluated = "artifact-forge.eligibility.evaluated"
event_type_text EventType.outcome_applied = "artifact-forge.outcome.applied"

pub record ForgeRequest : Type 0 where
  pub game_session_id : String
  pub reactor_id : String
  pub simulation_job_id : String
  pub simulation_job_state : String
  pub simulation_recipe : String
  pub idempotency_key : String

-- The version is 1 wherever the program makes an outcome.
pub record GameOutcome : Type 0 where
  pub outcome_id : String
  pub card : String
  pub version : ℕ
  pub reactor_id : String
  pub artifact_id : String
  pub lineage_id : String
  pub value_id : String

pub record ResultArtifact : Type 0 where
  pub artifact_id : String
  pub run_id : String
  pub kind : String
  pub media_type : String
  pub schema_version : String
  pub recipe : String
  pub status : String
  pub integrity : String
  pub complete : Bool
  pub expected_value : String
  pub persisted_at : Time

pub record Evidence : Type 0 where
  pub artifact : ResultArtifact
  pub result : Option ResultFrame
  pub expected_value : Option ResultValue
  pub lineage : Option ValueLineage

pub record Trace : Type 0 where
  pub simulation_job_id : String
  pub run_id : String
  pub artifact_id : String
  pub lineage_id : String

pub record ForgeEvent : Type 0 where
  pub event_id : String
  pub event_type : EventType
  pub game_session_id : String
  pub reactor_id : String
  pub simulation_job_id : String
  pub run_id : String
  pub artifact_id : String
  pub lineage_id : String
  pub decision : Decision
  pub occurred_at : Time

pub record ForgeRecord : Type 0 where
  pub request_id : String
  pub game_session_id : String
  pub reactor_id : String
  pub simulation_job_id : String
  pub simulation_recipe : String
  pub idempotency_key : String
  pub submitted_by : String
  pub run_id : String
  pub decision : Decision
  pub message : String
  pub outcome : Option GameOutcome
  pub trace : Trace
  pub events : List ForgeEvent
  pub created_at : Time
  pub updated_at : Time
  pub last_activity_at : Time
  pub session_expires_at : Time
  pub retain_until : Time
