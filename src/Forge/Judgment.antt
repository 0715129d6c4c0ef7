-- ===== src/Forge/Judgment.antt =====
-- backend/slurm-gateway/internal/gateway/artifact_forge.go: the artifact of a result, and how the evidence of a
-- complete run is judged.
use Prim.Native.String.{◌++◌ as ◌<>◌}
use radiant_prj.Common.{
  String, ◌==◌, Bool, true, not, ◌&&◌, ◌||◌, Option, none, some, List, [], ◌∷◌, ltb, any,
  if◌then◌else◌,
}
use radiant_prj.Common.Text.{trim_space}
use radiant_prj.Simops.Types.{Time}
use radiant_prj.Simops.Profile.{allowed_worker}
use radiant_prj.Workbench.Types.{
  TwinLineageInput, TwinLineageArtifact, ValueLineage, ResultValue, ResultFrame, is_outside_unit,
  result_schema_version, lineage_schema_version, synthetic_public_standin, simulated_margin_value,
  value_simulated,
}
use radiant_prj.Forge.Types.{
  Decision, GameOutcome, ResultArtifact, Evidence, ForgeRecord, scheduler_drift_recipe,
  eligible_artifact_kind, eligible_media_type, simulated_margin_card, artifact_committed,
  integrity_verified,
}
use radiant_prj.Forge.Rules.{forge_stable_id}

-- An input of the lineage names the kind and the identity.
unfoldable pub names_source : String → String → List TwinLineageInput → Bool
names_source kind identity inputs =
    any (λ input. input.source_kind == kind && input.source_id == identity) inputs

unfoldable pub links_artifact : ResultArtifact → List TwinLineageArtifact → Bool
links_artifact a linked =
    any (λ l. l.artifact_id == a.artifact_id && l.media_type == a.media_type) linked

unfoldable pub lineage_eligible : ValueLineage → ForgeRecord → ResultArtifact → Bool
unfolding names_source links_artifact
lineage_eligible lineage r a =
    not (
      not (lineage.schema_version == lineage_schema_version)
      || not (lineage.value_basis == value_simulated)
      || trim_space lineage.lineage_id == "")
    && names_source "game-session" r.game_session_id lineage.inputs
    && names_source "fleet-reactor" r.reactor_id lineage.inputs
    && names_source "simulation-run" r.run_id lineage.inputs
    && names_source "simulation-recipe" r.simulation_recipe lineage.inputs
    && links_artifact a lineage.artifacts

-- A value's part of the integrity of a result.
unfoldable pub is_value_valid : ResultValue → Bool
is_value_valid v = not (
    trim_space v.result_id == ""
    || trim_space v.value_id == ""
    || v.value == ""
    || v.value == "null"
    || is_outside_unit v.confidence)

unfoldable pub all_values_valid : List ResultValue → Bool
unfolding is_value_valid
all_values_valid [] = true
all_values_valid (v ∷ vs) = is_value_valid v && all_values_valid vs

unfoldable pub has_margin_value : List ResultValue → Bool
has_margin_value vs = any (λ v. v.value_id == simulated_margin_value) vs

unfoldable pub is_frame_valid : ResultFrame → Bool
unfolding has_margin_value
is_frame_valid f =
    f.schema_version == result_schema_version
    && f.scenario_id == scheduler_drift_recipe
    && f.result_type == "syntheticEngineeringState"
    && f.value_basis == value_simulated
    && f.synthetic_status == synthetic_public_standin
    && not (trim_space f.run_id == "")
    && not (trim_space f.worker_id == "")
    && allowed_worker f.worker_kind
    && ltb 0 f.sequence
    && not (trim_space f.produced_at == "")
    && not (trim_space f.model_id == "")
    && has_margin_value f.values

unfoldable pub build_result_artifact : ResultFrame → Time → ResultArtifact
unfolding is_frame_valid all_values_valid has_margin_value
build_result_artifact f persisted_at = record {
  artifact_id = "simulated-result-" <> f.run_id;
  run_id = f.run_id;
  kind = eligible_artifact_kind;
  media_type = eligible_media_type;
  schema_version = f.schema_version;
  recipe = f.scenario_id;
  status = artifact_committed;
  integrity =
      if is_frame_valid f && all_values_valid f.values then integrity_verified else "rejected";
  complete = has_margin_value f.values;
  expected_value = simulated_margin_value;
  persisted_at = persisted_at;
}

-- How evaluate reads the evidence of a complete run: it refuses with a decision, a message and what
-- is added to the record's trace, or goes on with the artifact, the value and the lineage.
pub data Judgment : Type 0 where
  refused : Decision → String → String → String → Judgment
  eligible : ResultArtifact → ResultValue → ValueLineage → Judgment

judge_lineage : ForgeRecord → ResultArtifact → ResultValue → ValueLineage → Judgment
unfolding lineage_eligible
judge_lineage r a expected lineage =
    if lineage_eligible lineage r a
    then Judgment.eligible a expected lineage
    else Judgment.refused Decision.lineage_ineligible
        "Lineage does not bind the game session, reactor, Run, recipe, and artifact; no game outcome was applied"
        a.artifact_id lineage.lineage_id

-- The three parts of the evidence that may be missing.
judge_parts :
    ForgeRecord
    → ResultArtifact
    → Option ResultFrame
    → Option ResultValue
    → Option ValueLineage
    → Judgment
unfolding judge_lineage
judge_parts r a none expected lineage =
    Judgment.refused Decision.result_missing
      "the artifact has no eligible public-safe Simulated Result State; no game outcome was applied"
      a.artifact_id ""
judge_parts r a (some frame) none lineage =
    Judgment.refused Decision.result_missing
      "the artifact has no eligible expected Simulated Result State value; no game outcome was applied"
      a.artifact_id ""
judge_parts r a (some frame) (some expected) none =
    Judgment.refused Decision.lineage_missing
      "the Simulated Result State has no complete Lineage; no game outcome was applied"
      a.artifact_id ""
judge_parts r a (some frame) (some expected) (some lineage) = judge_lineage r a expected lineage

unfoldable pub judge : ForgeRecord → Evidence → Judgment
unfolding judge_parts judge_lineage
judge r e =
    let a = e.artifact in
    if not (a.status == artifact_committed) || not a.complete
    then Judgment.refused Decision.artifact_incomplete
        "the simulated-result artifact is not durably committed and complete; no game outcome was applied"
        a.artifact_id ""
    else if not (a.kind == eligible_artifact_kind)
        || not (a.media_type == eligible_media_type)
        || not (a.schema_version == result_schema_version)
        || not (a.recipe == r.simulation_recipe)
    then Judgment.refused Decision.artifact_ineligible
        "the artifact kind, media type, schema version, or recipe is not allowlisted; no game outcome was applied"
        a.artifact_id ""
    else if not (a.integrity == integrity_verified)
    then Judgment.refused Decision.integrity_failed
        "the simulated-result artifact failed integrity verification; no game outcome was applied"
        a.artifact_id ""
    else judge_parts r a e.result e.expected_value e.lineage

unfoldable pub game_outcome :
    (String → String) → ForgeRecord → ResultArtifact → ResultValue → ValueLineage → GameOutcome
unfolding forge_stable_id
game_outcome digest r a expected lineage = record {
  outcome_id =
      forge_stable_id digest "outcome"
        (r.request_id <> "\0" <> a.artifact_id <> "\0" <> lineage.lineage_id);
  card = simulated_margin_card;
  version = 1;
  reactor_id = r.reactor_id;
  artifact_id = a.artifact_id;
  lineage_id = lineage.lineage_id;
  value_id = expected.value_id;
}
