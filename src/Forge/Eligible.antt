-- ===== src/Forge/Eligible.antt =====
-- What the evaluation of a request demands before it applies an outcome.
pub mod Applied
pub mod Enough
use radiant_prj.Common.{
  String, ◌≡◌, refl, ap, sym, Bool, true, false, not, ◌&&◌, ◌||◌, ◌==◌, Option, none, some, List,
  [], ◌∷◌, inl, inr, arith, eq_iff, In, any, Bool-cases, Option-cases, if◌then◌else◌,
}
use radiant_prj.Common.Error.{Error, Result, ok, err, Result-cases}
use radiant_prj.Common.Text.{trim_space}
use radiant_prj.Simops.Types.{Time, Lifecycle, RunRecord}
use radiant_prj.Simops.Store.{get_run}
use radiant_prj.Workbench.Types.{
  TwinLineageInput, TwinLineageArtifact, ValueLineage, ResultValue, ResultFrame,
  result_schema_version, lineage_schema_version, value_simulated,
}
use radiant_prj.Forge.Types.{
  Decision, GameOutcome, ResultArtifact, Evidence, ForgeRecord, eligible_artifact_kind,
  eligible_media_type, artifact_committed, integrity_verified,
}
use radiant_prj.Forge.Store.{save_request}
use radiant_prj.Forge.Judgment.{
  Judgment, judge, lineage_eligible, names_source, links_artifact, game_outcome,
}
use radiant_prj.Forge.Manager.{
  ForgeManager, ForgeWorld, ForgeAnswer, save_answer, record_decision, decided, apply_judgment,
  apply_evidence, read_eligibility, evaluate_run, evaluate, is_result_artifact_not_found,
}

-- An input of the lineage has the kind and the identity.
abbrev pub Names : String → String → List TwinLineageInput → Type 0
Names kind identity inputs =
    (i : TwinLineageInput) × In i inputs × (i.source_kind ≡ kind) × (i.source_id ≡ identity)

-- The artifact is linked with its media type.
abbrev pub Links : ResultArtifact → List TwinLineageArtifact → Type 0
Links a linked =
    (l : TwinLineageArtifact) × In l linked
    × (l.artifact_id ≡ a.artifact_id)
    × (l.media_type ≡ a.media_type)

-- The lineage binds the session, the reactor, the run, the recipe and the artifact.
abbrev pub Binds : ValueLineage → ForgeRecord → ResultArtifact → Type 0
Binds l r a =
    (l.schema_version ≡ lineage_schema_version)
    × (l.value_basis ≡ value_simulated)
    × Names "game-session" r.game_session_id l.inputs
    × Names "fleet-reactor" r.reactor_id l.inputs
    × Names "simulation-run" r.run_id l.inputs
    × Names "simulation-recipe" r.simulation_recipe l.inputs
    × Links a l.artifacts

-- The artifact is committed, complete, on the allowlist and verified.
abbrev pub IsAllowed : ResultArtifact → String → Type 0
IsAllowed a recipe =
    (a.status ≡ artifact_committed)
    × (a.complete ≡ true)
    × (a.kind ≡ eligible_artifact_kind)
    × (a.media_type ≡ eligible_media_type)
    × (a.schema_version ≡ result_schema_version)
    × (a.recipe ≡ recipe)
    × (a.integrity ≡ integrity_verified)

names_source_sound :
    (kind identity : String) (is : List TwinLineageInput)
    → names_source kind identity is ≡ true
    → Names kind identity is
unfolding names_source
names_source_sound kind identity [] h = cc
names_source_sound kind identity (i ∷ is) h =
    elim (Bool-cases (i.source_kind == kind && i.source_id == identity)) [
      | inl e ↦ (
        i,
        inl refl,
        ground (arith, eq_iff i.source_kind kind),
        ground (arith, eq_iff i.source_id identity),
      )
      | inr e ↦
          (let (j, within, p, q) = names_source_sound kind identity is (ground arith) in
            (j, inr within, p, q))
    ]

links_artifact_sound :
    (a : ResultArtifact) (ls : List TwinLineageArtifact) → links_artifact a ls ≡ true → Links a ls
unfolding links_artifact
links_artifact_sound a [] h = cc
links_artifact_sound a (l ∷ ls) h =
    elim (Bool-cases (l.artifact_id == a.artifact_id && l.media_type == a.media_type)) [
      | inl e ↦ (
        l,
        inl refl,
        ground (arith, eq_iff l.artifact_id a.artifact_id),
        ground (arith, eq_iff l.media_type a.media_type),
      )
      | inr e ↦
          (let (k, within, p, q) = links_artifact_sound a ls (ground arith) in
            (k, inr within, p, q))
    ]

lineage_eligible_sound :
    (l : ValueLineage) (r : ForgeRecord) (a : ResultArtifact)
    → lineage_eligible l r a ≡ true
    → Binds l r a
unfolding lineage_eligible
lineage_eligible_sound l r a h = (
  ground (arith, eq_iff l.schema_version lineage_schema_version),
  ground (arith, eq_iff l.value_basis value_simulated),
  names_source_sound _ _ _ (ground arith),
  names_source_sound _ _ _ (ground arith),
  names_source_sound _ _ _ (ground arith),
  names_source_sound _ _ _ (ground arith),
  links_artifact_sound a _ (ground arith),
)
