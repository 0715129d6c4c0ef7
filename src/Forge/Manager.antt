-- ===== src/Forge/Manager.antt =====
-- backend/slurm-gateway/internal/gateway/artifact_forge.go: ArtifactForgeManager. A method holds the
-- manager's lock from start to end. It takes the clock's reading, which the source reads several
-- times, and the run identifier and the token that CreateRun would draw.

use radiant_prj.Common.{
  String, ◌==◌, Bool, true, false, Option, none, some, [], ◌∷◌, ◌++◌, if◌then◌else◌,
}
use radiant_prj.Common.Error.{Error, Result, ok, err, error_is}
use radiant_prj.Simops.Types.{Time, Lifecycle, RunRecord}
use radiant_prj.Simops.Store.{get_run}
use radiant_prj.Simops.Runtime.{World}
use radiant_prj.Simops.Recovery.{Policy}
use radiant_prj.Workbench.Types.{ResultValue, ValueLineage}
use radiant_prj.Forge.Types.{Decision, EventType, Evidence, ResultArtifact, Trace, ForgeRecord}
use radiant_prj.Forge.Store.{ForgeStore, save_request}
use radiant_prj.Forge.Rules.{forge_event, append_evaluation_event}
use radiant_prj.Forge.Judgment.{Judgment, judge, game_outcome}

-- The manager's parts that do not change. The eligibility store may be missing.
pub record ForgeManager : Type 0 where
  pub policy : Policy
  pub digest : String → String
  pub eligibility : Option (RunRecord → Result Evidence)

pub record ForgeWorld : Type 0 where
  pub store : ForgeStore
  pub simops : World

abbrev pub is_forge_not_found : Error → Bool
is_forge_not_found e = error_is (λ f. elim f [ Error.forge_request_not_found ↦ true | _ ↦ false ]) e

abbrev pub is_result_artifact_not_found : Error → Bool
is_result_artifact_not_found e =
    error_is (λ f. elim f [ Error.result_artifact_not_found ↦ true | _ ↦ false ]) e

-- What a method answers: the record and whether the request created it.
abbrev pub ForgeAnswer : Type 0
ForgeAnswer = Result (ForgeRecord × Bool) × ForgeWorld

-- `Save`, and the answer after it; an error of Save ends the call.
unfoldable pub save_answer : ForgeRecord → Bool → ForgeWorld → ForgeAnswer
save_answer r created w = elim (save_request r w.store) [
  | err e ↦ (err e, w)
  | ok s ↦ (ok (r, created), record w { store = s })
]

-- A part of the trace that is not empty takes the place of the record's.
unfoldable pub traced : String → String → Trace → Trace
traced artifact_id lineage_id t = record t {
  artifact_id = if artifact_id == "" then t.artifact_id else artifact_id;
  lineage_id = if lineage_id == "" then t.lineage_id else lineage_id;
}

-- The record that recordDecision saves.
unfoldable pub decided :
    ForgeManager → Time → ForgeRecord → Decision → String → String → String → ForgeRecord
unfolding traced
decided m now r decision message artifact_id lineage_id =
    let r' = record r {
      decision = decision;
      message = message;
      trace = traced artifact_id lineage_id r.trace;
      updated_at = now;
    } in
    record r' {
      events =
          append_evaluation_event r.events
            (forge_event m.digest now EventType.eligibility_evaluated r');
    }

unfoldable pub record_decision :
    ForgeManager
    → Time
    → ForgeRecord
    → Decision
    → String
    → String
    → String
    → ForgeWorld
    → ForgeAnswer
unfolding decided save_answer
record_decision m now r decision message artifact_id lineage_id w =
    save_answer (decided m now r decision message artifact_id lineage_id) false w

-- The record with the outcome.
unfoldable pub applied_record :
    ForgeManager → Time → ForgeRecord → ResultArtifact → ResultValue → ValueLineage → ForgeRecord
applied_record m now r a expected lineage =
    let r' = record r {
      decision = Decision.outcome_applied;
      message =
          "one eligible simulated-result artifact produced the versioned Artifact Forge game outcome";
      trace = record r.trace { artifact_id = a.artifact_id; lineage_id = lineage.lineage_id };
      outcome = some (game_outcome m.digest r a expected lineage);
      updated_at = now;
    } in
    let evaluated = record r' {
      events =
          append_evaluation_event r.events
            (forge_event m.digest now EventType.eligibility_evaluated r');
    } in
    record evaluated {
      events =
          evaluated.events ++ forge_event m.digest now EventType.outcome_applied evaluated ∷ [];
    }

-- The last part of evaluate.
unfoldable pub apply_judgment :
    ForgeManager → Time → ForgeRecord → Judgment → ForgeWorld → ForgeAnswer
unfolding record_decision save_answer applied_record
apply_judgment m now r (Judgment.refused decision message artifact_id lineage_id) w =
    record_decision m now r decision message artifact_id lineage_id w
apply_judgment m now r (Judgment.eligible a expected lineage) w =
    save_answer (applied_record m now r a expected lineage) false w

-- The answer of ReadArtifactForgeEligibility.
unfoldable pub apply_evidence :
    ForgeManager → Time → ForgeRecord → Result Evidence → ForgeWorld → ForgeAnswer
unfolding apply_judgment record_decision
apply_evidence m now r (ok evidence) w = apply_judgment m now r (judge r evidence) w
apply_evidence m now r (err e) w =
    if is_result_artifact_not_found e
    then record_decision m now r Decision.telemetry_ineligible
        "operational telemetry is ineligible for Artifact Forge rewards or evidence claims; no game outcome was applied"
        "" "" w
    else (err e, w)

-- A run that is complete.
unfoldable pub read_eligibility :
    ForgeManager → Time → ForgeRecord → RunRecord → ForgeWorld → ForgeAnswer
unfolding apply_evidence
read_eligibility m now r run w = elim m.eligibility [
  | none ↦ (
    err (Error.message "Workbench store does not expose durable Artifact Forge result artifacts"),
    w,
  )
  | some read ↦ apply_evidence m now r (read run) w
]

-- The switch on the run's lifecycle.
unfoldable pub evaluate_run :
    ForgeManager → Time → ForgeRecord → RunRecord → Lifecycle → ForgeWorld → ForgeAnswer
unfolding record_decision read_eligibility
evaluate_run m now r run Lifecycle.complete w = read_eligibility m now r run w
evaluate_run m now r run Lifecycle.failed w =
    record_decision m now r Decision.run_failed
      "the associated SimOps Run did not complete successfully; no game outcome was applied" "" "" w
evaluate_run m now r run Lifecycle.stopped w =
    record_decision m now r Decision.run_failed
      "the associated SimOps Run did not complete successfully; no game outcome was applied" "" "" w
evaluate_run m now r run _ w =
    save_answer
      (record r {
        decision = Decision.awaiting_run;
        message =
            "the associated SimOps Run has not reached the successful terminal state; no game outcome was applied";
        updated_at = now;
      })
      false w

unfoldable pub evaluate : ForgeManager → Time → ForgeRecord → ForgeWorld → ForgeAnswer
unfolding evaluate_run
evaluate m now r w = elim (get_run r.run_id w.simops.store) [
  | err e ↦ (err e, w)
  | ok run ↦ evaluate_run m now r run run.lifecycle w
]
