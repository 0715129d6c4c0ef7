-- ===== src/Forge/Intake.antt =====
-- backend/slurm-gateway/internal/gateway/artifact_forge.go: the methods of ArtifactForgeManager that
-- its callers use. The store in memory has no error in TouchSession.
use Prim.Native.String.{◌++◌ as ◌<>◌}
use radiant_prj.Common.{
  ℕ, String, ◌==◌, Bool, true, false, not, ◌||◌, Option, none, some, List, [], ◌∷◌, if◌then◌else◌,
}
use radiant_prj.Common.Error.{Error, Result, ok, err}
use radiant_prj.Common.Text.{trim_space, matches_run_id}
use radiant_prj.Simops.Types.{Time}
use radiant_prj.Workbench.Types.{TwinLineageInput, TwinLineageArtifact, value_simulated}
use radiant_prj.Forge.Types.{
  Decision, EventType, ForgeRequest, ForgeRecord, scheduler_drift_recipe, eligible_media_type,
}
use radiant_prj.Forge.Store.{
  find_request, find_run, save_request, set_retention, touch_session, prune_expired,
}
use radiant_prj.Forge.Rules.{
  forge_stable_id, normalize_forge_request, validate_forge_identity, is_rejected, forge_event,
}
use radiant_prj.Forge.Manager.{
  ForgeManager, ForgeWorld, ForgeAnswer, is_forge_not_found, save_answer,
}
use radiant_prj.Forge.Association.{associate_run, resume, enforce_caps}

-- The record of a request that is new.
unfoldable pub new_request : ForgeManager → Time → String → ForgeRequest → ForgeRecord
unfolding set_retention
new_request m now identity q = set_retention now (record {
  request_id = forge_stable_id m.digest "forge" (q.game_session_id <> "\0" <> q.idempotency_key);
  game_session_id = q.game_session_id;
  reactor_id = q.reactor_id;
  simulation_job_id = q.simulation_job_id;
  simulation_recipe = q.simulation_recipe;
  idempotency_key = q.idempotency_key;
  submitted_by = identity;
  run_id = "";
  decision = Decision.unset;
  message = "";
  outcome = none;
  trace = record {
    simulation_job_id = q.simulation_job_id;
    run_id = "";
    artifact_id = "";
    lineage_id = "";
  };
  events = [];
  created_at = now;
  updated_at = now;
  last_activity_at = 0;
  session_expires_at = 0;
  retain_until = 0;
})

-- A first decision, with its event.
unfoldable pub opened :
    ForgeManager → Time → Decision → String → EventType → ForgeRecord → ForgeRecord
opened m now decision message event_type r =
    let r' = record r { decision = decision; message = message } in
    record r' { events = forge_event m.digest now event_type r' ∷ [] }

unfoldable pub accepted_record : ForgeManager → Time → ForgeRecord → ForgeRecord
unfolding opened
accepted_record m now r =
    opened m now Decision.awaiting_run
      "Artifact Forge intent accepted; the distinct SimOps Run has not reached a successful terminal state"
      EventType.accepted r

-- The accepted request is saved before its run is asked for.
unfoldable pub accept_request :
    ForgeManager → Time → String → String → ForgeRecord → ForgeWorld → ForgeAnswer
unfolding accepted_record
accept_request m now run_id token r w = elim (save_request (accepted_record m now r) w.store) [
  | err e ↦ (err e, w)
  | ok s ↦ associate_run m now run_id token (accepted_record m now r) true (record w { store = s })
]

unfoldable pub open_request :
    ForgeManager → Time → String → String → ForgeRequest → ForgeRecord → ForgeWorld → ForgeAnswer
unfolding opened save_answer accept_request
open_request m now run_id token q r w =
    if not (q.simulation_job_state == "completed")
    then save_answer
        (opened m now Decision.intent_rejected
          "Artifact Forge requires one completed local Simulation Job; no SimOps Run was requested"
          EventType.rejected r)
        true w
    else if not (q.simulation_recipe == scheduler_drift_recipe)
    then save_answer
        (opened m now Decision.intent_rejected
          "simulation recipe is not on the Artifact Forge allowlist; no SimOps Run was requested"
          EventType.rejected r)
        true w
    else elim (enforce_caps r w.store) [
      | err e ↦ (err e, w)
      | ok _ ↦ accept_request m now run_id token r w
    ]

unfoldable pub differs_from : ForgeRequest → ForgeRecord → Bool
differs_from q existing =
    not (existing.reactor_id == q.reactor_id)
    || not (existing.simulation_job_id == q.simulation_job_id)
    || not (existing.simulation_recipe == q.simulation_recipe)

-- The request, normalised and valid, after the session was touched.
unfoldable pub find_or_open :
    ForgeManager → Time → String → String → ForgeRequest → String → ForgeWorld → ForgeAnswer
unfolding resume open_request new_request differs_from
find_or_open m now run_id token q identity w =
    elim (find_request q.game_session_id q.idempotency_key w.store) [
      | ok existing ↦
          if differs_from q existing
          then (
            err (
                Error.message
                  "idempotency key is already associated with a different Artifact Forge request"),
            w,
          )
          else resume m now run_id token existing false w
      | err e ↦
          if is_forge_not_found e
          then open_request m now run_id token q (new_request m now identity q) w
          else (err e, w)
    ]

unfoldable pub touched : Time → String → ForgeWorld → ForgeWorld
touched now game_session_id w = record w { store = touch_session game_session_id now w.store }

unfoldable pub request_forge :
    ForgeManager → Time → String → String → ForgeRequest → String → ForgeWorld → ForgeAnswer
unfolding find_or_open touched
request_forge m now run_id token raw identity w =
    let q = normalize_forge_request raw in
    elim (validate_forge_identity q) [
      | err e ↦ (err e, w)
      | ok _ ↦ find_or_open m now run_id token q identity (touched now q.game_session_id w)
    ]

-- Recover answers with the record alone; here `created` stays beside it, and is false.
unfoldable pub recover :
    ForgeManager → Time → String → String → String → String → ForgeWorld → ForgeAnswer
unfolding resume
recover m now run_id token raw_session raw_key w =
    let game_session_id = trim_space raw_session in
    let idempotency_key = trim_space raw_key in
    if not (matches_run_id game_session_id) || not (matches_run_id idempotency_key)
    then (
      err (
          Error.message
            "gameSessionId and idempotencyKey are required and must be opaque stable identifiers"),
      w,
    )
    else elim (find_request game_session_id idempotency_key w.store) [
      | err e ↦ (err e, w)
      | ok r ↦ resume m now run_id token r false w
    ]

-- ReconcileExpired: the context's error, and a second look at it in the store.
unfoldable pub reconcile_forge : Option Error → Time → ForgeWorld → Result ℕ × ForgeWorld
reconcile_forge context_error now w = elim context_error [
  | some e ↦ (err e, w)
  | none ↦ let (answer, s) = prune_expired none now w.store in (answer, record w { store = s })
]

lineage_input : String → String → TwinLineageInput
lineage_input kind identity = record {
  source_kind = kind;
  source_id = identity;
  value_basis = value_simulated;
}

-- The inputs and the artifact that a result of the run is given.
unfoldable pub lineage_context :
    String → ForgeRecord → List TwinLineageInput × List TwinLineageArtifact
unfolding lineage_input
lineage_context run_id r = (
  lineage_input "game-session" r.game_session_id
      ∷ lineage_input "fleet-reactor" r.reactor_id
      ∷ lineage_input "simulation-recipe" r.simulation_recipe
      ∷ [],
  record {
    artifact_id = "simulated-result-" <> run_id;
    path = "simops://results/run_id=" <> run_id;
    media_type = eligible_media_type;
  }
      ∷ [],
)

-- ResultLineageContext, whose last answer `false` is none.
unfoldable pub result_lineage_context :
    String → ForgeWorld → Option (List TwinLineageInput × List TwinLineageArtifact)
unfolding lineage_context
result_lineage_context run_id w = elim (find_run run_id w.store) [
  | err _ ↦ none
  | ok r ↦ if is_rejected r.decision then none else some (lineage_context run_id r)
]
