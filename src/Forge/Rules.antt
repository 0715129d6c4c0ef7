-- ===== src/Forge/Rules.antt =====
-- backend/slurm-gateway/internal/gateway/artifact_forge.go: the checks and constructions of the
-- Artifact Forge that touch no store. `digest` stands for hex.EncodeToString of the first 8 bytes of
-- sha256.Sum256.
use Prim.Native.String.{◌++◌ as ◌<>◌}
use radiant_prj.Common.{
  ℕ, suc, ◌+◌, String, ◌==◌, Bool, true, false, not, ◌&&◌, ◌||◌, Option, none, some, List, [], ◌∷◌,
  leb, length, if◌then◌else◌,
}
use radiant_prj.Common.Error.{Error, Result, ok, err, ◌>>◌, guard}
use radiant_prj.Common.Text.{trim_space, matches_run_id, show_ℕ}
use radiant_prj.Simops.Types.{Time}
use radiant_prj.Forge.Types.{
  Decision, decision_text, EventType, event_type_text, ForgeRequest, GameOutcome, ForgeEvent,
  ForgeRecord,
}

-- artifactForgeStableID; the parts are joined by the caller.
unfoldable pub forge_stable_id : (String → String) → String → String → String
forge_stable_id digest prefix joined_parts = prefix <> "-" <> digest joined_parts

unfoldable pub normalize_forge_request : ForgeRequest → ForgeRequest
normalize_forge_request q = record {
  game_session_id = trim_space q.game_session_id;
  reactor_id = trim_space q.reactor_id;
  simulation_job_id = trim_space q.simulation_job_id;
  simulation_job_state = trim_space q.simulation_job_state;
  simulation_recipe = trim_space q.simulation_recipe;
  idempotency_key = trim_space q.idempotency_key;
}

-- The loop over the four identifiers meets them in an open order; its error differs only in the name.
unfoldable pub validate_forge_identity : ForgeRequest → Result (Unit {0})
validate_forge_identity q = do
  guard
      (matches_run_id q.game_session_id
        && matches_run_id q.reactor_id
        && matches_run_id q.simulation_job_id
        && matches_run_id q.idempotency_key)
      (Error.message "%s is required and must be an opaque stable identifier")
  guard (not (q.simulation_job_state == "" || q.simulation_recipe == ""))
      (Error.message "simulationJobState and simulationRecipe are required")
  ok tt

abbrev pub is_rejected : Decision → Bool
is_rejected Decision.intent_rejected = true
is_rejected _ = false

abbrev pub is_run_failed : Decision → Bool
is_run_failed Decision.run_failed = true
is_run_failed _ = false

abbrev pub has_outcome : Option GameOutcome → Bool
has_outcome none = false
has_outcome (some o) = true

-- What enforceCaps counts: the records that its loop does not pass over.
unfoldable pub is_active_request : ForgeRecord → Bool
is_active_request r =
    not (has_outcome r.outcome || is_rejected r.decision || is_run_failed r.decision)

-- The loop of enforceCaps, with the count so far: a count, or the error that ends it.
unfoldable pub count_requests : String → ℕ → List ForgeRecord → Result ℕ
unfolding is_active_request
count_requests reactor_id active [] = ok active
count_requests reactor_id active (r ∷ rs) =
    let passed = count_requests reactor_id active rs in
    let counted = count_requests reactor_id (suc active) rs in
    if is_active_request r
    then if r.reactor_id == reactor_id
      then err (Error.message "reactor already has an active Artifact Forge request")
      else counted
    else passed

-- The result of the loop, and the test after it.
unfoldable pub within_cap : Result ℕ → Result (Unit {0})
within_cap (err e) = err e
within_cap (ok active) =
    if leb 4 active
    then err (Error.message "game session already has four active Artifact Forge requests")
    else ok tt

unfoldable pub forge_event : (String → String) → Time → EventType → ForgeRecord → ForgeEvent
unfolding forge_stable_id
forge_event digest now event_type r = record {
  event_id =
      forge_stable_id digest "event" (
        r.request_id <> "\0" <> show_ℕ (length r.events + 1) <> "\0" <> event_type_text event_type);
  event_type = event_type;
  game_session_id = r.game_session_id;
  reactor_id = r.reactor_id;
  simulation_job_id = r.simulation_job_id;
  run_id = r.run_id;
  artifact_id = r.trace.artifact_id;
  lineage_id = r.trace.lineage_id;
  decision = r.decision;
  occurred_at = now;
}

abbrev pub is_evaluation : EventType → Bool
is_evaluation EventType.eligibility_evaluated = true
is_evaluation _ = false

repeats_evaluation : ForgeEvent → ForgeEvent → Bool
repeats_evaluation last event =
    is_evaluation last.event_type
    && decision_text last.decision == decision_text event.decision
    && last.artifact_id == event.artifact_id
    && last.lineage_id == event.lineage_id

unfoldable pub append_evaluation_event : List ForgeEvent → ForgeEvent → List ForgeEvent
unfolding repeats_evaluation
append_evaluation_event [] event = event ∷ []
append_evaluation_event (last ∷ []) event =
    if repeats_evaluation last event then last ∷ [] else last ∷ event ∷ []
append_evaluation_event (first ∷ second ∷ rest) event =
    first ∷ append_evaluation_event (second ∷ rest) event
