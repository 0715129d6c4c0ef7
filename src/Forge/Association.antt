-- ===== src/Forge/Association.antt =====
-- backend/slurm-gateway/internal/gateway/artifact_forge.go: associateRun, resume and enforceCaps of
-- ArtifactForgeManager.
use Prim.Native.String.{◌++◌ as ◌<>◌}
use radiant_prj.Common.{String, ◌==◌, Bool, false, ◌||◌, [], ◌∷◌, ◌++◌, if◌then◌else◌}
use radiant_prj.Common.Error.{Error, Result, ok, err, ◌>>=◌}
use radiant_prj.Simops.Types.{Time, ℤ, RunRequest, RunRecord}
use radiant_prj.Simops.Store.{get_run_by_idempotency}
use radiant_prj.Simops.Ingest.{Answer}
use radiant_prj.Simops.Controller.{create_run_request}
use radiant_prj.Forge.Types.{Decision, EventType, ForgeRecord}
use radiant_prj.Forge.Store.{ForgeStore, list_requests, save_request}
use radiant_prj.Forge.Rules.{
  has_outcome, is_rejected, count_requests, within_cap, forge_event, append_evaluation_event,
}
use radiant_prj.Forge.Manager.{ForgeManager, ForgeWorld, ForgeAnswer, save_answer, evaluate}

unfoldable pub simops_identity : ForgeRecord → String
simops_identity r = "artifact-forge:" <> r.submitted_by <> ":" <> r.game_session_id

unfoldable pub forge_run_request : ForgeRecord → RunRequest
forge_run_request r = record {
  scenario_id = r.simulation_recipe;
  source = "frontend";
  work_script = "";
  launch_mode = "";
  worker_kinds = "scheduler" ∷ [];
  runtime_limit_sec = ℤ.pos 0;
  idempotency_key = r.request_id;
}

-- The record with its run.
unfoldable pub associated : ForgeManager → Time → ForgeRecord → String → ForgeRecord
associated m now r run_id =
    let r' = record r {
      run_id = run_id;
      trace = record r.trace { run_id = run_id };
      decision = Decision.awaiting_run;
      message =
          "Artifact Forge intent accepted; the distinct SimOps Run has not reached a successful terminal state";
      updated_at = now;
    } in
    record r' { events = r.events ++ forge_event m.digest now EventType.run_associated r' ∷ [] }

-- The record of a run that was neither launched nor found.
unfoldable pub launch_retryable : ForgeManager → Time → ForgeRecord → ForgeRecord
launch_retryable m now r =
    let r' = record r {
      decision = Decision.run_launch_retryable;
      message =
          "the SimOps Run launch did not complete; retry with the same idempotency key to recover the association";
      updated_at = now;
    } in
    record r' {
      events =
          append_evaluation_event r.events (forge_event m.digest now EventType.launch_retryable r');
    }

-- The answer to a record that is saved because its run could not be created.
unfoldable pub save_retryable :
    ForgeManager → Time → ForgeRecord → Error → Bool → ForgeWorld → ForgeAnswer
unfolding launch_retryable
save_retryable m now r create_error created w =
    elim (save_request (launch_retryable m now r) w.store) [
      | err e ↦ (err (Error.joined create_error e), w)
      | ok s ↦ (ok (launch_retryable m now r, created), record w { store = s })
    ]

-- The evaluation that follows an association after CreateRun failed keeps `created`.
unfoldable pub with_created : Bool → ForgeAnswer → ForgeAnswer
with_created created (ok (r, _), w) = (ok (r, created), w)
with_created created (err e, w) = (err e, w)

-- The answer of CreateRun. Where it failed, the store may still have the run.
unfoldable pub settle_association :
    ForgeManager → Time → ForgeRecord → Bool → Answer (RunRecord × Bool) → ForgeWorld → ForgeAnswer
unfolding associated save_answer save_retryable with_created evaluate
settle_association m now r created (Answer.answered (run, _)) w =
    save_answer (associated m now r run.run_id) created w
settle_association m now r created (Answer.refused status create_error) w =
    elim (get_run_by_idempotency (simops_identity r) r.request_id w.simops.store) [
      | err _ ↦ save_retryable m now r create_error created w
      | ok run ↦ elim (save_request (associated m now r run.run_id) w.store) [
        | err e ↦ (err e, w)
        | ok s ↦
            with_created created
              (evaluate m now (associated m now r run.run_id) (record w { store = s }))
      ]
    ]

unfoldable pub associate_run :
    ForgeManager → Time → String → String → ForgeRecord → Bool → ForgeWorld → ForgeAnswer
unfolding settle_association forge_run_request simops_identity
associate_run m now run_id token r created w =
    let (answer, simops) =
      create_run_request m.policy now run_id token (simops_identity r) (forge_run_request r)
        w.simops in
    settle_association m now r created answer (record w { simops = simops })

unfoldable pub resume :
    ForgeManager → Time → String → String → ForgeRecord → Bool → ForgeWorld → ForgeAnswer
unfolding associate_run evaluate
resume m now run_id token r created w =
    if has_outcome r.outcome || is_rejected r.decision
    then (ok (r, false), w)
    else if r.run_id == ""
    then associate_run m now run_id token r created w
    else evaluate m now r w

unfoldable pub enforce_caps : ForgeRecord → ForgeStore → Result (Unit {0})
enforce_caps candidate s = do
  records ← list_requests candidate.game_session_id s
  within_cap (count_requests candidate.reactor_id 0 records)
