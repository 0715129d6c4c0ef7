-- ===== src/Forge/Tests.antt =====
-- Examples of the Artifact Forge, and its theorems at them.
use radiant_prj.Simops.Profile.{allowed_worker}
use radiant_prj.Simops.Request.{
  normalize_worker_kinds, normalize_run_request, normalize_kinds, allowed_scenario, with_defaults,
  allowed_work_script, allowed_launch_mode, limit_in_bounds,
}
use radiant_prj.Simops.Controller.{create_run_request, admit_run, has_existing_run, reached_limit}
use radiant_prj.Common.{◌≤◌, ◌≡◌, refl, ◌==◌, Bool, true, false, none, some, [], ◌∷◌, inl, inr}
use radiant_prj.Common.Error.{Result, ok, err, error_is}
use radiant_prj.Common.Text.{trim_space, matches_run_id}
use radiant_prj.Common.Dict.{lookup, values, insert, has}
use radiant_prj.Simops.Store.{get_run, get_run_by_idempotency, active_run_count, count_active}
use radiant_prj.Forge.Types.{Decision, GameOutcome, ForgeRequest, ForgeRecord}
use radiant_prj.Forge.Store.{
  forge_store_key, stored_outcome, save_request, find_request, touch_session, list_requests,
  of_session, sort_records, insert_sorted, text_less, keeps_outcome, touch_records, touch_record,
  set_retention,
}
use radiant_prj.Forge.Store.Outcome.{HasOutcome}
use radiant_prj.Forge.Rules.{
  normalize_forge_request, validate_forge_identity, is_rejected, count_requests, within_cap,
  forge_stable_id,
}
use radiant_prj.Forge.Judgment.{game_outcome}
use radiant_prj.Forge.Manager.{ForgeWorld, ForgeAnswer, applied_record, evaluate}
use radiant_prj.Forge.Association.{
  enforce_caps, associate_run, settle_association, save_retryable, launch_retryable,
}
use radiant_prj.Forge.Intake.{
  request_forge, touched, find_or_open, open_request, accept_request, accepted_record, opened,
  new_request,
}
use radiant_prj.Forge.History.{Step, Steps, Steps-HasOutcome}
use radiant_prj.Forge.Eligible.Applied.{IsEligible, AppliedFrom, evaluate_applies_eligible}
use radiant_prj.Forge.Eligible.Enough.{evaluate_applies}
use radiant_prj.Forge.Caps.{active_requests, active_on_reactor}
use radiant_prj.Forge.Caps.Bound.{request_within_cap}
use radiant_prj.Forge.Examples.{
  held, artifact, margin, frame, lineage, evidence, manager, completed_run, world,
}

lookup_held : stored_outcome (lookup (forge_store_key "S1" "K1") world.store.records) ≡ none
unfolding forge_store_key lookup stored_outcome
lookup_held = refl

run_found : get_run "RUN-1" world.simops.store ≡ ok completed_run
unfolding get_run lookup
run_found = refl

held-IsEligible : IsEligible held evidence margin lineage
held-IsEligible = (
  (refl, refl, refl, refl, refl, refl, refl),
  refl,
  refl,
  (
    refl,
    refl,
    (_, inl refl, refl, refl),
    (_, inr (inl refl), refl, refl),
    (_, inr (inr (inl refl)), refl, refl),
    (_, inr (inr (inr (inl refl))), refl, refl),
    (_, inl refl, refl, refl),
  ),
)

lineage_named : (trim_space lineage.lineage_id == "") ≡ false
unfolding trim_space
lineage_named = refl

abbrev applied : ForgeRecord
applied = applied_record manager 9 held artifact margin lineage

abbrev Applied : Type 0
Applied =
    (r' : ForgeRecord) × (w' : ForgeWorld) × (evaluate manager 9 held world ≡ (ok (r', false), w'))
    × (r'.outcome ≡ some (game_outcome manager.digest held artifact margin lineage))
    × (r'.decision ≡ Decision.outcome_applied)
    × (save_request r' world.store ≡ ok w'.store)

evaluation : Applied
evaluation =
    evaluate_applies manager 9 held world completed_run (λ run. ok evidence) evidence frame margin
      lineage run_found refl lookup_held refl refl held-IsEligible refl lineage_named

evaluate_applies_example : Applied
evaluate_applies_example =
    evaluate_applies manager 9 held world completed_run (λ run. ok evidence) evidence frame margin
      lineage run_found refl lookup_held refl refl held-IsEligible refl lineage_named

abbrev first_outcome : GameOutcome
first_outcome = game_outcome manager.digest held artifact margin lineage

evaluate_applies_eligible_example : AppliedFrom manager held world first_outcome
evaluate_applies_eligible_example =
    evaluate_applies_eligible manager 9 held world evaluation.2 refl evaluation.3

abbrev raw : ForgeRequest
raw = record {
  game_session_id = " S1";
  reactor_id = "R2";
  simulation_job_id = "J2";
  simulation_job_state = "completed";
  simulation_recipe = "scheduler-drift";
  idempotency_key = "K2 ";
}

-- The world in which the first request has its outcome.
abbrev rewarded : ForgeWorld
rewarded = record world {
  store = record {
    records =
        (
          forge_store_key "S1" "K1",
          record held { decision = Decision.outcome_applied; outcome = some first_outcome },
        )
        ∷ [];
  };
}

rewarded-HasOutcome : HasOutcome (forge_store_key "S1" "K1") first_outcome rewarded.store
unfolding lookup forge_store_key
rewarded-HasOutcome = (_, refl, refl)

abbrev later : ForgeWorld
later = (request_forge manager 20 "RUN-2" "t" raw "alice" (touched 10 "S1" rewarded)).1

Steps-HasOutcome_example : HasOutcome (forge_store_key "S1" "K1") first_outcome later.store
Steps-HasOutcome_example =
    Steps-HasOutcome (forge_store_key "S1" "K1") first_outcome
      (Steps.then_step (Steps.then_step (Steps.here rewarded) (Step.active 10 "S1" rewarded))
        (Step.requested manager 20 "RUN-2" "t" raw "alice" (touched 10 "S1" rewarded)))
      rewarded-HasOutcome

answered_record : Result (ForgeRecord × Bool) → ForgeRecord
answered_record (ok (r, created)) = r
answered_record (err e) = held

abbrev answer : ForgeAnswer
answer = request_forge manager 20 "RUN-2" "t" raw "alice" world

request_answered :
    (answer ≡ (ok (answered_record answer.0, true), answer.1))
    × (is_rejected (answered_record answer.0).decision ≡ false)
unfolding request_forge answered_record find_or_open touched touch_session normalize_forge_request
    validate_forge_identity matches_run_id trim_space find_request forge_store_key lookup
    open_request enforce_caps list_requests of_session sort_records insert_sorted text_less
    count_requests within_cap accept_request accepted_record opened save_request stored_outcome
    keeps_outcome associate_run create_run_request normalize_worker_kinds normalize_run_request
    admit_run has_existing_run get_run_by_idempotency active_run_count reached_limit
    settle_association save_retryable launch_retryable touch_records touch_record set_retention
    values new_request insert error_is normalize_kinds allowed_worker has allowed_scenario
    with_defaults allowed_work_script allowed_launch_mode limit_in_bounds forge_stable_id
    count_active
request_answered = (refl, refl)

raw_is_new :
    lookup
      (forge_store_key
        (normalize_forge_request raw).game_session_id
        (normalize_forge_request raw).idempotency_key)
      world.store.records
    ≡ none
unfolding lookup forge_store_key normalize_forge_request trim_space
raw_is_new = refl

request_within_cap_example :
    (active_on_reactor
        (normalize_forge_request raw).game_session_id
        (normalize_forge_request raw).reactor_id
        world.store
      ≡ 0)
    × (active_requests (normalize_forge_request raw).game_session_id answer.1.store ≤ 4)
request_within_cap_example =
    request_within_cap manager 20 "RUN-2" "t" raw "alice" world raw_is_new request_answered.0
      request_answered.1
