-- ===== src/Simops/Tests/Contract.antt =====
-- The theorems about the contract runtime, at examples.
use radiant_prj.Simops.Request.Checked.{Distinct, apart}
use radiant_prj.Common.{
  String, ◌≡◌, refl, ap, arith, Bool, true, false, some, none, List, [], ◌∷◌, Option,
}
use radiant_prj.Common.Error.{Result, ok, err, Error}
use radiant_prj.Common.Dict.{lookup, has}
use radiant_prj.Common.Text.{trim_space}
use radiant_prj.Simops.Types.{ℤ, RunRequest, Lifecycle, RunRecord}
use radiant_prj.Simops.State.{ensure_run_state, initial_run_state}
use radiant_prj.Simops.Profile.{
  allowed_worker, build_run_worker_connection_profiles, build_run_worker_connection_profile,
  build_run_connection_profile, validate_run_profile_inputs,
}
use radiant_prj.Simops.Connection.{Profile}
use radiant_prj.Simops.Store.{
  Store, new_store, create_run, create_new, existing_run, get_run_by_idempotency, active_run_count,
  count_active, with_lifecycle,
}
use radiant_prj.Simops.Runtime.{World, memory_event_log}
use radiant_prj.Simops.LaunchCheck.{planned_worker_records, validate_launched_workers}
use radiant_prj.Simops.Recovery.{Policy}
use radiant_prj.Simops.Start.{start}
use radiant_prj.Simops.Contract.{contract_spooler}
use radiant_prj.Simops.Contract.Accepted.{contract_launch_accepted}
use radiant_prj.Simops.Contract.Streams.{contract_start_streams}
use radiant_prj.Simops.Controller.{
  started, has_existing_run, add_duration, reached_limit, requested_run, admit_run,
}
use radiant_prj.Simops.Ingest.{Answer}
use radiant_prj.Simops.Controller.Limit.{created_below_limit}
use radiant_prj.Simops.Planner.{Planner, iceberg_plan}
use radiant_prj.Simops.Runtime.{Call}
use radiant_prj.Simops.Tests.Data.{local, first_run}
use radiant_prj.Simops.Tests.Profiles.{profiles_or_none}

abbrev kinds : List String
kinds = "storage" ∷ "fabric" ∷ []

abbrev built : List Profile
built = profiles_or_none (build_run_worker_connection_profiles local first_run kinds)

profiles_built : build_run_worker_connection_profiles local first_run kinds ≡ ok built
unfolding build_run_worker_connection_profiles build_run_worker_connection_profile
    build_run_connection_profile validate_run_profile_inputs trim_space allowed_worker
    profiles_or_none
profiles_built = refl

kinds-Distinct : Distinct kinds
kinds-Distinct = (λ i. ground (arith, apart "storage" "fabric" refl), (λ i. i, tt))

-- The context is done once two calls were made.
abbrev in_time : List Call → Option Error
in_time (c ∷ d ∷ calls) = some (Error.message "context canceled")
in_time calls = none

contract_launch_accepted_example :
    validate_launched_workers
      (planned_worker_records first_run kinds 5)
      ((contract_spooler in_time "" 5).start_run_profiles [] first_run built).workers
    ≡ ok tt
contract_launch_accepted_example =
    contract_launch_accepted in_time local first_run first_run "" 5 kinds built [] refl
      profiles_built kinds-Distinct

abbrev planner : Planner
planner = record { warehouse = ""; bucket = "simops"; catalog = "rest" }

abbrev policy : Policy
policy = record {
  cfg = local;
  spooler = contract_spooler in_time "" 5;
  event_log = memory_event_log none true;
  artifact = some (iceberg_plan planner 6);
  marshal = λ d. "{}";
  context_error = none;
}

stored_run : Result (RunRecord × Bool × Store) → Store
stored_run (ok (r, created, s)) = s
stored_run (err e) = new_store

abbrev first_store : Store
first_store =
    stored_run (create_run first_run (planned_worker_records first_run kinds 5) [] new_store)

run_created :
    create_run first_run (planned_worker_records first_run kinds 5) [] new_store
    ≡ ok (first_run, true, first_store)
unfolding create_run create_new existing_run lookup has stored_run ensure_run_state
run_created = refl

contract_start_streams_example :
    (start policy 5 first_run kinds (record { store = new_store; calls = [] })).0
    ≡ record { outcome = some (with_lifecycle Lifecycle.streaming 5 first_run, true); error = none }
contract_start_streams_example =
    contract_start_streams policy "" 5 first_run first_run kinds built
      (record { store = new_store; calls = [] }) first_store planner 6 in_time refl refl refl
      run_created profiles_built kinds-Distinct

abbrev request : RunRequest
request = record {
  scenario_id = "scheduler-drift";
  source = "frontend";
  work_script = "scheduler-drift";
  launch_mode = "resident";
  worker_kinds = kinds;
  runtime_limit_sec = ℤ.pos 120;
  idempotency_key = "k";
}

abbrev asked : RunRecord
asked = record first_run { state = initial_run_state 30000000005 }

asked_profiles_built : build_run_worker_connection_profiles local asked kinds ≡ ok built
unfolding build_run_worker_connection_profiles build_run_worker_connection_profile
    build_run_connection_profile validate_run_profile_inputs trim_space allowed_worker
    profiles_or_none
asked_profiles_built = refl

asked_created :
    create_run asked (planned_worker_records asked kinds 5) [] new_store
    ≡ ok (
      asked,
      true,
      stored_run (create_run asked (planned_worker_records asked kinds 5) [] new_store),
    )
unfolding create_run create_new existing_run lookup has stored_run ensure_run_state
asked_created = refl

abbrev empty_world : World
empty_world = record { store = new_store; calls = [] }

admitted :
    (admit_run policy 5 "RUN-1" "t" "a|b" kinds request empty_world).0
    ≡ Answer.answered (with_lifecycle Lifecycle.streaming 5 asked, true)
unfolding admit_run requested_run add_duration has_existing_run get_run_by_idempotency lookup
    active_run_count count_active reached_limit started
admitted = ap started (
    contract_start_streams policy "" 5 asked asked kinds built empty_world _ planner 6 in_time refl
      refl refl asked_created asked_profiles_built kinds-Distinct)

created_below_limit_example : reached_limit (active_run_count new_store) (ℤ.pos 8) ≡ false
created_below_limit_example =
    created_below_limit policy 5 "RUN-1" "t" "a|b" kinds request empty_world
      (with_lifecycle Lifecycle.streaming 5 asked) admitted
