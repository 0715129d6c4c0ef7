-- ===== src/Simops/Tests/Runs.antt =====
-- The theorems about starting and stopping a run, at examples.
use radiant_prj.Common.{◌≤◌, ◌+◌, ◌≡◌, refl, true, some, none, [], ◌∷◌, ◌++◌, All, length}
use radiant_prj.Common.Error.{Error, ok}
use radiant_prj.Common.Dict.{lookup, insert, has, inner, values}
use radiant_prj.Common.Text.{trim_space}
use radiant_prj.Simops.Types.{Lifecycle, RunPhase, WorkerRecord, StopOutcome}
use radiant_prj.Simops.State.{ensure_worker_state}
use radiant_prj.Simops.Profile.{
  build_run_worker_connection_profiles_for_records, build_run_worker_connection_profile_for_record,
  build_run_connection_profile, validate_run_profile_inputs, allowed_worker,
  apply_stored_worker_runtime,
}
use radiant_prj.Simops.Store.{create_run, list_workers, with_lifecycle, add_workers}
use radiant_prj.Simops.Runtime.{World, Spooler, memory_event_log, stop_call, cleanup_call}
use radiant_prj.Simops.LaunchCheck.{
  planned_worker_records, expected_kinds, check_launched, check_all_launched,
  validate_launched_workers, workers_by_id, failed_worker_outcomes,
}
use radiant_prj.Simops.LaunchCheck.Complete.{IsPlanned, DistinctIds, launched_workers_checked}
use radiant_prj.Simops.LaunchCheck.Failed.{Pairwise, IsOutcome, failed_outcomes}
use radiant_prj.Common.Text.Edit.{trim_right_char}
use radiant_prj.Simops.Planner.{Planner, artifact_location, base_location}
use radiant_prj.Simops.Recovery.{Policy, Stage, fail}
use radiant_prj.Simops.Recovery.Marked.{memory_event_log-KeepsRuns, fail_marks_run}
use radiant_prj.Simops.Start.{start}
use radiant_prj.Simops.Start.Calls.{count_starts, new_runs, start_launches_once}
use radiant_prj.Simops.StopOrchestrator.{orchestrate_stop, stop_reply, final_transition}
use radiant_prj.Simops.StopOrchestrator.Complete.{stop_error, cleanup_error, IsEnd, stop_complete}
use radiant_prj.Simops.Tests.Data.{local, scheduler, storage, first_run}
use radiant_prj.Simops.Tests.Stores.{one_run}
use radiant_prj.Simops.Tests.Profiles.{scheduler_profiles, profiles_or_none}

-- A runtime that cannot launch, and cannot clean up.
abbrev broken : Spooler
broken = record {
  start_run_profiles = λ calls r ps. record {
    workers = scheduler ∷ [];
    commands = [];
    error = some (Error.message "no image");
  };
  stop_run_profiles = λ calls id ps. none;
  cleanup_run_profiles = λ calls id ps. some (Error.confirmed (Error.message "denied"));
  sync_run_profiles = λ calls r ps. ok [];
}

abbrev policy : Policy
policy = record {
  cfg = local;
  spooler = broken;
  event_log = memory_event_log none true;
  artifact = none;
  marshal = λ d. "{}";
  context_error = none;
}

abbrev world : World
world = record { store = one_run; calls = [] }

launched_workers_checked_example :
    All (IsPlanned (expected_kinds (scheduler ∷ storage ∷ []) [])) (storage ∷ scheduler ∷ [])
    × DistinctIds (storage ∷ scheduler ∷ [])
    × (length (storage ∷ scheduler ∷ []) ≡ length (expected_kinds (scheduler ∷ storage ∷ []) []))
unfolding validate_launched_workers check_all_launched check_launched expected_kinds lookup insert
    has
launched_workers_checked_example =
    launched_workers_checked (scheduler ∷ storage ∷ []) (storage ∷ scheduler ∷ []) refl

failed_outcomes_example :
    Pairwise
      (IsOutcome (workers_by_id (scheduler ∷ []) []) true 40)
      (scheduler ∷ storage ∷ [])
      (failed_worker_outcomes (scheduler ∷ storage ∷ []) (scheduler ∷ []) true 40)
failed_outcomes_example = failed_outcomes (scheduler ∷ storage ∷ []) (scheduler ∷ []) true 40

fail_marks_run_example :
    ((fail policy 40 first_run
        (scheduler ∷ [])
        (scheduler ∷ [])
        []
        Stage.runtime_launch
        (Error.message "no image")
        world).0
      ≡ with_lifecycle Lifecycle.failed 40 first_run)
    × (lookup "RUN-1"
          (fail policy 40 first_run
            (scheduler ∷ [])
            (scheduler ∷ [])
            []
            Stage.runtime_launch
            (Error.message "no image")
            world).2.store.runs
        ≡ some (with_lifecycle Lifecycle.failed 40 first_run))
    × ((with_lifecycle Lifecycle.failed 40 first_run).state.phase ≡ RunPhase.failed)
unfolding lookup
fail_marks_run_example =
    fail_marks_run policy 40 first_run first_run (scheduler ∷ []) (scheduler ∷ []) []
      Stage.runtime_launch (Error.message "no image") world (memory_event_log-KeepsRuns none true)
      refl

start_launches_once_example :
    count_starts (start policy 50 first_run ("scheduler" ∷ []) world).1.calls
    ≤ count_starts []
      + new_runs
          (create_run first_run (planned_worker_records first_run ("scheduler" ∷ []) 50) [] one_run)
start_launches_once_example = start_launches_once policy 50 first_run ("scheduler" ∷ []) world

-- The worker's record as the store has it.
abbrev stored_scheduler : WorkerRecord
stored_scheduler = record scheduler { state = ensure_worker_state scheduler }

stored_profiles_built :
    build_run_worker_connection_profiles_for_records local first_run (stored_scheduler ∷ [])
    ≡ ok scheduler_profiles
unfolding build_run_worker_connection_profiles_for_records
    build_run_worker_connection_profile_for_record build_run_connection_profile
    validate_run_profile_inputs trim_space allowed_worker profiles_or_none
    apply_stored_worker_runtime
stored_profiles_built = refl

stop_complete_example :
    (o : StopOutcome) × (let e = stop_error broken "RUN-1" scheduler_profiles world in
      let c = cleanup_error broken "RUN-1" scheduler_profiles world in
      let x = orchestrate_stop local broken 60 "RUN-1" world in
      (x.0 ≡ stop_reply e c o)
      × (x.1.calls
          ≡ ([] ++ stop_call "RUN-1" scheduler_profiles ∷ [])
            ++ cleanup_call "RUN-1" scheduler_profiles ∷ [])
      × IsEnd "RUN-1" (final_transition "RUN-1" 60 e c) o x.1.store)
unfolding lookup list_workers has values inner add_workers insert
stop_complete_example =
    stop_complete local broken 60 "RUN-1" world first_run (stored_scheduler ∷ []) scheduler_profiles
      refl refl stored_profiles_built

abbrev planner : Planner
planner = record { warehouse = " s3://warehouse/ "; bucket = ""; catalog = "" }

planned_location :
    artifact_location planner "RUN-1" ≡ "s3://warehouse/simops_telemetry/run_id=RUN-1/run=RUN-1"
unfolding artifact_location base_location trim_space trim_right_char
planned_location = refl
