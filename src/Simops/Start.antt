-- ===== src/Simops/Start.antt =====
-- backend/slurm-gateway/internal/gateway/simops_run_lifecycle.go: Start of SimopsRunLifecyclePolicy. The clock is read once. The proofs are in the module below.
pub mod Calls
use radiant_prj.Common.{
  ℕ, ◌+◌, String, Bool, true, false, not, ◌&&◌, ◌||◌, Option, none, some, List, [], ◌∷◌, ◌++◌, ltb,
  ◌==ℕ◌, ◌==◌, if◌then◌else◌,
}
use radiant_prj.Common.Error.{Error, Result, ok, err, join_all, ◌>>=◌, ◌>>◌}
use radiant_prj.Common.Dict.{Dict, lookup, insert}
use radiant_prj.Simops.Types
use radiant_prj.Simops.Types.{
  Time, Lifecycle, RunRecord, WorkerRecord, SpoolCommand, ArtifactRecord, Event,
  ObservedWorkerLifecycle,
}
use radiant_prj.Simops.Profile.{
  build_run_worker_connection_profiles, build_run_worker_connection_profiles_for_records,
}
use radiant_prj.Simops.Connection.{Profile}
use radiant_prj.Simops.Store.{Store, create_run, save_launch, list_workers, list_commands}
use radiant_prj.Simops.Store.Observe.{
  update_worker_observed_lifecycle, apply_observed_worker_lifecycle,
}
use radiant_prj.Simops.Store.Records.{save_artifact}
use radiant_prj.Simops.Store.Intents.{update_run_lifecycle_with_publication_intent}
use radiant_prj.Simops.Outbox.{dispatch_publication_intents}
use radiant_prj.Simops.LaunchCheck.{
  planned_worker_records, validate_launched_workers, validate_planned_artifact,
  observed_runtime_resource_exists, workers_by_id,
}
use radiant_prj.Simops.Runtime.{Call, World, Launch, record_call, start_call, sync_call}
use radiant_prj.Simops.Recovery.{Stage, LifecycleError, Policy, fail}
use radiant_prj.Simops.Retry.{
  Reply, fail_start, recover_incomplete_start, incomplete_start_is_stale, is_starting,
}

-- How far a launch came: refused at a stage, with the run and the store of that moment, or done.
pub data Progress : Type 0 where
  stuck : Stage → Error → RunRecord → Store → Progress
  streaming : RunRecord → Store → Progress

unfoldable pub streaming_event : String → Time → Event
streaming_event run_id now = record {
  run_id = run_id;
  worker_id = "";
  event_type = "run.lifecycle";
  lifecycle = Lifecycle.streaming;
  frame = "";
  occurred_at = now;
  redpanda_topic = "";
  redpanda_partition = Types.ℤ.pos 0;
  redpanda_offset = Types.ℤ.pos 0;
}

-- The part under `p.artifact != nil`.
unfoldable pub plan_artifact : Policy → RunRecord → Store → Progress
plan_artifact p run s = elim p.artifact [
  | none ↦ Progress.streaming run s
  | some plan ↦ elim (validate_planned_artifact run.run_id (plan run)) [
    | err e ↦ Progress.stuck Stage.artifact_planning e run s
    | ok _ ↦ elim (save_artifact (plan run) s) [
      | err e ↦ Progress.stuck Stage.artifact_persistence e run s
      | ok s' ↦ Progress.streaming run s'
    ]
  ]
]

-- The part between the answer of the runtime and the dispatch.
unfoldable pub settle_launch :
    Policy → Time → RunRecord → List WorkerRecord → Launch → Store → Progress
unfolding streaming_event
settle_launch p now stored planned l s = elim l.error [
  | some e ↦ Progress.stuck Stage.runtime_launch e stored s
  | none ↦ elim (validate_launched_workers planned l.workers) [
    | err e ↦ Progress.stuck Stage.runtime_launch e stored s
    | ok _ ↦ elim (save_launch stored.run_id l.workers l.commands s) [
      | err e ↦ Progress.stuck Stage.launch_persistence e stored s
      | ok s1 ↦
          elim (update_run_lifecycle_with_publication_intent stored.run_id Lifecycle.streaming
            (streaming_event stored.run_id now) now s1) [
              | err e ↦ Progress.stuck Stage.streaming_transition e stored s1
              | ok (run, _, s2) ↦ plan_artifact p run s2
            ]
    ]
  ]
]

-- The end of Start; an error of the dispatch is dropped.
unfoldable pub finish_start :
    Policy → Time → List WorkerRecord → Launch → Progress → World → Reply × World
unfolding fail_start
finish_start p now planned l (Progress.stuck stage e run s) w =
    fail_start p now (run, true) planned l.workers l.commands stage e (record w { store = s })
finish_start p now planned l (Progress.streaming run s) w =
    let (_, s') = dispatch_publication_intents p.event_log now run.run_id s in
    (record { outcome = some (run, true); error = none }, record w { store = s' })

-- The part of startWorkers that follows the profiles, and what follows startWorkers.
unfoldable pub launch_built :
    Policy → Time → RunRecord → List WorkerRecord → Result (List Profile) → World → Reply × World
unfolding finish_start settle_launch
launch_built p now stored planned (err e) w =
    fail_start p now (stored, true) planned [] [] Stage.runtime_launch e w
launch_built p now stored planned (ok ps) w =
    let l = p.spooler.start_run_profiles w.calls stored ps in
    finish_start p now planned l (settle_launch p now stored planned l w.store)
      (record_call (start_call stored.run_id ps) w)

unfoldable pub launch_run :
    Policy → Time → RunRecord → List String → List WorkerRecord → World → Reply × World
unfolding launch_built
launch_run p now stored kinds planned w =
    launch_built p now stored planned (build_run_worker_connection_profiles p.cfg stored kinds) w

-- A run that an earlier request stored.
unfoldable pub retry_start : Policy → Time → RunRecord → World → Reply × World
retry_start p now stored w =
    if is_starting stored.lifecycle && incomplete_start_is_stale now stored
    then recover_incomplete_start p now (stored, false) w
    else (record { outcome = some (stored, false); error = none }, w)

persistence_error : Error → LifecycleError
persistence_error e = record {
  stage = Stage.persistence;
  cause = e;
  compensation_error = none;
  recovery_error = none;
}

unfoldable pub start : Policy → Time → RunRecord → List String → World → Reply × World
unfolding launch_run retry_start persistence_error
start p now r kinds w =
    let planned = planned_worker_records r kinds now in
    elim (create_run r planned [] w.store) [
      | err e ↦ (record { outcome = none; error = some (persistence_error e) }, w)
      | ok (stored, created, s) ↦
          let w' = record w { store = s } in
          if created then launch_run p now stored kinds planned w' else retry_start p now stored w'
    ]
