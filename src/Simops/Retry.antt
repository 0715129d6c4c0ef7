-- ===== src/Simops/Retry.antt =====
-- backend/slurm-gateway/internal/gateway/simops_run_lifecycle.go: what Start answers when it
-- fails, and recoverIncompleteStart of SimopsRunLifecyclePolicy, the retry of an incomplete start.
use radiant_prj.Common.{
  ℕ, ◌+◌, Bool, true, false, not, ◌||◌, Option, none, some, List, [], ◌∷◌, ◌++◌, ltb, ◌==ℕ◌,
  if◌then◌else◌,
}
use radiant_prj.Common.Error.{Error, Result, ok, err, join_all}
use radiant_prj.Common.Dict.{Dict, lookup}
use radiant_prj.Simops.Types.{
  Time, Lifecycle, RunRecord, WorkerRecord, SpoolCommand, ObservedWorkerLifecycle,
}
use radiant_prj.Simops.Profile.{build_run_worker_connection_profiles_for_records}
use radiant_prj.Simops.Connection.{Profile}
use radiant_prj.Simops.Store.{Store, list_workers, list_commands}
use radiant_prj.Simops.Store.Observe.{
  update_worker_observed_lifecycle, apply_observed_worker_lifecycle,
}
use radiant_prj.Simops.LaunchCheck.{observed_runtime_resource_exists, workers_by_id}
use radiant_prj.Simops.Runtime.{World, record_call, sync_call}
use radiant_prj.Simops.Recovery.{Stage, LifecycleError, Policy, fail}

-- The outcome, which is the zero value if the run was not stored, and the error.
pub record Reply : Type 0 where
  pub outcome : Option (RunRecord × Bool)
  pub error : Option LifecycleError

unfoldable pub fail_start :
    Policy
    → Time
    → RunRecord × Bool
    → List WorkerRecord
    → List WorkerRecord
    → List SpoolCommand
    → Stage
    → Error
    → World
    → Reply × World
fail_start p now (run, created) planned launched commands stage cause w =
    let (run', e, w') = fail p now run planned launched commands stage cause w in
    (record { outcome = some (run', created); error = some e }, w')

-- The answer to one observation of a runtime: the store, the errors, and the launched workers.
pub record Sweep : Type 0 where
  pub store : Store
  pub errors : List Error
  pub launched : List WorkerRecord

unfoldable pub note_observation : Time → WorkerRecord → ObservedWorkerLifecycle → Sweep → Sweep
note_observation now worker o r =
    let launched =
      if observed_runtime_resource_exists o
      then r.launched ++ apply_observed_worker_lifecycle worker o now ∷ []
      else r.launched in
    elim (update_worker_observed_lifecycle o now r.store) [
      | ok s ↦ record r { store = s; launched = launched }
      | err e ↦ record r {
        errors = r.errors ++ Error.wrapped "persist worker %s recovery observation" e ∷ [];
        launched = launched;
      }
    ]

unfoldable pub sweep_observations :
    Time → Dict WorkerRecord → List ObservedWorkerLifecycle → Sweep → Sweep
unfolding note_observation
sweep_observations now workers [] r = r
sweep_observations now workers (o ∷ os) r =
    sweep_observations now workers os (elim (lookup o.worker_id workers) [
      | none ↦ r
      | some worker ↦ note_observation now worker o r
    ])

abbrev incomplete : Error
incomplete = Error.message "idempotent retry found an incomplete starting Run"

-- `errors.Join` of errors of which there is at least one.
joined_errors : List Error → Error
joined_errors es = elim (join_all es) [ none ↦ incomplete | some e ↦ e ]

unfoldable pub recover_failed :
    Policy
    → Time
    → RunRecord × Bool
    → List WorkerRecord
    → List SpoolCommand
    → Sweep
    → World
    → Reply × World
unfolding joined_errors
recover_failed p now outcome workers commands r w =
    fail_start p now outcome workers r.launched commands Stage.incomplete_launch_recovery
      (joined_errors r.errors) (record w { store = r.store })

abbrev no_sweep : Store → List Error → Sweep
no_sweep s errors = record { store = s; errors = errors; launched = [] }

listed_commands : Result (List SpoolCommand) → List SpoolCommand
listed_commands (ok commands) = commands
listed_commands (err e) = []

add_command_error : Result (List SpoolCommand) → Sweep → Sweep
add_command_error (ok commands) r = r
add_command_error (err e) r = record r {
  errors = r.errors ++ Error.wrapped "list commands for recovery" e ∷ [];
}

-- What the answer of SyncRunProfiles adds.
sweep : Time → List WorkerRecord → Result (List ObservedWorkerLifecycle) → Store → Sweep
sweep now workers (err e) s =
    no_sweep s (incomplete ∷ Error.wrapped "observe workers for recovery" e ∷ [])
sweep now workers (ok observations) s =
    sweep_observations now (workers_by_id workers []) observations (no_sweep s (incomplete ∷ []))

-- After the profiles are built: the runtime is asked once.
unfoldable pub recover_profiles :
    Policy
    → Time
    → RunRecord × Bool
    → List WorkerRecord
    → Result (List SpoolCommand)
    → List Profile
    → World
    → Reply × World
unfolding recover_failed sweep listed_commands add_command_error
recover_profiles p now outcome workers commands ps w =
    recover_failed p now outcome workers (listed_commands commands)
      (add_command_error commands
        (sweep now workers (p.spooler.sync_run_profiles w.calls outcome.0 ps) w.store))
      (record_call (sync_call outcome.0.run_id ps) w)

-- After ListWorkers: the profiles of the workers.
unfoldable pub recover_built :
    Policy
    → Time
    → RunRecord × Bool
    → List WorkerRecord
    → Result (List SpoolCommand)
    → Result (List Profile)
    → World
    → Reply × World
unfolding recover_failed listed_commands
recover_built p now outcome workers commands (ok ps) w =
    recover_profiles p now outcome workers commands ps w
recover_built p now outcome workers commands (err e) w =
    recover_failed p now outcome workers (listed_commands commands)
      (no_sweep w.store (incomplete ∷ Error.wrapped "build worker profiles for recovery" e ∷ [])) w

unfoldable pub recover_listed :
    Policy
    → Time
    → RunRecord × Bool
    → Result (List WorkerRecord)
    → Result (List SpoolCommand)
    → World
    → Reply × World
unfolding recover_failed listed_commands add_command_error recover_built
recover_listed p now outcome (ok workers) commands w =
    recover_built p now outcome workers commands
      (build_run_worker_connection_profiles_for_records p.cfg outcome.0 workers) w
recover_listed p now outcome (err e) commands w =
    recover_failed p now outcome [] (listed_commands commands)
      (add_command_error commands
        (no_sweep w.store (incomplete ∷ Error.wrapped "list workers for recovery" e ∷ [])))
      w

unfoldable pub recover_incomplete_start : Policy → Time → RunRecord × Bool → World → Reply × World
unfolding recover_listed
recover_incomplete_start p now outcome w =
    recover_listed p now outcome (list_workers outcome.0.run_id w.store)
      (list_commands outcome.0.run_id w.store) w

-- `time.Minute`, in nanoseconds.
abbrev pub incomplete_start_stale_after : ℕ
incomplete_start_stale_after = 60000000000

unfoldable pub incomplete_start_is_stale : Time → RunRecord → Bool
incomplete_start_is_stale now run =
    run.updated_at ==ℕ 0 || not (ltb now (run.updated_at + incomplete_start_stale_after))

abbrev pub is_starting : Lifecycle → Bool
is_starting Lifecycle.starting = true
is_starting _ = false
