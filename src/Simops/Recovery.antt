-- ===== src/Simops/Recovery.antt =====
-- backend/slurm-gateway/internal/gateway/simops_run_lifecycle.go: fail and compensate of
-- SimopsRunLifecyclePolicy. The clock is read once. The proofs are in the module below.
pub mod Marked
use radiant_prj.Common.{
  String, Bool, true, false, Option, none, some, List, [], ◌∷◌, ◌++◌, if◌then◌else◌,
}
use radiant_prj.Common.Error.{Error, Result, ok, err, join_all, error_text}
use radiant_prj.Common.Dict.{Dict}
use radiant_prj.Simops.Types
use radiant_prj.Simops.Types.{
  Time, Lifecycle, RunRecord, WorkerRecord, SpoolCommand, ArtifactRecord, Event,
}
use radiant_prj.Simops.Config.{Config}
use radiant_prj.Simops.Profile.{build_run_worker_connection_profiles_for_records}
use radiant_prj.Simops.Connection.{Profile}
use radiant_prj.Simops.Store.{Store, save_launch, update_run_lifecycle}
use radiant_prj.Simops.Store.Observe.{update_worker_frames}
use radiant_prj.Simops.Store.Records.{list_artifacts, update_artifact_status}
use radiant_prj.Simops.Store.Intents.{save_event}
use radiant_prj.Simops.LaunchCheck.{failed_worker_outcomes, failed_command_outcomes}
use radiant_prj.Simops.Runtime.{
  Call, World, Spooler, EventLog, record_call, stop_call, cleanup_call,
}

pub data Stage : Type 0 where
  persistence runtime_launch launch_persistence streaming_transition artifact_planning : Stage
  artifact_persistence event_publication incomplete_launch_recovery : Stage

stage_text : Stage → String
stage_text Stage.persistence = "persistence"
stage_text Stage.runtime_launch = "runtime_launch"
stage_text Stage.launch_persistence = "launch_persistence"
stage_text Stage.streaming_transition = "streaming_transition"
stage_text Stage.artifact_planning = "artifact_planning"
stage_text Stage.artifact_persistence = "artifact_persistence"
stage_text Stage.event_publication = "event_publication"
stage_text Stage.incomplete_launch_recovery = "incomplete_launch_recovery"

pub record LifecycleError : Type 0 where
  pub stage : Stage
  pub cause : Error
  pub compensation_error : Option Error
  pub recovery_error : Option Error

-- The policy's collaborators: `marshal` is json.Marshal of a map of texts, `artifact` the sink that
-- may be nil, and `context_error` the answer of the recovery context's Err after the work.
pub record Policy : Type 0 where
  pub cfg : Config
  pub spooler : Spooler
  pub event_log : EventLog
  pub artifact : Option (RunRecord → ArtifactRecord)
  pub marshal : Dict String → String
  pub context_error : Option Error

-- StopRunProfiles, and CleanupRunProfiles if that succeeds.
unfoldable pub compensate_profiles : Spooler → String → List Profile → World → Option Error × World
compensate_profiles spooler run_id ps w =
    let w1 = record_call (stop_call run_id ps) w in
    elim (spooler.stop_run_profiles w.calls run_id ps) [
      | some e ↦ (some e, w1)
      | none ↦
          (spooler.cleanup_run_profiles w1.calls run_id ps, record_call (cleanup_call run_id ps) w1)
    ]

unfoldable pub compensate_built :
    Policy → RunRecord → Result (List Profile) → World → Option Error × World
unfolding compensate_profiles
compensate_built p run (err e) w = (some e, w)
compensate_built p run (ok ps) w = compensate_profiles p.spooler run.run_id ps w

unfoldable pub compensate : Policy → RunRecord → List WorkerRecord → World → Option Error × World
unfolding compensate_built
compensate p run workers w =
    compensate_built p run (build_run_worker_connection_profiles_for_records p.cfg run workers) w

abbrev pub is_none : Option Error → Bool
is_none none = true
is_none (some _) = false

compensation_details : Option Error → Dict String
compensation_details none = ("compensation", "succeeded") ∷ []
compensation_details (some e) =
    ("compensation", "failed") ∷ ("compensation_error", error_text e) ∷ []

unfoldable pub lifecycle_failure_event :
    (Dict String → String) → String → Stage → Error → Option Error → Time → Event
unfolding compensation_details stage_text
lifecycle_failure_event marshal run_id stage cause compensation_error now = record {
  run_id = run_id;
  worker_id = "";
  event_type = "run.lifecycle.failure";
  lifecycle = Lifecycle.failed;
  frame = marshal (
      ("stage", stage_text stage)
      ∷ ("error", error_text cause)
      ∷ compensation_details compensation_error);
  occurred_at = now;
  redpanda_topic = "";
  redpanda_partition = Types.ℤ.pos 0;
  redpanda_offset = Types.ℤ.pos 0;
}

-- The store and `recoveryErrors` in the course of `fail`.
pub record Recovery : Type 0 where
  pub store : Store
  pub errors : List Error

-- An operation whose error is collected.
unfoldable pub attempt : String → (Store → Result Store) → Recovery → Recovery
attempt text f r = elim (f r.store) [
  | err e ↦ record r { errors = r.errors ++ Error.wrapped text e ∷ [] }
  | ok s ↦ record r { store = s }
]

unfoldable pub persist_lifecycles : String → Time → List WorkerRecord → Recovery → Recovery
persist_lifecycles run_id now [] r = r
persist_lifecycles run_id now (w ∷ ws) r = persist_lifecycles run_id now ws (
    attempt "persist worker %s lifecycle"
      (update_worker_frames run_id w.worker_id w.lifecycle 0 now) r)

-- `outcome.Run` and the recovery after UpdateRunLifecycle.
unfoldable pub persist_failed_run : RunRecord → Time → Recovery → RunRecord × Recovery
persist_failed_run run now r = elim (update_run_lifecycle run.run_id Lifecycle.failed now r.store) [
  | err e ↦ (run, record r { errors = r.errors ++ Error.wrapped "persist failed Run" e ∷ [] })
  | ok (run', s) ↦ (run', record r { store = s })
]

unfoldable pub fail_artifacts : String → List ArtifactRecord → Recovery → Recovery
fail_artifacts run_id [] r = r
fail_artifacts run_id (a ∷ as') r =
    fail_artifacts run_id as'
      (attempt "mark artifact %s failed" (update_artifact_status run_id a.artifact_id "failed") r)

unfoldable pub dispose_artifacts : String → Recovery → Recovery
dispose_artifacts run_id r = elim (list_artifacts run_id r.store) [
  | err e ↦ record r {
    errors = r.errors ++ Error.wrapped "list artifacts for failure disposition" e ∷ [];
  }
  | ok l ↦ fail_artifacts run_id l r
]

-- An event that cannot be published is saved in the store.
unfoldable pub publish_failure : EventLog → Event → Recovery → Recovery
publish_failure log e r =
    let (answer, s) = log.publish e r.store in
    elim answer [
      | none ↦ record r { store = s }
      | some _ ↦ attempt "persist lifecycle failure event" (save_event e) (record r { store = s })
    ]

-- The store's part of `fail`: `workers` and `commands` are the outcomes of both.
unfoldable pub record_failure :
    EventLog
    → (String → Event)
    → RunRecord
    → List WorkerRecord
    → List SpoolCommand
    → Time
    → Store
    → RunRecord × Recovery
unfolding persist_lifecycles persist_failed_run dispose_artifacts publish_failure attempt
record_failure log event run workers commands now s =
    let r1 =
      attempt "persist worker outcomes" (save_launch run.run_id workers commands)
        (record { store = s; errors = [] }) in
    let r2 = persist_lifecycles run.run_id now workers r1 in
    let (run', r3) = persist_failed_run run now r2 in
    (run', publish_failure log (event run'.run_id) (dispose_artifacts run'.run_id r3))

context_errors : Option Error → List Error
context_errors none = []
context_errors (some e) = Error.wrapped "bounded lifecycle recovery" e ∷ []

-- The run of the outcome, the error and the world.
unfoldable pub fail :
    Policy
    → Time
    → RunRecord
    → List WorkerRecord
    → List WorkerRecord
    → List SpoolCommand
    → Stage
    → Error
    → World
    → RunRecord × LifecycleError × World
unfolding compensate record_failure context_errors
fail p now run planned launched commands stage cause w =
    let (compensation_error, w1) = compensate p run planned w in
    let compensated = is_none compensation_error in
    let (run', r) =
      record_failure p.event_log
        (λ id. lifecycle_failure_event p.marshal id stage cause compensation_error now) run
        (failed_worker_outcomes planned launched compensated now)
        (failed_command_outcomes commands launched compensated now) now w1.store in
    (
      run',
      record {
        stage = stage;
        cause = cause;
        compensation_error = compensation_error;
        recovery_error = join_all (r.errors ++ context_errors p.context_error);
      },
      record w1 { store = r.store },
    )
