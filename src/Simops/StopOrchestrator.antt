-- ===== src/Simops/StopOrchestrator.antt =====
-- backend/slurm-gateway/internal/gateway/simops_stop_orchestrator.go: SimopsStopOrchestrator.Stop.
-- The clock is read once; its readings only date the records. An outcome that the source returns
-- beside an error is dropped, as its caller drops it. The proofs are in the module below.
pub mod Complete
use radiant_prj.Common.{String, Bool, true, false, Option, none, some, List, if◌then◌else◌}
use radiant_prj.Common.Error.{Error, Result, ok, err, join}
use radiant_prj.Simops.Types.{Time, CleanupDisposition, StopTransition, StopOutcome}
use radiant_prj.Simops.Config.{Config}
use radiant_prj.Simops.Profile.{build_run_worker_connection_profiles_for_records}
use radiant_prj.Simops.Connection.{Profile}
use radiant_prj.Simops.Store.{Store, get_run, list_workers}
use radiant_prj.Simops.Store.Stop.{apply_stop_transition}
use radiant_prj.Simops.Runtime.{
  Call, World, Spooler, text_of, is_confirmed_runtime_failure, record_call, stop_call, cleanup_call,
}

unfoldable pub requested_transition : String → Time → StopTransition
requested_transition run_id now = record {
  run_id = run_id;
  cleanup = CleanupDisposition.requested;
  stop_failure = "";
  stop_confirmed = false;
  cleanup_failure = "";
  cleanup_confirmed = false;
  occurred_at = now;
}

unfoldable pub in_progress_transition : String → Time → Option Error → StopTransition
unfolding requested_transition
in_progress_transition run_id now stop_err = record (requested_transition run_id now) {
  cleanup = CleanupDisposition.in_progress;
  stop_failure = text_of stop_err;
  stop_confirmed = is_confirmed_runtime_failure stop_err;
}

unfoldable pub cleanup_of : Option Error → CleanupDisposition
cleanup_of none = CleanupDisposition.completed
cleanup_of (some e) =
    if is_confirmed_runtime_failure (some e)
    then CleanupDisposition.failed
    else CleanupDisposition.incomplete

unfoldable pub final_transition : String → Time → Option Error → Option Error → StopTransition
unfolding in_progress_transition cleanup_of
final_transition run_id now stop_err cleanup_err =
    record (in_progress_transition run_id now stop_err) {
      cleanup = cleanup_of cleanup_err;
      cleanup_failure = text_of cleanup_err;
      cleanup_confirmed = is_confirmed_runtime_failure cleanup_err;
    }

-- The answer when both calls have been made: the outcome if neither failed.
unfoldable pub stop_reply : Option Error → Option Error → StopOutcome → Result StopOutcome
stop_reply none none o = ok o
stop_reply stop_err cleanup_err o = elim (join stop_err cleanup_err) [
  | none ↦ ok o
  | some e ↦ err (Error.wrapped "stop SimOps Run %s: " e)
]

-- A transition of the store; a refusal ends the call.
unfoldable pub transition :
    StopTransition
    → Time
    → World
    → (StopOutcome → World → Result StopOutcome × World)
    → Result StopOutcome × World
transition t now w continue = elim (apply_stop_transition t now w.store) [
  | err e ↦ (err e, w)
  | ok (o, s) ↦ continue o (record w { store = s })
]

-- The part that follows StopRunProfiles and its answer.
unfoldable pub finish_stop :
    Spooler → String → Time → List Profile → Option Error → World → Result StopOutcome × World
unfolding transition
finish_stop spooler run_id now profiles stop_err w =
    transition (in_progress_transition run_id now stop_err) now w λ _ w1.
      let cleanup_err = spooler.cleanup_run_profiles w1.calls run_id profiles in
      transition (final_transition run_id now stop_err cleanup_err) now
        (record_call (cleanup_call run_id profiles) w1)
        λ o w2. (stop_reply stop_err cleanup_err o, w2)

-- The part that follows the lookups.
unfoldable pub stop_profiles :
    Spooler → String → Time → Result (List Profile) → World → Result StopOutcome × World
stop_profiles spooler run_id now (err e) w = (err e, w)
stop_profiles spooler run_id now (ok profiles) w =
    finish_stop spooler run_id now profiles (spooler.stop_run_profiles w.calls run_id profiles)
      (record_call (stop_call run_id profiles) w)

unfoldable pub orchestrate_stop :
    Config → Spooler → Time → String → World → Result StopOutcome × World
unfolding transition stop_profiles finish_stop
orchestrate_stop cfg spooler now run_id w = elim (get_run run_id w.store) [
  | err e ↦ (err e, w)
  | ok run ↦ elim (list_workers run_id w.store) [
    | err e ↦ (err e, w)
    | ok workers ↦ transition (requested_transition run_id now) now w λ _ w1.
        stop_profiles spooler run_id now
          (build_run_worker_connection_profiles_for_records cfg run workers) w1
  ]
]
