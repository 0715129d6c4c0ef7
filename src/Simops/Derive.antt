-- ===== src/Simops/Derive.antt =====
-- deriveSimopsRunState of backend/slurm-gateway/internal/gateway/simops_state.go: the judgment over
-- the workers of a run. The proofs are in the modules below.
pub mod Verdict
pub mod Order
use radiant_prj.Common.{Bool, true, false, ◌&&◌, ◌||◌, List, [], ◌∷◌, ◌++◌, if◌then◌else◌}
use radiant_prj.Simops.Types.{
  RunPhase, WorkerPhase, LaunchDisposition, ConditionStatus, CleanupDisposition,
  DegradationEvidence, WorkerState, RunState, WorkerRecord,
}

-- The loop's variables: `failed`, `stopping`, `running`, `completed` and `state.Condition`.
pub record Tally : Type 0 where
  pub failed : Bool
  pub stopping : Bool
  pub running : Bool
  pub completed : Bool
  pub status : ConditionStatus
  pub degradations : List DegradationEvidence

abbrev pub is_failed_status : ConditionStatus → Bool
is_failed_status ConditionStatus.failed = true
is_failed_status _ = false

abbrev pub is_degraded_status : ConditionStatus → Bool
is_degraded_status ConditionStatus.degraded = true
is_degraded_status _ = false

abbrev pub is_failed_cleanup : CleanupDisposition → Bool
is_failed_cleanup CleanupDisposition.failed = true
is_failed_cleanup _ = false

abbrev pub is_incomplete_cleanup : CleanupDisposition → Bool
is_incomplete_cleanup CleanupDisposition.incomplete = true
is_incomplete_cleanup _ = false

abbrev pub is_attempted_absent : LaunchDisposition → Bool
is_attempted_absent LaunchDisposition.attempted_absent = true
is_attempted_absent _ = false

-- The switch on the worker's phase.
count_phase : WorkerPhase → Tally → Tally
count_phase WorkerPhase.planned t = record t { completed = false }
count_phase WorkerPhase.launching t = record t { completed = false }
count_phase WorkerPhase.executing t = record t { running = true; completed = false }
count_phase WorkerPhase.stopped t = record t { stopping = true }
count_phase _ t = t

-- One round of the loop.
unfoldable pub count_worker : WorkerState → Tally → Tally
unfolding count_phase
count_worker w t = count_phase w.phase (record {
  failed =
      if is_failed_status w.condition.status || is_failed_cleanup w.cleanup then true else t.failed;
  stopping = t.stopping;
  running = t.running;
  completed = t.completed;
  status =
      if is_degraded_status w.condition.status
        || is_attempted_absent w.launch_disposition
        || is_incomplete_cleanup w.cleanup
      then ConditionStatus.degraded
      else t.status;
  degradations = t.degradations ++ w.condition.degradations;
})

unfoldable pub tally : List WorkerRecord → Tally → Tally
tally [] t = t
tally (w ∷ ws) t = tally ws (count_worker w.state t)

abbrev pub no_tally : Tally
no_tally = record {
  failed = false;
  stopping = false;
  running = false;
  completed = true;
  status = ConditionStatus.nominal;
  degradations = [];
}

-- What follows the loop.
unfoldable pub verdict : RunState → Tally → RunState
verdict current t =
    if t.failed
    then record current {
      condition = record { status = ConditionStatus.failed; degradations = t.degradations };
      phase = RunPhase.failed;
    }
    else record current {
      condition = record { status = t.status; degradations = t.degradations };
      phase =
          if t.stopping
          then RunPhase.stopped
          else if t.running
          then RunPhase.running
          else if t.completed
          then RunPhase.completed
          else RunPhase.launching;
    }

unfoldable pub derive_run_state : RunState → List WorkerRecord → RunState
derive_run_state current workers = verdict current (tally workers no_tally)
