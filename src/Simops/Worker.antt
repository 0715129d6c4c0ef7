-- ===== src/Simops/Worker.antt =====
-- The life of one worker's state: every function of simops_state.go and of the stop transition that
-- rewrites it in place, as a step relation. CreateRun and SaveLaunch, which store a state of their own,
-- are no steps of it. The proofs about it are in the modules below.
pub mod Coherence
pub mod History
pub mod Outcomes
use radiant_prj.Common.{String}
use radiant_prj.Simops.Types.{
  Time, Lifecycle, LaunchDisposition, WorkerState, ObservedWorkerLifecycle, StopTransition,
}
use radiant_prj.Simops.Facts.{apply_worker_launch_outcome}
use radiant_prj.Simops.Store.Observe.{observe_worker_state}
use radiant_prj.Simops.Store.Stop.{stop_worker_state}

pub data Step (s : WorkerState) : WorkerState → Type 0 where
  observed : (o : ObservedWorkerLifecycle) → Step s (observe_worker_state s o)
  launched :
      (d : LaunchDisposition) (at : Time) (source message : String)
      → Step s (apply_worker_launch_outcome s d at source message).0
  stopped : (t : StopTransition) (now : Time) → Step s (stop_worker_state t now s)

pub data Reach (s : WorkerState) : WorkerState → Type 0 where
  here : Reach s s
  next : {t u : WorkerState} → Reach s t → Step t u → Reach s u
