-- ===== src/Simops/Derive/Verdict.antt =====
-- The judgment described by what some or all workers are, with no loop.
use radiant_prj.Common.{
  ◌≡◌, refl, Bool, true, false, ◌||◌, ◌&&◌, not, List, [], ◌∷◌, ◌++◌, any, arith, if◌then◌else◌,
}
use radiant_prj.Simops.Types.{
  RunPhase, WorkerPhase, ConditionStatus, DegradationEvidence, RunState, WorkerRecord,
}
use radiant_prj.Simops.Derive.{
  Tally, is_failed_status, is_degraded_status, is_failed_cleanup, is_incomplete_cleanup,
  is_attempted_absent, count_worker, tally, no_tally, verdict, derive_run_state,
}

abbrev pub is_failing : WorkerRecord → Bool
is_failing w = is_failed_status w.state.condition.status || is_failed_cleanup w.state.cleanup

abbrev pub is_impaired : WorkerRecord → Bool
is_impaired w =
    is_degraded_status w.state.condition.status
    || is_attempted_absent w.state.launch_disposition
    || is_incomplete_cleanup w.state.cleanup

abbrev phase_is_stopped : WorkerPhase → Bool
phase_is_stopped WorkerPhase.stopped = true
phase_is_stopped _ = false

abbrev phase_is_executing : WorkerPhase → Bool
phase_is_executing WorkerPhase.executing = true
phase_is_executing _ = false

abbrev phase_is_open : WorkerPhase → Bool
phase_is_open WorkerPhase.planned = true
phase_is_open WorkerPhase.launching = true
phase_is_open WorkerPhase.executing = true
phase_is_open _ = false

abbrev pub is_stopped : WorkerRecord → Bool
is_stopped w = phase_is_stopped w.state.phase

abbrev pub is_executing : WorkerRecord → Bool
is_executing w = phase_is_executing w.state.phase

-- Planned, launching or executing.
abbrev pub is_open : WorkerRecord → Bool
is_open w = phase_is_open w.state.phase

unfoldable pub evidence : List WorkerRecord → List DegradationEvidence
evidence [] = []
evidence (w ∷ ws) = w.state.condition.degradations ++ evidence ws

-- The loop against the description, for every value of its variables.
tally-failed :
    (ws : List WorkerRecord) (t : Tally) → (tally ws t).failed ≡ (any is_failing ws || t.failed)
unfolding tally count_worker
tally-failed [] t = refl
tally-failed (w ∷ ws) t = ground (arith, tally-failed ws (count_worker w.state t))

tally-stopping :
    (ws : List WorkerRecord) (t : Tally) → (tally ws t).stopping ≡ (any is_stopped ws || t.stopping)
unfolding tally count_worker
tally-stopping [] t = refl
tally-stopping (w ∷ ws) t = ground (arith, tally-stopping ws (count_worker w.state t))

tally-running :
    (ws : List WorkerRecord) (t : Tally) → (tally ws t).running ≡ (any is_executing ws || t.running)
unfolding tally count_worker
tally-running [] t = refl
tally-running (w ∷ ws) t = ground (arith, tally-running ws (count_worker w.state t))

tally-completed :
    (ws : List WorkerRecord) (t : Tally)
    → (tally ws t).completed ≡ (not (any is_open ws) && t.completed)
unfolding tally count_worker
tally-completed [] t = refl
tally-completed (w ∷ ws) t = ground (arith, tally-completed ws (count_worker w.state t))

tally-status :
    (ws : List WorkerRecord) (t : Tally)
    → (tally ws t).status ≡ (if any is_impaired ws then ConditionStatus.degraded else t.status)
unfolding tally count_worker
tally-status [] t = refl
tally-status (w ∷ ws) t = ground (arith, tally-status ws (count_worker w.state t))

-- The phase that the workers call for.
unfoldable pub phase_of : List WorkerRecord → RunPhase
phase_of ws =
    if any is_failing ws
    then RunPhase.failed
    else if any is_stopped ws
    then RunPhase.stopped
    else if any is_executing ws
    then RunPhase.running
    else if any is_open ws
    then RunPhase.launching
    else RunPhase.completed

unfoldable pub status_of : List WorkerRecord → ConditionStatus
status_of ws =
    if any is_failing ws
    then ConditionStatus.failed
    else if any is_impaired ws
    then ConditionStatus.degraded
    else ConditionStatus.nominal

-- The derived phase is failed if a worker failed, else stopped if one stopped, else running if one
-- executes, else launching if one is planned or launching, else completed. The derived status is
-- failed if a worker failed, else degraded if one is impaired, else nominal.
pub derive_verdict :
    (current : RunState) (ws : List WorkerRecord)
    → ((derive_run_state current ws).phase ≡ phase_of ws)
      × ((derive_run_state current ws).condition.status ≡ status_of ws)
unfolding derive_run_state verdict phase_of status_of
derive_verdict current ws = ground (
  arith,
  tally-failed ws no_tally,
  tally-stopping ws no_tally,
  tally-running ws no_tally,
  tally-completed ws no_tally,
  tally-status ws no_tally,
)
