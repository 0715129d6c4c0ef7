-- ===== src/Simops/Store/Observe.antt =====
-- simops_store.go: UpdateWorkerFrames, UpdateWorkerObservedLifecycle, applyObservedWorkerLifecycle
-- and ListWorkerDegradationEvidence.
use Prim.Native.String.{◌++◌ as ◌<>◌}
use radiant_prj.Common.{
  ℕ, ◌+◌, String, ◌==◌, not, ◌&&◌, Option, none, some, List, [], ◌∷◌, ◌++◌, ◌==ℕ◌, is_empty,
  if◌then◌else◌,
}
use radiant_prj.Common.Error.{Error, Result, ok, err, ◌>>=◌, ◌>>◌, guard}
use radiant_prj.Common.Dict.{Dict, lookup, insert, values, has, inner, slice}
use radiant_prj.Simops.Types.{
  Time, Lifecycle, ObservedWorkerState, observed_text, DegradationEvidence, WorkerState,
  ObservedWorkerLifecycle, RunRecord, WorkerRecord,
}
use radiant_prj.Simops.State.{ensure_run_state, ensure_worker_state}
use radiant_prj.Simops.Facts.{
  apply_degradation, apply_worker_runtime_observation, observed_worker_state_is_terminal,
}
use radiant_prj.Simops.Derive.{derive_run_state}
use radiant_prj.Simops.Store.{Store, get_run}

unfoldable pub find_worker : String → String → Store → Result WorkerRecord
find_worker run_id worker_id s = elim (lookup worker_id (inner run_id s.workers_by_run)) [
  | none ↦ err Error.run_not_found
  | some w ↦ ok w
]

-- `workerMap[workerID] = worker`
unfoldable pub put_worker : String → String → WorkerRecord → Store → Store
put_worker run_id worker_id w s = record s {
  workers_by_run =
      insert run_id (insert worker_id w (inner run_id s.workers_by_run)) s.workers_by_run;
}

unfoldable pub update_worker_frames : String → String → Lifecycle → ℕ → Time → Store → Result Store
update_worker_frames run_id worker_id lifecycle frames_delta now s = do
  guard (has run_id s.runs) Error.run_not_found
  w ← find_worker run_id worker_id s
  ok (
      put_worker run_id worker_id
        (record w { lifecycle = lifecycle; frames = w.frames + frames_delta; updated_at = now }) s)

unfoldable pub observed_worker_contradiction :
    ObservedWorkerState → ObservedWorkerState → String → String
observed_worker_contradiction terminal reported message =
    let prefix =
      "contradictory runtime observation "
      <> observed_text reported
      <> " retained after terminal "
      <> observed_text terminal in
    if message == "" then prefix else prefix <> ": " <> message

-- `observedAt := observation.ObservedAt.UTC()`, or the clock where that is the zero time.
observed_time : ObservedWorkerLifecycle → Time → Time
observed_time o now = if o.observed_at ==ℕ 0 then now else o.observed_at

unfoldable pub apply_observed_worker_lifecycle :
    WorkerRecord → ObservedWorkerLifecycle → Time → WorkerRecord
unfolding observed_time
apply_observed_worker_lifecycle w o now =
    if observed_worker_state_is_terminal w.observed_lifecycle
      && not (observed_worker_state_is_terminal o.state)
    then record w {
      observed_message = observed_worker_contradiction w.observed_lifecycle o.state o.message;
      updated_at = observed_time o now;
    }
    else record w {
      observed_lifecycle = o.state;
      observed_reason = o.reason;
      observed_message = o.message;
      runtime = o.runtime;
      runtime_id = o.runtime_id;
      observed_exit_code = o.exit_code;
      observed_at = some (observed_time o now);
      updated_at = observed_time o now;
      labels = if is_empty o.labels then w.labels else o.labels;
    }

degrade_by : WorkerState × Option DegradationEvidence → WorkerState
degrade_by (s, none) = s
degrade_by (s, some e) = apply_degradation s e

-- The worker's state after an observation, with the evidence of a contradiction applied.
unfoldable pub observe_worker_state : WorkerState → ObservedWorkerLifecycle → WorkerState
unfolding degrade_by
observe_worker_state s o = degrade_by (apply_worker_runtime_observation s o)

unfoldable pub observe_worker : WorkerRecord → ObservedWorkerLifecycle → Time → WorkerRecord
observe_worker w o now =
    let w' = apply_observed_worker_lifecycle w o now in
    record w' { state = observe_worker_state (ensure_worker_state w') o }

-- The evidence of a contradiction, as it is appended to `evidenceByWorker`.
unfoldable pub observation_evidence :
    WorkerRecord → ObservedWorkerLifecycle → Time → List DegradationEvidence
observation_evidence w o now =
    elim (apply_worker_runtime_observation
      (ensure_worker_state (apply_observed_worker_lifecycle w o now)) o).1 [
        | none ↦ []
        | some e ↦ e ∷ []
      ]

unfoldable pub append_evidence :
    String
    → String
    → List DegradationEvidence
    → Dict (Dict (List DegradationEvidence))
    → Dict (Dict (List DegradationEvidence))
append_evidence run_id worker_id [] m = m
append_evidence run_id worker_id (e ∷ es) m =
    let d = inner run_id m in insert run_id (insert worker_id (slice worker_id d ++ e ∷ es) d) m

unfoldable pub judge_run : RunRecord → List WorkerRecord → Time → RunRecord
judge_run r workers at = record r {
  state = derive_run_state (ensure_run_state r.lifecycle r.state) workers;
  updated_at = at;
}

unfoldable pub update_worker_observed_lifecycle :
    ObservedWorkerLifecycle → Time → Store → Result Store
unfolding judge_run
update_worker_observed_lifecycle o now s = do
  r ← get_run o.run_id s
  w ← find_worker o.run_id o.worker_id s
  let w' = observe_worker w o now
  let s' = put_worker o.run_id o.worker_id w' s
  ok (record s' {
    runs =
        insert o.run_id (judge_run r (values (inner o.run_id s'.workers_by_run)) w'.updated_at)
          s.runs;
    evidence_by_worker =
        append_evidence o.run_id o.worker_id (observation_evidence w o now) s.evidence_by_worker;
  })

unfoldable pub list_worker_degradation_evidence :
    String → String → Store → Result (List DegradationEvidence)
list_worker_degradation_evidence run_id worker_id s = do
  guard (has run_id s.runs) Error.run_not_found
  ok (slice worker_id (inner run_id s.evidence_by_worker))
