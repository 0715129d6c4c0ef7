-- ===== src/Simops/Controller.antt =====
-- backend/slurm-gateway/internal/gateway/simops_controller.go: the handlers of SimopsController. A
-- handler returns an error with its HTTP status. The response's body, which responseFor only reads
-- from the store, is left out; a handler answers with the run that it passes to responseFor. The
-- proofs are in the module below.
pub mod Limit
use radiant_prj.Common.{
  ℕ, suc, ◌+◌, ◌-◌, String, Bool, true, false, not, ◌&&◌, ◌||◌, ◌==◌, Option, none, some, List, [],
  ◌∷◌, ◌==ℕ◌, ltb, leb, length, is_empty, if◌then◌else◌,
}
use radiant_prj.Common.Error.{Error, Result, ok, err, ◌>>=◌, ◌>>◌, guard}
use radiant_prj.Common.Text.{matches_run_id}
use radiant_prj.Simops.Types
use radiant_prj.Simops.Types.{
  Time, ℤ, Lifecycle, RunRequest, RunRecord, WorkerRecord, TelemetryFrame, Event, StopOutcome,
  ObservedWorkerLifecycle,
}
use radiant_prj.Simops.Config.{Config}
use radiant_prj.Simops.Request.{
  normalize_worker_kinds, normalize_run_request, validate_telemetry_frame,
}
use radiant_prj.Simops.State.{initial_run_state}
use radiant_prj.Simops.Store.{
  Store, get_run, get_run_by_idempotency, active_run_count, list_workers,
}
use radiant_prj.Simops.Store.Observe.{update_worker_frames, update_worker_observed_lifecycle}
use radiant_prj.Simops.Store.Intents.{list_events}
use radiant_prj.Simops.Profile.{build_run_worker_connection_profiles_for_records}
use radiant_prj.Simops.Connection.{Profile}
use radiant_prj.Simops.Runtime.{World, EventLog, record_call, sync_call}
use radiant_prj.Simops.Outbox.{dispatch_publication_intents}
use radiant_prj.Simops.StopOrchestrator.{orchestrate_stop}
use radiant_prj.Simops.Recovery.{Stage, LifecycleError, Policy}
use radiant_prj.Simops.Start.{start}
use radiant_prj.Simops.Retry.{Reply}
use radiant_prj.Simops.Ingest.{Answer, get_record_for_write}

-- `simopsLifecycleHTTPStatus` of an error of Start.
unfoldable pub lifecycle_http_status : Stage → ℕ
lifecycle_http_status Stage.runtime_launch = 502
lifecycle_http_status Stage.event_publication = 502
lifecycle_http_status _ = 500

-- `>=` of the count of active runs and a limit that may be negative.
unfoldable pub reached_limit : ℕ → ℤ → Bool
reached_limit n (ℤ.pos k) = leb k n
reached_limit n (ℤ.negsuc k) = true

-- GetRunByIdempotency finds a run; its only other answer is ErrSimopsRunNotFound.
unfoldable pub has_existing_run : String → String → Store → Bool
has_existing_run identity key s =
    if key == ""
    then false
    else elim (get_run_by_idempotency identity key s) [ err _ ↦ false | ok _ ↦ true ]

unfoldable pub add_duration : Time → ℤ → Time
add_duration now (ℤ.pos n) = now + n
add_duration now (ℤ.negsuc n) = now - suc n

-- The record that CreateRun hands to Start, with the identifier and the token that were drawn.
unfoldable pub requested_run : Config → Time → String → String → String → RunRequest → RunRecord
unfolding add_duration
requested_run cfg now run_id token identity q = record {
  run_id = run_id;
  scenario_id = q.scenario_id;
  lifecycle = Lifecycle.starting;
  state = initial_run_state (add_duration now cfg.launch_observation_timeout);
  source = q.source;
  work_script = q.work_script;
  launch_mode = q.launch_mode;
  runtime_limit_sec = q.runtime_limit_sec;
  idempotency_key = q.idempotency_key;
  submitted_by = identity;
  ingest_token = token;
  created_at = now;
  updated_at = now;
}

-- The answer of Start: an error comes with its status, an outcome without the response's body.
unfoldable pub started : Reply → Answer (RunRecord × Bool)
started r = elim r.error [
  | some e ↦ Answer.refused (lifecycle_http_status e.stage) e.cause
  | none ↦ elim r.outcome [
    | none ↦ Answer.refused 500 Error.run_not_found
    | some o ↦ Answer.answered o
  ]
]

-- CreateRun after the request was normalised.
unfoldable pub admit_run :
    Policy
    → Time
    → String
    → String
    → String
    → List String
    → RunRequest
    → World
    → Answer (RunRecord × Bool) × World
unfolding started has_existing_run requested_run
admit_run p now run_id token identity kinds q w =
    if not (has_existing_run identity q.idempotency_key w.store)
      && reached_limit (active_run_count w.store) p.cfg.max_active_runs
    then (Answer.refused 429 (Error.message "maximum active SimOps runs reached"), w)
    else let (reply, w') = start p now (requested_run p.cfg now run_id token identity q) kinds w in
      (started reply, w')

unfoldable pub create_run_request :
    Policy
    → Time
    → String
    → String
    → String
    → RunRequest
    → World
    → Answer (RunRecord × Bool) × World
unfolding admit_run
create_run_request p now run_id token identity q w = elim (normalize_worker_kinds q.worker_kinds) [
  | err e ↦ (Answer.refused 422 e, w)
  | ok kinds ↦ elim (normalize_run_request p.cfg.launch_mode q) [
    | err e ↦ (Answer.refused 422 e, w)
    | ok r ↦ admit_run p now run_id token identity kinds r w
  ]
]

abbrev pub is_ended : Lifecycle → Bool
is_ended Lifecycle.stopped = true
is_ended Lifecycle.complete = true
is_ended _ = false

-- What follows the orchestrator's answer.
announce_stop : Policy → Time → Result StopOutcome → World → Answer RunRecord × World
announce_stop p now (err e) w = (Answer.refused 502 e, w)
announce_stop p now (ok o) w =
    let (_, s) = dispatch_publication_intents p.event_log now o.run.run_id w.store in
    (Answer.answered o.run, record w { store = s })

unfoldable pub stop_run_request : Policy → Time → String → World → Answer RunRecord × World
unfolding announce_stop
stop_run_request p now run_id w = elim (get_record_for_write run_id w.store) [
  | Answer.refused status e ↦ (Answer.refused status e, w)
  | Answer.answered r ↦
      let (outcome, w') = orchestrate_stop p.cfg p.spooler now run_id w in
      if is_ended r.lifecycle then (Answer.answered r, w) else announce_stop p now outcome w'
]

-- An observation without a run gets the run's identifier.
of_run : String → ObservedWorkerLifecycle → ObservedWorkerLifecycle
of_run run_id o = if o.run_id == "" then record o { run_id = run_id } else o

-- The loop of syncRunWorkers, which ends at the first error; what was written before it stays.
unfoldable pub save_observations :
    String → Time → List ObservedWorkerLifecycle → Store → Option Error × Store
unfolding of_run
save_observations run_id now [] s = (none, s)
save_observations run_id now (o ∷ os) s =
    elim (update_worker_observed_lifecycle (of_run run_id o) now s) [
      | err e ↦ (some e, s)
      | ok s' ↦ save_observations run_id now os s'
    ]

-- After the profiles are built.
sync_profiles : Policy → Time → RunRecord → Result (List Profile) → World → Option Error × World
unfolding save_observations
sync_profiles p now run (err e) w = (some e, w)
sync_profiles p now run (ok ps) w =
    let w' = record_call (sync_call run.run_id ps) w in
    elim (p.spooler.sync_run_profiles w.calls run ps) [
      | err e ↦ (some e, w')
      | ok os ↦
          let (answer, s) = save_observations run.run_id now os w.store in
          (answer, record w' { store = s })
    ]

unfoldable pub sync_run_workers : Policy → Time → RunRecord → World → Option Error × World
unfolding sync_profiles
sync_run_workers p now run w = elim (list_workers run.run_id w.store) [
  | err e ↦ (some e, w)
  | ok workers ↦
      sync_profiles p now run (build_run_worker_connection_profiles_for_records p.cfg run workers) w
]

-- GetRun answers with the record that it read first; the errors of the two calls are dropped.
unfoldable pub get_run_request : Policy → Time → String → World → Answer RunRecord × World
get_run_request p now run_id w = elim (get_record_for_write run_id w.store) [
  | Answer.refused status e ↦ (Answer.refused status e, w)
  | Answer.answered run ↦
      let (_, w') = sync_run_workers p now run w in
      let (_, s) = dispatch_publication_intents p.event_log now run.run_id w'.store in
      (Answer.answered run, record w' { store = s })
]

-- The error of the store is ErrSimopsRunNotFound.
unfoldable pub list_events_request : EventLog → Time → String → Store → Answer (List Event) × Store
list_events_request log now run_id s =
    if matches_run_id run_id
    then (let (_, s') = dispatch_publication_intents log now run_id s in
        elim (list_events run_id s') [
          | err e ↦ (Answer.refused 404 e, s')
          | ok events ↦ (Answer.answered events, s')
        ])
    else (Answer.refused 404 Error.run_not_found, s)
