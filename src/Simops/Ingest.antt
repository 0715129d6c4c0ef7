-- ===== src/Simops/Ingest.antt =====
-- backend/slurm-gateway/internal/gateway/simops_controller.go: getRecordForWrite,
-- getRecordForIngest and the ingest handler. An error comes with its HTTP status. The proofs are in
-- the module below.
pub mod Passed
use radiant_prj.Common.{
  ℕ, suc, ◌+◌, ◌-◌, String, Bool, true, false, not, ◌&&◌, ◌||◌, ◌==◌, Option, none, some, List, [],
  ◌∷◌, ◌==ℕ◌, ltb, leb, length, is_empty, if◌then◌else◌,
}
use radiant_prj.Common.Error.{Error, Result, ok, err, ◌>>=◌, ◌>>◌, guard}
use radiant_prj.Common.Text.{matches_run_id}
use radiant_prj.Simops.Types
use radiant_prj.Simops.Types.{
  Time, ℤ, Lifecycle, RunRequest, RunRecord, WorkerRecord, TelemetryFrame, Event, StopOutcome,
  ObservedWorkerLifecycle,
}
use radiant_prj.Simops.Config.{Config}
use radiant_prj.Simops.Request.{
  normalize_worker_kinds, normalize_run_request, validate_telemetry_frame,
}
use radiant_prj.Simops.State.{initial_run_state}
use radiant_prj.Simops.Store.{
  Store, get_run, get_run_by_idempotency, active_run_count, list_workers,
}
use radiant_prj.Simops.Store.Observe.{update_worker_frames, update_worker_observed_lifecycle}
use radiant_prj.Simops.Store.Intents.{list_events}
use radiant_prj.Simops.Profile.{build_run_worker_connection_profiles_for_records}
use radiant_prj.Simops.Connection.{Profile}
use radiant_prj.Simops.Runtime.{World, EventLog, record_call, sync_call}
use radiant_prj.Simops.Outbox.{dispatch_publication_intents}
use radiant_prj.Simops.StopOrchestrator.{orchestrate_stop}
use radiant_prj.Simops.Recovery.{Stage, LifecycleError, Policy}
use radiant_prj.Simops.Start.{start}
use radiant_prj.Simops.Retry.{Reply}

-- The status with the error, or a value.
pub data Answer {ℓ} (A : Type ℓ) : Type ℓ where
  refused : ℕ → Error → Answer A
  answered : A → Answer A

-- An error of GetRun is ErrSimopsRunNotFound.
unfoldable pub get_record_for_write : String → Store → Answer RunRecord
get_record_for_write run_id s =
    if matches_run_id run_id
    then elim (get_run run_id s) [ err e ↦ Answer.refused 404 e | ok r ↦ Answer.answered r ]
    else Answer.refused 404 Error.run_not_found

abbrev pub accepts_ingest : Lifecycle → Bool
accepts_ingest Lifecycle.starting = true
accepts_ingest Lifecycle.streaming = true
accepts_ingest Lifecycle.degraded = true
accepts_ingest _ = false

unfoldable pub get_record_for_ingest : String → Store → Answer RunRecord
get_record_for_ingest run_id s = elim (get_record_for_write run_id s) [
  | Answer.refused status e ↦ Answer.refused status e
  | Answer.answered r ↦
      if accepts_ingest r.lifecycle
      then Answer.answered r
      else Answer.refused 409 (Error.message "SimOps Run %s lifecycle %s does not accept ingest")
]

-- `marshal` is json.Marshal of a frame.
telemetry_event : (TelemetryFrame → String) → String → TelemetryFrame → Time → Event
telemetry_event marshal run_id f now = record {
  run_id = run_id;
  worker_id = f.worker_id;
  event_type = "worker.telemetry";
  lifecycle = Lifecycle.unset;
  frame = marshal f;
  occurred_at = now;
  redpanda_topic = "";
  redpanda_partition = Types.ℤ.pos 0;
  redpanda_offset = Types.ℤ.pos 0;
}

-- One round of the loop of Ingest; a refused frame leaves what was published before.
unfoldable pub ingest_frame :
    EventLog
    → (TelemetryFrame → String)
    → RunRecord
    → String
    → Time
    → TelemetryFrame
    → Store
    → Answer (Unit {0}) × Store
unfolding telemetry_event
ingest_frame log marshal run run_id now f s = elim (validate_telemetry_frame run f) [
  | err e ↦ (Answer.refused 422 e, s)
  | ok _ ↦
      let (published, s1) = log.publish (telemetry_event marshal run_id f now) s in
      elim published [
        | some e ↦ (Answer.refused 502 e, s1)
        | none ↦ elim (update_worker_frames run_id f.worker_id Lifecycle.streaming 1 now s1) [
          | err e ↦ (Answer.refused 422 e, s1)
          | ok s2 ↦ (Answer.answered tt, s2)
        ]
      ]
]

unfoldable pub ingest_frames :
    EventLog
    → (TelemetryFrame → String)
    → RunRecord
    → String
    → Time
    → List TelemetryFrame
    → Store
    → Answer (Unit {0}) × Store
unfolding ingest_frame
ingest_frames log marshal run run_id now [] s = (Answer.answered tt, s)
ingest_frames log marshal run run_id now (f ∷ fs) s =
    let (answer, s') = ingest_frame log marshal run run_id now f s in
    let rest = ingest_frames log marshal run run_id now fs s' in
    elim answer [
      | Answer.refused status e ↦ (Answer.refused status e, s')
      | Answer.answered _ ↦ rest
    ]

unfoldable pub count_frames : ℕ → Answer (Unit {0}) → Answer ℕ
count_frames n (Answer.refused status e) = Answer.refused status e
count_frames n (Answer.answered _) = Answer.answered n

-- Ingest, where `decoded` is the answer of decodeTelemetryFrames on the body.
unfoldable pub ingest :
    EventLog
    → (TelemetryFrame → String)
    → Time
    → String
    → String
    → Result (List TelemetryFrame)
    → Store
    → Answer ℕ × Store
unfolding count_frames ingest_frames
ingest log marshal now run_id token decoded s = elim (get_record_for_ingest run_id s) [
  | Answer.refused status e ↦ (Answer.refused status e, s)
  | Answer.answered run ↦
      if token == "" || not (token == run.ingest_token)
      then (Answer.refused 401 (Error.message "invalid SimOps ingest token"), s)
      else elim decoded [
        | err e ↦ (Answer.refused 400 e, s)
        | ok frames ↦
            let (answer, s') = ingest_frames log marshal run run_id now frames s in
            if is_empty frames
            then (Answer.refused 400 (Error.message "at least one telemetry frame is required"), s)
            else (count_frames (length frames) answer, s')
      ]
]
