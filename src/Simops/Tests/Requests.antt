-- ===== src/Simops/Tests/Requests.antt =====
-- The theorems about requests and events, at examples.
use radiant_prj.Common.{
  ◌≤◌, String, ◌≡◌, refl, true, false, some, List, [], ◌∷◌, ◌++◌, ◌==◌, All, length, is_empty, none,
}
use radiant_prj.Common.Error.{ok, Error}
use radiant_prj.Common.Dict.{lookup, insert, has, inner, slice}
use radiant_prj.Common.Text.{trim_space, matches_run_id}
use radiant_prj.Simops.Types.{
  ℤ, lifecycle_text, RunRequest, RunRecord, TelemetryFrame, PublicationIntent,
}
use radiant_prj.Simops.Profile.{allowed_worker}
use radiant_prj.Simops.Store.{Store, get_run, add_workers}
use radiant_prj.Simops.Store.Observe.{update_worker_frames, put_worker, find_worker}
use radiant_prj.Simops.Store.Intents.{
  new_publication_intent, put_intent, find_intent, publication_intent_id, save_event,
}
use radiant_prj.Simops.Store.Stop.{stopped_event}
use radiant_prj.Simops.Runtime.{memory_event_log, memory_publish}
use radiant_prj.Simops.Outbox.{dispatch_intent}
use radiant_prj.Simops.Outbox.Once.{dispatch_saves_once, after_publish, after_failure}
use radiant_prj.Simops.Request.{
  normalize_worker_kinds, normalize_kinds, normalize_run_request, with_defaults, default_text,
  default_limit, allowed_scenario, allowed_work_script, allowed_launch_mode, limit_in_bounds,
  validate_telemetry_frame,
}
use radiant_prj.Simops.Request.Checked.{Distinct, worker_kinds_checked, run_request_checked}
use radiant_prj.Simops.Ingest.{
  Answer, accepts_ingest, ingest, ingest_frames, ingest_frame, get_record_for_ingest,
  get_record_for_write, count_frames,
}
use radiant_prj.Simops.Ingest.Passed.{IsValidFrame, ingest_checked}
use radiant_prj.Simops.Tests.Data.{first_run}
use radiant_prj.Simops.Tests.Stores.{one_run}

abbrev two_kinds : List String
two_kinds = "burst" ∷ "storage" ∷ []

two_kinds_accepted : normalize_worker_kinds (" burst" ∷ "storage " ∷ []) ≡ ok two_kinds
unfolding normalize_worker_kinds normalize_kinds trim_space allowed_worker has insert lookup
two_kinds_accepted = refl

worker_kinds_checked_example :
    All (λ k. allowed_worker k ≡ true) two_kinds
    × Distinct two_kinds
    × (1 ≤ length two_kinds)
    × (length two_kinds ≤ 4)
    × (length two_kinds ≡ 2)
worker_kinds_checked_example =
    worker_kinds_checked (" burst" ∷ "storage " ∷ []) two_kinds two_kinds_accepted

abbrev request : RunRequest
request = record {
  scenario_id = " cloud-burst ";
  source = "";
  work_script = "";
  launch_mode = "auto";
  worker_kinds = [];
  runtime_limit_sec = ℤ.pos 0;
  idempotency_key = " k ";
}

abbrev accepted_request : RunRequest
accepted_request = record request {
  scenario_id = "cloud-burst";
  source = "frontend";
  work_script = "cloud-burst";
  runtime_limit_sec = ℤ.pos 120;
  idempotency_key = "k";
}

request_accepted : normalize_run_request "resident" request ≡ ok accepted_request
unfolding normalize_run_request with_defaults default_text default_limit trim_space allowed_scenario
    allowed_work_script allowed_launch_mode limit_in_bounds
request_accepted = refl

run_request_checked_example :
    (allowed_scenario "cloud-burst" ≡ true)
    × (allowed_work_script "cloud-burst" ≡ true)
    × (allowed_launch_mode "auto" ≡ true)
    × (limit_in_bounds (ℤ.pos 120) ≡ true)
    × (normalize_run_request "spawn" (record accepted_request { idempotency_key = " k " })
        ≡ ok accepted_request)
run_request_checked_example =
    run_request_checked "resident" "spawn" request accepted_request request_accepted

abbrev stop_intent : PublicationIntent
stop_intent = new_publication_intent (stopped_event first_run 20) 20

abbrev store_with_intent : Store
store_with_intent = put_intent "RUN-1" stop_intent one_run

abbrev done : Error
done = Error.message "context canceled"

dispatch_saves_once_example :
    let u = dispatch_intent (memory_event_log none true) 21 stop_intent store_with_intent in
    let v = dispatch_intent (memory_event_log (some done) true) 21 stop_intent store_with_intent in
    ((u.0 ≡ [])
      × (slice "RUN-1" u.1.events_by_run
          ≡ slice "RUN-1" store_with_intent.events_by_run ++ stopped_event first_run 20 ∷ [])
      × (lookup stop_intent.intent_id (inner "RUN-1" u.1.intents_by_run)
          ≡ some (after_publish 21 stop_intent)))
    × ((v.0 ≡ Error.wrapped "publish intent %s" done ∷ [])
        × (v.1.events_by_run ≡ store_with_intent.events_by_run)
        × (lookup stop_intent.intent_id (inner "RUN-1" v.1.intents_by_run)
            ≡ some (after_failure 21 done stop_intent)))
unfolding new_publication_intent put_intent stopped_event find_intent lookup insert inner has
    publication_intent_id lifecycle_text
dispatch_saves_once_example =
    dispatch_saves_once 21 done stop_intent store_with_intent refl refl refl

abbrev frame : TelemetryFrame
frame = record {
  schema_version = "simops.telemetry.v1";
  run_id = "RUN-1";
  scenario_id = "scheduler-drift";
  worker_id = "scheduler-01";
  worker_kind = "scheduler";
  sequence = 1;
  emitted_at = "2024-01-01T00:00:00Z";
  received_at = "";
  payload_type = "queue";
  stream_quality = "";
  payload = "{}";
}

frame_answer :
    (ingest
      (memory_event_log none true)
      (λ f. f.payload)
      30
      "RUN-1"
      "t"
      (ok (frame ∷ []))
      one_run).0
    ≡ Answer.answered 1
unfolding ingest ingest_frames ingest_frame get_record_for_ingest get_record_for_write count_frames
    get_run matches_run_id lookup insert inner slice has memory_event_log memory_publish save_event
    update_worker_frames find_worker put_worker validate_telemetry_frame trim_space allowed_worker
    add_workers
frame_answer = refl

ingest_checked_example :
    (run : RunRecord) × (fs : List TelemetryFrame) × (ok (frame ∷ []) ≡ ok fs)
    × (lookup "RUN-1" one_run.runs ≡ some run)
    × (matches_run_id "RUN-1" ≡ true)
    × (accepts_ingest run.lifecycle ≡ true)
    × ("t" ≡ run.ingest_token)
    × (("t" == "") ≡ false)
    × (is_empty fs ≡ false)
    × All (IsValidFrame run) fs
    × (1 ≡ length fs)
ingest_checked_example =
    ingest_checked (memory_event_log none true) (λ f. f.payload) 30 "RUN-1" "t" (ok (frame ∷ []))
      one_run 1 frame_answer
