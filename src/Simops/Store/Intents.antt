-- ===== src/Simops/Store/Intents.antt =====
-- simops_store.go: the outbox of publication intents, and the events that were published.
use Prim.Native.String.{◌++◌ as ◌<>◌}
use radiant_prj.Common.{
  ◌+◌, String, ◌==◌, Bool, false, ◌&&◌, ◌||◌, Option, none, some, List, [], ◌∷◌, ◌++◌, ◌==ℕ◌,
  if◌then◌else◌,
}
use radiant_prj.Common.Error.{Error, Result, ok, err, ◌>>=◌, ◌>>◌, guard, error_text}
use radiant_prj.Common.Dict.{Dict, lookup, insert, values, has, inner, slice}
use radiant_prj.Simops.Types.{
  Time, Lifecycle, lifecycle_text, RunRecord, Event, PublicationState, PublicationIntent,
}
use radiant_prj.Simops.Store.{Store, get_run, with_lifecycle}

unfoldable pub publication_intent_id : Event → String
publication_intent_id e = e.run_id <> "|" <> e.event_type <> "|" <> lifecycle_text e.lifecycle

unfoldable pub new_publication_intent : Event → Time → PublicationIntent
new_publication_intent e now = record {
  intent_id = publication_intent_id e;
  run_id = e.run_id;
  event = e;
  state = PublicationState.pending;
  attempts = 0;
  last_error = "";
  created_at = now;
  updated_at = now;
  published_at = none;
}

unfoldable pub event_already_saved : List Event → Event → Bool
event_already_saved [] e = false
event_already_saved (x ∷ xs) e =
    (publication_intent_id x == publication_intent_id e && x.worker_id == e.worker_id)
    || event_already_saved xs e

-- The run and the time default to those of the call.
complete_event : String → Time → Event → Event
complete_event run_id now e = record e {
  run_id = if e.run_id == "" then run_id else e.run_id;
  occurred_at = if e.occurred_at ==ℕ 0 then now else e.occurred_at;
}

-- `s.intentsByRun[runID][intentID] = intent`
unfoldable pub put_intent : String → PublicationIntent → Store → Store
put_intent run_id i s = record s {
  intents_by_run =
      insert run_id (insert i.intent_id i (inner run_id s.intents_by_run)) s.intents_by_run;
}

-- An intent with the same identifier is kept and returned.
keep_or_put : String → PublicationIntent → Store → PublicationIntent × Store
unfolding put_intent
keep_or_put run_id i s = elim (lookup i.intent_id (inner run_id s.intents_by_run)) [
  | some existing ↦ (existing, s)
  | none ↦ (i, put_intent run_id i s)
]

unfoldable pub update_run_lifecycle_with_publication_intent :
    String → Lifecycle → Event → Time → Store → Result (RunRecord × PublicationIntent × Store)
unfolding complete_event keep_or_put
update_run_lifecycle_with_publication_intent run_id lifecycle e now s = do
  r ← get_run run_id s
  let r' = with_lifecycle lifecycle now r
  let s' = record s { runs = insert run_id r' s.runs }
  let i = new_publication_intent (complete_event run_id now e) now
  ok (r', (keep_or_put run_id i s').0, (keep_or_put run_id i s').1)

unfoldable pub list_publication_intents : String → Store → Result (List PublicationIntent)
list_publication_intents run_id s = do
  guard (has run_id s.runs) Error.run_not_found
  ok (values (inner run_id s.intents_by_run))

-- The first run whose outbox has the intent.
unfoldable pub find_intent :
    String → Dict (Dict PublicationIntent) → Option (String × PublicationIntent)
find_intent id [] = none
find_intent id ((run_id, d) ∷ m) = elim (lookup id d) [
  | some i ↦ some (run_id, i)
  | none ↦ find_intent id m
]

unfoldable pub save_once : Event → List Event → List Event
unfolding event_already_saved
save_once e es = if event_already_saved es e then es else es ++ e ∷ []

unfoldable pub mark_publication_intent_published : String → Event → Time → Store → Result Store
unfolding save_once
mark_publication_intent_published id e now s = elim (find_intent id s.intents_by_run) [
  | none ↦ err Error.run_not_found
  | some (run_id, i) ↦ ok (record s {
    intents_by_run =
        insert run_id
          (insert id
            (record i {
              state = PublicationState.published;
              last_error = "";
              updated_at = now;
              published_at = some now;
            })
            (inner run_id s.intents_by_run))
          s.intents_by_run;
    events_by_run = insert run_id (save_once e (slice run_id s.events_by_run)) s.events_by_run;
  })
]

-- The error that the caller passes is never nil.
unfoldable pub mark_publication_intent_failed : String → Error → Time → Store → Result Store
mark_publication_intent_failed id e now s = elim (find_intent id s.intents_by_run) [
  | none ↦ err Error.run_not_found
  | some (run_id, i) ↦ ok (record s {
    intents_by_run =
        insert run_id
          (insert id
            (record i {
              state = PublicationState.failed;
              attempts = i.attempts + 1;
              last_error = error_text e;
              updated_at = now;
            })
            (inner run_id s.intents_by_run))
          s.intents_by_run;
  })
]

unfoldable pub save_event : Event → Store → Result Store
save_event e s = do
  guard (has e.run_id s.runs) Error.run_not_found
  ok (record s {
    events_by_run = insert e.run_id (slice e.run_id s.events_by_run ++ e ∷ []) s.events_by_run;
  })

unfoldable pub list_events : String → Store → Result (List Event)
list_events run_id s = do
  guard (has run_id s.runs) Error.run_not_found
  ok (slice run_id s.events_by_run)
