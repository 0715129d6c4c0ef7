-- ===== src/Simops/Outbox/Once.antt =====
-- A published event stands once in the store.
use radiant_prj.Common.Error.{Error, error_text}
use radiant_prj.Common.{
  Bool, none, ◌+◌, ◌≡◌, true, false, some, List, [], ◌∷◌, ◌++◌, arith, eq_refl,
}
use radiant_prj.Common.Dict.{
  lookup, insert, has, inner, slice, lookup-insert_self, slice-insert_self, inner-insert_self,
}
use radiant_prj.Simops.Types.{Time, Event, PublicationState, PublicationIntent}
use radiant_prj.Simops.Store.{Store}
use radiant_prj.Simops.Store.Intents.{
  find_intent, mark_publication_intent_published, mark_publication_intent_failed, save_event,
  save_once, event_already_saved, publication_intent_id,
}
use radiant_prj.Simops.Runtime.{memory_publish, memory_event_log}
use radiant_prj.Simops.Outbox.{dispatch_intent, settle_intent, is_published}

saved_append : (es : List Event) (e : Event) → event_already_saved (es ++ e ∷ []) e ≡ true
unfolding event_already_saved
saved_append [] e = ground (arith, eq_refl (publication_intent_id e), eq_refl e.worker_id)
saved_append (x ∷ es) e = ground (arith, saved_append es e)

-- The intent as it is stored after a dispatch.
abbrev pub after_publish : Time → PublicationIntent → PublicationIntent
after_publish now i = record i {
  state = PublicationState.published;
  last_error = "";
  updated_at = now;
  published_at = some now;
}

abbrev pub after_failure : Time → Error → PublicationIntent → PublicationIntent
after_failure now e i = record i {
  state = PublicationState.failed;
  attempts = i.attempts + 1;
  last_error = error_text e;
  updated_at = now;
}

delivered_once :
    (now : Time) (i : PublicationIntent) (s : Store)
    → find_intent i.intent_id s.intents_by_run ≡ some (i.event.run_id, i)
    → has i.event.run_id s.runs ≡ true
    → is_published i.state ≡ false
    → let u = dispatch_intent (memory_event_log none true) now i s in
      (u.0 ≡ [])
      × (slice i.event.run_id u.1.events_by_run
          ≡ slice i.event.run_id s.events_by_run ++ i.event ∷ [])
      × (lookup i.intent_id (inner i.event.run_id u.1.intents_by_run) ≡ some (after_publish now i))
unfolding dispatch_intent settle_intent memory_event_log memory_publish save_event
    mark_publication_intent_published save_once
delivered_once now i s f h p =
    let run_id = i.event.run_id in
    let es = slice run_id s.events_by_run in
    let m = insert run_id (es ++ i.event ∷ []) s.events_by_run in
    let i' = after_publish now i in
    let is = inner run_id s.intents_by_run in
    let saved = saved_append es i.event in
    let a = slice-insert_self run_id (es ++ i.event ∷ []) s.events_by_run in
    let b = slice-insert_self run_id (es ++ i.event ∷ []) m in
    let c = inner-insert_self run_id (insert i.intent_id i' is) s.intents_by_run in
    let d = lookup-insert_self i.intent_id i' is in (ground arith, ground arith, ground arith)

refused_counted :
    (now : Time) (e : Error) (has_store : Bool) (i : PublicationIntent) (s : Store)
    → find_intent i.intent_id s.intents_by_run ≡ some (i.event.run_id, i)
    → is_published i.state ≡ false
    → let u = dispatch_intent (memory_event_log (some e) has_store) now i s in
      (u.0 ≡ Error.wrapped "publish intent %s" e ∷ [])
      × (u.1.events_by_run ≡ s.events_by_run)
      × (lookup i.intent_id (inner i.event.run_id u.1.intents_by_run)
          ≡ some (after_failure now e i))
unfolding dispatch_intent settle_intent memory_event_log memory_publish
    mark_publication_intent_failed
refused_counted now e has_store i s f p =
    let run_id = i.event.run_id in
    let i' = after_failure now e i in
    let is = inner run_id s.intents_by_run in
    let c = inner-insert_self run_id (insert i.intent_id i' is) s.intents_by_run in
    let d = lookup-insert_self i.intent_id i' is in (ground arith, ground arith, ground arith)

-- An intent that is not yet published, and that its identifier finds in the outbox of its event's
-- run, which the store has, is dispatched to the log that writes to the store. If the context is not
-- done, there is no error, the event stands behind the saved events of the run once more, and the
-- intent is published with the failures that it had counted. If the context is done with an error, the
-- dispatch has this error, no event is saved, and the intent is failed with one more failure counted.
pub dispatch_saves_once :
    (now : Time) (e : Error) (i : PublicationIntent) (s : Store)
    → find_intent i.intent_id s.intents_by_run ≡ some (i.event.run_id, i)
    → has i.event.run_id s.runs ≡ true
    → is_published i.state ≡ false
    → let u = dispatch_intent (memory_event_log none true) now i s in
      let v = dispatch_intent (memory_event_log (some e) true) now i s in
      ((u.0 ≡ [])
        × (slice i.event.run_id u.1.events_by_run
            ≡ slice i.event.run_id s.events_by_run ++ i.event ∷ [])
        × (lookup i.intent_id (inner i.event.run_id u.1.intents_by_run)
            ≡ some (after_publish now i)))
      × ((v.0 ≡ Error.wrapped "publish intent %s" e ∷ [])
          × (v.1.events_by_run ≡ s.events_by_run)
          × (lookup i.intent_id (inner i.event.run_id v.1.intents_by_run)
              ≡ some (after_failure now e i)))
dispatch_saves_once now e i s f h p =
    (delivered_once now i s f h p, refused_counted now e true i s f p)
