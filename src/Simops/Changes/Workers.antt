-- ===== src/Simops/Changes/Workers.antt =====
-- The calls that leave the workers alone.
use radiant_prj.Common.{String, ◌≡◌, Bool, arith}
use radiant_prj.Common.Error.{Error, ok}
use radiant_prj.Simops.Types.{
  Time, Lifecycle, RunRecord, ArtifactRecord, Event, PublicationIntent, DeliveryAttempt,
  DeliveryAttemptRequest, VerifiedDeliveryEvidence,
}
use radiant_prj.Simops.Store.{Store, update_run_lifecycle, get_run}
use radiant_prj.Simops.Store.Intents.{
  update_run_lifecycle_with_publication_intent, mark_publication_intent_published,
  mark_publication_intent_failed, save_event,
}
use radiant_prj.Simops.Store.Records.{
  save_artifact, update_artifact_status, create_delivery_attempt, prepare_delivery_attempt,
  resolve_delivery_attempt, mark_delivery_attempt_unknown,
}

abbrev pub SameWorkers : Store → Store → Type 0
SameWorkers s u = u.workers_by_run ≡ s.workers_by_run

pub kept-move :
    (id : String) (l : Lifecycle) (now : Time) (r : RunRecord) (s u : Store)
    → update_run_lifecycle id l now s ≡ ok (r, u)
    → SameWorkers s u
unfolding update_run_lifecycle get_run
kept-move id l now r s u h = ground arith

pub kept-move_with_intent :
    (id : String) (l : Lifecycle) (e : Event) (now : Time) (r : RunRecord) (i : PublicationIntent)
    (s u : Store)
    → update_run_lifecycle_with_publication_intent id l e now s ≡ ok (r, i, u)
    → SameWorkers s u
unfolding update_run_lifecycle_with_publication_intent get_run
kept-move_with_intent id l e now r i s u h = ground arith

pub kept-plan : (a : ArtifactRecord) (s u : Store) → save_artifact a s ≡ ok u → SameWorkers s u
unfolding save_artifact
kept-plan a s u h = ground arith

pub kept-mark :
    (id artifact_id status : String) (s u : Store)
    → update_artifact_status id artifact_id status s ≡ ok u
    → SameWorkers s u
unfolding update_artifact_status
kept-mark id artifact_id status s u h = ground arith

pub kept-log : (e : Event) (s u : Store) → save_event e s ≡ ok u → SameWorkers s u
unfolding save_event
kept-log e s u h = ground arith

pub kept-publish :
    (id : String) (e : Event) (now : Time) (s u : Store)
    → mark_publication_intent_published id e now s ≡ ok u
    → SameWorkers s u
unfolding mark_publication_intent_published
kept-publish id e now s u h = ground arith

pub kept-not_publish :
    (id : String) (e : Error) (now : Time) (s u : Store)
    → mark_publication_intent_failed id e now s ≡ ok u
    → SameWorkers s u
unfolding mark_publication_intent_failed
kept-not_publish id e now s u h = ground arith

pub kept-attempt :
    (digest : String → String) (q : DeliveryAttemptRequest) (now : Time) (a : DeliveryAttempt)
    (is_new : Bool) (s u : Store)
    → create_delivery_attempt digest q now s ≡ ok (a, is_new, u)
    → SameWorkers s u
unfolding create_delivery_attempt
kept-attempt digest q now a is_new s u h = ground arith

pub kept-prepare :
    (id location : String) (now : Time) (s u : Store)
    → prepare_delivery_attempt id location now s ≡ ok u
    → SameWorkers s u
unfolding prepare_delivery_attempt
kept-prepare id location now s u h = ground arith

pub kept-resolve :
    (id : String) (e : VerifiedDeliveryEvidence) (now : Time) (s u : Store)
    → resolve_delivery_attempt id e now s ≡ ok u
    → SameWorkers s u
unfolding resolve_delivery_attempt
kept-resolve id e now s u h = ground arith

pub kept-unresolve :
    (id reason : String) (now : Time) (s u : Store)
    → mark_delivery_attempt_unknown id reason now s ≡ ok u
    → SameWorkers s u
unfolding mark_delivery_attempt_unknown
kept-unresolve id reason now s u h = ground arith
