-- ===== src/Simops/Changes/Same.antt =====
-- The calls that leave the runs and the keys of their requests alone.
use radiant_prj.Common.{ℕ, String, ◌≡◌, Bool, List, arith}
use radiant_prj.Common.Error.{Error, ok}
use radiant_prj.Simops.Types.{
  Time, Lifecycle, WorkerRecord, SpoolCommand, ArtifactRecord, Event, DeliveryAttempt,
  DeliveryAttemptRequest, VerifiedDeliveryEvidence,
}
use radiant_prj.Simops.Store.{Store, save_launch}
use radiant_prj.Simops.Store.Observe.{put_worker, update_worker_frames}
use radiant_prj.Simops.Store.Intents.{
  mark_publication_intent_published, mark_publication_intent_failed, save_event,
}
use radiant_prj.Simops.Store.Records.{
  save_artifact, update_artifact_status, create_delivery_attempt, prepare_delivery_attempt,
  resolve_delivery_attempt, mark_delivery_attempt_unknown,
}

-- The runs and the keys of their requests are untouched.
pub record SameRuns (s u : Store) : Type 0 where
  pub runs : u.runs ≡ s.runs
  pub idempotency : u.idempotency ≡ s.idempotency

pub same-launch :
    (id : String) (ws : List WorkerRecord) (cs : List SpoolCommand) (s u : Store)
    → save_launch id ws cs s ≡ ok u
    → SameRuns s u
unfolding save_launch
same-launch id ws cs s u h = ground arith

pub same-count :
    (id worker_id : String) (l : Lifecycle) (n : ℕ) (now : Time) (s u : Store)
    → update_worker_frames id worker_id l n now s ≡ ok u
    → SameRuns s u
unfolding update_worker_frames put_worker
same-count id worker_id l n now s u h = ground arith

pub same-plan : (a : ArtifactRecord) (s u : Store) → save_artifact a s ≡ ok u → SameRuns s u
unfolding save_artifact
same-plan a s u h = ground arith

pub same-mark :
    (id artifact_id status : String) (s u : Store)
    → update_artifact_status id artifact_id status s ≡ ok u
    → SameRuns s u
unfolding update_artifact_status
same-mark id artifact_id status s u h = ground arith

pub same-log : (e : Event) (s u : Store) → save_event e s ≡ ok u → SameRuns s u
unfolding save_event
same-log e s u h = ground arith

pub same-publish :
    (id : String) (e : Event) (now : Time) (s u : Store)
    → mark_publication_intent_published id e now s ≡ ok u
    → SameRuns s u
unfolding mark_publication_intent_published
same-publish id e now s u h = ground arith

pub same-not_publish :
    (id : String) (e : Error) (now : Time) (s u : Store)
    → mark_publication_intent_failed id e now s ≡ ok u
    → SameRuns s u
unfolding mark_publication_intent_failed
same-not_publish id e now s u h = ground arith

pub same-prepare :
    (id location : String) (now : Time) (s u : Store)
    → prepare_delivery_attempt id location now s ≡ ok u
    → SameRuns s u
unfolding prepare_delivery_attempt
same-prepare id location now s u h = ground arith

pub same-resolve :
    (id : String) (e : VerifiedDeliveryEvidence) (now : Time) (s u : Store)
    → resolve_delivery_attempt id e now s ≡ ok u
    → SameRuns s u
unfolding resolve_delivery_attempt
same-resolve id e now s u h = ground arith

pub same-unresolve :
    (id reason : String) (now : Time) (s u : Store)
    → mark_delivery_attempt_unknown id reason now s ≡ ok u
    → SameRuns s u
unfolding mark_delivery_attempt_unknown
same-unresolve id reason now s u h = ground arith

pub same-attempt :
    (digest : String → String) (q : DeliveryAttemptRequest) (now : Time) (a : DeliveryAttempt)
    (is_new : Bool) (s u : Store)
    → create_delivery_attempt digest q now s ≡ ok (a, is_new, u)
    → SameRuns s u
unfolding create_delivery_attempt
same-attempt digest q now a is_new s u h = ground arith
