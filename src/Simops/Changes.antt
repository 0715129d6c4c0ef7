-- ===== src/Simops/Changes.antt =====
-- Everything that writes to the store of simops_store.go, as a relation between the store before and
-- after one successful call. A call that fails writes nothing. The proofs are in the modules below.
pub mod Runs
pub mod Same
pub mod Workers
pub mod Failures
pub mod Kept
pub mod Keys
pub mod Replay
use radiant_prj.Common.{String, ◌≡◌, ℕ, Bool, List}
use radiant_prj.Common.Error.{Error, ok}
use radiant_prj.Simops.Types.{
  Time, Lifecycle, ObservedWorkerLifecycle, RunRecord, WorkerRecord, SpoolCommand, ArtifactRecord,
  Event, PublicationIntent, StopTransition, StopOutcome, DeliveryAttempt, DeliveryAttemptRequest,
  VerifiedDeliveryEvidence,
}
use radiant_prj.Simops.Store.{Store, create_run, save_launch, update_run_lifecycle}
use radiant_prj.Simops.Store.Observe.{update_worker_frames, update_worker_observed_lifecycle}
use radiant_prj.Simops.Store.Stop.{apply_stop_transition}
use radiant_prj.Simops.Store.Intents.{
  update_run_lifecycle_with_publication_intent, mark_publication_intent_published,
  mark_publication_intent_failed, save_event,
}
use radiant_prj.Simops.Store.Records.{
  save_artifact, update_artifact_status, create_delivery_attempt, prepare_delivery_attempt,
  resolve_delivery_attempt, mark_delivery_attempt_unknown,
}

pub data Change (s u : Store) : Type 0 where
  created :
      (r r' : RunRecord) (ws : List WorkerRecord) (cs : List SpoolCommand) (is_new : Bool)
      → create_run r ws cs s ≡ ok (r', is_new, u)
      → Change s u
  launched :
      (id : String) (ws : List WorkerRecord) (cs : List SpoolCommand)
      → save_launch id ws cs s ≡ ok u
      → Change s u
  moved :
      (id : String) (l : Lifecycle) (now : Time) (r : RunRecord)
      → update_run_lifecycle id l now s ≡ ok (r, u)
      → Change s u
  moved_with_intent :
      (id : String) (l : Lifecycle) (e : Event) (now : Time) (r : RunRecord) (i : PublicationIntent)
      → update_run_lifecycle_with_publication_intent id l e now s ≡ ok (r, i, u)
      → Change s u
  counted :
      (id worker_id : String) (l : Lifecycle) (n : ℕ) (now : Time)
      → update_worker_frames id worker_id l n now s ≡ ok u
      → Change s u
  observed :
      (o : ObservedWorkerLifecycle) (now : Time)
      → update_worker_observed_lifecycle o now s ≡ ok u
      → Change s u
  stopped :
      (t : StopTransition) (clock : Time) (o : StopOutcome)
      → apply_stop_transition t clock s ≡ ok (o, u)
      → Change s u
  planned : (a : ArtifactRecord) → save_artifact a s ≡ ok u → Change s u
  marked :
      (id artifact_id status : String)
      → update_artifact_status id artifact_id status s ≡ ok u
      → Change s u
  logged : (e : Event) → save_event e s ≡ ok u → Change s u
  published :
      (id : String) (e : Event) (now : Time)
      → mark_publication_intent_published id e now s ≡ ok u
      → Change s u
  not_published :
      (id : String) (e : Error) (now : Time)
      → mark_publication_intent_failed id e now s ≡ ok u
      → Change s u
  attempted :
      (digest : String → String) (q : DeliveryAttemptRequest) (now : Time) (a : DeliveryAttempt)
      (is_new : Bool)
      → create_delivery_attempt digest q now s ≡ ok (a, is_new, u)
      → Change s u
  prepared :
      (id location : String) (now : Time)
      → prepare_delivery_attempt id location now s ≡ ok u
      → Change s u
  resolved :
      (id : String) (e : VerifiedDeliveryEvidence) (now : Time)
      → resolve_delivery_attempt id e now s ≡ ok u
      → Change s u
  unresolved :
      (id reason : String) (now : Time)
      → mark_delivery_attempt_unknown id reason now s ≡ ok u
      → Change s u

pub data Reach (s : Store) : Store → Type 0 where
  here : Reach s s
  next : {t u : Store} → Reach s t → Change t u → Reach s u
