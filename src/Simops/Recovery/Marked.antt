-- ===== src/Simops/Recovery/Marked.antt =====
-- A failed start leaves the run failed.
use radiant_prj.Common.{
  ℕ, String, ◌≡◌, refl, inl, inr, Bool, Option, some, List, [], ◌∷◌, arith, ap, ◌∙◌, Option-cases,
}
use radiant_prj.Common.Error.{Error, Result, ok, err, Result-cases}
use radiant_prj.Common.Dict.{lookup, lookup-insert_self}
use radiant_prj.Simops.Types.{
  Time, Lifecycle, RunPhase, RunRecord, WorkerRecord, SpoolCommand, ArtifactRecord, Event,
}
use radiant_prj.Simops.Connection.{Profile}
use radiant_prj.Simops.State.{ensure_run_state}
use radiant_prj.Simops.Store.{Store, save_launch, update_run_lifecycle, get_run, with_lifecycle}
use radiant_prj.Simops.Store.Observe.{update_worker_frames, put_worker, find_worker}
use radiant_prj.Simops.Store.Records.{list_artifacts, update_artifact_status}
use radiant_prj.Simops.Store.Intents.{save_event}
use radiant_prj.Simops.Runtime.{EventLog, World, memory_publish, memory_event_log, record_call}
use radiant_prj.Simops.Recovery.{
  Recovery, attempt, persist_lifecycles, persist_failed_run, fail_artifacts, dispose_artifacts,
  publish_failure, record_failure, fail, Policy, Stage, compensate, compensate_built,
  compensate_profiles, is_none, lifecycle_failure_event,
}
use radiant_prj.Simops.LaunchCheck.{failed_worker_outcomes, failed_command_outcomes}

-- Publish leaves the runs as they are.
abbrev pub KeepsRuns : EventLog → Type 0
KeepsRuns log = (e : Event) (s : Store) → (log.publish e s).1.runs ≡ s.runs

pub memory_event_log-KeepsRuns :
    (context_error : Option Error) (has_store : Bool)
    → KeepsRuns (memory_event_log context_error has_store)
unfolding memory_event_log memory_publish save_event
memory_event_log-KeepsRuns context_error has_store e s = ground arith

-- An attempt at an operation that leaves the runs leaves them.
attempt_runs :
    (text : String) (f : Store → Result Store) (r : Recovery)
    → ((s : Store) → f r.store ≡ ok s → s.runs ≡ r.store.runs)
    → (attempt text f r).store.runs ≡ r.store.runs
unfolding attempt
attempt_runs text f r h = elim (Result-cases (f r.store)) [
  | inl (e, x) ↦ ground arith
  | inr (s, x) ↦ let k = h s x in ground arith
]

save_launch_runs :
    (run_id : String) (ws : List WorkerRecord) (cs : List SpoolCommand) (s s' : Store)
    → save_launch run_id ws cs s ≡ ok s'
    → s'.runs ≡ s.runs
unfolding save_launch
save_launch_runs run_id ws cs s s' h = ground arith

frames_runs :
    (run_id worker_id : String) (l : Lifecycle) (n : ℕ) (now : Time) (s s' : Store)
    → update_worker_frames run_id worker_id l n now s ≡ ok s'
    → s'.runs ≡ s.runs
unfolding update_worker_frames put_worker find_worker
frames_runs run_id worker_id l n now s s' h = ground arith

status_runs :
    (run_id artifact_id status : String) (s s' : Store)
    → update_artifact_status run_id artifact_id status s ≡ ok s'
    → s'.runs ≡ s.runs
unfolding update_artifact_status
status_runs run_id artifact_id status s s' h = ground arith

event_runs : (e : Event) (s s' : Store) → save_event e s ≡ ok s' → s'.runs ≡ s.runs
unfolding save_event
event_runs e s s' h = ground arith

lifecycles_runs :
    (run_id : String) (now : Time) (ws : List WorkerRecord) (r : Recovery)
    → (persist_lifecycles run_id now ws r).store.runs ≡ r.store.runs
unfolding persist_lifecycles
lifecycles_runs run_id now [] r = refl
lifecycles_runs run_id now (w ∷ ws) r =
    lifecycles_runs run_id now ws _
    ∙ attempt_runs _ (update_worker_frames run_id w.worker_id w.lifecycle 0 now) r
        (frames_runs run_id w.worker_id w.lifecycle 0 now r.store)

artifacts_runs :
    (run_id : String) (l : List ArtifactRecord) (r : Recovery)
    → (fail_artifacts run_id l r).store.runs ≡ r.store.runs
unfolding fail_artifacts
artifacts_runs run_id [] r = refl
artifacts_runs run_id (a ∷ l) r =
    artifacts_runs run_id l _
    ∙ attempt_runs _ (update_artifact_status run_id a.artifact_id "failed") r
        (status_runs run_id a.artifact_id "failed" r.store)

dispose_runs :
    (run_id : String) (r : Recovery) → (dispose_artifacts run_id r).store.runs ≡ r.store.runs
unfolding dispose_artifacts
dispose_runs run_id r = elim (Result-cases (list_artifacts run_id r.store)) [
  | inl (e, x) ↦ ground arith
  | inr (l, x) ↦ let k = artifacts_runs run_id l r in ground arith
]

publish_runs :
    (log : EventLog) (e : Event) (r : Recovery)
    → KeepsRuns log
    → (publish_failure log e r).store.runs ≡ r.store.runs
unfolding publish_failure
publish_runs log e r k =
    let s = (log.publish e r.store).1 in
    let same = k e r.store in
    let saved =
      attempt_runs "persist lifecycle failure event" (save_event e) (record r { store = s })
        (event_runs e s) in
    elim (Option-cases (log.publish e r.store).0) [
      | inl x ↦ ground arith
      | inr (err', x) ↦ ground arith
    ]

persist_marks :
    (run stored : RunRecord) (now : Time) (r : Recovery)
    → lookup run.run_id r.store.runs ≡ some stored
    → ((persist_failed_run run now r).0 ≡ with_lifecycle Lifecycle.failed now stored)
      × (lookup run.run_id (persist_failed_run run now r).1.store.runs
          ≡ some (with_lifecycle Lifecycle.failed now stored))
unfolding persist_failed_run update_run_lifecycle get_run
persist_marks run stored now r h =
    let self =
      lookup-insert_self run.run_id (with_lifecycle Lifecycle.failed now stored) r.store.runs in
    (ground arith, ground arith)

record_failure_marks :
    (log : EventLog) (event : String → Event) (run stored : RunRecord) (ws : List WorkerRecord)
    (cs : List SpoolCommand) (now : Time) (s : Store)
    → KeepsRuns log
    → lookup run.run_id s.runs ≡ some stored
    → ((record_failure log event run ws cs now s).0 ≡ with_lifecycle Lifecycle.failed now stored)
      × (lookup run.run_id (record_failure log event run ws cs now s).1.store.runs
          ≡ some (with_lifecycle Lifecycle.failed now stored))
unfolding record_failure
record_failure_marks log event run stored ws cs now s k h =
    let r0 : Recovery = record { store = s; errors = [] } in
    let r1 = attempt "persist worker outcomes" (save_launch run.run_id ws cs) r0 in
    let r2 = persist_lifecycles run.run_id now ws r1 in
    let kept =
      lifecycles_runs run.run_id now ws r1
      ∙ attempt_runs "persist worker outcomes" (save_launch run.run_id ws cs) r0
          (save_launch_runs run.run_id ws cs s) in
    let found : lookup run.run_id r2.store.runs ≡ some stored = ap (lookup run.run_id) kept ∙ h in
    let (a, b) = persist_marks run stored now r2 found in
    let run' = (persist_failed_run run now r2).0 in
    let r3 = (persist_failed_run run now r2).1 in
    let later =
      publish_runs log (event run'.run_id) (dispose_artifacts run'.run_id r3) k
      ∙ dispose_runs run'.run_id r3 in
    (a, ap (lookup run.run_id) later ∙ b)

built_store :
    (p : Policy) (run : RunRecord) (ps : Result (List Profile)) (w : World)
    → (compensate_built p run ps w).1.store ≡ w.store
unfolding compensate_built compensate_profiles record_call
built_store p run (err e) w = refl
built_store p run (ok ps) w = ground arith

compensate_store :
    (p : Policy) (run : RunRecord) (ws : List WorkerRecord) (w : World)
    → (compensate p run ws w).1.store ≡ w.store
unfolding compensate
compensate_store p run ws w = built_store p run _ w

-- If the store has the run and the event log leaves the runs, then the failure path of a start, at any
-- stage, answers with the stored run in the lifecycle and the phase `failed`, and this is what the
-- store has for it then, whatever the compensation answered.
pub fail_marks_run :
    (p : Policy) (now : Time) (run stored : RunRecord) (planned launched : List WorkerRecord)
    (cs : List SpoolCommand) (stage : Stage) (cause : Error) (w : World)
    → KeepsRuns p.event_log
    → lookup run.run_id w.store.runs ≡ some stored
    → ((fail p now run planned launched cs stage cause w).0
        ≡ with_lifecycle Lifecycle.failed now stored)
      × (lookup run.run_id (fail p now run planned launched cs stage cause w).2.store.runs
          ≡ some (with_lifecycle Lifecycle.failed now stored))
      × ((with_lifecycle Lifecycle.failed now stored).state.phase ≡ RunPhase.failed)
unfolding fail with_lifecycle ensure_run_state
fail_marks_run p now run stored planned launched cs stage cause w k h =
    let same = compensate_store p run planned w in
    let w1 = (compensate p run planned w).1 in
    let compensation_error = (compensate p run planned w).0 in
    let compensated = is_none compensation_error in
    let (a, b) =
      record_failure_marks p.event_log
        (λ id. lifecycle_failure_event p.marshal id stage cause compensation_error now) run stored
        (failed_worker_outcomes planned launched compensated now)
        (failed_command_outcomes cs launched compensated now) now w1.store k
        (ap (λ s. lookup run.run_id s.runs) same ∙ h) in
    (a, b, refl)
