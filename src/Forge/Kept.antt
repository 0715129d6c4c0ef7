-- ===== src/Forge/Kept.antt =====
-- A property of the store that every save of a record under one key keeps is kept by the methods of
-- ArtifactForgeManager that work on a record with that key.
use radiant_prj.Common.{
  String, ◌≡◌, Bool, true, false, ◌||◌, ◌==◌, inl, inr, Option-cases, Bool-cases,
}
use radiant_prj.Common.Error.{Error, Result, ok, err, Result-cases}
use radiant_prj.Simops.Types.{Time, Lifecycle, RunRecord}
use radiant_prj.Simops.Store.{get_run, get_run_by_idempotency}
use radiant_prj.Simops.Ingest.{Answer}
use radiant_prj.Forge.Types.{Evidence, ForgeRecord}
use radiant_prj.Forge.Store.{ForgeStore, save_request}
use radiant_prj.Forge.Rules.{has_outcome, is_rejected}
use radiant_prj.Forge.Judgment.{Judgment, judge}
use radiant_prj.Forge.Manager.{
  ForgeManager, ForgeWorld, ForgeAnswer, is_result_artifact_not_found, save_answer, record_decision,
  apply_judgment, apply_evidence, read_eligibility, evaluate_run, evaluate,
}
use radiant_prj.Forge.Association.{
  associated, save_retryable, launch_retryable, with_created, settle_association, associate_run,
  resume, simops_identity,
}
use radiant_prj.Forge.Intake.{opened, accepted_record, accept_request}

module _ (P : ForgeStore → Type 0) (session idempotency : String)
    (closed : (r : ForgeRecord) (s s' : ForgeStore)
      → (r.game_session_id ≡ session) × (r.idempotency_key ≡ idempotency)
      → P s
      → save_request r s ≡ ok s'
      → P s') where
  abbrev pub Holds : ForgeWorld → Type 0
  Holds w = P w.store

  abbrev pub IsKeyed : ForgeRecord → Type 0
  IsKeyed r = (r.game_session_id ≡ session) × (r.idempotency_key ≡ idempotency)

  pub save_answer-Holds :
      (r : ForgeRecord) (c : Bool) (w : ForgeWorld)
      → IsKeyed r
      → Holds w
      → Holds (save_answer r c w).1
  unfolding save_answer
  save_answer-Holds r c w k h = elim (Result-cases (save_request r w.store)) [
    | inl (e, p) ↦ rw (save_answer, p) h
    | inr (s, p) ↦ rw (save_answer, p) (closed r w.store s k h p)
  ]

  judged-Holds :
      (m : ForgeManager) (now : Time) (r : ForgeRecord) (j : Judgment) (w : ForgeWorld)
      → IsKeyed r
      → Holds w
      → Holds (apply_judgment m now r j w).1
  unfolding apply_judgment record_decision
  judged-Holds m now r (Judgment.refused d text a l) w k h = save_answer-Holds _ false w k h
  judged-Holds m now r (Judgment.eligible a v l) w k h = save_answer-Holds _ false w k h

  evidence-Holds :
      (m : ForgeManager) (now : Time) (r : ForgeRecord) (x : Result Evidence) (w : ForgeWorld)
      → IsKeyed r
      → Holds w
      → Holds (apply_evidence m now r x w).1
  unfolding apply_evidence record_decision
  evidence-Holds m now r (ok x) w k h = judged-Holds m now r (judge r x) w k h
  evidence-Holds m now r (err e) w k h = elim (Bool-cases (is_result_artifact_not_found e)) [
    | inl p ↦ rw p (save_answer-Holds _ false w k h)
    | inr p ↦ rw p h
  ]

  run-Holds :
      (m : ForgeManager) (now : Time) (r : ForgeRecord) (run : RunRecord) (l : Lifecycle)
      (w : ForgeWorld)
      → IsKeyed r
      → Holds w
      → Holds (evaluate_run m now r run l w).1
  unfolding evaluate_run record_decision read_eligibility
  run-Holds m now r run Lifecycle.failed w k h = save_answer-Holds _ false w k h
  run-Holds m now r run Lifecycle.stopped w k h = save_answer-Holds _ false w k h
  run-Holds m now r run Lifecycle.complete w k h = elim (Option-cases m.eligibility) [
    | inl p ↦ rw p h
    | inr (read, p) ↦ rw p (evidence-Holds m now r (read run) w k h)
  ]
  run-Holds m now r run _ w k h = save_answer-Holds _ false w k h

  evaluate-Holds :
      (m : ForgeManager) (now : Time) (r : ForgeRecord) (w : ForgeWorld)
      → IsKeyed r
      → Holds w
      → Holds (evaluate m now r w).1
  unfolding evaluate
  evaluate-Holds m now r w k h = elim (Result-cases (get_run r.run_id w.simops.store)) [
    | inl (e, p) ↦ rw (evaluate, p) h
    | inr (run, p) ↦ rw (evaluate, p) (run-Holds m now r run run.lifecycle w k h)
  ]

  retryable-Holds :
      (m : ForgeManager) (now : Time) (r : ForgeRecord) (e : Error) (c : Bool) (w : ForgeWorld)
      → IsKeyed r
      → Holds w
      → Holds (save_retryable m now r e c w).1
  unfolding save_retryable
  retryable-Holds m now r e c w k h =
      elim (Result-cases (save_request (launch_retryable m now r) w.store)) [
        | inl (_, p) ↦ rw (save_retryable, p) h
        | inr (s, p) ↦ rw (save_retryable, p) (closed _ w.store s k h p)
      ]

  with_created-Holds : (c : Bool) (x : ForgeAnswer) → Holds x.1 → Holds (with_created c x).1
  unfolding with_created
  with_created-Holds c (ok (r, _), w) h = h
  with_created-Holds c (err e, w) h = h

  settled-Holds :
      (m : ForgeManager) (now : Time) (r : ForgeRecord) (c : Bool)
      (answer : Answer (RunRecord × Bool)) (w : ForgeWorld)
      → IsKeyed r
      → Holds w
      → Holds (settle_association m now r c answer w).1
  unfolding settle_association
  settled-Holds m now r c (Answer.answered (run, _)) w k h = save_answer-Holds _ c w k h
  settled-Holds m now r c (Answer.refused status e) w k h =
      elim (Result-cases (get_run_by_idempotency (simops_identity r) r.request_id w.simops.store)) [
        | inl (_, p) ↦ rw (settle_association, p) (retryable-Holds m now r e c w k h)
        | inr (run, p) ↦
            let r' = associated m now r run.run_id in
            elim (Result-cases (save_request r' w.store)) [
              | inl (_, q) ↦ rw (settle_association, p, q) h
              | inr (s, q) ↦
                  rw (settle_association, p, q)
                    (with_created-Holds c _
                      (evaluate-Holds m now r' _ k (closed r' w.store s k h q)))
            ]
      ]

  pub associate-Holds :
      (m : ForgeManager) (now : Time) (id token : String) (r : ForgeRecord) (c : Bool)
      (w : ForgeWorld)
      → IsKeyed r
      → Holds w
      → Holds (associate_run m now id token r c w).1
  unfolding associate_run
  associate-Holds m now id token r c w k h = settled-Holds m now r c _ _ k h

  pub resume-Holds :
      (m : ForgeManager) (now : Time) (id token : String) (r : ForgeRecord) (c : Bool)
      (w : ForgeWorld)
      → IsKeyed r
      → Holds w
      → Holds (resume m now id token r c w).1
  unfolding resume
  resume-Holds m now id token r c w k h =
      elim (Bool-cases (has_outcome r.outcome || is_rejected r.decision)) [
        | inl p ↦ rw p h
        | inr p ↦ elim (Bool-cases (r.run_id == "")) [
          | inl q ↦ rw (p, q) (associate-Holds m now id token r c w k h)
          | inr q ↦ rw (p, q) (evaluate-Holds m now r w k h)
        ]
      ]

  pub accept-Holds :
      (m : ForgeManager) (now : Time) (id token : String) (r : ForgeRecord) (w : ForgeWorld)
      → IsKeyed r
      → Holds w
      → Holds (accept_request m now id token r w).1
  unfolding accept_request accepted_record opened
  accept-Holds m now id token r w k h =
      elim (Result-cases (save_request (accepted_record m now r) w.store)) [
        | inl (e, p) ↦ rw (accept_request, p) h
        | inr (s, p) ↦
            rw (accept_request, p)
              (associate-Holds m now id token _ true _ k (closed _ w.store s k h p))
      ]
