-- ===== src/Forge/History.antt =====
-- What the Artifact Forge and the run control may do to a forge's world, as a step relation, and the
-- outcomes that the steps keep.
use radiant_prj.Common.{
  String, ◌≡◌, refl, true, false, not, ◌||◌, ◌==◌, Option, inl, inr, Bool-cases, none, some,
}
use radiant_prj.Common.Error.{Error, ok, Result-cases}
use radiant_prj.Common.Text.{trim_space, matches_run_id}
use radiant_prj.Common.Dict.{lookup}
use radiant_prj.Simops.Types.{Time}
use radiant_prj.Simops.Runtime.{World}
use radiant_prj.Forge.Types.{GameOutcome, ForgeRequest, ForgeRecord, scheduler_drift_recipe}
use radiant_prj.Forge.Store.{ForgeStore, find_request, save_request, is_retention_over}
use radiant_prj.Forge.Store.Outcome.{
  HasOutcome, save-HasOutcome, touch-HasOutcome, prune-HasOutcome,
}
use radiant_prj.Forge.Rules.{normalize_forge_request, validate_forge_identity}
use radiant_prj.Forge.Manager.{ForgeManager, ForgeWorld, is_forge_not_found}
use radiant_prj.Forge.Association.{enforce_caps, resume}
use radiant_prj.Forge.Intake.{
  opened, differs_from, open_request, find_or_open, touched, request_forge, recover,
  reconcile_forge,
}
use radiant_prj.Forge.Kept.{save_answer-Holds, accept-Holds, resume-Holds}

module _ (key : String) (o : GameOutcome) (m : ForgeManager) (now : Time) (id token : String) where
  -- The saves of a record under any key keep the outcome.
  closed :
      (session idempotency : String) (r : ForgeRecord) (s s' : ForgeStore)
      → (r.game_session_id ≡ session) × (r.idempotency_key ≡ idempotency)
      → HasOutcome key o s
      → save_request r s ≡ ok s'
      → HasOutcome key o s'
  closed session idempotency r s s' k h p = save-HasOutcome key o r s h p

  open-Holds :
      (q : ForgeRequest) (r : ForgeRecord) (w : ForgeWorld)
      → HasOutcome key o w.store
      → HasOutcome key o (open_request m now id token q r w).1.store
  unfolding open_request opened
  open-Holds q r w h =
      let c = closed r.game_session_id r.idempotency_key in
      elim (Bool-cases (q.simulation_job_state == "completed")) [
        | inr p ↦ rw p (save_answer-Holds _ _ _ c _ true w (refl, refl) h)
        | inl p ↦ elim (Bool-cases (q.simulation_recipe == scheduler_drift_recipe)) [
          | inr n ↦ rw (p, n) (save_answer-Holds _ _ _ c _ true w (refl, refl) h)
          | inl n ↦ elim (Result-cases (enforce_caps r w.store)) [
            | inl (e, u) ↦ rw (open_request, p, n, u) h
            | inr (_, u) ↦
                rw (open_request, p, n, u) (accept-Holds _ _ _ c m now id token r w (refl, refl) h)
          ]
        ]
      ]

  continue-Holds :
      (r : ForgeRecord) (w : ForgeWorld)
      → HasOutcome key o w.store
      → HasOutcome key o (resume m now id token r false w).1.store
  continue-Holds r w h =
      resume-Holds _ r.game_session_id r.idempotency_key (closed _ _) m now id token r false w
        (refl, refl) h

  find-Holds :
      (q : ForgeRequest) (identity : String) (w : ForgeWorld)
      → HasOutcome key o w.store
      → HasOutcome key o (find_or_open m now id token q identity w).1.store
  unfolding find_or_open
  find-Holds q identity w h =
      elim (Result-cases (find_request q.game_session_id q.idempotency_key w.store)) [
        | inl (e, p) ↦ elim (Bool-cases (is_forge_not_found e)) [
          | inl n ↦ rw (find_or_open, p, n) (open-Holds q _ w h)
          | inr n ↦ rw (find_or_open, p, n) h
        ]
        | inr (r, p) ↦ elim (Bool-cases (differs_from q r)) [
          | inl n ↦ rw (find_or_open, p, n) h
          | inr n ↦ rw (find_or_open, p, n) (continue-Holds r w h)
        ]
      ]

  request-Holds :
      (q : ForgeRequest) (identity : String) (w : ForgeWorld)
      → HasOutcome key o w.store
      → HasOutcome key o (request_forge m now id token q identity w).1.store
  unfolding request_forge touched
  request-Holds raw identity w h =
      let q = normalize_forge_request raw in
      elim (Result-cases (validate_forge_identity q)) [
        | inl (e, p) ↦ rw (request_forge, p) h
        | inr (_, p) ↦
            rw (request_forge, p)
              (find-Holds q identity _ (touch-HasOutcome key o q.game_session_id now w.store h))
      ]

  recover-Holds :
      (session idempotency : String) (w : ForgeWorld)
      → HasOutcome key o w.store
      → HasOutcome key o (recover m now id token session idempotency w).1.store
  unfolding recover
  recover-Holds raw_session raw_key w h =
      let session = trim_space raw_session in
      let idempotency = trim_space raw_key in
      elim (Bool-cases (not (matches_run_id session) || not (matches_run_id idempotency))) [
        | inl p ↦ rw (recover, p) h
        | inr p ↦ elim (Result-cases (find_request session idempotency w.store)) [
          | inl (e, n) ↦ rw (recover, p, n) h
          | inr (r, n) ↦ rw (recover, p, n) (continue-Holds r w h)
        ]
      ]

-- No record under the key has been kept for its whole time.
abbrev pub IsRetained : String → Time → ForgeWorld → Type 0
IsRetained key now w =
    (r : ForgeRecord) → lookup key w.store.records ≡ some r → is_retention_over now r ≡ false

-- A step: a request, a recovery, activity in a session, an expiry while the record of the key is
-- still retained, or anything that the rest of the gateway does to runs.
pub data Step (key : String) : ForgeWorld → ForgeWorld → Type 0 where
  requested :
      (m : ForgeManager) (now : Time) (id token : String) (q : ForgeRequest) (identity : String)
      (w : ForgeWorld)
      → Step key w (request_forge m now id token q identity w).1
  recovered :
      (m : ForgeManager) (now : Time) (id token session idempotency : String) (w : ForgeWorld)
      → Step key w (recover m now id token session idempotency w).1
  active : (now : Time) (session : String) (w : ForgeWorld) → Step key w (touched now session w)
  expired :
      (context_error : Option Error) (now : Time) (w : ForgeWorld)
      → IsRetained key now w
      → Step key w (reconcile_forge context_error now w).1
  elsewhere : (simops : World) (w : ForgeWorld) → Step key w (record w { simops = simops })

pub data Steps (key : String) : ForgeWorld → ForgeWorld → Type 0 where
  here : (w : ForgeWorld) → Steps key w w
  then_step : {w u v : ForgeWorld} → Steps key w u → Step key u v → Steps key w v

reconcile-Holds :
    (key : String) (o : GameOutcome) (context_error : Option Error) (now : Time) (w : ForgeWorld)
    → HasOutcome key o w.store
    → IsRetained key now w
    → HasOutcome key o (reconcile_forge context_error now w).1.store
unfolding reconcile_forge
reconcile-Holds key o (some e) now w h fresh = h
reconcile-Holds key o none now w h fresh = prune-HasOutcome key o none now w.store h fresh

Step-Holds :
    (key : String) (o : GameOutcome) {w w' : ForgeWorld}
    → Step key w w'
    → HasOutcome key o w.store
    → HasOutcome key o w'.store
unfolding touched
Step-Holds key o (Step.requested m now id token q identity w) h =
    request-Holds key o m now id token q identity w h
Step-Holds key o (Step.recovered m now id token session idempotency w) h =
    recover-Holds key o m now id token session idempotency w h
Step-Holds key o (Step.active now session w) h = touch-HasOutcome key o session now w.store h
Step-Holds key o (Step.expired e now w fresh) h = reconcile-Holds key o e now w h fresh
Step-Holds key o (Step.elsewhere simops w) h = h

-- Once a record with an outcome is stored under a key, a record with the same outcome is stored under
-- it after any sequence of requests, recoveries, activity in sessions and changes of runs, and of
-- expiries that come while the record of the key is retained.
pub Steps-HasOutcome :
    (key : String) (o : GameOutcome) {w w' : ForgeWorld}
    → Steps key w w'
    → HasOutcome key o w.store
    → HasOutcome key o w'.store
Steps-HasOutcome key o (Steps.here w) h = h
Steps-HasOutcome key o (Steps.then_step earlier last) h =
    Step-Holds key o last (Steps-HasOutcome key o earlier h)
