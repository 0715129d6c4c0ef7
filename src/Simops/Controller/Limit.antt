-- ===== src/Simops/Controller/Limit.antt =====
-- A new run is admitted only below the limit of active runs.
use radiant_prj.Common.{
  String, ◌≡◌, refl, Bool, true, false, ◌&&◌, inl, inr, some, List, [], arith, Bool-cases,
  Option-cases,
}
use radiant_prj.Common.Error.{Result, ok, err}
use radiant_prj.Common.Dict.{lookup}
use radiant_prj.Simops.Types.{Time, RunRequest, RunRecord, WorkerRecord, SpoolCommand}
use radiant_prj.Simops.Connection.{Profile}
use radiant_prj.Simops.Store.{
  Store, create_run, existing_run, get_run, get_run_by_idempotency, active_run_count,
  idempotency_scope,
}
use radiant_prj.Simops.Runtime.{World}
use radiant_prj.Simops.LaunchCheck.{planned_worker_records}
use radiant_prj.Simops.Recovery.{Policy, LifecycleError}
use radiant_prj.Simops.Start.{retry_start, start}
use radiant_prj.Simops.Retry.{
  Reply, fail_start, recover_failed, recover_profiles, recover_built, recover_listed,
  recover_incomplete_start, is_starting, incomplete_start_is_stale,
}
use radiant_prj.Simops.Controller.{
  started, has_existing_run, reached_limit, requested_run, admit_run,
}
use radiant_prj.Simops.Ingest.{Answer}

-- The reply has an error.
abbrev IsFailure : Reply → Type 0
IsFailure r = (e : LifecycleError) × (r.error ≡ some e)

built-IsFailure :
    (p : Policy) (now : Time) (o : RunRecord × Bool) (ws : List WorkerRecord)
    (cs : Result (List SpoolCommand)) (ps : Result (List Profile)) (w : World)
    → IsFailure (recover_built p now o ws cs ps w).0
unfolding recover_built recover_profiles recover_failed fail_start
built-IsFailure p now (run, c) ws cs (err e) w = (_, refl)
built-IsFailure p now (run, c) ws cs (ok ps) w = (_, refl)

listed-IsFailure :
    (p : Policy) (now : Time) (o : RunRecord × Bool) (ws : Result (List WorkerRecord))
    (cs : Result (List SpoolCommand)) (w : World)
    → IsFailure (recover_listed p now o ws cs w).0
unfolding recover_listed recover_failed fail_start
listed-IsFailure p now (run, c) (err e) cs w = (_, refl)
listed-IsFailure p now (run, c) (ok ws) cs w = built-IsFailure p now (run, c) ws cs _ w

recover-IsFailure :
    (p : Policy) (now : Time) (o : RunRecord × Bool) (w : World)
    → IsFailure (recover_incomplete_start p now o w).0
unfolding recover_incomplete_start
recover-IsFailure p now o w = listed-IsFailure p now o _ _ w

-- What a retry answers without an error was not created by it.
retry_created :
    (p : Policy) (now : Time) (stored r : RunRecord) (created : Bool) (w : World)
    → started (retry_start p now stored w).0 ≡ Answer.answered (r, created)
    → created ≡ false
unfolding retry_start started
retry_created p now stored r created w h =
    elim (Bool-cases (is_starting stored.lifecycle && incomplete_start_is_stale now stored)) [
      | inl x ↦ let (e, f) = recover-IsFailure p now (stored, false) w in absurd (ground arith)
      | inr x ↦ ground arith
    ]

-- A request whose key leads to a run is answered by the store with that run.
existing_found :
    (r : RunRecord) (ws : List WorkerRecord) (cs : List SpoolCommand) (s : Store)
    → has_existing_run r.submitted_by r.idempotency_key s ≡ true
    → (x : RunRecord) × (create_run r ws cs s ≡ ok (x, false, s))
unfolding has_existing_run get_run_by_idempotency get_run create_run existing_run
existing_found r ws cs s h =
    elim (Option-cases
      (lookup (idempotency_scope r.submitted_by r.idempotency_key) s.idempotency)) [
        | inl e ↦ absurd (ground arith)
        | inr (id, e) ↦ elim (Option-cases (lookup id s.runs)) [
          | inl f ↦ absurd (ground arith)
          | inr (x, f) ↦ (x, ground arith)
        ]
      ]

-- A start of such a request creates nothing.
existing_not_created :
    (p : Policy) (now : Time) (q r : RunRecord) (kinds : List String) (created : Bool) (w : World)
    → has_existing_run q.submitted_by q.idempotency_key w.store ≡ true
    → started (start p now q kinds w).0 ≡ Answer.answered (r, created)
    → created ≡ false
unfolding start
existing_not_created p now q r kinds created w h a =
    let (x, c) = existing_found q (planned_worker_records q kinds now) [] w.store h in
    retry_created p now x r created w (ground arith)

-- If a request that was normalised is answered with a run that it created, then the active runs had
-- not reached the configured limit.
pub created_below_limit :
    (p : Policy) (now : Time) (run_id token identity : String) (kinds : List String)
    (q : RunRequest) (w : World) (r : RunRecord)
    → (admit_run p now run_id token identity kinds q w).0 ≡ Answer.answered (r, true)
    → reached_limit (active_run_count w.store) p.cfg.max_active_runs ≡ false
unfolding admit_run requested_run
created_below_limit p now run_id token identity kinds q w r h =
    let s = requested_run p.cfg now run_id token identity q in
    elim (Bool-cases (has_existing_run identity q.idempotency_key w.store)) [
      | inl e ↦
          let f : true ≡ false = existing_not_created p now s r kinds true w e (ground arith) in
          absurd (ground arith)
      | inr e ↦ elim (Bool-cases (reached_limit (active_run_count w.store) p.cfg.max_active_runs)) [
        | inl x ↦ absurd (ground arith)
        | inr x ↦ x
      ]
    ]
