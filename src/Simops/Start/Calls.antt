-- ===== src/Simops/Start/Calls.antt =====
-- The calls that a start makes.
use radiant_prj.Common.{
  ℕ, ◌+◌, ◌≤◌, String, ◌≡◌, refl, ◌∙◌, Bool, true, false, inl, inr, ◌&&◌, List, [], ◌∷◌, ◌++◌,
  arith, Option-cases, Bool-cases, if◌then◌else◌,
}
use radiant_prj.Common.Error.{Error, Result, ok, err, Result-cases}
use radiant_prj.Simops.Types.{Time, RunRecord, WorkerRecord, SpoolCommand}
use radiant_prj.Simops.Connection.{Profile}
use radiant_prj.Simops.Store.{Store, create_run}
use radiant_prj.Simops.Runtime.{Call, World, Spooler, Launch, record_call}
use radiant_prj.Simops.Recovery.{
  Stage, Policy, compensate, compensate_built, compensate_profiles, fail,
}
use radiant_prj.Simops.LaunchCheck.{planned_worker_records}
use radiant_prj.Simops.Start.{
  Progress, settle_launch, finish_start, launch_built, launch_run, retry_start, start,
}
use radiant_prj.Simops.Retry.{
  Sweep, fail_start, recover_failed, recover_profiles, recover_built, recover_listed,
  recover_incomplete_start, is_starting, incomplete_start_is_stale,
}

-- How often the runtime was asked to start a run.
unfoldable pub count_starts : List Call → ℕ
count_starts [] = 0
count_starts (Call.start_call _ _ ∷ cs) = 1 + count_starts cs
count_starts (_ ∷ cs) = count_starts cs

starts-append : (cs ds : List Call) → count_starts (cs ++ ds) ≡ count_starts cs + count_starts ds
unfolding count_starts
starts-append [] ds = omega arith
starts-append (Call.start_call _ _ ∷ cs) ds = omega (arith, starts-append cs ds)
starts-append (Call.stop_call _ _ ∷ cs) ds = starts-append cs ds
starts-append (Call.cleanup_call _ _ ∷ cs) ds = starts-append cs ds
starts-append (Call.sync_call _ _ ∷ cs) ds = starts-append cs ds

abbrev starts : World → ℕ
starts w = count_starts w.calls

-- Writing a call down adds what the call counts.
starts_record : (c : Call) (w : World) → starts (record_call c w) ≡ starts w + count_starts (c ∷ [])
unfolding record_call
starts_record c w = starts-append w.calls (c ∷ [])

stop_starts :
    (spooler : Spooler) (run_id : String) (ps : List Profile) (w : World)
    → starts (compensate_profiles spooler run_id ps w).1 ≡ starts w
unfolding compensate_profiles count_starts
stop_starts spooler run_id ps w =
    let w1 = record_call (Call.stop_call run_id ps) w in
    let a = starts_record (Call.stop_call run_id ps) w in
    let b = starts_record (Call.cleanup_call run_id ps) w1 in
    elim (Option-cases (spooler.stop_run_profiles w.calls run_id ps)) [
      | inl e ↦ ground arith
      | inr (e, h) ↦ ground arith
    ]

built_starts :
    (p : Policy) (run : RunRecord) (ps : Result (List Profile)) (w : World)
    → starts (compensate_built p run ps w).1 ≡ starts w
unfolding compensate_built
built_starts p run (err e) w = refl
built_starts p run (ok ps) w = stop_starts p.spooler run.run_id ps w

starts-compensate :
    (p : Policy) (run : RunRecord) (ws : List WorkerRecord) (w : World)
    → starts (compensate p run ws w).1 ≡ starts w
unfolding compensate
starts-compensate p run ws w = built_starts p run _ w

starts-fail :
    (p : Policy) (now : Time) (run : RunRecord) (planned launched : List WorkerRecord)
    (cs : List SpoolCommand) (stage : Stage) (cause : Error) (w : World)
    → starts (fail p now run planned launched cs stage cause w).2 ≡ starts w
unfolding fail
starts-fail p now run planned launched cs stage cause w = starts-compensate p run planned w

starts-fail_start :
    (p : Policy) (now : Time) (o : RunRecord × Bool) (planned launched : List WorkerRecord)
    (cs : List SpoolCommand) (stage : Stage) (cause : Error) (w : World)
    → starts (fail_start p now o planned launched cs stage cause w).1 ≡ starts w
unfolding fail_start
starts-fail_start p now (run, created) planned launched cs stage cause w =
    starts-fail p now run planned launched cs stage cause w

failed_starts :
    (p : Policy) (now : Time) (o : RunRecord × Bool) (ws : List WorkerRecord)
    (cs : List SpoolCommand) (r : Sweep) (w : World)
    → starts (recover_failed p now o ws cs r w).1 ≡ starts w
unfolding recover_failed
failed_starts p now o ws cs r w =
    starts-fail_start p now o ws r.launched cs _ _ (record w { store = r.store })

profiles_starts :
    (p : Policy) (now : Time) (o : RunRecord × Bool) (ws : List WorkerRecord)
    (cs : Result (List SpoolCommand)) (ps : Result (List Profile)) (w : World)
    → starts (recover_built p now o ws cs ps w).1 ≡ starts w
unfolding recover_built recover_profiles count_starts
profiles_starts p now o ws cs (err e) w = failed_starts p now o ws _ _ w
profiles_starts p now o ws cs (ok ps) w =
    let c = Call.sync_call o.0.run_id ps in
    let a = failed_starts p now o ws _ _ (record_call c w) in
    let b = starts_record c w in a ∙ omega arith

listed_starts :
    (p : Policy) (now : Time) (o : RunRecord × Bool) (ws : Result (List WorkerRecord))
    (cs : Result (List SpoolCommand)) (w : World)
    → starts (recover_listed p now o ws cs w).1 ≡ starts w
unfolding recover_listed
listed_starts p now o (err e) cs w = failed_starts p now o [] _ _ w
listed_starts p now o (ok ws) cs w = profiles_starts p now o ws cs _ w

recover_starts :
    (p : Policy) (now : Time) (o : RunRecord × Bool) (w : World)
    → starts (recover_incomplete_start p now o w).1 ≡ starts w
unfolding recover_incomplete_start
recover_starts p now o w = listed_starts p now o _ _ w

retry_starts :
    (p : Policy) (now : Time) (stored : RunRecord) (w : World)
    → starts (retry_start p now stored w).1 ≡ starts w
unfolding retry_start
retry_starts p now stored w =
    let k = recover_starts p now (stored, false) w in
    elim (Bool-cases (is_starting stored.lifecycle && incomplete_start_is_stale now stored)) [
      | inl e ↦ ground arith
      | inr e ↦ ground arith
    ]

finish_starts :
    (p : Policy) (now : Time) (planned : List WorkerRecord) (l : Launch) (x : Progress) (w : World)
    → starts (finish_start p now planned l x w).1 ≡ starts w
unfolding finish_start
finish_starts p now planned l (Progress.stuck stage e run s) w =
    starts-fail_start p now (run, true) planned l.workers l.commands stage e
      (record w { store = s })
finish_starts p now planned l (Progress.streaming run s) w = refl

launch_starts :
    (p : Policy) (now : Time) (stored : RunRecord) (planned : List WorkerRecord)
    (ps : Result (List Profile)) (w : World)
    → starts (launch_built p now stored planned ps w).1 ≤ starts w + 1
unfolding launch_built count_starts
launch_starts p now stored planned (err e) w =
    let k = starts-fail_start p now (stored, true) planned [] [] Stage.runtime_launch e w in
    omega arith
launch_starts p now stored planned (ok ps) w =
    let c = Call.start_call stored.run_id ps in
    let l = p.spooler.start_run_profiles w.calls stored ps in
    let k =
      finish_starts p now planned l (settle_launch p now stored planned l w.store)
        (record_call c w) in
    let n = starts_record c w in omega arith

-- How many runs an answer of CreateRun adds to the store.
unfoldable pub new_runs : Result (RunRecord × Bool × Store) → ℕ
new_runs (err e) = 0
new_runs (ok (r, created, s)) = if created then 1 else 0

-- What `start` does with the answer of CreateRun.
answer_starts :
    (p : Policy) (now : Time) (kinds : List String) (planned : List WorkerRecord)
    (stored : RunRecord) (created : Bool) (w : World)
    → starts
        (if created then launch_run p now stored kinds planned w else retry_start p now stored w).1
      ≤ starts w + (if created then 1 else 0)
unfolding launch_run
answer_starts p now kinds planned stored true w = launch_starts p now stored planned _ w
answer_starts p now kinds planned stored false w =
    let k = retry_starts p now stored w in omega arith

-- A start asks the runtime to launch at most as often as it stores a new run: at most once, and never
-- when it finds the run of an earlier request, whose incomplete launch it may recover, or when the
-- store refuses the run.
pub start_launches_once :
    (p : Policy) (now : Time) (r : RunRecord) (kinds : List String) (w : World)
    → count_starts (start p now r kinds w).1.calls
      ≤ count_starts w.calls
        + new_runs (create_run r (planned_worker_records r kinds now) [] w.store)
unfolding start new_runs
start_launches_once p now r kinds w =
    let planned = planned_worker_records r kinds now in
    elim (Result-cases (create_run r planned [] w.store)) [
      | inl (e, h) ↦ ground arith
      | inr ((stored, created, s), h) ↦
          let k = answer_starts p now kinds planned stored created (record w { store = s }) in
          ground arith
    ]
