-- ===== src/Simops/StopOrchestrator/Complete.antt =====
-- A stop from its first transition to its last.
use radiant_prj.Common.{
  String, ◌≡◌, Bool, true, false, ◌||◌, Option, some, List, [], ◌∷◌, ◌++◌, arith,
}
use radiant_prj.Common.Error.{Error, ok}
use radiant_prj.Common.Dict.{lookup, values, inner, lookup-insert_self}
use radiant_prj.Simops.Types.{Time, RunPhase, RunRecord, WorkerRecord, StopTransition, StopOutcome}
use radiant_prj.Simops.Config.{Config}
use radiant_prj.Simops.Profile.{build_run_worker_connection_profiles_for_records}
use radiant_prj.Simops.Connection.{Profile}
use radiant_prj.Simops.Store.{Store, get_run, list_workers}
use radiant_prj.Simops.Store.Stop.{
  apply_stop_transition, announce, store_stopped, stop_run, stop_run_state, stop_workers, is_clean,
  transition_time,
}
use radiant_prj.Simops.Store.Intents.{put_intent}
use radiant_prj.Simops.Runtime.{World, Spooler, record_call, stop_call, cleanup_call}
use radiant_prj.Simops.StopOrchestrator.{
  requested_transition, in_progress_transition, final_transition, stop_reply, transition,
  finish_stop, stop_profiles, orchestrate_stop,
}

abbrev pub is_stopping : RunPhase → Bool
is_stopping RunPhase.stopping = true
is_stopping _ = false

run_facts :
    (t : StopTransition) (now : Time) (r : RunRecord) (ws : List WorkerRecord)
    → ((stop_run t now r ws).state.cleanup ≡ t.cleanup)
      × ((is_clean t || is_stopping (stop_run t now r ws).state.phase) ≡ true)
unfolding stop_run stop_run_state
run_facts t now r ws = (ground arith, ground arith)

-- A transition of a run that the store has.
record Applied (t : StopTransition) (clock : Time) (s : Store) : Type 0 where
  outcome : StopOutcome
  store : Store
  answer : apply_stop_transition t clock s ≡ ok (outcome, store)
  found : lookup t.run_id store.runs ≡ some outcome.run
  cleanup : outcome.run.state.cleanup ≡ t.cleanup
  phase : (is_clean t || is_stopping outcome.run.state.phase) ≡ true

applied :
    (t : StopTransition) (clock : Time) (s : Store) (r : RunRecord)
    → lookup t.run_id s.runs ≡ some r
    → Applied t clock s
unfolding apply_stop_transition announce store_stopped put_intent get_run
applied t clock s r h =
    let now = transition_time t clock in
    let ws = values (stop_workers t now (inner t.run_id s.workers_by_run)) in
    let facts = run_facts t now r ws in
    let self = lookup-insert_self t.run_id (stop_run t now r ws) s.runs in
    let a = announce (stop_run t now r ws) now ws (store_stopped t now r s) in
    record {
      outcome = a.0;
      store = a.1;
      answer = ground arith;
      found = ground arith;
      cleanup = ground arith;
      phase = ground arith;
    }

-- The calls that were made before the cleanup, and the answers of the two calls.
abbrev pub stop_calls : String → List Profile → World → World
stop_calls run_id ps w = record_call (stop_call run_id ps) w

abbrev pub stop_error : Spooler → String → List Profile → World → Option Error
stop_error spooler run_id ps w = spooler.stop_run_profiles w.calls run_id ps

abbrev pub cleanup_error : Spooler → String → List Profile → World → Option Error
cleanup_error spooler run_id ps w =
    spooler.cleanup_run_profiles (stop_calls run_id ps w).calls run_id ps

-- The state in which a stop ends.
pub record IsEnd (run_id : String) (t : StopTransition) (o : StopOutcome) (s : Store) : Type 0 where
  pub found : lookup run_id s.runs ≡ some o.run
  pub cleanup : o.run.state.cleanup ≡ t.cleanup
  pub phase : (is_clean t || is_stopping o.run.state.phase) ≡ true

-- The part after StopRunProfiles, from a world whose store has the run.
finish_complete :
    (spooler : Spooler) (run_id : String) (now : Time) (ps : List Profile) (e : Option Error)
    (w : World) (r : RunRecord)
    → lookup run_id w.store.runs ≡ some r
    → (o : StopOutcome) × (let c = spooler.cleanup_run_profiles w.calls run_id ps in
        let x = finish_stop spooler run_id now ps e w in
        (x.0 ≡ stop_reply e c o)
        × (x.1.calls ≡ w.calls ++ cleanup_call run_id ps ∷ [])
        × IsEnd run_id (final_transition run_id now e c) o x.1.store)
unfolding finish_stop transition record_call requested_transition in_progress_transition
    final_transition
finish_complete spooler run_id now ps e w r h =
    let c = spooler.cleanup_run_profiles w.calls run_id ps in
    let a = applied (in_progress_transition run_id now e) now w.store r h in
    let b = applied (final_transition run_id now e c) now a.store a.outcome.run a.found in
    let x = a.answer in
    let y = b.answer in
    let f = b.found in
    let g = b.cleanup in
    let p = b.phase in
    (
      b.outcome,
      (
        ground arith,
        ground arith,
        record { found = ground arith; cleanup = ground arith; phase = ground arith },
      ),
    )

-- If the store has the run and the profiles of its workers can be built, then a stop makes two calls,
-- StopRunProfiles and then CleanupRunProfiles with these profiles, the second also when the first
-- fails. It answers with the outcome if both succeed, and else with their errors. The store then has
-- the run of the outcome, whose cleanup says how the cleanup went, and which is still stopping unless
-- the stop left no error text and the cleanup completed.
pub stop_complete :
    (cfg : Config) (spooler : Spooler) (now : Time) (run_id : String) (w : World) (r : RunRecord)
    (workers : List WorkerRecord) (ps : List Profile)
    → lookup run_id w.store.runs ≡ some r
    → list_workers run_id w.store ≡ ok workers
    → build_run_worker_connection_profiles_for_records cfg r workers ≡ ok ps
    → (o : StopOutcome) × (let e = stop_error spooler run_id ps w in
        let c = cleanup_error spooler run_id ps w in
        let x = orchestrate_stop cfg spooler now run_id w in
        (x.0 ≡ stop_reply e c o)
        × (x.1.calls ≡ (w.calls ++ stop_call run_id ps ∷ []) ++ cleanup_call run_id ps ∷ [])
        × IsEnd run_id (final_transition run_id now e c) o x.1.store)
unfolding orchestrate_stop transition stop_profiles record_call requested_transition get_run
stop_complete cfg spooler now run_id w r workers ps h l b =
    let a = applied (requested_transition run_id now) now w.store r h in
    let e = stop_error spooler run_id ps w in
    let w1 = stop_calls run_id ps (record w { store = a.store }) in
    let (o, (f, g, k)) = finish_complete spooler run_id now ps e w1 a.outcome.run a.found in
    let x = a.answer in
    let k1 = k.found in
    let k2 = k.cleanup in
    let k3 = k.phase in
    (
      o,
      (
        ground arith,
        ground arith,
        record { found = ground arith; cleanup = ground arith; phase = ground arith },
      ),
    )
