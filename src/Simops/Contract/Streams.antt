-- ===== src/Simops/Contract/Streams.antt =====
-- A start on the contract runtime succeeds.
use radiant_prj.Common.{
  String, ◌≡◌, ap, ◌∙◌, true, inl, inr, none, some, eq_refl, List, [], arith, Option,
}
use radiant_prj.Common.Error.{Error, ok, Result-cases}
use radiant_prj.Common.Dict.{lookup, has, lookup-insert_self, has-insert}
use radiant_prj.Simops.Types.{
  Time, Lifecycle, RunRecord, WorkerRecord, SpoolCommand, ArtifactRecord, Event, PublicationIntent,
}
use radiant_prj.Simops.Profile.{build_run_worker_connection_profiles}
use radiant_prj.Simops.Connection.{Profile}
use radiant_prj.Simops.Store.{
  Store, create_run, create_new, insert_run, existing_run, save_launch, get_run, with_lifecycle,
}
use radiant_prj.Simops.Store.Intents.{update_run_lifecycle_with_publication_intent}
use radiant_prj.Simops.Runtime.{Call, World, Launch}
use radiant_prj.Simops.Planner.{Planner, iceberg_plan}
use radiant_prj.Simops.Planner.Valid.{planned_artifact_accepted}
use radiant_prj.Simops.Store.Records.{save_artifact}
use radiant_prj.Simops.LaunchCheck.{planned_worker_records, validate_launched_workers}
use radiant_prj.Simops.Request.Checked.{Distinct}
use radiant_prj.Simops.Recovery.{Policy}
use radiant_prj.Simops.Start.{
  Progress, streaming_event, plan_artifact, settle_launch, finish_start, launch_built, launch_run,
  start,
}
use radiant_prj.Simops.Contract.{contract_launch, contract_spooler}
use radiant_prj.Simops.Contract.Accepted.{contract_launch_accepted}

created_found :
    (r stored : RunRecord) (ws : List WorkerRecord) (cs : List SpoolCommand) (s s' : Store)
    → create_run r ws cs s ≡ ok (stored, true, s')
    → lookup stored.run_id s'.runs ≡ some stored
unfolding create_run create_new insert_run existing_run
created_found r stored ws cs s s' h =
    let self = lookup-insert_self r.run_id stored s.runs in ground arith

saved_found :
    (run_id : String) (ws : List WorkerRecord) (cs : List SpoolCommand) (s : Store) (r : RunRecord)
    → lookup run_id s.runs ≡ some r
    → (s' : Store) × (save_launch run_id ws cs s ≡ ok s') × (lookup run_id s'.runs ≡ some r)
unfolding save_launch has
saved_found run_id ws cs s r h = elim (Result-cases (save_launch run_id ws cs s)) [
  | inl (e, x) ↦ absurd (ground arith)
  | inr (s', x) ↦ (s', x, ground arith)
]

moved :
    (run_id : String) (l : Lifecycle) (e : Event) (now : Time) (s : Store) (r : RunRecord)
    → lookup run_id s.runs ≡ some r
    → (i : PublicationIntent) × (s' : Store) × (update_run_lifecycle_with_publication_intent run_id
          l e now s
        ≡ ok (with_lifecycle l now r, i, s'))
      × (has run_id s'.runs ≡ true)
unfolding update_run_lifecycle_with_publication_intent get_run
moved run_id l e now s r h =
    elim (Result-cases (update_run_lifecycle_with_publication_intent run_id l e now s)) [
      | inl (e', x) ↦ absurd (ground arith)
      | inr ((run, i, s'), x) ↦ (
        i,
        s',
        ground arith,
        ground (arith, has-insert run_id run_id (with_lifecycle l now r) s.runs, eq_refl run_id),
      )
    ]

artifact_saved :
    (a : ArtifactRecord) (s : Store)
    → has a.run_id s.runs ≡ true
    → (s' : Store) × (save_artifact a s ≡ ok s')
unfolding save_artifact
artifact_saved a s h = elim (Result-cases (save_artifact a s)) [
  | inl (e, x) ↦ absurd (ground arith)
  | inr r ↦ r
]

settled :
    (p : Policy) (now : Time) (stored : RunRecord) (planned : List WorkerRecord) (l : Launch)
    (s : Store) (planner : Planner) (at : Time)
    → p.artifact ≡ some (iceberg_plan planner at)
    → l.error ≡ none
    → validate_launched_workers planned l.workers ≡ ok tt
    → lookup stored.run_id s.runs ≡ some stored
    → (s' : Store) × (settle_launch p now stored planned l s
        ≡ Progress.streaming (with_lifecycle Lifecycle.streaming now stored) s')
unfolding settle_launch plan_artifact iceberg_plan with_lifecycle
settled p now stored planned l s planner at a e v h =
    let (s1, x, f) = saved_found stored.run_id l.workers l.commands s stored h in
    let (i, s2, y, there) =
      moved stored.run_id Lifecycle.streaming (streaming_event stored.run_id now) now s1 stored f in
    let run = with_lifecycle Lifecycle.streaming now stored in
    let plan = planned_artifact_accepted planner at run in
    let (s3, z) = artifact_saved (iceberg_plan planner at run) s2 there in (s3, ground arith)

built_streams :
    (p : Policy) (mode : String) (now : Time) (r stored : RunRecord) (kinds : List String)
    (ps : List Profile) (w : World) (planner : Planner) (at : Time)
    (context_error : List Call → Option Error)
    → p.artifact ≡ some (iceberg_plan planner at)
    → p.spooler ≡ contract_spooler context_error mode now
    → context_error w.calls ≡ none
    → build_run_worker_connection_profiles p.cfg stored kinds ≡ ok ps
    → Distinct kinds
    → lookup stored.run_id w.store.runs ≡ some stored
    → (launch_run p now stored kinds (planned_worker_records r kinds now) w).0 ≡ record {
      outcome = some (with_lifecycle Lifecycle.streaming now stored, true);
      error = none;
    }
unfolding launch_run launch_built finish_start contract_spooler contract_launch
built_streams p mode now r stored kinds ps w planner at context_error a c live b d h =
    let planned = planned_worker_records r kinds now in
    let l = p.spooler.start_run_profiles w.calls stored ps in
    let v : validate_launched_workers planned l.workers ≡ ok tt =
      ap (λ x. validate_launched_workers planned (x.start_run_profiles w.calls stored ps).workers) c
      ∙ contract_launch_accepted context_error p.cfg stored r mode now kinds ps w.calls live b d in
    let e : l.error ≡ none =
      ap (λ x. (x.start_run_profiles w.calls stored ps).error) c
      ∙ ap (λ x. (contract_launch x mode now stored ps).error) live in
    let (s, x) = settled p now stored planned l w.store planner at a e v h in ground arith

-- If the store takes a run as a new one, its profiles can be built, its kinds are distinct, the artifact
-- sink is the Iceberg planner, the runtime is the contract runtime and the context is not done when it
-- is called, then a start answers without an error, with the run in the lifecycle streaming, and that it
-- was created.
pub contract_start_streams :
    (p : Policy) (mode : String) (now : Time) (r stored : RunRecord) (kinds : List String)
    (ps : List Profile) (w : World) (s : Store) (planner : Planner) (at : Time)
    (context_error : List Call → Option Error)
    → p.artifact ≡ some (iceberg_plan planner at)
    → p.spooler ≡ contract_spooler context_error mode now
    → context_error w.calls ≡ none
    → create_run r (planned_worker_records r kinds now) [] w.store ≡ ok (stored, true, s)
    → build_run_worker_connection_profiles p.cfg stored kinds ≡ ok ps
    → Distinct kinds
    → (start p now r kinds w).0 ≡ record {
      outcome = some (with_lifecycle Lifecycle.streaming now stored, true);
      error = none;
    }
unfolding start
contract_start_streams p mode now r stored kinds ps w s planner at context_error a c live h b d =
    let f = created_found r stored (planned_worker_records r kinds now) [] w.store s h in
    let g =
      built_streams p mode now r stored kinds ps (record w { store = s }) planner at context_error a
        c live b d f in
    ground arith
