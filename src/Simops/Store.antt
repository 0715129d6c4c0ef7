-- ===== src/Simops/Store.antt =====
-- InMemorySimopsStore of backend/slurm-gateway/internal/gateway/simops_store.go: its state, and the
-- operations on runs. Each method holds the store's lock from start to end, so it is one step. A
-- method takes the arguments, the clock's reading where it reads the clock, and the store. Every
-- error is returned before anything is written, so an error carries no store.
-- The child modules hold the other operations and the proofs.
pub mod Observe
pub mod Stop
pub mod Intents
pub mod Records
pub mod Deadline
use Prim.Native.String.{◌++◌ as ◌<>◌}
use radiant_prj.Common.{
  ℕ, ◌+◌, String, ◌==◌, Bool, true, false, ◌||◌, Option, none, some, List, [], ◌∷◌, ◌++◌, ltb,
  if◌then◌else◌,
}
use radiant_prj.Common.Error.{Error, Result, ok, err, ◌>>=◌, ◌>>◌, guard}
use radiant_prj.Common.Dict.{Dict, lookup, insert, values, has, inner, slice}
use radiant_prj.Simops.Types.{
  Time, Lifecycle, RunPhase, ConditionStatus, CleanupDisposition, RunState, DegradationEvidence,
  RunRecord, WorkerRecord, SpoolCommand, ArtifactRecord, Event, PublicationIntent, DeliveryAttempt,
}
use radiant_prj.Simops.State.{ensure_run_state, ensure_worker_state}
use radiant_prj.Simops.Facts.{materialize_worker_launch_state}

pub record Store : Type 0 where
  pub runs : Dict RunRecord
  pub idempotency : Dict String
  pub workers_by_run : Dict (Dict WorkerRecord)
  pub commands_by_run : Dict (List SpoolCommand)
  pub artifacts_by_run : Dict (List ArtifactRecord)
  pub events_by_run : Dict (List Event)
  pub intents_by_run : Dict (Dict PublicationIntent)
  pub evidence_by_worker : Dict (Dict (List DegradationEvidence))
  pub delivery_attempts : Dict DeliveryAttempt

abbrev pub new_store : Store
new_store = record {
  runs = [];
  idempotency = [];
  workers_by_run = [];
  commands_by_run = [];
  artifacts_by_run = [];
  events_by_run = [];
  intents_by_run = [];
  evidence_by_worker = [];
  delivery_attempts = [];
}

unfoldable pub idempotency_scope : String → String → String
idempotency_scope identity key = identity <> "|" <> key

-- The lookup that opens CreateRun: the run of an earlier request in the same scope.
unfoldable pub existing_run : RunRecord → Store → Result (Option RunRecord)
existing_run r s =
    if r.idempotency_key == ""
    then ok none
    else elim (lookup (idempotency_scope r.submitted_by r.idempotency_key) s.idempotency) [
      | none ↦ ok none
      | some run_id ↦ elim (lookup run_id s.runs) [
        | none ↦ err Error.run_not_found
        | some existing ↦ ok (some existing)
      ]
    ]

-- A worker that stands twice in the request keeps the larger count of frames.
unfoldable pub merge_worker : WorkerRecord → Option WorkerRecord → WorkerRecord
merge_worker w none = w
merge_worker w (some e) =
    if ltb w.frames e.frames
    then record w { frames = e.frames; lifecycle = e.lifecycle; updated_at = e.updated_at }
    else w

unfoldable pub add_workers : List WorkerRecord → Dict WorkerRecord → Dict WorkerRecord
unfolding merge_worker
add_workers [] m = m
add_workers (w ∷ ws) m =
    let w' = record w { state = ensure_worker_state w } in
    add_workers ws (insert w.worker_id (merge_worker w' (lookup w.worker_id m)) m)

unfoldable pub insert_run : RunRecord → List WorkerRecord → List SpoolCommand → Store → Store
insert_run r workers commands s = record s {
  runs = insert r.run_id r s.runs;
  idempotency =
      if r.idempotency_key == ""
      then s.idempotency
      else insert (idempotency_scope r.submitted_by r.idempotency_key) r.run_id s.idempotency;
  workers_by_run = insert r.run_id (add_workers workers []) s.workers_by_run;
  commands_by_run = insert r.run_id commands s.commands_by_run;
}

unfoldable pub create_new :
    RunRecord → List WorkerRecord → List SpoolCommand → Store → Result (RunRecord × Bool × Store)
unfolding insert_run
create_new r workers commands s =
    if has r.run_id s.runs
    then err Error.conflict
    else let r' = record r { state = ensure_run_state r.lifecycle r.state } in
      ok (r', true, insert_run r' workers commands s)

unfoldable pub create_run :
    RunRecord → List WorkerRecord → List SpoolCommand → Store → Result (RunRecord × Bool × Store)
unfolding existing_run create_new
create_run r workers commands s = do
  found ← existing_run r s
  elim found [ some existing ↦ ok (existing, false, s) | none ↦ create_new r workers commands s ]

unfoldable pub launch_workers : List WorkerRecord → Dict WorkerRecord → Dict WorkerRecord
launch_workers [] m = m
launch_workers (w ∷ ws) m =
    launch_workers ws (insert w.worker_id (materialize_worker_launch_state w).0 m)

has_command : String → List SpoolCommand → Bool
has_command id [] = false
has_command id (d ∷ ds) = d.command_id == id || has_command id ds

replace_last : SpoolCommand → List SpoolCommand → List SpoolCommand
unfolding has_command
replace_last c [] = []
replace_last c (d ∷ ds) =
    let rest = replace_last c ds in
    if has_command c.command_id ds
    then d ∷ rest
    else if d.command_id == c.command_id
    then c ∷ ds
    else d ∷ ds

-- `commandIndexes` has the last index of each command id: a command with a known id takes that
-- place, any other goes to the end.
unfoldable pub put_command : SpoolCommand → List SpoolCommand → List SpoolCommand
unfolding has_command replace_last
put_command c ds = if has_command c.command_id ds then replace_last c ds else ds ++ c ∷ []

unfoldable pub put_commands : List SpoolCommand → List SpoolCommand → List SpoolCommand
unfolding put_command
put_commands [] ds = ds
put_commands (c ∷ cs) ds = put_commands cs (put_command c ds)

unfoldable pub save_launch : String → List WorkerRecord → List SpoolCommand → Store → Result Store
save_launch run_id workers commands s = do
  guard (has run_id s.runs) Error.run_not_found
  ok (record s {
    workers_by_run =
        insert run_id (launch_workers workers (inner run_id s.workers_by_run)) s.workers_by_run;
    commands_by_run =
        insert run_id (put_commands commands (slice run_id s.commands_by_run)) s.commands_by_run;
  })

unfoldable pub get_run : String → Store → Result RunRecord
get_run run_id s = elim (lookup run_id s.runs) [ none ↦ err Error.run_not_found | some r ↦ ok r ]

unfoldable pub get_run_by_idempotency : String → String → Store → Result RunRecord
unfolding get_run
get_run_by_idempotency identity key s =
    elim (lookup (idempotency_scope identity key) s.idempotency) [
      | none ↦ err Error.run_not_found
      | some run_id ↦ get_run run_id s
    ]

unfoldable pub list_workers : String → Store → Result (List WorkerRecord)
list_workers run_id s = do
  guard (has run_id s.runs) Error.run_not_found
  ok (values (inner run_id s.workers_by_run))

unfoldable pub list_commands : String → Store → Result (List SpoolCommand)
list_commands run_id s = do
  guard (has run_id s.runs) Error.run_not_found
  ok (slice run_id s.commands_by_run)

-- The state that UpdateRunLifecycle passes to ensureSimopsRunState: only the deadline is set.
abbrev pub bare_state : Time → RunState
bare_state deadline = record {
  phase = RunPhase.unset;
  condition = record { status = ConditionStatus.unset; degradations = [] };
  cleanup = CleanupDisposition.unset;
  launch_observation_deadline = deadline;
}

unfoldable pub with_lifecycle : Lifecycle → Time → RunRecord → RunRecord
with_lifecycle lifecycle now r = record r {
  lifecycle = lifecycle;
  state = ensure_run_state lifecycle (bare_state r.state.launch_observation_deadline);
  updated_at = now;
}

unfoldable pub update_run_lifecycle : String → Lifecycle → Time → Store → Result (RunRecord × Store)
update_run_lifecycle run_id lifecycle now s = do
  r ← get_run run_id s
  let r' = with_lifecycle lifecycle now r
  ok (r', record s { runs = insert run_id r' s.runs })

abbrev pub is_active_lifecycle : Lifecycle → Bool
is_active_lifecycle Lifecycle.created = true
is_active_lifecycle Lifecycle.starting = true
is_active_lifecycle Lifecycle.streaming = true
is_active_lifecycle Lifecycle.degraded = true
is_active_lifecycle _ = false

unfoldable pub count_active : Dict RunRecord → ℕ
count_active [] = 0
count_active ((_, r) ∷ m) = (if is_active_lifecycle r.lifecycle then 1 else 0) + count_active m

unfoldable pub active_run_count : Store → ℕ
active_run_count s = count_active s.runs
