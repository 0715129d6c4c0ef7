-- ===== src/Simops/Tests/Stores.antt =====
-- The theorems about the store, at examples.
use radiant_prj.Simops.Start.{streaming_event}
use radiant_prj.Common.{◌≡◌, refl, true, false, [], ◌∷◌, inl, some}
use radiant_prj.Common.Error.{ok}
use radiant_prj.Common.Dict.{lookup, insert, has}
use radiant_prj.Simops.Types.{RunRecord, Lifecycle}
use radiant_prj.Simops.State.{ensure_run_state}
use radiant_prj.Simops.Store.{
  Store, new_store, create_run, update_run_lifecycle, get_run, with_lifecycle, add_workers,
  idempotency_scope,
}
use radiant_prj.Simops.Changes
use radiant_prj.Simops.Changes.Runs.{SameOrigin, Kept}
use radiant_prj.Simops.Changes.Kept.{runs-Kept}
use radiant_prj.Simops.Changes.Keys.{IsWellKeyed, reached-IsWellKeyed}
use radiant_prj.Simops.Changes.Replay.{create_run_replay, create_run_scope_collision}
use radiant_prj.Simops.Store.Deadline.{lifecycle_drops_deadline}
use radiant_prj.Simops.Tests.Data.{scheduler, first_run}

abbrev pub one_run : Store
one_run = record new_store {
  runs = ("RUN-1", first_run) ∷ [];
  idempotency = (idempotency_scope "a|b" "k", "RUN-1") ∷ [];
  workers_by_run = ("RUN-1", add_workers (scheduler ∷ []) []) ∷ [];
  commands_by_run = ("RUN-1", []) ∷ [];
}

create_first : create_run first_run (scheduler ∷ []) [] new_store ≡ ok (first_run, true, one_run)
unfolding create_run idempotency_scope insert add_workers ensure_run_state lookup has
create_first = refl

abbrev streaming_run : RunRecord
streaming_run = with_lifecycle Lifecycle.streaming 8 first_run

abbrev moved_store : Store
moved_store = record one_run { runs = ("RUN-1", streaming_run) ∷ [] }

move_first :
    update_run_lifecycle "RUN-1" Lifecycle.streaming 8 one_run ≡ ok (streaming_run, moved_store)
unfolding update_run_lifecycle get_run lookup insert
move_first = refl

first-Reach : Changes.Reach new_store one_run
first-Reach =
    Changes.Reach.next Changes.Reach.here
      (Changes.Change.created first_run first_run (scheduler ∷ []) [] true create_first)

moved-Reach : Changes.Reach one_run moved_store
moved-Reach =
    Changes.Reach.next Changes.Reach.here
      (Changes.Change.moved "RUN-1" Lifecycle.streaming 8 streaming_run move_first)

runs-Kept_example : Kept one_run moved_store
runs-Kept_example = runs-Kept moved-Reach

reached-IsWellKeyed_example : IsWellKeyed one_run
reached-IsWellKeyed_example = reached-IsWellKeyed first-Reach

create_run_replay_example :
    (x : RunRecord) × (create_run (record first_run { run_id = "RUN-2" }) [] [] moved_store
      ≡ ok (x, false, moved_store))
    × SameOrigin first_run x
create_run_replay_example =
    create_run_replay first_run first_run (record first_run { run_id = "RUN-2" }) (scheduler ∷ [])
      [] [] [] new_store one_run refl create_first moved-Reach refl refl

create_run_scope_collision_example :
    create_run
      (record first_run { run_id = "RUN-2"; submitted_by = "a"; idempotency_key = "b|k" })
      []
      []
      one_run
    ≡ ok (first_run, false, one_run)
create_run_scope_collision_example =
    create_run_scope_collision first_run first_run
      (record first_run { run_id = "RUN-2"; submitted_by = "a"; idempotency_key = "b|k" }) "a" "b"
      "k" (scheduler ∷ []) [] [] [] new_store one_run refl refl refl create_first refl refl refl

lifecycle_drops_deadline_example :
    (lookup "RUN-1" moved_store.runs ≡ some streaming_run)
    × (streaming_run.lifecycle ≡ Lifecycle.streaming)
    × (streaming_run.state.launch_observation_deadline ≡ 0)
lifecycle_drops_deadline_example =
    lifecycle_drops_deadline "RUN-1" Lifecycle.streaming (streaming_event "RUN-1" 8) 8 one_run
      moved_store streaming_run (inl move_first)
