-- ===== src/Reactors/Store.antt =====
-- backend/slurm-gateway/internal/gateway/reactor_telemetry_worker_set.go:
-- InMemoryReactorTelemetryStore. Each method holds the store's lock, and none of the methods without
-- a context has an error but that a set is not found.
use Prim.Native.String.{◌++◌ as ◌<>◌}
use radiant_prj.Common.{String, ◌==◌, ◌&&◌, ◌||◌, none, some, List, [], ◌∷◌, map, if◌then◌else◌}
use radiant_prj.Common.Error.{Error, Result, ok, err}
use radiant_prj.Common.Dict.{Dict, lookup, insert, values}
use radiant_prj.Reactors.Types.{ReactorWorker, WorkerSet}

pub record ReactorStore : Type 0 where
  pub sets : Dict WorkerSet

abbrev pub new_reactor_store : ReactorStore
new_reactor_store = record { sets = [] }

unfoldable pub telemetry_store_key : String → String → String
telemetry_store_key session_id reactor_id = session_id <> "\0" <> reactor_id

unfoldable pub get_worker_set : String → String → ReactorStore → Result WorkerSet
get_worker_set game_session_id reactor_id s =
    elim (lookup (telemetry_store_key game_session_id reactor_id) s.sets) [
      | none ↦ err Error.worker_set_not_found
      | some set ↦ ok set
    ]

unfoldable pub first_registration : String → String → List WorkerSet → Result WorkerSet
first_registration game_session_id idempotency_key [] = err Error.worker_set_not_found
first_registration game_session_id idempotency_key (set ∷ sets) =
    if set.game_session_id == game_session_id && set.register_idempotency == idempotency_key
    then ok set
    else first_registration game_session_id idempotency_key sets

unfoldable pub find_registration : String → String → ReactorStore → Result WorkerSet
unfolding first_registration
find_registration game_session_id idempotency_key s =
    first_registration game_session_id idempotency_key (values s.sets)

unfoldable pub sets_of_session : String → List WorkerSet → List WorkerSet
sets_of_session game_session_id [] = []
sets_of_session game_session_id (set ∷ sets) =
    let rest = sets_of_session game_session_id sets in
    if game_session_id == "" || set.game_session_id == game_session_id then set ∷ rest else rest

unfoldable pub list_worker_sets : String → ReactorStore → List WorkerSet
unfolding sets_of_session
list_worker_sets game_session_id s = sets_of_session game_session_id (values s.sets)

unfoldable pub redact_worker : ReactorWorker → ReactorWorker
redact_worker w = record w { gateway = record w.gateway { ingest_token = "" } }

unfoldable pub redact_credentials : WorkerSet → WorkerSet
redact_credentials set = record set { workers = map redact_worker set.workers }

unfoldable pub save_worker_set : WorkerSet → ReactorStore → ReactorStore
unfolding redact_credentials
save_worker_set set s = record {
  sets =
      insert (telemetry_store_key set.game_session_id set.reactor_id) (redact_credentials set)
        s.sets;
}
