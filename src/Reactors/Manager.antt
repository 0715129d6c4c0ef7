-- ===== src/Reactors/Manager.antt =====
-- backend/slurm-gateway/internal/gateway/reactor_telemetry_worker_set.go: ReactorTelemetryManager. A
-- method that changes a set holds the manager's lock from start to end. The clock is read once. The
-- context is asked again at each point where the source asks it: its answer may depend on the calls
-- that were made by then.

use radiant_prj.Common.{
  String, Bool, true, false, ◌||◌, Option, none, some, List, [], ◌∷◌, ◌++◌, if◌then◌else◌,
}
use radiant_prj.Common.Error.{Error, error_text, error_is}
use radiant_prj.Simops.Types.{Time}
use radiant_prj.Simops.Controller.{add_duration}
use radiant_prj.Workbench.Types.{ResidentSource}
use radiant_prj.Reactors.Types.{
  SetLifecycle, ReactorWorker, WorkerSet, ReactorLaunch, ReactorCall, ReactorRuntime,
}
use radiant_prj.Reactors.Config.{ReactorConfig}
use radiant_prj.Reactors.Store.{ReactorStore, list_worker_sets, save_worker_set}
use radiant_prj.Reactors.Sources.{build_resident_source}
use radiant_prj.Reactors.Credential.{Signer}

-- The manager's parts that do not change. The registrar of sources may be missing.
pub record ReactorManager : Type 0 where
  pub cfg : ReactorConfig
  pub runtime : ReactorRuntime
  pub sources : Option (List ReactorCall → ResidentSource → Option Error)
  pub signer : Signer
  pub digest : String → String
  pub context_error : List ReactorCall → Option Error

pub record ReactorWorld : Type 0 where
  pub store : ReactorStore
  pub calls : List ReactorCall

-- The set is none where the source answers with the zero value.
pub record SetReply : Type 0 where
  pub set : Option WorkerSet
  pub created : Bool
  pub error : Option Error

abbrev pub refuse : Error → SetReply
refuse e = record { set = none; created = false; error = some e }

abbrev pub is_removed : SetLifecycle → Bool
is_removed SetLifecycle.removed = true
is_removed _ = false

abbrev pub is_cleanup : SetLifecycle → Bool
is_cleanup SetLifecycle.cleanup = true
is_cleanup SetLifecycle.cleanup_failed = true
is_cleanup _ = false

-- A launch that is retried.
abbrev pub is_relaunchable : SetLifecycle → Bool
is_relaunchable SetLifecycle.starting = true
is_relaunchable SetLifecycle.launch_failed = true
is_relaunchable _ = false

abbrev pub is_authorized : SetLifecycle → Bool
is_authorized SetLifecycle.starting = true
is_authorized SetLifecycle.active = true
is_authorized _ = false

abbrev pub is_set_not_found : Error → Bool
is_set_not_found e = error_is (λ f. elim f [ Error.worker_set_not_found ↦ true | _ ↦ false ]) e

unfoldable pub saved_set : WorkerSet → ReactorWorld → ReactorWorld
saved_set set w = record w { store = save_worker_set set w.store }

unfoldable pub made_call : ReactorCall → ReactorWorld → ReactorWorld
made_call c w = record w { calls = w.calls ++ c ∷ [] }

-- A round of the loop of TouchSession.
unfoldable pub touch_set : ReactorConfig → Time → WorkerSet → ReactorWorld → ReactorWorld
unfolding saved_set
touch_set cfg now set w =
    if is_removed set.lifecycle || is_cleanup set.lifecycle
    then w
    else saved_set (record set { updated_at = now; expires_at = add_duration now cfg.session_ttl })
        w

unfoldable pub touch_sets : ReactorConfig → Time → List WorkerSet → ReactorWorld → ReactorWorld
unfolding touch_set
touch_sets cfg now [] w = w
touch_sets cfg now (set ∷ sets) w = touch_sets cfg now sets (touch_set cfg now set w)

unfoldable pub touch_reactors : ReactorManager → Time → String → ReactorWorld → ReactorWorld
unfolding touch_sets
touch_reactors m now game_session_id w =
    touch_sets m.cfg now (list_worker_sets game_session_id w.store) w

-- RegisterSource, if there is a registrar.
unfoldable pub register_source :
    ReactorManager → ReactorWorker → ReactorWorld → Option Error × ReactorWorld
unfolding made_call
register_source m worker w = elim m.sources [
  | none ↦ (none, w)
  | some register ↦
      let source = build_resident_source m.digest worker in
      (register w.calls source, made_call (ReactorCall.registered_source source) w)
]

-- The part of a launch that follows the first save: StartWorkerSet, and the record of its answer.
unfoldable pub settle_start :
    ReactorManager → Time → WorkerSet → Bool → ReactorWorld → SetReply × ReactorWorld
unfolding made_call saved_set
settle_start m now set created w =
    let launch : ReactorLaunch = record { set_id = set.set_id; workers = set.workers } in
    let w' = made_call (ReactorCall.started_set launch) w in
    elim (m.runtime.start_worker_set w.calls launch) [
      | some e ↦
          let failed = record set {
            lifecycle = SetLifecycle.launch_failed;
            last_error = error_text e;
            updated_at = now;
          } in
          (
            record {
              set = some failed;
              created = created;
              error = some (Error.wrapped "start reactor telemetry worker set" e);
            },
            saved_set failed w',
          )
      | none ↦
          let active = record set { lifecycle = SetLifecycle.active; updated_at = now } in
          (record { set = some active; created = created; error = none }, saved_set active w')
    ]
