-- ===== src/Reactors/Registration.antt =====
-- backend/slurm-gateway/internal/gateway/reactor_telemetry_worker_set.go: RegisterDynamicReactor.
use Prim.Native.String.{◌++◌ as ◌<>◌}
use radiant_prj.Common.{
  ℕ, zero, suc, ◌+◌, String, ◌==◌, true, false, not, ◌||◌, List, [], ◌∷◌, if◌then◌else◌,
}
use radiant_prj.Common.Error.{Error, Result, ok, err, ◌>>=◌, guard}
use radiant_prj.Common.Text.{trim_space, show_ℕ}
use radiant_prj.Common.Text.Edit.{trim_right_char}
use radiant_prj.Simops.Types.{Time}
use radiant_prj.Simops.Controller.{reached_limit, add_duration}
use radiant_prj.Reactors.Types.{SetLifecycle, RegisterRequest, ReactorWorker, WorkerSet}
use radiant_prj.Reactors.Config.{validate_reactor_config, whole_seconds, frames_of, rounds}
use radiant_prj.Reactors.Store.{get_worker_set, find_registration, list_worker_sets}
use radiant_prj.Reactors.Sources.{stable_telemetry_id}
use radiant_prj.Reactors.Credential.{Claims, issue_source_credential}
use radiant_prj.Reactors.Manager.{
  ReactorManager, ReactorWorld, SetReply, refuse, is_removed, is_set_not_found, saved_set,
  register_source, settle_start,
}
use radiant_prj.Reactors.Relaunch.{gather, rejoin}

unfoldable pub count_present : List WorkerSet → ℕ
count_present [] = 0
count_present (set ∷ sets) = (if is_removed set.lifecycle then 0 else 1) + count_present sets

unfoldable pub new_worker_set : ReactorManager → Time → RegisterRequest → WorkerSet
new_worker_set m now q = record {
  set_id = stable_telemetry_id m.digest "rts" (q.game_session_id <> "\0" <> q.reactor_id);
  game_session_id = q.game_session_id;
  reactor_id = q.reactor_id;
  register_idempotency = q.idempotency_key;
  remove_idempotency = "";
  lifecycle = SetLifecycle.starting;
  workers = [];
  credentials_revoked = false;
  created_at = now;
  updated_at = now;
  expires_at = add_duration now m.cfg.session_ttl;
  measured_retention_sec = whole_seconds m.cfg.measured_retention;
  cleanup_deadline = 0;
  last_error = "";
}

unfoldable pub planned_reactor_worker : ReactorManager → WorkerSet → ℕ → ReactorWorker
planned_reactor_worker m set index =
    let parts = set.game_session_id <> "\0" <> set.reactor_id <> "\0" <> show_ℕ (index + 1) in
    let source_id = stable_telemetry_id m.digest "src" parts in
    let claims : Claims = record {
      set_id = set.set_id;
      source_id = source_id;
      reactor_id = set.reactor_id;
    } in
    record {
      worker_id = stable_telemetry_id m.digest "rtw" parts;
      source_id = source_id;
      game_session_id = set.game_session_id;
      reactor_id = set.reactor_id;
      worker_index = index;
      max_frames = frames_of m.cfg.session_ttl;
      gateway = record {
        ingest_base_url = trim_right_char b'/' m.cfg.ingest_base_url;
        ingest_token = issue_source_credential m.signer m.cfg.credential_signing_key claims;
      };
      broker_url = "";
      database_url = "";
      lake_url = "";
      container_socket = "";
      cluster_credential = "";
    }

-- The loop that plans the workers from an index on, with the rounds that are left.
unfoldable pub plan_workers :
    ReactorManager → WorkerSet → ℕ → ℕ → ReactorWorld → Result (List ReactorWorker) × ReactorWorld
unfolding planned_reactor_worker register_source gather
plan_workers m set index zero w = (ok [], w)
plan_workers m set index (suc left) w =
    let registered = register_source m (planned_reactor_worker m set index) w in
    gather (planned_reactor_worker m set index) registered
      (plan_workers m set (suc index) left registered.1)

unfoldable pub launch_set :
    ReactorManager
    → Time
    → WorkerSet
    → Result (List ReactorWorker)
    → ReactorWorld
    → SetReply × ReactorWorld
unfolding settle_start saved_set
launch_set m now set (err e) w = (refuse e, w)
launch_set m now set (ok workers) w =
    let ready = record set { workers = workers } in
    settle_start m now ready true (saved_set ready w)

-- A registration that finds no set.
unfoldable pub admit_set :
    ReactorManager → Time → RegisterRequest → ReactorWorld → SetReply × ReactorWorld
unfolding count_present launch_set plan_workers new_worker_set
admit_set m now q w =
    elim (reached_limit (count_present (list_worker_sets q.game_session_id w.store))
      m.cfg.max_reactors_per_session) [
        | true ↦ (refuse Error.session_cap_reached, w)
        | false ↦
            let set = new_worker_set m now q in
            let (workers, w') = plan_workers m set 0 (rounds m.cfg.workers_per_set) w in
            launch_set m now set workers w'
      ]

-- GetWorkerSet, after FindRegistration has found nothing.
unfoldable pub find_or_admit :
    ReactorManager → Time → RegisterRequest → ReactorWorld → SetReply × ReactorWorld
unfolding rejoin admit_set
find_or_admit m now q w = elim (get_worker_set q.game_session_id q.reactor_id w.store) [
  | ok set ↦ rejoin m now set w
  | err e ↦ elim (is_set_not_found e) [ true ↦ admit_set m now q w | false ↦ (refuse e, w) ]
]

unfoldable pub validate_reactor_identity : String → String → String → Result (Unit {0})
validate_reactor_identity session_id reactor_id idempotency_key =
    guard
      (not (
        trim_space session_id == ""
        || trim_space reactor_id == ""
        || trim_space idempotency_key == ""))
      (Error.message "gameSessionId, reactorId, and idempotencyKey are required")

-- The two checks that open a registration.
unfoldable pub validate_registration : ReactorManager → RegisterRequest → Result (Unit {0})
unfolding validate_reactor_identity
validate_registration m q = do
  _ ← validate_reactor_config m.cfg
  validate_reactor_identity q.game_session_id q.reactor_id q.idempotency_key

unfoldable pub register_reactor :
    ReactorManager → Time → RegisterRequest → ReactorWorld → SetReply × ReactorWorld
unfolding validate_registration rejoin find_or_admit
register_reactor m now q w = elim (validate_registration m q) [
  | err e ↦ (refuse e, w)
  | ok _ ↦ elim (find_registration q.game_session_id q.idempotency_key w.store) [
    | ok set ↦ rejoin m now set w
    | err e ↦ elim (is_set_not_found e) [ true ↦ find_or_admit m now q w | false ↦ (refuse e, w) ]
  ]
]
