-- ===== src/Reactors/Cleanup.antt =====
-- backend/slurm-gateway/internal/gateway/reactor_telemetry_worker_set.go: RemoveDynamicReactor, the
-- two reconciliations, and AuthorizeSourceCredential.
pub mod Revoked
pub mod Unauthorized
use Prim.Native.String.{◌++◌ as ◌<>◌}
use radiant_prj.Common.{
  ℕ, zero, suc, ◌+◌, String, ◌==◌, Bool, true, false, not, ◌&&◌, ◌||◌, Option, none, some, List, [],
  ◌∷◌, ◌++◌, any, ltb, ◌==ℕ◌, if◌then◌else◌,
}
use radiant_prj.Common.Error.{
  Error, Result, ok, err, ◌>>=◌, ◌>>◌, guard, error_text, error_is, join,
}
use radiant_prj.Common.Text.{trim_space, show_ℕ}
use radiant_prj.Common.Text.Edit.{trim_right_char}
use radiant_prj.Simops.Types.{Time, ℤ}
use radiant_prj.Simops.Controller.{reached_limit, add_duration}
use radiant_prj.Workbench.Types.{ResidentSource}
use radiant_prj.Reactors.Types.{
  SetLifecycle, RegisterRequest, RemoveRequest, ReactorWorker, WorkerSet, ReactorLaunch,
  ReactorCall, ReactorRuntime,
}
use radiant_prj.Reactors.Config.{
  ReactorConfig, validate_reactor_config, whole_seconds, frames_of, rounds,
}
use radiant_prj.Reactors.Store.{
  ReactorStore, get_worker_set, find_registration, list_worker_sets, save_worker_set,
}
use radiant_prj.Reactors.Sources.{stable_telemetry_id, build_resident_source}
use radiant_prj.Reactors.Credential.{
  Claims, Signer, issue_source_credential, verify_source_credential,
}
use radiant_prj.Reactors.Manager.{
  ReactorManager, ReactorWorld, SetReply, refuse, is_removed, is_cleanup, is_relaunchable,
  is_authorized, saved_set, made_call,
}
use radiant_prj.Reactors.Relaunch.{retry_worker_set}
use radiant_prj.Reactors.Registration.{validate_reactor_identity}

-- saveLifecycleWorkerSet: the context's error comes first. The store asks the context once more.
unfoldable pub save_lifecycle_set :
    ReactorManager → WorkerSet → ReactorWorld → Option Error × ReactorWorld
unfolding saved_set
save_lifecycle_set m set w = elim (m.context_error w.calls) [
  | some e ↦ (some e, w)
  | none ↦ (none, saved_set set w)
]

-- The set that cleanupWorkerSet saves first.
unfoldable pub cleaning : ReactorManager → Time → WorkerSet → String → WorkerSet
cleaning m now set idempotency_key = record set {
  remove_idempotency = if idempotency_key == "" then set.remove_idempotency else idempotency_key;
  credentials_revoked = true;
  lifecycle = SetLifecycle.cleanup;
  cleanup_deadline =
      if set.cleanup_deadline ==ℕ 0
      then add_duration now m.cfg.cleanup_timeout
      else set.cleanup_deadline;
  updated_at = now;
  last_error = "";
}

-- What follows StopWorkerSet. The error of the save after a failed stop is dropped.
unfoldable pub settle_stop :
    ReactorManager → Time → WorkerSet → Option Error → ReactorWorld → SetReply × ReactorWorld
unfolding save_lifecycle_set
settle_stop m now set (some e) w =
    let failed = record set {
      lifecycle = SetLifecycle.cleanup_failed;
      last_error = error_text e;
      updated_at = now;
    } in
    (
      record {
        set = some failed;
        created = false;
        error = some (Error.wrapped "stop reactor telemetry worker set" e);
      },
      (save_lifecycle_set m failed w).1,
    )
settle_stop m now set none w =
    let gone = record set { lifecycle = SetLifecycle.removed; updated_at = now } in
    let (answer, w') = save_lifecycle_set m gone w in
    (record { set = some gone; created = false; error = answer }, w')

-- After the first save.
unfoldable pub stop_set :
    ReactorManager → Time → WorkerSet → Option Error × ReactorWorld → SetReply × ReactorWorld
unfolding settle_stop made_call
stop_set m now set (some e, w) = (record { set = some set; created = false; error = some e }, w)
stop_set m now set (none, w) =
    settle_stop m now set (m.runtime.stop_worker_set w.calls set.set_id)
      (made_call (ReactorCall.stopped_set set.set_id) w)

unfoldable pub cleanup_worker_set :
    ReactorManager → Time → WorkerSet → String → ReactorWorld → SetReply × ReactorWorld
unfolding cleaning save_lifecycle_set stop_set
cleanup_worker_set m now set idempotency_key w = elim (m.context_error w.calls) [
  | some e ↦ (record { set = some set; created = false; error = some e }, w)
  | none ↦
      let set' = cleaning m now set idempotency_key in
      stop_set m now set' (save_lifecycle_set m set' w)
]

-- The set that is found.
unfoldable pub remove_set :
    ReactorManager → Time → String → WorkerSet → ReactorWorld → SetReply × ReactorWorld
unfolding cleanup_worker_set
remove_set m now idempotency_key set w = elim (is_removed set.lifecycle) [
  | true ↦ (record { set = some set; created = false; error = none }, w)
  | false ↦ cleanup_worker_set m now set idempotency_key w
]

unfoldable pub remove_reactor :
    ReactorManager → Time → RemoveRequest → ReactorWorld → SetReply × ReactorWorld
unfolding remove_set
remove_reactor m now q w =
    elim (validate_reactor_identity q.game_session_id q.reactor_id q.idempotency_key) [
      | err e ↦ (refuse e, w)
      | ok _ ↦ elim (get_worker_set q.game_session_id q.reactor_id w.store) [
        | err e ↦ (refuse e, w)
        | ok set ↦ remove_set m now q.idempotency_key set w
      ]
    ]

-- The idempotency key of an expiry.
unfoldable pub expiry_key : WorkerSet → String
expiry_key set =
    if set.remove_idempotency == "" then "expire-" <> set.set_id else set.remove_idempotency

-- A round of ReconcileExpired.
unfoldable pub expire_set :
    ReactorManager → Time → WorkerSet → ReactorWorld → Option Error × ReactorWorld
unfolding cleanup_worker_set expiry_key
expire_set m now set w =
    elim (is_removed set.lifecycle || (not (is_cleanup set.lifecycle) && ltb now set.expires_at)) [
      | true ↦ (none, w)
      | false ↦
          let (reply, w') = cleanup_worker_set m now set (expiry_key set) w in (reply.error, w')
    ]

-- A loop over sets that goes on after an error and joins the errors.
unfoldable pub each_set :
    (WorkerSet → ReactorWorld → Option Error × ReactorWorld)
    → Option Error
    → List WorkerSet
    → ReactorWorld
    → Option Error × ReactorWorld
each_set round earlier [] w = (earlier, w)
each_set round earlier (set ∷ sets) w =
    let (answer, w') = round set w in each_set round (join earlier answer) sets w'

-- ReconcileExpired. The context is asked before the sets are listed.
unfoldable pub reconcile_expired :
    ReactorManager → Time → ReactorWorld → Option Error × ReactorWorld
unfolding each_set expire_set
reconcile_expired m now w = elim (m.context_error w.calls) [
  | some e ↦ (some e, w)
  | none ↦ each_set (expire_set m now) none (list_worker_sets "" w.store) w
]

-- The round of ReconcileActive.
unfoldable pub revive_set :
    ReactorManager → Time → WorkerSet → ReactorWorld → Option Error × ReactorWorld
unfolding cleanup_worker_set retry_worker_set
revive_set m now set w = elim (is_cleanup set.lifecycle) [
  | true ↦
      let (reply, w') = cleanup_worker_set m now set set.remove_idempotency w in (reply.error, w')
  | false ↦ elim (is_removed set.lifecycle || not (ltb now set.expires_at)) [
    | true ↦ (none, w)
    | false ↦ let (reply, w') = retry_worker_set m now set w in (reply.error, w')
  ]
]

unfoldable pub reconcile_active : ReactorManager → Time → ReactorWorld → Option Error × ReactorWorld
unfolding each_set revive_set
reconcile_active m now w = each_set (revive_set m now) none (list_worker_sets "" w.store) w

-- A set and one of its workers that let a credential through.
unfoldable pub set_authorizes : Time → Claims → String → String → WorkerSet → Bool
set_authorizes now claims source_id reactor_id set =
    set.set_id == claims.set_id
    && set.reactor_id == reactor_id
    && not set.credentials_revoked
    && is_authorized set.lifecycle
    && ltb now set.expires_at
    && any (λ worker. worker.source_id == source_id) set.workers

unfoldable pub authorize_source_credential :
    ReactorManager → Time → String → String → String → ReactorWorld → Bool
unfolding set_authorizes
authorize_source_credential m now token source_id reactor_id w =
    elim (verify_source_credential m.signer m.cfg.credential_signing_key token) [
      | none ↦ false
      | some claims ↦
          claims.source_id == source_id
          && claims.reactor_id == reactor_id
          && any (set_authorizes now claims source_id reactor_id) (list_worker_sets "" w.store)
    ]
