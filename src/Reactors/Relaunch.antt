-- ===== src/Reactors/Relaunch.antt =====
-- backend/slurm-gateway/internal/gateway/reactor_telemetry_worker_set.go: retryWorkerSet.

use radiant_prj.Common.{true, false, Option, none, some, List, [], ◌∷◌}
use radiant_prj.Common.Error.{Error, Result, ok, err, ◌>>=◌}
use radiant_prj.Simops.Types.{Time}
use radiant_prj.Reactors.Types.{SetLifecycle, ReactorWorker, WorkerSet}
use radiant_prj.Reactors.Credential.{Claims, issue_source_credential}
use radiant_prj.Reactors.Manager.{
  ReactorManager, ReactorWorld, SetReply, is_relaunchable, saved_set, register_source, settle_start,
}

-- A round of a loop over workers: an error of RegisterSource ends the loop, otherwise the worker
-- comes before those of the later rounds.
unfoldable pub gather :
    ReactorWorker
    → Option Error × ReactorWorld
    → Result (List ReactorWorker) × ReactorWorld
    → Result (List ReactorWorker) × ReactorWorld
gather worker (some e, w) later = (err (Error.wrapped "register resident source %s" e), w)
gather worker (none, w) (later, w') = (later >>= λ others. ok (worker ∷ others), w')

-- The worker with a new credential.
unfoldable pub renewed : ReactorManager → WorkerSet → ReactorWorker → ReactorWorker
renewed m set worker =
    let claims : Claims = record {
      set_id = set.set_id;
      source_id = worker.source_id;
      reactor_id = set.reactor_id;
    } in
    record worker {
      gateway = record worker.gateway {
        ingest_token = issue_source_credential m.signer m.cfg.credential_signing_key claims;
      };
    }

-- The loop over the workers of a set that is launched again.
unfoldable pub renew_workers :
    ReactorManager
    → WorkerSet
    → List ReactorWorker
    → ReactorWorld
    → Result (List ReactorWorker) × ReactorWorld
unfolding register_source gather renewed
renew_workers m set [] w = (ok [], w)
renew_workers m set (worker ∷ workers) w =
    let registered = register_source m (renewed m set worker) w in
    gather (renewed m set worker) registered (renew_workers m set workers registered.1)

-- retryWorkerSet after its loop. On an error the source also returns the set as far as it was
-- changed, which its callers drop or only pass on.
unfoldable pub relaunch :
    ReactorManager
    → Time
    → WorkerSet
    → Result (List ReactorWorker)
    → ReactorWorld
    → SetReply × ReactorWorld
unfolding settle_start saved_set
relaunch m now set (err e) w = (record { set = some set; created = false; error = some e }, w)
relaunch m now set (ok workers) w =
    let ready = record set { workers = workers } in
    settle_start m now ready false (saved_set ready w)

unfoldable pub retry_worker_set :
    ReactorManager → Time → WorkerSet → ReactorWorld → SetReply × ReactorWorld
unfolding relaunch renew_workers
retry_worker_set m now set w =
    let starting = record set {
      lifecycle = SetLifecycle.starting;
      last_error = "";
      updated_at = now;
    } in
    let (workers, w') = renew_workers m set set.workers w in relaunch m now starting workers w'

-- A set that a registration finds.
unfoldable pub rejoin : ReactorManager → Time → WorkerSet → ReactorWorld → SetReply × ReactorWorld
unfolding retry_worker_set
rejoin m now set w = elim (is_relaunchable set.lifecycle) [
  | true ↦ retry_worker_set m now set w
  | false ↦ (record { set = some set; created = false; error = none }, w)
]
