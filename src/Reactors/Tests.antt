-- ===== src/Reactors/Tests.antt =====
-- Examples of the worker sets, and their theorems at them.
use radiant_prj.Reactors.Sources.{stable_telemetry_id}
use radiant_prj.Simops.Controller.{reached_limit}
use radiant_prj.Common.Text.{trim_space}
use radiant_prj.Common.{◌≡◌, refl, sym, subst, false, none, some, [], ◌∷◌, arith, eq_iff}
use radiant_prj.Common.Error.{Error, ok, error_is}
use radiant_prj.Common.Dict.{Dict, lookup, values, insert}
use radiant_prj.Simops.Types.{ℤ}
use radiant_prj.Reactors.Types.{
  RegisterRequest, RemoveRequest, SetLifecycle, WorkerSet, contract_reactor_runtime,
}
use radiant_prj.Reactors.Config.{default_reactor_config, validate_reactor_config, rounds}
use radiant_prj.Reactors.Store.{
  new_reactor_store, get_worker_set, telemetry_store_key, find_registration, list_worker_sets,
  save_worker_set,
}
use radiant_prj.Reactors.Manager.{ReactorManager, ReactorWorld, is_removed}
use radiant_prj.Reactors.Registration.{register_reactor, validate_reactor_identity}
use radiant_prj.Reactors.Credential.{
  Claims, Signer, has_dot, issue_source_credential, are_claims_set, verify_source_credential,
  cut_dot, read_claims,
}
use radiant_prj.Reactors.Credential.Verified.{verify-issue}
use radiant_prj.Reactors.Cleanup.{remove_reactor, authorize_source_credential}
use radiant_prj.Reactors.Cleanup.Unauthorized.{HasOwnId, removed_unauthorized}
use radiant_prj.Reactors.Changes.{IsSound, set_key}
use radiant_prj.Reactors.Changes.Admissions.{limit}
use radiant_prj.Reactors.Reached.{Reached, reached-IsSound}

abbrev first_claims : Claims
first_claims = record { set_id = "rts-S1"; source_id = "src-1"; reactor_id = "R1" }

-- A signer that knows one payload.
abbrev signer : Signer
signer = record {
  marshal_claims = λ c. "claims";
  unmarshal_claims = λ s. ok first_claims;
  encode = λ s. s;
  decode = λ s. ok s;
  mac = λ key s. "mac";
}

verify-issue_example :
    verify_source_credential signer "key" (issue_source_credential signer "key" first_claims)
    ≡ some first_claims
unfolding has_dot are_claims_set
verify-issue_example = verify-issue signer "key" first_claims refl refl refl refl refl refl

abbrev manager : ReactorManager
manager = record {
  cfg = default_reactor_config;
  runtime = record contract_reactor_runtime {
    stop_worker_set = λ calls id. some (Error.message "busy");
  };
  sources = none;
  signer = signer;
  digest = λ s. "S1";
  context_error = λ calls. none;
}

abbrev asked : RegisterRequest
asked = record { game_session_id = "S1"; reactor_id = "R1"; idempotency_key = "K1" }

abbrev dismissed : RemoveRequest
dismissed = record { game_session_id = "S1"; reactor_id = "R1"; idempotency_key = "K2" }

abbrev empty : ReactorWorld
empty = record { store = new_reactor_store; calls = [] }

abbrev registered : ReactorWorld
registered = (register_reactor manager 5 asked empty).1

registered_reached : Reached manager registered
registered_reached = Reached.registered 5 asked empty (Reached.at_first [])

reached-IsSound_example : IsSound (limit manager) registered.store
reached-IsSound_example = reached-IsSound manager registered_reached

only_set : Dict WorkerSet → WorkerSet
only_set ((k, set) ∷ m) = set
only_set [] = record {
  set_id = "";
  game_session_id = "";
  reactor_id = "";
  register_idempotency = "";
  remove_idempotency = "";
  lifecycle = SetLifecycle.starting;
  workers = [];
  credentials_revoked = false;
  created_at = 0;
  updated_at = 0;
  expires_at = 0;
  measured_retention_sec = ℤ.pos 0;
  cleanup_deadline = 0;
  last_error = "";
}

abbrev first_set : WorkerSet
first_set = only_set registered.store.sets

first_set_stored :
    (get_worker_set "S1" "R1" registered.store ≡ ok first_set)
    × (is_removed first_set.lifecycle ≡ false)
    × (registered.store ≡ record { sets = (set_key first_set, first_set) ∷ [] })
unfolding get_worker_set register_reactor only_set lookup validate_reactor_config trim_space
    find_registration values error_is reached_limit list_worker_sets rounds save_worker_set insert
    telemetry_store_key
first_set_stored = (refl, refl, refl)

alone-HasOwnId : (set : WorkerSet) → HasOwnId set (record { sets = (set_key set, set) ∷ [] })
unfolding lookup
alone-HasOwnId set k x at apart =
    absurd (ground (arith, eq_iff k (set_key set), eq_iff (set_key set) k))

dismissed_valid : validate_reactor_identity "S1" "R1" "K2" ≡ ok tt
unfolding validate_reactor_identity trim_space
dismissed_valid = refl

first_verified :
    verify_source_credential signer "local-reactor-telemetry-signing-key" "claims.mac"
    ≡ some first_claims
unfolding verify_source_credential cut_dot has_dot read_claims are_claims_set
first_verified = refl

first_named : first_claims.set_id ≡ first_set.set_id
unfolding only_set register_reactor validate_reactor_config trim_space find_registration values
    error_is reached_limit list_worker_sets rounds save_worker_set insert lookup get_worker_set
    telemetry_store_key stable_telemetry_id
first_named = refl

removed_unauthorized_example :
    authorize_source_credential manager 9 "claims.mac" "src-1" "R1"
      (remove_reactor manager 7 dismissed registered).1
    ≡ false
removed_unauthorized_example =
    removed_unauthorized manager 7 dismissed registered first_set dismissed_valid first_set_stored.0
      first_set_stored.1 registered_reached refl
      (subst (HasOwnId first_set) (sym first_set_stored.2) (alone-HasOwnId first_set)) 9
      "claims.mac" "src-1" "R1" first_claims first_verified first_named
