-- ===== src/Fleet/Module.antt =====
-- backend/slurm-gateway/internal/gateway/fleet_board_intents.go: the parts of FleetBoardIntentModule. What it calls
-- are interfaces of the source, here records of functions on a world; Managers fills them. A module
-- that is nil, and the two methods that pass a configured data flush on, are not modelled.
use radiant_prj.Common.{
  ℕ, String, Bool, true, false, Option, none, some, List, [], ◌∷◌, if◌then◌else◌,
}
use radiant_prj.Common.Error.{Error, Result, ok, err, error_text, error_is, join}
use radiant_prj.Forge.Types.{ForgeRequest, ForgeRecord}
use radiant_prj.Forge.Rules.{is_rejected}
use radiant_prj.Reactors.Types.{RegisterRequest, RemoveRequest, WorkerSet}
use radiant_prj.Reactors.Manager.{SetReply, is_set_not_found}
use radiant_prj.Fleet.Health.{TaskOutcome}

pub record IntentRequest : Type 0 where
  pub intent : String
  pub game_session_id : String
  pub reactor_id : String
  pub simulation_job_id : String
  pub simulation_job_state : String
  pub simulation_recipe : String
  pub idempotency_key : String

pub data Body : Type 0 where
  failure : String → String → Option WorkerSet → Body
  registered_set : Bool → Option WorkerSet → Body
  removed_set : Option WorkerSet → Body
  forge_record : ForgeRecord → Body

pub record IntentResult : Type 0 where
  pub status : ℕ
  pub body : Body

-- DynamicReactorIntentManager
pub record ReactorIntents (W : Type 0) : Type 0 where
  pub register : RegisterRequest → W → SetReply × W
  pub remove : RemoveRequest → W → SetReply × W
  pub reconcile : W → Option Error × W

-- The parts of the module. A part may be missing; a recorder that is nil is passed over.
pub record FleetModule (W : Type 0) : Type 0 where
  pub reactor_telemetry : Option (ReactorIntents W)
  pub artifact_forge : Option (ForgeRequest → String → W → Result (ForgeRecord × Bool) × W)
  pub forge_expiry : Option (W → Result ℕ × W)
  pub measured_retention : Option (W → Option Error × W)
  pub activity : List (Option (String → W → Option Error × W))
  pub context_error : W → Option Error

abbrev pub is_session_cap : Error → Bool
is_session_cap e = error_is (λ f. elim f [ Error.session_cap_reached ↦ true | _ ↦ false ]) e

unfoldable pub intent_failure : ℕ → String → String → Option WorkerSet → IntentResult
intent_failure status message code set = record {
  status = status;
  body = Body.failure message code set;
}

abbrev pub error_of {ℓ} : {A : Type ℓ} → Result A → Option Error
error_of (ok a) = none
error_of (err e) = some e

unfoldable pub join_outcomes : Option Error → List TaskOutcome → Option Error
join_outcomes earlier [] = earlier
join_outcomes earlier (o ∷ os) = join_outcomes (join earlier o.error) os

abbrev pub has_part {ℓ} : {A : Type ℓ} → Option A → Bool
has_part none = false
has_part (some a) = true

-- The answer of RegisterDynamicReactor.
unfoldable pub register_result : SetReply → IntentResult
unfolding intent_failure
register_result reply = elim reply.error [
  | some e ↦
      if is_session_cap e
      then intent_failure 409 (error_text e) "reactor_telemetry_cap" none
      else intent_failure 502 (error_text e) "reactor_telemetry_failed" none
  | none ↦ record {
    status = if reply.created then 202 else 200;
    body = Body.registered_set reply.created reply.set;
  }
]

-- The answer of RemoveDynamicReactor. An error comes with the set, which is the zero value where
-- the manager found none.
unfoldable pub remove_result : SetReply → IntentResult
unfolding intent_failure
remove_result reply = elim reply.error [
  | some e ↦
      intent_failure (if is_set_not_found e then 404 else 502) (error_text e)
        "reactor_telemetry_cleanup_failed" reply.set
  | none ↦ record { status = 200; body = Body.removed_set reply.set }
]

unfoldable pub forge_result : Result (ForgeRecord × Bool) → IntentResult
unfolding intent_failure
forge_result (err e) = intent_failure 422 (error_text e) "artifact_forge_rejected" none
forge_result (ok (r, created)) = record {
  status = if is_rejected r.decision then 422 else if created then 202 else 200;
  body = Body.forge_record r;
}

unfoldable pub forge_request_of : IntentRequest → ForgeRequest
forge_request_of q = record {
  game_session_id = q.game_session_id;
  reactor_id = q.reactor_id;
  simulation_job_id = q.simulation_job_id;
  simulation_job_state = q.simulation_job_state;
  simulation_recipe = q.simulation_recipe;
  idempotency_key = q.idempotency_key;
}
