-- ===== src/Fleet/Managers.antt =====
-- The interfaces of Fleet/Module, filled by the two managers: backend/slurm-gateway/internal/gateway/
-- artifact_forge.go and reactor_telemetry_worker_set.go.
use radiant_prj.Common.{String, Option, none, some, List, [], ◌∷◌}
use radiant_prj.Common.Error.{Error}
use radiant_prj.Simops.Types.{Time}
use radiant_prj.Forge.Manager.{ForgeManager, ForgeWorld}
use radiant_prj.Forge.Intake.{request_forge, touched, reconcile_forge}
use radiant_prj.Reactors.Manager.{ReactorManager, ReactorWorld, touch_reactors}
use radiant_prj.Reactors.Registration.{register_reactor}
use radiant_prj.Reactors.Cleanup.{remove_reactor, reconcile_expired}
use radiant_prj.Fleet.Module.{ReactorIntents, FleetModule}

pub record FleetWorld : Type 0 where
  pub reactors : ReactorWorld
  pub forge : ForgeWorld

abbrev pub in_reactors :
    {A : Type 0} → (ReactorWorld → A × ReactorWorld) → FleetWorld → A × FleetWorld
in_reactors act w = ((act w.reactors).0, record w { reactors = (act w.reactors).1 })

abbrev pub in_forge : {A : Type 0} → (ForgeWorld → A × ForgeWorld) → FleetWorld → A × FleetWorld
in_forge act w = ((act w.forge).0, record w { forge = (act w.forge).1 })

abbrev pub reactor_intents : ReactorManager → Time → ReactorIntents FleetWorld
reactor_intents m now = record {
  register = λ q. in_reactors (register_reactor m now q);
  remove = λ q. in_reactors (remove_reactor m now q);
  reconcile = in_reactors (reconcile_expired m now);
}

-- The recorders of the managers that the gateway has.
unfoldable pub recorders :
    Option ReactorManager
    → Option ForgeManager
    → Time
    → List (Option (String → FleetWorld → Option Error × FleetWorld))
recorders none none now = []
recorders (some reactors) none now =
    some (λ session. in_reactors λ w. (none, touch_reactors reactors now session w)) ∷ []
recorders none (some forge) now = some (λ session. in_forge λ w. (none, touched now session w)) ∷ []
recorders (some reactors) (some forge) now =
    some (λ session. in_reactors λ w. (none, touch_reactors reactors now session w))
    ∷ some (λ session. in_forge λ w. (none, touched now session w))
    ∷ []

-- newFleetBoardIntentModule, with the workbench's measured retention. `run_id` and `token` are those
-- that a new run draws; the context is asked as a function of the world.
unfoldable pub fleet_module :
    Option ReactorManager
    → Option ForgeManager
    → Option (FleetWorld → Option Error × FleetWorld)
    → (FleetWorld → Option Error)
    → Time
    → String
    → String
    → FleetModule FleetWorld
unfolding recorders
fleet_module reactors forge retention context_error now run_id token = record {
  reactor_telemetry = elim reactors [ none ↦ none | some m ↦ some (reactor_intents m now) ];
  artifact_forge = elim forge [
    | none ↦ none
    | some m ↦ some λ q identity. in_forge (request_forge m now run_id token q identity)
  ];
  forge_expiry = elim forge [
    | none ↦ none
    | some m ↦ some λ w. in_forge (reconcile_forge (context_error w) now) w
  ];
  measured_retention = retention;
  activity = recorders reactors forge now;
  context_error = context_error;
}
