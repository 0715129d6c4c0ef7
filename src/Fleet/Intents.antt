-- ===== src/Fleet/Intents.antt =====
-- backend/slurm-gateway/internal/gateway/fleet_board_intents.go: the intents.
use radiant_prj.Common.{String, ◌==◌, Bool, true, false, ◌||◌, Option, none, some}
use radiant_prj.Common.Error.{Result, ok, err, error_text}
use radiant_prj.Forge.Types.{ForgeRequest, ForgeRecord}
use radiant_prj.Forge.Rules.{normalize_forge_request, validate_forge_identity}
use radiant_prj.Reactors.Registration.{validate_reactor_identity}
use radiant_prj.Fleet.Module.{
  IntentRequest, IntentResult, ReactorIntents, FleetModule, intent_failure, register_result,
  remove_result, forge_result, forge_request_of,
}
use radiant_prj.Fleet.Sessions.{record_activity}

module _ {W : Type 0} where
  unfoldable pub register_intent :
      FleetModule W → ReactorIntents W → IntentRequest → W → IntentResult × W
  unfolding intent_failure record_activity register_result
  register_intent m reactors q w =
      elim (validate_reactor_identity q.game_session_id q.reactor_id q.idempotency_key) [
        | err e ↦ (intent_failure 502 (error_text e) "reactor_telemetry_failed" none, w)
        | ok _ ↦
            let (activity, w1) = record_activity m.activity q.game_session_id w in
            elim activity [
              | some e ↦
                  (intent_failure 502 (error_text e) "fleet_board_session_activity_failed" none, w1)
              | none ↦
                  let (reply, w2) =
                    reactors.register
                      (record {
                        game_session_id = q.game_session_id;
                        reactor_id = q.reactor_id;
                        idempotency_key = q.idempotency_key;
                      })
                      w1 in
                  (register_result reply, w2)
            ]
      ]

  unfoldable pub remove_intent : ReactorIntents W → IntentRequest → W → IntentResult × W
  unfolding intent_failure remove_result
  remove_intent reactors q w =
      elim (validate_reactor_identity q.game_session_id q.reactor_id q.idempotency_key) [
        | err e ↦ (intent_failure 502 (error_text e) "reactor_telemetry_cleanup_failed" none, w)
        | ok _ ↦
            let (reply, w') =
              reactors.remove
                (record {
                  game_session_id = q.game_session_id;
                  reactor_id = q.reactor_id;
                  idempotency_key = q.idempotency_key;
                })
                w in
            (remove_result reply, w')
      ]

  -- No result if the intent is another one.
  unfoldable pub execute_dynamic_reactor :
      FleetModule W → IntentRequest → W → Option IntentResult × W
  unfolding register_intent remove_intent intent_failure
  execute_dynamic_reactor m q w =
      elim (q.intent == "registerDynamicReactor" || q.intent == "removeDynamicReactor") [
        | false ↦ (none, w)
        | true ↦ elim m.reactor_telemetry [
          | none ↦ (
            some (
                intent_failure 404 "Reactor Telemetry backend disabled" "reactor_telemetry_disabled"
                  none),
            w,
          )
          | some reactors ↦ elim (q.intent == "registerDynamicReactor") [
            | true ↦ let (r, w') = register_intent m reactors q w in (some r, w')
            | false ↦ let (r, w') = remove_intent reactors q w in (some r, w')
          ]
        ]
      ]

  unfoldable pub forge_intent :
      FleetModule W
      → (ForgeRequest → String → W → Result (ForgeRecord × Bool) × W)
      → ForgeRequest
      → String
      → W
      → IntentResult × W
  unfolding intent_failure record_activity forge_result
  forge_intent m ask q identity w = elim (validate_forge_identity q) [
    | err e ↦ (intent_failure 422 (error_text e) "artifact_forge_rejected" none, w)
    | ok _ ↦
        let (activity, w1) = record_activity m.activity q.game_session_id w in
        elim activity [
          | some e ↦
              (intent_failure 502 (error_text e) "fleet_board_session_activity_failed" none, w1)
          | none ↦ let (answer, w2) = ask q identity w1 in (forge_result answer, w2)
        ]
  ]

  unfoldable pub execute_artifact_forge :
      FleetModule W → IntentRequest → String → W → Option IntentResult × W
  unfolding forge_intent forge_request_of intent_failure
  execute_artifact_forge m q identity w = elim (q.intent == "requestArtifactForge") [
    | false ↦ (none, w)
    | true ↦ elim m.artifact_forge [
      | none ↦ (
        some (intent_failure 404 "Artifact Forge backend disabled" "artifact_forge_disabled" none),
        w,
      )
      | some ask ↦
          let (r, w') =
            forge_intent m ask (normalize_forge_request (forge_request_of q)) identity w in
          (some r, w')
    ]
  ]
