-- ===== src/Fleet/Sessions.antt =====
-- backend/slurm-gateway/internal/gateway/fleet_board_intents.go: the activity of
-- sessions and their reconciliation.
use radiant_prj.Common.{
  ℕ, String, Bool, true, false, ◌||◌, Option, none, some, List, [], ◌∷◌, ◌++◌, if◌then◌else◌,
}
use radiant_prj.Common.Error.{Error, Result, error_text}
use radiant_prj.Fleet.Health.{TaskOutcome, Health, record_outcomes}
use radiant_prj.Simops.Types.{Time}
use radiant_prj.Fleet.Module.{
  IntentResult, ReactorIntents, FleetModule, intent_failure, error_of, join_outcomes, has_part,
}

module _ {W : Type 0} where
  -- recordSessionActivity: the first error ends the loop.
  unfoldable pub record_activity :
      List (Option (String → W → Option Error × W)) → String → W → Option Error × W
  record_activity [] session w = (none, w)
  record_activity (none ∷ recorders) session w = record_activity recorders session w
  record_activity (some touch ∷ recorders) session w =
      let touched = touch session w in
      elim touched.0 [
        | some e ↦ (some e, touched.1)
        | none ↦ record_activity recorders session touched.1
      ]

  -- A part of ReconcileSessionOutcomes with the name of its task; a part that is missing does nothing.
  unfoldable pub run_task : String → Option (W → Option Error × W) → W → List TaskOutcome × W
  run_task name none w = ([], w)
  run_task name (some part) w =
      let answer = part w in (record { name = name; error = answer.0 } ∷ [], answer.1)

  -- The context is asked before a task; the outcomes so far stay.
  unfoldable pub next_task :
      FleetModule W
      → String
      → Option (W → Option Error × W)
      → List TaskOutcome × W
      → List TaskOutcome × W
  unfolding run_task
  next_task m name part (earlier, w) = elim (m.context_error w) [
    | some e ↦ (earlier, w)
    | none ↦ let (later, w') = run_task name part w in (earlier ++ later, w')
  ]

  abbrev pub reactor_expiry : Option (ReactorIntents W) → Option (W → Option Error × W)
  reactor_expiry none = none
  reactor_expiry (some reactors) = some reactors.reconcile

  -- ReconcileExpired of the forge also returns a count, which is dropped.
  abbrev pub forge_expiry_of : Option (W → Result ℕ × W) → Option (W → Option Error × W)
  forge_expiry_of none = none
  forge_expiry_of (some expire) = some λ w. (error_of (expire w).0, (expire w).1)

  unfoldable pub reconcile_session_outcomes : FleetModule W → W → List TaskOutcome × W
  unfolding run_task next_task
  reconcile_session_outcomes m w = elim (m.context_error w) [
    | some e ↦ (record { name = "scheduler"; error = some e } ∷ [], w)
    | none ↦ next_task m "measured_retention" m.measured_retention (
        next_task m "artifact_forge_expiry" (forge_expiry_of m.forge_expiry)
          (run_task "reactor_expiry" (reactor_expiry m.reactor_telemetry) w))
  ]

  unfoldable pub reconcile_sessions : FleetModule W → W → Option Error × W
  unfolding reconcile_session_outcomes join_outcomes
  reconcile_sessions m w =
      let (outcomes, w') = reconcile_session_outcomes m w in (join_outcomes none outcomes, w')

  unfoldable pub reconcile_dynamic_reactors : FleetModule W → W → Option IntentResult × W
  unfolding reconcile_sessions intent_failure
  reconcile_dynamic_reactors m w =
      elim (has_part m.reactor_telemetry
        || has_part m.forge_expiry
        || has_part m.measured_retention) [
          | false ↦ (none, w)
          | true ↦
              let (answer, w') = reconcile_sessions m w in
              elim answer [
                | none ↦ (none, w')
                | some e ↦ (
                  some (
                      intent_failure 502 (error_text e) "fleet_board_session_reconciliation_failed"
                        none),
                  w',
                )
              ]
        ]

  -- ReconcileFleetBoardSessions of handlers.go: the health records the outcomes, unless the context was
  -- cancelled.
  unfoldable pub reconcile_fleet_board :
      FleetModule W → Time → Bool → Health → W → Option Error × Health × W
  unfolding reconcile_session_outcomes join_outcomes
  reconcile_fleet_board m now is_cancelled h w =
      let (outcomes, w') = reconcile_session_outcomes m w in
      (join_outcomes none outcomes, if is_cancelled then h else record_outcomes now outcomes h, w')
