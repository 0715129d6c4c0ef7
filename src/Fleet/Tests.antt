-- ===== src/Fleet/Tests.antt =====
-- The health, at an example.
use radiant_prj.Common.Dict.{insert, lookup}
use radiant_prj.Common.{◌≡◌, refl, true, not, none, some, [], ◌∷◌, List, ◌⊎◌}
use radiant_prj.Common.Error.{Error}
use radiant_prj.Fleet.Health.{
  TaskOutcome, new_health, any_failed, record_outcomes, state_at, HealthState, record_tasks,
  settle_health, any_overdue, is_overdue, max_success_age, is_stale,
}
use radiant_prj.Fleet.Health.Verdict.{is_ready, ready_unless_failed}

abbrev outcomes : List TaskOutcome
outcomes =
    record { name = "reactor_expiry"; error = none }
    ∷ record { name = "artifact_forge_expiry"; error = some (Error.message "busy") }
    ∷ []

abbrev calm : List TaskOutcome
calm = record { name = "reactor_expiry"; error = none } ∷ []

busy_not_ready :
    state_at 9 (record_outcomes 5 outcomes (record_outcomes 3 calm (new_health true)))
    ≡ HealthState.not_ready
unfolding new_health record_outcomes record_tasks any_failed settle_health state_at any_overdue
    is_overdue max_success_age is_stale insert lookup
busy_not_ready = refl

-- An hour after the record, and with one of the three tasks only.
ready_unless_failed_example :
    let state = state_at 3600000000005 (record_outcomes 5 calm (new_health true)) in
    (is_ready state ≡ not (any_failed calm))
    × (any_failed calm ≡ true → (new_health true).last_success ≡ 0 → state ≡ HealthState.not_ready)
    × (any_failed calm ≡ true → (state ≡ HealthState.degraded) ⊎ (state ≡ HealthState.not_ready))
unfolding new_health
ready_unless_failed_example = ready_unless_failed 5 3600000000005 calm (new_health true) refl
