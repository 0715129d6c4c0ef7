-- ===== src/Fleet/Health/Verdict.antt =====
-- When the health is ready.
use radiant_prj.Common.{
  ◌⊎◌, ◌≡◌, refl, Bool, true, false, not, Option, none, some, List, [], ◌∷◌, inl, inr, arith,
  Bool-cases,
}
use radiant_prj.Common.Error.{Error}
use radiant_prj.Common.Dict.{Dict, AllValues, AllValues-insert}
use radiant_prj.Simops.Types.{Time}
use radiant_prj.Fleet.Health.{
  HealthState, TaskOutcome, Health, has_failed, record_tasks, any_failed, settle_health,
  record_outcomes, is_overdue, any_overdue, state_at,
}

abbrev pub is_ready : HealthState → Bool
is_ready HealthState.ready = true
is_ready _ = false

abbrev Succeeded : Option Error → Type 0
Succeeded e = e ≡ none

failed_none : (e : Option Error) → has_failed e ≡ false → e ≡ none
failed_none none h = refl
failed_none (some e) h = cc

recorded-Succeeded :
    (now : Time) (os : List TaskOutcome) (h : Health)
    → any_failed os ≡ false
    → AllValues Succeeded h.tasks
    → AllValues Succeeded (record_tasks now os h).tasks
unfolding record_tasks any_failed
recorded-Succeeded now [] h none_failed all = all
recorded-Succeeded now (o ∷ os) h none_failed all =
    recorded-Succeeded now os _ (ground arith)
      (AllValues-insert Succeeded o.name o.error h.tasks (failed_none o.error (ground arith)) all)

never_overdue :
    (now : Time) (successes : Dict Time) (tasks : Dict (Option Error))
    → AllValues Succeeded tasks
    → any_overdue now successes tasks ≡ false
unfolding any_overdue is_overdue
never_overdue now successes [] all = refl
never_overdue now successes ((name, e) ∷ tasks) (at, all) =
    ground (arith, at, never_overdue now successes tasks all)

recorded_enabled :
    (now : Time) (os : List TaskOutcome) (h : Health)
    → ((record_tasks now os h).enabled ≡ h.enabled)
      × ((record_tasks now os h).last_success ≡ h.last_success)
unfolding record_tasks
recorded_enabled now [] h = (refl, refl)
recorded_enabled now (o ∷ os) h = recorded_enabled now os _

-- When the outcomes of a reconciliation are recorded on an enabled health, the health is ready exactly
-- if none of these outcomes is an error. This is so even if there is no outcome at all, and at any
-- later time, however long after, while nothing else is recorded. If one is an error, the health is not
-- ready where no earlier record was a success, and degraded or not ready elsewhere.
pub ready_unless_failed :
    (now later : Time) (os : List TaskOutcome) (h : Health)
    → h.enabled ≡ true
    → let state = state_at later (record_outcomes now os h) in
      (is_ready state ≡ not (any_failed os))
      × (any_failed os ≡ true → h.last_success ≡ 0 → state ≡ HealthState.not_ready)
      × (any_failed os ≡ true → (state ≡ HealthState.degraded) ⊎ (state ≡ HealthState.not_ready))
unfolding state_at record_outcomes settle_health
ready_unless_failed now later os h on =
    let start : Health = record h { last_run = now; tasks = [] } in
    let ran = record_tasks now os start in
    let (enabled, success) = recorded_enabled now os start in
    elim (Bool-cases (any_failed os)) [
      | inl p ↦ (ground arith, λ _ never. ground arith, λ _. ground arith)
      | inr p ↦
          let calm =
            never_overdue later ran.task_success ran.tasks (recorded-Succeeded now os start p tt) in
          (ground arith, λ q. absurd (ground arith), λ q. absurd (ground arith))
    ]
