-- ===== src/Fleet/Health.antt =====
-- backend/slurm-gateway/internal/gateway/lifecycle_health.go: LifecycleHealth without its Prometheus
-- text. Each method holds the lock. A health that is nil is not modelled; a health that is not enabled
-- behaves in the same way, but that its state is what it was made with.
pub mod Verdict
use radiant_prj.Common.{
  ℕ, ◌+◌, ◌-◌, String, ◌==◌, Bool, true, false, not, ◌&&◌, ◌||◌, Option, none, some, List, [], ◌∷◌,
  ltb, ◌==ℕ◌, if◌then◌else◌,
}
use radiant_prj.Common.Error.{Error, error_text}
use radiant_prj.Common.Dict.{Dict, lookup, insert}
use radiant_prj.Simops.Types.{Time}

pub data HealthState : Type 0 where
  disabled starting ready degraded not_ready : HealthState

pub record TaskOutcome : Type 0 where
  pub name : String
  pub error : Option Error

pub record Health : Type 0 where
  pub enabled : Bool
  pub state : HealthState
  pub last_run : Time
  pub last_error : String
  pub last_success : Time
  pub tasks : Dict (Option Error)
  pub task_success : Dict Time

-- The longest age of a task's success, which is two minutes for the three tasks of
-- lifecycleTaskPolicy, which are all required; none for any other task.
unfoldable pub max_success_age : String → Option ℕ
max_success_age name =
    if name == "reactor_expiry" || name == "artifact_forge_expiry" || name == "measured_retention"
    then some 120000000000
    else none

unfoldable pub new_health : Bool → Health
new_health enabled = record {
  enabled = enabled;
  state = if enabled then HealthState.starting else HealthState.disabled;
  last_run = 0;
  last_error = "";
  last_success = 0;
  tasks = [];
  task_success = [];
}

abbrev pub has_failed : Option Error → Bool
has_failed none = false
has_failed (some e) = true

-- The loop of RecordOutcomes.
unfoldable pub record_tasks : Time → List TaskOutcome → Health → Health
record_tasks now [] h = h
record_tasks now (o ∷ os) h = record_tasks now os (record h {
  tasks = insert o.name o.error h.tasks;
  task_success = if has_failed o.error then h.task_success else insert o.name now h.task_success;
})

unfoldable pub any_failed : List TaskOutcome → Bool
any_failed [] = false
any_failed (o ∷ os) = has_failed o.error || any_failed os

unfoldable pub settle_health : Time → Bool → Health → Health
settle_health now true h = record h {
  state = if h.last_success ==ℕ 0 then HealthState.not_ready else HealthState.degraded;
}
settle_health now false h = record h {
  state = HealthState.ready;
  last_error = "";
  last_success = now;
}

unfoldable pub record_outcomes : Time → List TaskOutcome → Health → Health
unfolding record_tasks any_failed settle_health
record_outcomes now os h =
    if h.enabled
    then settle_health now (any_failed os)
        (record_tasks now os (record h { last_run = now; tasks = [] }))
    else h

unfoldable pub record_error : Time → Option Error → Health → Health
record_error now error h =
    if h.enabled
    then elim error [
      | none ↦ record h { last_run = now; state = HealthState.ready; last_error = "" }
      | some e ↦ record h {
        last_run = now;
        state = HealthState.not_ready;
        last_error = error_text e;
      }
    ]
    else h

-- The last success of a task is missing, or older than the age. The success may lie ahead of `now`.
unfoldable pub is_stale : Time → ℕ → Option Time → Bool
is_stale now age none = true
is_stale now age (some at) = at ==ℕ 0 || ltb (at + age) now

-- A task that failed in the last run, is required and has no recent success.
unfoldable pub is_overdue : Time → Dict Time → String → Option Error → Bool
unfolding max_success_age is_stale
is_overdue now successes name none = false
is_overdue now successes name (some e) = elim (max_success_age name) [
  | none ↦ false
  | some age ↦ is_stale now age (lookup name successes)
]

unfoldable pub any_overdue : Time → Dict Time → Dict (Option Error) → Bool
unfolding is_overdue
any_overdue now successes [] = false
any_overdue now successes ((name, outcome) ∷ tasks) =
    is_overdue now successes name outcome || any_overdue now successes tasks

abbrev pub has_recorded : HealthState → Bool
has_recorded HealthState.disabled = false
has_recorded HealthState.starting = false
has_recorded _ = true

unfoldable pub state_at : Time → Health → HealthState
unfolding any_overdue
state_at now h =
    if h.enabled && has_recorded h.state && any_overdue now h.task_success h.tasks
    then HealthState.not_ready
    else h.state
