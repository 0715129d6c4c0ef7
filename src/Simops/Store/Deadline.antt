-- ===== src/Simops/Store/Deadline.antt =====
-- What a change of a run's lifecycle does to its launch deadline.
use radiant_prj.Common.{String, ◌≡◌, ◌⊎◌, some, inl, inr, arith, Option-cases}
use radiant_prj.Common.Error.{ok}
use radiant_prj.Common.Dict.{lookup, lookup-insert_self}
use radiant_prj.Simops.Types.{Time, Lifecycle, RunRecord, Event, PublicationIntent}
use radiant_prj.Simops.State.{ensure_run_state}
use radiant_prj.Simops.Store.{Store, get_run, update_run_lifecycle, with_lifecycle}
use radiant_prj.Simops.Store.Intents.{update_run_lifecycle_with_publication_intent}

updated_drops :
    (run_id : String) (l : Lifecycle) (now : Time) (s s' : Store) (r : RunRecord)
    → update_run_lifecycle run_id l now s ≡ ok (r, s')
    → (lookup run_id s'.runs ≡ some r)
      × (r.lifecycle ≡ l)
      × (r.state.launch_observation_deadline ≡ 0)
unfolding update_run_lifecycle get_run with_lifecycle ensure_run_state
updated_drops run_id l now s s' r h = elim (Option-cases (lookup run_id s.runs)) [
  | inl e ↦ absurd (ground arith)
  | inr (x, e) ↦
      let self = lookup-insert_self run_id (with_lifecycle l now x) s.runs in
      (ground arith, ground arith, ground arith)
]

intended_drops :
    (run_id : String) (l : Lifecycle) (e : Event) (now : Time) (s s' : Store) (r : RunRecord)
    (i : PublicationIntent)
    → update_run_lifecycle_with_publication_intent run_id l e now s ≡ ok (r, i, s')
    → (lookup run_id s'.runs ≡ some r)
      × (r.lifecycle ≡ l)
      × (r.state.launch_observation_deadline ≡ 0)
unfolding update_run_lifecycle_with_publication_intent get_run with_lifecycle ensure_run_state
intended_drops run_id l e now s s' r i h = elim (Option-cases (lookup run_id s.runs)) [
  | inl x ↦ absurd (ground arith)
  | inr (x, y) ↦
      let self = lookup-insert_self run_id (with_lifecycle l now x) s.runs in
      (ground arith, ground arith, ground arith)
]

-- When UpdateRunLifecycle or UpdateRunLifecycleWithPublicationIntent succeeds, the run that it returns
-- is the stored run, in the lifecycle asked for, and its launch deadline is the zero time, whatever the
-- deadline was before.
pub lifecycle_drops_deadline :
    (run_id : String) (l : Lifecycle) (e : Event) (now : Time) (s s' : Store) (r : RunRecord)
    → (update_run_lifecycle run_id l now s ≡ ok (r, s'))
      ⊎ ((i : PublicationIntent) × (update_run_lifecycle_with_publication_intent run_id l e now s
            ≡ ok (r, i, s')))
    → (lookup run_id s'.runs ≡ some r)
      × (r.lifecycle ≡ l)
      × (r.state.launch_observation_deadline ≡ 0)
lifecycle_drops_deadline run_id l e now s s' r (inl h) = updated_drops run_id l now s s' r h
lifecycle_drops_deadline run_id l e now s s' r (inr (i, h)) =
    intended_drops run_id l e now s s' r i h
