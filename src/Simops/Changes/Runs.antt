-- ===== src/Simops/Changes/Runs.antt =====
-- No call removes a run, and none changes what the run was created with.
use mathlib.Core.Path.{subst}
use radiant_prj.Common.{
  inl, inr, Bool-cases, Option-cases, String, ◌==◌, ◌≡◌, Bool, some, List, arith, eq_iff,
}
use radiant_prj.Common.Error.{ok}
use radiant_prj.Common.Dict.{lookup, insert, values, has, lookup-insert, inner}
use radiant_prj.Simops.Types.{
  Lifecycle, RunRecord, WorkerRecord, SpoolCommand, Time, Event, PublicationIntent, StopTransition,
  StopOutcome, ObservedWorkerLifecycle,
}
use radiant_prj.Simops.State.{ensure_run_state}
use radiant_prj.Simops.Store.{Store, create_run, get_run, with_lifecycle, update_run_lifecycle}
use radiant_prj.Simops.Store.Observe.{
  observe_worker, put_worker, find_worker, judge_run, update_worker_observed_lifecycle,
}
use radiant_prj.Simops.Store.Stop.{stop_run, transition_time, apply_stop_transition}
use radiant_prj.Simops.Store.Intents.{put_intent, update_run_lifecycle_with_publication_intent}

-- What a run is created with, its clock and its credentials included.
pub record SameOrigin (r r' : RunRecord) : Type 0 where
  pub run_id : r'.run_id ≡ r.run_id
  pub scenario_id : r'.scenario_id ≡ r.scenario_id
  pub source : r'.source ≡ r.source
  pub work_script : r'.work_script ≡ r.work_script
  pub launch_mode : r'.launch_mode ≡ r.launch_mode
  pub runtime_limit_sec : r'.runtime_limit_sec ≡ r.runtime_limit_sec
  pub idempotency_key : r'.idempotency_key ≡ r.idempotency_key
  pub submitted_by : r'.submitted_by ≡ r.submitted_by
  pub ingest_token : r'.ingest_token ≡ r.ingest_token
  pub created_at : r'.created_at ≡ r.created_at

pub SameOrigin-refl : (r : RunRecord) → SameOrigin r r
SameOrigin-refl r = ground arith

pub record Kept (s u : Store) : Type 0 where
  pub run :
      (k : String) (r : RunRecord)
      → lookup k s.runs ≡ some r
      → (r' : RunRecord) × (lookup k u.runs ≡ some r') × SameOrigin r r'

-- The runs are the same, or one existing run is replaced by one of the same origin.
pub Kept-same : (s u : Store) → u.runs ≡ s.runs → Kept s u
Kept-same s u e = record { run = λ k r h. (r, rw e h, SameOrigin-refl r) }

pub Kept-insert :
    (s u : Store) (id : String) (r r' : RunRecord)
    → lookup id s.runs ≡ some r
    → SameOrigin r r'
    → u.runs ≡ insert id r' s.runs
    → Kept s u
Kept-insert s u id r r' found same e = record {
  run = λ k x h. elim (Bool-cases (id == k)) [
    | inl here ↦
        let at : lookup k u.runs ≡ some r' = rw (e, lookup-insert id k r' s.runs, here) in
        let p : r ≡ x = cc ((eq_iff id k).0 here) in (r', at, subst (λ y. SameOrigin y r') p same)
    | inr there ↦
        let at : lookup k u.runs ≡ some x = rw (e, lookup-insert id k r' s.runs, there) h in
        (x, at, SameOrigin-refl x)
  ];
}

pub create-runs :
    (r r' : RunRecord) (ws : List WorkerRecord) (cs : List SpoolCommand) (is_new : Bool)
    (s u : Store)
    → create_run r ws cs s ≡ ok (r', is_new, u)
    → (k : String) (x : RunRecord) → lookup k s.runs ≡ some x
    → lookup k u.runs ≡ some x
unfolding create_run has
create-runs r r' ws cs is_new s u e k x h = ground (
  arith,
  eq_iff r.run_id k,
  lookup-insert r.run_id k (record r { state = ensure_run_state r.lifecycle r.state }) s.runs,
)

-- What a successful call says of the run that it rewrites.
pub move_inv :
    (id : String) (l : Lifecycle) (now : Time) (s u : Store) (r' : RunRecord)
    → update_run_lifecycle id l now s ≡ ok (r', u)
    → (r : RunRecord) × (lookup id s.runs ≡ some r)
      × (r' ≡ with_lifecycle l now r)
      × (u.runs ≡ insert id r' s.runs)
      × (u.idempotency ≡ s.idempotency)
unfolding update_run_lifecycle get_run
move_inv id l now s u r' h = elim (Option-cases (lookup id s.runs)) [
  | inl e ↦ absurd (ground arith)
  | inr (r, e) ↦ (r, e, ground arith, ground arith, ground arith)
]

pub move_with_intent_inv :
    (id : String) (l : Lifecycle) (e : Event) (now : Time) (s u : Store) (r' : RunRecord)
    (i : PublicationIntent)
    → update_run_lifecycle_with_publication_intent id l e now s ≡ ok (r', i, u)
    → (r : RunRecord) × (lookup id s.runs ≡ some r)
      × (r' ≡ with_lifecycle l now r)
      × (u.runs ≡ insert id r' s.runs)
      × (u.idempotency ≡ s.idempotency)
unfolding update_run_lifecycle_with_publication_intent get_run
move_with_intent_inv id l ev now s u r' i h = elim (Option-cases (lookup id s.runs)) [
  | inl e ↦ absurd (ground arith)
  | inr (r, e) ↦ (r, e, ground arith, ground arith, ground arith)
]

unfoldable pub observed_run :
    RunRecord → WorkerRecord → ObservedWorkerLifecycle → Time → Store → RunRecord
observed_run r w o now s =
    let w' = observe_worker w o now in
    let s' = put_worker o.run_id o.worker_id w' s in
    judge_run r (values (inner o.run_id s'.workers_by_run)) w'.updated_at

pub observe_inv :
    (o : ObservedWorkerLifecycle) (now : Time) (s u : Store)
    → update_worker_observed_lifecycle o now s ≡ ok u
    → (r : RunRecord) × (w : WorkerRecord) × (lookup o.run_id s.runs ≡ some r)
      × (lookup o.worker_id (inner o.run_id s.workers_by_run) ≡ some w)
      × (u.runs ≡ insert o.run_id (observed_run r w o now s) s.runs)
      × (u.idempotency ≡ s.idempotency)
unfolding update_worker_observed_lifecycle get_run find_worker observed_run put_worker
observe_inv o now s u h = elim (Option-cases (lookup o.run_id s.runs)) [
  | inl e ↦ absurd (ground arith)
  | inr (r, e) ↦ elim (Option-cases (lookup o.worker_id (inner o.run_id s.workers_by_run))) [
    | inl f ↦ absurd (ground arith)
    | inr (w, f) ↦ (r, w, e, f, ground arith, ground arith)
  ]
]

pub stop_inv :
    (t : StopTransition) (clock : Time) (s u : Store) (o : StopOutcome)
    → apply_stop_transition t clock s ≡ ok (o, u)
    → (r : RunRecord) × (lookup t.run_id s.runs ≡ some r)
      × (o.run ≡ stop_run t (transition_time t clock) r o.workers)
      × (u.runs ≡ insert t.run_id o.run s.runs)
      × (u.idempotency ≡ s.idempotency)
unfolding apply_stop_transition get_run put_intent
stop_inv t clock s u o h = elim (Option-cases (lookup t.run_id s.runs)) [
  | inl e ↦ absurd (ground arith)
  | inr (r, e) ↦ (r, e, ground arith, ground arith, ground arith)
]
