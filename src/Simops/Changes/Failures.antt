-- ===== src/Simops/Changes/Failures.antt =====
-- A stored worker's failure is never taken back, and its evidence is only added to.
pub mod InPlace
use mathlib.Core.Path.{subst}
use radiant_prj.Common.{
  ℕ, ◌+◌, String, ◌≡◌, refl, sym, ◌∙◌, ap, ◌==◌, Bool, true, false, some, List, [], ◌∷◌, inl, inr,
  arith, eq_iff, Bool-cases, Option-cases, Option, none,
}
use radiant_prj.Common.Error.{ok, ok_inj, Result-cases}
use radiant_prj.Common.Dict.{Dict, lookup, inner, insert, lookup-insert, inner-insert, values}
use radiant_prj.Simops.Types.{
  Time, Lifecycle, WorkerState, WorkerRecord, ObservedWorkerLifecycle, StopTransition, StopOutcome,
  RunRecord,
}
use radiant_prj.Simops.State.{worker_phase_set, ensure_worker_state}
use radiant_prj.Simops.Facts.{
  apply_worker_runtime_observation, apply_worker_cleanup_outcome, apply_degradation,
}
use radiant_prj.Simops.Store.{Store, get_run}
use radiant_prj.Simops.Store.Observe.{
  find_worker, put_worker, observe_worker, observe_worker_state, apply_observed_worker_lifecycle,
  update_worker_frames, update_worker_observed_lifecycle,
}
use radiant_prj.Simops.Store.Stop.{
  stop_worker, stop_workers, stop_worker_state, store_stopped, announce, apply_stop_transition,
  transition_time, stop_run,
}
use radiant_prj.Simops.Store.Intents.{put_intent}
use radiant_prj.Simops.Worker.{Step, observed, stopped}
use radiant_prj.Simops.Worker.History.{Extends, Extends-refl, Extends-trans, Step-Extends}
use radiant_prj.Simops.Changes.{Change}
use radiant_prj.Simops.Changes.Workers.{SameWorkers}

abbrev pub is_set : WorkerRecord → Bool
is_set w = worker_phase_set w.state.phase

abbrev pub stored_worker : String → String → Store → Option WorkerRecord
stored_worker run_id worker_id s = lookup worker_id (inner run_id s.workers_by_run)

-- The record that takes the place of another one.
pub record Succeeds (w w' : WorkerRecord) : Type 0 where
  pub set : is_set w' ≡ true
  pub extends : Extends w.state w'.state

abbrev Follows : String → String → Store → Store → Type 0
Follows run_id worker_id s u =
    (w : WorkerRecord)
    → stored_worker run_id worker_id s ≡ some w
    → is_set w ≡ true
    → (w' : WorkerRecord) × (stored_worker run_id worker_id u ≡ some w') × Succeeds w w'

Follows-same : (r i : String) (s u : Store) → SameWorkers s u → Follows r i s u
Follows-same r i s u same w at set = (
  w,
  ap (λ m. lookup i (inner r m)) same ∙ at,
  record { set = set; extends = Extends-refl w.state },
)

Follows-put :
    (r i run_id worker_id : String) (w w' : WorkerRecord) (s u : Store)
    → find_worker run_id worker_id s ≡ ok w
    → u.workers_by_run ≡ (put_worker run_id worker_id w' s).workers_by_run
    → (is_set w ≡ true → Succeeds w w')
    → Follows r i s u
unfolding find_worker put_worker
Follows-put r i run_id worker_id w w' s u found put succeeds x at set =
    let read =
      inner-insert run_id r (insert worker_id w' (inner run_id s.workers_by_run))
        s.workers_by_run in
    let entry = lookup-insert worker_id i w' (inner run_id s.workers_by_run) in
    let moved = ap (λ m. lookup i (inner r m)) put in
    let replaced : (worker_id == i) ≡ true → (run_id == r) ≡ true → Succeeds x w' = λ this near.
      let same : w ≡ x = ground (arith, eq_iff run_id r, eq_iff worker_id i) in
      subst (λ y. Succeeds y w') same (succeeds (ap is_set same ∙ set)) in
    elim (Bool-cases (run_id == r)) [
      | inr far ↦ (x, ground arith, record { set = set; extends = Extends-refl x.state })
      | inl near ↦ elim (Bool-cases (worker_id == i)) [
        | inr other ↦ (
          x,
          ground (arith, eq_iff run_id r),
          record { set = set; extends = Extends-refl x.state },
        )
        | inl this ↦ (w', ground (arith, eq_iff run_id r), replaced this near)
      ]
    ]

observed_set :
    (s : WorkerState) (o : ObservedWorkerLifecycle)
    → worker_phase_set s.phase ≡ true
    → worker_phase_set (observe_worker_state s o).phase ≡ true
unfolding worker_phase_set observe_worker_state apply_worker_runtime_observation apply_degradation
observed_set s o h = ground arith

stopped_set :
    (t : StopTransition) (now : Time) (s : WorkerState)
    → worker_phase_set s.phase ≡ true
    → worker_phase_set (stop_worker_state t now s).phase ≡ true
unfolding worker_phase_set stop_worker_state apply_worker_cleanup_outcome apply_degradation
stopped_set t now s h = ground arith

-- An observation.
observe_worker-Succeeds :
    (w : WorkerRecord) (o : ObservedWorkerLifecycle) (now : Time)
    → is_set w ≡ true
    → Succeeds w (observe_worker w o now)
unfolding observe_worker apply_observed_worker_lifecycle ensure_worker_state
observe_worker-Succeeds w o now set =
    let state : (observe_worker w o now).state ≡ observe_worker_state w.state o = ground arith in
    record {
      set = ap (λ x. worker_phase_set x.phase) state ∙ observed_set w.state o set;
      extends = subst (Extends w.state) (sym state) (Step-Extends (observed o));
    }

-- A stop transition.
stop_worker-Succeeds :
    (t : StopTransition) (now : Time) (w : WorkerRecord)
    → is_set w ≡ true
    → Succeeds w (stop_worker t now w)
unfolding stop_worker ensure_worker_state
stop_worker-Succeeds t now w set =
    let state : (stop_worker t now w).state ≡ stop_worker_state t now w.state = ground arith in
    record {
      set = ap (λ x. worker_phase_set x.phase) state ∙ stopped_set t now w.state set;
      extends = subst (Extends w.state) (sym state) (Step-Extends (stopped t now));
    }

lookup-stop_workers :
    (t : StopTransition) (now : Time) (i : String) (m : Dict WorkerRecord) (w : WorkerRecord)
    → lookup i m ≡ some w
    → lookup i (stop_workers t now m) ≡ some (stop_worker t now w)
unfolding lookup stop_workers
lookup-stop_workers t now i [] w h = cc
lookup-stop_workers t now i ((j, x) ∷ m) w h = elim (Bool-cases (j == i)) [
  | inl e ↦
      (let s : some x ≡ some w = rw e at h in
        let same : x ≡ w = cc in rw e (ap (λ y. some (stop_worker t now y)) same))
  | inr e ↦ rw e (lookup-stop_workers t now i m w (rw e at h))
]

announced :
    (run : RunRecord) (now : Time) (ws : List WorkerRecord) (s : Store)
    → SameWorkers s (announce run now ws s).1
unfolding announce put_intent
announced run now ws s = ground arith

stop_put :
    (t : StopTransition) (clock : Time) (o : StopOutcome) (s u : Store)
    → apply_stop_transition t clock s ≡ ok (o, u)
    → u.workers_by_run
      ≡ insert t.run_id
          (stop_workers t (transition_time t clock) (inner t.run_id s.workers_by_run))
          s.workers_by_run
unfolding apply_stop_transition get_run store_stopped
stop_put t clock o s u h = elim (Option-cases (lookup t.run_id s.runs)) [
  | inl e ↦ absurd (ground arith)
  | inr (run, e) ↦
      let now = transition_time t clock in
      let ws = values (stop_workers t now (inner t.run_id s.workers_by_run)) in
      let answer = ok_inj (rw (apply_stop_transition, get_run, e) at h) in
      ap (λ x. x.1.workers_by_run) (sym answer)
      ∙ announced (stop_run t now run ws) now ws (store_stopped t now run s)
]

Follows-stop :
    (r i : String) (t : StopTransition) (clock : Time) (o : StopOutcome) (s u : Store)
    → apply_stop_transition t clock s ≡ ok (o, u)
    → Follows r i s u
Follows-stop r i t clock o s u h w at set =
    let now = transition_time t clock in
    let ws = inner t.run_id s.workers_by_run in
    let put = stop_put t clock o s u h in
    let read = inner-insert t.run_id r (stop_workers t now ws) s.workers_by_run in
    let moved = ap (λ m. lookup i (inner r m)) put in
    elim (Bool-cases (t.run_id == r)) [
      | inr far ↦ (w, ground arith, record { set = set; extends = Extends-refl w.state })
      | inl near ↦
          let was : lookup i ws ≡ some w = ground (arith, eq_iff t.run_id r) in
          let is_now = lookup-stop_workers t now i ws w was in
          (stop_worker t now w, ground (arith, eq_iff t.run_id r), stop_worker-Succeeds t now w set)
    ]

Follows-count :
    (r i run_id worker_id : String) (l : Lifecycle) (n : ℕ) (now : Time) (s u : Store)
    → update_worker_frames run_id worker_id l n now s ≡ ok u
    → Follows r i s u
unfolding update_worker_frames
Follows-count r i run_id worker_id l n now s u h =
    elim (Result-cases (find_worker run_id worker_id s)) [
      | inl (e, x) ↦ absurd (ground arith)
      | inr (w, x) ↦
          let w' : WorkerRecord = record w {
            lifecycle = l;
            frames = w.frames + n;
            updated_at = now;
          } in
          Follows-put r i run_id worker_id w w' s u x (ground arith)
            (λ set. record { set = set; extends = Extends-refl w.state })
    ]

Follows-observe :
    (r i : String) (o : ObservedWorkerLifecycle) (now : Time) (s u : Store)
    → update_worker_observed_lifecycle o now s ≡ ok u
    → Follows r i s u
unfolding update_worker_observed_lifecycle get_run
Follows-observe r i o now s u h = elim (Result-cases (find_worker o.run_id o.worker_id s)) [
  | inl (e, x) ↦ absurd (ground arith)
  | inr (w, x) ↦
      Follows-put r i o.run_id o.worker_id w (observe_worker w o now) s u x (ground arith)
        (observe_worker-Succeeds w o now)
]
