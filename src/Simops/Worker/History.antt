-- ===== src/Simops/Worker/History.antt =====
-- A worker's failure is never taken back, and its evidence is only added to.
use mathlib.Core.List.{append_assoc, append-nil}
use radiant_prj.Common.{
  String, ◌≡◌, refl, sym, ◌∙◌, ap, ◌&&◌, not, ◌==◌, List, [], ◌∷◌, ◌++◌, inl, inr, arith,
  Bool-cases,
}
use radiant_prj.Simops.Types.{
  ConditionStatus, CleanupDisposition, LaunchDisposition, DegradationEvidence, WorkerState,
  ObservedWorkerLifecycle, ObservedWorkerState, StopTransition, Time,
}
use radiant_prj.Simops.Facts.{
  is_terminal, is_settled, observe, launch_outcome, observed_worker_state_is_terminal,
  apply_degradation, apply_worker_runtime_observation, apply_worker_launch_outcome,
  apply_worker_cleanup_outcome,
}
use radiant_prj.Simops.Store.Observe.{observe_worker_state}
use radiant_prj.Simops.Store.Stop.{mark_stop_failure, mark_stopped, stop_worker_state}
use radiant_prj.Simops.Worker.{Step, Reach, observed, launched, stopped, here, next}

-- The status failed is kept, and the evidence grows at the end.
pub record Extends (s u : WorkerState) : Type 0 where
  pub failed_kept :
      s.condition.status ≡ ConditionStatus.failed → u.condition.status ≡ ConditionStatus.failed
  pub added : List DegradationEvidence
  pub appended : u.condition.degradations ≡ s.condition.degradations ++ added

pub Extends-refl : (s : WorkerState) → Extends s s
Extends-refl s = record { failed_kept = λ h. h; added = []; appended = sym (append-nil _) }

pub Extends-trans : {s t u : WorkerState} → Extends s t → Extends t u → Extends s u
Extends-trans {s} a b = record {
  failed_kept = λ h. b.failed_kept (a.failed_kept h);
  added = a.added ++ b.added;
  appended =
      b.appended
      ∙ ap (λ es. es ++ b.added) a.appended
      ∙ append_assoc s.condition.degradations a.added b.added;
}

-- The three ways in which an operation treats the condition.
Extends-same : (s u : WorkerState) → u.condition ≡ s.condition → Extends s u
Extends-same s u e = record {
  failed_kept = λ h. ap (λ c. c.status) e ∙ h;
  added = [];
  appended = ap (λ c. c.degradations) e ∙ sym (append-nil _);
}

Extends-fail :
    (s u : WorkerState)
    → u.condition ≡ record s.condition { status = ConditionStatus.failed }
    → Extends s u
Extends-fail s u e = record {
  failed_kept = λ h. ap (λ c. c.status) e;
  added = [];
  appended = ap (λ c. c.degradations) e ∙ sym (append-nil _);
}

Extends-degrade :
    (s u : WorkerState) (e : DegradationEvidence)
    → u.condition ≡ s.condition
    → Extends s (apply_degradation u e)
unfolding apply_degradation
Extends-degrade s u e h = record {
  failed_kept = λ f. ground arith;
  added = e ∷ [];
  appended = ap (λ c. c.degradations ++ e ∷ []) h;
}

observe-Extends : (o : ObservedWorkerState) (s : WorkerState) → Extends s (observe o s)
unfolding observe
observe-Extends ObservedWorkerState.failed s = Extends-fail s _ refl
observe-Extends ObservedWorkerState.image_pull_failed s = Extends-fail s _ refl
observe-Extends _ s = Extends-same s _ refl

observe_worker_state-Extends :
    (s : WorkerState) (o : ObservedWorkerLifecycle) → Extends s (observe_worker_state s o)
unfolding observe_worker_state apply_worker_runtime_observation
observe_worker_state-Extends s o =
    elim (Bool-cases
      (is_terminal s.active_execution && not (observed_worker_state_is_terminal o.state))) [
        | inl e ↦ rw e (Extends-degrade s s _ refl)
        | inr e ↦ rw e (observe-Extends o.state s)
      ]

launch_outcome-Extends :
    (d : LaunchDisposition) (s : WorkerState) (e : DegradationEvidence)
    → Extends s (launch_outcome d s e).0
unfolding launch_outcome
launch_outcome-Extends LaunchDisposition.rejected s e = Extends-fail s _ refl
launch_outcome-Extends LaunchDisposition.attempted_absent s e = Extends-degrade s _ e refl
launch_outcome-Extends _ s e = Extends-same s _ refl

launch-Extends :
    (s : WorkerState) (d : LaunchDisposition) (at : Time) (source message : String)
    → Extends s (apply_worker_launch_outcome s d at source message).0
unfolding apply_worker_launch_outcome
launch-Extends s d at source message = elim (Bool-cases (is_settled s.launch_disposition)) [
  | inl e ↦ rw e (Extends-refl s)
  | inr e ↦ rw e (launch_outcome-Extends d s _)
]

cleanup-Extends :
    (s : WorkerState) (d : CleanupDisposition) (at : Time) (source message : String)
    → Extends s (apply_worker_cleanup_outcome s d at source message).0
unfolding apply_worker_cleanup_outcome
cleanup-Extends s CleanupDisposition.incomplete at source message = Extends-degrade s _ _ refl
cleanup-Extends s CleanupDisposition.failed at source message = Extends-fail s _ refl
cleanup-Extends s _ at source message = Extends-same s _ refl

mark_stop_failure-Extends :
    (t : StopTransition) (now : Time) (s : WorkerState) → Extends s (mark_stop_failure t now s)
unfolding mark_stop_failure
mark_stop_failure-Extends t now s = elim (Bool-cases (t.stop_failure == "")) [
  | inl e ↦ rw e (Extends-refl s)
  | inr e ↦ rw e (elim (Bool-cases t.stop_confirmed) [
    | inl c ↦ rw c (Extends-trans (Extends-degrade s s _ refl) (Extends-fail _ _ refl))
    | inr c ↦ rw c (Extends-degrade s s _ refl)
  ])
]

mark_stopped-Extends : (t : StopTransition) (s : WorkerState) → Extends s (mark_stopped t s)
unfolding mark_stopped
mark_stopped-Extends t s = Extends-same s _ (ground arith)

pub Step-Extends : {s u : WorkerState} → Step s u → Extends s u
unfolding stop_worker_state
Step-Extends {s} (observed o) = observe_worker_state-Extends s o
Step-Extends {s} (launched d at source message) = launch-Extends s d at source message
Step-Extends {s} (stopped t now) =
    Extends-trans (cleanup-Extends s t.cleanup now "stop-orchestrator" t.cleanup_failure)
      (Extends-trans (mark_stop_failure-Extends t now _) (mark_stopped-Extends t _))

-- Along any sequence of the three functions that rewrite a worker's state in place, which take in an
-- observation, a launch outcome or a stop transition, a status that is failed stays failed, and the
-- evidence stays in place, with any new evidence behind it. CreateRun and SaveLaunch, which put a state
-- of their own in the place of the stored one, are not among these steps.
pub reached-Extends : {s u : WorkerState} → Reach s u → Extends s u
reached-Extends {s} here = Extends-refl s
reached-Extends (next r st) = Extends-trans (reached-Extends r) (Step-Extends st)
