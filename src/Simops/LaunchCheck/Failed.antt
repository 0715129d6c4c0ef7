-- ===== src/Simops/LaunchCheck/Failed.antt =====
-- The records that a failed launch leaves.
use radiant_prj.Common.{
  String, ◌≡◌, Bool, inl, inr, ◌&&◌, if◌then◌else◌, some, List, [], ◌∷◌, arith, eq_iff,
  Option-cases,
}
use radiant_prj.Common.Dict.{Dict, lookup, insert, has, lookup-insert, lookup-empty}
use radiant_prj.Simops.Types.{Time, Lifecycle, WorkerRecord}
use radiant_prj.Simops.LaunchCheck.{
  workers_by_id, failed_worker_outcome, outcomes_of, failed_worker_outcomes,
}

-- A map of workers whose keys are their identifiers.
abbrev KeyedById : Dict WorkerRecord → Type 0
KeyedById m = (k : String) (w : WorkerRecord) → lookup k m ≡ some w → w.worker_id ≡ k

workers_by_id-keyed :
    (ws : List WorkerRecord) (m : Dict WorkerRecord) → KeyedById m → KeyedById (workers_by_id ws m)
unfolding workers_by_id
workers_by_id-keyed [] m h = h
workers_by_id-keyed (w ∷ ws) m h =
    workers_by_id-keyed ws (insert w.worker_id w m)
      λ k x e. ground (arith, lookup-insert w.worker_id k w m, eq_iff w.worker_id k, h k x)

-- The outcome of one planned worker.
pub record IsOutcome (launched : Dict WorkerRecord) (compensated : Bool) (now : Time)
    (w o : WorkerRecord) : Type 0 where
  pub same_id : o.worker_id ≡ w.worker_id
  pub date : o.updated_at ≡ now
  pub lifecycle :
      o.lifecycle
      ≡ (if compensated && has w.worker_id launched then Lifecycle.stopped else Lifecycle.failed)

outcome :
    (launched : Dict WorkerRecord) (compensated : Bool) (now : Time) (w : WorkerRecord)
    → KeyedById launched
    → IsOutcome launched compensated now w (failed_worker_outcome launched compensated now w)
unfolding failed_worker_outcome has
outcome launched compensated now w k = elim (Option-cases (lookup w.worker_id launched)) [
  | inl e ↦ record { same_id = ground arith; date = ground arith; lifecycle = ground arith }
  | inr (l, e) ↦
      let id = k w.worker_id l e in
      record { same_id = ground arith; date = ground arith; lifecycle = ground arith }
]

-- Two lists of one length whose entries stand in a relation.
abbrev pub Pairwise :
    (WorkerRecord → WorkerRecord → Type 0) → List WorkerRecord → List WorkerRecord → Type 0
Pairwise R [] [] = Unit
Pairwise R (x ∷ xs) (y ∷ ys) = R x y × Pairwise R xs ys
Pairwise R _ _ = ⊥

outcomes :
    (launched : Dict WorkerRecord) (compensated : Bool) (now : Time) (ws : List WorkerRecord)
    → KeyedById launched
    → Pairwise (IsOutcome launched compensated now) ws (outcomes_of launched compensated now ws)
unfolding outcomes_of
outcomes launched compensated now [] k = tt
outcomes launched compensated now (w ∷ ws) k =
    (outcome launched compensated now w k, outcomes launched compensated now ws k)

-- A failed launch leaves, for the planned workers in their order, a record with the same identifier
-- each, dated with the clock: stopped if the worker was launched and the compensation succeeded, and
-- failed if not.
pub failed_outcomes :
    (planned launched : List WorkerRecord) (compensated : Bool) (now : Time)
    → Pairwise
        (IsOutcome (workers_by_id launched []) compensated now)
        planned
        (failed_worker_outcomes planned launched compensated now)
unfolding failed_worker_outcomes
failed_outcomes planned launched compensated now =
    outcomes (workers_by_id launched []) compensated now planned (
      workers_by_id-keyed launched []
        λ k w h. absurd (ground (arith, lookup-empty {V = WorkerRecord} k)))
