-- ===== src/Simops/Changes/Kept.antt =====
-- No call removes a run, and none changes what the run was created with.
use mathlib.Core.Path.{subst}
use radiant_prj.Common.{refl, sym, List, arith}
use radiant_prj.Simops.Types.{
  Time, Lifecycle, ObservedWorkerLifecycle, RunRecord, WorkerRecord, StopTransition,
}
use radiant_prj.Simops.Store.{Store, with_lifecycle}
use radiant_prj.Simops.Store.Observe.{judge_run}
use radiant_prj.Simops.Store.Stop.{stop_run}
use radiant_prj.Simops.Changes.{Change, Reach, here, next}
use radiant_prj.Simops.Changes
use radiant_prj.Simops.Changes.Same.{
  same-launch, same-count, same-plan, same-mark, same-log, same-publish, same-not_publish,
  same-prepare, same-resolve, same-unresolve, same-attempt,
}
use radiant_prj.Simops.Changes.Runs.{
  SameOrigin, SameOrigin-refl, Kept, Kept-same, Kept-insert, create-runs, move_inv,
  move_with_intent_inv, observed_run, observe_inv, stop_inv,
}

pub with_lifecycle-SameOrigin :
    (l : Lifecycle) (now : Time) (r : RunRecord) → SameOrigin r (with_lifecycle l now r)
unfolding with_lifecycle
with_lifecycle-SameOrigin l now r = ground arith

pub observed_run-SameOrigin :
    (r : RunRecord) (w : WorkerRecord) (o : ObservedWorkerLifecycle) (now : Time) (s : Store)
    → SameOrigin r (observed_run r w o now s)
unfolding observed_run judge_run
observed_run-SameOrigin r w o now s = ground arith

pub stop_run-SameOrigin :
    (t : StopTransition) (now : Time) (r : RunRecord) (ws : List WorkerRecord)
    → SameOrigin r (stop_run t now r ws)
unfolding stop_run
stop_run-SameOrigin t now r ws = ground arith

pub Change-Kept : {s u : Store} → Change s u → Kept s u
Change-Kept {s} {u} (Changes.Change.created r r' ws cs b h) = record {
  run = λ k x e. (x, create-runs r r' ws cs b s u h k x e, SameOrigin-refl x);
}
Change-Kept {s} {u} (Changes.Change.launched id ws cs h) =
    Kept-same s u (same-launch id ws cs s u h).runs
Change-Kept {s} {u} (Changes.Change.moved id l now r' h) =
    let (r, found, e, f, _) = move_inv id l now s u r' h in
    Kept-insert s u id r r' found (subst (SameOrigin r) (sym e) (with_lifecycle-SameOrigin l now r))
      f
Change-Kept {s} {u} (Changes.Change.moved_with_intent id l ev now r' i h) =
    let (r, found, e, f, _) = move_with_intent_inv id l ev now s u r' i h in
    Kept-insert s u id r r' found (subst (SameOrigin r) (sym e) (with_lifecycle-SameOrigin l now r))
      f
Change-Kept {s} {u} (Changes.Change.counted id worker_id l n now h) =
    Kept-same s u (same-count id worker_id l n now s u h).runs
Change-Kept {s} {u} (Changes.Change.observed o now h) =
    let (r, w, found, _, f, _) = observe_inv o now s u h in
    Kept-insert s u o.run_id r _ found (observed_run-SameOrigin r w o now s) f
Change-Kept {s} {u} (Changes.Change.stopped t clock o h) =
    let (r, found, e, f, _) = stop_inv t clock s u o h in
    Kept-insert s u t.run_id r o.run found
      (subst (SameOrigin r) (sym e) (stop_run-SameOrigin t _ r o.workers)) f
Change-Kept {s} {u} (Changes.Change.planned a h) = Kept-same s u (same-plan a s u h).runs
Change-Kept {s} {u} (Changes.Change.marked id artifact_id status h) =
    Kept-same s u (same-mark id artifact_id status s u h).runs
Change-Kept {s} {u} (Changes.Change.logged e h) = Kept-same s u (same-log e s u h).runs
Change-Kept {s} {u} (Changes.Change.published id e now h) =
    Kept-same s u (same-publish id e now s u h).runs
Change-Kept {s} {u} (Changes.Change.not_published id e now h) =
    Kept-same s u (same-not_publish id e now s u h).runs
Change-Kept {s} {u} (Changes.Change.attempted digest q now a is_new h) =
    Kept-same s u (same-attempt digest q now a is_new s u h).runs
Change-Kept {s} {u} (Changes.Change.prepared id location now h) =
    Kept-same s u (same-prepare id location now s u h).runs
Change-Kept {s} {u} (Changes.Change.resolved id e now h) =
    Kept-same s u (same-resolve id e now s u h).runs
Change-Kept {s} {u} (Changes.Change.unresolved id reason now h) =
    Kept-same s u (same-unresolve id reason now s u h).runs

SameOrigin-trans : {r r1 r2 : RunRecord} → SameOrigin r r1 → SameOrigin r1 r2 → SameOrigin r r2
SameOrigin-trans a b = ground arith

Kept-refl : (s : Store) → Kept s s
Kept-refl s = Kept-same s s refl

Kept-trans : {s t u : Store} → Kept s t → Kept t u → Kept s u
Kept-trans a b = record {
  run = λ k r e.
      let (r1, e1, o1) = a.run k r e in
      let (r2, e2, o2) = b.run k r1 e1 in (r2, e2, SameOrigin-trans o1 o2);
}

-- After any calls, every run is still there under its identifier, with the scenario, source, script,
-- mode, limit, idempotency key, submitter, ingest token and creation time that it was created with.
pub runs-Kept : {s u : Store} → Reach s u → Kept s u
runs-Kept {s} here = Kept-refl s
runs-Kept (next r c) = Kept-trans (runs-Kept r) (Change-Kept c)
