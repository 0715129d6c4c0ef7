-- ===== src/Simops/Changes/Failures/InPlace.antt =====
-- Every order of the calls that do not put new workers in a run.
use radiant_prj.Common.{
  String, ◌≡◌, ◌==◌, Bool, true, false, some, none, [], Bool-cases, List, arith, ap, sym, inl, inr,
}
use radiant_prj.Common.Error.{ok, ok_inj, Result-cases}
use radiant_prj.Common.Dict.{lookup, insert, inner, inner-insert, has}
use radiant_prj.Simops.Types.{RunRecord, WorkerRecord, SpoolCommand}
use radiant_prj.Simops.Store.{
  Store, create_run, create_new, insert_run, existing_run, add_workers, save_launch, launch_workers,
}
use radiant_prj.Simops.Worker.History.{Extends-refl, Extends-trans}
use radiant_prj.Simops.Changes
use radiant_prj.Simops.Changes.{Change}
use radiant_prj.Simops.Changes.Workers.{
  kept-move, kept-move_with_intent, kept-plan, kept-mark, kept-log, kept-publish, kept-not_publish,
  kept-attempt, kept-prepare, kept-resolve, kept-unresolve,
}
use radiant_prj.Simops.Changes.Failures.{
  is_set, stored_worker, Succeeds, Follows, Follows-same, Follows-stop, Follows-count,
  Follows-observe,
}

-- CreateRun and SaveLaunch for the run: the calls that put workers in it.
abbrev pub puts_workers : {s u : Store} → String → Change s u → Bool
puts_workers run_id (Changes.Change.created r r' ws cs is_new h) = r.run_id == run_id
puts_workers run_id (Changes.Change.launched id ws cs h) = id == run_id
puts_workers run_id _ = false

pub data InPlace (run_id : String) (s : Store) : Store → Type 0 where
  here : InPlace run_id s s
  next :
      {t u : Store}
      → InPlace run_id s t
      → (c : Change t u) → puts_workers run_id c ≡ false
      → InPlace run_id s u

inserted_workers :
    (r r' : RunRecord) (ws : List WorkerRecord) (cs : List SpoolCommand) (is_new : Bool)
    (s u : Store)
    → create_new r ws cs s ≡ ok (r', is_new, u)
    → u.workers_by_run ≡ insert r.run_id (add_workers ws []) s.workers_by_run
unfolding create_new insert_run
inserted_workers r r' ws cs is_new s u h = elim (Bool-cases (has r.run_id s.runs)) [
  | inl e ↦ absurd (ground arith)
  | inr e ↦ ap (λ x. x.2.workers_by_run) (sym (ok_inj (rw (create_new, e) at h)))
]

Follows-create :
    (run_id i : String) (r r' : RunRecord) (ws : List WorkerRecord) (cs : List SpoolCommand)
    (is_new : Bool) (s u : Store)
    → create_run r ws cs s ≡ ok (r', is_new, u)
    → (r.run_id == run_id) ≡ false
    → Follows run_id i s u
unfolding create_run
Follows-create run_id i r r' ws cs is_new s u h far = elim (Result-cases (existing_run r s)) [
  | inl (e, x) ↦ absurd (ground arith)
  | inr (some existing, x) ↦
      Follows-same run_id i s u
        (ap (λ y. y.2.workers_by_run) (sym (ok_inj (rw (create_run, x) at h))))
  | inr (none, x) ↦ λ w at set.
      let put = inserted_workers r r' ws cs is_new s u (rw (create_run, x) at h) in
      let read = inner-insert r.run_id run_id (add_workers ws []) s.workers_by_run in
      let moved = ap (λ m. lookup i (inner run_id m)) put in
      (w, ground arith, record { set = set; extends = Extends-refl w.state })
]

Follows-launch :
    (run_id i id : String) (ws : List WorkerRecord) (cs : List SpoolCommand) (s u : Store)
    → save_launch id ws cs s ≡ ok u
    → (id == run_id) ≡ false
    → Follows run_id i s u
unfolding save_launch
Follows-launch run_id i id ws cs s u h far w at set =
    let read =
      inner-insert id run_id (launch_workers ws (inner id s.workers_by_run)) s.workers_by_run in
    let put : u.workers_by_run
        ≡ insert id (launch_workers ws (inner id s.workers_by_run)) s.workers_by_run =
      ground arith in
    let moved = ap (λ m. lookup i (inner run_id m)) put in
    (w, ground arith, record { set = set; extends = Extends-refl w.state })

Change-Follows :
    {s u : Store} (run_id i : String) (c : Change s u)
    → puts_workers run_id c ≡ false
    → Follows run_id i s u
Change-Follows {s} {u} run_id i (Changes.Change.created r r' ws cs is_new h) far =
    Follows-create run_id i r r' ws cs is_new s u h far
Change-Follows {s} {u} run_id i (Changes.Change.launched id ws cs h) far =
    Follows-launch run_id i id ws cs s u h far
Change-Follows {s} {u} run_id i (Changes.Change.moved id l now r h) far =
    Follows-same run_id i s u (kept-move id l now r s u h)
Change-Follows {s} {u} run_id i (Changes.Change.moved_with_intent id l e now r n h) far =
    Follows-same run_id i s u (kept-move_with_intent id l e now r n s u h)
Change-Follows {s} {u} run_id i (Changes.Change.counted id worker_id l n now h) far =
    Follows-count run_id i id worker_id l n now s u h
Change-Follows {s} {u} run_id i (Changes.Change.observed o now h) far =
    Follows-observe run_id i o now s u h
Change-Follows {s} {u} run_id i (Changes.Change.stopped t clock o h) far =
    Follows-stop run_id i t clock o s u h
Change-Follows {s} {u} run_id i (Changes.Change.planned a h) far =
    Follows-same run_id i s u (kept-plan a s u h)
Change-Follows {s} {u} run_id i (Changes.Change.marked id artifact_id status h) far =
    Follows-same run_id i s u (kept-mark id artifact_id status s u h)
Change-Follows {s} {u} run_id i (Changes.Change.logged e h) far =
    Follows-same run_id i s u (kept-log e s u h)
Change-Follows {s} {u} run_id i (Changes.Change.published id e now h) far =
    Follows-same run_id i s u (kept-publish id e now s u h)
Change-Follows {s} {u} run_id i (Changes.Change.not_published id e now h) far =
    Follows-same run_id i s u (kept-not_publish id e now s u h)
Change-Follows {s} {u} run_id i (Changes.Change.attempted digest q now a is_new h) far =
    Follows-same run_id i s u (kept-attempt digest q now a is_new s u h)
Change-Follows {s} {u} run_id i (Changes.Change.prepared id location now h) far =
    Follows-same run_id i s u (kept-prepare id location now s u h)
Change-Follows {s} {u} run_id i (Changes.Change.resolved id e now h) far =
    Follows-same run_id i s u (kept-resolve id e now s u h)
Change-Follows {s} {u} run_id i (Changes.Change.unresolved id reason now h) far =
    Follows-same run_id i s u (kept-unresolve id reason now s u h)

-- A worker that is stored with a phase stays stored, under its run and its identifier, through any
-- sequence of store calls in which no CreateRun and no SaveLaunch names its run: a status that is failed
-- stays failed, and the evidence stays in place, with any new evidence behind it.
pub reached-Succeeds :
    {run_id : String} {s u : Store} (worker_id : String) (w : WorkerRecord)
    → InPlace run_id s u
    → stored_worker run_id worker_id s ≡ some w
    → is_set w ≡ true
    → (w' : WorkerRecord) × (stored_worker run_id worker_id u ≡ some w') × Succeeds w w'
reached-Succeeds {run_id} {s} worker_id w here at set =
    (w, at, record { set = set; extends = Extends-refl w.state })
reached-Succeeds {run_id} {s} {u} worker_id w (next before c far) at set =
    let (x, there, first) = reached-Succeeds worker_id w before at set in
    let (y, last, second) = Change-Follows run_id worker_id c far x there first.set in
    (y, last, record { set = second.set; extends = Extends-trans first.extends second.extends })
