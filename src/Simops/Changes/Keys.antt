-- ===== src/Simops/Changes/Keys.antt =====
-- The invariant of the runs and of the keys of their requests.
use mathlib.Core.Path.{subst}
use radiant_prj.Common.{String, ◌≡◌, sym, ◌∙◌, ap, Bool, some, List, ◌⊎◌, inl, inr, arith}
use radiant_prj.Common.Error.{ok}
use radiant_prj.Common.Dict.{lookup, insert, lookup-insert_cases, lookup-insert_self}
use radiant_prj.Simops.Types.{RunRecord, WorkerRecord, SpoolCommand}
use radiant_prj.Simops.State.{ensure_run_state}
use radiant_prj.Simops.Store.{Store, new_store, idempotency_scope, create_run}
use radiant_prj.Simops.Changes
use radiant_prj.Simops.Changes.{Change, Reach}
use radiant_prj.Simops.Changes.Same.{
  SameRuns, same-launch, same-count, same-plan, same-mark, same-log, same-publish, same-not_publish,
  same-attempt, same-prepare, same-resolve, same-unresolve,
}
use radiant_prj.Simops.Changes.Runs.{
  SameOrigin, Kept, move_inv, move_with_intent_inv, observe_inv, stop_inv,
}
use radiant_prj.Simops.Changes.Kept.{
  Change-Kept, with_lifecycle-SameOrigin, observed_run-SameOrigin, stop_run-SameOrigin,
}

pub record IsWellKeyed (s : Store) : Type 0 where
  -- a run is stored under its own identifier
  pub keyed : (k : String) (r : RunRecord) → lookup k s.runs ≡ some r → r.run_id ≡ k
  -- a key leads to a run that was submitted in that scope
  pub scoped :
      (k id : String)
      → lookup k s.idempotency ≡ some id
      → (r : RunRecord) × (lookup id s.runs ≡ some r)
        × (idempotency_scope r.submitted_by r.idempotency_key ≡ k)

keyed-insert :
    (s u : Store) (id : String) (r r' : RunRecord)
    → IsWellKeyed s
    → lookup id s.runs ≡ some r
    → SameOrigin r r'
    → u.runs ≡ insert id r' s.runs
    → (k : String) (x : RunRecord) → lookup k u.runs ≡ some x
    → x.run_id ≡ k
keyed-insert s u id r r' w found same e k x h =
    elim (lookup-insert_cases id k r' s.runs (subst (λ m. lookup k m ≡ some x) e h)) [
      | inl p ↦ sym (ap (λ y. y.run_id) p.1) ∙ same.run_id ∙ w.keyed id r found ∙ p.0
      | inr p ↦ w.keyed k x p
    ]

scoped-Kept :
    (s u : Store)
    → IsWellKeyed s
    → Kept s u
    → u.idempotency ≡ s.idempotency
    → (k id : String) → lookup k u.idempotency ≡ some id
    → (r : RunRecord) × (lookup id u.runs ≡ some r)
      × (idempotency_scope r.submitted_by r.idempotency_key ≡ k)
scoped-Kept s u w kept e k id h =
    let (r, found, scope) = w.scoped k id (rw e at h) in
    let (r', found', same) = kept.run id r found in
    (r', found', rw (same.submitted_by, same.idempotency_key) scope)

-- One rewritten run, of the same origin.
rewrite-IsWellKeyed :
    (s u : Store) (id : String) (r r' : RunRecord)
    → IsWellKeyed s
    → Kept s u
    → lookup id s.runs ≡ some r
    → SameOrigin r r'
    → u.runs ≡ insert id r' s.runs
    → u.idempotency ≡ s.idempotency
    → IsWellKeyed u
rewrite-IsWellKeyed s u id r r' w kept found same e f = record {
  keyed = keyed-insert s u id r r' w found same e;
  scoped = scoped-Kept s u w kept f;
}

same-IsWellKeyed : (s u : Store) → IsWellKeyed s → Kept s u → SameRuns s u → IsWellKeyed u
same-IsWellKeyed s u w kept same = record {
  keyed = λ k r h. w.keyed k r (subst (λ m. lookup k m ≡ some r) same.runs h);
  scoped = scoped-Kept s u w kept same.idempotency;
}

create_inv :
    (r r' : RunRecord) (ws : List WorkerRecord) (cs : List SpoolCommand) (is_new : Bool)
    (s u : Store)
    → create_run r ws cs s ≡ ok (r', is_new, u)
    → (u ≡ s)
      ⊎ ((r' ≡ record r { state = ensure_run_state r.lifecycle r.state })
          × (u.runs ≡ insert r.run_id r' s.runs)
          × ((u.idempotency ≡ s.idempotency)
              ⊎ (u.idempotency
                  ≡ insert
                      (idempotency_scope r.submitted_by r.idempotency_key)
                      r.run_id
                      s.idempotency)))
unfolding create_run
create_inv r r' ws cs is_new s u h = ground arith

create-IsWellKeyed :
    (r r' : RunRecord) (ws : List WorkerRecord) (cs : List SpoolCommand) (is_new : Bool)
    (s u : Store)
    → create_run r ws cs s ≡ ok (r', is_new, u)
    → Kept s u
    → IsWellKeyed s
    → IsWellKeyed u
create-IsWellKeyed r r' ws cs is_new s u h kept w = elim (create_inv r r' ws cs is_new s u h) [
  | inl e ↦ subst IsWellKeyed (sym e) w
  | inr (p, e, i) ↦ record {
    keyed = λ k x f.
        elim (lookup-insert_cases r.run_id k r' s.runs (subst (λ m. lookup k m ≡ some x) e f)) [
          | inl q ↦ sym (ap (λ y. y.run_id) q.1) ∙ ap (λ y. y.run_id) p ∙ q.0
          | inr q ↦ w.keyed k x q
        ];
    scoped = elim i [
      | inl same ↦ scoped-Kept s u w kept same
      | inr added ↦ λ k id f.
          elim (lookup-insert_cases (idempotency_scope r.submitted_by r.idempotency_key) k r.run_id
            s.idempotency (subst (λ m. lookup k m ≡ some id) added f)) [
              | inl q ↦ (
                r',
                rw e (
                    subst (λ y. lookup y (insert r.run_id r' s.runs) ≡ some r') q.1
                      (lookup-insert_self r.run_id r' s.runs)),
                ap (λ y. idempotency_scope y.submitted_by y.idempotency_key) p ∙ q.0,
              )
              | inr q ↦
                  let (x, found, scope) = w.scoped k id q in
                  let (x', found', same) = kept.run id x found in
                  (x', found', rw (same.submitted_by, same.idempotency_key) scope)
            ]
    ];
  }
]

Change-IsWellKeyed : {s u : Store} → Change s u → IsWellKeyed s → Kept s u → IsWellKeyed u
Change-IsWellKeyed {s} {u} (Changes.Change.created r r' ws cs b h) w kept =
    create-IsWellKeyed r r' ws cs b s u h kept w
Change-IsWellKeyed {s} {u} (Changes.Change.moved id l now r' h) w kept =
    let (r, found, e, f, g) = move_inv id l now s u r' h in
    let same = subst (SameOrigin r) (sym e) (with_lifecycle-SameOrigin l now r) in
    rewrite-IsWellKeyed s u id r r' w kept found same f g
Change-IsWellKeyed {s} {u} (Changes.Change.moved_with_intent id l ev now r' i h) w kept =
    let (r, found, e, f, g) = move_with_intent_inv id l ev now s u r' i h in
    let same = subst (SameOrigin r) (sym e) (with_lifecycle-SameOrigin l now r) in
    rewrite-IsWellKeyed s u id r r' w kept found same f g
Change-IsWellKeyed {s} {u} (Changes.Change.observed o now h) w kept =
    let (r, x, found, _, f, g) = observe_inv o now s u h in
    rewrite-IsWellKeyed s u o.run_id r _ w kept found (observed_run-SameOrigin r x o now s) f g
Change-IsWellKeyed {s} {u} (Changes.Change.stopped t clock o h) w kept =
    let (r, found, e, f, g) = stop_inv t clock s u o h in
    let same = subst (SameOrigin r) (sym e) (stop_run-SameOrigin t _ r o.workers) in
    rewrite-IsWellKeyed s u t.run_id r o.run w kept found same f g
Change-IsWellKeyed {s} {u} (Changes.Change.launched id ws cs h) w kept =
    same-IsWellKeyed s u w kept (same-launch id ws cs s u h)
Change-IsWellKeyed {s} {u} (Changes.Change.counted id worker_id l n now h) w kept =
    same-IsWellKeyed s u w kept (same-count id worker_id l n now s u h)
Change-IsWellKeyed {s} {u} (Changes.Change.planned a h) w kept =
    same-IsWellKeyed s u w kept (same-plan a s u h)
Change-IsWellKeyed {s} {u} (Changes.Change.marked id artifact_id status h) w kept =
    same-IsWellKeyed s u w kept (same-mark id artifact_id status s u h)
Change-IsWellKeyed {s} {u} (Changes.Change.logged e h) w kept =
    same-IsWellKeyed s u w kept (same-log e s u h)
Change-IsWellKeyed {s} {u} (Changes.Change.published id e now h) w kept =
    same-IsWellKeyed s u w kept (same-publish id e now s u h)
Change-IsWellKeyed {s} {u} (Changes.Change.not_published id e now h) w kept =
    same-IsWellKeyed s u w kept (same-not_publish id e now s u h)
Change-IsWellKeyed {s} {u} (Changes.Change.attempted digest q now a is_new h) w kept =
    same-IsWellKeyed s u w kept (same-attempt digest q now a is_new s u h)
Change-IsWellKeyed {s} {u} (Changes.Change.prepared id location now h) w kept =
    same-IsWellKeyed s u w kept (same-prepare id location now s u h)
Change-IsWellKeyed {s} {u} (Changes.Change.resolved id e now h) w kept =
    same-IsWellKeyed s u w kept (same-resolve id e now s u h)
Change-IsWellKeyed {s} {u} (Changes.Change.unresolved id reason now h) w kept =
    same-IsWellKeyed s u w kept (same-unresolve id reason now s u h)

new_store-IsWellKeyed : IsWellKeyed new_store
unfolding lookup
new_store-IsWellKeyed = record { keyed = λ k r h. cc; scoped = λ k id h. absurd (cc) }

Reach-IsWellKeyed : {s u : Store} → Reach s u → IsWellKeyed s → IsWellKeyed u
Reach-IsWellKeyed Changes.Reach.here w = w
Reach-IsWellKeyed (Changes.Reach.next r c) w =
    Change-IsWellKeyed c (Reach-IsWellKeyed r w) (Change-Kept c)

-- After any calls on a new store, every run is stored under its own identifier, and every
-- idempotency key leads to an existing run that was submitted in the scope of that key.
pub reached-IsWellKeyed : {u : Store} → Reach new_store u → IsWellKeyed u
reached-IsWellKeyed r = Reach-IsWellKeyed r new_store-IsWellKeyed
