-- ===== src/Simops/Changes/Replay.antt =====
-- A request that is repeated with its idempotency key.
use Prim.Native.String.{◌++◌ as ◌<>◌}
use text.Mathlib.TextLemmas.{append_assoc}
use mathlib.Core.Path.{subst}
use radiant_prj.Common.{
  String, ◌==◌, ◌≡◌, sym, ◌∙◌, ap, Bool, true, false, some, List, arith, eq_iff,
}
use radiant_prj.Common.Error.{ok}
use radiant_prj.Common.Dict.{lookup, lookup-insert, lookup-insert_self}
use radiant_prj.Simops.Types.{RunRecord, WorkerRecord, SpoolCommand}
use radiant_prj.Simops.State.{ensure_run_state}
use radiant_prj.Simops.Store.{Store, idempotency_scope, create_run}
use radiant_prj.Simops.Changes
use radiant_prj.Simops.Changes.{Change, Reach}
use radiant_prj.Simops.Changes.Same.{
  same-launch, same-count, same-plan, same-mark, same-log, same-publish, same-not_publish,
  same-attempt, same-prepare, same-resolve, same-unresolve,
}
use radiant_prj.Simops.Changes.Runs.{
  SameOrigin, move_inv, move_with_intent_inv, observe_inv, stop_inv,
}
use radiant_prj.Simops.Changes.Kept.{runs-Kept}

-- No key is taken away or led elsewhere.
pub record KeysKept (s u : Store) : Type 0 where
  pub key : (k id : String) → lookup k s.idempotency ≡ some id → lookup k u.idempotency ≡ some id

KeysKept-same : (s u : Store) → u.idempotency ≡ s.idempotency → KeysKept s u
KeysKept-same s u e = record { key = λ k id h. rw e h }

create-keys :
    (r r' : RunRecord) (ws : List WorkerRecord) (cs : List SpoolCommand) (is_new : Bool)
    (s u : Store)
    → create_run r ws cs s ≡ ok (r', is_new, u)
    → (k id : String) → lookup k s.idempotency ≡ some id
    → lookup k u.idempotency ≡ some id
unfolding create_run
create-keys r r' ws cs is_new s u h k id e =
    let scope : String = idempotency_scope r.submitted_by r.idempotency_key in
    ground (arith, eq_iff scope k, lookup-insert scope k r.run_id s.idempotency)

Change-KeysKept : {s u : Store} → Change s u → KeysKept s u
Change-KeysKept {s} {u} (Changes.Change.created r r' ws cs b h) = record {
  key = create-keys r r' ws cs b s u h;
}
Change-KeysKept {s} {u} (Changes.Change.moved id l now r' h) =
    KeysKept-same s u (move_inv id l now s u r' h).4
Change-KeysKept {s} {u} (Changes.Change.moved_with_intent id l ev now r' i h) =
    KeysKept-same s u (move_with_intent_inv id l ev now s u r' i h).4
Change-KeysKept {s} {u} (Changes.Change.observed o now h) =
    KeysKept-same s u (observe_inv o now s u h).5
Change-KeysKept {s} {u} (Changes.Change.stopped t clock o h) =
    KeysKept-same s u (stop_inv t clock s u o h).4
Change-KeysKept {s} {u} (Changes.Change.launched id ws cs h) =
    KeysKept-same s u (same-launch id ws cs s u h).idempotency
Change-KeysKept {s} {u} (Changes.Change.counted id worker_id l n now h) =
    KeysKept-same s u (same-count id worker_id l n now s u h).idempotency
Change-KeysKept {s} {u} (Changes.Change.planned a h) =
    KeysKept-same s u (same-plan a s u h).idempotency
Change-KeysKept {s} {u} (Changes.Change.marked id artifact_id status h) =
    KeysKept-same s u (same-mark id artifact_id status s u h).idempotency
Change-KeysKept {s} {u} (Changes.Change.logged e h) =
    KeysKept-same s u (same-log e s u h).idempotency
Change-KeysKept {s} {u} (Changes.Change.published id e now h) =
    KeysKept-same s u (same-publish id e now s u h).idempotency
Change-KeysKept {s} {u} (Changes.Change.not_published id e now h) =
    KeysKept-same s u (same-not_publish id e now s u h).idempotency
Change-KeysKept {s} {u} (Changes.Change.attempted digest q now a is_new h) =
    KeysKept-same s u (same-attempt digest q now a is_new s u h).idempotency
Change-KeysKept {s} {u} (Changes.Change.prepared id location now h) =
    KeysKept-same s u (same-prepare id location now s u h).idempotency
Change-KeysKept {s} {u} (Changes.Change.resolved id e now h) =
    KeysKept-same s u (same-resolve id e now s u h).idempotency
Change-KeysKept {s} {u} (Changes.Change.unresolved id reason now h) =
    KeysKept-same s u (same-unresolve id reason now s u h).idempotency

keys_kept : {s u : Store} → Reach s u → KeysKept s u
keys_kept Changes.Reach.here = record { key = λ k id h. h }
keys_kept (Changes.Reach.next r c) = record {
  key = λ k id h. (Change-KeysKept c).key k id ((keys_kept r).key k id h);
}

-- A new run with a key is found by that key.
create-found :
    (r r' : RunRecord) (ws : List WorkerRecord) (cs : List SpoolCommand) (s u : Store)
    → (r.idempotency_key == "") ≡ false
    → create_run r ws cs s ≡ ok (r', true, u)
    → (lookup (idempotency_scope r.submitted_by r.idempotency_key) u.idempotency ≡ some r.run_id)
      × (lookup r.run_id u.runs ≡ some r')
      × (r' ≡ record r { state = ensure_run_state r.lifecycle r.state })
unfolding create_run
create-found r r' ws cs s u key h =
    let scope : String = idempotency_scope r.submitted_by r.idempotency_key in
    let r1 : RunRecord = record r { state = ensure_run_state r.lifecycle r.state } in
    ground (
      arith,
      lookup-insert_self scope r.run_id s.idempotency,
      lookup-insert_self r.run_id r1 s.runs,
    )

-- A request whose key leads to a run.
create-existing :
    (q x : RunRecord) (ws : List WorkerRecord) (cs : List SpoolCommand) (id : String) (s : Store)
    → (q.idempotency_key == "") ≡ false
    → lookup (idempotency_scope q.submitted_by q.idempotency_key) s.idempotency ≡ some id
    → lookup id s.runs ≡ some x
    → create_run q ws cs s ≡ ok (x, false, s)
unfolding create_run
create-existing q x ws cs id s key h k = ground arith

-- Once a run has been created with a key, and after any further calls, a request by the same identity
-- with the same key creates nothing, writes nothing, and returns that run, whatever else it asks for.
pub create_run_replay :
    (r r' q : RunRecord) (ws vs : List WorkerRecord) (cs ds : List SpoolCommand) (s u : Store)
    {v : Store}
    → (r.idempotency_key == "") ≡ false
    → create_run r ws cs s ≡ ok (r', true, u)
    → Reach u v
    → q.submitted_by ≡ r.submitted_by
    → q.idempotency_key ≡ r.idempotency_key
    → (x : RunRecord) × (create_run q vs ds v ≡ ok (x, false, v)) × SameOrigin r' x
create_run_replay r r' q ws vs cs ds s u {v} key h reach by same =
    let (led, found, _) = create-found r r' ws cs s u key h in
    let (x, found', origin) = (runs-Kept reach).run r.run_id r' found in
    let led' = (keys_kept reach).key _ r.run_id led in
    (
      x,
      create-existing q x vs ds r.run_id v (rw same key)
          (subst (λ k. lookup k v.idempotency ≡ some r.run_id) (sym (cc (by, same))) led') found',
      origin,
    )

scope_text :
    (a b c : String) → idempotency_scope a (b <> "|" <> c) ≡ idempotency_scope (a <> "|" <> b) c
unfolding idempotency_scope
scope_text a b c =
    sym (append_assoc a ("|" <> b) ("|" <> c) ∙ ap (λ t. a <> t) (append_assoc "|" b ("|" <> c)))

-- The scope does not tell where the identity ends: a run that was created by the identity a|b with
-- the key c is returned to the identity a for the key b|c, and nothing is created for that request.
pub create_run_scope_collision :
    (r r' q : RunRecord) (a b c : String) (ws vs : List WorkerRecord) (cs ds : List SpoolCommand)
    (s u : Store)
    → r.submitted_by ≡ (a <> "|" <> b)
    → r.idempotency_key ≡ c
    → (c == "") ≡ false
    → create_run r ws cs s ≡ ok (r', true, u)
    → q.submitted_by ≡ a
    → q.idempotency_key ≡ (b <> "|" <> c)
    → (q.idempotency_key == "") ≡ false
    → create_run q vs ds u ≡ ok (r', false, u)
create_run_scope_collision r r' q a b c ws vs cs ds s u by key c_set h by' key' q_set =
    let (led, found, _) = create-found r r' ws cs s u (rw key c_set) h in
    let e : idempotency_scope q.submitted_by q.idempotency_key
        ≡ idempotency_scope r.submitted_by r.idempotency_key =
      rw (by', key', by, key) (scope_text a b c) in
    create-existing q r' vs ds r.run_id u q_set (rw e led) found
