-- ===== src/Forge/Caps/Bound.antt =====
-- The limits on the active requests of a session, over a whole request.
use radiant_prj.Common.{
  ◌+◌, ◌≤◌, String, ◌≡◌, refl, ap, sym, ◌∙◌, Bool, false, ◌==◌, ◌⊎◌, none, [], ◌∷◌, inl, inr, arith,
  Bool-cases,
}
use radiant_prj.Common.Error.{ok, Result-cases}
use radiant_prj.Common.Dict.{Dict, insert, values, lookup, insert-insert}
use radiant_prj.Common.Counts.{count_of, count_of-store}
use radiant_prj.Simops.Types.{Time}
use radiant_prj.Forge.Types.{ForgeRequest, ForgeRecord, scheduler_drift_recipe}
use radiant_prj.Forge.Store.{
  ForgeStore, save_request, forge_store_key, find_request, touch_session, touch_record,
  touch_records, set_retention,
}
use radiant_prj.Forge.Rules.{
  is_active_request, is_rejected, normalize_forge_request, validate_forge_identity,
}
use radiant_prj.Forge.Manager.{ForgeManager, ForgeWorld, save_answer}
use radiant_prj.Forge.Association.{enforce_caps}
use radiant_prj.Forge.Intake.{
  new_request, opened, open_request, accept_request, find_or_open, touched, request_forge,
}
use radiant_prj.Forge.Kept.{accept-Holds}
use radiant_prj.Forge.Caps.{
  in_session, on_reactor, active_requests, active_on_reactor, count_of-touch, enforce_caps-ok,
}

-- At most the record under one key differs from the map.
abbrev DiffersAt : Dict ForgeRecord → String → ForgeStore → Type 0
DiffersAt m key s = (s.records ≡ m) ⊎ ((r : ForgeRecord) × (s.records ≡ insert key r m))

save-DiffersAt :
    (m : Dict ForgeRecord) (session idempotency : String) (r : ForgeRecord) (s s' : ForgeStore)
    → (r.game_session_id ≡ session) × (r.idempotency_key ≡ idempotency)
    → DiffersAt m (forge_store_key session idempotency) s
    → save_request r s ≡ ok s'
    → DiffersAt m (forge_store_key session idempotency) s'
unfolding save_request
save-DiffersAt m session idempotency r s s' (own_session, own_key) h p =
    let key = forge_store_key session idempotency in
    let stored : s'.records ≡ insert key r s.records = ground arith in
    elim h [
      | inl e ↦ inr (r, stored ∙ ap (insert key r) e)
      | inr (q, e) ↦ inr (r, stored ∙ ap (insert key r) e ∙ insert-insert key q r m)
    ]

count_of-DiffersAt :
    (test : ForgeRecord → Bool) (m : Dict ForgeRecord) (key : String) (s : ForgeStore)
    → DiffersAt m key s
    → count_of test (values s.records) ≤ count_of test (values m) + 1
count_of-DiffersAt test m key s (inl e) = ground (arith, ap (λ x. count_of test (values x)) e)
count_of-DiffersAt test m key s (inr (r, e)) =
    ground (arith, ap (λ x. count_of test (values x)) e, count_of-store test key r m)

-- Activity in a session leaves the counts as they are.
touched-active :
    (session : String) (now : Time) (touching : String) (s : ForgeStore)
    → active_requests session (touch_session touching now s) ≡ active_requests session s
unfolding touch_session touch_record set_retention is_active_request
touched-active session now touching s =
    count_of-touch (in_session session is_active_request) touching now s.records λ r. ground arith

touched-on_reactor :
    (session reactor : String) (now : Time) (touching : String) (s : ForgeStore)
    → active_on_reactor session reactor (touch_session touching now s)
      ≡ active_on_reactor session reactor s
unfolding touch_session touch_record set_retention is_active_request
touched-on_reactor session reactor now touching s =
    count_of-touch (in_session session (on_reactor reactor)) touching now s.records
      λ r. ground arith

lookup-touch_none :
    (key session : String) (now : Time) (m : Dict ForgeRecord)
    → lookup key m ≡ none
    → lookup key (touch_records session now m) ≡ none
unfolding lookup touch_records
lookup-touch_none key session now [] h = refl
lookup-touch_none key session now ((k, q) ∷ m) h = elim (Bool-cases (k == key)) [
  | inl e ↦ absurd (ground arith)
  | inr e ↦ (let rest = lookup-touch_none key session now m (ground arith) in ground (arith, rest))
]

-- A request that is opened and not rejected found room, and takes one place at most.
opened_within_cap :
    (m : ForgeManager) (now : Time) (id token : String) (q : ForgeRequest) (c : ForgeRecord)
    (w : ForgeWorld) {r : ForgeRecord} {created : Bool} {w' : ForgeWorld}
    → open_request m now id token q c w ≡ (ok (r, created), w')
    → is_rejected r.decision ≡ false
    → (active_on_reactor c.game_session_id c.reactor_id w.store ≡ 0)
      × (active_requests c.game_session_id w'.store ≤ 4)
unfolding open_request save_answer opened
opened_within_cap m now id token q c w {r} {created} {w'} h d =
    elim (Bool-cases (q.simulation_job_state == "completed")) [
      | inr p ↦ absurd (ground arith)
      | inl p ↦ elim (Bool-cases (q.simulation_recipe == scheduler_drift_recipe)) [
        | inr n ↦ absurd (ground arith)
        | inl n ↦ elim (Result-cases (enforce_caps c w.store)) [
          | inl (e, u) ↦ absurd (ground arith)
          | inr (tt, u) ↦
              (let (room, free) = enforce_caps-ok c w.store u in
                let accepted : accept_request m now id token c w ≡ (ok (r, created), w') =
                  ground arith in
                let left =
                  accept-Holds (DiffersAt w.store.records _) c.game_session_id c.idempotency_key
                    (save-DiffersAt w.store.records _ _) m now id token c w (refl, refl)
                    (inl refl) in
                let now_at =
                  count_of-DiffersAt (in_session c.game_session_id is_active_request) _ _ _ left in
                let same = ap (λ a. active_requests c.game_session_id (a.1.store)) accepted in
                (free, ground (arith, room, now_at, same)))
        ]
      ]
    ]

-- If no request is stored under a session and an idempotency key, and a request with them is answered
-- with a record that is not rejected, then no active request of the session was on the reactor
-- before, and at most four requests of the session are active after. The session, the key and the
-- reactor are those of the normalised request.
pub request_within_cap :
    (m : ForgeManager) (now : Time) (id token : String) (q : ForgeRequest) (identity : String)
    (w : ForgeWorld) {r : ForgeRecord} {created : Bool} {w' : ForgeWorld}
    → lookup
        (forge_store_key
          (normalize_forge_request q).game_session_id
          (normalize_forge_request q).idempotency_key)
        w.store.records
      ≡ none
    → request_forge m now id token q identity w ≡ (ok (r, created), w')
    → is_rejected r.decision ≡ false
    → (active_on_reactor
          (normalize_forge_request q).game_session_id
          (normalize_forge_request q).reactor_id
          w.store
        ≡ 0)
      × (active_requests (normalize_forge_request q).game_session_id w'.store ≤ 4)
unfolding request_forge find_or_open touched new_request set_retention find_request touch_session
request_within_cap m now id token raw identity w {r} {created} {w'} new h d =
    let q = normalize_forge_request raw in
    let w1 = touched now q.game_session_id w in
    elim (Result-cases (validate_forge_identity q)) [
      | inl (e, p) ↦ absurd (ground arith)
      | inr (tt, p) ↦
          (let absent = lookup-touch_none _ q.game_session_id now w.store.records new in
            let opens : open_request m now id token q (new_request m now identity q) w1
                ≡ (ok (r, created), w') =
              ground (arith, absent) in
            let (free, few) = opened_within_cap m now id token q _ w1 opens d in
            (
              sym (touched-on_reactor q.game_session_id q.reactor_id now q.game_session_id w.store)
                  ∙ free,
              few,
            ))
    ]
