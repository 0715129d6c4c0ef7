-- ===== src/Forge/Caps.antt =====
-- How many requests of a session are active, and what enforceCaps and the store's methods make of it.
pub mod Bound
use radiant_prj.Common.{
  ℕ, zero, suc, ◌+◌, ◌≤◌, String, ◌≡◌, refl, ap, sym, Bool, true, false, not, ◌&&◌, ◌||◌, ◌==◌,
  none, some, List, [], ◌∷◌, inl, inr, arith, leb, eq_iff, Bool-cases, if◌then◌else◌,
}
use radiant_prj.Common.Error.{Error, Result, ok, err, Result-cases}
use radiant_prj.Common.Dict.{Dict, insert, values}
use radiant_prj.Common.Counts.{count_of}
use radiant_prj.Simops.Types.{Time}
use radiant_prj.Forge.Types.{ForgeRecord}
use radiant_prj.Forge.Store.{
  ForgeStore, insert_sorted, sort_records, of_session, list_requests, touch_record, touch_records,
  touch_session, set_retention,
}
use radiant_prj.Forge.Rules.{is_active_request, count_requests, within_cap}
use radiant_prj.Forge.Association.{enforce_caps}

-- The active requests of a session, and those of them that are on a reactor.
abbrev pub in_session : String → (ForgeRecord → Bool) → ForgeRecord → Bool
in_session session test r = r.game_session_id == session && test r

abbrev pub on_reactor : String → ForgeRecord → Bool
on_reactor reactor r = is_active_request r && r.reactor_id == reactor

abbrev pub active_requests : String → ForgeStore → ℕ
active_requests session s = count_of (in_session session is_active_request) (values s.records)

abbrev pub active_on_reactor : String → String → ForgeStore → ℕ
active_on_reactor session reactor s =
    count_of (in_session session (on_reactor reactor)) (values s.records)

module _ (test : ForgeRecord → Bool) where
  count_of-insert_sorted :
      (r : ForgeRecord) (rs : List ForgeRecord)
      → count_of test (insert_sorted r rs) ≡ count_of test (r ∷ rs)
  unfolding insert_sorted
  count_of-insert_sorted r [] = refl
  count_of-insert_sorted r (q ∷ rs) = ground (arith, count_of-insert_sorted r rs)

  count_of-sort : (rs : List ForgeRecord) → count_of test (sort_records rs) ≡ count_of test rs
  unfolding sort_records
  count_of-sort [] = refl
  count_of-sort (r ∷ rs) =
      ground (arith, count_of-insert_sorted r (sort_records rs), count_of-sort rs)

  count_of-session :
      (session : String) (rs : List ForgeRecord)
      → count_of test (of_session session rs) ≡ count_of (in_session session test) rs
  unfolding of_session
  count_of-session session [] = refl
  count_of-session session (r ∷ rs) = ground (arith, count_of-session session rs)

  -- What does not look at the times is not changed by a touch.
  pub count_of-touch :
      (session : String) (now : Time) (m : Dict ForgeRecord)
      → ((r : ForgeRecord) → test (touch_record session now r) ≡ test r)
      → count_of test (values (touch_records session now m)) ≡ count_of test (values m)
  unfolding touch_records values
  count_of-touch session now [] same = refl
  count_of-touch session now ((k, q) ∷ m) same =
      ground (arith, same q, count_of-touch session now m same)

-- The loop of enforceCaps ends with the count only if no active request is on the reactor.
count_requests-ok :
    (reactor : String) (start : ℕ) (rs : List ForgeRecord) {n : ℕ}
    → count_requests reactor start rs ≡ ok n
    → (n ≡ start + count_of is_active_request rs) × (count_of (on_reactor reactor) rs ≡ 0)
unfolding count_requests
count_requests-ok reactor start [] h = (ground arith, refl)
count_requests-ok reactor start (r ∷ rs) {n} h = elim (Bool-cases (is_active_request r)) [
  | inl a ↦ elim (Bool-cases (r.reactor_id == reactor)) [
    | inl e ↦ absurd (ground arith)
    | inr e ↦
        (let (p, q) = count_requests-ok reactor (suc start) rs {n = n} (ground arith) in
          (ground (arith, p), ground (arith, q)))
  ]
  | inr a ↦
      (let (p, q) = count_requests-ok reactor start rs {n = n} (ground arith) in
        (ground (arith, p), ground (arith, q)))
]

-- enforceCaps passes only if fewer than four requests of the session are active, none of them on the
-- candidate's reactor.
pub enforce_caps-ok :
    (candidate : ForgeRecord) (s : ForgeStore)
    → enforce_caps candidate s ≡ ok tt
    → (suc (active_requests candidate.game_session_id s) ≤ 4)
      × (active_on_reactor candidate.game_session_id candidate.reactor_id s ≡ 0)
unfolding enforce_caps list_requests within_cap
enforce_caps-ok c s h =
    let session = c.game_session_id in
    let of = of_session session (values s.records) in
    elim (Result-cases (count_requests c.reactor_id 0 (sort_records of))) [
      | inl (e, p) ↦ absurd (ground arith)
      | inr (n, p) ↦
          (let (total, free) = count_requests-ok c.reactor_id 0 (sort_records of) p in
            (
              ground (
                arith,
                count_of-sort is_active_request of,
                count_of-session is_active_request session (values s.records),
              ),
              ground (
                arith,
                count_of-sort (on_reactor c.reactor_id) of,
                count_of-session (on_reactor c.reactor_id) session (values s.records),
              ),
            ))
    ]
