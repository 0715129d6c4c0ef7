-- ===== src/Reactors/Changes.antt =====
-- What the manager may do to its store, as a relation: it writes a set over one that is not removed,
-- or admits a set where none is stored and the session has room.
pub mod Local
pub mod Launches
pub mod Cleanups
pub mod Rounds
pub mod Admissions
use radiant_prj.Common.{
  ℕ, suc, ◌+◌, ◌≤◌, String, ◌==◌, ◌≡◌, refl, Bool, true, false, not, ◌&&◌, none, some, List, [],
  ◌∷◌, map, inl, inr, arith, eq_iff, All, Bool-cases, if◌then◌else◌,
}
use radiant_prj.Common.Dict.{Dict, lookup, insert, values, AllValues, AllValues-insert}
use radiant_prj.Common.Counts.{
  count_of, count_of-store, count_of-fail, count_of-replace, IsUnique, insert-IsUnique,
}
use radiant_prj.Reactors.Types.{SetLifecycle, ReactorWorker, WorkerSet}
use radiant_prj.Reactors.Store.{
  ReactorStore, telemetry_store_key, redact_worker, redact_credentials, save_worker_set,
}
use radiant_prj.Reactors.Manager.{is_removed}

abbrev pub set_key : WorkerSet → String
set_key set = telemetry_store_key set.game_session_id set.reactor_id

-- The sets of a session that are not removed.
abbrev pub is_present : String → WorkerSet → Bool
is_present session set = set.game_session_id == session && not (is_removed set.lifecycle)

abbrev pub present : String → ReactorStore → ℕ
present session s = count_of (is_present session) (values s.sets)

pub data Change (bound : ℕ) : ReactorStore → ReactorStore → Type 0 where
  rewritten :
      (set old : WorkerSet) (s : ReactorStore)
      → lookup (set_key set) s.sets ≡ some old
      → old.game_session_id ≡ set.game_session_id
      → is_removed old.lifecycle ≡ false
      → Change bound s (save_worker_set set s)
  admitted :
      (set : WorkerSet) (s : ReactorStore)
      → suc (present set.game_session_id s) ≤ bound
      → Change bound s (save_worker_set set s)

-- Every set stands under its own key.
abbrev pub IsKeyed : Dict WorkerSet → Type 0
IsKeyed [] = Unit
IsKeyed ((k, set) ∷ m) = (set_key set ≡ k) × IsKeyed m

-- No worker of the set holds an ingest token.
abbrev pub HasNoToken : WorkerSet → Type 0
HasNoToken set = All (λ w. w.gateway.ingest_token ≡ "") set.workers

-- Sets stand under their own keys, each key once; none holds a token; and no session has more sets
-- that are not removed than the bound.
abbrev pub IsSound : ℕ → ReactorStore → Type 0
IsSound bound s =
    IsUnique s.sets
    × IsKeyed s.sets
    × AllValues HasNoToken s.sets
    × ((session : String) → present session s ≤ bound)

insert-IsKeyed :
    (set : WorkerSet) (m : Dict WorkerSet) → IsKeyed m → IsKeyed (insert (set_key set) set m)
unfolding insert
insert-IsKeyed set [] a = (refl, tt)
insert-IsKeyed set ((k, x) ∷ m) (at, a) = elim (Bool-cases (k == set_key set)) [
  | inl e ↦ rw e (refl, a)
  | inr e ↦ rw e (at, insert-IsKeyed set m a)
]

redacted : (ws : List ReactorWorker) → All (λ w. w.gateway.ingest_token ≡ "") (map redact_worker ws)
unfolding redact_worker
redacted [] = tt
redacted (w ∷ ws) = (refl, redacted ws)

saved-HasNoToken : (set : WorkerSet) → HasNoToken (redact_credentials set)
unfolding redact_credentials
saved-HasNoToken set = redacted set.workers

present-rewritten :
    (session : String) (set old : WorkerSet) (s : ReactorStore)
    → lookup (set_key set) s.sets ≡ some old
    → old.game_session_id ≡ set.game_session_id
    → is_removed old.lifecycle ≡ false
    → present session (save_worker_set set s) ≤ present session s
unfolding save_worker_set redact_credentials
present-rewritten session set old s at same kept =
    elim (Bool-cases (set.game_session_id == session)) [
      | inl e ↦
          count_of-replace (is_present session) (set_key set) (redact_credentials set) old s.sets at
            (ground arith)
      | inr e ↦
          count_of-fail (is_present session) (set_key set) (redact_credentials set) s.sets
            (ground arith)
    ]

present-admitted :
    (session : String) (set : WorkerSet) (s : ReactorStore) {bound : ℕ}
    → suc (present set.game_session_id s) ≤ bound
    → present session s ≤ bound
    → present session (save_worker_set set s) ≤ bound
unfolding save_worker_set redact_credentials
present-admitted session set s room few =
    let set' = redact_credentials set in
    elim (Bool-cases (set.game_session_id == session)) [
      | inl e ↦ ground (
        arith,
        eq_iff set.game_session_id session,
        count_of-store (is_present session) (set_key set) set' s.sets,
      )
      | inr e ↦
          ground
            (arith, count_of-fail (is_present session) (set_key set) set' s.sets (ground arith))
    ]

pub change-IsSound :
    {bound : ℕ} {s s' : ReactorStore} → Change bound s s' → IsSound bound s → IsSound bound s'
unfolding save_worker_set redact_credentials
change-IsSound (Change.rewritten set old s at same kept) (u, k, t, few) =
    let set' = redact_credentials set in
    (
      insert-IsUnique (set_key set) set' s.sets u,
      insert-IsKeyed set' s.sets k,
      AllValues-insert HasNoToken (set_key set) set' s.sets (saved-HasNoToken set) t,
      λ session. ground (arith, few session, present-rewritten session set old s at same kept),
    )
change-IsSound (Change.admitted set s room) (u, k, t, few) =
    let set' = redact_credentials set in
    (
      insert-IsUnique (set_key set) set' s.sets u,
      insert-IsKeyed set' s.sets k,
      AllValues-insert HasNoToken (set_key set) set' s.sets (saved-HasNoToken set) t,
      λ session. present-admitted session set s room (few session),
    )
