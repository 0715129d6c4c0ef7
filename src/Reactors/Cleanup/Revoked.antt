-- ===== src/Reactors/Cleanup/Revoked.antt =====
-- The credentials of a set that is cleaned up.
use radiant_prj.Common.{String, ◌≡◌, refl, true, false, Option, none, some, inl, inr, Option-cases}
use radiant_prj.Common.Error.{Error, ok}
use radiant_prj.Common.Dict.{lookup, lookup-insert_self}
use radiant_prj.Simops.Types.{Time}
use radiant_prj.Reactors.Types.{RemoveRequest, WorkerSet}
use radiant_prj.Reactors.Store.{ReactorStore, get_worker_set, save_worker_set, redact_credentials}
use radiant_prj.Reactors.Manager.{ReactorManager, ReactorWorld, is_removed, saved_set, made_call}
use radiant_prj.Reactors.Registration.{validate_reactor_identity}
use radiant_prj.Reactors.Cleanup.{
  save_lifecycle_set, cleaning, settle_stop, stop_set, cleanup_worker_set, remove_set,
  remove_reactor,
}
use radiant_prj.Reactors.Changes.{set_key}

-- A revoked set with the key of this one is stored.
abbrev pub IsRevoked : WorkerSet → ReactorStore → Type 0
IsRevoked set s =
    (x : WorkerSet) × (lookup (set_key set) s.sets ≡ some x) × (x.credentials_revoked ≡ true)

saved-IsRevoked :
    (set : WorkerSet) (s : ReactorStore)
    → set.credentials_revoked ≡ true
    → IsRevoked set (save_worker_set set s)
unfolding save_worker_set redact_credentials
saved-IsRevoked set s revoked =
    (redact_credentials set, lookup-insert_self (set_key set) _ s.sets, revoked)

module _ (m : ReactorManager) (now : Time) where
  save-IsRevoked :
      (set : WorkerSet) (w : ReactorWorld)
      → set.credentials_revoked ≡ true
      → IsRevoked set w.store
      → IsRevoked set (save_lifecycle_set m set w).1.store
  unfolding save_lifecycle_set saved_set
  save-IsRevoked set w revoked held = elim (Option-cases (m.context_error w.calls)) [
    | inl p ↦ rw (save_lifecycle_set, p) (saved-IsRevoked set w.store revoked)
    | inr (e, p) ↦ rw (save_lifecycle_set, p) held
  ]

  settle-IsRevoked :
      (set : WorkerSet) (answer : Option Error) (w : ReactorWorld)
      → set.credentials_revoked ≡ true
      → IsRevoked set w.store
      → IsRevoked set (settle_stop m now set answer w).1.store
  unfolding settle_stop
  settle-IsRevoked set (some e) w revoked held = save-IsRevoked _ w revoked held
  settle-IsRevoked set none w revoked held = save-IsRevoked _ w revoked held

  stop-IsRevoked :
      (set : WorkerSet) (answer : Option Error × ReactorWorld)
      → set.credentials_revoked ≡ true
      → IsRevoked set answer.1.store
      → IsRevoked set (stop_set m now set answer).1.store
  unfolding stop_set made_call
  stop-IsRevoked set (some e, w) revoked held = held
  stop-IsRevoked set (none, w) revoked held = settle-IsRevoked set _ _ revoked held

  -- Whatever the runtime answers, the set is revoked, if the context does not end the cleanup first.
  pub cleanup-IsRevoked :
      (set : WorkerSet) (idempotency_key : String) (w : ReactorWorld)
      → m.context_error w.calls ≡ none
      → IsRevoked set (cleanup_worker_set m now set idempotency_key w).1.store
  unfolding cleanup_worker_set cleaning save_lifecycle_set saved_set
  cleanup-IsRevoked set idempotency_key w live =
      let set' = cleaning m now set idempotency_key in
      let first : IsRevoked set' (save_lifecycle_set m set' w).1.store =
        rw (save_lifecycle_set, live) (saved-IsRevoked set' w.store refl) in
      rw (cleanup_worker_set, live) (stop-IsRevoked set' (save_lifecycle_set m set' w) refl first)

  pub remove-IsRevoked :
      (q : RemoveRequest) (w : ReactorWorld) {set : WorkerSet}
      → validate_reactor_identity q.game_session_id q.reactor_id q.idempotency_key ≡ ok tt
      → get_worker_set q.game_session_id q.reactor_id w.store ≡ ok set
      → is_removed set.lifecycle ≡ false
      → m.context_error w.calls ≡ none
      → IsRevoked set (remove_reactor m now q w).1.store
  unfolding remove_reactor remove_set
  remove-IsRevoked q w {set} valid found present live =
      rw (remove_reactor, valid, found, remove_set, present)
        (cleanup-IsRevoked set q.idempotency_key w live)
