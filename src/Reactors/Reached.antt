-- ===== src/Reactors/Reached.antt =====
-- The stores that the manager reaches.
use radiant_prj.Common.{
  String, ◌==◌, ◌≡◌, refl, false, some, List, inl, inr, arith, Bool-cases, Option-cases,
}
use radiant_prj.Common.Error.{Result-cases, error_is}
use radiant_prj.Common.Dict.{lookup, values}
use radiant_prj.Simops.Types.{Time}
use radiant_prj.Reactors.Types.{RegisterRequest, RemoveRequest, WorkerSet, ReactorCall}
use radiant_prj.Reactors.Store.{
  new_reactor_store, get_worker_set, find_registration, telemetry_store_key,
}
use radiant_prj.Reactors.Manager.{
  ReactorManager, ReactorWorld, is_removed, is_set_not_found, touch_reactors,
}
use radiant_prj.Reactors.Relaunch.{rejoin}
use radiant_prj.Reactors.Registration.{
  find_or_admit, validate_reactor_identity, validate_registration, register_reactor,
}
use radiant_prj.Reactors.Cleanup.{
  remove_set, remove_reactor, reconcile_expired, reconcile_active, expire_set, revive_set,
}
use radiant_prj.Reactors.Changes.{set_key, IsSound}
use radiant_prj.Reactors.Changes.Local.{Changes-IsSound, own-AreStored}
use radiant_prj.Reactors.Changes.Launches.{rejoined-Changes}
use radiant_prj.Reactors.Changes.Cleanups.{cleanup-Changes}
use radiant_prj.Reactors.Changes.Rounds.{all-IsSound, expire-IsLocal, revive-IsLocal, touch-IsSound}
use radiant_prj.Reactors.Changes.Admissions.{
  limit, registration_stored, own_key, named_session, admit-IsSound,
}

module _ (m : ReactorManager) (now : Time) (w : ReactorWorld)
    (sound : IsSound (limit m) w.store) where
  rejoin-IsSound :
      (set : WorkerSet)
      → lookup (set_key set) w.store.sets ≡ some set
      → IsSound (limit m) (rejoin m now set w).1.store
  rejoin-IsSound set at = Changes-IsSound (rejoined-Changes (limit m) m now set w at) sound

  find-IsSound :
      (q : RegisterRequest)
      → (q.game_session_id == "") ≡ false
      → IsSound (limit m) (find_or_admit m now q w).1.store
  unfolding find_or_admit get_worker_set error_is
  find-IsSound q named =
      let key = telemetry_store_key q.game_session_id q.reactor_id in
      elim (Option-cases (lookup key w.store.sets)) [
        | inl p ↦ rw (find_or_admit, p) (admit-IsSound m now q w named sound)
        | inr (set, p) ↦
            let own = own_key key w.store.sets {set = set} sound.1 p in
            rw (find_or_admit, p) (rejoin-IsSound set (rw own p))
      ]

  register-IsSound : (q : RegisterRequest) → IsSound (limit m) (register_reactor m now q w).1.store
  unfolding register_reactor find_registration
  register-IsSound q = elim (Result-cases (validate_registration m q)) [
    | inl (e, p) ↦ rw (register_reactor, p) sound
    | inr (tt, p) ↦
        let found = find_registration q.game_session_id q.idempotency_key w.store in
        elim (Result-cases found) [
          | inr (set, n) ↦
              rw (register_reactor, p, n)
                (rejoin-IsSound set (
                  registration_stored q.game_session_id q.idempotency_key w.store.sets w.store
                    (own-AreStored w.store.sets sound.0 sound.1) n))
          | inl (e, n) ↦ elim (Bool-cases (is_set_not_found e)) [
            | inl f ↦ rw (register_reactor, p, n, f) (find-IsSound q (named_session m q p))
            | inr f ↦ rw (register_reactor, p, n, f) sound
          ]
        ]
  ]

  remove-IsSound : (q : RemoveRequest) → IsSound (limit m) (remove_reactor m now q w).1.store
  unfolding remove_reactor get_worker_set remove_set
  remove-IsSound q =
      let valid = validate_reactor_identity q.game_session_id q.reactor_id q.idempotency_key in
      let key = telemetry_store_key q.game_session_id q.reactor_id in
      elim (Result-cases valid) [
        | inl (e, p) ↦ rw (remove_reactor, p) sound
        | inr (tt, p) ↦ elim (Option-cases (lookup key w.store.sets)) [
          | inl n ↦ rw (remove_reactor, p, n) sound
          | inr (set, n) ↦ elim (Bool-cases (is_removed set.lifecycle)) [
            | inl f ↦ rw (remove_reactor, p, n, remove_set, f) sound
            | inr f ↦
                let own = own_key key w.store.sets {set = set} sound.1 n in
                rw (remove_reactor, p, n, remove_set, f)
                  (Changes-IsSound
                    (cleanup-Changes (limit m) m now set q.idempotency_key w
                      (set, rw own n, refl, f))
                    sound)
          ]
        ]
      ]

  expired-IsSound : IsSound (limit m) (reconcile_expired m now w).1.store
  unfolding reconcile_expired
  expired-IsSound = elim (Option-cases (m.context_error w.calls)) [
    | inr (e, p) ↦ rw (reconcile_expired, p) sound
    | inl p ↦
        rw (reconcile_expired, p)
          (all-IsSound (limit m) (expire_set m now) (expire-IsLocal (limit m) m now) w sound)
  ]

  revived-IsSound : IsSound (limit m) (reconcile_active m now w).1.store
  unfolding reconcile_active
  revived-IsSound =
      all-IsSound (limit m) (revive_set m now) (revive-IsLocal (limit m) m now) w sound

-- The worlds that the manager's methods reach from an empty store, in any order and at any times.
pub data Reached (m : ReactorManager) : ReactorWorld → Type 0 where
  at_first :
      (calls : List ReactorCall) → Reached m (record { store = new_reactor_store; calls = calls })
  registered :
      (now : Time) (q : RegisterRequest) (w : ReactorWorld)
      → Reached m w
      → Reached m (register_reactor m now q w).1
  removed :
      (now : Time) (q : RemoveRequest) (w : ReactorWorld)
      → Reached m w
      → Reached m (remove_reactor m now q w).1
  kept_active :
      (now : Time) (session : String) (w : ReactorWorld)
      → Reached m w
      → Reached m (touch_reactors m now session w)
  expired : (now : Time) (w : ReactorWorld) → Reached m w → Reached m (reconcile_expired m now w).1
  revived : (now : Time) (w : ReactorWorld) → Reached m w → Reached m (reconcile_active m now w).1

-- In every store that registrations, removals, activity and both reconciliations reach from an empty
-- one, each set stands under its own key, no key stands twice, no worker holds an ingest token, and no
-- session has more sets that are not removed than MaxReactorsPerSession, where a negative limit counts
-- as 0.
pub reached-IsSound :
    (m : ReactorManager) {w : ReactorWorld} → Reached m w → IsSound (limit m) w.store
unfolding values
reached-IsSound m (Reached.at_first calls) = (tt, tt, tt, λ session. omega arith)
reached-IsSound m (Reached.registered now q w r) = register-IsSound m now w (reached-IsSound m r) q
reached-IsSound m (Reached.removed now q w r) = remove-IsSound m now w (reached-IsSound m r) q
reached-IsSound m (Reached.kept_active now session w r) =
    touch-IsSound (limit m) m now session w (reached-IsSound m r)
reached-IsSound m (Reached.expired now w r) = expired-IsSound m now w (reached-IsSound m r)
reached-IsSound m (Reached.revived now w r) = revived-IsSound m now w (reached-IsSound m r)
