-- ===== src/Reactors/Changes/Rounds.antt =====
-- The loops over the sets of a store.
use radiant_prj.Common.{
  ℕ, String, ◌==◌, ◌≡◌, refl, sym, subst, not, ◌&&◌, ◌||◌, Option, none, some, List, [], ◌∷◌, inl,
  inr, arith, ltb, Bool-cases,
}
use radiant_prj.Common.Error.{Error, join}
use radiant_prj.Common.Dict.{Dict, lookup, values}
use radiant_prj.Common.Counts.{IsUnique}
use radiant_prj.Simops.Types.{Time}
use radiant_prj.Reactors.Types.{WorkerSet}
use radiant_prj.Reactors.Store.{sets_of_session, list_worker_sets}
use radiant_prj.Reactors.Manager.{
  ReactorManager, ReactorWorld, is_removed, is_cleanup, touch_set, touch_sets, touch_reactors,
  saved_set,
}
use radiant_prj.Reactors.Cleanup.{each_set, expiry_key, expire_set, revive_set}
use radiant_prj.Reactors.Changes.{set_key, IsSound}
use radiant_prj.Reactors.Changes.Local.{
  Changes, IsHeld, held-Change, Changes-IsSound, Changes-AgreeOff, AreStored, agree-AreStored,
  own-AreStored,
}
use radiant_prj.Reactors.Changes.Launches.{retried-Changes}
use radiant_prj.Reactors.Changes.Cleanups.{cleanup-Changes}

-- The round changes the store under the key of a set that the store has.
abbrev pub IsLocal : ℕ → (WorkerSet → ReactorWorld → Option Error × ReactorWorld) → Type 0
IsLocal bound round =
    (set : WorkerSet) (w : ReactorWorld)
    → lookup (set_key set) w.store.sets ≡ some set
    → Changes bound (set_key set) w.store (round set w).1.store

each-IsSound :
    (bound : ℕ) (round : WorkerSet → ReactorWorld → Option Error × ReactorWorld)
    → IsLocal bound round
    → (earlier : Option Error) (m : Dict WorkerSet) (w : ReactorWorld) → IsUnique m
    → AreStored m w.store
    → IsSound bound w.store
    → IsSound bound (each_set round earlier (values m) w).1.store
unfolding each_set values
each-IsSound bound round local earlier [] w u stored sound = sound
each-IsSound bound round local earlier ((k, set) ∷ m) w (fresh, u) (at, own, stored) sound =
    let change = local set w (rw own at) in
    let after : Changes bound k w.store (round set w).1.store =
      subst (λ key. Changes bound key w.store (round set w).1.store) own change in
    each-IsSound bound round local (join earlier (round set w).0) m (round set w).1 u
      (agree-AreStored k m w.store (round set w).1.store (Changes-AgreeOff after) fresh stored)
      (Changes-IsSound after sound)

pub every_session : (sets : List WorkerSet) → sets_of_session "" sets ≡ sets
unfolding sets_of_session
every_session [] = refl
every_session (set ∷ sets) = ground (arith, every_session sets)

-- A loop over all sets.
pub all-IsSound :
    (bound : ℕ) (round : WorkerSet → ReactorWorld → Option Error × ReactorWorld)
    → IsLocal bound round
    → (w : ReactorWorld) → IsSound bound w.store
    → IsSound bound (each_set round none (list_worker_sets "" w.store) w).1.store
unfolding list_worker_sets
all-IsSound bound round local w sound =
    let whole = every_session (values w.store.sets) in
    subst (λ sets. IsSound bound (each_set round none sets w).1.store) (sym whole)
      (each-IsSound bound round local none w.store.sets w sound.0
        (own-AreStored w.store.sets sound.0 sound.1) sound)

module _ (bound : ℕ) (m : ReactorManager) (now : Time) where
  pub expire-IsLocal : IsLocal bound (expire_set m now)
  unfolding expire_set
  expire-IsLocal set w at =
      elim (Bool-cases
        (is_removed set.lifecycle || (not (is_cleanup set.lifecycle) && ltb now set.expires_at))) [
          | inl p ↦ rw (expire_set, p) (Changes.stay w.store)
          | inr p ↦
              rw (expire_set, p)
                (cleanup-Changes bound m now set (expiry_key set) w (set, at, refl, ground arith))
        ]

  pub revive-IsLocal : IsLocal bound (revive_set m now)
  unfolding revive_set
  revive-IsLocal set w at = elim (Bool-cases (is_cleanup set.lifecycle)) [
    | inl p ↦
        rw (revive_set, p)
          (cleanup-Changes bound m now set set.remove_idempotency w (set, at, refl, ground arith))
    | inr p ↦ elim (Bool-cases (is_removed set.lifecycle || not (ltb now set.expires_at))) [
      | inl q ↦ rw (revive_set, p, q) (Changes.stay w.store)
      | inr q ↦
          rw (revive_set, p, q) (retried-Changes bound m now set w (set, at, refl, ground arith))
    ]
  ]

  touched-Changes :
      (set : WorkerSet) (w : ReactorWorld)
      → lookup (set_key set) w.store.sets ≡ some set
      → Changes bound (set_key set) w.store (touch_set m.cfg now set w).store
  unfolding touch_set saved_set
  touched-Changes set w at =
      elim (Bool-cases (is_removed set.lifecycle || is_cleanup set.lifecycle)) [
        | inl p ↦ rw (touch_set, p) (Changes.stay w.store)
        | inr p ↦
            let held : IsHeld set w.store = (set, at, refl, ground arith) in
            rw (touch_set, p)
              (Changes.then_saved _ (Changes.stay w.store) refl (held-Change bound _ w.store held))
      ]

  -- The loop of TouchSession, over the sets of a session.
  touch_sets-IsSound :
      (session : String) (d : Dict WorkerSet) (w : ReactorWorld)
      → IsUnique d
      → AreStored d w.store
      → IsSound bound w.store
      → IsSound bound (touch_sets m.cfg now (sets_of_session session (values d)) w).store
  unfolding touch_sets sets_of_session values
  touch_sets-IsSound session [] w u stored sound = sound
  touch_sets-IsSound session ((k, set) ∷ d) w (fresh, u) (at, own, stored) sound =
      elim (Bool-cases (session == "" || set.game_session_id == session)) [
        | inr p ↦ rw (touch_sets, p) (touch_sets-IsSound session d w u stored sound)
        | inl p ↦
            let w' = touch_set m.cfg now set w in
            let after : Changes bound k w.store w'.store =
              subst (λ key. Changes bound key w.store w'.store) own
                (touched-Changes set w (rw own at)) in
            rw (touch_sets, p)
              (touch_sets-IsSound session d w' u
                (agree-AreStored k d w.store w'.store (Changes-AgreeOff after) fresh stored)
                (Changes-IsSound after sound))
      ]

  pub touch-IsSound :
      (session : String) (w : ReactorWorld)
      → IsSound bound w.store
      → IsSound bound (touch_reactors m now session w).store
  unfolding touch_reactors list_worker_sets
  touch-IsSound session w sound =
      touch_sets-IsSound session w.store.sets w sound.0 (own-AreStored w.store.sets sound.0 sound.1)
        sound
