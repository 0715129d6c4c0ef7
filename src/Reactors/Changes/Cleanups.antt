-- ===== src/Reactors/Changes/Cleanups.antt =====
-- The changes that the removal of a set brings to the store.
use radiant_prj.Common.{ℕ, String, ◌≡◌, refl, false, Option, none, some, inl, inr, Option-cases}
use radiant_prj.Common.Error.{Error}
use radiant_prj.Simops.Types.{Time}
use radiant_prj.Reactors.Types.{WorkerSet}
use radiant_prj.Reactors.Store.{ReactorStore}
use radiant_prj.Reactors.Manager.{ReactorManager, ReactorWorld, is_removed, saved_set, made_call}
use radiant_prj.Reactors.Cleanup.{
  save_lifecycle_set, cleaning, settle_stop, stop_set, cleanup_worker_set,
}
use radiant_prj.Reactors.Changes.{set_key}
use radiant_prj.Reactors.Changes.Local.{Changes, IsHeld, held-Change, saved-IsHeld}

module _ (bound : ℕ) (m : ReactorManager) (now : Time) where
  save_lifecycle-Changes :
      (set : WorkerSet) (w : ReactorWorld) {s : ReactorStore}
      → IsHeld set w.store
      → Changes bound (set_key set) s w.store
      → Changes bound (set_key set) s (save_lifecycle_set m set w).1.store
  unfolding save_lifecycle_set saved_set
  save_lifecycle-Changes set w held earlier = elim (Option-cases (m.context_error w.calls)) [
    | inl p ↦
        rw (save_lifecycle_set, p)
          (Changes.then_saved set earlier refl (held-Change bound set w.store held))
    | inr (e, p) ↦ rw (save_lifecycle_set, p) earlier
  ]

  -- The save leaves a set that can be written over.
  save_lifecycle-IsHeld :
      (set : WorkerSet) (w : ReactorWorld)
      → is_removed set.lifecycle ≡ false
      → IsHeld set w.store
      → IsHeld set (save_lifecycle_set m set w).1.store
  unfolding save_lifecycle_set saved_set
  save_lifecycle-IsHeld set w kept held = elim (Option-cases (m.context_error w.calls)) [
    | inl p ↦ rw (save_lifecycle_set, p) (saved-IsHeld set w.store kept)
    | inr (e, p) ↦ rw (save_lifecycle_set, p) held
  ]

  settled_stop-Changes :
      (set : WorkerSet) (answer : Option Error) (w : ReactorWorld) {s : ReactorStore}
      → IsHeld set w.store
      → Changes bound (set_key set) s w.store
      → Changes bound (set_key set) s (settle_stop m now set answer w).1.store
  unfolding settle_stop
  settled_stop-Changes set (some e) w held earlier = save_lifecycle-Changes _ w held earlier
  settled_stop-Changes set none w held earlier = save_lifecycle-Changes _ w held earlier

  stopped-Changes :
      (set : WorkerSet) (answer : Option Error × ReactorWorld) {s : ReactorStore}
      → IsHeld set answer.1.store
      → Changes bound (set_key set) s answer.1.store
      → Changes bound (set_key set) s (stop_set m now set answer).1.store
  unfolding stop_set made_call
  stopped-Changes set (some e, w) held earlier = earlier
  stopped-Changes set (none, w) held earlier = settled_stop-Changes set _ _ held earlier

  pub cleanup-Changes :
      (set : WorkerSet) (idempotency_key : String) (w : ReactorWorld)
      → IsHeld set w.store
      → Changes bound (set_key set) w.store (cleanup_worker_set m now set idempotency_key w).1.store
  unfolding cleanup_worker_set cleaning
  cleanup-Changes set idempotency_key w held = elim (Option-cases (m.context_error w.calls)) [
    | inr (e, p) ↦ rw (cleanup_worker_set, p) (Changes.stay w.store)
    | inl p ↦
        let set' = cleaning m now set idempotency_key in
        rw (cleanup_worker_set, p)
          (stopped-Changes set' (save_lifecycle_set m set' w)
            (save_lifecycle-IsHeld set' w refl held)
            (save_lifecycle-Changes set' w held (Changes.stay w.store)))
  ]
