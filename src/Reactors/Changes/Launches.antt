-- ===== src/Reactors/Changes/Launches.antt =====
-- The changes that a registration and a launch that is made again bring to the store.
use radiant_prj.Common.{
  ℕ, zero, suc, ◌≡◌, refl, sym, subst, ◌∙◌, Bool, true, false, Option, none, some, List, [], ◌∷◌,
  inl, inr, arith, Bool-cases, Option-cases,
}
use radiant_prj.Common.Error.{Error, Result, ok, err}
use radiant_prj.Common.Dict.{lookup}
use radiant_prj.Simops.Types.{Time}
use radiant_prj.Reactors.Types.{SetLifecycle, ReactorWorker, WorkerSet, ReactorLaunch}
use radiant_prj.Reactors.Store.{ReactorStore, save_worker_set}
use radiant_prj.Reactors.Manager.{
  ReactorManager, ReactorWorld, is_removed, is_relaunchable, saved_set, made_call, register_source,
  settle_start,
}
use radiant_prj.Reactors.Relaunch.{
  gather, renewed, renew_workers, relaunch, retry_worker_set, rejoin,
}
use radiant_prj.Reactors.Registration.{plan_workers, planned_reactor_worker}
use radiant_prj.Reactors.Changes.{set_key, Change}
use radiant_prj.Reactors.Changes.Local.{Changes, IsHeld, held-Change, saved-IsHeld}

module _ (bound : ℕ) (m : ReactorManager) (now : Time) where
  settled-Changes :
      (set : WorkerSet) (c : Bool) (w : ReactorWorld) {s : ReactorStore}
      → IsHeld set w.store
      → Changes bound (set_key set) s w.store
      → Changes bound (set_key set) s (settle_start m now set c w).1.store
  unfolding settle_start saved_set made_call
  settled-Changes set c w held earlier =
      let launch : ReactorLaunch = record { set_id = set.set_id; workers = set.workers } in
      elim (Option-cases (m.runtime.start_worker_set w.calls launch)) [
        | inl p ↦
            rw (settle_start, p)
              (Changes.then_saved _ earlier refl (held-Change bound _ w.store held))
        | inr (e, p) ↦
            rw (settle_start, p)
              (Changes.then_saved _ earlier refl (held-Change bound _ w.store held))
      ]

  -- A set that is saved and then launched.
  pub launched-Changes :
      (set : WorkerSet) (c : Bool) (w : ReactorWorld)
      → is_removed set.lifecycle ≡ false
      → Change bound w.store (save_worker_set set w.store)
      → Changes bound (set_key set) w.store (settle_start m now set c (saved_set set w)).1.store
  unfolding saved_set
  launched-Changes set c w kept change =
      settled-Changes set c (saved_set set w) (saved-IsHeld set w.store kept)
        (Changes.then_saved set (Changes.stay w.store) refl change)

  register-store :
      (worker : ReactorWorker) (w : ReactorWorld) → (register_source m worker w).1.store ≡ w.store
  unfolding register_source made_call
  register-store worker w = ground arith

  gather-store :
      (worker : ReactorWorker) (registered : Option Error × ReactorWorld)
      (later : Result (List ReactorWorker) × ReactorWorld) (s : ReactorStore)
      → registered.1.store ≡ s
      → later.1.store ≡ s
      → (gather worker registered later).1.store ≡ s
  unfolding gather
  gather-store worker (some e, w) later s h k = h
  gather-store worker (none, w) (later, w') s h k = k

  renew-store :
      (set : WorkerSet) (ws : List ReactorWorker) (w : ReactorWorld)
      → (renew_workers m set ws w).1.store ≡ w.store
  unfolding renew_workers
  renew-store set [] w = refl
  renew-store set (worker ∷ ws) w =
      let worker' = renewed m set worker in
      let at = register-store worker' w in
      gather-store worker' _ _ w.store at (renew-store set ws (register_source m worker' w).1 ∙ at)

  pub plan-store :
      (set : WorkerSet) (index left : ℕ) (w : ReactorWorld)
      → (plan_workers m set index left w).1.store ≡ w.store
  unfolding plan_workers
  plan-store set index zero w = refl
  plan-store set index (suc left) w =
      let worker = planned_reactor_worker m set index in
      let at = register-store worker w in
      gather-store worker _ _ w.store at
        (plan-store set (suc index) left (register_source m worker w).1 ∙ at)

  relaunched-Changes :
      (set : WorkerSet) (workers : Result (List ReactorWorker)) (w : ReactorWorld)
      → is_removed set.lifecycle ≡ false
      → IsHeld set w.store
      → Changes bound (set_key set) w.store (relaunch m now set workers w).1.store
  unfolding relaunch
  relaunched-Changes set (err e) w kept held = Changes.stay w.store
  relaunched-Changes set (ok workers) w kept held =
      launched-Changes (record set { workers = workers }) false w kept
        (held-Change bound _ w.store held)

  pub retried-Changes :
      (set : WorkerSet) (w : ReactorWorld)
      → IsHeld set w.store
      → Changes bound (set_key set) w.store (retry_worker_set m now set w).1.store
  unfolding retry_worker_set
  retried-Changes set w held =
      let same = renew-store set set.workers w in
      let starting : WorkerSet = record set {
        lifecycle = SetLifecycle.starting;
        last_error = "";
        updated_at = now;
      } in
      let (workers, w') = renew_workers m set set.workers w in
      let step = relaunched-Changes starting workers w' refl (subst (IsHeld set) (sym same) held) in
      subst (λ s. Changes bound (set_key set) s (relaunch m now starting workers w').1.store) same
        step

  pub relaunchable_present : (l : SetLifecycle) → is_relaunchable l ≡ true → is_removed l ≡ false
  relaunchable_present l h = ground arith

  pub rejoined-Changes :
      (set : WorkerSet) (w : ReactorWorld)
      → lookup (set_key set) w.store.sets ≡ some set
      → Changes bound (set_key set) w.store (rejoin m now set w).1.store
  unfolding rejoin
  rejoined-Changes set w at = elim (Bool-cases (is_relaunchable set.lifecycle)) [
    | inl p ↦
        rw (rejoin, p) (retried-Changes set w (set, at, refl, relaunchable_present set.lifecycle p))
    | inr p ↦ rw (rejoin, p) (Changes.stay w.store)
  ]
