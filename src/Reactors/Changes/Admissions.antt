-- ===== src/Reactors/Changes/Admissions.antt =====
-- A registration that finds no set, and the sets that it finds.
use radiant_prj.Common.{
  ℕ, suc, ◌≤◌, String, ◌==◌, ◌≡◌, refl, sym, ap, subst, ◌∙◌, true, false, ◌&&◌, some, List, [], ◌∷◌,
  inl, inr, arith, eq_iff, Bool-cases,
}
use radiant_prj.Common.Error.{ok, err}
use radiant_prj.Common.Text.{trim_space}
use radiant_prj.Common.Dict.{Dict, lookup, values}
use radiant_prj.Common.Counts.{count_of}
use radiant_prj.Simops.Types.{Time, ℤ}
use radiant_prj.Simops.Controller.{reached_limit}
use radiant_prj.Reactors.Types.{RegisterRequest, WorkerSet}
use radiant_prj.Reactors.Config.{rounds}
use radiant_prj.Reactors.Store.{ReactorStore, first_registration, sets_of_session, list_worker_sets}
use radiant_prj.Reactors.Manager.{ReactorManager, ReactorWorld, is_removed}
use radiant_prj.Reactors.Registration.{
  count_present, new_worker_set, plan_workers, launch_set, admit_set, validate_reactor_identity,
  validate_registration,
}
use radiant_prj.Reactors.Changes.{set_key, is_present, present, Change, IsSound, IsKeyed}
use radiant_prj.Reactors.Changes.Local.{Changes-IsSound, AreStored}
use radiant_prj.Reactors.Changes.Launches.{launched-Changes, plan-store}

pub registration_stored :
    (session idempotency : String) (d : Dict WorkerSet) (s : ReactorStore) {set : WorkerSet}
    → AreStored d s
    → first_registration session idempotency (values d) ≡ ok set
    → lookup (set_key set) s.sets ≡ some set
unfolding first_registration values
registration_stored session idempotency [] s stored h = cc
registration_stored session idempotency ((k, x) ∷ d) s {set} (at, own, stored) h =
    elim (Bool-cases (x.game_session_id == session && x.register_idempotency == idempotency)) [
      | inl p ↦
          (let same : x ≡ set = ground arith in
            subst (λ y. lookup (set_key y) s.sets ≡ some y) same (rw own at))
      | inr p ↦ registration_stored session idempotency d s stored (ground arith)
    ]

pub own_key :
    (k : String) (d : Dict WorkerSet) {set : WorkerSet}
    → IsKeyed d
    → lookup k d ≡ some set
    → set_key set ≡ k
unfolding lookup
own_key k [] a h = cc
own_key k ((j, x) ∷ d) {set} (own, a) h = elim (Bool-cases (j == k)) [
  | inl p ↦
      (let same : x ≡ set = ground arith in
        let at : j ≡ k = ground (arith, eq_iff j k) in subst (λ y. set_key y ≡ k) same (own ∙ at))
  | inr p ↦ own_key k d {set = set} a (ground arith)
]

-- What the count of a registration is.
present_counted :
    (session : String) (sets : List WorkerSet)
    → (session == "") ≡ false
    → count_present (sets_of_session session sets) ≡ count_of (is_present session) sets
unfolding count_present sets_of_session
present_counted session [] named = refl
present_counted session (set ∷ sets) named = ground (arith, present_counted session sets named)

pub named_session :
    (m : ReactorManager) (q : RegisterRequest)
    → validate_registration m q ≡ ok tt
    → (q.game_session_id == "") ≡ false
unfolding validate_registration validate_reactor_identity trim_space
named_session m q h = elim (Bool-cases (q.game_session_id == "")) [
  | inr p ↦ p
  | inl p ↦
      let blank : q.game_session_id ≡ "" = ground (arith, eq_iff q.game_session_id "") in
      let trimmed : trim_space q.game_session_id ≡ "" = ap trim_space blank in
      absurd (ground (arith, trimmed))
]

room_left : (limit : ℤ) (n : ℕ) → reached_limit n limit ≡ false → suc n ≤ rounds limit
unfolding reached_limit rounds
room_left (ℤ.pos k) n h = ground arith
room_left (ℤ.negsuc k) n h = ground arith

abbrev pub limit : ReactorManager → ℕ
limit m = rounds m.cfg.max_reactors_per_session

launch-IsSound :
    (m : ReactorManager) (now : Time) (set : WorkerSet) (workers : _) (w : ReactorWorld)
    → is_removed set.lifecycle ≡ false
    → suc (present set.game_session_id w.store) ≤ limit m
    → IsSound (limit m) w.store
    → IsSound (limit m) (launch_set m now set workers w).1.store
unfolding launch_set
launch-IsSound m now set (err e) w kept room sound = sound
launch-IsSound m now set (ok workers) w kept room sound =
    Changes-IsSound
      (launched-Changes (limit m) m now (record set { workers = workers }) true w kept
        (Change.admitted _ w.store room))
      sound

pub admit-IsSound :
    (m : ReactorManager) (now : Time) (q : RegisterRequest) (w : ReactorWorld)
    → (q.game_session_id == "") ≡ false
    → IsSound (limit m) w.store
    → IsSound (limit m) (admit_set m now q w).1.store
unfolding admit_set list_worker_sets new_worker_set
admit-IsSound m now q w named sound =
    elim (Bool-cases (
      reached_limit (count_present (list_worker_sets q.game_session_id w.store))
        m.cfg.max_reactors_per_session)) [
          | inl p ↦ rw (admit_set, p) sound
          | inr p ↦
              let set = new_worker_set m now q in
              let count = rounds m.cfg.workers_per_set in
              let room = room_left m.cfg.max_reactors_per_session _ p in
              let counted = present_counted q.game_session_id (values w.store.sets) named in
              let same = plan-store (limit m) m now set 0 count w in
              let (workers, w') = plan_workers m set 0 count w in
              rw (admit_set, p)
                (launch-IsSound m now set workers w' refl (ground (arith, room, counted, same))
                  (subst (IsSound (limit m)) (sym same) sound))
        ]
