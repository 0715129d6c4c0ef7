-- ===== src/Reactors/Cleanup/Unauthorized.antt =====
-- No credential of a set is let through after its removal.
use radiant_prj.Common.{
  String, ◌==◌, ◌≡◌, refl, sym, ◌∙◌, Bool, true, false, none, some, [], ◌∷◌, inl, inr, arith,
  eq_iff, any, Bool-cases,
}
use radiant_prj.Common.Error.{ok}
use radiant_prj.Common.Dict.{Dict, lookup, values}
use radiant_prj.Simops.Types.{Time}
use radiant_prj.Reactors.Types.{RemoveRequest, WorkerSet}
use radiant_prj.Reactors.Store.{ReactorStore, get_worker_set, list_worker_sets, telemetry_store_key}
use radiant_prj.Reactors.Manager.{ReactorManager, ReactorWorld, is_removed}
use radiant_prj.Reactors.Registration.{validate_reactor_identity}
use radiant_prj.Reactors.Credential.{Claims, verify_source_credential}
use radiant_prj.Reactors.Cleanup.{
  remove_set, remove_reactor, set_authorizes, authorize_source_credential,
}
use radiant_prj.Reactors.Cleanup.Revoked.{remove-IsRevoked}
use radiant_prj.Reactors.Changes.{set_key}
use radiant_prj.Reactors.Changes.Local.{Changes, AreStored, own-AreStored, Changes-AgreeOff}
use radiant_prj.Reactors.Changes.Cleanups.{cleanup-Changes}
use radiant_prj.Reactors.Changes.Rounds.{every_session}
use radiant_prj.Reactors.Changes.Admissions.{limit, own_key}
use radiant_prj.Reactors.Reached.{Reached, reached-IsSound}

none_authorizes :
    (test : WorkerSet → Bool) (d : Dict WorkerSet) (s : ReactorStore)
    → AreStored d s
    → ((k : String) (x : WorkerSet) → lookup k s.sets ≡ some x → test x ≡ false)
    → any test (values d) ≡ false
unfolding values
none_authorizes test [] s stored fails = refl
none_authorizes test ((k, x) ∷ d) s (at, own, stored) fails =
    ground (arith, fails k x at, none_authorizes test d s stored fails)

-- No other stored set has the identifier of this one.
abbrev pub HasOwnId : WorkerSet → ReactorStore → Type 0
HasOwnId set s =
    (k : String) (x : WorkerSet)
    → lookup k s.sets ≡ some x
    → (k == set_key set) ≡ false
    → (x.set_id == set.set_id) ≡ false

module _ (m : ReactorManager) (now : Time) (q : RemoveRequest) (w : ReactorWorld) {set : WorkerSet}
    (valid : validate_reactor_identity q.game_session_id q.reactor_id q.idempotency_key ≡ ok tt)
    (found : get_worker_set q.game_session_id q.reactor_id w.store ≡ ok set)
    (present : is_removed set.lifecycle ≡ false) (reached : Reached m w) where
  found_at : lookup (set_key set) w.store.sets ≡ some set
  unfolding get_worker_set
  found_at =
      let key = telemetry_store_key q.game_session_id q.reactor_id in
      let at : lookup key w.store.sets ≡ some set = ground arith in
      rw (own_key key w.store.sets {set = set} (reached-IsSound m reached).1 at) at

  removed-Changes : Changes (limit m) (set_key set) w.store (remove_reactor m now q w).1.store
  unfolding remove_reactor remove_set
  removed-Changes =
      rw (remove_reactor, valid, found, remove_set, present)
        (cleanup-Changes (limit m) m now set q.idempotency_key w (set, found_at, refl, present))

  -- A set that is stored after the removal does not let a credential of the removed set through.
  refused_by :
      m.context_error w.calls ≡ none
      → HasOwnId set w.store
      → (later : Time) (source reactor : String) (c : Claims) → c.set_id ≡ set.set_id
      → (k : String) (x : WorkerSet) → lookup k (remove_reactor m now q w).1.store.sets ≡ some x
      → set_authorizes later c source reactor x ≡ false
  unfolding set_authorizes
  refused_by live others later source reactor c same k x at = elim (Bool-cases (k == set_key set)) [
    | inl p ↦
        (let (y, there, revoked) = remove-IsRevoked m now q w valid found present live in
          let own : k ≡ set_key set = ground (arith, eq_iff k (set_key set)) in
          let twin : some x ≡ some y = sym (rw (← own) at) ∙ there in
          let gone : x.credentials_revoked ≡ true = ground (arith, twin) in ground (arith, gone))
    | inr p ↦
        (let apart : (set_key set == k) ≡ false =
            ground (arith, eq_iff k (set_key set), eq_iff (set_key set) k) in
          let before = sym (Changes-AgreeOff removed-Changes k apart) ∙ at in
          let other = others k x before p in
          let id : (x.set_id == c.set_id) ≡ false = rw same other in ground (arith, id))
  ]

-- If a reached store has a set that is not removed, no other stored set has its identifier, and the
-- context is alive, then after a removal of that set's reactor no token is authorised at any time
-- whose claims name the set, whether the runtime stopped the workers or not.
pub removed_unauthorized :
    (m : ReactorManager) (now : Time) (q : RemoveRequest) (w : ReactorWorld) (set : WorkerSet)
    → validate_reactor_identity q.game_session_id q.reactor_id q.idempotency_key ≡ ok tt
    → get_worker_set q.game_session_id q.reactor_id w.store ≡ ok set
    → is_removed set.lifecycle ≡ false
    → Reached m w
    → m.context_error w.calls ≡ none
    → HasOwnId set w.store
    → (later : Time) (token source reactor : String) (c : Claims)
    → verify_source_credential m.signer m.cfg.credential_signing_key token ≡ some c
    → c.set_id ≡ set.set_id
    → authorize_source_credential m later token source reactor (remove_reactor m now q w).1 ≡ false
unfolding authorize_source_credential list_worker_sets
removed_unauthorized m now q w set valid found present reached live others later token source
      reactor c verified same =
    let w' = (remove_reactor m now q w).1 in
    let sound = reached-IsSound m (Reached.removed now q w reached) in
    let none_left =
      none_authorizes (set_authorizes later c source reactor) w'.store.sets w'.store
        (own-AreStored w'.store.sets sound.0 sound.1)
        (refused_by m now q w valid found present reached live others later source reactor c
          same) in
    ground (arith, verified, none_left, every_session (values w'.store.sets))
