-- ===== src/Forge/Store/Outcome.antt =====
-- What saves and touches do to the outcome that is stored under a key.
use radiant_prj.Common.{
  inl, inr, String, ◌≡◌, sym, ap, true, false, ◌==◌, Option, none, some, [], ◌∷◌, arith, eq_iff,
  Bool-cases,
}
use radiant_prj.Common.Error.{Error, ok}
use radiant_prj.Common.Dict.{Dict, lookup, lookup-insert}
use radiant_prj.Simops.Types.{Time}
use radiant_prj.Forge.Types.{GameOutcome, ForgeRecord}
use radiant_prj.Forge.Store.{
  ForgeStore, forge_store_key, save_request, keeps_outcome, stored_outcome, same_outcome,
  touch_session, touch_record, prune_records, prune_expired, is_retention_over, touch_records,
  set_retention,
}

-- A record with this outcome is stored under the key.
abbrev pub HasOutcome : String → GameOutcome → ForgeStore → Type 0
HasOutcome key o s = (r : ForgeRecord) × (lookup key s.records ≡ some r) × (r.outcome ≡ some o)

pub same_outcome_sound : (a b : GameOutcome) → same_outcome a b ≡ true → a ≡ b
unfolding same_outcome
same_outcome_sound a b h = ground (
  arith,
  eq_iff a.outcome_id b.outcome_id,
  eq_iff a.card b.card,
  eq_iff a.reactor_id b.reactor_id,
  eq_iff a.artifact_id b.artifact_id,
  eq_iff a.lineage_id b.lineage_id,
  eq_iff a.value_id b.value_id,
)

-- What keeps_outcome lets through.
pub keeps_outcome-kept :
    (o : GameOutcome) (new : Option GameOutcome) → keeps_outcome (some o) new ≡ true → new ≡ some o
unfolding keeps_outcome
keeps_outcome-kept o none h = cc
keeps_outcome-kept o (some n) h = ap some (sym (same_outcome_sound o n h))

pub lookup-touch :
    (session key : String) (now : Time) (m : Dict ForgeRecord) {r : ForgeRecord}
    → lookup key m ≡ some r
    → lookup key (touch_records session now m) ≡ some (touch_record session now r)
unfolding lookup touch_records
lookup-touch session key now [] h = cc
lookup-touch session key now ((k, q) ∷ m) {r} h =
    let rest : (lookup key m ≡ some r) → _ = lookup-touch session key now m in ground (arith, rest)

pub lookup-prune :
    (key : String) (now : Time) (m : Dict ForgeRecord) {r : ForgeRecord}
    → lookup key m ≡ some r
    → is_retention_over now r ≡ false
    → lookup key (prune_records now m).0 ≡ some r
unfolding lookup prune_records
lookup-prune key now [] h fresh = cc
lookup-prune key now ((k, q) ∷ m) {r} h fresh =
    let rest : (lookup key m ≡ some r) → _ = λ at. lookup-prune key now m at fresh in
    elim (Bool-cases (k == key)) [
      | inl e ↦ (let same : q ≡ r = ground arith in ground (arith, same))
      | inr e ↦ ground (arith, rest)
    ]

module _ (key : String) (o : GameOutcome) where
  pub save-HasOutcome :
      (r : ForgeRecord) (s : ForgeStore) {s' : ForgeStore}
      → HasOutcome key o s
      → save_request r s ≡ ok s'
      → HasOutcome key o s'
  unfolding save_request stored_outcome
  save-HasOutcome r s (q, at, has) saved =
      let k = forge_store_key r.game_session_id r.idempotency_key in
      elim (Bool-cases (k == key)) [
        | inl e ↦ (
          r,
          ground (
            arith,
            eq_iff k key,
            lookup-insert k key r s.records,
            keeps_outcome-kept o r.outcome,
          ),
          ground (
            arith,
            eq_iff k key,
            lookup-insert k key r s.records,
            keeps_outcome-kept o r.outcome,
          ),
        )
        | inr e ↦ (q, ground (arith, lookup-insert k key r s.records), has)
      ]

  pub touch-HasOutcome :
      (session : String) (now : Time) (s : ForgeStore)
      → HasOutcome key o s
      → HasOutcome key o (touch_session session now s)
  unfolding touch_session touch_record set_retention
  touch-HasOutcome session now s (r, at, has) =
      (touch_record session now r, lookup-touch session key now s.records at, ground arith)

  -- Pruning keeps the record if its retention is not over.
  pub prune-HasOutcome :
      (context_error : Option Error) (now : Time) (s : ForgeStore)
      → HasOutcome key o s
      → ((r : ForgeRecord) → lookup key s.records ≡ some r → is_retention_over now r ≡ false)
      → HasOutcome key o (prune_expired context_error now s).1
  unfolding prune_expired
  prune-HasOutcome (some e) now s held fresh = held
  prune-HasOutcome none now s (r, at, has) fresh =
      (r, lookup-prune key now s.records at (fresh r at), has)
