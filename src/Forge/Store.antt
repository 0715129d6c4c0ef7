-- ===== src/Forge/Store.antt =====
-- backend/slurm-gateway/internal/gateway/artifact_forge.go: InMemoryArtifactForgeStore. Each method
-- holds the store's lock from start to end, so it is one step. Records are values, so the clones of
-- the source are the records themselves.
pub mod Outcome
use Prim.Native.Char.{code}
use Prim.Native.String.{◌++◌ as ◌<>◌}
use radiant_prj.Common.{
  ℕ, ◌+◌, suc, String, ◌==◌, Bool, true, false, not, ◌&&◌, ◌||◌, Option, none, some, List, [], ◌∷◌,
  ltb, leb, ◌==ℕ◌, if◌then◌else◌,
}
use radiant_prj.Common.Error.{Error, Result, ok, err}
use radiant_prj.Common.Dict.{Dict, lookup, insert, values}
use radiant_prj.Simops.Types.{Time}
use radiant_prj.Forge.Types.{GameOutcome, ForgeRecord}

pub record ForgeStore : Type 0 where
  pub records : Dict ForgeRecord

abbrev pub new_forge_store : ForgeStore
new_forge_store = record { records = [] }

-- artifactForgeStoreKey
unfoldable pub forge_store_key : String → String → String
forge_store_key game_session_id idempotency_key = game_session_id <> "\0" <> idempotency_key

unfoldable pub find_request : String → String → ForgeStore → Result ForgeRecord
find_request game_session_id idempotency_key s =
    elim (lookup (forge_store_key game_session_id idempotency_key) s.records) [
      | none ↦ err Error.forge_request_not_found
      | some r ↦ ok r
    ]

-- `<` of Go's strings. UTF-8 keeps the order of the code points.
unfoldable pub text_less : String → String → Bool
text_less s String.[] = false
text_less String.[] (String.◌∷◌ d t) = true
text_less (String.◌∷◌ c s) (String.◌∷◌ d t) =
    ltb (code c) (code d) || (code c ==ℕ code d && text_less s t)

unfoldable pub insert_sorted : ForgeRecord → List ForgeRecord → List ForgeRecord
unfolding text_less
insert_sorted r [] = r ∷ []
insert_sorted r (q ∷ qs) =
    let rest = insert_sorted r qs in
    if text_less q.request_id r.request_id then q ∷ rest else r ∷ q ∷ qs

-- `sort.Slice` by the request's identifier
unfoldable pub sort_records : List ForgeRecord → List ForgeRecord
unfolding insert_sorted
sort_records [] = []
sort_records (r ∷ rs) = insert_sorted r (sort_records rs)

unfoldable pub of_session : String → List ForgeRecord → List ForgeRecord
of_session game_session_id [] = []
of_session game_session_id (r ∷ rs) =
    let rest = of_session game_session_id rs in
    if r.game_session_id == game_session_id then r ∷ rest else rest

unfoldable pub list_requests : String → ForgeStore → Result (List ForgeRecord)
unfolding of_session sort_records
list_requests game_session_id s = ok (sort_records (of_session game_session_id (values s.records)))

unfoldable pub first_of_run : String → List ForgeRecord → Result ForgeRecord
first_of_run run_id [] = err Error.forge_request_not_found
first_of_run run_id (r ∷ rs) = if r.run_id == run_id then ok r else first_of_run run_id rs

-- FindRun takes the first record of the run that the loop over the map meets.
unfoldable pub find_run : String → ForgeStore → Result ForgeRecord
unfolding first_of_run
find_run run_id s = first_of_run run_id (values s.records)

-- `*existing.Outcome == *record.Outcome`
unfoldable pub same_outcome : GameOutcome → GameOutcome → Bool
same_outcome a b =
    a.outcome_id == b.outcome_id
    && a.card == b.card
    && a.version ==ℕ b.version
    && a.reactor_id == b.reactor_id
    && a.artifact_id == b.artifact_id
    && a.lineage_id == b.lineage_id
    && a.value_id == b.value_id

-- The outcome of the stored record, and that of the record to be saved.
unfoldable pub keeps_outcome : Option GameOutcome → Option GameOutcome → Bool
unfolding same_outcome
keeps_outcome none new = true
keeps_outcome (some o) none = false
keeps_outcome (some o) (some n) = same_outcome o n

unfoldable pub stored_outcome : Option ForgeRecord → Option GameOutcome
stored_outcome none = none
stored_outcome (some r) = r.outcome

unfoldable pub save_request : ForgeRecord → ForgeStore → Result ForgeStore
unfolding keeps_outcome stored_outcome
save_request r s =
    let key = forge_store_key r.game_session_id r.idempotency_key in
    if keeps_outcome (stored_outcome (lookup key s.records)) r.outcome
    then ok (record { records = insert key r s.records })
    else err (Error.message "Artifact Forge applied outcome cannot be removed or replaced")

-- setArtifactForgeRetention: 24 hours, and 7 days more.
unfoldable pub set_retention : Time → ForgeRecord → ForgeRecord
set_retention activity_at r = record r {
  last_activity_at = activity_at;
  session_expires_at = activity_at + 86400000000000;
  retain_until = activity_at + 86400000000000 + 604800000000000;
}

-- A record of another session is passed over.
unfoldable pub touch_record : String → Time → ForgeRecord → ForgeRecord
unfolding set_retention
touch_record game_session_id activity_at r =
    if r.game_session_id == game_session_id then set_retention activity_at r else r

unfoldable pub touch_records : String → Time → Dict ForgeRecord → Dict ForgeRecord
touch_records game_session_id activity_at [] = []
touch_records game_session_id activity_at ((key, r) ∷ m) =
    (key, touch_record game_session_id activity_at r) ∷ touch_records game_session_id activity_at m

unfoldable pub touch_session : String → Time → ForgeStore → ForgeStore
unfolding touch_records
touch_session game_session_id activity_at s = record {
  records = touch_records game_session_id activity_at s.records;
}

unfoldable pub is_retention_over : Time → ForgeRecord → Bool
is_retention_over now r = not (r.retain_until ==ℕ 0) && leb r.retain_until now

-- What is left, and how many records were deleted.
unfoldable pub prune_records : Time → Dict ForgeRecord → Dict ForgeRecord × ℕ
unfolding is_retention_over
prune_records now [] = ([], 0)
prune_records now ((key, r) ∷ m) =
    let rest = prune_records now m in
    if is_retention_over now r then (rest.0, suc rest.1) else ((key, r) ∷ rest.0, rest.1)

-- The context's error comes first.
unfoldable pub prune_expired : Option Error → Time → ForgeStore → Result ℕ × ForgeStore
unfolding prune_records
prune_expired (some e) now s = (err e, s)
prune_expired none now s =
    let rest = prune_records now s.records in (ok rest.1, record { records = rest.0 })
