-- ===== src/Simops/Store/Records.antt =====
-- simops_store.go: artifacts, and the delivery attempts of simops_delivery.go.
use Prim.Native.String.{◌++◌ as ◌<>◌}
use radiant_prj.Common.{
  suc, String, ◌==◌, Bool, true, false, not, ◌||◌, Option, none, some, List, [], ◌∷◌, ◌++◌,
  is_empty, if◌then◌else◌,
}
use radiant_prj.Common.Error.{Error, Result, ok, err, ◌>>=◌, ◌>>◌, guard}
use radiant_prj.Common.Dict.{lookup, insert, values, has, slice}
use radiant_prj.Common.Text.{trim_space, show_ℕ}
use radiant_prj.Simops.Types.{
  Time, ℤ, ArtifactRecord, DeliveryAttempt, DeliveryAttemptRequest, DeliveryAttemptState,
  DeliveryCoordinate, VerifiedDeliveryEvidence,
}
use radiant_prj.Simops.Store.{Store}

unfoldable pub save_artifact : ArtifactRecord → Store → Result Store
save_artifact a s = do
  guard (has a.run_id s.runs) Error.run_not_found
  ok (record s {
    artifacts_by_run =
        insert a.run_id (slice a.run_id s.artifacts_by_run ++ a ∷ []) s.artifacts_by_run;
  })

unfoldable pub list_artifacts : String → Store → Result (List ArtifactRecord)
list_artifacts run_id s = do
  guard (has run_id s.runs) Error.run_not_found
  ok (slice run_id s.artifacts_by_run)

-- The first artifact with the identifier gets the status; `none` if there is no such artifact.
unfoldable pub set_status : String → String → List ArtifactRecord → Option (List ArtifactRecord)
set_status id status [] = none
set_status id status (a ∷ as') =
    if a.artifact_id == id
    then some (record a { status = status } ∷ as')
    else elim (set_status id status as') [ none ↦ none | some l ↦ some (a ∷ l) ]

unfoldable pub update_artifact_status : String → String → String → Store → Result Store
update_artifact_status run_id artifact_id status s = do
  guard (has run_id s.runs) Error.run_not_found
  elim (set_status artifact_id status (slice run_id s.artifacts_by_run)) [
    | none ↦ err Error.artifact_not_found
    | some l ↦ ok (record s { artifacts_by_run = insert run_id l s.artifacts_by_run })
  ]

abbrev is_negative : ℤ → Bool
is_negative (ℤ.pos n) = false
is_negative (ℤ.negsuc n) = true

-- `%d`
unfoldable pub show_ℤ : ℤ → String
show_ℤ (ℤ.pos n) = show_ℕ n
show_ℤ (ℤ.negsuc n) = "-" <> show_ℕ (suc n)

-- The text of the coordinates, or the error at the first that is not valid.
coordinate_text : List DeliveryCoordinate → Result String
unfolding show_ℤ
coordinate_text [] = ok ""
coordinate_text (c ∷ cs) = do
  guard (not (trim_space c.topic == "" || is_negative c.partition || is_negative c.offset))
      (Error.message "delivery attempt has invalid coordinate")
  rest ← coordinate_text cs
  ok ("|" <> c.topic <> "/" <> show_ℤ c.partition <> "/" <> show_ℤ c.offset <> rest)

-- `digest` stands for hex.EncodeToString of the first 16 bytes of sha256.Sum256.
unfoldable pub delivery_attempt_id : (String → String) → DeliveryAttemptRequest → Result String
unfolding coordinate_text
delivery_attempt_id digest q = do
  guard (not (trim_space q.run_id == "" || trim_space q.target == "" || is_empty q.coordinates))
      (Error.message "delivery attempt requires run, target, and coordinates")
  coordinates ← coordinate_text q.coordinates
  ok ("delivery-" <> digest (q.run_id <> "|" <> q.target <> coordinates))

unfoldable pub new_attempt : String → DeliveryAttemptRequest → Time → DeliveryAttempt
new_attempt id q now = record {
  attempt_id = id;
  run_id = q.run_id;
  target = q.target;
  location = "";
  coordinates = q.coordinates;
  state = DeliveryAttemptState.pending;
  reason = "";
  evidence = none;
  created_at = now;
  updated_at = now;
}

unfoldable pub create_delivery_attempt :
    (String → String)
    → DeliveryAttemptRequest
    → Time
    → Store
    → Result (DeliveryAttempt × Bool × Store)
create_delivery_attempt digest q now s = do
  id ← delivery_attempt_id digest q
  guard (has q.run_id s.runs) Error.run_not_found
  elim (lookup id s.delivery_attempts) [
    | some existing ↦ ok (existing, false, s)
    | none ↦
        let a = new_attempt id q now in
        ok (a, true, record s { delivery_attempts = insert id a s.delivery_attempts })
  ]

unfoldable pub get_delivery_attempt : String → Store → Result DeliveryAttempt
get_delivery_attempt id s = elim (lookup id s.delivery_attempts) [
  | none ↦ err Error.delivery_attempt_not_found
  | some a ↦ ok a
]

put_attempt : String → DeliveryAttempt → Store → Store
put_attempt id a s = record s { delivery_attempts = insert id a s.delivery_attempts }

unfoldable pub prepare_delivery_attempt : String → String → Time → Store → Result Store
unfolding put_attempt
prepare_delivery_attempt id location now s = do
  a ← get_delivery_attempt id s
  ok (put_attempt id (record a { location = location; updated_at = now }) s)

-- The evidence is stored with the attempt's own identifier and coordinates.
unfoldable pub resolve_delivery_attempt :
    String → VerifiedDeliveryEvidence → Time → Store → Result Store
unfolding put_attempt
resolve_delivery_attempt id e now s = do
  a ← get_delivery_attempt id s
  ok (
      put_attempt id
        (record a {
          evidence = some (record e { attempt_id = id; coordinates = a.coordinates });
          state = DeliveryAttemptState.resolved;
          reason = "";
          updated_at = now;
        })
        s)

unfoldable pub mark_delivery_attempt_unknown : String → String → Time → Store → Result Store
unfolding put_attempt
mark_delivery_attempt_unknown id reason now s = do
  a ← get_delivery_attempt id s
  ok (
      put_attempt id
        (record a { state = DeliveryAttemptState.unknown; reason = reason; updated_at = now }) s)

unfoldable pub attempts_of : String → List DeliveryAttempt → List DeliveryAttempt
attempts_of run_id [] = []
attempts_of run_id (a ∷ as') =
    let rest = attempts_of run_id as' in if a.run_id == run_id then a ∷ rest else rest

unfoldable pub list_delivery_attempts : String → Store → Result (List DeliveryAttempt)
unfolding attempts_of
list_delivery_attempts run_id s = do
  guard (has run_id s.runs) Error.run_not_found
  ok (attempts_of run_id (values s.delivery_attempts))
