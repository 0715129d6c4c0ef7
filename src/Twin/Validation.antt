-- ===== src/Twin/Validation.antt =====
-- backend/slurm-gateway/internal/gateway/twin_state_publication.go: making a publication and checking it.
pub mod Sound
use Prim.Native.String.{◌++◌ as ◌<>◌}
use radiant_prj.Common.{
  ℕ, String, ◌==◌, Bool, true, false, not, ◌&&◌, ◌||◌, Option, none, some, List, [], ◌∷◌,
  if◌then◌else◌,
}
use radiant_prj.Common.Error.{Error, Result, ok, err, ◌>>=◌, ◌>>◌, guard}
use radiant_prj.Common.Dict.{Dict, lookup, insert, has}
use radiant_prj.Common.Text.{trim_space}
use radiant_prj.Simops.Types.{ℤ}
use radiant_prj.Simops.Store.Records.{show_ℤ}
use radiant_prj.Workbench.Types.{ValueLineage}
use radiant_prj.Twin.Types.{
  TwinValue, TwinEntity, TwinState, ProjectionPosition, Publication, TwinProjection,
  normalize_topic, value_imputed,
}

-- `digest` stands for hex.EncodeToString of the first 16 bytes of sha256.Sum256.
unfoldable pub twin_publication_id : (String → String) → ProjectionPosition → String
unfolding show_ℤ
twin_publication_id digest source =
    "twinpub-"
    <> digest (source.topic <> "\0" <> show_ℤ source.partition <> "\0" <> show_ℤ source.offset)

unfoldable pub new_publication :
    (String → String) → ProjectionPosition → String → TwinState → List ValueLineage → Publication
unfolding twin_publication_id
new_publication digest source topic state lineage = record {
  publication_id = twin_publication_id digest source;
  source = source;
  twin_state_topic = trim_space topic;
  state = state;
  lineage = lineage;
  acknowledged = false;
}

-- The map from the identifiers of lineages, which must differ.
unfoldable pub lineage_by_id : Dict ValueLineage → List ValueLineage → Result (Dict ValueLineage)
lineage_by_id seen [] = ok seen
lineage_by_id seen (l ∷ ls) =
    let rest = lineage_by_id (insert l.lineage_id l seen) ls in
    if has l.lineage_id seen
    then err (Error.message "Twin State publication has duplicate lineageId %q")
    else rest

-- The test of one value.
unfoldable pub has_lineage : Dict ValueLineage → TwinValue → Bool
has_lineage found v =
    not (v.value_basis == value_imputed)
    || (not (trim_space v.lineage_id == "") && elim (lookup v.lineage_id found) [
      | none ↦ false
      | some l ↦ l.value_id == v.value_id && l.value_basis == value_imputed
    ])

unfoldable pub check_values : Dict ValueLineage → List TwinValue → Result (Unit {0})
unfolding has_lineage
check_values found [] = ok tt
check_values found (v ∷ vs) =
    let rest = check_values found vs in
    if has_lineage found v
    then rest
    else err (Error.message "Imputed Twin value %q requires matching Imputed lineage")

unfoldable pub check_entities : Dict ValueLineage → List TwinEntity → Result (Unit {0})
unfolding check_values
check_entities found [] = ok tt
check_entities found (e ∷ es) = check_values found e.values >> check_entities found es

unfoldable pub validate_publication : (String → String) → Publication → Result (Unit {0})
unfolding twin_publication_id lineage_by_id check_entities
validate_publication digest p = do
  _ ←
      guard (p.publication_id == twin_publication_id digest p.source)
        (Error.message "Twin State publicationId does not match its source coordinate")
  _ ←
      guard (not (trim_space p.twin_state_topic == ""))
        (Error.message "Twin State publication requires an output topic")
  _ ←
      guard (not (trim_space p.state.schema_version == "" || trim_space p.state.twin_id == ""))
        (Error.message "Twin State publication requires a versioned Twin State")
  found ← lineage_by_id [] p.lineage
  check_entities found p.state.entities

unfoldable pub project_publication :
    (String → String) → String → ℤ → ℤ → Publication → Result TwinProjection
unfolding validate_publication normalize_topic
project_publication digest topic partition offset p =
    validate_publication digest p
    >> ok (record {
      as_of = p.state.as_of;
      state = p.state;
      lineage = p.lineage;
      lineage_present = true;
      publication_id = p.publication_id;
      publication_source = p.source;
      raw = "";
      redpanda_topic = normalize_topic topic;
      redpanda_partition = partition;
      redpanda_offset = offset;
    })
