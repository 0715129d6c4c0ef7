-- ===== src/Simops/Planner.antt =====
-- backend/slurm-gateway/internal/gateway/simops_adapters.go: IcebergArtifactPlanner, the artifact sink
-- of Start. Its clock is an argument. The proofs are in the module below.
pub mod Valid
use Prim.Native.String.{◌++◌ as ◌<>◌}
use text.Mathlib.Text.{starts_with}
use radiant_prj.Common.{String, ◌==◌, Bool, not, ◌&&◌, if◌then◌else◌}
use radiant_prj.Common.Text.{trim_space}
use radiant_prj.Common.Text.Edit.{trim_right_char}
use radiant_prj.Simops.Types.{Time, RunRecord, ArtifactRecord}

pub record Planner : Type 0 where
  pub warehouse : String
  pub bucket : String
  pub catalog : String

-- The location before the run's part. TrimPrefix is called on a text that has not the prefix.
unfoldable pub base_location : Planner → String
base_location p =
    let given = trim_right_char b'/' (trim_space p.warehouse) in
    let in_bucket = if given == "" then "s3://" <> trim_space p.bucket else given in
    let location = if in_bucket == "" then "s3://simops-warehouse" else in_bucket in
    if not (starts_with location "s3://") && not (starts_with location "file://")
    then "s3://" <> location
    else location

unfoldable pub artifact_location : Planner → String → String
unfolding base_location
artifact_location p run_id =
    let location =
      trim_right_char b'/' (base_location p) <> "/simops_telemetry/run_id=" <> run_id in
    if trim_space p.catalog == ""
    then trim_right_char b'/' location <> "/run=" <> run_id
    else location

unfoldable pub iceberg_plan : Planner → Time → RunRecord → ArtifactRecord
unfolding artifact_location
iceberg_plan p now run = record {
  artifact_id = "iceberg-telemetry-" <> run.run_id;
  run_id = run.run_id;
  kind = "iceberg-table-partition";
  media_type = "application/vnd.apache.iceberg.table";
  location = artifact_location p run.run_id;
  iceberg_table = "simops.telemetry_frames";
  status = "received";
  created_at = now;
}
