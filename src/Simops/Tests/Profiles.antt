-- ===== src/Simops/Tests/Profiles.antt =====
-- The theorems about connection profiles, at examples.
use radiant_prj.Common.{◌≡◌, ◌≢◌, refl, false, none, some, List, [], ◌∷◌, All, map}
use radiant_prj.Common.Error.{Result, ok, err}
use radiant_prj.Common.Text.{trim_space}
use radiant_prj.Common.Text.Edit.{
  clean, split, to_lower, dash_for, dash_runs, trim_char, trim_right_char, longer_than,
}
use radiant_prj.Simops.Types.{ℤ}
use radiant_prj.Simops.Profile.{
  kubernetes_run_job_name, validate_run_profile_inputs, build_run_connection_profile,
  build_run_worker_connection_profile_for_record, build_run_worker_connection_profiles_for_records,
  build_run_data_plane_connection, build_trusted_run_connection_profile, allowed_worker,
  build_run_worker_connection_profiles, build_run_worker_connection_profile,
}
use radiant_prj.Simops.Connection.{Role, Profile, role_text}
use radiant_prj.Simops.Profile.Trust.{
  IsConfined, record_profiles-IsConfined, trusted_profile_role, launch_profiles-IsConfined,
}
use radiant_prj.Simops.Tests.Data.{local, scheduler, first_run}

clean_dots : clean "/a/./b//../c/" ≡ "/a/c"
unfolding clean split
clean_dots = refl

job_name : kubernetes_run_job_name "RUN_1.x!!y" " worker-01 " ≡ "simops-run-1-x-y-worker-01"
unfolding kubernetes_run_job_name trim_space to_lower dash_for dash_runs trim_char trim_right_char
    longer_than
job_name = refl

unfoldable pub profiles_or_none : Result (List Profile) → List Profile
profiles_or_none (ok ps) = ps
profiles_or_none (err e) = []

abbrev pub scheduler_profiles : List Profile
scheduler_profiles =
    profiles_or_none
      (build_run_worker_connection_profiles_for_records local first_run (scheduler ∷ []))

pub scheduler_profiles_built :
    build_run_worker_connection_profiles_for_records local first_run (scheduler ∷ [])
    ≡ ok scheduler_profiles
unfolding build_run_worker_connection_profiles_for_records
    build_run_worker_connection_profile_for_record build_run_connection_profile
    validate_run_profile_inputs trim_space allowed_worker profiles_or_none
scheduler_profiles_built = refl

abbrev asked_profiles : List Profile
asked_profiles =
    profiles_or_none
      (build_run_worker_connection_profiles local first_run ("storage" ∷ "scheduler" ∷ []))

asked_profiles_built :
    build_run_worker_connection_profiles local first_run ("storage" ∷ "scheduler" ∷ [])
    ≡ ok asked_profiles
unfolding build_run_worker_connection_profiles build_run_worker_connection_profile
    build_run_connection_profile validate_run_profile_inputs trim_space allowed_worker
    profiles_or_none
asked_profiles_built = refl

record_profiles-IsConfined_example : All IsConfined scheduler_profiles
record_profiles-IsConfined_example =
    record_profiles-IsConfined local first_run (scheduler ∷ []) scheduler_profiles
      scheduler_profiles_built

launch_profiles-IsConfined_example :
    All IsConfined asked_profiles
    × (map (λ p. p.worker_kind) asked_profiles ≡ "storage" ∷ "scheduler" ∷ [])
launch_profiles-IsConfined_example =
    launch_profiles-IsConfined local first_run ("storage" ∷ "scheduler" ∷ []) asked_profiles
      asked_profiles_built

profile_or : Profile → Result Profile → Profile
profile_or d (ok p) = p
profile_or d (err e) = d

abbrev blank_profile : Profile
blank_profile = record {
  run_id = "";
  scenario_id = "";
  launch_mode = "";
  worker_id = "";
  worker_kind = "";
  role = Role.ordinary_worker;
  gateway = record { ingest_url = ""; result_ingest_url = ""; ingest_token = "" };
  worker_image = "";
  manifest_path = "";
  labels = [];
  docker = record { network = ""; container_name = ""; auto_remove = false };
  kubernetes = record { namespace = ""; job_name = ""; service_account = "" };
  cleanup = record { ttl_seconds_after_finished = ℤ.pos 0; auto_remove = false };
  data_plane = none;
}

abbrev gateway_profile : Profile
gateway_profile =
    profile_or blank_profile
      (build_trusted_run_connection_profile local first_run Role.stream_gateway)

gateway_profile_built :
    build_trusted_run_connection_profile local first_run Role.stream_gateway ≡ ok gateway_profile
unfolding build_trusted_run_connection_profile build_run_connection_profile
    validate_run_profile_inputs trim_space role_text profile_or
gateway_profile_built = refl

trusted_profile_role_example :
    (Role.stream_gateway ≢ Role.ordinary_worker)
    × (gateway_profile.role ≡ Role.stream_gateway)
    × (gateway_profile.data_plane ≡ some (build_run_data_plane_connection local))
trusted_profile_role_example =
    trusted_profile_role local first_run Role.stream_gateway gateway_profile gateway_profile_built
