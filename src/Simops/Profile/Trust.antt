-- ===== src/Simops/Profile/Trust.antt =====
-- Which profiles carry references to the data plane.
use mathlib.Core.Path.{subst}
use radiant_prj.Common.{◌≡◌, ◌≢◌, true, none, some, List, [], ◌∷◌, All, arith, refl, map, String}
use radiant_prj.Common.Error.{ok, ok_inj, >>=-ok}
use radiant_prj.Simops.Types.{RunRecord, WorkerRecord}
use radiant_prj.Simops.Config.{Config}
use radiant_prj.Simops.Profile.{
  allowed_worker, apply_stored_worker_runtime, build_run_connection_profile,
  build_run_worker_connection_profile_for_record, build_run_worker_connection_profiles_for_records,
  build_run_worker_connection_profile, build_run_worker_connection_profiles,
  build_run_data_plane_connection, build_trusted_run_connection_profile,
}
use radiant_prj.Simops.Connection.{Role, Profile}

-- What an ordinary worker may be given.
pub record IsConfined (p : Profile) : Type 0 where
  pub role : p.role ≡ Role.ordinary_worker
  pub no_data_plane : p.data_plane ≡ none
  pub kind : allowed_worker p.worker_kind ≡ true

record_profile-IsConfined :
    (cfg : Config) (run : RunRecord) (w : WorkerRecord) (p : Profile)
    → build_run_worker_connection_profile_for_record cfg run w ≡ ok p
    → IsConfined p
unfolding build_run_worker_connection_profile_for_record build_run_connection_profile
    apply_stored_worker_runtime
record_profile-IsConfined cfg run w p h = ground arith

-- Every profile that is built from the stored workers of a run is for an ordinary worker of an
-- allowed kind, and has no reference to the data plane.
pub record_profiles-IsConfined :
    (cfg : Config) (run : RunRecord) (ws : List WorkerRecord) (ps : List Profile)
    → build_run_worker_connection_profiles_for_records cfg run ws ≡ ok ps
    → All IsConfined ps
unfolding build_run_worker_connection_profiles_for_records
record_profiles-IsConfined cfg run [] [] h = tt
record_profiles-IsConfined cfg run [] (p ∷ ps) h = absurd (ground arith)
record_profiles-IsConfined cfg run (w ∷ ws) ps h =
    let (p, a, g) = >>=-ok (build_run_worker_connection_profile_for_record cfg run w) _ h in
    let (qs, b, e) = >>=-ok (build_run_worker_connection_profiles_for_records cfg run ws) _ g in
    subst (All IsConfined) (ok_inj e)
      (record_profile-IsConfined cfg run w p a, record_profiles-IsConfined cfg run ws qs b)

launch_profile-IsConfined :
    (cfg : Config) (run : RunRecord) (kind : String) (p : Profile)
    → build_run_worker_connection_profile cfg run kind ≡ ok p
    → IsConfined p × (p.worker_kind ≡ kind)
unfolding build_run_worker_connection_profile build_run_connection_profile
launch_profile-IsConfined cfg run kind p h = (
  record { role = ground arith; no_data_plane = ground arith; kind = ground arith },
  ground arith,
)

-- The profiles with which the workers of a run are launched are one for each kind that was asked for,
-- in this order, and each is for an ordinary worker of an allowed kind, and has no reference to the
-- data plane.
pub launch_profiles-IsConfined :
    (cfg : Config) (run : RunRecord) (kinds : List String) (ps : List Profile)
    → build_run_worker_connection_profiles cfg run kinds ≡ ok ps
    → All IsConfined ps × (map (λ p. p.worker_kind) ps ≡ kinds)
unfolding build_run_worker_connection_profiles
launch_profiles-IsConfined cfg run [] [] h = (tt, refl)
launch_profiles-IsConfined cfg run [] (p ∷ ps) h = absurd (ground arith)
launch_profiles-IsConfined cfg run (k ∷ ks) ps h =
    let (p, a, g) = >>=-ok (build_run_worker_connection_profile cfg run k) _ h in
    let (qs, b, e) = >>=-ok (build_run_worker_connection_profiles cfg run ks) _ g in
    let (one, kind) = launch_profile-IsConfined cfg run k p a in
    let (rest, kinds) = launch_profiles-IsConfined cfg run ks qs b in
    subst (λ l. All IsConfined l × (map (λ q. q.worker_kind) l ≡ k ∷ ks)) (ok_inj e)
      ((one, rest), λ i. kind i ∷ kinds i)

-- A profile from the builder for trusted roles is refused for the role of an ordinary worker, and one
-- that is built has the role that was asked for and the configured references to the data plane.
pub trusted_profile_role :
    (cfg : Config) (run : RunRecord) (role : Role) (p : Profile)
    → build_trusted_run_connection_profile cfg run role ≡ ok p
    → (role ≢ Role.ordinary_worker)
      × (p.role ≡ role)
      × (p.data_plane ≡ some (build_run_data_plane_connection cfg))
unfolding build_trusted_run_connection_profile build_run_connection_profile
trusted_profile_role cfg run role p h = ground arith
