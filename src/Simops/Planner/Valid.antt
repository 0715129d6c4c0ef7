-- ===== src/Simops/Planner/Valid.antt =====
-- What the planner plans passes the check of Start.
use Prim.Native.Char.{Char, code}
use Prim.Native.String.{◌++◌ as ◌<>◌}
use text.Mathlib.TextLemmas.{cons-append, cons-ne-nil}
use radiant_prj.Common.{String, ◌≡◌, refl, ap, ◌∙◌, false, ◌==◌, arith, eq_iff, eq_refl}
use radiant_prj.Common.Error.{ok}
use radiant_prj.Common.Text.{trim_space, is_space}
use radiant_prj.Simops.Types.{Time, RunRecord}
use radiant_prj.Simops.LaunchCheck.{validate_planned_artifact}
use radiant_prj.Simops.Planner.{Planner, iceberg_plan}

cons_nonempty : (c : Char) (s : String) → (String.◌∷◌ c s == "") ≡ false
cons_nonempty c s = ground (arith, cons-ne-nil c s, eq_iff (String.◌∷◌ c s) "")

-- A text whose first character is not a space is not blank.
trim_kept :
    (c : Char) (s : String)
    → is_space (code c) ≡ false
    → (trim_space (String.◌∷◌ c s) == "") ≡ false
unfolding trim_space
trim_kept c s h = rw h (rw h (cons_nonempty c _))

id_kept : (s : String) → (trim_space ("iceberg-telemetry-" <> s) == "") ≡ false
unfolding is_space
id_kept s =
    ap (λ x. trim_space x == "") (cons-append "i" "ceberg-telemetry-" s)
    ∙ trim_kept "i" ("ceberg-telemetry-" <> s) refl

pub planned_artifact_accepted :
    (p : Planner) (now : Time) (run : RunRecord)
    → validate_planned_artifact run.run_id (iceberg_plan p now run) ≡ ok tt
unfolding validate_planned_artifact iceberg_plan trim_space
planned_artifact_accepted p now run =
    let a = id_kept run.run_id in let b = eq_refl (trim_space run.run_id) in ground arith
