-- ===== src/Common/Error.antt =====
-- Go's `error` values. `none` of `Option Error` is the nil error.
use Prim.Native.String.{String, ◌++◌}
use mathlib.Core.Path.{◌≡◌, refl}
use mathlib.Core.Logic.{◌⊎◌, inl, inr}
use mathlib.Core.Bool.{Bool, true, false, ◌||◌}
use mathlib.Core.Option.{Option, none, some}
use mathlib.Core.List.{List, [], ◌∷◌}

pub data Error : Type 0 where
  -- ErrSimopsRunNotFound, ErrSimopsArtifactNotFound, ErrSimopsConflict, ErrDeliveryAttemptNotFound
  run_not_found artifact_not_found conflict delivery_attempt_not_found : Error
  -- ErrArtifactForgeNotFound, ErrArtifactForgeResultArtifactNotFound
  forge_request_not_found result_artifact_not_found : Error
  -- ErrReactorTelemetrySessionCap, ErrReactorTelemetryNotFound
  session_cap_reached worker_set_not_found : Error
  -- ErrWorkbenchNotFound
  workbench_not_found : Error
  -- errors.New, and fmt.Errorf with no %w
  message : String → Error
  -- fmt.Errorf("...: %w", err)
  wrapped : String → Error → Error
  -- errors.Join of two errors
  joined : Error → Error → Error
  -- SimopsConfirmedRuntimeFailure
  confirmed : Error → Error

-- `err.Error()`
unfoldable pub error_text : Error → String
error_text Error.run_not_found = "simops run not found"
error_text Error.artifact_not_found = "simops artifact not found"
error_text Error.conflict = "simops conflict"
error_text Error.delivery_attempt_not_found = "delivery attempt not found"
error_text Error.forge_request_not_found = "Artifact Forge request not found"
error_text Error.result_artifact_not_found = "Artifact Forge result artifact not found"
error_text Error.session_cap_reached = "reactor telemetry session cap reached"
error_text Error.worker_set_not_found = "reactor telemetry worker set not found"
error_text Error.workbench_not_found = "workbench record not found"
error_text (Error.message m) = m
error_text (Error.wrapped m e) = m ++ ": " ++ error_text e
error_text (Error.joined e f) = error_text e ++ "\n" ++ error_text f
error_text (Error.confirmed e) = error_text e

-- `errors.Is` looks through what wraps an error; the test is one of the errors without parts.
unfoldable pub error_is : (Error → Bool) → Error → Bool
error_is test (Error.wrapped m e) = error_is test e
error_is test (Error.joined e f) = error_is test e || error_is test f
error_is test (Error.confirmed e) = error_is test e
error_is test e = test e

-- `errors.Join`, which drops nil errors.
unfoldable pub join : Option Error → Option Error → Option Error
join none f = f
join (some e) none = some e
join (some e) (some f) = some (Error.joined e f)

unfoldable pub join_all : List Error → Option Error
join_all [] = none
join_all (e ∷ es) = join (some e) (join_all es)

-- What a fallible call answers: `return value, nil` or `return zero, err`.
pub data Result {ℓ} (Value : Type ℓ) : Type ℓ where
  err : Error → Result Value
  ok : Value → Result Value

infixl 10 ◌>>=◌ ◌>>◌
-- `if err != nil { return err }`
abbrev pub ◌>>=◌ {ℓ κ} :
    {Value : Type ℓ} {Next : Type κ} → Result Value → (Value → Result Next) → Result Next
err reason >>= continue = err reason
ok value >>= continue = continue value

abbrev pub ◌>>◌ {ℓ} : {Next : Type ℓ} → Result (Unit {0}) → Result Next → Result Next
first >> second = first >>= λ _. second

pub ok_inj {ℓ} : {A : Type ℓ} {a b : A} → ok a ≡ ok b → a ≡ b
ok_inj h = cc

-- A chain of two calls that succeeds has a first call that does.
pub >>=-ok {ℓ κ} :
    {Value : Type ℓ} {Next : Type κ} (call : Result Value) (continue : Value → Result Next)
    {answer : Next}
    → (call >>= continue) ≡ ok answer
    → (value : Value) × (call ≡ ok value) × (continue value ≡ ok answer)
>>=-ok (err reason) continue h = cc
>>=-ok (ok value) continue h = (value, refl, h)

-- `if !test { return reason }`
abbrev pub guard : Bool → Error → Result (Unit {0})
guard false reason = err reason
guard true reason = ok tt

pub Result-cases {ℓ} :
    {A : Type ℓ} (r : Result A) → ((e : Error) × (r ≡ err e)) ⊎ ((a : A) × (r ≡ ok a))
Result-cases (ok a) = inr (a, refl)
Result-cases (err e) = inl (e, refl)
