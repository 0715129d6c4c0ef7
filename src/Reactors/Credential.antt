-- ===== src/Reactors/Credential.antt =====
-- backend/slurm-gateway/internal/gateway/reactor_telemetry_worker_set.go: the credential of a source,
-- a payload and its HMAC. json, base64 and HMAC are functions of the model; bytes are texts.
pub mod Verified
use Prim.Native.Char.{code}
use Prim.Native.String.{◌++◌ as ◌<>◌}
use radiant_prj.Common.{
  ℕ, String, ◌==◌, Bool, true, false, not, ◌&&◌, ◌||◌, Option, none, some, List, [], ◌∷◌, ◌==ℕ◌,
  if◌then◌else◌,
}
use radiant_prj.Common.Error.{Result, ok, err}

pub record Claims : Type 0 where
  pub set_id : String
  pub source_id : String
  pub reactor_id : String

-- json.Marshal and Unmarshal of claims, base64.RawURLEncoding, and HMAC with SHA-256, whose first
-- argument is the key.
pub record Signer : Type 0 where
  pub marshal_claims : Claims → String
  pub unmarshal_claims : String → Result Claims
  pub encode : String → String
  pub decode : String → Result String
  pub mac : String → String → String

-- The part before the first '.', and what follows it if there is one.
unfoldable pub cut_dot : String → String × Option String
cut_dot String.[] = ("", none)
cut_dot (String.◌∷◌ c s) =
    let rest = cut_dot s in if code c ==ℕ b'.' then ("", some s) else (String.◌∷◌ c rest.0, rest.1)

unfoldable pub has_dot : String → Bool
has_dot String.[] = false
has_dot (String.◌∷◌ c s) = code c ==ℕ b'.' || has_dot s

unfoldable pub issue_source_credential : Signer → String → Claims → String
issue_source_credential g key claims =
    let payload = g.encode (g.marshal_claims claims) in
    payload <> "." <> g.encode (g.mac key payload)

unfoldable pub are_claims_set : Claims → Bool
are_claims_set c = not (c.set_id == "") && not (c.source_id == "") && not (c.reactor_id == "")

-- The claims of a payload whose signature was right.
unfoldable pub read_claims : Signer → String → Option Claims
unfolding are_claims_set
read_claims g payload = elim (g.decode payload) [
  | err _ ↦ none
  | ok raw ↦ elim (g.unmarshal_claims raw) [
    | err _ ↦ none
    | ok claims ↦ if are_claims_set claims then some claims else none
  ]
]

-- A token has to have exactly two parts.
unfoldable pub verify_source_credential : Signer → String → String → Option Claims
unfolding cut_dot has_dot read_claims
verify_source_credential g key token =
    let (payload, rest) = cut_dot token in
    elim rest [
      | none ↦ none
      | some signature ↦ if has_dot signature then none else elim (g.decode signature) [
        | err _ ↦ none
        | ok got ↦ if got == g.mac key payload then read_claims g payload else none
      ]
    ]
