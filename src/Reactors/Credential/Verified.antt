-- ===== src/Reactors/Credential/Verified.antt =====
-- A credential that is issued and then verified.
use Prim.Native.Char.{code}
use Prim.Native.String.{◌++◌ as ◌<>◌}
use text.Mathlib.TextLemmas.{nil-append, cons-append}
use radiant_prj.Common.{
  String, ◌≡◌, refl, true, false, ◌==ℕ◌, some, inl, inr, arith, eq_iff, Bool-cases,
}
use radiant_prj.Common.Error.{ok}
use radiant_prj.Reactors.Credential.{
  Claims, Signer, cut_dot, has_dot, issue_source_credential, are_claims_set, read_claims,
  verify_source_credential,
}

cut_dot-first :
    (payload rest : String)
    → has_dot payload ≡ false
    → cut_dot (payload <> "." <> rest) ≡ (payload, some rest)
unfolding cut_dot has_dot
cut_dot-first String.[] rest h =
    rw (nil-append ("." <> rest), cons-append "." "" rest, nil-append rest) refl
cut_dot-first (String.◌∷◌ c s) rest h = elim (Bool-cases (code c ==ℕ b'.')) [
  | inl p ↦ absurd (ground arith)
  | inr p ↦
      let inner = cut_dot-first s rest (ground arith) in
      ground (arith, inner, cons-append c s ("." <> rest))
]

-- If, for some claims without an empty field, the encoded payload and the encoded signature have no
-- dot and decode to what was encoded, and the marshalled claims unmarshal to the claims, then the
-- credential that is issued for the claims verifies, under the same key, to these claims.
pub verify-issue :
    (g : Signer) (key : String) (c : Claims)
    → has_dot (g.encode (g.marshal_claims c)) ≡ false
    → has_dot (g.encode (g.mac key (g.encode (g.marshal_claims c)))) ≡ false
    → g.decode (g.encode (g.marshal_claims c)) ≡ ok (g.marshal_claims c)
    → g.decode (g.encode (g.mac key (g.encode (g.marshal_claims c))))
      ≡ ok (g.mac key (g.encode (g.marshal_claims c)))
    → g.unmarshal_claims (g.marshal_claims c) ≡ ok c
    → are_claims_set c ≡ true
    → verify_source_credential g key (issue_source_credential g key c) ≡ some c
unfolding verify_source_credential issue_source_credential read_claims
verify-issue g key c plain_payload plain_signature payload_read signature_read unmarshalled whole =
    let payload = g.encode (g.marshal_claims c) in
    let mac = g.mac key payload in
    ground (
      arith,
      cut_dot-first payload (g.encode mac) plain_payload,
      plain_signature,
      signature_read,
      payload_read,
      unmarshalled,
      whole,
      eq_iff mac mac,
    )
