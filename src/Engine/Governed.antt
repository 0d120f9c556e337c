-- ===== src/Engine/Governed.antt =====
-- core/engine.py: the signed policy version of an engine, and whether governance still admits it.
pub mod Refused
use verigate.Base.{
  [], ◌∷◌, none, some, true, false, ok, err, ◌==◌, ◌>>=◌, ◌>>◌, string_eq, nat_eq, option_eq,
  permission_error, String, Bool, Option, Result, ℕ, not, if◌then◌else◌, ◌||◌,
}
use verigate.Base.Json.{end}
use verigate.Signatures.{Signatures}
use verigate.Policy.Version.{
  PolicyVersion, SignedPolicyVersion, build_policy_version, sign_policy_version,
}
use verigate.Storage.{Storage, ChangeRow, ControlRow}
use verigate.Storage.Policies.{
  governed_policy_change_by_sha, policy_control, register_policy_version,
}
use verigate.Governance.Quorum.{refuse}
use verigate.PolicyVersions.Control.{or_refused}

-- The fields of `GuardrailEngine` that this reads, with the digest of its policy.
pub record GuardrailEngine : Type 0 where
  pub policy_sha256 : String
  pub policy_version_number : ℕ
  pub policy_source_ref : String
  pub policy_parent_sha256 : Option String
  pub require_governed_policy : Bool
  pub signed_policy : Option SignedPolicyVersion

abbrev pub artifact_differs : GuardrailEngine → PolicyVersion → Bool
artifact_differs e governed =
    not (governed.policy_sha256 == e.policy_sha256)
    || not (governed.version == e.policy_version_number)
    || not (governed.source_ref == e.policy_source_ref)
    || not (governed.parent_sha256 == e.policy_parent_sha256)

unfoldable pub check_control : GuardrailEngine → Option ControlRow → Result (Unit {0})
check_control e none = ok tt
check_control e (some control) = do
  refuse control.frozen "governed policy is frozen"
  refuse (not (control.active_policy_sha256 == e.policy_sha256))
      "policy is not the active governed policy"

unfoldable pub assert_governed_policy_control : GuardrailEngine → Storage → Result (Unit {0})
unfolding governed_policy_change_by_sha policy_control check_control
assert_governed_policy_control e s = do
  governed ←
      or_refused (governed_policy_change_by_sha e.policy_sha256 s)
        "policy version is not governance-approved"
  refuse (artifact_differs e governed.signed_policy.payload)
      "governed policy artifact does not match active policy"
  check_control e (policy_control governed.signed_policy.payload.policy_id s)

module _ (crypto : Signatures) where
  -- The version of an engine that has none yet is signed and stored.
  unfoldable pub own_version :
      GuardrailEngine → String → ℕ → Storage → Result (SignedPolicyVersion × Storage)
  unfolding build_policy_version sign_policy_version register_policy_version
  own_version e private_key now s = do
    version ←
        build_policy_version crypto e.policy_sha256 e.policy_source_ref e.policy_version_number
          e.policy_parent_sha256 end now
    let document = sign_policy_version crypto version private_key
    ok (document, register_policy_version document now s)

  unfoldable pub version_of :
      Option SignedPolicyVersion
      → GuardrailEngine
      → String
      → ℕ
      → Storage
      → Result (SignedPolicyVersion × Storage)
  unfolding own_version
  version_of (some document) e private_key now s = ok (document, s)
  version_of none e private_key now s = own_version e private_key now s

  -- A refusal drops the signed version.
  unfoldable pub admitted :
      Result (Unit {0})
      → GuardrailEngine
      → SignedPolicyVersion
      → Result SignedPolicyVersion × GuardrailEngine
  admitted (err refusal) e document = (err refusal, record e { signed_policy = none })
  admitted (ok done) e document = (ok document, record e { signed_policy = some document })

  unfoldable pub if_governed :
      Result (SignedPolicyVersion × Storage)
      → GuardrailEngine
      → Storage
      → Result SignedPolicyVersion × GuardrailEngine × Storage
  unfolding assert_governed_policy_control admitted
  if_governed (err raised) e s = (err raised, e, s)
  if_governed (ok (document, s')) e s =
      let tests =
        if e.require_governed_policy then assert_governed_policy_control e s' else ok tt in
      let (answer, e') = admitted tests e document in (answer, e', s')

  unfoldable pub signed_policy_version :
      GuardrailEngine
      → String
      → ℕ
      → Storage
      → Result SignedPolicyVersion × GuardrailEngine × Storage
  unfolding version_of if_governed
  signed_policy_version e private_key now s =
      if_governed (version_of e.signed_policy e private_key now s) e s
