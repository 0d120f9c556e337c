-- ===== src/Policy/Version.antt =====
-- core/policy_version.py: signed versions of a policy. A signed document is its record.
use verigate.Base.{
  none, some, true, false, ok, ◌==◌, ◌>>◌, string_eq, nat_eq, value_error, if◌then◌else◌, String,
  Option, ℕ, Bool, Result, not, raise_if, ltb,
}
use verigate.Base.Json.{Value, Fields, obj, str, num, null, end, field, value_eq}
use verigate.Base.Int.{pos}
use verigate.Signatures.{Signatures, signed, verified}
use verigate.Base.Text.{text_length, text_append}

pub record PolicyVersion : Type 0 where
  pub policy_id : String
  pub version : ℕ
  pub policy_sha256 : String
  pub source_ref : String
  pub parent_sha256 : Option String
  pub created_at : ℕ
  pub metadata : Fields

abbrev pub str_or_null : Option String → Value
str_or_null none = null
str_or_null (some s) = str s

-- `PolicyVersion.as_dict`, by key
abbrev pub version_payload : PolicyVersion → Value
version_payload v = obj (
    field "created_at" (num (pos v.created_at)) (
      field "metadata" (obj v.metadata) (
        field "parent_sha256" (str_or_null v.parent_sha256) (
          field "policy_id" (str v.policy_id) (
            field "policy_sha256" (str v.policy_sha256) (
              field "policy_version" (num (pos 1)) (
                field "source_ref" (str v.source_ref)
                  (field "version" (num (pos v.version)) end))))))))

pub record SignedPolicyVersion : Type 0 where
  pub payload : PolicyVersion
  pub signature : String
  pub algorithm : String

-- `SignedPolicyVersion.as_dict`, by key
abbrev pub signed_value : SignedPolicyVersion → Value
signed_value s = obj (
    field "algorithm" (str s.algorithm)
      (field "payload" (version_payload s.payload) (field "signature" (str s.signature) end)))

module _ (crypto : Signatures) where
  unfoldable pub policy_id : String → String
  policy_id source_ref = crypto.sha256 (text_append "verigate-policy:" source_ref)

  -- The digest of the policy is an argument.
  unfoldable pub build_policy_version :
      String → String → ℕ → Option String → Fields → ℕ → Result PolicyVersion
  unfolding policy_id
  build_policy_version policy_digest source_ref version parent_sha256 metadata now = do
    raise_if (ltb version 1) (value_error "policy version must be >= 1")
    ok (record {
      policy_id = policy_id source_ref;
      version = version;
      policy_sha256 = policy_digest;
      source_ref = source_ref;
      parent_sha256 = parent_sha256;
      created_at = now;
      metadata = metadata;
    })

  unfoldable pub sign_policy_version : PolicyVersion → String → SignedPolicyVersion
  unfolding signed
  sign_policy_version version private_key = record {
    payload = version;
    signature = signed crypto private_key (version_payload version);
    algorithm = "Ed25519";
  }

  unfoldable pub verify_policy_version : SignedPolicyVersion → String → Bool × String
  unfolding policy_id verified
  verify_policy_version document public_key =
      let payload = document.payload in
      if not (document.algorithm == "Ed25519")
      then (false, "unsupported signature algorithm")
      else if not (text_length payload.policy_id == 64)
      then (false, "invalid policy id")
      else if not (text_length payload.policy_sha256 == 64)
      then (false, "invalid policy digest")
      else if payload.source_ref == ""
      then (false, "invalid policy source reference")
      else if not (policy_id payload.source_ref == payload.policy_id)
      then (false, "policy id does not match source reference")
      else if verified crypto public_key (version_payload payload) document.signature
      then (true, "valid signed policy version")
      else (false, "invalid or tampered signed policy version")
