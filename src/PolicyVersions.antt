-- ===== src/PolicyVersions.antt =====
-- core/policy_version.py: signed versions of a policy that a quorum publishes. `publish` answers with the store,
-- since the registration may raise after it has inserted rows.
pub mod Control
pub mod Lineage
pub mod Published
pub mod Refused
pub mod Decided
pub mod Controlled
use verigate.Base.{
  inl, inr, refl, [], ◌∷◌, ◌++◌, none, some, true, false, ok, err, ◌≡◌, ◌==◌, ◌>>=◌, ◌>>◌,
  string_eq, nat_eq, option_eq, value_error, permission_error, if◌then◌else◌, String, ℕ, Bool, List,
  Result, Option, ◌&&◌, not, ◌||◌, raise_if, is_some, ◌+◌, contains, leb, ltb,
}
use verigate.Base.Json.{Value, obj, str, num, end, field}
use verigate.Base.Int.{pos}
use verigate.Base.Text.{strip}
use verigate.Signatures.{Signatures}
use verigate.Policy.Version.{SignedPolicyVersion, verify_policy_version, str_or_null}
use verigate.Storage.{Storage, ChangeRow}
use verigate.Storage.Policies.{
  governed_policy_change_by_sha, latest_governed_policy_version, register_governed_policy_change,
}
use verigate.Governance.{given_or, time_or}
use verigate.Governance.Actions.{Proposal, expiry_or}
use verigate.Governance.Members.{GovernancePolicy, policy_digest, validate}
use verigate.Governance.Quorum.{GovernanceApproval, approval_rows, verify_governance_quorum, refuse}

pub record PolicyChangeGovernanceAction : Type 0 where
  pub action_id : String
  pub policy_id : String
  pub policy_sha256 : String
  pub version : ℕ
  pub source_ref : String
  pub parent_sha256 : Option String
  pub governance_policy_sha256 : String
  pub reason : String
  pub issued_at : ℕ
  pub expires_at : ℕ
  pub nonce : String

-- `PolicyChangeGovernanceAction.as_dict`, by key
abbrev pub change_payload : PolicyChangeGovernanceAction → Value
change_payload a = obj (
    field "action" (str "POLICY_CHANGE") (
      field "action_id" (str a.action_id) (
        field "expires_at" (num (pos a.expires_at)) (
          field "governance_policy_sha256" (str a.governance_policy_sha256) (
            field "governance_version" (num (pos 1)) (
              field "issued_at" (num (pos a.issued_at)) (
                field "nonce" (str a.nonce) (
                  field "parent_sha256" (str_or_null a.parent_sha256) (
                    field "policy_id" (str a.policy_id) (
                      field "policy_sha256" (str a.policy_sha256) (
                        field "policy_version_number" (num (pos a.version)) (
                          field "reason" (str a.reason)
                            (field "source_ref" (str a.source_ref) end)))))))))))))

-- `payload.get("governance_policy_sha256") or payload.get("policy_sha256")`
abbrev fingerprint : PolicyChangeGovernanceAction → String
fingerprint a =
    if a.governance_policy_sha256 == "" then a.policy_sha256 else a.governance_policy_sha256

-- The tests of a version against the latest one of its policy.
unfoldable pub check_lineage : ℕ → Option String → Option ChangeRow → Result (Unit {0})
check_lineage version parent none =
    refuse (not (version == 1) || not (parent == none))
      "first governed policy version must start at 1"
check_lineage version parent (some latest) = do
  refuse (not (version == latest.version + 1))
      "governed policy version must increment monotonically"
  refuse (not (parent == some latest.policy_sha256))
      "governed policy parent does not match latest version"

abbrev pub change_row : SignedPolicyVersion → PolicyChangeGovernanceAction → ℕ → ChangeRow
change_row document a now = record {
  policy_sha256 = document.payload.policy_sha256;
  policy_id = document.payload.policy_id;
  version = document.payload.version;
  parent_sha256 = document.payload.parent_sha256;
  action_id = a.action_id;
  action_nonce = a.nonce;
  governance_policy_sha256 = a.governance_policy_sha256;
  signed_policy = document;
  created_at = now;
}

module _ (crypto : Signatures) where
  unfoldable pub change_proposal : PolicyChangeGovernanceAction → Proposal
  change_proposal a = record {
    action = "POLICY_CHANGE";
    action_id = a.action_id;
    reason = a.reason;
    nonce = a.nonce;
    governance_policy_sha256 = fingerprint a;
    issued_at = a.issued_at;
    expires_at = a.expires_at;
    target = none;
    digest = crypto.sha256 (crypto.canonical (change_payload a));
  }

  -- The two fresh identifiers are arguments.
  unfoldable pub create_policy_change_action :
      SignedPolicyVersion
      → GovernancePolicy
      → String
      → Option ℕ
      → Option ℕ
      → Option String
      → Option String
      → String
      → String
      → ℕ
      → Result PolicyChangeGovernanceAction
  unfolding validate policy_digest strip
  create_policy_change_action document policy reason issued_at expires_at action_id nonce fresh_id
        fresh_nonce now =
      do
        validate crypto policy
        raise_if (not (contains policy.allowed_actions "POLICY_CHANGE"))
            (value_error "governance policy does not allow policy changes")
        raise_if (strip reason == "") (value_error "policy change reason is required")
        let issued = time_or issued_at now
        let expiry = expiry_or expires_at (issued + policy.max_approval_lifetime_seconds)
        raise_if (leb expiry issued || ltb (issued + policy.max_approval_lifetime_seconds) expiry)
            (value_error "invalid policy governance action expiry")
        ok (record {
          action_id = given_or action_id fresh_id;
          policy_id = document.payload.policy_id;
          policy_sha256 = document.payload.policy_sha256;
          version = document.payload.version;
          source_ref = document.payload.source_ref;
          parent_sha256 = document.payload.parent_sha256;
          governance_policy_sha256 = policy_digest crypto policy;
          reason = reason;
          issued_at = issued;
          expires_at = expiry;
          nonce = given_or nonce fresh_nonce;
        })

  -- the action is that of the signed version
  abbrev pub matches : SignedPolicyVersion → PolicyChangeGovernanceAction → Bool
  matches document a =
      a.policy_id == document.payload.policy_id
      && a.policy_sha256 == document.payload.policy_sha256
      && a.version == document.payload.version
      && a.source_ref == document.payload.source_ref
      && a.parent_sha256 == document.payload.parent_sha256

  unfoldable pub check_publish :
      SignedPolicyVersion
      → PolicyChangeGovernanceAction
      → List GovernanceApproval
      → GovernancePolicy
      → String
      → ℕ
      → Storage
      → Result (Unit {0})
  unfolding verify_policy_version verify_governance_quorum change_proposal policy_digest
      governed_policy_change_by_sha latest_governed_policy_version check_lineage
  check_publish document a approvals policy issuer_public_key now s = do
    let verdict = verify_policy_version crypto document issuer_public_key
    refuse (not verdict.0) verdict.1
    verify_governance_quorum crypto (change_proposal a) approvals policy now
    refuse (not (matches document a)) "policy governance action does not match signed policy"
    refuse (not (a.governance_policy_sha256 == policy_digest crypto policy))
        "governance policy fingerprint mismatch"
    refuse (is_some (governed_policy_change_by_sha document.payload.policy_sha256 s))
        "governed policy version already published"
    check_lineage document.payload.version document.payload.parent_sha256
        (latest_governed_policy_version document.payload.policy_id s)

  unfoldable pub publish_if :
      Result (Unit {0})
      → ChangeRow
      → List GovernanceApproval
      → ℕ
      → Storage
      → Result (Unit {0}) × Storage
  unfolding register_governed_policy_change
  publish_if (err e) new approvals now s = (err e, s)
  publish_if (ok done) new approvals now s =
      register_governed_policy_change new (approval_rows approvals now) now s

  -- `GovernedPolicyVersionRegistry.publish`
  unfoldable pub publish :
      SignedPolicyVersion
      → PolicyChangeGovernanceAction
      → List GovernanceApproval
      → GovernancePolicy
      → String
      → ℕ
      → Storage
      → Result (Unit {0}) × Storage
  unfolding check_publish publish_if
  publish document a approvals policy issuer_public_key now s =
      publish_if (check_publish document a approvals policy issuer_public_key now s)
        (change_row document a now) approvals now s
