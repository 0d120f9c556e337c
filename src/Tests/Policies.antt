-- ===== src/Tests/Policies.antt =====
-- A policy that two governors publish and freeze.
use verigate.Base.{
  ==_ne, refl, [], ◌∷◌, none, ok, ◌≡◌, string_eq, nat_eq, option_eq, String, List, some, ◌==◌, true,
  false, Error, err, value_error,
}
use verigate.Base.Json.{end, value_eq}
use verigate.Storage.{empty, Storage}
use verigate.Policy.Version.{PolicyVersion, SignedPolicyVersion, sign_policy_version, signed_value}
use verigate.Governance.Actions.{Proposal}
use verigate.Governance.Members.{GovernancePolicy}
use verigate.Governance.Quorum.{GovernanceApproval, sign_governance_approval, approval_rows}
use verigate.PolicyVersions.{
  PolicyChangeGovernanceAction, check_publish, change_proposal, publish, change_row,
}
use verigate.Engine.Governed.{GuardrailEngine, signed_policy_version}
use verigate.Engine.Governed.Refused.{controlled_version_is_refused}
use verigate.Tests.Governed.{crypto, two_governors}
use verigate.PolicyVersions.Lineage.{Lineage, Chain, publish-Lineage}
use verigate.PolicyVersions.Control.{
  PolicyControlGovernanceAction, control_proposal, apply, control_row, control_action_row,
}
use verigate.PolicyVersions.Controlled.{Controlled, apply-Controlled}
use verigate.Storage.Resets.{insert_approvals}
use verigate.Storage.Policies.{policy_version_by_sha}
use verigate.PolicyVersions.Refused.{refused_publish_spends_approvals}

abbrev controllers : GovernancePolicy
controllers = record two_governors { allowed_actions = "POLICY_CHANGE" ∷ "POLICY_FREEZE" ∷ [] }

abbrev file : String
file = "policies/a-policy-with-a-name-of-a-fixed-length."

abbrev digest : String
digest = "0123456789012345678901234567890123456789012345678901234567890123"

abbrev lineage : String
lineage = "verigate-policy:policies/a-policy-with-a-name-of-a-fixed-length."

abbrev first_version : PolicyVersion
first_version = record {
  policy_id = lineage;
  version = 1;
  policy_sha256 = digest;
  source_ref = file;
  parent_sha256 = none;
  created_at = 100;
  metadata = end;
}

abbrev first : SignedPolicyVersion
first = sign_policy_version crypto first_version "issuer"

abbrev change : PolicyChangeGovernanceAction
change = record {
  action_id = "change";
  policy_id = lineage;
  policy_sha256 = digest;
  version = 1;
  source_ref = file;
  parent_sha256 = none;
  governance_policy_sha256 = "object";
  reason = "reviewed";
  issued_at = 200;
  expires_at = 500;
  nonce = "once";
}

abbrev approved_by : Proposal → String → String → GovernanceApproval
approved_by a key role = sign_governance_approval crypto a role key none none none none key key 210

abbrev approval : GovernanceApproval
approval = approved_by (change_proposal crypto change) "a" "security"

abbrev others : List GovernanceApproval
others = approved_by (change_proposal crypto change) "b" "operations" ∷ []

passed :
    check_publish crypto first change (approval ∷ others) controllers "kissuer" 220 empty ≡ ok tt
unfolding check_publish string_eq nat_eq option_eq sign_governance_approval sign_policy_version
passed = refl

no_versions : Lineage lineage empty
unfolding Lineage Chain
no_versions = tt

publish-Lineage_example :
    Lineage lineage
      (publish crypto first change (approval ∷ others) controllers "kissuer" 220 empty).1
publish-Lineage_example =
    publish-Lineage crypto first change (approval ∷ others) controllers "kissuer" 220 empty lineage
      no_versions

abbrev published_store : Storage
published_store = record empty { governed_policy_changes = change_row first change 220 ∷ [] }

abbrev freeze : PolicyControlGovernanceAction
freeze = record {
  action_id = "freeze";
  action = "POLICY_FREEZE";
  policy_id = lineage;
  current_policy_sha256 = digest;
  target_policy_sha256 = none;
  target_version = none;
  governance_policy_sha256 = "object";
  reason = "incident";
  issued_at = 300;
  expires_at = 500;
  nonce = "freeze once";
}

abbrev freeze_approvals : List GovernanceApproval
freeze_approvals =
    approved_by (control_proposal crypto freeze) "a" "security"
    ∷ approved_by (control_proposal crypto freeze) "b" "operations"
    ∷ []

abbrev frozen_store : Storage
frozen_store = record published_store {
  policy_controls = control_row crypto freeze (digest, true) 320 ∷ [];
  policy_control_actions = control_action_row crypto freeze 320 ∷ [];
}

frozen : apply crypto freeze freeze_approvals controllers 320 published_store ≡ ok frozen_store
unfolding apply string_eq nat_eq option_eq sign_governance_approval sign_policy_version
frozen = refl

apply-Controlled_example :
    Controlled crypto freeze freeze_approvals controllers 320 published_store frozen_store
apply-Controlled_example =
    apply-Controlled crypto freeze freeze_approvals controllers 320 published_store frozen_store
      frozen

abbrev engine : GuardrailEngine
engine = record {
  policy_sha256 = digest;
  policy_version_number = 1;
  policy_source_ref = file;
  policy_parent_sha256 = none;
  require_governed_policy = true;
  signed_policy = none;
}

admitted_before : (signed_policy_version crypto engine "issuer" 100 published_store).0 ≡ ok first
unfolding signed_policy_version string_eq nat_eq option_eq sign_policy_version
admitted_before = refl

controlled_version_is_refused_example :
    (x : Error) × ((signed_policy_version crypto engine "issuer" 330 frozen_store).0 ≡ err x)
controlled_version_is_refused_example =
    controlled_version_is_refused crypto freeze freeze_approvals controllers 320 330 published_store
      frozen_store frozen_store engine "issuer" frozen refl refl refl refl

-- The same policy, signed with another parent.
abbrev resigned : SignedPolicyVersion
resigned =
    sign_policy_version crypto (record first_version { parent_sha256 = some digest }) "issuer"

abbrev bound_store : Storage
bound_store = record empty {
  policy_versions =
      record {
        policy_sha256 = digest;
        policy_id = lineage;
        version = 1;
        source_ref = file;
        signed_policy = resigned;
        created_at = 101;
      }
      ∷ [];
}

bound_passed :
    check_publish crypto first change (approval ∷ others) controllers "kissuer" 220 bound_store
    ≡ ok tt
unfolding check_publish string_eq nat_eq option_eq sign_governance_approval sign_policy_version
bound_passed = refl

inserted :
    insert_approvals (approval_rows (approval ∷ others) 220) []
    ≡ some (approval_rows (approval ∷ others) 220)
unfolding string_eq sign_governance_approval change_proposal
inserted = refl

found : policy_version_by_sha first.payload.policy_sha256 bound_store ≡ some resigned
unfolding policy_version_by_sha string_eq sign_policy_version
found = refl

differ : (signed_value resigned == signed_value first) ≡ false
unfolding sign_policy_version
differ = ==_ne (signed_value resigned) (signed_value first) (λ h. cc)

abbrev spent_store : Storage
spent_store =
    (publish crypto first change (approval ∷ others) controllers "kissuer" 220 bound_store).1

refused_publish_spends_approvals_example :
    ((publish crypto first change (approval ∷ others) controllers "kissuer" 220 bound_store).0
      ≡ err (value_error "policy digest is already bound to different signed policy content"))
    × ((s' : Storage)
        → s'.governance_approvals ≡ spent_store.governance_approvals
        → ¬ (
            (publish crypto first change (approval ∷ others) controllers "kissuer" 230 s').0
            ≡ ok tt))
    × (check_publish crypto first change (approval ∷ others) controllers "kissuer" 230 spent_store
          ≡ ok tt
        → (publish crypto first change
            (approval ∷ others)
            controllers
            "kissuer"
            230
            spent_store).1.governance_approvals
          ≡ [])
refused_publish_spends_approvals_example =
    refused_publish_spends_approvals crypto first first change change approval others controllers
      controllers "kissuer" "kissuer" 220 230 bound_store (approval_rows (approval ∷ others) 220)
      resigned refl bound_passed inserted found differ
