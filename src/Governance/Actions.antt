-- ===== src/Governance/Actions.antt =====
-- core/governance.py: the actions that a quorum approves.
use verigate.Base.{
  none, some, ok, ◌==◌, ◌>>◌, string_eq, nat_eq, value_error, String, Option, ℕ, Result, raise_if,
  ltb, not, ◌+◌, ◌||◌, contains, leb,
}
use verigate.Base.Json.{Value, obj, str, num, end, field}
use verigate.Base.Int.{pos}
use verigate.Base.Text.{strip}
use verigate.Signatures.{Signatures}
use verigate.Governance.{given_or, time_or}
use verigate.Governance.Members.{GovernancePolicy, validate, policy_digest}

pub record GovernanceAction : Type 0 where
  pub action_id : String
  pub action : String
  pub agent_id : String
  pub capability_id : String
  pub epoch : ℕ
  pub reason : String
  pub policy_sha256 : String
  pub issued_at : ℕ
  pub expires_at : ℕ
  pub nonce : String

-- `GovernanceAction.as_dict`, by key
abbrev pub action_payload : GovernanceAction → Value
action_payload a = obj (
    field "action" (str a.action) (
      field "action_id" (str a.action_id) (
        field "agent_id" (str a.agent_id) (
          field "capability_id" (str a.capability_id) (
            field "epoch" (num (pos a.epoch)) (
              field "expires_at" (num (pos a.expires_at)) (
                field "governance_policy_sha256" (str a.policy_sha256) (
                  field "governance_version" (num (pos 1)) (
                    field "issued_at" (num (pos a.issued_at)) (
                      field "nonce" (str a.nonce) (
                        field "policy_sha256" (str a.policy_sha256)
                          (field "reason" (str a.reason) end))))))))))))

-- What a reset names beside.
pub record ResetTarget : Type 0 where
  pub epoch : ℕ
  pub agent_id : String
  pub capability_id : String

-- What `verify_governance_quorum` reads of an action, of whichever kind: `governance_policy_sha256`, for which an
-- older action has `policy_sha256`, and the digest of the whole.
pub record Proposal : Type 0 where
  pub action : String
  pub action_id : String
  pub reason : String
  pub nonce : String
  pub governance_policy_sha256 : String
  pub issued_at : ℕ
  pub expires_at : ℕ
  pub target : Option ResetTarget
  pub digest : String

abbrev pub expiry_or : Option ℕ → ℕ → ℕ
expiry_or none default = default
expiry_or (some t) default = t

module _ (crypto : Signatures) where
  -- `GovernanceAction.digest`
  unfoldable pub action_digest : GovernanceAction → String
  action_digest a = crypto.sha256 (crypto.canonical (action_payload a))

  -- The two fresh identifiers are arguments.
  unfoldable pub proposal_of : GovernanceAction → Proposal
  unfolding action_digest
  proposal_of a = record {
    action = a.action;
    action_id = a.action_id;
    reason = a.reason;
    nonce = a.nonce;
    governance_policy_sha256 = a.policy_sha256;
    issued_at = a.issued_at;
    expires_at = a.expires_at;
    target =
        some (record { epoch = a.epoch; agent_id = a.agent_id; capability_id = a.capability_id });
    digest = action_digest a;
  }

  unfoldable pub create_governance_action :
      String
      → String
      → String
      → ℕ
      → String
      → GovernancePolicy
      → Option ℕ
      → Option ℕ
      → Option String
      → Option String
      → String
      → String
      → ℕ
      → Result GovernanceAction
  unfolding validate policy_digest strip
  create_governance_action action agent_id capability_id epoch reason policy issued_at expires_at
        action_id nonce fresh_id fresh_nonce now =
      do
        validate crypto policy
        raise_if (not (contains policy.allowed_actions action))
            (value_error "governance action is not allowed by policy")
        raise_if (ltb epoch 1 || strip reason == "") (value_error "invalid governance action")
        let issued = time_or issued_at now
        let expiry = expiry_or expires_at (issued + policy.max_approval_lifetime_seconds)
        raise_if (leb expiry issued || ltb (issued + policy.max_approval_lifetime_seconds) expiry)
            (value_error "invalid governance action expiry")
        ok (record {
          action_id = given_or action_id fresh_id;
          action = action;
          agent_id = agent_id;
          capability_id = capability_id;
          epoch = epoch;
          reason = reason;
          policy_sha256 = policy_digest crypto policy;
          issued_at = issued;
          expires_at = expiry;
          nonce = given_or nonce fresh_nonce;
        })
