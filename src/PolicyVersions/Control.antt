-- ===== src/PolicyVersions/Control.antt =====
-- core/policy_version.py: freezing a governed policy and rolling it back.
use verigate.Base.{
  [], ◌∷◌, none, some, true, false, ok, err, ◌==◌, ◌>>=◌, ◌>>◌, string_eq, nat_eq, option_eq,
  value_error, permission_error, if◌then◌else◌, String, Option, List, Result, ℕ, Bool, raise_if,
  not, is_some, ltb, ◌||◌, contains, ◌+◌, leb,
}
use verigate.Base.Json.{Value, obj, str, num, null, end, field}
use verigate.Base.Int.{pos}
use verigate.Base.Text.{strip}
use verigate.Signatures.{Signatures}
use verigate.Policy.Version.{str_or_null}
use verigate.Storage.{Storage, ChangeRow, ControlRow, ControlActionRow}
use verigate.Storage.Policies.{
  governed_policy_change_by_sha, policy_control, policy_control_action, apply_policy_control,
}
use verigate.Governance.{given_or, time_or}
use verigate.Governance.Actions.{Proposal, expiry_or}
use verigate.Governance.Members.{GovernancePolicy, policy_digest, validate}
use verigate.Governance.Quorum.{GovernanceApproval, verify_governance_quorum, refuse}

pub record PolicyControlGovernanceAction : Type 0 where
  pub action_id : String
  pub action : String
  pub policy_id : String
  pub current_policy_sha256 : String
  pub target_policy_sha256 : Option String
  pub target_version : Option ℕ
  pub governance_policy_sha256 : String
  pub reason : String
  pub issued_at : ℕ
  pub expires_at : ℕ
  pub nonce : String

abbrev num_or_null : Option ℕ → Value
num_or_null none = null
num_or_null (some n) = num (pos n)

-- `PolicyControlGovernanceAction.as_dict`, by key
abbrev pub control_payload : PolicyControlGovernanceAction → Value
control_payload a = obj (
    field "action" (str a.action) (
      field "action_id" (str a.action_id) (
        field "current_policy_sha256" (str a.current_policy_sha256) (
          field "expires_at" (num (pos a.expires_at)) (
            field "governance_policy_sha256" (str a.governance_policy_sha256) (
              field "governance_version" (num (pos 1)) (
                field "issued_at" (num (pos a.issued_at)) (
                  field "nonce" (str a.nonce) (
                    field "policy_id" (str a.policy_id) (
                      field "reason" (str a.reason) (
                        field "target_policy_sha256" (str_or_null a.target_policy_sha256)
                          (field "target_version" (num_or_null a.target_version) end))))))))))))

abbrev pub control_kinds : List String
control_kinds = "POLICY_FREEZE" ∷ "POLICY_ROLLBACK" ∷ []

-- `not target_policy_sha256`
abbrev no_text : Option String → Bool
no_text none = true
no_text (some s) = s == ""

abbrev no_version : Option ℕ → Bool
no_version none = true
no_version (some n) = ltb n 1

unfoldable pub check_control_target : String → String → Option String → Option ℕ → Result (Unit {0})
check_control_target action current target version =
    if action == "POLICY_ROLLBACK"
    then raise_if (no_text target || no_version version)
        (value_error "rollback requires target policy digest and version")
      >> raise_if (target == some current)
          (value_error "rollback target must differ from current policy")
    else raise_if (is_some target || is_some version)
        (value_error "freeze cannot specify a rollback target")

abbrev pub or_refused : Option ChangeRow → String → Result ChangeRow
or_refused none reason = err (permission_error reason)
or_refused (some row) reason = ok row

-- the digest of the active version
abbrev pub active_sha : String → Option ControlRow → String
active_sha current none = current
active_sha current (some control) = control.active_policy_sha256

abbrev pub is_frozen : Option ControlRow → Bool
is_frozen none = false
is_frozen (some control) = control.frozen

unfoldable pub target_change : Option String → Storage → Option ChangeRow
unfolding governed_policy_change_by_sha
target_change none s = none
target_change (some sha) s = governed_policy_change_by_sha sha s

-- The version that a rollback makes active.
unfoldable pub roll_back : PolicyControlGovernanceAction → Storage → Result String
unfolding target_change
roll_back a s = do
  target ← or_refused (target_change a.target_policy_sha256 s) "rollback target is not governed"
  refuse (not (target.signed_policy.payload.policy_id == a.policy_id))
      "rollback target belongs to another policy lineage"
  refuse (not (a.target_version == some target.signed_policy.payload.version))
      "rollback target version mismatch"
  refuse (a.target_policy_sha256 == some a.current_policy_sha256)
      "rollback target must differ from current policy"
  ok target.policy_sha256

unfoldable pub control_outcome :
    PolicyControlGovernanceAction → Option ControlRow → Storage → Result (String × Bool)
unfolding roll_back
control_outcome a control s =
    if a.action == "POLICY_FREEZE"
    then refuse (is_frozen control) "policy is already frozen" >> ok (a.current_policy_sha256, true)
    else roll_back a s >>= λ target. ok (target, false)

-- The active version and whether it is frozen.
unfoldable pub decide_control : PolicyControlGovernanceAction → Storage → Result (String × Bool)
unfolding governed_policy_change_by_sha policy_control control_outcome
decide_control a s = do
  current ←
      or_refused (governed_policy_change_by_sha a.current_policy_sha256 s)
        "current policy is not governed"
  refuse (not (current.signed_policy.payload.policy_id == a.policy_id))
      "current policy belongs to another policy lineage"
  let control = policy_control a.policy_id s
  refuse (not (active_sha a.current_policy_sha256 control == a.current_policy_sha256))
      "policy control action targets a stale active policy"
  control_outcome a control s

module _ (crypto : Signatures) where
  unfoldable pub control_proposal : PolicyControlGovernanceAction → Proposal
  control_proposal a = record {
    action = a.action;
    action_id = a.action_id;
    reason = a.reason;
    nonce = a.nonce;
    governance_policy_sha256 = a.governance_policy_sha256;
    issued_at = a.issued_at;
    expires_at = a.expires_at;
    target = none;
    digest = crypto.sha256 (crypto.canonical (control_payload a));
  }

  -- The two fresh identifiers are arguments.
  unfoldable pub create_policy_control_action :
      String
      → String
      → String
      → GovernancePolicy
      → String
      → Option String
      → Option ℕ
      → Option ℕ
      → Option ℕ
      → Option String
      → Option String
      → String
      → String
      → ℕ
      → Result PolicyControlGovernanceAction
  unfolding validate policy_digest strip check_control_target
  create_policy_control_action action policy_id current policy reason target version issued_at
        expires_at action_id nonce fresh_id fresh_nonce now =
      do
        validate crypto policy
        raise_if (not (contains control_kinds action))
            (value_error "unsupported policy control action")
        raise_if (not (contains policy.allowed_actions action))
            (value_error "governance policy does not allow policy control")
        raise_if (current == "" || policy_id == "" || strip reason == "")
            (value_error "policy control requires policy, digest and reason")
        check_control_target action current target version
        let issued = time_or issued_at now
        let expiry = expiry_or expires_at (issued + policy.max_approval_lifetime_seconds)
        raise_if (leb expiry issued || ltb (issued + policy.max_approval_lifetime_seconds) expiry)
            (value_error "invalid policy control action expiry")
        ok (record {
          action_id = given_or action_id fresh_id;
          action = action;
          policy_id = policy_id;
          current_policy_sha256 = current;
          target_policy_sha256 = target;
          target_version = version;
          governance_policy_sha256 = policy_digest crypto policy;
          reason = reason;
          issued_at = issued;
          expires_at = expiry;
          nonce = given_or nonce fresh_nonce;
        })

  abbrev pub control_row : PolicyControlGovernanceAction → String × Bool → ℕ → ControlRow
  control_row a (active, frozen) now = record {
    policy_id = a.policy_id;
    active_policy_sha256 = active;
    frozen = frozen;
    updated_at = now;
  }

  abbrev pub control_action_row : PolicyControlGovernanceAction → ℕ → ControlActionRow
  control_action_row a now = record {
    action_id = a.action_id;
    action_nonce = a.nonce;
    policy_id = a.policy_id;
    action = a.action;
    created_at = now;
  }

  -- `GovernedPolicyControlService.apply`
  unfoldable pub apply :
      PolicyControlGovernanceAction
      → List GovernanceApproval
      → GovernancePolicy
      → ℕ
      → Storage
      → Result Storage
  unfolding verify_governance_quorum control_proposal policy_control_action policy_digest
      decide_control apply_policy_control
  apply a approvals policy now s = do
    verify_governance_quorum crypto (control_proposal a) approvals policy now
    refuse (is_some (policy_control_action a.action_id s))
        "policy control action already registered"
    refuse (not (contains control_kinds a.action)) "unsupported policy control action"
    refuse (not (a.governance_policy_sha256 == policy_digest crypto policy))
        "governance policy fingerprint mismatch"
    outcome ← decide_control a s
    apply_policy_control (control_row a outcome now) (control_action_row a now) s
