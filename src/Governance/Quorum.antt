-- ===== src/Governance/Quorum.antt =====
-- core/governance.py: the approvals of an action and their quorum. A refusal `(False, reason)` of
-- `verify_governance_quorum` is the error with that reason.
use verigate.Base.{
  [], ◌∷◌, none, some, true, false, ok, err, ◌==◌, ◌>>=◌, ◌>>◌, string_eq, nat_eq, permission_error,
  if◌then◌else◌, String, List, Bool, Option, ℕ, Result, raise_if, count_rows, ltb, not, ◌+◌, ◌||◌,
  contains, leb, ◌&&◌,
}
use verigate.Base.Json.{Value, obj, str, num, end, field}
use verigate.Base.Int.{pos}
use verigate.Signatures.{Signatures, signed, verified}
use verigate.Governance.{governor_id, clock_skew, given_or, time_or}
use verigate.Governance.Members.{
  GovernancePolicy, GovernanceMember, validate, policy_digest, member_for_governor, public_key,
}
use verigate.Storage.{ApprovalRow}
use verigate.Governance.Actions.{Proposal, ResetTarget, expiry_or}

pub record GovernanceApproval : Type 0 where
  pub action_digest : String
  pub governor_id : String
  pub role : String
  pub approval_id : String
  pub issued_at : ℕ
  pub expires_at : ℕ
  pub nonce : String
  pub signature : String
  pub algorithm : String

-- `GovernanceApproval.payload`, by key
abbrev pub approval_payload : GovernanceApproval → Value
approval_payload a = obj (
    field "action_digest" (str a.action_digest) (
      field "approval_id" (str a.approval_id) (
        field "expires_at" (num (pos a.expires_at)) (
          field "governance_version" (num (pos 1)) (
            field "governor_id" (str a.governor_id) (
              field "issued_at" (num (pos a.issued_at))
                (field "nonce" (str a.nonce) (field "role" (str a.role) end))))))))

-- the tests of a reset's target; an action of another kind has none
abbrev pub bad_epoch : Option ResetTarget → Bool
bad_epoch none = true
bad_epoch (some t) = ltb t.epoch 1

abbrev pub bad_names : Option ResetTarget → Bool
bad_names none = true
bad_names (some t) = t.agent_id == "" || t.capability_id == ""

abbrev is_reset : Proposal → Bool
is_reset a = a.action == "AUTHORITY_RESET"

-- The row of an approval that an action has used up.
abbrev pub approval_row : GovernanceApproval → ℕ → ApprovalRow
approval_row a now = record {
  approval_id = a.approval_id;
  action_digest = a.action_digest;
  governor_id = a.governor_id;
  role = a.role;
  issued_at = a.issued_at;
  expires_at = a.expires_at;
  nonce = a.nonce;
  created_at = now;
}

abbrev pub approval_rows : List GovernanceApproval → ℕ → List ApprovalRow
approval_rows [] now = []
approval_rows (a ∷ approvals) now = approval_row a now ∷ approval_rows approvals now

-- What the loop over the approvals keeps, with the roles counted in `role_counts` one by one.
pub record Tally : Type 0 where
  pub seen_governors : List String
  pub seen_nonces : List String
  pub roles : List String
  pub valid : ℕ

abbrev pub no_approvals : Tally
no_approvals = record { seen_governors = []; seen_nonces = []; roles = []; valid = 0 }

abbrev pub refuse : Bool → String → Result (Unit {0})
refuse b reason = raise_if b (permission_error reason)

-- `role_counts.get(role, 0)`
abbrev pub counted : String → List String → ℕ
counted role roles = count_rows (λ r. r == role) roles

-- The loop over the required roles.
abbrev pub roles_present : List (String × ℕ) → Tally → Result (Unit {0})
roles_present [] tally = ok tt
roles_present ((role, minimum) ∷ rest) tally = do
  refuse (ltb (counted role tally.roles) minimum) "required governance role missing"
  roles_present rest tally

-- `min(a, b)`
abbrev smaller : ℕ → ℕ → ℕ
smaller a b = if ltb b a then b else a

module _ (crypto : Signatures) where
  unfoldable pub sign_approval : String → GovernanceApproval → GovernanceApproval
  unfolding signed
  sign_approval private_key a = record a {
    signature = signed crypto private_key (approval_payload a);
  }

  unfoldable pub sign_governance_approval :
      Proposal
      → String
      → String
      → Option ℕ
      → Option ℕ
      → Option String
      → Option String
      → String
      → String
      → ℕ
      → GovernanceApproval
  unfolding governor_id sign_approval
  sign_governance_approval action role private_key issued_at expires_at approval_id nonce fresh_id
        fresh_nonce now =
      let issued = time_or issued_at now in
      sign_approval private_key (record {
        action_digest = action.digest;
        governor_id = governor_id crypto (crypto.public_bytes private_key);
        role = role;
        approval_id = given_or approval_id fresh_id;
        issued_at = issued;
        expires_at = expiry_or expires_at (smaller action.expires_at (issued + 300));
        nonce = given_or nonce fresh_nonce;
        signature = "";
        algorithm = "Ed25519";
      })

  -- the signature under the member's key
  unfoldable pub signed_by : GovernanceApproval → Result String → Bool × String
  unfolding verified
  signed_by a (err e) = (false, "invalid or tampered governance approval")
  signed_by a (ok key) =
      if verified crypto key (approval_payload a) a.signature
      then (true, "valid governance approval")
      else (false, "invalid or tampered governance approval")

  unfoldable pub approved_by : GovernanceApproval → Option GovernanceMember → Bool × String
  unfolding public_key signed_by
  approved_by a none = (false, "governance signer is not authorized for this role")
  approved_by a (some member) =
      if not (member.role == a.role)
      then (false, "governance signer is not authorized for this role")
      else signed_by a (public_key crypto member)

  -- the tests of an approval, its policy being valid
  unfoldable pub check_approval : GovernanceApproval → GovernancePolicy → ℕ → Bool × String
  unfolding member_for_governor approved_by
  check_approval a policy now =
      if not (a.algorithm == "Ed25519")
      then (false, "unsupported governance approval algorithm")
      else if a.action_digest == ""
          || a.governor_id == ""
          || a.role == ""
          || a.approval_id == ""
          || a.nonce == ""
      then (false, "invalid governance approval fields")
      else if ltb (now + clock_skew) a.issued_at
      then (false, "governance approval is too far in the future")
      else if leb a.expires_at now
      then (false, "governance approval has expired")
      else if leb a.expires_at a.issued_at
      then (false, "governance approval expiry is invalid")
      else if ltb (a.issued_at + policy.max_approval_lifetime_seconds) a.expires_at
      then (false, "governance approval lifetime exceeds policy")
      else approved_by a (member_for_governor policy a.governor_id)

  unfoldable pub approval_verdict :
      Result (Unit {0}) → GovernanceApproval → GovernancePolicy → ℕ → Bool × String
  unfolding check_approval
  approval_verdict (err e) a policy now = (false, "invalid or tampered governance approval")
  approval_verdict (ok done) a policy now = check_approval a policy now

  unfoldable pub verify_governance_approval :
      GovernanceApproval → GovernancePolicy → ℕ → Bool × String
  unfolding validate approval_verdict
  verify_governance_approval a policy now = approval_verdict (validate crypto policy) a policy now

  -- The loop over the approvals.
  unfoldable pub tally_approvals :
      GovernancePolicy → String → ℕ → List GovernanceApproval → Tally → Result Tally
  unfolding verify_governance_approval
  tally_approvals policy digest now [] tally = ok tally
  tally_approvals policy digest now (a ∷ approvals) tally = do
    let verdict = verify_governance_approval a policy now
    refuse (not verdict.0) verdict.1
    refuse (not (a.action_digest == digest)) "governance approval targets a different action"
    refuse (contains tally.seen_governors a.governor_id) "duplicate governance signer"
    refuse (contains tally.seen_nonces a.nonce) "duplicate governance approval nonce"
    tally_approvals policy digest now approvals (record {
      seen_governors = a.governor_id ∷ tally.seen_governors;
      seen_nonces = a.nonce ∷ tally.seen_nonces;
      roles = a.role ∷ tally.roles;
      valid = tally.valid + 1;
    })

  -- The tests of the action itself.
  unfoldable pub check_action : Proposal → GovernancePolicy → ℕ → Result (Unit {0})
  unfolding policy_digest
  check_action a policy now = do
    refuse (a.action == "" || a.action_id == "" || a.reason == "" || a.nonce == "")
        "invalid governance action fields"
    refuse (a.governance_policy_sha256 == "") "missing governance policy fingerprint"
    refuse (not (a.governance_policy_sha256 == policy_digest crypto policy))
        "governance policy fingerprint mismatch"
    refuse (not (contains policy.allowed_actions a.action)) "governance action is not allowed"
    refuse (ltb (now + clock_skew) a.issued_at) "governance action is too far in the future"
    refuse (leb a.expires_at now) "governance action has expired"
    refuse (leb a.expires_at a.issued_at) "governance action expiry is invalid"
    refuse (ltb (a.issued_at + policy.max_approval_lifetime_seconds) a.expires_at)
        "governance action lifetime exceeds policy"
    refuse (is_reset a && bad_epoch a.target) "invalid governance action epoch"
    refuse (is_reset a && bad_names a.target) "invalid governance action fields"

  unfoldable pub verify_governance_quorum :
      Proposal → List GovernanceApproval → GovernancePolicy → ℕ → Result (Unit {0})
  unfolding validate check_action tally_approvals
  verify_governance_quorum action approvals policy now = do
    validate crypto policy
    check_action action policy now
    tally ← tally_approvals policy action.digest now approvals no_approvals
    refuse (ltb tally.valid policy.threshold) "governance threshold not reached"
    roles_present policy.required_roles tally
