-- ===== src/Tests/Governed.antt =====
-- An agent suspended for tampering, two governors, and their resets.
use verigate.Base.{
  refl, [], ◌∷◌, none, some, true, false, ok, err, ◌≡◌, ◌==◌, string_eq, nat_eq, option_eq, ◌↔◌,
  ◌⊎◌, arith, String, List, Error, Result, Option,
}
use verigate.Base.Json.{end}
use verigate.Storage.{Storage, EventRow, AuthorityState, probation}
use verigate.Storage.Registries.{status_eq}
use verigate.Signatures.{Signatures, SignatureLaws}
use verigate.AuthorityState.{AuthoritySnapshot, state_eq}
use verigate.Governance.{
  SignedAuthorityReset, create_authority_reset, verify_authority_reset, governor_id,
}
use verigate.Governance.Members.{GovernanceMember, GovernancePolicy}
use verigate.Governance.Actions.{GovernanceAction, Proposal, proposal_of}
use verigate.Governance.Quorum.{
  GovernanceApproval, sign_governance_approval, verify_governance_quorum,
}
use verigate.Governance.Resets.{multiparty_governance_reset, multiparty_row}
use verigate.Governance.Accepted.{Quorum, verify_governance_quorum_iff}
use verigate.Governance.Applied.{Lifted}
use verigate.Governance.Cases.{multiparty_governance_reset_cases}
use verigate.Governance.Signed.{verify-create_authority_reset}
use verigate.Tests.Keys.{public_key}
use verigate.Tests.Data.{store}
use verigate.Tests.Keys

-- Every object has one text.
abbrev pub crypto : Signatures
crypto = record Keys.crypto { canonical = λ v. "object" }

abbrev laws : SignatureLaws crypto
laws = record {
  decode_encode = Keys.crypto-laws.decode_encode;
  encode_key = Keys.crypto-laws.encode_key;
  key_length = Keys.crypto-laws.key_length;
  verify_sign = Keys.crypto-laws.verify_sign;
}

abbrev member : String → String → GovernanceMember
member key role = record {
  governor_id = public_key key;
  role = role;
  public_key_b64 = public_key key;
}

abbrev pub two_governors : GovernancePolicy
two_governors = record {
  policy_id = "governance";
  version = 1;
  threshold = 2;
  members = member "a" "security" ∷ member "b" "operations" ∷ [];
  required_roles = ("security", 1) ∷ [];
  max_approval_lifetime_seconds = 300;
  allowed_actions = "AUTHORITY_RESET" ∷ [];
}

abbrev lift : GovernanceAction
lift = record {
  action_id = "reset";
  action = "AUTHORITY_RESET";
  agent_id = "agent";
  capability_id = "child";
  epoch = 1;
  reason = "reviewed";
  policy_sha256 = "object";
  issued_at = 200;
  expires_at = 500;
  nonce = "once";
}

abbrev lift_proposal : Proposal
lift_proposal = proposal_of crypto lift

abbrev approval : String → String → GovernanceApproval
approval key role =
    sign_governance_approval crypto lift_proposal role key none none none none key key 210

abbrev approvals : List GovernanceApproval
approvals = approval "a" "security" ∷ approval "b" "operations" ∷ []

abbrev tampering : EventRow
tampering = record {
  event_id = "event";
  agent_id = "agent";
  capability_id = "child";
  identity_id = none;
  event_type = "TAMPER_DETECTED";
  action_type = none;
  evidence_ref = "evidence";
  metadata = end;
  occurred_at = 100;
}

abbrev suspended_store : Storage
suspended_store = record store { authority_events = tampering ∷ [] }

abbrev public_of_a : String
public_of_a = public_key "a"

agent_named : ◌==◌ {A = String} "agent" "" ≡ false
unfolding string_eq
agent_named = refl

child_named : ◌==◌ {A = String} "child" "" ≡ false
unfolding string_eq
child_named = refl

id_named : ◌==◌ {A = String} "id" "" ≡ false
unfolding string_eq
id_named = refl

nonce_named : ◌==◌ {A = String} "nonce" "" ≡ false
unfolding string_eq
nonce_named = refl

key_named : (governor_id crypto public_of_a == "") ≡ false
unfolding string_eq governor_id
key_named = refl

quorum : verify_governance_quorum crypto lift_proposal approvals two_governors 220 ≡ ok tt
unfolding verify_governance_quorum string_eq nat_eq sign_governance_approval proposal_of
quorum = refl

verify_governance_quorum_iff_example :
    (verify_governance_quorum crypto lift_proposal approvals two_governors 220 ≡ ok tt)
    ↔ Quorum crypto two_governors 220 lift_proposal approvals
verify_governance_quorum_iff_example =
    verify_governance_quorum_iff crypto two_governors 220 lift_proposal approvals

abbrev state_of : Result AuthoritySnapshot → Option AuthorityState
state_of (err e) = none
state_of (ok snap) = some snap.state

-- Both governors lift the suspension.
lifts :
    state_of (multiparty_governance_reset crypto lift approvals two_governors 220 suspended_store).0
    ≡ some probation
unfolding multiparty_governance_reset string_eq nat_eq sign_governance_approval proposal_of
    option_eq status_eq state_eq
lifts = refl

multiparty_governance_reset_cases_example :
    ((snap : AuthoritySnapshot) × (s' : Storage) × (multiparty_governance_reset crypto lift
          approvals two_governors 220 suspended_store
        ≡ (ok snap, s'))
      × ((lift.action ≡ "AUTHORITY_RESET")
          × Quorum crypto two_governors 220 lift_proposal approvals)
      × Lifted (multiparty_row lift) 220 suspended_store s' snap)
    ⊎ ((e : Error) × (s' : Storage) × (multiparty_governance_reset crypto lift approvals
            two_governors 220 suspended_store
          ≡ (err e, s'))
        × (s'.authority_resets ≡ [])
        × (s'.governance_approvals ≡ []))
multiparty_governance_reset_cases_example =
    multiparty_governance_reset_cases crypto lift approvals two_governors 220 suspended_store

abbrev reset_by_a : SignedAuthorityReset
reset_by_a = record {
  payload = record {
    reset_id = "reset";
    agent_id = "agent";
    capability_id = "child";
    governor_id = public_of_a;
    epoch = 1;
    reason = "reviewed";
    issued_at = 200;
    nonce = "once";
  };
  signature = public_of_a;
  algorithm = "Ed25519";
}

created :
    create_authority_reset crypto "agent" "child" "a" 1 "reviewed"
      (some 200)
      (some "reset")
      (some "once")
      "id"
      "nonce"
      210
    ≡ ok reset_by_a
unfolding create_authority_reset string_eq nat_eq
created = refl

verify-create_authority_reset_example :
    verify_authority_reset crypto reset_by_a public_of_a 220 ≡ (true, "valid authority reset")
verify-create_authority_reset_example =
    verify-create_authority_reset crypto laws "agent" "child" "a" 1 "reviewed" (some 200)
      (some "reset") (some "once") "id" "nonce" 210 220 reset_by_a agent_named child_named id_named
      nonce_named key_named (omega arith) (omega arith) created
