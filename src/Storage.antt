-- ===== src/Storage.antt =====
-- core/storage.py: the database as a record of tables. A row is inserted at the end, `WHERE` selects
-- rows in order, and a method that fails leaves every table as it was (the rollback). A column that
-- holds JSON holds the object itself.
pub mod Audit
pub mod Nonces
pub mod Registries
pub mod Delegations
pub mod Events
pub mod Resets
pub mod Policies
use verigate.Base.{none, ℕ, String, List, [], Option, Bool}
use verigate.Base.Json.{Fields}
use verigate.Money.{Amount}
use verigate.Policy.Version.{SignedPolicyVersion}
use verigate.Models.{Decision, RuleMatch, AgentIdentity, Capability}

pub record AuditRow : Type 0 where
  pub intent_id : String
  pub agent_id : String
  pub payee : String
  pub asset : String
  pub network : String
  pub amount : Amount
  pub decision : Decision
  pub matched_rules : List RuleMatch
  pub signature : Option String
  pub created_at : ℕ

pub record NonceRow : Type 0 where
  pub nonce : String
  pub authorization_id : String
  pub intent_id : String
  pub agent_id : String
  pub consumed_at : ℕ

-- An execution receipt: its payload, with what it repeats of the authorization as `bound`, and its signature.
pub record Receipt : Type 0 where
  pub receipt_id : String
  pub authorization_id : String
  pub intent_id : String
  pub agent_id : String
  pub bound : Fields
  pub authority_ledger_head_hash : Option String
  pub network : String
  pub status : String
  pub transaction_ref : Option String
  pub executor : String
  pub error : Option String
  pub previous_receipt_sha256 : Option String
  pub confirmation_ref : Option String
  pub confirmation_data : Fields
  pub execution_external_state_scope : Option String
  pub executed_at : ℕ
  pub signature : String

-- The two unique columns and the stored receipt; the other columns repeat the receipt.
pub record ReceiptRow : Type 0 where
  pub receipt_id : String
  pub authorization_id : String
  pub receipt : Receipt
  pub created_at : ℕ

pub data Status : Type 0 where
  active revoked : Status

pub record IdentityRow : Type 0 where
  pub identity_id : String
  pub identity : AgentIdentity
  pub status : Status
  pub expires_at : Option ℕ
  pub revoked_at : Option ℕ
  pub created_at : ℕ

pub record CapabilityRow : Type 0 where
  pub capability_id : String
  pub capability : Capability
  pub status : Status
  pub expires_at : Option ℕ
  pub revoked_at : Option ℕ
  pub created_at : ℕ

pub record EdgeRow : Type 0 where
  pub source_type : String
  pub source_id : String
  pub relation : String
  pub target_type : String
  pub target_id : String
  pub status : Status
  pub created_at : ℕ
  pub revoked_at : Option ℕ

pub record DelegationRow : Type 0 where
  pub parent_capability_id : String
  pub child_capability_id : String
  pub delegator_identity_id : String
  pub delegation_signature : String
  pub child_capability_sha256 : String
  pub created_at : ℕ

pub record EventRow : Type 0 where
  pub event_id : String
  pub agent_id : String
  pub capability_id : String
  pub identity_id : Option String
  pub event_type : String
  pub action_type : Option String
  pub evidence_ref : String
  pub metadata : Fields
  pub occurred_at : ℕ

pub record LedgerRow : Type 0 where
  pub agent_id : String
  pub capability_id : String
  pub sequence : ℕ
  pub event_id : String
  pub prev_event_hash : String
  pub event_hash : String
  pub event : EventRow
  pub created_at : ℕ

pub data AuthorityState : Type 0 where
  probation limited standard elevated suspended : AuthorityState

pub record StateRow : Type 0 where
  pub agent_id : String
  pub capability_id : String
  pub state : AuthorityState
  pub updated_at : ℕ

pub record ResetRow : Type 0 where
  pub reset_id : String
  pub agent_id : String
  pub capability_id : String
  pub governor_id : String
  pub epoch : ℕ
  pub reason : String
  pub issued_at : ℕ
  pub nonce : String

-- The signed approval, which the row holds too, is left out.
pub record ApprovalRow : Type 0 where
  pub approval_id : String
  pub action_digest : String
  pub governor_id : String
  pub role : String
  pub issued_at : ℕ
  pub expires_at : ℕ
  pub nonce : String
  pub created_at : ℕ

pub record PolicyVersionRow : Type 0 where
  pub policy_sha256 : String
  pub policy_id : String
  pub version : ℕ
  pub source_ref : String
  pub signed_policy : SignedPolicyVersion
  pub created_at : ℕ

-- Of the envelope, the row holds the signed version.
pub record ChangeRow : Type 0 where
  pub policy_sha256 : String
  pub policy_id : String
  pub version : ℕ
  pub parent_sha256 : Option String
  pub action_id : String
  pub action_nonce : String
  pub governance_policy_sha256 : String
  pub signed_policy : SignedPolicyVersion
  pub created_at : ℕ

-- The envelopes of a control and of its action are left out.
pub record ControlRow : Type 0 where
  pub policy_id : String
  pub active_policy_sha256 : String
  pub frozen : Bool
  pub updated_at : ℕ

pub record ControlActionRow : Type 0 where
  pub action_id : String
  pub action_nonce : String
  pub policy_id : String
  pub action : String
  pub created_at : ℕ

-- The tables. `committed_approvals` is the table of approvals at the last commit, where a publication that
-- raised has left its transaction open.
pub record Storage : Type 0 where
  pub audit_log : List AuditRow
  pub execution_nonces : List NonceRow
  pub execution_receipts : List ReceiptRow
  pub identities : List IdentityRow
  pub capabilities : List CapabilityRow
  pub authority_edges : List EdgeRow
  pub capability_delegations : List DelegationRow
  pub authority_events : List EventRow
  pub authority_ledger : List LedgerRow
  pub authority_states : List StateRow
  pub authority_resets : List ResetRow
  pub governance_approvals : List ApprovalRow
  pub committed_approvals : Option (List ApprovalRow)
  pub policy_versions : List PolicyVersionRow
  pub governed_policy_changes : List ChangeRow
  pub policy_controls : List ControlRow
  pub policy_control_actions : List ControlActionRow

abbrev pub empty : Storage
empty = record {
  audit_log = [];
  execution_nonces = [];
  execution_receipts = [];
  identities = [];
  capabilities = [];
  authority_edges = [];
  capability_delegations = [];
  authority_events = [];
  authority_ledger = [];
  authority_states = [];
  authority_resets = [];
  governance_approvals = [];
  committed_approvals = none;
  policy_versions = [];
  governed_policy_changes = [];
  policy_controls = [];
  policy_control_actions = [];
}
