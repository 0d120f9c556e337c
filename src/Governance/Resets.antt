-- ===== src/Governance/Resets.antt =====
-- core/governance.py: `AuthorityGovernanceService` and `multiparty_governance_reset`. Both snapshot an agent under
-- the default authority policy, and a snapshot is stored also where a later test raises.
use verigate.Base.{
  [], ◌∷◌, none, some, false, ok, err, ◌==◌, ◌>>=◌, ◌>>◌, string_eq, nat_eq, lookup_error,
  if◌then◌else◌, Option, ℕ, List, Result, String, Bool, not, contains, ◌+◌, ◌&&◌, leb, ltb,
}
use verigate.Storage.{Storage, ResetRow, EventRow, suspended}
use verigate.Storage.Registries.{capability_of, capability_is_active, identity_is_active}
use verigate.Storage.Events.{latest_authority_reset, authority_events}
use verigate.Storage.Resets.{register_authority_reset}
use verigate.Models.{Capability}
use verigate.Signatures.{Signatures}
use verigate.AuthorityState.{state_eq, snapshot, default_policy, AuthoritySnapshot, critical_events}
use verigate.Governance.{SignedAuthorityReset, verify_authority_reset}
use verigate.Governance.Members.{GovernancePolicy, policy_digest}
use verigate.Governance.Actions.{GovernanceAction, proposal_of}
use verigate.Governance.Quorum.{approval_rows, GovernanceApproval, verify_governance_quorum, refuse}

abbrev pub or_not_found : Option Capability → Result Capability
or_not_found none = err (lookup_error "capability not found")
or_not_found (some c) = ok c

-- `capability.identity_id and not …`
abbrev pub inactive_holder : Option String → ℕ → Storage → Bool
inactive_holder none now s = false
inactive_holder (some id) now s = not (id == "") && not (identity_is_active id now s)

abbrev pub next_epoch : Option ResetRow → ℕ
next_epoch none = 1
next_epoch (some latest) = latest.epoch + 1

abbrev pub not_newer : ℕ → Option ResetRow → Bool
not_newer issued_at none = false
not_newer issued_at (some latest) = leb issued_at latest.issued_at

-- The tests before the snapshot.
unfoldable pub check_target : ResetRow → ℕ → Storage → Result (Unit {0})
unfolding capability_of capability_is_active identity_is_active latest_authority_reset
check_target reset now s = do
  capability ← or_not_found (capability_of reset.capability_id s)
  refuse (not (capability.agent_id == reset.agent_id)) "governance agent does not match capability"
  refuse (not (capability_is_active capability.capability_id now s))
      "cannot reset revoked or expired capability"
  refuse (inactive_holder capability.identity_id now s)
      "cannot reset capability with inactive identity"
  let latest = latest_authority_reset reset.agent_id reset.capability_id s
  refuse (not (reset.epoch == next_epoch latest)) "invalid authority reset epoch"
  refuse (not_newer reset.issued_at latest) "authority reset timestamp is not newer"

-- `max(…, default=0.0)` over the critical events
abbrev pub latest_of : List EventRow → ℕ
latest_of [] = 0
latest_of (e ∷ es) =
    let later = latest_of es in
    if contains critical_events e.event_type && ltb later e.occurred_at
    then e.occurred_at
    else later

-- The tests after it.
unfoldable pub check_suspended : ResetRow → AuthoritySnapshot → Storage → Result (Unit {0})
unfolding state_eq authority_events
check_suspended reset snap s = do
  refuse (not (snap.state == suspended)) "authority reset requires suspended state"
  refuse (leb reset.issued_at (latest_of (authority_events reset.agent_id reset.capability_id 0 s)))
      "governance reset must be issued after the latest critical incident"

-- The snapshot at the time of the reset, which the answer holds.
unfoldable pub refreshed : ResetRow → Result Storage → Storage → Result AuthoritySnapshot × Storage
unfolding snapshot
refreshed reset (err e) s = (err e, s)
refreshed reset (ok s') s =
    let (snap, after) =
      snapshot default_policy reset.agent_id reset.capability_id reset.issued_at s' in
    (ok snap, after)

unfoldable pub registered :
    ResetRow
    → List GovernanceApproval
    → ℕ
    → Result (Unit {0})
    → Storage
    → Result AuthoritySnapshot × Storage
unfolding refreshed register_authority_reset
registered reset approvals now (err e) s = (err e, s)
registered reset approvals now (ok done) s =
    refreshed reset (register_authority_reset reset (approval_rows approvals now) s) s

unfoldable pub apply_if :
    Result (Unit {0})
    → ResetRow
    → List GovernanceApproval
    → ℕ
    → Storage
    → Result AuthoritySnapshot × Storage
unfolding registered check_suspended snapshot
apply_if (err e) reset approvals now s = (err e, s)
apply_if (ok done) reset approvals now s =
    let (snap, s') = snapshot default_policy reset.agent_id reset.capability_id now s in
    registered reset approvals now (check_suspended reset snap s') s'

-- the row of a reset by one governor
abbrev pub single_row : SignedAuthorityReset → ResetRow
single_row document =
    let p = document.payload in
    record {
      reset_id = p.reset_id;
      agent_id = p.agent_id;
      capability_id = p.capability_id;
      governor_id = p.governor_id;
      epoch = p.epoch;
      reason = p.reason;
      issued_at = p.issued_at;
      nonce = p.nonce;
    }

-- the row of a reset by a quorum
abbrev pub multiparty_row : GovernanceAction → ResetRow
multiparty_row a = record {
  reset_id = a.action_id;
  agent_id = a.agent_id;
  capability_id = a.capability_id;
  governor_id = "MULTIPARTY";
  epoch = a.epoch;
  reason = a.reason;
  issued_at = a.issued_at;
  nonce = a.nonce;
}

module _ (crypto : Signatures) where
  -- `AuthorityGovernanceService.reset`
  unfoldable pub reset :
      SignedAuthorityReset → String → ℕ → Storage → Result AuthoritySnapshot × Storage
  unfolding verify_authority_reset check_target apply_if
  reset document governor_public_key now s =
      let verdict = verify_authority_reset crypto document governor_public_key now in
      apply_if (refuse (not verdict.0) verdict.1 >> check_target (single_row document) now s)
        (single_row document) [] now s

  unfoldable pub check_multiparty :
      GovernanceAction
      → List GovernanceApproval
      → GovernancePolicy
      → ℕ
      → Storage
      → Result (Unit {0})
  unfolding verify_governance_quorum policy_digest check_target
  check_multiparty action approvals policy now s = do
    verify_governance_quorum crypto (proposal_of crypto action) approvals policy now
    refuse (not (action.action == "AUTHORITY_RESET")) "unsupported multi-party governance action"
    refuse (not (action.policy_sha256 == policy_digest crypto policy))
        "governance policy fingerprint mismatch"
    refuse (ltb (now + 60) action.issued_at) "governance action is too far in the future"
    check_target (multiparty_row action) now s

  unfoldable pub multiparty_governance_reset :
      GovernanceAction
      → List GovernanceApproval
      → GovernancePolicy
      → ℕ
      → Storage
      → Result AuthoritySnapshot × Storage
  unfolding check_multiparty apply_if
  multiparty_governance_reset action approvals policy now s =
      apply_if (check_multiparty action approvals policy now s) (multiparty_row action) approvals
        now s
