-- ===== src/Governance/Cases.antt =====
-- What `AuthorityGovernanceService.reset` and `multiparty_governance_reset` of core/governance.py have done once they
-- return.
use verigate.Base.{
  [], true, ok, err, ◌≡◌, ◌==◌, ◌>>◌, string_eq, nat_eq, arith, ok-of_bind, ok-of_guard, ℕ, List,
  ◌+◌, not, ltb, String, Error, ◌⊎◌,
}
use verigate.Storage.{Storage}
use verigate.Signatures.{Signatures}
use verigate.AuthorityState.{state_eq, AuthoritySnapshot}
use verigate.Governance.Members.{GovernancePolicy, policy_digest}
use verigate.Governance.Accepted.{Quorum, verify_governance_quorum_iff}
use verigate.Governance.Actions.{GovernanceAction, proposal_of}
use verigate.Governance.Quorum.{verify_governance_quorum, refuse, GovernanceApproval}
use verigate.Governance.{SignedAuthorityReset, verify_authority_reset}
use verigate.Governance.Resets.{
  reset, single_row, multiparty_row, check_multiparty, multiparty_governance_reset, check_target,
}
use verigate.Governance.Applied.{Lifted, apply_if_cases}

module _ (crypto : Signatures) where
  check_multiparty_sound :
      (action : GovernanceAction) (approvals : List GovernanceApproval) (policy : GovernancePolicy)
      (now : ℕ) (s : Storage)
      → check_multiparty crypto action approvals policy now s ≡ ok tt
      → ((action.action ≡ "AUTHORITY_RESET")
          × Quorum crypto policy now (proposal_of crypto action) approvals)
        × (check_target (multiparty_row action) now s ≡ ok tt)
  unfolding check_multiparty
  check_multiparty_sound action approvals policy now s h =
      let (done, quorum, h1) =
        ok-of_bind
          (verify_governance_quorum crypto (proposal_of crypto action) approvals policy now) _ h in
      let (reset, h2) = ok-of_guard (not (action.action == "AUTHORITY_RESET")) _ _ h1 in
      let (same, h3) =
        ok-of_guard (not (action.policy_sha256 == policy_digest crypto policy)) _ _ h2 in
      let (future, target) = ok-of_guard (ltb (now + 60) action.issued_at) _ _ h3 in
      (
        (
          ground arith,
          (verify_governance_quorum_iff crypto policy now (proposal_of crypto action) approvals).0
              quorum,
        ),
        target,
      )

  -- A reset by several governors either succeeds, and then a quorum of the policy has approved this very reset and the
  -- agent is no longer suspended, its capability being active and the reset being the next one and younger than every
  -- critical event; or it raises, and no reset and no approval has been recorded.
  pub multiparty_governance_reset_cases :
      (action : GovernanceAction) (approvals : List GovernanceApproval) (policy : GovernancePolicy)
      (now : ℕ) (s : Storage)
      → ((snap : AuthoritySnapshot) × (s' : Storage) × (multiparty_governance_reset crypto action
              approvals policy now s
            ≡ (ok snap, s'))
          × ((action.action ≡ "AUTHORITY_RESET")
              × Quorum crypto policy now (proposal_of crypto action) approvals)
          × Lifted (multiparty_row action) now s s' snap)
        ⊎ ((e : Error) × (s' : Storage) × (multiparty_governance_reset crypto action approvals
                policy now s
              ≡ (err e, s'))
            × (s'.authority_resets ≡ s.authority_resets)
            × (s'.governance_approvals ≡ s.governance_approvals))
  unfolding multiparty_governance_reset
  multiparty_governance_reset_cases action approvals policy now s =
      apply_if_cases (check_multiparty crypto action approvals policy now s) (multiparty_row action)
        approvals now s (check_multiparty_sound action approvals policy now s)

  -- A reset by one governor either succeeds, and then its document is signed with the governor's key and the agent is no
  -- longer suspended, its capability being active and the reset being the next one and younger than every critical
  -- event; or it raises, and no reset has been recorded.
  reset_cases :
      (document : SignedAuthorityReset) (governor_public_key : String) (now : ℕ) (s : Storage)
      → ((snap : AuthoritySnapshot) × (s' : Storage) × (reset crypto document governor_public_key
              now s
            ≡ (ok snap, s'))
          × ((verify_authority_reset crypto document governor_public_key now).0 ≡ true)
          × Lifted (single_row document) now s s' snap)
        ⊎ ((e : Error) × (s' : Storage) × (reset crypto document governor_public_key now s
              ≡ (err e, s'))
            × (s'.authority_resets ≡ s.authority_resets)
            × (s'.governance_approvals ≡ s.governance_approvals))
  unfolding reset
  reset_cases document governor_public_key now s =
      let verdict = verify_authority_reset crypto document governor_public_key now in
      apply_if_cases (refuse (not verdict.0) verdict.1 >> check_target (single_row document) now s)
        (single_row document) [] now s
        (λ h. (let (valid, target) = ok-of_guard (not verdict.0) _ _ h in (ground arith, target)))
