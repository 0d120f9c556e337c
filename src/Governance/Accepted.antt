-- ===== src/Governance/Accepted.antt =====
-- The quorums that `verify_governance_quorum` of core/governance.py accepts.
use verigate.Base.{
  refl, [], ◌∷◌, true, false, ok, ◌≡◌, ◌==◌, string_eq, nat_eq, arith, ok-of_guard, ◌↔◌, ◌≤◌, ◌<◌,
  List, String, ℕ, count_rows, ◌||◌, contains, has_duplicate, ◌+◌, length, ltb, ok-of_bind,
}
use verigate.Signatures.{Signatures}
use verigate.Governance.{clock_skew}
use verigate.Governance.Members.{GovernancePolicy, validate, policy_digest}
use verigate.Governance.Actions.{Proposal}
use verigate.Governance.Quorum.{
  check_action, GovernanceApproval, tally_approvals, Tally, counted, roles_present,
  verify_governance_quorum, no_approvals, bad_epoch, bad_names,
}
use verigate.Governance.Approved.{
  AllApproved, tally_sound, tally_complete, distinct_start, governors, nonces, in_role,
}

-- Every required role has its number of approvals.
pub RolesMet : List (String × ℕ) → List GovernanceApproval → Type 0
RolesMet [] approvals = Unit
RolesMet ((role, minimum) ∷ rest) approvals =
    (minimum ≤ count_rows (in_role role) approvals) × RolesMet rest approvals

module _ (crypto : Signatures) (policy : GovernancePolicy) (now : ℕ) where
  -- An action of the policy, in time; a reset names its epoch, agent and capability.
  pub record Proposed (a : Proposal) : Type 0 where
    pub named : (a.action == "" || a.action_id == "" || a.reason == "" || a.nonce == "") ≡ false
    pub fingerprint : (a.governance_policy_sha256 == "") ≡ false
    pub of_policy : (a.governance_policy_sha256 == policy_digest crypto policy) ≡ true
    pub allowed : contains policy.allowed_actions a.action ≡ true
    pub issued : a.issued_at ≤ now + clock_skew
    pub unexpired : now < a.expires_at
    pub lasting : a.issued_at < a.expires_at
    pub short : a.expires_at ≤ a.issued_at + policy.max_approval_lifetime_seconds
    pub epoch : a.action ≡ "AUTHORITY_RESET" → bad_epoch a.target ≡ false
    pub target : a.action ≡ "AUTHORITY_RESET" → bad_names a.target ≡ false

  check_action-Proposed : (a : Proposal) → check_action crypto a policy now ≡ ok tt → Proposed a
  unfolding check_action
  check_action-Proposed a h = record {
    named = ground arith;
    fingerprint = ground arith;
    of_policy = ground arith;
    allowed = ground arith;
    issued = ground arith;
    unexpired = ground arith;
    lasting = ground arith;
    short = ground arith;
    epoch = λ is_reset. ground arith;
    target = λ is_reset. ground arith;
  }

  Proposed-check_action : (a : Proposal) → Proposed a → check_action crypto a policy now ≡ ok tt
  unfolding check_action
  Proposed-check_action a p = ground (
    arith, p.named, p.fingerprint, p.of_policy, p.allowed, p.issued, p.unexpired, p.lasting,
    p.short, p.epoch, p.target,
  )

  roles_present_lem :
      (required : List (String × ℕ)) (approvals : List GovernanceApproval) (t : Tally)
      → ((role : String) → counted role t.roles ≡ count_rows (in_role role) approvals)
      → (roles_present required t ≡ ok tt) ↔ RolesMet required approvals
  unfolding RolesMet
  roles_present_lem [] approvals t h = (λ e. tt, λ e. refl)
  roles_present_lem ((role, minimum) ∷ rest) approvals t h =
      let ih = roles_present_lem rest approvals t h in
      (
        λ e.
            (let (enough, e') = ok-of_guard (ltb (counted role t.roles) minimum) _ _ e in
              (ground (arith, h role), ih.0 e')),
        λ (enough, met). ground (arith, h role, ih.1 met),
      )

  -- Enough distinct members of a valid policy have approved an action of it.
  pub record Quorum (action : Proposal) (approvals : List GovernanceApproval) : Type 0 where
    pub valid_policy : validate crypto policy ≡ ok tt
    pub proposed : Proposed action
    pub approved : AllApproved crypto policy now action.digest approvals
    pub signers_differ : has_duplicate (governors approvals) ≡ false
    pub nonces_differ : has_duplicate (nonces approvals) ≡ false
    pub reached : policy.threshold ≤ length approvals
    pub roles : RolesMet policy.required_roles approvals

  Quorum-sound :
      (action : Proposal) (approvals : List GovernanceApproval)
      → verify_governance_quorum crypto action approvals policy now ≡ ok tt
      → Quorum action approvals
  unfolding verify_governance_quorum
  Quorum-sound action approvals h =
      let (done, valid, h1) = ok-of_bind (validate crypto policy) _ h in
      let (done', proposed, h2) = ok-of_bind (check_action crypto action policy now) _ h1 in
      let digest = action.digest in
      let (t, tally, h3) =
        ok-of_bind (tally_approvals crypto policy digest now approvals no_approvals) _ h2 in
      let (reached, roles) = ok-of_guard (ltb t.valid policy.threshold) _ _ h3 in
      let all = tally_sound crypto policy now valid digest approvals no_approvals t tally in
      record {
        valid_policy = valid;
        proposed = check_action-Proposed action proposed;
        approved = all.approved;
        signers_differ = ground (arith, distinct_start (governors approvals), all.signers);
        nonces_differ = ground (arith, distinct_start (nonces approvals), all.used);
        reached = ground (arith, all.valid);
        roles =
            (roles_present_lem policy.required_roles approvals t
                (λ role. omega (arith, all.roles role))).0
              roles;
      }

  Quorum-complete :
      (action : Proposal) (approvals : List GovernanceApproval)
      → Quorum action approvals
      → verify_governance_quorum crypto action approvals policy now ≡ ok tt
  unfolding verify_governance_quorum
  Quorum-complete action approvals q =
      let digest = action.digest in
      let (t, tally) =
        tally_complete crypto policy now q.valid_policy digest approvals no_approvals q.approved
          (ground (arith, distinct_start (governors approvals), q.signers_differ))
          (ground (arith, distinct_start (nonces approvals), q.nonces_differ)) in
      let all =
        tally_sound crypto policy now q.valid_policy digest approvals no_approvals t tally in
      let reached : ltb t.valid policy.threshold ≡ false = ground (arith, all.valid, q.reached) in
      rw q.valid_policy (
        rw (Proposed-check_action action q.proposed) (
          rw tally (
            rw reached (
              (roles_present_lem policy.required_roles approvals t
                  (λ role. omega (arith, all.roles role))).1
                q.roles))))

  -- `verify_governance_quorum` accepts exactly the actions in time that name the digest of a valid policy and that
  -- at least its threshold of approvals support, every one of them in time, of this very action, and signed with
  -- the key of a member in the member's role; no two of them have the same governor or the same nonce, and each
  -- required role has its number of approvals.
  pub verify_governance_quorum_iff :
      (action : Proposal) (approvals : List GovernanceApproval)
      → (verify_governance_quorum crypto action approvals policy now ≡ ok tt)
        ↔ Quorum action approvals
  verify_governance_quorum_iff action approvals =
      (Quorum-sound action approvals, Quorum-complete action approvals)
