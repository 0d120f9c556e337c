-- ===== src/PolicyVersions/Controlled.antt =====
-- What `GovernedPolicyControlService.apply` of core/policy_version.py has done once it returns.
use verigate.Base.{
  some, true, false, ok, ◌≡◌, ◌==◌, string_eq, nat_eq, option_eq, arith, ok-of_bind, ok-of_guard,
  String, List, not, ℕ, is_some, contains,
}
use verigate.Signatures.{Signatures}
use verigate.Storage.{Storage, ControlRow, ControlActionRow}
use verigate.Storage.Policies.{
  policy_control, policy_control_action, apply_policy_control, set_control,
}
use verigate.Governance.Members.{GovernancePolicy, policy_digest}
use verigate.Governance.Quorum.{GovernanceApproval, verify_governance_quorum}
use verigate.Governance.Accepted.{Quorum, verify_governance_quorum_iff}
use verigate.PolicyVersions.Control.{
  control_row, control_action_row, PolicyControlGovernanceAction, apply, control_proposal,
  control_kinds, active_sha, is_frozen, decide_control,
}
use verigate.PolicyVersions.Decided.{
  Governed, decide_control-Decided, set_control-own, set_control-other,
}

module _ (crypto : Signatures) where
  -- A quorum's control of a governed policy.
  pub record Controlled (a : PolicyControlGovernanceAction) (approvals : List GovernanceApproval)
      (policy : GovernancePolicy) (now : ℕ) (s s' : Storage) : Type 0 where
    pub quorum : Quorum crypto policy now (control_proposal crypto a) approvals
    pub first_use : is_some (policy_control_action a.action_id s) ≡ false
    pub kind : contains control_kinds a.action ≡ true
    pub control : ControlRow
    pub recorded : policy_control a.policy_id s' ≡ some control
    pub was_governed : Governed a.policy_id a.current_policy_sha256 s
    pub governed : Governed a.policy_id control.active_policy_sha256 s
    pub current :
        active_sha a.current_policy_sha256 (policy_control a.policy_id s) ≡ a.current_policy_sha256
    pub freezes : control.frozen ≡ (a.action == "POLICY_FREEZE")
    pub freeze :
        a.action ≡ "POLICY_FREEZE"
        → (control.active_policy_sha256 ≡ a.current_policy_sha256)
          × (is_frozen (policy_control a.policy_id s) ≡ false)
    pub rollback :
        ¬ (a.action ≡ "POLICY_FREEZE") → ¬ (control.active_policy_sha256 ≡ a.current_policy_sha256)
    pub others :
        (policy_id : String)
        → (a.policy_id == policy_id) ≡ false
        → policy_control policy_id s' ≡ policy_control policy_id s

  control_recorded :
      (new : ControlRow) (action : ControlActionRow) (s s' : Storage)
      → apply_policy_control new action s ≡ ok s'
      → s'.policy_controls ≡ set_control new s.policy_controls
  unfolding apply_policy_control
  control_recorded new action s s' h = ground arith

  -- Where `apply` returns a store, a quorum has approved the action, which is new and a freeze or a rollback and names
  -- the active version; the control then has a governed version of the same policy, which a freeze keeps, of a policy
  -- that was not frozen, and a rollback changes; it is frozen exactly after a freeze, and no other policy's control
  -- changes.
  pub apply-Controlled :
      (a : PolicyControlGovernanceAction) (approvals : List GovernanceApproval)
      (policy : GovernancePolicy) (now : ℕ) (s s' : Storage)
      → apply crypto a approvals policy now s ≡ ok s'
      → Controlled a approvals policy now s s'
  unfolding apply policy_control
  apply-Controlled a approvals policy now s s' h =
      let (done, quorum, h1) =
        ok-of_bind
          (verify_governance_quorum crypto (control_proposal crypto a) approvals policy now) _ h in
      let (first_use, h2) = ok-of_guard (is_some (policy_control_action a.action_id s)) _ _ h1 in
      let (kind, h3) = ok-of_guard (not (contains control_kinds a.action)) _ _ h2 in
      let (policy_same, h4) =
        ok-of_guard (not (a.governance_policy_sha256 == policy_digest crypto policy)) _ _ h3 in
      let ((active, frozen), outcome, h5) = ok-of_bind (decide_control a s) _ h4 in
      let decided = decide_control-Decided a s active frozen outcome in
      let new = control_row crypto a (active, frozen) now in
      let stored = control_recorded new (control_action_row crypto a now) s s' h5 in
      record {
        quorum =
            (verify_governance_quorum_iff crypto policy now (control_proposal crypto a) approvals).0
              quorum;
        first_use = first_use;
        kind = ground arith;
        control = new;
        recorded = rw stored (set_control-own new s.policy_controls);
        was_governed = decided.was_governed;
        governed = decided.governed;
        current = decided.current;
        freezes = decided.freezes;
        freeze = decided.freeze;
        rollback = decided.rollback;
        others =
            λ policy_id other. rw stored (set_control-other new policy_id s.policy_controls other);
      }
