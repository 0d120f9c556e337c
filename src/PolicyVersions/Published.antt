-- ===== src/PolicyVersions/Published.antt =====
-- What `publish` of core/policy_version.py has stored.
use verigate.Base.{
  inl, inr, refl, [], ◌∷◌, ◌++◌, none, some, ok, err, ◌≡◌, ◌==◌, string_eq, nat_eq, option_eq,
  Bool-cases, any, ◌⊎◌, Result, Option, List, Error, ℕ, is_some, false, String, ok-of_guard, true,
  not, Result-cases, ok-of_bind, arith, Option-cases,
}
use verigate.Base.Json.{value_eq}
use verigate.Policy.Version.{SignedPolicyVersion, signed_value, verify_policy_version}
use verigate.Storage.{Storage, ChangeRow, ApprovalRow}
use verigate.Storage.Resets.{insert_approvals}
use verigate.Storage.Policies.{
  register_governed_policy_change, insert_governed, bind_version, insert_change, version_row,
  with_approvals, rolled_back, policy_version_by_sha, already_published, change_clash,
  governed_policy_change_by_sha, latest_governed_policy_version, rolled_back,
}
use verigate.Signatures.{Signatures}
use verigate.PolicyVersions.{
  PolicyChangeGovernanceAction, check_publish, publish, publish_if, change_row, change_proposal,
  matches, check_lineage,
}
use verigate.Governance.Quorum.{GovernanceApproval, approval_rows, verify_governance_quorum}
use verigate.Governance.Members.{GovernancePolicy, policy_digest}
use verigate.Governance.Accepted.{Quorum, verify_governance_quorum_iff}

-- The change is added and nothing is raised, or it is not added and something is raised.
Grown : Result (Unit {0}) → ChangeRow → Storage → Storage → Type 0
Grown r new s s' =
    ((r ≡ ok tt) × (s'.governed_policy_changes ≡ s.governed_policy_changes ++ new ∷ []))
    ⊎ ((e : Error) × (r ≡ err e) × (s'.governed_policy_changes ≡ s.governed_policy_changes))

insert_change-Grown :
    (new : ChangeRow) (before s : Storage)
    → before.governed_policy_changes ≡ s.governed_policy_changes
    → Grown (insert_change new before s).0 new s (insert_change new before s).1
unfolding Grown
insert_change-Grown new before s same =
    elim (Bool-cases (any (change_clash new) s.governed_policy_changes)) [
      | inl clash ↦ inr (already_published, rw clash refl, rw clash same)
      | inr fresh ↦ inl (rw fresh refl, rw fresh refl)
    ]

bind_version-Grown :
    (new : ChangeRow) (existing : Option SignedPolicyVersion) (now : ℕ) (before s : Storage)
    → before.governed_policy_changes ≡ s.governed_policy_changes
    → Grown
        (bind_version new existing now before s).0
        new
        s
        (bind_version new existing now before s).1
unfolding Grown
bind_version-Grown new none now before s same =
    insert_change-Grown new before
      (record s { policy_versions = s.policy_versions ++ version_row new.signed_policy now ∷ [] })
      same
bind_version-Grown new (some existing) now before s same =
    elim (Bool-cases (signed_value existing == signed_value new.signed_policy)) [
      | inl equal ↦ rw equal (insert_change-Grown new before s same)
      | inr differ ↦ rw differ (inr (_, refl, refl))
    ]

rolled_back-changes :
    (s : Storage) → (rolled_back s).governed_policy_changes ≡ s.governed_policy_changes
unfolding rolled_back
rolled_back-changes s = elim (Option-cases s.committed_approvals) [
  | inl n ↦ rw n refl
  | inr (table, e) ↦ rw e refl
]

register-Grown :
    (new : ChangeRow) (rows : List ApprovalRow) (now : ℕ) (s : Storage)
    → Grown
        (register_governed_policy_change new rows now s).0
        new
        s
        (register_governed_policy_change new rows now s).1
unfolding Grown register_governed_policy_change
register-Grown new rows now s = go (insert_approvals rows s.governance_approvals)
  where
    go :
        (table : Option (List ApprovalRow))
        → Grown (insert_governed new table now s).0 new s (insert_governed new table now s).1
    go none = inr (already_published, refl, rolled_back-changes s)
    go (some table) =
        bind_version-Grown new (policy_version_by_sha new.policy_sha256 s) now (rolled_back s)
          (with_approvals table s) (rolled_back-changes s)

module _ (crypto : Signatures) where
  -- A signed version that a quorum has approved, and that comes next in its policy's lineage.
  pub record Approves (document : SignedPolicyVersion) (a : PolicyChangeGovernanceAction)
      (approvals : List GovernanceApproval) (policy : GovernancePolicy) (issuer_public_key : String)
      (now : ℕ) (s : Storage) : Type 0 where
    pub issued : (verify_policy_version crypto document issuer_public_key).0 ≡ true
    pub quorum : Quorum crypto policy now (change_proposal crypto a) approvals
    pub same_version : matches crypto document a ≡ true
    pub unpublished : governed_policy_change_by_sha document.payload.policy_sha256 s ≡ none
    pub lineage :
        check_lineage document.payload.version document.payload.parent_sha256
          (latest_governed_policy_version document.payload.policy_id s)
        ≡ ok tt

  is_none_of : (o : Option ChangeRow) → is_some o ≡ false → o ≡ none
  is_none_of none h = refl
  is_none_of (some row) h = cc

  check_publish-Approves :
      (document : SignedPolicyVersion) (a : PolicyChangeGovernanceAction)
      (approvals : List GovernanceApproval) (policy : GovernancePolicy) (issuer_public_key : String)
      (now : ℕ) (s : Storage)
      → check_publish crypto document a approvals policy issuer_public_key now s ≡ ok tt
      → Approves document a approvals policy issuer_public_key now s
  unfolding check_publish
  check_publish-Approves document a approvals policy issuer_public_key now s h =
      let (verified, h1) =
        ok-of_guard (not (verify_policy_version crypto document issuer_public_key).0) _ _ h in
      let (done, quorum, h2) =
        ok-of_bind (verify_governance_quorum crypto (change_proposal crypto a) approvals policy now)
          _ h1 in
      let (same, h3) = ok-of_guard (not (matches crypto document a)) _ _ h2 in
      let (policy_same, h4) =
        ok-of_guard (not (a.governance_policy_sha256 == policy_digest crypto policy)) _ _ h3 in
      let (fresh, lineage) =
        ok-of_guard (is_some (governed_policy_change_by_sha document.payload.policy_sha256 s)) _ _
          h4 in
      record {
        issued = ground arith;
        quorum =
            (verify_governance_quorum_iff crypto policy now (change_proposal crypto a) approvals).0
              quorum;
        same_version = ground arith;
        unpublished = is_none_of _ fresh;
        lineage = lineage;
      }

  pub publish_cases :
      (document : SignedPolicyVersion) (a : PolicyChangeGovernanceAction)
      (approvals : List GovernanceApproval) (policy : GovernancePolicy) (issuer_public_key : String)
      (now : ℕ) (s : Storage)
      → (((publish crypto document a approvals policy issuer_public_key now s).0 ≡ ok tt)
          × ((publish crypto document a approvals policy issuer_public_key now
                s).1.governed_policy_changes
              ≡ s.governed_policy_changes ++ change_row document a now ∷ [])
          × Approves document a approvals policy issuer_public_key now s)
        ⊎ ((e : Error) × ((publish crypto document a approvals policy issuer_public_key now s).0
              ≡ err e)
            × ((publish crypto document a approvals policy issuer_public_key now
                  s).1.governed_policy_changes
                ≡ s.governed_policy_changes))
  unfolding publish publish_if Grown
  publish_cases document a approvals policy issuer_public_key now s =
      elim (Result-cases
        (check_publish crypto document a approvals policy issuer_public_key now s)) [
          | inr (e, refused) ↦ inr (e, rw refused refl, rw refused refl)
          | inl (done, passed) ↦
              rw passed
                (elim (register-Grown (change_row document a now) (approval_rows approvals now) now
                  s) [
                    | inr (e, raised, kept) ↦ inr (e, raised, kept)
                    | inl (returned, grown) ↦ inl (
                      returned,
                      grown,
                      check_publish-Approves document a approvals policy issuer_public_key now s
                          passed,
                    )
                  ])
        ]
