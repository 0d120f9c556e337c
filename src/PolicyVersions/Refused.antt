-- ===== src/PolicyVersions/Refused.antt =====
-- What a publication that is refused for the content of a stored version leaves behind.
use verigate.Base.{
  inl, inr, refl, [], ◌∷◌, ◌++◌, some, true, false, ok, err, ◌≡◌, ◌==◌, string_eq, arith, any,
  any-append, ◌∙◌, value_error, String, List, Bool, Bool-cases, ℕ, Result, ==_refl, none, ap,
}
use verigate.Base.Json.{value_eq}
use verigate.Signatures.{Signatures}
use verigate.Policy.Version.{SignedPolicyVersion, signed_value}
use verigate.Storage.{Storage, ChangeRow, ApprovalRow}
use verigate.Storage.Resets.{insert_approvals, approval_clash}
use verigate.Storage.Policies.{
  register_governed_policy_change, insert_governed, policy_version_by_sha, already_published,
  with_approvals, rolled_back,
}
use verigate.Governance.Members.{GovernancePolicy}
use verigate.Governance.Quorum.{approval_row, GovernanceApproval, approval_rows}
use verigate.PolicyVersions.{
  PolicyChangeGovernanceAction, publish, publish_if, check_publish, change_row,
}

abbrev has_id : String → ApprovalRow → Bool
has_id id row = row.approval_id == id

kept_id :
    (id : String) (rows table table' : List ApprovalRow)
    → insert_approvals rows table ≡ some table'
    → any (has_id id) table ≡ true
    → any (has_id id) table' ≡ true
kept_id id [] table table' h found = ground arith
kept_id id (row ∷ rows) table table' h found =
    kept_id id rows (table ++ row ∷ []) table' (ground arith)
      (any-append (has_id id) table (row ∷ []) ∙ ground arith)

clash_of_id :
    (new : ApprovalRow) (table : List ApprovalRow)
    → any (has_id new.approval_id) table ≡ true
    → any (approval_clash new) table ≡ true
clash_of_id new [] h = h
clash_of_id new (row ∷ rows) h = ground (arith, clash_of_id new rows)

-- The first row of an insert that succeeded is in the table.
first_kept :
    (row : ApprovalRow) (rows table table' : List ApprovalRow)
    → insert_approvals (row ∷ rows) table ≡ some table'
    → any (has_id row.approval_id) table' ≡ true
first_kept row rows table table' h = elim (Bool-cases (any (approval_clash row) table)) [
  | inl clash ↦ (let h' = rw clash at h in cc)
  | inr fresh ↦ kept_id row.approval_id rows (table ++ row ∷ []) table' (rw fresh at h) (
      any-append (has_id row.approval_id) table (row ∷ [])
      ∙ ground (arith, ==_refl row.approval_id))
]

register-used :
    (new : ChangeRow) (row : ApprovalRow) (rows : List ApprovalRow) (now : ℕ) (s : Storage)
    → any (has_id row.approval_id) s.governance_approvals ≡ true
    → register_governed_policy_change new (row ∷ rows) now s
      ≡ (err already_published, rolled_back s)
unfolding register_governed_policy_change insert_governed
register-used new row rows now s used = rw (clash_of_id row s.governance_approvals used) refl

publish_if-used :
    (crypto : Signatures) (tests : Result (Unit {0})) (new : ChangeRow)
    (approval : GovernanceApproval) (rest : List GovernanceApproval) (now : ℕ) (s : Storage)
    → any (has_id approval.approval_id) s.governance_approvals ≡ true
    → ¬ ((publish_if crypto tests new (approval ∷ rest) now s).0 ≡ ok tt)
unfolding publish_if
publish_if-used crypto (err e) new approval rest now s used h = cc
publish_if-used crypto (ok done) new approval rest now s used h =
    let refused =
      ap (λ (x : Result (Unit {0}) × Storage). x.0)
        (register-used new (approval_row approval now) (approval_rows rest now) now s used) in
    cc (refused, h)

register-bound :
    (new : ChangeRow) (rows table : List ApprovalRow) (existing : SignedPolicyVersion) (now : ℕ)
    (s : Storage)
    → insert_approvals rows s.governance_approvals ≡ some table
    → policy_version_by_sha new.policy_sha256 s ≡ some existing
    → (signed_value existing == signed_value new.signed_policy) ≡ false
    → register_governed_policy_change new rows now s ≡ (
      err (value_error "policy digest is already bound to different signed policy content"),
      with_approvals table s,
    )
unfolding register_governed_policy_change insert_governed
register-bound new rows table existing now s inserted found differ =
    rw (inserted, found, differ) refl

module _ (crypto : Signatures) where
  -- Where every test of `publish` passes and its approvals are new, but another document is stored under the policy's
  -- digest, and no transaction is open, `publish` raises and leaves its approvals uncommitted in the store. No call with
  -- these approvals succeeds where they are still in the store, whatever its document and action. A call right after the
  -- first whose own tests pass rolls back, and the approvals are again those before the first.
  pub refused_publish_spends_approvals :
      (document document' : SignedPolicyVersion) (a a' : PolicyChangeGovernanceAction)
      (approval : GovernanceApproval) (rest : List GovernanceApproval)
      (policy policy' : GovernancePolicy) (key key' : String) (now now' : ℕ) (s : Storage)
      (table : List ApprovalRow) (existing : SignedPolicyVersion)
      → s.committed_approvals ≡ none
      → check_publish crypto document a (approval ∷ rest) policy key now s ≡ ok tt
      → insert_approvals (approval_rows (approval ∷ rest) now) s.governance_approvals ≡ some table
      → policy_version_by_sha document.payload.policy_sha256 s ≡ some existing
      → (signed_value existing == signed_value document) ≡ false
      → ((publish crypto document a (approval ∷ rest) policy key now s).0
          ≡ err (value_error "policy digest is already bound to different signed policy content"))
        × ((s' : Storage)
            → s'.governance_approvals
              ≡ (publish crypto document a
                  (approval ∷ rest)
                  policy
                  key
                  now
                  s).1.governance_approvals
            → ¬ ((publish crypto document' a' (approval ∷ rest) policy' key' now' s').0 ≡ ok tt))
        × (check_publish crypto document' a'
                (approval ∷ rest)
                policy'
                key'
                now'
                (publish crypto document a (approval ∷ rest) policy key now s).1
              ≡ ok tt
            → (publish crypto document' a'
                (approval ∷ rest)
                policy'
                key'
                now'
                (publish crypto document a
                  (approval ∷ rest)
                  policy
                  key
                  now
                  s).1).1.governance_approvals
              ≡ s.governance_approvals)
  unfolding publish publish_if rolled_back
  refused_publish_spends_approvals document document' a a' approval rest policy policy' key key' now
        now' s table existing closed passed inserted found differ =
      let run =
        register-bound (change_row document a now) (approval_rows (approval ∷ rest) now) table
          existing now s inserted found differ in
      let used =
        first_kept (approval_row approval now) (approval_rows rest now) s.governance_approvals table
          inserted in
      let first : publish crypto document a (approval ∷ rest) policy key now s ≡ (
        err (value_error "policy digest is already bound to different signed policy content"),
        with_approvals table s,
      ) =
        rw (passed, run) refl in
      (
        ap (λ x. x.0) first,
        λ s' kept.
            (let left : s'.governance_approvals ≡ table =
                kept ∙ ap (λ x. x.1.governance_approvals) first in
              publish_if-used crypto
                (check_publish crypto document' a' (approval ∷ rest) policy' key' now' s')
                (change_row document' a' now') approval rest now' s' (rw left used)),
        rw first (λ again. rw again (
            rw
              (register-used (change_row document' a' now') (approval_row approval now')
                (approval_rows rest now') now' (with_approvals table s) used)
              (rw closed refl))),
      )
