-- ===== src/PolicyVersions/Lineage.antt =====
-- The lineage that `publish` of core/policy_version.py gives the governed versions of a policy.
use verigate.Base.{
  all-up_to_le, inl, inr, refl, [], ◌∷◌, ◌++◌, none, some, true, suc, ok, ◌≡◌, ◌==◌, string_eq,
  nat_eq, option_eq, arith, Bool-cases, Option-cases, all, ◌+◌, where_rows, where_rows-append_kept,
  where_rows-append_left_out, order_by, order_by-append, last_row, last_row-order_by,
  last_row-order_by-none, up_to, ℕ, String, Option, List, Bool,
}
use verigate.Signatures.{Signatures}
use verigate.Policy.Version.{SignedPolicyVersion}
use verigate.Storage.{Storage, ChangeRow}
use verigate.Storage.Policies.{latest_governed_policy_version}
use verigate.Governance.Members.{GovernancePolicy}
use verigate.Governance.Quorum.{GovernanceApproval}
use verigate.PolicyVersions.{PolicyChangeGovernanceAction, publish, check_lineage, change_row}
use verigate.PolicyVersions.Published.{publish_cases}

abbrev version_of : ChangeRow → ℕ
version_of row = row.version

abbrev of_policy : String → ChangeRow → Bool
of_policy policy_id row = row.policy_id == policy_id

-- Versions `n`, `n + 1` and so on, each with the digest of the one before as its parent.
unfoldable pub Chain : ℕ → Option String → List ChangeRow → Type 0
Chain n parent [] = Unit
Chain n parent (row ∷ rows) =
    (row.version ≡ n) × (row.parent_sha256 ≡ parent) × Chain (suc n) (some row.policy_sha256) rows

-- The governed versions of a policy, from 1.
unfoldable pub Lineage : String → Storage → Type 0
Lineage policy_id s =
    Chain 1 none (order_by version_of (where_rows (of_policy policy_id) s.governed_policy_changes))

-- What `check_lineage` has tested of a row.
Follows : ℕ → Option String → ChangeRow → Option ChangeRow → Type 0
Follows n parent new none = (new.version ≡ n) × (new.parent_sha256 ≡ parent)
Follows n parent new (some latest) =
    (new.version ≡ latest.version + 1) × (new.parent_sha256 ≡ some latest.policy_sha256)

-- Behind a row, where the numbering began does not matter.
Follows-later :
    (n m : ℕ) (p q : Option String) (new row : ChangeRow) (rows : List ChangeRow)
    → Follows n p new (last_row (row ∷ rows))
    → Follows m q new (last_row (row ∷ rows))
unfolding Follows
Follows-later n m p q new row [] follows = follows
Follows-later n m p q new row (second ∷ rows) follows =
    Follows-later n m p q new second rows follows

Chain-append :
    (n : ℕ) (parent : Option String) (rows : List ChangeRow) (new : ChangeRow)
    → Chain n parent rows
    → Follows n parent new (last_row rows)
    → Chain n parent (rows ++ new ∷ [])
unfolding Chain Follows
Chain-append n parent [] new chain (version, before) = (version, before, tt)
Chain-append n parent (row ∷ []) new (at, up, rest) (version, before) =
    (at, up, (omega arith, before, tt))
Chain-append n parent (row ∷ second ∷ rows) new (at, up, rest) follows = (
  at,
  up,
  Chain-append (suc n) (some row.policy_sha256) (second ∷ rows) new rest
      (Follows-later n (suc n) parent (some row.policy_sha256) new second rows follows),
)

check_lineage-Follows :
    (new : ChangeRow) (latest : Option ChangeRow)
    → check_lineage new.version new.parent_sha256 latest ≡ ok tt
    → Follows 1 none new latest
unfolding check_lineage Follows
check_lineage-Follows new none h = (ground arith, ground arith)
check_lineage-Follows new (some latest) h = (ground arith, ground arith)

below_new :
    (new : ChangeRow) (rows : List ChangeRow)
    → Follows 1 none new (last_row (order_by version_of rows))
    → all (up_to version_of new.version) rows ≡ true
unfolding Follows
below_new new rows follows = elim (Option-cases (last_row (order_by version_of rows))) [
  | inl nothing ↦ rw (last_row-order_by-none version_of rows nothing) refl
  | inr (latest, found) ↦
      (let (version, parent) = rw found at follows in
        all-up_to_le version_of latest.version new.version rows (omega arith)
          (last_row-order_by version_of rows latest found))
]

Lineage-append :
    (policy_id : String) (new : ChangeRow) (s s' : Storage)
    → s'.governed_policy_changes ≡ s.governed_policy_changes ++ new ∷ []
    → check_lineage new.version new.parent_sha256 (latest_governed_policy_version new.policy_id s)
      ≡ ok tt
    → Lineage policy_id s
    → Lineage policy_id s'
unfolding Lineage latest_governed_policy_version
Lineage-append policy_id new s s' added tested lineage =
    let rows = where_rows (of_policy policy_id) s.governed_policy_changes in
    elim (Bool-cases (new.policy_id == policy_id)) [
      | inr other ↦
          rw
            (
              added,
              where_rows-append_left_out (of_policy policy_id) s.governed_policy_changes new other,
            )
            lineage
      | inl own ↦
          (let same : new.policy_id ≡ policy_id = ground arith in
            let follows =
              check_lineage-Follows new (last_row (order_by version_of rows)) (rw same at tested) in
            rw
              (
                added,
                where_rows-append_kept (of_policy policy_id) s.governed_policy_changes new own,
                order_by-append version_of rows new (below_new new rows follows),
              )
              (Chain-append 1 none (order_by version_of rows) new lineage follows))
    ]

module _ (crypto : Signatures) where
  -- Whatever `publish` answers, the governed versions of every policy stay numbered 1, 2 and so on without a gap or a
  -- repetition, each with the digest of the one before as its parent.
  pub publish-Lineage :
      (document : SignedPolicyVersion) (a : PolicyChangeGovernanceAction)
      (approvals : List GovernanceApproval) (policy : GovernancePolicy) (issuer_public_key : String)
      (now : ℕ) (s : Storage) (policy_id : String)
      → Lineage policy_id s
      → Lineage policy_id (publish crypto document a approvals policy issuer_public_key now s).1
  unfolding Lineage
  publish-Lineage document a approvals policy issuer_public_key now s policy_id lineage =
      elim (publish_cases crypto document a approvals policy issuer_public_key now s) [
        | inr (e, raised, kept) ↦ rw kept lineage
        | inl (returned, grown, approved) ↦
            Lineage-append policy_id (change_row document a now) s
              (publish crypto document a approvals policy issuer_public_key now s).1 grown
              approved.lineage lineage
      ]
