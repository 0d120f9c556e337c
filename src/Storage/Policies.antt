-- ===== src/Storage/Policies.antt =====
-- core/storage.py: signed policy versions, the governed changes of a policy and its controls. Of an envelope the row
-- holds the signed version.
use verigate.Base.{
  [], ◌∷◌, ◌++◌, none, some, ok, err, ◌==◌, string_eq, nat_eq, any, value_error, first_row,
  where_rows, order_by, last_row, ℕ, String, Option, List, Bool, Result, Error, not, if◌then◌else◌,
  ◌||◌,
}
use verigate.Base.Json.{value_eq}
use verigate.Policy.Version.{SignedPolicyVersion, signed_value}
use verigate.Storage.{
  Storage, PolicyVersionRow, ChangeRow, ControlRow, ControlActionRow, ApprovalRow,
}
use verigate.Storage.Resets.{insert_approvals}

abbrev pub version_row : SignedPolicyVersion → ℕ → PolicyVersionRow
version_row document now = record {
  policy_sha256 = document.payload.policy_sha256;
  policy_id = document.payload.policy_id;
  version = document.payload.version;
  source_ref = document.payload.source_ref;
  signed_policy = document;
  created_at = now;
}

abbrev pub of_digest : String → PolicyVersionRow → Bool
of_digest policy_sha256 row = row.policy_sha256 == policy_sha256

-- `INSERT OR REPLACE`
unfoldable pub register_policy_version : SignedPolicyVersion → ℕ → Storage → Storage
register_policy_version document now s = record s {
  policy_versions =
      where_rows (λ row. not (of_digest document.payload.policy_sha256 row)) s.policy_versions
      ++ version_row document now ∷ [];
}

abbrev signed_of : Option PolicyVersionRow → Option SignedPolicyVersion
signed_of none = none
signed_of (some row) = some row.signed_policy

unfoldable pub policy_version_by_sha : String → Storage → Option SignedPolicyVersion
policy_version_by_sha policy_sha256 s =
    signed_of (first_row (of_digest policy_sha256) s.policy_versions)

unfoldable pub governed_policy_change_by_sha : String → Storage → Option ChangeRow
governed_policy_change_by_sha policy_sha256 s =
    first_row (λ (row : ChangeRow). row.policy_sha256 == policy_sha256) s.governed_policy_changes

-- `latest_governed_policy_version`: the row with the greatest version
unfoldable pub latest_governed_policy_version : String → Storage → Option ChangeRow
latest_governed_policy_version policy_id s = last_row (
    order_by (λ (row : ChangeRow). row.version)
      (where_rows (λ (row : ChangeRow). row.policy_id == policy_id) s.governed_policy_changes))

unfoldable pub policy_control : String → Storage → Option ControlRow
policy_control policy_id s =
    first_row (λ (row : ControlRow). row.policy_id == policy_id) s.policy_controls

unfoldable pub policy_control_action : String → Storage → Option ControlActionRow
policy_control_action action_id s =
    first_row (λ (row : ControlActionRow). row.action_id == action_id) s.policy_control_actions

-- `ON CONFLICT(policy_id) DO UPDATE`
abbrev pub set_control : ControlRow → List ControlRow → List ControlRow
set_control new [] = new ∷ []
set_control new (row ∷ rows) =
    if row.policy_id == new.policy_id then new ∷ rows else row ∷ set_control new rows

abbrev action_clash : ControlActionRow → ControlActionRow → Bool
action_clash new row = row.action_id == new.action_id || row.action_nonce == new.action_nonce

unfoldable pub apply_policy_control : ControlRow → ControlActionRow → Storage → Result Storage
apply_policy_control control action s =
    if any (action_clash action) s.policy_control_actions
    then err (value_error "policy control action already registered")
    else ok (record s {
      policy_control_actions = s.policy_control_actions ++ action ∷ [];
      policy_controls = set_control control s.policy_controls;
    })

abbrev pub change_clash : ChangeRow → ChangeRow → Bool
change_clash new row =
    row.policy_sha256 == new.policy_sha256
    || row.action_id == new.action_id
    || row.action_nonce == new.action_nonce

abbrev pub already_published : Error
already_published = value_error "governed policy version or approval already registered"

abbrev restore : Option (List ApprovalRow) → Storage → Storage
restore none s = s
restore (some table) s = record s { governance_approvals = table; committed_approvals = none }

-- `rollback`, which also drops what an earlier call has left uncommitted
unfoldable pub rolled_back : Storage → Storage
rolled_back s = restore s.committed_approvals s

abbrev pub last_committed : Option (List ApprovalRow) → List ApprovalRow → List ApprovalRow
last_committed none table = table
last_committed (some committed) table = committed

-- the store with the approvals inserted and not committed
abbrev pub with_approvals : List ApprovalRow → Storage → Storage
with_approvals table s = record s {
  governance_approvals = table;
  committed_approvals = some (last_committed s.committed_approvals s.governance_approvals);
}

-- The last insert of the transaction: `before` is the store to roll back to, `s` the store so far.
abbrev pub insert_change : ChangeRow → Storage → Storage → Result (Unit {0}) × Storage
insert_change new before s =
    if any (change_clash new) s.governed_policy_changes then (err already_published, before) else (
      ok tt,
      record s {
        governed_policy_changes = s.governed_policy_changes ++ new ∷ [];
        committed_approvals = none;
      },
    )

-- Another document of the same digest raises without a rollback: what the transaction has inserted stays,
-- uncommitted.
abbrev pub bind_version :
    ChangeRow → Option SignedPolicyVersion → ℕ → Storage → Storage → Result (Unit {0}) × Storage
bind_version new none now before s =
    insert_change new before
      (record s { policy_versions = s.policy_versions ++ version_row new.signed_policy now ∷ [] })
bind_version new (some existing) now before s =
    if signed_value existing == signed_value new.signed_policy
    then insert_change new before s
    else (err (value_error "policy digest is already bound to different signed policy content"), s)

unfoldable pub insert_governed :
    ChangeRow → Option (List ApprovalRow) → ℕ → Storage → Result (Unit {0}) × Storage
unfolding policy_version_by_sha rolled_back
insert_governed new none now s = (err already_published, rolled_back s)
insert_governed new (some table) now s =
    bind_version new (policy_version_by_sha new.policy_sha256 s) now (rolled_back s)
      (with_approvals table s)

unfoldable pub register_governed_policy_change :
    ChangeRow → List ApprovalRow → ℕ → Storage → Result (Unit {0}) × Storage
unfolding insert_governed
register_governed_policy_change new approvals now s =
    insert_governed new (insert_approvals approvals s.governance_approvals) now s
