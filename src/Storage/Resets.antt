-- ===== src/Storage/Resets.antt =====
-- core/storage.py: authority resets and the governance approvals they use up, inserted in one transaction.
use verigate.Base.{
  [], ◌∷◌, ◌++◌, none, some, ok, err, ◌==◌, string_eq, nat_eq, any, value_error, Bool, List, ◌||◌,
  Option, Error, Result, ◌&&◌, if◌then◌else◌,
}
use verigate.Storage.{Storage, ResetRow, ApprovalRow}

-- the unique columns of the table
abbrev pub approval_clash : ApprovalRow → ApprovalRow → Bool
approval_clash new row =
    row.approval_id == new.approval_id
    || row.nonce == new.nonce
    || row.action_digest == new.action_digest && row.governor_id == new.governor_id

-- `none` is an integrity error.
abbrev pub insert_approvals : List ApprovalRow → List ApprovalRow → Option (List ApprovalRow)
insert_approvals [] table = some table
insert_approvals (new ∷ rest) table =
    if any (approval_clash new) table then none else insert_approvals rest (table ++ new ∷ [])

abbrev pub reset_clash : ResetRow → ResetRow → Bool
reset_clash new row =
    row.reset_id == new.reset_id
    || row.nonce == new.nonce
    || row.agent_id == new.agent_id
      && row.capability_id == new.capability_id
      && row.epoch == new.epoch

abbrev already_registered : List ApprovalRow → Error
already_registered [] = value_error "authority reset already registered"
already_registered (a ∷ approvals) =
    value_error "governance approval or authority reset already registered"

abbrev pub insert_reset :
    ResetRow → List ApprovalRow → Option (List ApprovalRow) → Storage → Result Storage
insert_reset new approvals none s = err (already_registered approvals)
insert_reset new approvals (some table) s =
    if any (reset_clash new) s.authority_resets
    then err (already_registered approvals)
    else ok (record s {
      authority_resets = s.authority_resets ++ new ∷ [];
      governance_approvals = table;
    })

unfoldable pub register_authority_reset : ResetRow → List ApprovalRow → Storage → Result Storage
register_authority_reset new approvals s =
    insert_reset new approvals (insert_approvals approvals s.governance_approvals) s
