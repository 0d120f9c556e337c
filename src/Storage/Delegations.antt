-- ===== src/Storage/Delegations.antt =====
-- Delegated capabilities and the edges of the authority graph in core/storage.py. An edge is named by its
-- columns, which are unique, in place of its random identifier.
pub mod Inserted
use verigate.Base.{
  [], ◌∷◌, ◌++◌, none, some, true, false, ok, err, ◌==◌, ◌>>=◌, ◌>>◌, string_eq, nat_eq,
  value_error, String, Option, ℕ, Result, first_row, Bool, List, lookup_error, if◌then◌else◌,
  order_by, ◌&&◌, count_rows, raise_if, any, ◌||◌, where_rows, not, permission_error,
}
use verigate.Storage.{Storage, active, revoked, EdgeRow, DelegationRow, CapabilityRow}
use verigate.Storage.Registries.{
  status_eq, same_edge, edge, insert_edge, insert_holds, insert_capability, capability_row,
}
use verigate.Models.{Capability}

unfoldable pub delegation_by_child : String → Storage → Option DelegationRow
delegation_by_child child_capability_id s =
    first_row (λ (row : DelegationRow). row.child_capability_id == child_capability_id)
      s.capability_delegations

-- `column = ?`, where the caller gives a value
abbrev matches : Option String → String → Bool
matches none value = true
matches (some wanted) value = value == wanted

unfoldable pub authority_edges :
    Option String → Option String → Option String → Option String → Bool → Storage → List EdgeRow
authority_edges source_type source_id target_type target_id active_only s =
    order_by (λ (row : EdgeRow). row.created_at)
      (where_rows
        (λ (row : EdgeRow).
          matches source_type row.source_type
          && matches source_id row.source_id
          && matches target_type row.target_type
          && matches target_id row.target_id
          && (not active_only || row.status == active))
        s.authority_edges)

abbrev revoke_edge_rows : EdgeRow → ℕ → List EdgeRow → List EdgeRow
revoke_edge_rows e now [] = []
revoke_edge_rows e now (row ∷ rows) =
    (if same_edge e row && row.status == active
      then record row { status = revoked; revoked_at = some now }
      else row)
    ∷ revoke_edge_rows e now rows

-- `UPDATE … WHERE edge_id = ? AND status = 'ACTIVE'`; true if it changed one row.
unfoldable pub revoke_authority_edge : EdgeRow → ℕ → Storage → Bool × Storage
revoke_authority_edge e now s =
    if count_rows (λ (row : EdgeRow). same_edge e row && row.status == active) s.authority_edges
      == 1
    then (true, record s { authority_edges = revoke_edge_rows e now s.authority_edges })
    else (false, s)

-- the parent's row, which is to be active
abbrev pub active_parent : Option CapabilityRow → Result (Unit {0})
active_parent none = err (lookup_error "parent capability not found")
active_parent (some row) =
    raise_if (not (row.status == active)) (permission_error "parent capability is not active")

-- `except sqlite3.IntegrityError`
abbrev pub conflict : Result Storage → Result Storage
conflict (ok s) = ok s
conflict (err e) =
    err (value_error "capability, authority edge or delegation evidence already exists")

abbrev pub insert_delegation : DelegationRow → Storage → Result Storage
insert_delegation row s =
    if any (λ (r : DelegationRow). r.child_capability_id == row.child_capability_id)
      s.capability_delegations
    then err (value_error "delegation evidence already exists")
    else ok (record s { capability_delegations = s.capability_delegations ++ row ∷ [] })

-- `if delegator_identity_id and delegation_signature: INSERT …`
abbrev pub insert_evidence :
    Option String → Option String → String → Capability → String → ℕ → Storage → Result Storage
insert_evidence none signature parent_id capability digest now s = ok s
insert_evidence (some delegator) none parent_id capability digest now s = ok s
insert_evidence (some delegator) (some signature) parent_id capability digest now s =
    if delegator == "" || signature == ""
    then ok s
    else insert_delegation
        (record {
          parent_capability_id = parent_id;
          child_capability_id = capability.capability_id;
          delegator_identity_id = delegator;
          delegation_signature = signature;
          child_capability_sha256 = digest;
          created_at = now;
        })
        s

-- the inserts of one delegation
abbrev pub insert_delegated :
    Capability → String → Option String → Option String → String → ℕ → Storage → Result Storage
insert_delegated capability parent_id delegator signature digest now s = do
  s1 ← insert_capability capability now s
  s2 ← insert_edge (edge "capability" parent_id "DELEGATES" capability.capability_id now) s1
  s3 ← insert_holds capability.identity_id capability now s2
  insert_evidence delegator signature parent_id capability digest now s3

module _ (digest : Capability → String) where
  unfoldable pub register_delegated_capability :
      Capability → String → Option String → Option String → ℕ → Storage → Result Storage
  register_delegated_capability capability parent_id delegator signature now s = do
    active_parent (capability_row parent_id s)
    conflict (insert_delegated capability parent_id delegator signature (digest capability) now s)
