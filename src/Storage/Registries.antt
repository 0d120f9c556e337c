-- ===== src/Storage/Registries.antt =====
-- The identities and capabilities of core/storage.py. The edges of the authority graph that these
-- methods insert are rows too; their identifiers are fresh and left out.
use verigate.Base.{
  [], ◌∷◌, ◌++◌, none, some, true, false, ok, err, ◌&&◌, ◌>>=◌, Eq, String, Option, ℕ, Bool,
  first_row, Result, ◌==◌, List, if◌then◌else◌, is_some, not, count_rows, any, string_eq,
  value_error, nat_eq,
}
use verigate.Storage.{active, revoked, Status, EdgeRow, Storage, IdentityRow, CapabilityRow}
use verigate.Models.{AgentIdentity, Capability, expired}

pub Status-discrete : Discrete Status
Status-discrete = hlevel

instance unfoldable pub status_eq : Eq Status
unfolding Status-discrete
status_eq = record { dec = Status-discrete }

abbrev pub identity_row : String → Storage → Option IdentityRow
identity_row identity_id s = first_row (λ row. row.identity_id == identity_id) s.identities

abbrev pub capability_row : String → Storage → Option CapabilityRow
capability_row capability_id s =
    first_row (λ row. row.capability_id == capability_id) s.capabilities

-- The primary key is the identity's key id; a second row with it is an integrity error.
unfoldable pub register_identity : AgentIdentity → ℕ → Storage → Result Storage
register_identity identity now s =
    if is_some (identity_row identity.key_id s)
    then err (value_error "identity_id already registered")
    else ok (record s {
      identities =
          s.identities
          ++ (record {
            identity_id = identity.key_id;
            identity = identity;
            status = active;
            expires_at = identity.expires_at;
            revoked_at = none;
            created_at = now;
          })
            ∷ [];
    })

abbrev row_identity : Option IdentityRow → Option AgentIdentity
row_identity none = none
row_identity (some row) = some row.identity

-- `Storage.identity`
unfoldable pub identity_of : String → Storage → Option AgentIdentity
identity_of identity_id s = row_identity (identity_row identity_id s)

abbrev row_is_live : Option IdentityRow → ℕ → Bool
row_is_live none now = false
row_is_live (some row) now = row.status == active && not (expired row.expires_at now)

unfoldable pub identity_is_active : String → ℕ → Storage → Bool
identity_is_active identity_id now s = row_is_live (identity_row identity_id s) now

revoke_identity_rows : String → ℕ → List IdentityRow → List IdentityRow
revoke_identity_rows identity_id now [] = []
revoke_identity_rows identity_id now (row ∷ rows) =
    (if row.identity_id == identity_id && row.status == active
      then record row { status = revoked; revoked_at = some now }
      else row)
    ∷ revoke_identity_rows identity_id now rows

-- `UPDATE … WHERE identity_id = ? AND status = 'ACTIVE'`; true if it changed one row.
unfoldable pub revoke_identity : String → ℕ → Storage → Bool × Storage
unfolding revoke_identity_rows
revoke_identity identity_id now s =
    if count_rows (λ row. row.identity_id == identity_id && row.status == active) s.identities == 1
    then (true, record s { identities = revoke_identity_rows identity_id now s.identities })
    else (false, s)

abbrev pub capability_row_of : Capability → ℕ → CapabilityRow
capability_row_of capability now = record {
  capability_id = capability.capability_id;
  capability = capability;
  status = active;
  expires_at = capability.expires_at;
  revoked_at = none;
  created_at = now;
}

abbrev pub edge : String → String → String → String → ℕ → EdgeRow
edge source_type source_id relation target_id now = record {
  source_type = source_type;
  source_id = source_id;
  relation = relation;
  target_type = "capability";
  target_id = target_id;
  status = active;
  created_at = now;
  revoked_at = none;
}

-- the unique constraint on the edges
abbrev pub same_edge : EdgeRow → EdgeRow → Bool
same_edge a b =
    a.source_type == b.source_type
    && a.source_id == b.source_id
    && a.relation == b.relation
    && a.target_type == b.target_type
    && a.target_id == b.target_id

abbrev pub insert_edge : EdgeRow → Storage → Result Storage
insert_edge e s =
    if any (same_edge e) s.authority_edges
    then err (value_error "capability_id or authority edge already registered")
    else ok (record s { authority_edges = s.authority_edges ++ e ∷ [] })

-- `if capability.identity_id: INSERT … 'HOLDS'`
abbrev pub insert_holds : Option String → Capability → ℕ → Storage → Result Storage
insert_holds none capability now s = ok s
insert_holds (some identity_id) capability now s =
    if identity_id == ""
    then ok s
    else insert_edge (edge "identity" identity_id "HOLDS" capability.capability_id now) s

abbrev pub insert_capability : Capability → ℕ → Storage → Result Storage
insert_capability capability now s =
    if is_some (capability_row capability.capability_id s)
    then err (value_error "capability_id or authority edge already registered")
    else ok (record s { capabilities = s.capabilities ++ capability_row_of capability now ∷ [] })

unfoldable pub register_capability : Capability → ℕ → Storage → Result Storage
register_capability capability now s = do
  s' ← insert_capability capability now s
  insert_holds capability.identity_id capability now s'

abbrev pub row_capability : Option CapabilityRow → Option Capability
row_capability none = none
row_capability (some row) = some row.capability

-- `Storage.capability`
unfoldable pub capability_of : String → Storage → Option Capability
capability_of capability_id s = row_capability (capability_row capability_id s)

abbrev pub capability_is_live : Option CapabilityRow → ℕ → Bool
capability_is_live none now = false
capability_is_live (some row) now = row.status == active && not (expired row.expires_at now)

unfoldable pub capability_is_active : String → ℕ → Storage → Bool
capability_is_active capability_id now s = capability_is_live (capability_row capability_id s) now

unfoldable pub revoke_rows : String → ℕ → List CapabilityRow → List CapabilityRow
revoke_rows capability_id now [] = []
revoke_rows capability_id now (row ∷ rows) =
    (if row.capability_id == capability_id && row.status == active
      then record row { status = revoked; revoked_at = some now }
      else row)
    ∷ revoke_rows capability_id now rows

unfoldable pub revoke_capability : String → ℕ → Storage → Bool × Storage
unfolding revoke_rows
revoke_capability capability_id now s =
    if count_rows (λ row. row.capability_id == capability_id && row.status == active) s.capabilities
      == 1
    then (true, record s { capabilities = revoke_rows capability_id now s.capabilities })
    else (false, s)
