-- ===== src/Governance/Members.antt =====
-- core/governance.py: the policy of a quorum, its members and required roles.
use verigate.Base.{
  [], ◌∷◌, none, some, ok, err, ◌==◌, ◌>>=◌, ◌>>◌, string_eq, nat_eq, value_error, if◌then◌else◌,
  String, List, Option, Result, ℕ, first_row, raise_if, count_rows, ltb, ◌||◌, contains, length,
  not,
}
use verigate.Base.Json.{Value, Fields, Items, obj, arr, str, num, end, field, nil, cons}
use verigate.Base.Int.{pos}
use verigate.Models.Digests.{strings}
use verigate.Signatures.{Signatures}
use verigate.Governance.{governor_id}

pub record GovernanceMember : Type 0 where
  pub governor_id : String
  pub role : String
  pub public_key_b64 : String

pub record GovernancePolicy : Type 0 where
  pub policy_id : String
  pub version : ℕ
  pub threshold : ℕ
  pub members : List GovernanceMember
  pub required_roles : List (String × ℕ)
  pub max_approval_lifetime_seconds : ℕ
  pub allowed_actions : List String

abbrev member_items : List GovernanceMember → Items
member_items [] = nil
member_items (m ∷ ms) =
    cons
      (obj (
        field "governor_id" (str m.governor_id)
          (field "public_key_b64" (str m.public_key_b64) (field "role" (str m.role) end))))
      (member_items ms)

abbrev role_fields : List (String × ℕ) → Fields
role_fields [] = end
role_fields ((role, count) ∷ rest) = field role (num (pos count)) (role_fields rest)

-- `GovernancePolicy.as_dict`, by key
abbrev pub policy_fields : GovernancePolicy → Value
policy_fields policy = obj (
    field "allowed_actions" (arr (strings policy.allowed_actions)) (
      field "governance_version" (num (pos 1)) (
        field "max_approval_lifetime_seconds" (num (pos policy.max_approval_lifetime_seconds)) (
          field "members" (arr (member_items policy.members)) (
            field "policy_id" (str policy.policy_id) (
              field "required_roles" (obj (role_fields policy.required_roles)) (
                field "threshold" (num (pos policy.threshold))
                  (field "version" (num (pos policy.version)) end))))))))

abbrev pub role_count : String → List GovernanceMember → ℕ
role_count role members = count_rows (λ (m : GovernanceMember). m.role == role) members

-- The loop over the required roles.
abbrev pub validate_roles :
    List (String × ℕ) → List String → List GovernanceMember → Result (Unit {0})
validate_roles [] seen members = ok tt
validate_roles ((role, count) ∷ rest) seen members = do
  raise_if (role == "" || ltb count 1) (value_error "invalid required governance role")
  raise_if (contains seen role) (value_error "duplicate required governance role")
  raise_if (ltb (role_count role members) count)
      (value_error "required role exceeds role membership")
  validate_roles rest (role ∷ seen) members

-- `_member_for_governor`
unfoldable pub member_for_governor : GovernancePolicy → String → Option GovernanceMember
member_for_governor policy governor =
    first_row (λ (m : GovernanceMember). m.governor_id == governor) policy.members

module _ (crypto : Signatures) where
  -- `GovernancePolicy.digest`
  unfoldable pub policy_digest : GovernancePolicy → String
  policy_digest policy = crypto.sha256 (crypto.canonical (policy_fields policy))

  abbrev pub raw_key : Option String → Result String
  raw_key none = err (value_error "Only base64 data is allowed")
  raw_key (some raw) =
      if crypto.byte_length raw == 32
      then ok raw
      else err (value_error "invalid governance public key")

  -- `GovernanceMember.public_key`
  unfoldable pub public_key : GovernanceMember → Result String
  public_key m = raw_key (crypto.b64decode m.public_key_b64)

  -- The loop over the members.
  unfoldable pub validate_members :
      List GovernanceMember → List String → List String → Result (Unit {0})
  unfolding public_key governor_id
  validate_members [] ids keys = ok tt
  validate_members (m ∷ ms) ids keys = do
    raise_if (m.governor_id == "" || m.role == "")
        (value_error "governance members require id and role")
    raise_if (contains ids m.governor_id) (value_error "duplicate governance member")
    key ← public_key m
    raise_if (not (governor_id crypto key == m.governor_id))
        (value_error "governance member fingerprint mismatch")
    raise_if (contains keys m.public_key_b64) (value_error "duplicate governance public key")
    validate_members ms (m.governor_id ∷ ids) (m.public_key_b64 ∷ keys)

  unfoldable pub validate : GovernancePolicy → Result (Unit {0})
  unfolding validate_members
  validate policy = do
    raise_if (ltb policy.version 1 || ltb policy.threshold 1)
        (value_error "invalid governance policy version or threshold")
    raise_if (ltb (length policy.members) policy.threshold)
        (value_error "governance threshold exceeds member count")
    raise_if (policy.max_approval_lifetime_seconds == 0)
        (value_error "approval lifetime must be positive")
    validate_members policy.members [] []
    validate_roles policy.required_roles [] policy.members
