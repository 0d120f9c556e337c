-- ===== src/Delegation/Service.antt =====
-- core/authority.py: signed delegations and `CapabilityDelegationService`.
use verigate.Base.{
  [], ◌∷◌, none, some, true, false, ok, err, ◌==◌, ◌>>=◌, ◌>>◌, string_eq, option_eq, nat_eq,
  value_error, lookup_error, permission_error, Option, List, String, Result, ℕ, Bool, raise_if,
  if◌then◌else◌, not,
}
use verigate.Base.Json.{Value, obj, str, num, end, field}
use verigate.Base.Int.{pos}
use verigate.Storage.{Storage, EdgeRow}
use verigate.Storage.Registries.{identity_of, identity_is_active, capability_of, revoke_capability}
use verigate.Storage.Delegations.{
  register_delegated_capability, authority_edges, revoke_authority_edge,
}
use verigate.Models.{Capability, AgentIdentity}
use verigate.Models.Digests.{capability_digest, capability_fields}
use verigate.Signatures.{Signatures, signed, verified}
use verigate.Capabilities.{resolve}
use verigate.Delegation.{validate_delegation_scope}
use verigate.Delegation.Graph.{PathNode, authority_path}

abbrev pub or_no_delegator : Option AgentIdentity → Result AgentIdentity
or_no_delegator none = err (lookup_error "delegator identity not found")
or_no_delegator (some identity) = ok identity

abbrev pub or_no_recipient : Option AgentIdentity → Result AgentIdentity
or_no_recipient none = err (lookup_error "recipient identity not found")
or_no_recipient (some identity) = ok identity

abbrev pub or_unbound : Option String → Result String
or_unbound none = err (value_error "delegated capability must bind a recipient identity")
or_unbound (some identity_id) = ok identity_id

-- The loop of `revoke` over the edges from the parent.
unfoldable pub revoke_edges : List EdgeRow → ℕ → Storage → Storage
unfolding revoke_authority_edge
revoke_edges [] now s = s
revoke_edges (e ∷ es) now s = revoke_edges es now (revoke_authority_edge e now s).1

unfoldable pub revoke_from : Option String → String → ℕ → Storage → Storage
unfolding revoke_edges authority_edges
revoke_from none child_id now s = s
revoke_from (some parent_id) child_id now s =
    if parent_id == ""
    then s
    else revoke_edges
        (authority_edges (some "capability") (some parent_id) (some "capability") (some child_id)
          true s)
        now s

unfoldable pub revoke_child : Option Capability → String → ℕ → Storage → Bool × Storage
unfolding revoke_capability revoke_from
revoke_child none child_id now s = (false, s)
revoke_child (some c) child_id now s =
    let after = revoke_capability child_id now s in
    (after.0, revoke_from c.delegated_from child_id now after.1)

-- `revoke`
unfoldable pub revoke : String → ℕ → Storage → Bool × Storage
unfolding capability_of revoke_child
revoke child_capability_id now s =
    revoke_child (capability_of child_capability_id s) child_capability_id now s

-- The tests of `delegate` before the signature, up to the scope.
unfoldable pub check_parties : Capability → Capability → String → ℕ → Storage → Result AgentIdentity
unfolding identity_of identity_is_active validate_delegation_scope
check_parties parent child delegator now s = do
  identity ← or_no_delegator (identity_of delegator s)
  raise_if (not (identity_is_active delegator now s))
      (permission_error "delegator identity is not active")
  raise_if (not (parent.identity_id == some delegator))
      (permission_error "delegator does not own parent capability")
  recipient_id ← or_unbound child.identity_id
  recipient ← or_no_recipient (identity_of recipient_id s)
  raise_if (not (identity_is_active recipient_id now s))
      (permission_error "recipient identity is not active")
  raise_if (not (recipient.agent_id == child.agent_id))
      (permission_error "recipient identity does not match child agent")
  let scope = validate_delegation_scope parent child
  raise_if (not scope.0) (permission_error scope.1)
  ok identity

module _ (crypto : Signatures) where
  abbrev pub digest_of : Capability → String
  unfolding capability_digest
  digest_of = capability_digest (λ v. crypto.sha256 (crypto.canonical v))

  abbrev pub delegation_payload : String → Capability → String → Value
  delegation_payload parent_id child delegator = obj (
      field "child_capability" (obj (capability_fields child)) (
        field "child_capability_sha256" (str (digest_of child)) (
          field "delegation_version" (num (pos 1)) (
            field "delegator_identity_id" (str delegator)
              (field "parent_capability_id" (str parent_id) end)))))

  unfoldable pub sign_delegation : String → Capability → String → String → String
  unfolding signed
  sign_delegation parent_id child delegator private_key =
      signed crypto private_key (delegation_payload parent_id child delegator)

  abbrev pub delegator_verdict :
      Option String → String → Capability → String → String → Bool × String
  unfolding verified
  delegator_verdict none parent_id child delegator signature =
      (false, "invalid or tampered capability delegation")
  delegator_verdict (some raw) parent_id child delegator signature =
      if not (crypto.byte_length raw == 32)
      then (false, "invalid delegator public key")
      else if verified crypto raw (delegation_payload parent_id child delegator) signature
      then (true, "valid capability delegation")
      else (false, "invalid or tampered capability delegation")

  unfoldable pub verify_delegation :
      String → Capability → String → String → AgentIdentity → Bool × String
  verify_delegation parent_id child delegator signature identity =
      if not (identity.key_id == delegator)
      then (false, "delegator identity mismatch")
      else delegator_verdict (crypto.b64decode identity.public_key_b64) parent_id child delegator
          signature

  -- `delegate`, with the child's path and the store after it; an error of the path comes after the registration,
  -- whose store it keeps.
  unfoldable pub delegate :
      String
      → Capability
      → String
      → String
      → ℕ
      → Storage
      → Result (Result (List PathNode) × Storage)
  unfolding resolve check_parties verify_delegation register_delegated_capability authority_path
  delegate parent_id child delegator signature now s = do
    parent ← resolve parent_id now s
    identity ← check_parties parent child delegator now s
    let verdict = verify_delegation parent_id child delegator signature identity
    raise_if (not verdict.0) (permission_error verdict.1)
    s' ←
        register_delegated_capability digest_of child parent_id (some delegator) (some signature)
          now s
    ok (authority_path digest_of child.capability_id s', s')
