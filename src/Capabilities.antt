-- ===== src/Capabilities.antt =====
-- core/capabilities.py: the registry of capabilities.
pub mod Chain
pub mod Revocation
use verigate.Base.{
  ◌>>◌, zero, suc, inl, inr, refl, [], ◌∷◌, ◌++◌, none, some, true, false, ok, err, ◌≡◌, ◌&&◌, ◌+◌,
  ◌≤◌, ◌>>=◌, Option, ℕ, String, List, Bool, not, if◌then◌else◌, contains, Result, string_eq,
  lookup_error, ◌==◌, raise_if, permission_error, is_some, option_eq,
}
use verigate.Storage.{Storage}
use verigate.Storage.Registries.{
  identity_is_active, capability_of, capability_is_active, register_capability, identity_of,
}
use verigate.Models.{Capability, AgentIdentity, permits, ActionIntent}

-- `identity_id is not None and not identity_is_active(identity_id)`
abbrev pub identity_inactive : Option String → ℕ → Storage → Bool
identity_inactive none now s = false
identity_inactive (some identity_id) now s = not (identity_is_active identity_id now s)

-- The loop of `effective_active`, from the chain's current id: `rounds` is the number of rounds it
-- may still make, one for each depth from the current one to `max_depth`, and one more that refuses.
unfoldable pub chain_active : ℕ → List String → Option String → ℕ → Storage → Bool
chain_active rounds visited none now s = true
chain_active zero visited (some current_id) now s = false
chain_active (suc rounds) visited (some current_id) now s =
    if contains visited current_id then false else elim (capability_of current_id s) [
      | none ↦ false
      | some current ↦
          if not (capability_is_active current_id now s)
          then false
          else if identity_inactive current.identity_id now s
          then false
          else chain_active rounds (current_id ∷ visited) current.delegated_from now s
    ]

abbrev pub max_depth : ℕ
max_depth = 32

-- `effective_active`: depths 0 to `max_depth` are followed.
unfoldable pub effective_active : String → ℕ → Storage → Bool
unfolding chain_active
effective_active capability_id now s = chain_active (suc max_depth) [] (some capability_id) now s

abbrev pub or_missing : Option Capability → String → Result Capability
or_missing none message = err (lookup_error message)
or_missing (some c) message = ok c

-- `resolve`, with `require_active` left at its default
unfoldable pub resolve : String → ℕ → Storage → Result Capability
unfolding effective_active
resolve capability_id now s = do
  capability ← or_missing (capability_of capability_id s) "capability not found"
  raise_if (not (effective_active capability_id now s))
      (permission_error "capability is not active or has an ineffective authority chain")
  ok capability

abbrev holds_identity : Option AgentIdentity → String → Bool
holds_identity none agent_id = false
holds_identity (some identity) agent_id = identity.agent_id == agent_id

-- The identity tests of `authorize`.
identity_gate : Capability → Option String → Option String → ℕ → Storage → Result (Unit {0})
identity_gate c none identity_id now s = ok tt
identity_gate c (some bound) identity_id now s = do
  raise_if (not (identity_id == some bound)) (permission_error "capability identity mismatch")
  raise_if (not (identity_is_active bound now s))
      (permission_error "capability identity is not active")
  raise_if (not (holds_identity (identity_of bound s) c.agent_id))
      (permission_error "capability identity binding is invalid")

abbrev pub require : Bool × String → Result (Unit {0})
require (permitted, reason) = raise_if (not permitted) (permission_error reason)

-- `authorize`, which is also `assert_authority`
unfoldable pub authorize : String → ActionIntent → Option String → ℕ → Storage → Result Capability
unfolding resolve identity_gate permits
authorize capability_id action identity_id now s = do
  capability ← resolve capability_id now s
  identity_gate capability capability.identity_id identity_id now s
  verdict ← permits capability action now
  require verdict
  ok capability

abbrev registered_identity : Option AgentIdentity → String → Result (Unit {0})
registered_identity none agent_id = err (lookup_error "capability identity not found")
registered_identity (some identity) agent_id =
    raise_if (not (identity.agent_id == agent_id))
      (permission_error "capability identity does not match agent")

abbrev check_identity : Capability → Option String → Storage → Result (Unit {0})
check_identity c none s = ok tt
check_identity c (some bound) s = registered_identity (identity_of bound s) c.agent_id

unfoldable pub register : Capability → ℕ → Storage → Result Storage
unfolding register_capability
register capability now s = do
  raise_if (is_some capability.delegated_from) (
      permission_error
        "delegated capabilities must be registered through CapabilityDelegationService")
  check_identity capability capability.identity_id s
  register_capability capability now s
