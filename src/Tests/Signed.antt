-- ===== src/Tests/Signed.antt =====
-- An identity and a delegation signed with small keys.
use verigate.Base.{
  runtime_error, ◌⊎◌, [], List, ==_sound, Bool-cases, inl, inr, refl, [], ◌∷◌, none, some, true, ok,
  err, suc, ◌≡◌, ◌==◌, string_eq, nat_eq, option_eq, arith, ℕ, String, Result,
}
use verigate.Base.Json.{Fields, end}
use verigate.Signatures.{signed, verified}
use verigate.Storage.{Storage, empty, active, IdentityRow}
use verigate.Storage.Registries.{
  capability_is_active, register_identity, status_eq, capability_of, capability_row_of, identity_of,
  identity_is_active,
}
use verigate.Storage.Delegations.{register_delegated_capability}
use verigate.Models.{Capability, AgentIdentity, ActionIntent, permits}
use verigate.Identity.{register, authorize_action, sign_action_intent}
use verigate.Identity.Signed.{authorize_action-sign}
use verigate.Capabilities.{resolve, effective_active, chain_active}
use verigate.Capabilities.Chain.{LiveChain}
use verigate.Delegation.{validate_delegation_scope, is_subset, context_in_scope, limits_subset}
use verigate.Delegation.Attenuation.{as_agent}
use verigate.Delegation.Path.{Lineage, from_root, authority_path_cases}
use verigate.Delegation.Graph.{PathNode, authority_path}
use verigate.Delegation.Service.{
  delegate, sign_delegation, verify_delegation, check_parties, digest_of,
}
use verigate.Delegation.Granted.{Keyed, delegate-LiveChain, delegate-attenuates}
use verigate.Tests.Data.{action, parent, child}
use verigate.Tests.Keys.{crypto, crypto-laws, public_key}

abbrev boss : AgentIdentity
boss = record {
  agent_id = "boss";
  organization_id = "";
  key_id = public_key "boss";
  public_key_b64 = public_key "boss";
  identity_version = 1;
  issued_at = 0;
  expires_at = none;
  reputation_ref = none;
  metadata = end;
}

abbrev identity_row : AgentIdentity → IdentityRow
identity_row i = record {
  identity_id = i.key_id;
  identity = i;
  status = active;
  expires_at = none;
  revoked_at = none;
  created_at = 1;
}

abbrev boss_store : Storage
boss_store = record empty { identities = identity_row boss ∷ [] }

registered : register crypto boss 1 empty ≡ ok boss_store
unfolding register register_identity string_eq nat_eq
registered = refl

abbrev no_fields : ActionIntent → Fields
no_fields a = end

abbrev boss_action : ActionIntent
boss_action = record action { agent_id = "boss" }

authorize_action-sign_example :
    authorize_action crypto no_fields
      (public_key "boss")
      boss_action
      (sign_action_intent crypto no_fields boss_action (public_key "boss") "boss")
      5
      boss_store
    ≡ ok boss
authorize_action-sign_example =
    authorize_action-sign crypto crypto-laws no_fields boss_action boss "boss" 1 5 empty boss_store
      registered refl refl refl

abbrev agent : AgentIdentity
agent = record boss { agent_id = "agent"; key_id = "agent key" }

abbrev held_parent : Capability
held_parent = record parent { identity_id = some (public_key "boss") }

abbrev held_child : Capability
held_child = record child {
  identity_id = some "agent key";
  delegated_by_identity_id = some (public_key "boss");
}

abbrev before : Storage
before = record boss_store {
  identities = identity_row boss ∷ identity_row agent ∷ [];
  capabilities = capability_row_of held_parent 1 ∷ [];
}

before-Keyed : Keyed before
unfolding capability_of
before-Keyed id c h = elim (Bool-cases ("parent" == id)) [
  | inl e ↦ (let same = ==_sound "parent" id e in ground arith)
  | inr e ↦ cc (rw e at h)
]

abbrev signature : String
signature = sign_delegation crypto "parent" held_child (public_key "boss") "boss"

-- the store after the delegation
abbrev after_registration : Result Storage
after_registration =
    register_delegated_capability (digest_of crypto) held_child "parent" (some (public_key "boss"))
      (some signature) 5 before

abbrev store_or : Result Storage → Storage
store_or (ok s) = s
store_or (err e) = empty

abbrev after : Storage
after = store_or after_registration

abbrev small_path : Result (List PathNode)
small_path = authority_path (digest_of crypto) "child" after

delegated :
    delegate crypto "parent" held_child (public_key "boss") signature 5 before
    ≡ ok (small_path, after)
unfolding delegate resolve effective_active chain_active register_delegated_capability
    verify_delegation sign_delegation check_parties validate_delegation_scope is_subset
    context_in_scope limits_subset identity_of identity_is_active string_eq nat_eq option_eq
    status_eq signed verified capability_of capability_is_active
delegated = refl

delegate-LiveChain_example :
    (n : ℕ) × LiveChain 5 before n (some "parent") × LiveChain 5 after (suc n) (some "child")
delegate-LiveChain_example =
    delegate-LiveChain crypto "parent" held_child (public_key "boss") signature 5 before after
      small_path before-Keyed delegated refl

delegate-attenuates_example :
    (c : Capability) × (capability_of "parent" before ≡ some c)
    × (capability_of "child" after ≡ some held_child)
    × ((a : ActionIntent) (later : ℕ) (reason : String)
        → permits held_child a later ≡ ok (true, reason)
        → permits c (as_agent c.agent_id a) later ≡ ok (true, "capability permits action"))
delegate-attenuates_example =
    delegate-attenuates crypto "parent" held_child (public_key "boss") signature 5 before after
      small_path delegated

abbrev two : Storage
two = record before {
  capabilities = capability_row_of held_parent 1 ∷ capability_row_of held_child 2 ∷ [];
}

two-Keyed : Keyed two
unfolding capability_of
two-Keyed id c h = elim (Bool-cases ("parent" == id)) [
  | inl e ↦ (let same = ==_sound "parent" id e in ground arith)
  | inr e ↦ elim (Bool-cases ("child" == id)) [
    | inl f ↦ (let same = ==_sound "child" id f in ground arith)
    | inr f ↦ cc (rw (e, f) at h)
  ]
]

abbrev plain_digest : Capability → String
plain_digest c = ""

authority_path_cases_example :
    ((above : List Capability) × Lineage two (capability_of "child" two) above
      × (authority_path plain_digest "child" two ≡ ok (from_root plain_digest above [])))
    ⊎ ((authority_path plain_digest "child" two
          ≡ err (runtime_error "authority graph cycle detected"))
        × ((above : List Capability) → ¬ Lineage two (capability_of "child" two) above))
authority_path_cases_example = authority_path_cases two plain_digest "child" two-Keyed
