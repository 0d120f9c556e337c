-- ===== src/Router.antt =====
-- enforcement/router.py: how the router chooses an adapter, checks what an authorization binds, spends its nonce
-- and keeps a signed receipt. An adapter is what it tests and what it hands to the broadcaster, and a receipt's
-- identifier and time are arguments.
pub mod Execute
pub mod Signing
pub mod Receipts
pub mod Effects
pub mod Stored
pub mod Confirm
pub mod Once
pub mod Rejected
use verigate.Base.{
  [], ◌∷◌, none, some, false, ok, err, ◌==◌, ◌>>=◌, ◌>>◌, string_eq, nat_eq, option_eq, value_error,
  if◌then◌else◌, unsupported_network, Bool, ℕ, Option, List, Result, String, ◌&&◌, raise_if, not,
}
use verigate.Base.Json.{
  Value, null, bool, num, str, obj, arr, Fields, end, field, get, has_key, value_eq,
}
use verigate.Base.Int.{pos, negsuc}
use verigate.Base.Text.{strip}
use verigate.Enforcement.{Authorization}
use verigate.Bindings.{object_of}
use verigate.Networks.{NetworkRegistry, NetworkDescriptor, resolve, resolve_evm_chain}

-- The payload of an authorization, with the fields that a receipt repeats as `bound`.
pub record Envelope : Type 0 where
  pub authorization : Authorization
  pub execution_graph : Value
  pub execution_artifact : Value
  pub external_state : Value
  pub external_state_required : Bool
  pub external_state_requirement : Value
  pub bound : Fields
  pub authority_ledger_head_hash : Option String

-- The contract of enforcement/protocol.py.
pub record Adapter : Type 0 where
  pub validate : Envelope → ℕ → Bool × String
  -- what `execute_after_consume` hands to the broadcaster, or the error that it raises
  pub request : Envelope → Result Fields
  -- the same of `execute_bound_after_consume`, where the adapter has it
  pub bound_request : Option (Envelope → Fields → Result Fields)
  pub execution_external_state_scope : Option String
  pub module_name : String
  pub hook : String
  pub execution_enforcement_scope : String

abbrev pub Verifier : Type 0
Verifier = Fields → Fields → Bool × String

pub record ExecutionRouter : Type 0 where
  pub registry : NetworkRegistry
  pub private_key : Option String
  pub generic_adapters : List (String × Adapter)
  pub external_state_verifier : Option Verifier
  pub external_state_registry : Option Verifier
  pub gate : Adapter
  pub evm : Adapter
  pub solana : Adapter

-- `_execution_artifact`, by the metadata: the family and the transaction
abbrev solana_transaction : Value → Option (String × Fields)
solana_transaction (str raw) = some ("solana", field "serialized_transaction" (str raw) end)
solana_transaction null = none
solana_transaction (bool _) = none
solana_transaction (num _) = none
solana_transaction (obj _) = none
solana_transaction (arr _) = none

abbrev evm_transaction : Option Fields → Fields → Option (String × Fields)
evm_transaction (some tx) metadata = some ("evm", tx)
evm_transaction none metadata = solana_transaction (get "solana_transaction" metadata)

abbrev metadata_transaction : Option Fields → Option (String × Fields)
metadata_transaction none = none
metadata_transaction (some metadata) =
    evm_transaction (object_of (get "evm_transaction" metadata)) metadata

unfoldable pub execution_artifact : Fields → Option (String × Fields)
execution_artifact action = metadata_transaction (object_of (get "metadata" action))

-- In a comparison, `True` is 1 and `False` is 0.
abbrev as_number : Value → Value
as_number (bool b) = num (pos (if b then 1 else 0))
as_number null = null
as_number (num n) = num n
as_number (str s) = str s
as_number (obj fields) = obj fields
as_number (arr items) = arr items

abbrev chain_id_differs : ℕ → Option (String × Fields) → Bool
chain_id_differs expected none = false
chain_id_differs expected (some (family, tx)) =
    has_key "chain_id" tx && not (as_number (get "chain_id" tx) == num (pos expected))

-- `_validate_network_binding`
unfoldable pub validate_network_binding : Fields → Option ℕ → Result (Unit {0})
unfolding execution_artifact
validate_network_binding action none = ok tt
validate_network_binding action (some expected) =
    raise_if (chain_id_differs expected (execution_artifact action))
      (value_error "EVM chain_id mismatch")

abbrev generic_adapter : Value → List (String × Adapter) → Option Adapter
generic_adapter action_type [] = none
generic_adapter action_type ((name, a) ∷ entries) =
    if str name == action_type then some a else generic_adapter action_type entries

abbrev network_name : Value → Result String
unfolding strip
network_name (str s) =
    if strip s == "" then err (unsupported_network "authorized action has no network") else ok s
network_name null = err (unsupported_network "authorized action has no network")
network_name (bool _) = err (unsupported_network "authorized action has no network")
network_name (num _) = err (unsupported_network "authorized action has no network")
network_name (obj _) = err (unsupported_network "authorized action has no network")
network_name (arr _) = err (unsupported_network "authorized action has no network")

abbrev positive : Value → Option ℕ
positive (num (pos n)) = if n == 0 then none else some n
positive (num (negsuc _)) = none
positive null = none
positive (bool b) = if b then some 1 else none
positive (str _) = none
positive (obj _) = none
positive (arr _) = none

abbrev metadata_family : Option Fields → Value
metadata_family none = null
metadata_family (some metadata) = get "network_family" metadata

-- An EVM transaction on a network that the registry does not know.
abbrev evm_by_chain : ExecutionRouter → Fields → String → Option ℕ → Result Adapter
evm_by_chain r action network none = err (unsupported_network "unsupported execution network")
evm_by_chain r action network (some chain_id) = do
  evm ← resolve_evm_chain chain_id network r.registry
  validate_network_binding action evm.chain_id
  ok r.evm

abbrev unknown_network_adapter :
    ExecutionRouter → Fields → String → Option (String × Fields) → Result Adapter
unknown_network_adapter r action network none =
    err (unsupported_network "unsupported execution network")
unknown_network_adapter r action network (some (family, tx)) =
    if metadata_family (object_of (get "metadata" action)) == str "evm" && family == "evm"
    then evm_by_chain r action network (positive (get "chain_id" tx))
    else err (unsupported_network "unsupported execution network")

abbrev known_network_adapter :
    ExecutionRouter
    → Fields
    → String
    → NetworkDescriptor
    → Option (String × Fields)
    → Result Adapter
known_network_adapter r action network descriptor none = ok r.gate
known_network_adapter r action network descriptor (some (family, tx)) = do
  raise_if (not (descriptor.family == family)) (value_error "execution family mismatch")
  chosen ← verigate.Networks.adapter r.evm r.solana network r.registry
  validate_network_binding action descriptor.chain_id
  ok chosen

abbrev network_adapter :
    ExecutionRouter → Fields → String → Result NetworkDescriptor → Result Adapter
network_adapter r action network (ok descriptor) =
    known_network_adapter r action network descriptor (execution_artifact action)
network_adapter r action network (err e) =
    unknown_network_adapter r action network (execution_artifact action)

abbrev choose_adapter : ExecutionRouter → Fields → Option Adapter → Result Adapter
choose_adapter r action (some generic) = ok generic
choose_adapter r action none = do
  network ← network_name (get "network" action)
  network_adapter r action network (resolve network r.registry)

-- `_adapter`
unfoldable pub adapter_of : ExecutionRouter → Envelope → Result Adapter
unfolding execution_artifact validate_network_binding resolve resolve_evm_chain strip
adapter_of r a =
    let action = a.authorization.action in
    choose_adapter r action (generic_adapter (get "action_type" action) r.generic_adapters)
