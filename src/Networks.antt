-- ===== src/Networks.antt =====
-- enforcement/networks.py: the registry of networks, its dictionaries as lists of entries with the last one first.
use verigate.Base.{
  [], ◌∷◌, none, some, true, ok, err, ◌==◌, ◌>>=◌, string_eq, nat_eq, value_error, if◌then◌else◌,
  unsupported_network, String, List, Option, ℕ, Bool, Result, first_row, not,
}
use verigate.Base.Text.{lower, strip}

pub record NetworkDescriptor : Type 0 where
  pub name : String
  pub family : String
  pub chain_id : Option ℕ
  pub native_asset : Option String
  pub execution_supported : Bool
  pub aliases : List String

pub record NetworkRegistry : Type 0 where
  pub by_name : List (String × NetworkDescriptor)
  pub by_chain_id : List (ℕ × NetworkDescriptor)

unfoldable pub network_key : String → String
unfolding lower strip
network_key name = lower (strip name)

-- the loop over the name and the aliases
unfoldable pub add_names :
    List String
    → NetworkDescriptor
    → List (String × NetworkDescriptor)
    → List (String × NetworkDescriptor)
unfolding network_key
add_names [] network entries = entries
add_names (value ∷ values) network entries =
    add_names values network ((network_key value, network) ∷ entries)

abbrev add_chain :
    Option ℕ → NetworkDescriptor → List (ℕ × NetworkDescriptor) → List (ℕ × NetworkDescriptor)
add_chain none network entries = entries
add_chain (some chain_id) network entries = (chain_id, network) ∷ entries

unfoldable pub register : NetworkDescriptor → NetworkRegistry → NetworkRegistry
unfolding add_names
register network registry = record {
  by_name = add_names (network.name ∷ network.aliases) network registry.by_name;
  by_chain_id = add_chain network.chain_id network registry.by_chain_id;
}

-- `NetworkRegistry(networks)`
unfoldable pub register_all : List NetworkDescriptor → NetworkRegistry → NetworkRegistry
unfolding register
register_all [] registry = registry
register_all (network ∷ networks) registry = register_all networks (register network registry)

abbrev or_unknown_network : Option (String × NetworkDescriptor) → Result NetworkDescriptor
or_unknown_network none = err (unsupported_network "unknown network")
or_unknown_network (some entry) = ok entry.1

-- `resolve` of a name
unfoldable pub resolve : String → NetworkRegistry → Result NetworkDescriptor
unfolding network_key
resolve network registry = or_unknown_network (
    first_row (λ (entry : String × NetworkDescriptor). entry.0 == network_key network)
      registry.by_name)

abbrev or_evm : Option (ℕ × NetworkDescriptor) → ℕ → String → NetworkDescriptor
or_evm (some entry) chain_id name = entry.1
or_evm none chain_id name = record {
  name = name;
  family = "evm";
  chain_id = some chain_id;
  native_asset = none;
  execution_supported = true;
  aliases = [];
}

-- `resolve_evm_chain` of a chain id that is a number, with a name
unfoldable pub resolve_evm_chain : ℕ → String → NetworkRegistry → Result NetworkDescriptor
resolve_evm_chain chain_id name registry =
    if chain_id == 0
    then err (value_error "chain_id must be a positive integer")
    else ok (
        or_evm
          (first_row (λ (entry : ℕ × NetworkDescriptor). entry.0 == chain_id) registry.by_chain_id)
          chain_id name)

module _ {A : Type 0} (evm solana : A) where
  -- `adapter`
  unfoldable pub adapter : String → NetworkRegistry → Result A
  unfolding resolve
  adapter network registry = do
    descriptor ← resolve network registry
    (if not descriptor.execution_supported
        then err (unsupported_network "no execution adapter")
        else if descriptor.family == "evm"
        then ok evm
        else if descriptor.family == "solana"
        then ok solana
        else err (unsupported_network "no execution adapter"))
