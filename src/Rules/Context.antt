-- ===== src/Rules/Context.antt =====
-- Each check of a generic action as a proposition about it: the check is met exactly when it holds.
use verigate.Base.{
  refl, List, String, Option, Bool, ◌≡◌, if◌then◌else◌, some, [], none, is_none, ◌↔◌, false, ◌&&◌,
  true, arith, not, nonempty,
}
use verigate.Base.Json.{end, obj, null, Fields, Value, field, nonempty_fields, get}
use verigate.Policy.{Policy}
use verigate.Models.{ActionIntent, context_permits, limit_for}
use verigate.Rules.{
  check_action_type_allowed, check_purpose_allowed, check_context_constraints,
  check_input_provenance, check_target_allowed, unlisted, graph_matches, graph_match,
  contains_stripped, destination_match, check_execution_graph, check_destination_allowed,
  check_generic_network_allowed, check_generic_asset_allowed, generic_cap_match, action_destination,
}
use verigate.Base.Text.{contains_lower, contains_upper, upper}
use verigate.Rules.Payment.{Listed, Listed-iff, UnderCap, over_cap_iff}
use verigate.Money.{Amount, is_valid_amount}

-- An allowlist, where both it and the value are there, names the value.
abbrev pub ListedOpt : (List String → String → Bool) → Option (List String) → Option String → Type 0
ListedOpt listed allowed none = Unit
ListedOpt listed allowed (some v) = Listed listed allowed v

-- The declared execution path, where the policy sets one, has every field that it sets.
abbrev pub OnGraph : Fields → Value → Type 0
OnGraph end actual = Unit
OnGraph (field k v rest) actual =
    (fields : Fields) × (actual ≡ obj fields) × (graph_matches (field k v rest) fields ≡ true)

-- The destination is in scope: where the policy restricts destinations there is one, not blocked and listed.
abbrev pub InScope : Policy → Option String → Type 0
InScope policy none = (policy.allowed_destinations ≡ none) × (policy.blocked_destinations ≡ [])
InScope policy (some d) =
    (contains_lower policy.blocked_destinations d ≡ false)
    × Listed contains_lower policy.allowed_destinations d

module _ (a : ActionIntent) (policy : Policy) where
  pub action_type_iff :
      (check_action_type_allowed a policy ≡ none)
      ↔ Listed contains_lower policy.allowed_action_types a.action_type
  unfolding check_action_type_allowed
  action_type_iff =
      ground (arith, Listed-iff contains_lower policy.allowed_action_types a.action_type)

  pub purpose_iff :
      (check_purpose_allowed a policy ≡ none)
      ↔ Listed contains_stripped policy.allowed_purposes a.purpose
  unfolding check_purpose_allowed
  purpose_iff = ground (arith, Listed-iff contains_stripped policy.allowed_purposes a.purpose)

  pub context_iff :
      (check_context_constraints a policy ≡ none)
      ↔ (context_permits policy.context_constraints a.declared_context ≡ true)
  unfolding check_context_constraints
  context_iff = ground arith

  pub provenance_iff :
      (check_input_provenance a policy ≡ none)
      ↔ (context_permits policy.input_provenance_constraints a.input_provenance ≡ true)
  unfolding check_input_provenance
  provenance_iff = ground arith

  pub target_iff : (check_target_allowed a policy ≡ none) ↔ (
      (contains_lower policy.blocked_payees a.target ≡ false)
      × Listed contains_lower policy.allowed_targets a.target)
  unfolding check_target_allowed
  target_iff = ground (arith, Listed-iff contains_lower policy.allowed_targets a.target)

ListedOpt-iff :
    (listed : List String → String → Bool) (allowed : Option (List String)) (v : Option String)
    → (unlisted listed allowed v ≡ false) ↔ ListedOpt listed allowed v
ListedOpt-iff listed allowed none = (λ _. tt, λ _. refl)
ListedOpt-iff listed allowed (some v) = Listed-iff listed allowed v

graph_iff :
    (expected : Fields) (actual : Value)
    → ((if nonempty_fields expected then graph_match expected actual else none) ≡ none)
      ↔ OnGraph expected actual
graph_iff end actual = (λ _. tt, λ _. refl)
graph_iff (field k v rest) (obj fields) = (λ h. (fields, refl, ground arith), λ w. ground arith)
graph_iff (field k v rest) null = (λ h. cc, λ w. cc (w.1))
graph_iff (field k v rest) _ = (λ h. cc, λ w. cc (w.1))

destination_iff :
    (policy : Policy) (d : Option String)
    → ((if is_none policy.allowed_destinations && not (nonempty policy.blocked_destinations)
          then none
          else destination_match policy d)
        ≡ none)
      ↔ InScope policy d
destination_iff policy none = ground arith
destination_iff policy (some d) =
    ground (arith, Listed-iff contains_lower policy.allowed_destinations d)

-- The amount, where it and the asset are there, is valid and under the asset's cap.
abbrev pub CapOpt : Policy → Option String → Option Amount → Type 0
CapOpt policy none amount = Unit
CapOpt policy (some asset) none = Unit
CapOpt policy (some asset) (some amount) =
    (is_valid_amount amount ≡ true) × UnderCap (limit_for policy.per_tx_cap (upper asset)) amount

pub generic_cap_iff :
    (policy : Policy) (asset : Option String) (amount : Option Amount)
    → (generic_cap_match policy asset amount ≡ none) ↔ CapOpt policy asset amount
generic_cap_iff policy none amount = (λ _. tt, λ _. refl)
generic_cap_iff policy (some asset) none = (λ _. tt, λ _. refl)
generic_cap_iff policy (some asset) (some amount) =
    ground (arith, over_cap_iff (limit_for policy.per_tx_cap (upper asset)) amount)

module _ (a : ActionIntent) (policy : Policy) where
  pub execution_graph_iff :
      (check_execution_graph a policy ≡ none)
      ↔ OnGraph policy.execution_graph (get "execution_graph" a.metadata)
  unfolding check_execution_graph
  execution_graph_iff = graph_iff policy.execution_graph (get "execution_graph" a.metadata)

  pub destination_allowed_iff :
      (check_destination_allowed a policy ≡ none) ↔ InScope policy (action_destination a)
  unfolding check_destination_allowed
  destination_allowed_iff = destination_iff policy (action_destination a)

  pub network_iff :
      (check_generic_network_allowed a policy ≡ none)
      ↔ ListedOpt contains_lower policy.allowed_networks a.network
  unfolding check_generic_network_allowed
  network_iff = ground (arith, ListedOpt-iff contains_lower policy.allowed_networks a.network)

  pub asset_iff :
      (check_generic_asset_allowed a policy ≡ none)
      ↔ ListedOpt contains_upper policy.allowed_assets a.asset
  unfolding check_generic_asset_allowed
  asset_iff = ground (arith, ListedOpt-iff contains_upper policy.allowed_assets a.asset)
