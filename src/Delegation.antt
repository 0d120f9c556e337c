-- ===== src/Delegation.antt =====
-- core/authority.py: the scope test of a delegated capability.
pub mod Scope
pub mod Attenuation
pub mod Graph
pub mod Service
pub mod Granted
pub mod Path
use verigate.Base.{
  inl, inr, refl, [], ◌∷◌, none, some, true, false, ok, err, ◌≡◌, ◌&&◌, ◌+◌, ◌>>=◌, ℕ, List, Option,
  Bool, String, not, if◌then◌else◌, ltb, nonempty, ◌==◌, subset, is_none, string_eq, option_eq,
  nat_eq,
}
use verigate.Base.Json.{
  Value, Items, Fields, arr, nil, cons, end, field, subset_items, has_key, contains_item, get,
  value_eq, same_value,
}
use verigate.Models.{Limits, Capability, has_limit, limit_for}
use verigate.Base.Int.{ℤ, ltb_ℤ}

abbrev pub max_delegation_depth : ℕ
max_delegation_depth = 32

-- `_is_subset`
unfoldable pub is_subset : List String → List String → Bool
is_subset child parent = if nonempty parent then nonempty child && subset child parent else true

-- `parent_limit is not None and child_limit > parent_limit`
abbrev pub above_limit : Option ℤ → ℤ → Bool
above_limit none child_limit = false
above_limit (some parent_limit) child_limit = ltb_ℤ parent_limit child_limit

-- the first loop of `_limits_subset`
abbrev pub limits_below : Limits → Limits → Bool
limits_below [] parent = true
limits_below ((key, child_limit) ∷ rest) parent =
    not (above_limit (limit_for parent key) child_limit) && limits_below rest parent

-- `all(key in child for key in parent)`
abbrev pub has_limits : Limits → Limits → Bool
has_limits child [] = true
has_limits child ((key, _) ∷ rest) = has_limit child key && has_limits child rest

-- `_limits_subset`
unfoldable pub limits_subset : Limits → Limits → Bool
limits_subset child parent =
    if not (limits_below child parent)
    then false
    else if not (nonempty parent)
    then true
    else has_limits child parent

-- One context constraint of the child against the parent's.
abbrev pub constraint_in_scope : Value → Value → Bool
constraint_in_scope (arr parent) (arr child) = subset_items child parent
constraint_in_scope (arr parent) child = contains_item parent child
constraint_in_scope parent child = same_value child parent

-- The loop over the parent's context constraints.
unfoldable pub context_in_scope : Fields → Fields → Bool
context_in_scope end child = true
context_in_scope (field key expected rest) child =
    has_key key child && constraint_in_scope expected (get key child) && context_in_scope rest child

-- `child.expires_at is None or child.expires_at > parent.expires_at`, where the parent expires
abbrev pub outlives : Option ℕ → Option ℕ → Bool
outlives child none = false
outlives none (some t) = true
outlives (some c) (some t) = ltb t c

unfoldable pub validate_delegation_scope : Capability → Capability → Bool × String
validate_delegation_scope parent child =
    if not (child.delegated_from == some parent.capability_id)
    then (false, "delegated_from does not match parent capability")
    else if not (child.delegation_depth == parent.delegation_depth + 1)
    then (false, "invalid delegation depth")
    else if ltb max_delegation_depth child.delegation_depth
    then (false, "delegation depth exceeds maximum")
    else if is_none parent.identity_id
    then (false, "parent capability is not identity-bound")
    else if not (child.delegated_by_identity_id == parent.identity_id)
    then (false, "delegator identity does not own parent capability")
    else if not (is_subset child.allowed_actions parent.allowed_actions)
    then (false, "delegated allowed_actions exceeds parent scope")
    else if not (is_subset child.allowed_purposes parent.allowed_purposes)
    then (false, "delegated allowed_purposes exceeds parent scope")
    else if not (is_subset child.allowed_targets parent.allowed_targets)
    then (false, "delegated allowed_targets exceeds parent scope")
    else if not (is_subset child.allowed_resources parent.allowed_resources)
    then (false, "delegated allowed_resources exceeds parent scope")
    else if not (is_subset child.allowed_networks parent.allowed_networks)
    then (false, "delegated allowed_networks exceeds parent scope")
    else if not (is_subset child.allowed_assets parent.allowed_assets)
    then (false, "delegated allowed_assets exceeds parent scope")
    else if not (context_in_scope parent.context_constraints child.context_constraints)
    then (false, "delegated context constraint exceeds parent scope")
    else if not (limits_subset child.max_per_action parent.max_per_action)
    then (false, "delegated per-action limits exceed parent authority")
    else if not (limits_subset child.aggregate_limits parent.aggregate_limits)
    then (false, "delegated aggregate limits exceed parent authority")
    else if not (subset parent.conditions child.conditions)
    then (false, "delegation removed a parent condition")
    else if outlives child.expires_at parent.expires_at
    then (false, "delegated capability outlives parent capability")
    else (true, "delegation scope valid")
