-- ===== src/EffectiveAuthority.antt =====
-- core/effective_authority.py: the ceiling signed into an execution authorization, the intersection of
-- capability, policy and dynamic authority, and its test before the side effect. `times` is the
-- product of a limit and a multiplier, rounded as Python rounds floats.
pub mod Ceiling
use verigate.Base.{
  ◌>>=◌, ◌>>◌, inl, inr, refl, [], ◌∷◌, ◌++◌, none, some, true, false, zero, suc, ok, err, ◌≡◌,
  ◌==◌, string_eq, nat_eq, Option, List, Bool, if◌then◌else◌, String, ℕ, Result, where_rows,
  nonempty, permission_error, raise_if, not, contains, ◌&&◌,
}
use verigate.Base.Json.{
  Fields, Value, Items, null, bool, num, str, arr, obj, nil, cons, end, field, value_eq,
  contains_item, has_key, get, same_value,
}
use verigate.Base.Int.{pos, negsuc, ℤ, ◌*ℤ◌, ltb_ℤ}
use verigate.Money.{finite, not_finite, nan, not_number, Amount}
use verigate.Models.{
  or_empty, Limits, Capability, ActionIntent, limit_for, outside_opt, context_permits,
}
use verigate.Policy.{Policy}
use verigate.AuthorityState.{AuthoritySnapshot}
use verigate.Base.Text.{contains_lower}

-- the fields of the ceiling that are tested
pub record EffectiveAuthority : Type 0 where
  pub action_type : Option (List String)
  pub purpose : Option (List String)
  pub target : Option (List String)
  pub resource : Option (List String)
  pub network : Option (List String)
  pub asset : Option (List String)
  pub context_constraints : Fields
  pub per_action_limits : Limits

-- `_intersect`
unfoldable pub intersect : List String → Option (List String) → Option (List String)
intersect [] policy = policy
intersect (v ∷ vs) none = some (v ∷ vs)
intersect (v ∷ vs) (some policy) = some (where_rows (contains policy) (v ∷ vs))

abbrev keep_items : (Value → Bool) → Items → Items
keep_items p nil = nil
keep_items p (cons v vs) = if p v then cons v (keep_items p vs) else keep_items p vs

abbrev only : Bool → Value → Items
only true v = cons v nil
only false v = nil

-- The value of a key that both dictionaries have.
unfoldable pub meet : Value → Value → Value
meet (arr cap) (arr pol) = arr (keep_items (contains_item pol) cap)
meet (arr cap) pol = arr (keep_items (λ v. same_value v pol) cap)
meet cap (arr pol) = arr (only (contains_item pol cap) cap)
meet cap pol = if same_value cap pol then cap else arr nil

-- the capability's keys, met with the policy's where it has the key
abbrev meet_fields : Fields → Fields → Fields
meet_fields end policy = end
meet_fields (field key cap rest) policy =
    field key (if has_key key policy then meet cap (get key policy) else cap)
      (meet_fields rest policy)

-- the policy's other keys
abbrev add_fields : Fields → Fields → Fields → Fields
add_fields capability end result = result
add_fields capability (field key pol rest) result =
    if has_key key capability
    then add_fields capability rest result
    else field key pol (add_fields capability rest result)

-- `_context_intersection`; a dictionary's order does not matter to its reader.
unfoldable pub context_intersection : Fields → Fields → Fields
unfolding meet
context_intersection capability policy =
    add_fields capability policy (meet_fields capability policy)

abbrev pub min_ℤ : ℤ → ℤ → ℤ
min_ℤ a b = if ltb_ℤ b a then b else a

abbrev cap_or : Option ℤ → ℤ → ℤ
cap_or none limit = limit
cap_or (some cap) limit = cap

module _ (times : ℤ → ℕ → ℤ) where
  -- `min(limit, policy.per_tx_cap.get(asset, limit), limit * multiplier)`
  unfoldable pub effective_limit : Option ℤ → ℕ → ℤ → ℤ
  effective_limit cap m limit = min_ℤ (min_ℤ limit (cap_or cap limit)) (times limit m)

  abbrev pub effective_limits : Limits → Limits → ℕ → Limits
  effective_limits [] caps m = []
  effective_limits ((asset, limit) ∷ rest) caps m =
      (asset, effective_limit (limit_for caps asset) m limit) ∷ effective_limits rest caps m

  unfoldable pub effective_authority : Capability → Policy → AuthoritySnapshot → EffectiveAuthority
  unfolding intersect context_intersection effective_limit
  effective_authority capability policy authority = record {
    action_type = intersect capability.allowed_actions policy.allowed_action_types;
    purpose = intersect capability.allowed_purposes policy.allowed_purposes;
    target = intersect capability.allowed_targets policy.allowed_targets;
    resource = some capability.allowed_resources;
    network = intersect capability.allowed_networks policy.allowed_networks;
    asset = intersect capability.allowed_assets policy.allowed_assets;
    context_constraints =
        context_intersection capability.context_constraints policy.context_constraints;
    per_action_limits =
        effective_limits capability.max_per_action policy.per_tx_cap authority.multiplier;
  }

-- `allowed and value not in allowed`, for a list that may be `None`
abbrev pub beyond : Option (List String) → Option String → Bool
beyond none value = false
beyond (some allowed) value = outside_opt allowed value

abbrev pub purpose_beyond : Option (List String) → String → Bool
purpose_beyond none purpose = false
purpose_beyond (some purposes) purpose = nonempty purposes && not (contains_lower purposes purpose)

abbrev pub limit_of_asset : Limits → Option String → Option ℤ
limit_of_asset limits none = none
limit_of_asset limits (some asset) = limit_for limits asset

-- The amount against the asset's limit; a bool has the message of an amount that exceeds.
unfoldable pub check_amount : Option ℤ → Option Amount → Result (Unit {0})
check_amount none amount = ok tt
check_amount (some limit) none =
    err (permission_error "execution amount exceeds effective authority")
check_amount (some limit) (some not_number) =
    err (permission_error "execution amount or effective authority limit is invalid")
check_amount (some limit) (some not_finite) =
    err (permission_error "execution amount or effective authority limit is not finite")
check_amount (some limit) (some nan) =
    err (permission_error "execution amount or effective authority limit is not finite")
check_amount (some limit) (some (finite a)) =
    raise_if (ltb_ℤ limit a) (permission_error "execution amount exceeds effective authority")

abbrev pub refuse : Bool → String → Result (Unit {0})
refuse b reason = raise_if b (permission_error reason)

-- The answer `(False, reason)` is the error with that reason. The action is the signed intent's fields.
unfoldable pub verify_effective_action : ActionIntent → EffectiveAuthority → Result (Unit {0})
unfolding check_amount
verify_effective_action action authority = do
  refuse (beyond authority.action_type (some action.action_type))
      "execution action outside effective action_type authority"
  refuse (beyond authority.target (some action.target))
      "execution action outside effective target authority"
  refuse (beyond authority.resource (some action.resource))
      "execution action outside effective resource authority"
  refuse (beyond authority.network action.network)
      "execution action outside effective network authority"
  refuse (beyond authority.asset action.asset) "execution action outside effective asset authority"
  refuse (purpose_beyond authority.purpose action.purpose)
      "execution purpose outside effective authority"
  refuse (not (context_permits authority.context_constraints action.declared_context))
      "execution context outside effective authority"
  check_amount (limit_of_asset authority.per_action_limits action.asset) action.amount
