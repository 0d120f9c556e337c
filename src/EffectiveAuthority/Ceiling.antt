-- ===== src/EffectiveAuthority/Ceiling.antt =====
-- What an action that passes the ceiling of a capability, a policy and a dynamic state fulfils.
use verigate.Money.{finite, Amount}
use verigate.Base.{
  refl, [], ◌∷◌, none, some, true, false, ◌≡◌, ◌⊎◌, string_eq, option_eq, List, String, Option, ℕ,
  contains, where_rows, count_rows, arith, ok, Bool, Result, ◌>>◌,
}
use verigate.Base.Int.{ℤ, ◌≤ℤ◌}
use verigate.EffectiveAuthority.{
  intersect, beyond, effective_limit, limit_of_asset, verify_effective_action, effective_authority,
  refuse, context_intersection,
}
use verigate.Models.{outside_opt, Capability, ActionIntent, context_permits}
use verigate.AuthorityState.{AuthoritySnapshot}
use verigate.Policy.{Policy}
use verigate.Base.Text.{contains_lower}

-- the values on both lists
abbrev pub common : List String → List String → ℕ
common parent policy = count_rows (contains policy) parent

-- A value against a capability's list and a policy's: where both restrict and some value is on both lists, the
-- value is on both.
abbrev pub OnBoth : List String → Option (List String) → Option String → Type 0
OnBoth parent none value = outside_opt parent value ≡ false
OnBoth [] (some policy) value = outside_opt policy value ≡ false
OnBoth (p ∷ ps) (some policy) value =
    (common (p ∷ ps) policy ≡ 0)
    ⊎ ((v : String) × (value ≡ some v) × (contains (p ∷ ps) v ≡ true) × (contains policy v ≡ true))

kept_none :
    (policy parent : List String)
    → common parent policy ≡ 0
    → where_rows (contains policy) parent ≡ []
kept_none policy [] h = refl
kept_none policy (p ∷ ps) h = ground (arith, kept_none policy ps)

-- A purpose against a capability's list and a policy's, whatever its case.
abbrev pub PurposeOnBoth : List String → Option (List String) → String → Type 0
PurposeOnBoth [] none purpose = Unit
PurposeOnBoth (p ∷ ps) none purpose = contains_lower (p ∷ ps) purpose ≡ true
PurposeOnBoth [] (some []) purpose = Unit
PurposeOnBoth [] (some (q ∷ qs)) purpose = contains_lower (q ∷ qs) purpose ≡ true
PurposeOnBoth (p ∷ ps) (some policy) purpose =
    (common (p ∷ ps) policy ≡ 0)
    ⊎ ((contains_lower (p ∷ ps) purpose ≡ true) × (contains_lower policy purpose ≡ true))

module _ (times : ℤ → ℕ → ℤ) where
  -- A finite amount within the capability's limit, the policy's cap and the state's share of the limit.
  abbrev pub WithinAll : Option ℤ → Option ℤ → ℕ → Option Amount → Type 0
  WithinAll none tx_cap m amount = Unit
  WithinAll (some limit) none m amount =
      (a : ℤ) × (amount ≡ some (finite a)) × (a ≤ℤ limit) × (a ≤ℤ times limit m)
  WithinAll (some limit) (some tx_cap) m amount =
      (a : ℤ) × (amount ≡ some (finite a)) × (a ≤ℤ limit) × (a ≤ℤ times limit m) × (a ≤ℤ tx_cap)

  abbrev effective : Option ℤ → Option ℤ → ℕ → Option ℤ
  effective none tx_cap m = none
  effective (some limit) tx_cap m = some (effective_limit times tx_cap m limit)

other_test :
    (b c c' : Bool) (r r' : String) (rest : Result (Unit {0}))
    → c' ≡ false
    → (refuse b r >> (refuse c r' >> rest)) ≡ ok tt
    → (refuse b r >> (refuse c' r' >> rest)) ≡ ok tt
other_test true c c' r r' rest e h = cc
other_test false true c' r r' rest e h = cc
other_test false false c' r r' rest e h = rw e h

module _ (times : ℤ → ℕ → ℤ) (capability : Capability) (policy : Policy)
    (authority : AuthoritySnapshot) where
  pub record UnderCeiling (action : ActionIntent) : Type 0 where
    pub action_types :
        OnBoth capability.allowed_actions policy.allowed_action_types (some action.action_type)
    pub targets : OnBoth capability.allowed_targets policy.allowed_targets (some action.target)
    pub resource_listed : outside_opt capability.allowed_resources (some action.resource) ≡ false
    pub purposes : PurposeOnBoth capability.allowed_purposes policy.allowed_purposes action.purpose
    pub context_holds :
        context_permits
          (context_intersection capability.context_constraints policy.context_constraints)
          action.declared_context
        ≡ true
    pub networks : OnBoth capability.allowed_networks policy.allowed_networks action.network
    pub assets : OnBoth capability.allowed_assets policy.allowed_assets action.asset
    pub amounts :
        WithinAll times
          (limit_of_asset capability.max_per_action action.asset)
          (limit_of_asset policy.per_tx_cap action.asset)
          authority.multiplier
          action.amount

  -- Where the capability and the policy both list targets and the lists have none in common, the
  -- ceiling restricts no target: an action that it accepts is accepted with every other target too.
  pub disjoint_targets_unrestricted :
      (action : ActionIntent) (target : String) (p : String) (ps targets : List String)
      → capability.allowed_targets ≡ p ∷ ps
      → policy.allowed_targets ≡ some targets
      → common (p ∷ ps) targets ≡ 0
      → verify_effective_action action (effective_authority times capability policy authority)
        ≡ ok tt
      → verify_effective_action
          (record action { target = target })
          (effective_authority times capability policy authority)
        ≡ ok tt
  unfolding verify_effective_action effective_authority intersect
  disjoint_targets_unrestricted action target p ps targets own allowed none_common h =
      let open_target : beyond (effective_authority times capability policy authority).target
            (some target)
          ≡ false =
        rw (own, allowed) (rw (kept_none targets (p ∷ ps) none_common) refl) in
      other_test
        (beyond (effective_authority times capability policy authority).action_type
          (some action.action_type))
        (beyond (effective_authority times capability policy authority).target (some action.target))
        _ _ _ _ open_target h
