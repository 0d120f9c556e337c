-- ===== src/Delegation/Attenuation.antt =====
-- Chains of delegations that pass the scope test of core/authority.py.
use mathlib.Core.Path.{subst}
use verigate.Base.{
  inl, inr, refl, some, true, false, ok, ◌≡◌, ◌+◌, ◌≤◌, String, Bool, passed, not, ℕ, ◌==◌, subset,
  ltb, is_none, Option-cases, ==_sound, string_eq, ◌∙◌, arith, option_eq, nat_eq, ap,
}
use verigate.Models.{Capability, Limits, exact_amount, ActionIntent, limit_for, or_empty, permits}
use verigate.Delegation.{
  validate_delegation_scope, max_delegation_depth, is_subset, limits_subset, context_in_scope,
  outlives,
}
use verigate.Models.Permits.{WithinLimit, Permitted, not-false, permits_complete, permits_sound}
use verigate.Delegation.Scope.{
  outlives-expired, is_subset-outside, limits_subset-limit_for, is_subset-purpose,
  context_in_scope-permits, is_subset-outside_opt,
}

-- What the scope test has established of a parent and a child.
pub record ScopeValid (parent child : Capability) : Type 0 where
  pub child_of : child.delegated_from ≡ some parent.capability_id
  pub depth : child.delegation_depth ≡ parent.delegation_depth + 1
  pub depth_bound : child.delegation_depth ≤ max_delegation_depth
  pub delegator : child.delegated_by_identity_id ≡ parent.identity_id
  pub actions : is_subset child.allowed_actions parent.allowed_actions ≡ true
  pub purposes : is_subset child.allowed_purposes parent.allowed_purposes ≡ true
  pub targets : is_subset child.allowed_targets parent.allowed_targets ≡ true
  pub resources : is_subset child.allowed_resources parent.allowed_resources ≡ true
  pub networks : is_subset child.allowed_networks parent.allowed_networks ≡ true
  pub assets : is_subset child.allowed_assets parent.allowed_assets ≡ true
  pub context : context_in_scope parent.context_constraints child.context_constraints ≡ true
  pub per_action : limits_subset child.max_per_action parent.max_per_action ≡ true
  pub aggregate : limits_subset child.aggregate_limits parent.aggregate_limits ≡ true
  pub conditions : subset parent.conditions child.conditions ≡ true
  pub expiry : outlives child.expires_at parent.expires_at ≡ false

refused : (m reason : String) → ¬ (◌≡◌ {A = Bool × String} (false, m) (true, reason))
refused m reason e = cc

pub scope_valid :
    (parent child : Capability) (reason : String)
    → validate_delegation_scope parent child ≡ (true, reason)
    → ScopeValid parent child
unfolding validate_delegation_scope
scope_valid parent child reason h =
    let (a, h1) =
      passed (not (child.delegated_from == some parent.capability_id)) (refused _ _) h in
    let (b, h2) =
      passed (not (child.delegation_depth == parent.delegation_depth + 1)) (refused _ _) h1 in
    let (c, h3) = passed (ltb max_delegation_depth child.delegation_depth) (refused _ _) h2 in
    let (d, h4) = passed (is_none parent.identity_id) (refused _ _) h3 in
    let (e, h5) =
      passed (not (child.delegated_by_identity_id == parent.identity_id)) (refused _ _) h4 in
    let (f, h6) =
      passed (not (is_subset child.allowed_actions parent.allowed_actions)) (refused _ _) h5 in
    let (g, h7) =
      passed (not (is_subset child.allowed_purposes parent.allowed_purposes)) (refused _ _) h6 in
    let (i, h8) =
      passed (not (is_subset child.allowed_targets parent.allowed_targets)) (refused _ _) h7 in
    let (j, h9) =
      passed (not (is_subset child.allowed_resources parent.allowed_resources)) (refused _ _) h8 in
    let (k, h10) =
      passed (not (is_subset child.allowed_networks parent.allowed_networks)) (refused _ _) h9 in
    let (l, h11) =
      passed (not (is_subset child.allowed_assets parent.allowed_assets)) (refused _ _) h10 in
    let (m, h12) =
      passed (not (context_in_scope parent.context_constraints child.context_constraints))
        (refused _ _) h11 in
    let (n, h13) =
      passed (not (limits_subset child.max_per_action parent.max_per_action)) (refused _ _) h12 in
    let (o, h14) =
      passed (not (limits_subset child.aggregate_limits parent.aggregate_limits)) (refused _ _)
        h13 in
    let (p, h15) = passed (not (subset parent.conditions child.conditions)) (refused _ _) h14 in
    let (q, h16) = passed (outlives child.expires_at parent.expires_at) (refused _ _) h15 in
    record {
      child_of = ==_sound _ _ (not-false _ a);
      depth = ==_sound _ _ (not-false _ b);
      depth_bound = ground arith;
      delegator = ==_sound _ _ (not-false _ e);
      actions = not-false _ f;
      purposes = not-false _ g;
      targets = not-false _ i;
      resources = not-false _ j;
      networks = not-false _ k;
      assets = not-false _ l;
      context = not-false _ m;
      per_action = not-false _ n;
      aggregate = not-false _ o;
      conditions = not-false _ p;
      expiry = q;
    }

-- the same action, proposed by another agent
abbrev pub as_agent : String → ActionIntent → ActionIntent
as_agent agent a = record a { agent_id = agent }

amount_attenuates :
    (parent child : Limits) (asset : String) (a b : ActionIntent)
    → exact_amount b ≡ exact_amount a
    → limits_subset child parent ≡ true
    → WithinLimit a (limit_for child asset)
    → WithinLimit b (limit_for parent asset)
amount_attenuates parent child asset a b same s w = elim (Option-cases (limit_for parent asset)) [
  | inl n ↦ rw n tt
  | inr (p, e) ↦
      let (c, f, le) = limits_subset-limit_for asset child parent p s e in
      let (amount, exact, within) = rw f at w in
      rw e (
        amount,
        same ∙ exact,
        record {
          units = within.units;
          is_units = within.is_units;
          below = omega (arith, within.below);
        },
      )
]

pub Permitted-attenuates :
    (parent child : Capability) (a : ActionIntent) (now : ℕ)
    → ScopeValid parent child
    → Permitted child a now
    → Permitted parent (as_agent parent.agent_id a) now
unfolding exact_amount
Permitted-attenuates parent child a now s w = record {
  agent = refl;
  current = outlives-expired child.expires_at parent.expires_at now s.expiry w.current;
  action =
      is_subset-outside child.allowed_actions parent.allowed_actions a.action_type s.actions
        w.action;
  purpose =
      is_subset-purpose child.allowed_purposes parent.allowed_purposes a.purpose s.purposes
        w.purpose;
  context =
      context_in_scope-permits parent.context_constraints child.context_constraints
        a.declared_context s.context w.context;
  target =
      is_subset-outside child.allowed_targets parent.allowed_targets a.target s.targets w.target;
  resource =
      is_subset-outside child.allowed_resources parent.allowed_resources a.resource s.resources
        w.resource;
  network =
      is_subset-outside_opt child.allowed_networks parent.allowed_networks a.network s.networks
        w.network;
  asset = is_subset-outside_opt child.allowed_assets parent.allowed_assets a.asset s.assets w.asset;
  amount =
      amount_attenuates parent.max_per_action child.max_per_action (or_empty a.asset) a
        (as_agent parent.agent_id a) refl s.per_action w.amount;
}

-- The chains of delegations whose every link passed the scope test.
pub data Delegated (root : Capability) : Capability → Type 0 where
  self : Delegated root root
  link :
      {parent : Capability} (child : Capability) (reason : String)
      → Delegated root parent
      → validate_delegation_scope parent child ≡ (true, reason)
      → Delegated root child

Delegated-Permitted :
    {root leaf : Capability} (a : ActionIntent) (now : ℕ)
    → Delegated root leaf
    → Permitted leaf a now
    → Permitted root (as_agent root.agent_id a) now
Delegated-Permitted {root} a now self w =
    subst (λ x. Permitted root x now) (ap (λ agent. as_agent agent a) w.agent) w
Delegated-Permitted {root} a now (link {parent = parent} child reason chain valid) w =
    Delegated-Permitted (as_agent parent.agent_id a) now chain
      (Permitted-attenuates parent child a now (scope_valid parent child reason valid) w)

-- Whatever a delegated capability permits, each capability up its chain of valid delegations permits too,
-- of its own agent: no link widens the actions, purposes, context, targets, resources, networks, assets,
-- amounts or lifetime.
pub delegation_attenuates :
    {root leaf : Capability} (a : ActionIntent) (now : ℕ) (reason : String)
    → Delegated root leaf
    → permits leaf a now ≡ ok (true, reason)
    → permits root (as_agent root.agent_id a) now ≡ ok (true, "capability permits action")
delegation_attenuates {root} {leaf} a now reason chain h =
    permits_complete root (as_agent root.agent_id a) now
      (Delegated-Permitted a now chain (permits_sound leaf a now reason h))
