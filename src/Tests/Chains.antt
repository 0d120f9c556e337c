-- ===== src/Tests/Chains.antt =====
-- Capabilities and their delegation on small inputs.
use verigate.Base.{refl, some, true, false, ok, suc, string_eq, option_eq, ◌≡◌, nat_eq, ◌↔◌, ℕ, ◌≤◌}
use verigate.Money.{exceeds, is_valid_amount}
use verigate.Delegation.Attenuation.{self, link, as_agent, delegation_attenuates}
use verigate.Capabilities.Revocation.{itself, revocation_is_transitive}
use verigate.Tests.Data.{action, parent, child, store}
use verigate.Models.{permits, exact_amount}
use verigate.Delegation.{validate_delegation_scope, is_subset, context_in_scope, limits_subset}
use verigate.Models.Permits.{InScope, permits_iff}
use verigate.Capabilities.{effective_active, max_depth}
use verigate.Storage.{Storage}
use verigate.Storage.Registries.{revoke_capability, capability_of, status_eq}
use verigate.Base.Text.{lower}
use verigate.Capabilities.Chain.{LiveChain, effective_active_iff}

child-permits : permits child action 5000 ≡ ok (true, "capability permits action")
unfolding permits string_eq exact_amount exceeds is_valid_amount lower
child-permits = refl

child_of_parent : validate_delegation_scope parent child ≡ (true, "delegation scope valid")
unfolding validate_delegation_scope string_eq option_eq nat_eq is_subset context_in_scope
    limits_subset
child_of_parent = refl

delegation_attenuates_example :
    permits parent (as_agent "boss" action) 5000 ≡ ok (true, "capability permits action")
delegation_attenuates_example =
    delegation_attenuates {root = parent} {leaf = child} action 5000 "capability permits action"
      (link child "delegation scope valid" self child_of_parent) child-permits

effective_active_iff_example :
    (effective_active "child" 5000 store ≡ true)
    ↔ ((n : ℕ) × (n ≤ suc max_depth) × LiveChain 5000 store n (some "child"))
effective_active_iff_example = effective_active_iff 5000 store "child"

abbrev revoked_store : Storage
revoked_store = (revoke_capability "parent" 6000 store).1

is_revoked : revoke_capability "parent" 6000 store ≡ (true, revoked_store)
unfolding revoke_capability string_eq status_eq nat_eq is_subset context_in_scope limits_subset
is_revoked = refl

child_found : capability_of "child" store ≡ some child
unfolding capability_of string_eq
child_found = refl

revocation_is_transitive_example : effective_active "child" 7000 revoked_store ≡ false
revocation_is_transitive_example =
    revocation_is_transitive "parent" 6000 store revoked_store "child" 7000 is_revoked
      (verigate.Capabilities.Revocation.child "child" "parent" child child_found refl itself)

permits_iff_example :
    (permits child action 5000 ≡ ok (true, "capability permits action")) ↔ InScope child action 5000
permits_iff_example = permits_iff child action 5000
