-- ===== src/Governance/Target.antt =====
-- What a reset of core/governance.py requires of its capability.
use verigate.Base.{
  none, some, true, false, ok, ◌≡◌, ◌==◌, string_eq, nat_eq, arith, ok-of_bind, ok-of_guard, ℕ, not,
  Option,
}
use verigate.Storage.{Storage, ResetRow}
use verigate.Storage.Events.{latest_authority_reset}
use verigate.Storage.Registries.{capability_is_active, capability_of}
use verigate.AuthorityState.{state_eq}
use verigate.Models.{Capability}
use verigate.Governance.Resets.{inactive_holder, not_newer, or_not_found, next_epoch, check_target}

-- An active capability of the agent, whose identity is active where it names one, and the next epoch for it.
pub record Target (reset : ResetRow) (now : ℕ) (s : Storage) : Type 0 where
  pub capability : Capability
  pub found : capability_of reset.capability_id s ≡ some capability
  pub of_agent : capability.agent_id ≡ reset.agent_id
  pub active : capability_is_active capability.capability_id now s ≡ true
  pub holder : inactive_holder capability.identity_id now s ≡ false
  pub next : reset.epoch ≡ next_epoch (latest_authority_reset reset.agent_id reset.capability_id s)
  pub newer :
      not_newer reset.issued_at (latest_authority_reset reset.agent_id reset.capability_id s)
      ≡ false

found_capability : (o : Option Capability) (c : Capability) → or_not_found o ≡ ok c → o ≡ some c
found_capability none c h = cc
found_capability (some d) c h = cc

pub check_target-Target :
    (reset : ResetRow) (now : ℕ) (s : Storage)
    → check_target reset now s ≡ ok tt
    → Target reset now s
unfolding check_target
check_target-Target reset now s h =
    let (c, found, h1) = ok-of_bind (or_not_found (capability_of reset.capability_id s)) _ h in
    let (agent, h2) = ok-of_guard (not (c.agent_id == reset.agent_id)) _ _ h1 in
    let (active, h3) = ok-of_guard (not (capability_is_active c.capability_id now s)) _ _ h2 in
    let (holder, h4) = ok-of_guard (inactive_holder c.identity_id now s) _ _ h3 in
    let latest = latest_authority_reset reset.agent_id reset.capability_id s in
    let (next, h5) = ok-of_guard (not (reset.epoch == next_epoch latest)) _ _ h4 in
    record {
      capability = c;
      found = found_capability (capability_of reset.capability_id s) c found;
      of_agent = ground arith;
      active = ground arith;
      holder = holder;
      next = ground arith;
      newer = ground arith;
    }
