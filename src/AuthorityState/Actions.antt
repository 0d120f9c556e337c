-- ===== src/AuthorityState/Actions.antt =====
-- What an action that dynamic authority lets through fulfils.
use verigate.Base.{
  none, some, true, false, ◌≡◌, string_eq, option_eq, Bool, Option, ℕ, ◌≢◌, contains,
}
use verigate.Storage.{elevated, suspended, Storage}
use verigate.AuthorityState.{state_eq, AuthorityPolicy, above_share, AuthoritySnapshot}
use verigate.Money.{Amount}
use verigate.Base.Int.{ℤ}
use verigate.Models.{Capability, ActionIntent, limit_for, or_empty}

module _ (times : ℤ → ℕ → ℤ) (other_above : Amount → ℤ → Bool) where
  -- the share of the capability's limit
  abbrev pub WithinShare : Option Amount → Option ℤ → ℕ → Type 0
  WithinShare none base_limit m = Unit
  WithinShare (some amount) none m = Unit
  WithinShare (some amount) (some base_limit) m =
      above_share times other_above amount (times base_limit m) ≡ false

  pub record Assertable (policy : AuthorityPolicy) (capability : Capability) (action : ActionIntent)
      (snap : AuthoritySnapshot) : Type 0 where
    pub not_suspended : snap.state ≢ suspended
    pub elevated_if_needed :
        contains policy.elevated_only_actions action.action_type ≡ true → snap.state ≡ elevated
    pub within_share :
        WithinShare action.amount
          (limit_for capability.max_per_action (or_empty action.asset))
          snap.multiplier
