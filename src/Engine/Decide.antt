-- ===== src/Engine/Decide.antt =====
-- How the severities of the matches make the final decision.
use verigate.Base.{
  ◌≡◌, ◌↔◌, Bool, true, false, List, [], ◌∷◌, Option, none, some, any, arith, refl, ℕ,
}
use verigate.Models.{allow, block, RuleMatch, PaymentIntent}
use verigate.Engine.{matches_of, is_block, final_decision}
use verigate.Rules.{
  check_rate_limit, check_blocked_payee, check_payee_allowlist, check_network_allowed,
  check_asset_allowed, check_per_tx_cap, check_new_payee_cap, check_daily_cap,
  check_confirmation_threshold,
}
use verigate.Policy.{Policy}
use verigate.Money.{Amount}

-- every check was met
abbrev pub NoMatch : List (Option RuleMatch) → Type 0
NoMatch [] = Unit
NoMatch (c ∷ rest) = (c ≡ none) × NoMatch rest

-- does a check hold the action back outright?
abbrev pub blocks : Option RuleMatch → Bool
blocks none = false
blocks (some m) = is_block m

any-matches_of :
    (checks : List (Option RuleMatch)) → any is_block (matches_of checks) ≡ any blocks checks
any-matches_of [] = refl
any-matches_of (none ∷ rest) = any-matches_of rest
any-matches_of (some m ∷ rest) = ground (arith, any-matches_of rest)

-- every match blocks or warns, so a decision without matches is the only ALLOW
allow_no_matches : (matches : List RuleMatch) → final_decision matches ≡ allow → matches ≡ []
unfolding final_decision
allow_no_matches [] h = refl
allow_no_matches (m ∷ rest) h = ground arith

NoMatch-iff : (checks : List (Option RuleMatch)) → (matches_of checks ≡ []) ↔ NoMatch checks
NoMatch-iff [] = (λ _. tt, λ _. refl)
NoMatch-iff (none ∷ rest) = ground (arith, NoMatch-iff rest)
NoMatch-iff (some m ∷ rest) = (λ h. cc, λ h. cc (h.0))

pub allow_iff :
    (checks : List (Option RuleMatch))
    → (final_decision (matches_of checks) ≡ allow) ↔ NoMatch checks
unfolding final_decision
allow_iff checks = (
  λ h. (NoMatch-iff checks).0 (allow_no_matches (matches_of checks) h),
  λ h. rw ((NoMatch-iff checks).1 h),
)

pub block_iff :
    (checks : List (Option RuleMatch))
    → (final_decision (matches_of checks) ≡ block) ↔ (any blocks checks ≡ true)
unfolding final_decision
block_iff checks = rw any-matches_of (ground arith)

-- The checks that hold a payment back, and those that only ask for a confirmation.
module _ (p : PaymentIntent) (policy : Policy) where
  pub blocked_payee_blocks :
      blocks (check_blocked_payee p policy) ≡ false → check_blocked_payee p policy ≡ none
  unfolding check_blocked_payee
  blocked_payee_blocks h = ground arith

  pub payee_allowlist_blocks :
      blocks (check_payee_allowlist p policy) ≡ false → check_payee_allowlist p policy ≡ none
  unfolding check_payee_allowlist
  payee_allowlist_blocks h = ground arith

  pub network_allowed_blocks :
      blocks (check_network_allowed p policy) ≡ false → check_network_allowed p policy ≡ none
  unfolding check_network_allowed
  network_allowed_blocks h = ground arith

  pub asset_allowed_blocks :
      blocks (check_asset_allowed p policy) ≡ false → check_asset_allowed p policy ≡ none
  unfolding check_asset_allowed
  asset_allowed_blocks h = ground arith

  pub per_tx_cap_blocks :
      blocks (check_per_tx_cap p policy) ≡ false → check_per_tx_cap p policy ≡ none
  unfolding check_per_tx_cap
  per_tx_cap_blocks h = ground arith

  pub new_payee_cap_blocks : (seen : Bool) → blocks (check_new_payee_cap p policy seen) ≡ false
  unfolding check_new_payee_cap
  new_payee_cap_blocks seen = ground arith

  pub daily_cap_blocks : (spent : Amount) → blocks (check_daily_cap p policy spent) ≡ false
  unfolding check_daily_cap
  daily_cap_blocks spent = ground arith

  pub confirmation_blocks : blocks (check_confirmation_threshold p policy) ≡ false
  unfolding check_confirmation_threshold
  confirmation_blocks = ground arith

pub rate_limit_blocks :
    (policy : Policy) (calls : ℕ)
    → blocks (check_rate_limit policy calls) ≡ false
    → check_rate_limit policy calls ≡ none
unfolding check_rate_limit
rate_limit_blocks policy calls h = ground arith
