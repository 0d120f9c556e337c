-- ===== src/Rules/Payment.antt =====
-- Each payment check as a proposition about the intent: the check is met exactly when it holds.
use verigate.Base.{
  ℕ, String, ◌≡◌, ◌↔◌, ◌+◌, Bool, true, false, List, Option, none, some, arith, refl, ◌⊎◌, ◌<◌,
}
use verigate.Base.Int.{ℤ, pos, negsuc, ◌≤ℤ◌, ◌+ℤ◌}
use verigate.Base.Text.{contains_lower, contains_upper, upper}
use verigate.Money.{Amount, finite, not_finite, nan, not_number, is_valid_amount, total}
use verigate.Money.Order.{WithinCap, exceeds_sound, exceeds_complete}
use verigate.Models.{PaymentIntent, limit_for}
use verigate.Policy.{Policy}
use verigate.Rules.{
  check_blocked_payee, check_payee_allowlist, check_network_allowed, check_asset_allowed, over_cap,
  not_listed, over_daily_cap, check_per_tx_cap, check_new_payee_cap, check_daily_cap,
  check_confirmation_threshold, check_rate_limit,
}

-- An allowlist, where there is one, names the value.
abbrev pub Listed : (List String → String → Bool) → Option (List String) → String → Type 0
Listed listed none value = Unit
Listed listed (some allowed) value = listed allowed value ≡ true

-- A cap, where there is one, is not exceeded.
abbrev pub UnderCap : Option ℤ → Amount → Type 0
UnderCap none amount = Unit
UnderCap (some cap) amount = WithinCap cap amount

-- The spend so far and the amount are valid, and together at most the daily cap, where there is one.
pub record WithinDaily (cap : ℤ) (amount spent : Amount) : Type 0 where
  pub units : ℕ
  pub spent_units : ℕ
  pub is_units : amount ≡ finite (pos units)
  pub is_spent : spent ≡ finite (pos spent_units)
  pub below : pos (spent_units + units) ≤ℤ cap

abbrev pub UnderDaily : Option ℤ → Amount → Amount → Type 0
UnderDaily none amount spent = Unit
UnderDaily (some cap) amount spent = WithinDaily cap amount spent

pub Listed-iff :
    (listed : List String → String → Bool) (allowed : Option (List String)) (v : String)
    → (not_listed listed allowed v ≡ false) ↔ Listed listed allowed v
Listed-iff listed none v = (λ _. tt, λ _. refl)
Listed-iff listed (some l) v = ground arith

pub over_cap_iff : (cap : Option ℤ) (a : Amount) → (over_cap cap a ≡ false) ↔ UnderCap cap a
over_cap_iff none a = (λ _. tt, λ _. refl)
over_cap_iff (some c) a = (exceeds_sound a c, exceeds_complete a c)

pos_total : (s a : ℕ) → total (finite (pos s)) (finite (pos a)) ≡ finite (pos (s + a))
unfolding total ◌+ℤ◌
pos_total s a = ground arith

daily_sound : (cap : ℤ) (a s : Amount) → over_daily_cap (some cap) a s ≡ false → WithinDaily cap a s
unfolding is_valid_amount total ◌+ℤ◌
daily_sound cap (finite (pos n)) (finite (pos m)) h = record {
  units = n;
  spent_units = m;
  is_units = refl;
  is_spent = refl;
  below = ground arith;
}
daily_sound cap (finite (pos n)) (finite (negsuc m)) h = cc
daily_sound cap (finite (pos n)) not_finite h = cc
daily_sound cap (finite (pos n)) nan h = cc
daily_sound cap (finite (pos n)) not_number h = cc
daily_sound cap (finite (negsuc n)) s h = cc
daily_sound cap not_finite s h = cc
daily_sound cap nan s h = cc
daily_sound cap not_number s h = cc

daily_complete :
    (cap : ℤ) (a s : Amount) → WithinDaily cap a s → over_daily_cap (some cap) a s ≡ false
unfolding is_valid_amount total ◌+ℤ◌
daily_complete cap a s w = rw (w.is_units, w.is_spent) (ground (arith, w.below))

daily_iff : (cap : Option ℤ) (a s : Amount) → (over_daily_cap cap a s ≡ false) ↔ UnderDaily cap a s
daily_iff none a s = (λ _. tt, λ _. refl)
daily_iff (some c) a s = (daily_sound c a s, daily_complete c a s)

module _ (intent : PaymentIntent) (policy : Policy) where
  pub blocked_payee_iff :
      (check_blocked_payee intent policy ≡ none)
      ↔ (contains_lower policy.blocked_payees intent.payee ≡ false)
  unfolding check_blocked_payee
  blocked_payee_iff = ground arith

  pub payee_allowlist_iff :
      (check_payee_allowlist intent policy ≡ none)
      ↔ Listed contains_lower policy.allowed_payees intent.payee
  unfolding check_payee_allowlist
  payee_allowlist_iff = ground (arith, Listed-iff contains_lower policy.allowed_payees intent.payee)

  pub network_allowed_iff :
      (check_network_allowed intent policy ≡ none)
      ↔ Listed contains_lower policy.allowed_networks intent.network
  unfolding check_network_allowed
  network_allowed_iff =
      ground (arith, Listed-iff contains_lower policy.allowed_networks intent.network)

  pub asset_allowed_iff :
      (check_asset_allowed intent policy ≡ none)
      ↔ Listed contains_upper policy.allowed_assets intent.asset
  unfolding check_asset_allowed
  asset_allowed_iff = ground (arith, Listed-iff contains_upper policy.allowed_assets intent.asset)

  pub per_tx_cap_iff : (check_per_tx_cap intent policy ≡ none) ↔ (
      (is_valid_amount intent.amount ≡ true)
      × UnderCap (limit_for policy.per_tx_cap (upper intent.asset)) intent.amount)
  unfolding check_per_tx_cap
  per_tx_cap_iff =
      ground (arith, over_cap_iff (limit_for policy.per_tx_cap (upper intent.asset)) intent.amount)

  pub new_payee_cap_iff :
      (seen : Bool)
      → (check_new_payee_cap intent policy seen ≡ none) ↔ (
          (seen ≡ true)
          ⊎ UnderCap (limit_for policy.new_payee_cap (upper intent.asset)) intent.amount)
  unfolding check_new_payee_cap
  new_payee_cap_iff seen =
      ground
        (arith, over_cap_iff (limit_for policy.new_payee_cap (upper intent.asset)) intent.amount)

  pub daily_cap_iff :
      (spent : Amount)
      → (check_daily_cap intent policy spent ≡ none)
        ↔ UnderDaily (limit_for policy.daily_cap (upper intent.asset)) intent.amount spent
  unfolding check_daily_cap
  daily_cap_iff spent =
      ground
        (arith, daily_iff (limit_for policy.daily_cap (upper intent.asset)) intent.amount spent)

  pub confirmation_iff :
      (check_confirmation_threshold intent policy ≡ none)
      ↔ UnderCap (limit_for policy.confirmation_required_over (upper intent.asset)) intent.amount
  unfolding check_confirmation_threshold
  confirmation_iff = ground (
    arith,
    over_cap_iff (limit_for policy.confirmation_required_over (upper intent.asset)) intent.amount,
  )

-- The rate limit is off, or not reached.
abbrev pub UnderRate : Policy → ℕ → Type 0
UnderRate policy calls = (policy.rate_limit_per_minute ≡ 0) ⊎ (calls < policy.rate_limit_per_minute)

pub rate_limit_iff :
    (policy : Policy) (calls : ℕ) → (check_rate_limit policy calls ≡ none) ↔ UnderRate policy calls
unfolding check_rate_limit
rate_limit_iff policy calls = ground arith
