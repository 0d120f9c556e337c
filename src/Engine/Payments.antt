-- ===== src/Engine/Payments.antt =====
-- What `evaluate` decides, in terms of the policy's limits and the recorded history.
use verigate.Base.{
  ℕ, ◌≡◌, ◌⊎◌, true, false, any, arith, Bool-cases, inl, inr, ◌≢◌, Result-cases, ok, ok-injective,
  sym, ap, ◌∙◌, none,
}
use verigate.Base.Text.{contains_lower, contains_upper, upper}
use verigate.Models.{PaymentIntent, GuardrailDecision, limit_for}
use verigate.Policy.{Policy}
use verigate.Storage.Audit.{Python, with_row, payment_row, record_payment}
use verigate.Storage.{Storage}
use verigate.Engine.{
  payment_checks, payee_seen_before, spent_today, calls_last_minute, evaluate, payment_decision,
  allow, block,
}
use verigate.Engine.Decide.{
  NoMatch, blocks, blocked_payee_blocks, payee_allowlist_blocks, allow_iff, network_allowed_blocks,
  block_iff, asset_allowed_blocks, per_tx_cap_blocks, rate_limit_blocks,
}
use verigate.Rules.Payment.{
  Listed, UnderCap, blocked_payee_iff, UnderDaily, payee_allowlist_iff, UnderRate,
  network_allowed_iff, asset_allowed_iff, per_tx_cap_iff, rate_limit_iff, new_payee_cap_iff,
  daily_cap_iff, confirmation_iff,
}
use verigate.Money.{is_valid_amount, Amount}

-- The limits that no confirmation lifts.
pub record HardLimits (policy : Policy) (s : Storage) (p : PaymentIntent) (now : ℕ) : Type 0 where
  pub payee_not_blocked : contains_lower policy.blocked_payees p.payee ≡ false
  pub payee_listed : Listed contains_lower policy.allowed_payees p.payee
  pub network_listed : Listed contains_lower policy.allowed_networks p.network
  pub asset_listed : Listed contains_upper policy.allowed_assets p.asset
  pub amount_valid : is_valid_amount p.amount ≡ true
  pub under_tx_cap : UnderCap (limit_for policy.per_tx_cap (upper p.asset)) p.amount
  pub under_rate : UnderRate policy (calls_last_minute p.agent_id now s)

-- The limits whose excess asks for a confirmation.
pub record SoftLimits (python : Python) (policy : Policy) (s : Storage) (p : PaymentIntent)
    (now : ℕ) : Type 0 where
  pub known_or_small :
      (payee_seen_before p.agent_id p.payee p.intent_id s ≡ true)
      ⊎ UnderCap (limit_for policy.new_payee_cap (upper p.asset)) p.amount
  pub under_daily :
      UnderDaily
        (limit_for policy.daily_cap (upper p.asset))
        p.amount
        (spent_today python p.agent_id p.asset now s)
  pub under_confirmation :
      UnderCap (limit_for policy.confirmation_required_over (upper p.asset)) p.amount

module _ (python : Python) (policy : Policy) (s : Storage) (p : PaymentIntent) (now : ℕ) where
  NoMatch-sound :
      NoMatch (payment_checks python policy s p now)
      → HardLimits policy s p now × SoftLimits python policy s p now
  unfolding payment_checks
  NoMatch-sound (a, (b, (c, (d, (e, (f, (g, (h, (r, _))))))))) = (
    record {
      payee_not_blocked = (blocked_payee_iff p policy).0 a;
      payee_listed = (payee_allowlist_iff p policy).0 b;
      network_listed = (network_allowed_iff p policy).0 c;
      asset_listed = (asset_allowed_iff p policy).0 d;
      amount_valid = ((per_tx_cap_iff p policy).0 e).0;
      under_tx_cap = ((per_tx_cap_iff p policy).0 e).1;
      under_rate = (rate_limit_iff policy _).0 r;
    },
    record {
      known_or_small = (new_payee_cap_iff p policy _).0 f;
      under_daily = (daily_cap_iff p policy _).0 g;
      under_confirmation = (confirmation_iff p policy).0 h;
    },
  )

  -- the decision of `evaluate`
  abbrev pub decision : GuardrailDecision
  decision = payment_decision python policy s p now

  -- the storage after the evaluation
  abbrev pub recorded : Amount → Storage
  recorded stored = with_row s (payment_row p decision none now stored)

  evaluate-ok :
      (stored : Amount)
      → python.column p.amount ≡ ok stored
      → evaluate python policy s p now ≡ ok (decision, recorded stored)
  unfolding evaluate payment_decision record_payment
  evaluate-ok stored h = rw h

  -- what an evaluation that has decided has stored
  pub evaluate-stored :
      (d : GuardrailDecision) (s' : Storage)
      → evaluate python policy s p now ≡ ok (d, s')
      → (stored : Amount) × (python.column p.amount ≡ ok stored)
        × (d ≡ decision)
        × (s' ≡ recorded stored)
  unfolding evaluate record_payment
  evaluate-stored d s' h = elim (Result-cases (python.column p.amount)) [
    | inl (stored, e) ↦ (
      stored,
      e,
      ap (λ x. x.0) (ok-injective (sym h ∙ evaluate-ok stored e)),
      ap (λ x. x.1) (ok-injective (sym h ∙ evaluate-ok stored e)),
    )
    | inr (x, e) ↦ ground arith
  ]

  pub allow-SoftLimits : decision.decision ≡ allow → SoftLimits python policy s p now
  unfolding payment_decision
  allow-SoftLimits h = (NoMatch-sound ((allow_iff (payment_checks python policy s p now)).0 h)).1

  -- what is left when no check blocks
  blocks_sound :
      any blocks (payment_checks python policy s p now) ≡ false → HardLimits policy s p now
  unfolding payment_checks
  blocks_sound h = record {
    payee_not_blocked =
        (blocked_payee_iff p policy).0 (ground (arith, blocked_payee_blocks p policy));
    payee_listed =
        (payee_allowlist_iff p policy).0 (ground (arith, payee_allowlist_blocks p policy));
    network_listed =
        (network_allowed_iff p policy).0 (ground (arith, network_allowed_blocks p policy));
    asset_listed = (asset_allowed_iff p policy).0 (ground (arith, asset_allowed_blocks p policy));
    amount_valid = ((per_tx_cap_iff p policy).0 (ground (arith, per_tx_cap_blocks p policy))).0;
    under_tx_cap = ((per_tx_cap_iff p policy).0 (ground (arith, per_tx_cap_blocks p policy))).1;
    under_rate =
        (rate_limit_iff policy _).0
          (ground (arith, rate_limit_blocks policy (calls_last_minute p.agent_id now s)));
  }

  -- A payment that is not blocked is within the hard limits.
  pub not_block-HardLimits : decision.decision ≢ block → HardLimits policy s p now
  unfolding payment_decision
  not_block-HardLimits n = elim (Bool-cases (any blocks (payment_checks python policy s p now))) [
    | inl b ↦ absurd (n ((block_iff (payment_checks python policy s p now)).1 b))
    | inr f ↦ blocks_sound f
  ]
