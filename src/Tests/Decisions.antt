-- ===== src/Tests/Decisions.antt =====
-- Decisions of the engine on small inputs.
use verigate.Base.{
  runtime_error, Result, refl, none, some, ok, err, string_eq, ◌≡◌, nat_eq, arith, value_error, ◌-◌,
  ◌≤◌, ◌==◌, ◌≢◌, false,
}
use verigate.Base.Int.{pos, ◌+ℤ◌}
use verigate.Money.{
  Amount, not_finite, nan, not_number, finite, total_of, is_valid_amount, exceeds, total,
}
use verigate.Models.{allow, decision_eq, exact_amount, limit_for}
use verigate.Storage.{empty, Storage}
use verigate.Engine.Limits.Rate.{begin, pay, Run, let_through, Run-rate_limit}
use verigate.Tests.Data.{digest, small_policy, payment, lower_payment, bad_action}
use verigate.Engine.{evaluate, payment_decision}
use verigate.Base.Text.{upper, lower}
use verigate.Money.Order.{WithinCap}
use verigate.Storage.Audit.{
  Python, exact_spend, spent_today, payee_seen_before, calls_last_minute, record_payment,
}
use verigate.Rules.{
  check_daily_cap, check_blocked_payee, check_payee_allowlist, check_network_allowed,
  check_asset_allowed, check_per_tx_cap, check_new_payee_cap, check_confirmation_threshold,
  check_rate_limit,
}
use verigate.Engine.Limits.{evaluate_allow-daily_cap, other_spelling_passes_daily_cap}
use verigate.Engine.Payments.{decision, recorded}

abbrev kept : Amount → Result Amount
kept (finite a) = ok (finite a)
kept not_finite = ok not_finite
kept nan = err (runtime_error "NOT NULL constraint failed: audit_log.amount")
kept not_number = err (value_error "not a number")

abbrev python : Python
python = record { sha256_json = digest; float = kept; rounded = λ a. a; column = kept }

abbrev after_payment : Storage
after_payment = recorded python small_policy empty payment 5000 (finite (pos 60))

payment_allowed : (decision python small_policy empty payment 5000).decision ≡ allow
unfolding evaluate string_eq check_blocked_payee lower check_payee_allowlist check_network_allowed
    check_asset_allowed check_per_tx_cap is_valid_amount upper exceeds check_new_payee_cap
    payee_seen_before check_daily_cap spent_today ◌+ℤ◌ check_confirmation_threshold check_rate_limit
    calls_last_minute decision_eq total total_of exact_spend payment_decision
payment_allowed = refl

payment_evaluated :
    evaluate python small_policy empty payment 5000
    ≡ ok (decision python small_policy empty payment 5000, after_payment)
unfolding evaluate record_payment payment_decision
payment_evaluated = refl

bad_exact :
    exact_amount bad_action ≡ err (value_error "amount_exact must be finite and non-negative")
unfolding exact_amount
bad_exact = refl

cap_found : limit_for small_policy.daily_cap (upper "USDC") ≡ some (pos 100)
unfolding string_eq upper
cap_found = refl

evaluate_allow-daily_cap_example :
    WithinCap (pos 100) (exact_spend "agent" "USDC" 5000 after_payment)
evaluate_allow-daily_cap_example =
    evaluate_allow-daily_cap python small_policy empty payment 5000 (pos 100)
      (decision python small_policy empty payment 5000) after_payment refl refl payment_evaluated
      payment_allowed cap_found

same_asset : upper "usdc" ≡ upper "USDC"
unfolding upper
same_asset = refl

texts_differ : (lower_payment.asset == payment.asset) ≡ false
unfolding string_eq
texts_differ = refl

other_text : lower_payment.asset ≢ payment.asset
other_text h = ground (arith, texts_differ)

nothing_spent : spent_today python "agent" "usdc" 5000 empty ≡ finite (pos 0)
unfolding spent_today exact_spend total_of
nothing_spent = refl

other_spelling_passes_daily_cap_example :
    check_daily_cap lower_payment small_policy
      (spent_today python "agent" "usdc" 5000 after_payment)
    ≡ none
other_spelling_passes_daily_cap_example =
    other_spelling_passes_daily_cap python small_policy empty payment 5000 lower_payment (pos 100)
      60 (decision python small_policy empty payment 5000) after_payment payment_evaluated
      same_asset other_text cap_found nothing_spent refl (omega arith)

one-Run : Run python small_policy 5000 after_payment
one-Run =
    pay payment 5000 after_payment (decision python small_policy empty payment 5000)
      (begin empty refl) (omega arith) payment_evaluated

Run-rate_limit_example : let_through "agent" (5000 - 60) after_payment ≤ 2
Run-rate_limit_example =
    Run-rate_limit python small_policy (omega arith) "agent" 5000 one-Run (omega arith)
