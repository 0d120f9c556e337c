-- ===== src/Engine.antt =====
-- core/engine.py: the evaluation of a payment and of a generic action inside one transaction. An
-- operation reads the clock once; an exception of the storage rolls the transaction back.
pub mod Decide
pub mod Payments
pub mod Actions
pub mod Limits
pub mod Governed
use verigate.Base.{
  ℕ, String, ◌≡◌, Bool, true, false, List, [], ◌∷◌, Option, none, some, if◌then◌else◌, any, Result,
  ok, err, ◌>>=◌,
}
use verigate.Models.{
  Decision, allow, warn, block, Severity, severity_block, severity_warn, ActionIntent,
  PaymentIntent, RuleMatch, GuardrailDecision, context_digest, as_action_intent,
}
use verigate.Policy.{Policy}
use verigate.Rules.{
  check_blocked_payee, check_payee_allowlist, check_network_allowed, check_asset_allowed,
  check_per_tx_cap, check_new_payee_cap, check_daily_cap, check_confirmation_threshold,
  check_rate_limit, check_action_type_allowed, check_purpose_allowed, check_context_constraints,
  check_input_provenance, check_execution_graph, check_destination_allowed, check_target_allowed,
  check_generic_network_allowed, check_generic_asset_allowed, check_generic_amount_cap,
}
use verigate.Storage.{Storage}
use verigate.Storage.Audit.{
  Python, record_action, record_payment, payee_seen_before, spent_today, calls_last_minute,
}

-- `if match: matches.append(match)` for each check in turn
abbrev pub matches_of : List (Option RuleMatch) → List RuleMatch
matches_of [] = []
matches_of (none ∷ rest) = matches_of rest
matches_of (some m ∷ rest) = m ∷ matches_of rest

abbrev pub is_block : RuleMatch → Bool
is_block m = elim m.severity [ severity_block ↦ true | severity_warn ↦ false ]

abbrev pub is_warn : RuleMatch → Bool
is_warn m = elim m.severity [ severity_block ↦ false | severity_warn ↦ true ]

unfoldable pub final_decision : List RuleMatch → Decision
final_decision matches =
    if any is_block matches then block else if any is_warn matches then warn else allow

-- The checks of `evaluate`, in its order, with what they read of the storage.
pub payment_checks : Python → Policy → Storage → PaymentIntent → ℕ → List (Option RuleMatch)
payment_checks python policy s intent now =
    check_blocked_payee intent policy
    ∷ check_payee_allowlist intent policy
    ∷ check_network_allowed intent policy
    ∷ check_asset_allowed intent policy
    ∷ check_per_tx_cap intent policy
    ∷ check_new_payee_cap intent policy
        (payee_seen_before intent.agent_id intent.payee intent.intent_id s)
    ∷ check_daily_cap intent policy (spent_today python intent.agent_id intent.asset now s)
    ∷ check_confirmation_threshold intent policy
    ∷ check_rate_limit policy (calls_last_minute intent.agent_id now s)
    ∷ []

-- The checks of `evaluate_action`; the amount check has been made, since it may raise.
pub action_checks : Policy → Storage → ActionIntent → ℕ → Option RuleMatch → List (Option RuleMatch)
action_checks policy s action now amount_match =
    check_action_type_allowed action policy
    ∷ check_purpose_allowed action policy
    ∷ check_context_constraints action policy
    ∷ check_input_provenance action policy
    ∷ check_execution_graph action policy
    ∷ check_destination_allowed action policy
    ∷ check_target_allowed action policy
    ∷ check_generic_network_allowed action policy
    ∷ check_generic_asset_allowed action policy
    ∷ amount_match
    ∷ check_rate_limit policy (calls_last_minute action.agent_id now s)
    ∷ []

module _ (python : Python) (policy : Policy) where
  unfoldable pub payment_decision : Storage → PaymentIntent → ℕ → GuardrailDecision
  unfolding payment_checks final_decision
  payment_decision s intent now =
      let matches = matches_of (payment_checks python policy s intent now) in
      record {
        intent_id = intent.intent_id;
        agent_id = intent.agent_id;
        decision = final_decision matches;
        matched_rules = matches;
        context_digest = context_digest python.sha256_json (as_action_intent intent);
        evaluated_at = now;
      }

  -- `evaluate`: the decision, and the storage with its audit row.
  unfoldable pub evaluate : Storage → PaymentIntent → ℕ → Result (GuardrailDecision × Storage)
  unfolding payment_decision record_payment
  evaluate s intent now = do
    let decision = payment_decision s intent now
    s' ← record_payment python intent decision none now s
    ok (decision, s')

  pub action_decision : Storage → ActionIntent → ℕ → Option RuleMatch → GuardrailDecision
  unfolding action_checks final_decision
  action_decision s action now amount_match =
      let matches = matches_of (action_checks policy s action now amount_match) in
      record {
        intent_id = action.intent_id;
        agent_id = action.agent_id;
        decision = final_decision matches;
        matched_rules = matches;
        context_digest = context_digest python.sha256_json action;
        evaluated_at = now;
      }

  -- `evaluate_action`
  unfoldable pub evaluate_action : Storage → ActionIntent → ℕ → Result (GuardrailDecision × Storage)
  unfolding action_decision record_action
  evaluate_action s action now = do
    amount_match ← check_generic_amount_cap action policy
    let decision = action_decision s action now amount_match
    s' ← record_action python action decision none now s
    ok (decision, s')
