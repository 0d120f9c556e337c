-- ===== src/Rules.antt =====
-- core/rules.py: the rule evaluators. A check returns its match, or `none` where the rule is met. The
-- texts of the matches are left out; rule names and severities are kept.
pub mod Payment
pub mod Context
use verigate.Base.{
  ℕ, String, Bool, true, false, ◌&&◌, ◌||◌, not, List, [], ◌∷◌, Option, none, some, if◌then◌else◌,
  leb, ltb, ◌==◌, contains, string_eq, map, Result, ok, err, ◌>>=◌, nonempty, is_none,
}
use verigate.Base.Int.{ℤ, ltb_ℤ}
use verigate.Base.Text.{lower, upper, strip, contains_lower, contains_upper}
use verigate.Base.Json.{
  Value, null, str, arr, obj, Fields, end, field, get, value_eq, nonempty_fields,
}
use verigate.Money.{Amount, finite, is_valid_amount, exceeds, total, above}
use verigate.Models.{
  ActionIntent, PaymentIntent, RuleMatch, Severity, severity_block, severity_warn, limit_for,
  context_permits, exact_amount, or_empty,
}
use verigate.Policy.{Policy}

abbrev block : String → Option RuleMatch
block rule = some (record { rule_id = rule; severity = severity_block })

abbrev warn : String → Option RuleMatch
warn rule = some (record { rule_id = rule; severity = severity_warn })

-- an allowlist that is set and does not name the value, by the given test
abbrev pub not_listed : (List String → String → Bool) → Option (List String) → String → Bool
not_listed listed none value = false
not_listed listed (some allowed) value = not (listed allowed value)

unfoldable pub check_action_type_allowed : ActionIntent → Policy → Option RuleMatch
check_action_type_allowed intent policy =
    if not_listed contains_lower policy.allowed_action_types intent.action_type
    then block "action_type_not_allowed"
    else none

-- `purpose.lower() in {p.strip().lower() for p in allowed}`, of the stripped purpose
abbrev pub contains_stripped : List String → String → Bool
contains_stripped allowed purpose =
    contains (map (λ p. lower (strip p)) allowed) (lower (strip purpose))

unfoldable pub check_purpose_allowed : ActionIntent → Policy → Option RuleMatch
check_purpose_allowed intent policy =
    if not_listed contains_stripped policy.allowed_purposes intent.purpose
    then block "purpose_not_allowed"
    else none

unfoldable pub check_context_constraints : ActionIntent → Policy → Option RuleMatch
check_context_constraints intent policy =
    if context_permits policy.context_constraints intent.declared_context
    then none
    else block "context_not_allowed"

unfoldable pub check_input_provenance : ActionIntent → Policy → Option RuleMatch
check_input_provenance intent policy =
    if context_permits policy.input_provenance_constraints intent.input_provenance
    then none
    else block "input_provenance_not_allowed"

-- Does the declared path have each field that the policy expects?
abbrev pub graph_matches : Fields → Fields → Bool
graph_matches end actual = true
graph_matches (field key value rest) actual = get key actual == value && graph_matches rest actual

abbrev pub graph_match : Fields → Value → Option RuleMatch
graph_match expected (obj actual) =
    if graph_matches expected actual then none else block "execution_graph_not_allowed"
graph_match expected null = block "execution_graph_missing"
graph_match expected _ = block "execution_graph_missing"

unfoldable pub check_execution_graph : ActionIntent → Policy → Option RuleMatch
check_execution_graph intent policy =
    if nonempty_fields policy.execution_graph
    then graph_match policy.execution_graph (get "execution_graph" intent.metadata)
    else none

-- `destination.strip()` of a text that is not blank
abbrev text_destination : Value → Option String
text_destination (str s) = if strip s == "" then none else some (strip s)
text_destination null = none
text_destination _ = none

abbrev or_else : Option String → Option String → Option String
or_else (some s) other = some s
or_else none other = other

abbrev invocation_destination : Value → Option String
invocation_destination (obj invocation) = text_destination (get "destination" invocation)
invocation_destination null = none
invocation_destination _ = none

unfoldable pub action_destination : ActionIntent → Option String
action_destination intent =
    or_else (text_destination (get "destination" intent.metadata))
      (invocation_destination (get "tool_invocation" intent.metadata))

abbrev pub destination_match : Policy → Option String → Option RuleMatch
destination_match policy none = block "destination_missing"
destination_match policy (some destination) =
    if contains_lower policy.blocked_destinations destination
    then block "destination_blocked"
    else if not_listed contains_lower policy.allowed_destinations destination
    then block "destination_not_allowed"
    else none

unfoldable pub check_destination_allowed : ActionIntent → Policy → Option RuleMatch
unfolding action_destination
check_destination_allowed intent policy =
    if is_none policy.allowed_destinations && not (nonempty policy.blocked_destinations)
    then none
    else destination_match policy (action_destination intent)

unfoldable pub check_target_allowed : ActionIntent → Policy → Option RuleMatch
check_target_allowed intent policy =
    if contains_lower policy.blocked_payees intent.target
    then block "target_blocked"
    else if not_listed contains_lower policy.allowed_targets intent.target
    then block "target_not_allowed"
    else none

abbrev pub unlisted : (List String → String → Bool) → Option (List String) → Option String → Bool
unlisted listed allowed none = false
unlisted listed allowed (some value) = not_listed listed allowed value

unfoldable pub check_generic_network_allowed : ActionIntent → Policy → Option RuleMatch
check_generic_network_allowed intent policy =
    if unlisted contains_lower policy.allowed_networks intent.network
    then block "network_not_allowed"
    else none

unfoldable pub check_generic_asset_allowed : ActionIntent → Policy → Option RuleMatch
check_generic_asset_allowed intent policy =
    if unlisted contains_upper policy.allowed_assets intent.asset
    then block "asset_not_allowed"
    else none

-- `cap is not None and exceeds(amount, cap)`
abbrev pub over_cap : Option ℤ → Amount → Bool
over_cap none amount = false
over_cap (some cap) amount = exceeds amount cap

abbrev pub cap_match : Policy → String → Amount → Option RuleMatch
cap_match policy asset amount =
    if not (is_valid_amount amount)
    then block "invalid_amount"
    else if over_cap (limit_for policy.per_tx_cap (upper asset)) amount
    then block "per_tx_cap_exceeded"
    else none

abbrev pub generic_cap_match : Policy → Option String → Option Amount → Option RuleMatch
generic_cap_match policy none amount = none
generic_cap_match policy (some asset) none = none
generic_cap_match policy (some asset) (some amount) = cap_match policy asset amount

-- Reading the exact amount may raise.
unfoldable pub check_generic_amount_cap : ActionIntent → Policy → Result (Option RuleMatch)
check_generic_amount_cap intent policy = do
  amount ← exact_amount intent
  ok (generic_cap_match policy intent.asset amount)

unfoldable pub check_blocked_payee : PaymentIntent → Policy → Option RuleMatch
check_blocked_payee intent policy =
    if contains_lower policy.blocked_payees intent.payee then block "blocked_payee" else none

unfoldable pub check_payee_allowlist : PaymentIntent → Policy → Option RuleMatch
check_payee_allowlist intent policy =
    if not_listed contains_lower policy.allowed_payees intent.payee
    then block "payee_not_allowlisted"
    else none

unfoldable pub check_network_allowed : PaymentIntent → Policy → Option RuleMatch
check_network_allowed intent policy =
    if not_listed contains_lower policy.allowed_networks intent.network
    then block "network_not_allowed"
    else none

unfoldable pub check_asset_allowed : PaymentIntent → Policy → Option RuleMatch
check_asset_allowed intent policy =
    if not_listed contains_upper policy.allowed_assets intent.asset
    then block "asset_not_allowed"
    else none

unfoldable pub check_per_tx_cap : PaymentIntent → Policy → Option RuleMatch
check_per_tx_cap intent policy = cap_match policy intent.asset intent.amount

unfoldable pub check_new_payee_cap : PaymentIntent → Policy → Bool → Option RuleMatch
check_new_payee_cap intent policy payee_seen_before =
    if payee_seen_before
    then none
    else if over_cap (limit_for policy.new_payee_cap (upper intent.asset)) intent.amount
    then warn "new_payee_cap_exceeded"
    else none

abbrev over_daily_cap : Option ℤ → Amount → Amount → Bool
over_daily_cap none amount spent_today = false
over_daily_cap (some cap) amount spent_today =
    not (is_valid_amount amount)
    || not (is_valid_amount spent_today)
    || above (total spent_today amount) cap

unfoldable pub check_daily_cap : PaymentIntent → Policy → Amount → Option RuleMatch
check_daily_cap intent policy spent_today =
    if over_daily_cap (limit_for policy.daily_cap (upper intent.asset)) intent.amount spent_today
    then warn "daily_cap_exceeded"
    else none

unfoldable pub check_confirmation_threshold : PaymentIntent → Policy → Option RuleMatch
check_confirmation_threshold intent policy =
    if over_cap (limit_for policy.confirmation_required_over (upper intent.asset)) intent.amount
    then warn "confirmation_required"
    else none

unfoldable pub check_rate_limit : Policy → ℕ → Option RuleMatch
check_rate_limit policy calls_last_minute =
    if ltb 0 policy.rate_limit_per_minute && leb policy.rate_limit_per_minute calls_last_minute
    then block "rate_limit_exceeded"
    else none
