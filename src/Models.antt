-- ===== src/Models.antt =====
-- core/models.py: intents, identities, capabilities and decisions. Times are whole ticks.
pub mod Permits
pub mod Scope
pub mod Digests
use verigate.Base.{
  ◌>>=◌, ℕ, String, ◌≡◌, Bool, true, false, ◌&&◌, ◌||◌, not, List, [], ◌∷◌, Option, none, some, map,
  Eq, ◌==◌, contains, if◌then◌else◌, leb, nonempty, string_eq, option_eq, Result, ok, err, Error,
  value_error, invalid_operation,
}
use verigate.Base.Int.{ℤ, pos, negsuc}
use verigate.Base.Text.{lower, contains_lower}
use verigate.Base.Json.{
  Value, null, num, str, arr, obj, Items, nil, cons, Fields, end, field, get, contains_item,
  value_eq, same_value,
}
use verigate.Money.{Amount, finite, not_finite, nan, not_number, exceeds}

pub data Decision : Type 0 where
  allow warn block : Decision

pub data Severity : Type 0 where
  severity_block severity_warn : Severity

pub Decision-discrete : Discrete Decision
Decision-discrete = hlevel

instance unfoldable pub decision_eq : Eq Decision
unfolding Decision-discrete
decision_eq = record { dec = Decision-discrete }

-- A dictionary of limits by asset.
abbrev pub Limits : Type 0
Limits = List (String × ℤ)

-- `limits.get(asset)`
abbrev pub limit_for : Limits → String → Option ℤ
limit_for [] asset = none
limit_for ((a, limit) ∷ rest) asset = if asset == a then some limit else limit_for rest asset

-- `asset in limits`
abbrev pub has_limit : Limits → String → Bool
has_limit [] asset = false
has_limit ((a, _) ∷ rest) asset = asset == a || has_limit rest asset

-- `text or ""`
abbrev pub or_empty : Option String → String
or_empty none = ""
or_empty (some s) = s

-- `amount_exact` is the decimal that its text spells; a text that spells none is `not_number`.
pub record ActionIntent : Type 0 where
  pub agent_id : String
  pub action_type : String
  pub target : String
  pub resource : String
  pub amount : Option Amount
  pub amount_exact : Option Amount
  pub asset : Option String
  pub network : Option String
  pub purpose : String
  pub declared_context : Fields
  pub input_provenance : Fields
  pub parent_intent_id : Option String
  pub requested_capability : Option String
  pub constraints : Fields
  pub metadata : Fields
  pub intent_id : String
  pub timestamp : ℕ

pub record PaymentIntent : Type 0 where
  pub agent_id : String
  pub payee : String
  pub asset : String
  pub network : String
  pub amount : Amount
  pub resource : String
  pub metadata : Fields
  pub intent_id : String
  pub timestamp : ℕ

unfoldable pub as_action_intent : PaymentIntent → ActionIntent
as_action_intent p = record {
  agent_id = p.agent_id;
  action_type = "payment";
  target = p.payee;
  resource = p.resource;
  amount = some p.amount;
  amount_exact = none;
  asset = some p.asset;
  network = some p.network;
  purpose = "";
  declared_context = end;
  input_provenance = end;
  parent_intent_id = none;
  requested_capability = none;
  constraints = end;
  metadata = p.metadata;
  intent_id = p.intent_id;
  timestamp = p.timestamp;
}

abbrev pub check_exact : Amount → Result (Option Amount)
check_exact (finite (pos n)) = ok (some (finite (pos n)))
check_exact (finite (negsuc n)) = err (value_error "amount_exact must be finite and non-negative")
check_exact not_finite = err (value_error "amount_exact must be finite and non-negative")
check_exact nan = err (value_error "amount_exact must be finite and non-negative")
check_exact not_number = err (value_error "amount_exact must be a valid decimal")

abbrev pub exact_or : Option Amount → Option Amount → Result (Option Amount)
exact_or none (some not_number) = err (invalid_operation "")
exact_or none amount = ok amount
exact_or (some exact) _ = check_exact exact

-- The property `exact_amount`; it raises on a bad `amount_exact`.
unfoldable pub exact_amount : ActionIntent → Result (Option Amount)
exact_amount a = exact_or a.amount_exact a.amount

abbrev pub opt_str : Option String → Value
opt_str none = null
opt_str (some s) = str s

-- The property `context_digest`, over the SHA-256 of a value's canonical JSON.
unfoldable pub context_digest : (Value → String) → ActionIntent → String
context_digest sha256_json a = sha256_json (
    obj (
      field "constraints" (obj a.constraints) (
        field "declared_context" (obj a.declared_context) (
          field "input_provenance" (obj a.input_provenance) (
            field "parent_intent_id" (opt_str a.parent_intent_id) (
              field "purpose" (str a.purpose)
                (field "requested_capability" (opt_str a.requested_capability) end)))))))

pub record AgentIdentity : Type 0 where
  pub agent_id : String
  pub public_key_b64 : String
  pub key_id : String
  pub organization_id : String
  pub identity_version : ℕ
  pub reputation_ref : Option String
  pub issued_at : ℕ
  pub expires_at : Option ℕ
  pub metadata : Fields

pub record Capability : Type 0 where
  pub capability_id : String
  pub agent_id : String
  pub identity_id : Option String
  pub delegated_from : Option String
  pub delegated_by_identity_id : Option String
  pub delegation_depth : ℕ
  pub allowed_actions : List String
  pub allowed_purposes : List String
  pub context_constraints : Fields
  pub allowed_targets : List String
  pub allowed_resources : List String
  pub allowed_networks : List String
  pub allowed_assets : List String
  pub max_per_action : Limits
  pub aggregate_limits : Limits
  pub conditions : List String
  pub version : ℕ
  pub issued_at : ℕ
  pub expires_at : Option ℕ
  pub metadata : Fields

-- One constraint against the declared value: a list is a set of choices, else the value itself.
abbrev pub context_matches : Value → Value → Bool
context_matches (arr choices) actual = contains_item choices actual
context_matches expected actual = same_value actual expected

-- The loop over the constraints: does each of them hold?
abbrev pub context_permits : Fields → Fields → Bool
context_permits end context = true
context_permits (field key expected rest) context =
    context_matches expected (get key context) && context_permits rest context

-- `now >= expires_at`
abbrev pub expired : Option ℕ → ℕ → Bool
expired none now = false
expired (some t) now = leb t now

-- `allowed and value not in allowed`
abbrev pub outside : List String → String → Bool
outside allowed value = nonempty allowed && not (contains allowed value)

-- the same, where the value may be `None`
abbrev pub outside_opt : List String → Option String → Bool
outside_opt allowed none = nonempty allowed
outside_opt allowed (some value) = outside allowed value

abbrev pub over_limit : Option Amount → ℤ → Bool
over_limit none limit = true
over_limit (some amount) limit = exceeds amount limit

abbrev pub amount_verdict : ℤ → Option Amount → Bool × String
amount_verdict limit amount =
    if over_limit amount limit
    then (false, "action exceeds capability limit")
    else (true, "capability permits action")

-- The last test of `permits`: the exact amount is read only where the asset has a limit.
unfoldable pub permits_amount : ActionIntent → Option ℤ → Result (Bool × String)
permits_amount action none = ok (true, "capability permits action")
permits_amount action (some limit) = do
  amount ← exact_amount action
  ok (amount_verdict limit amount)

unfoldable pub permits : Capability → ActionIntent → ℕ → Result (Bool × String)
unfolding permits_amount
permits c action now =
    if not (action.agent_id == c.agent_id)
    then ok (false, "capability agent mismatch")
    else if expired c.expires_at now
    then ok (false, "capability expired")
    else if outside c.allowed_actions action.action_type
    then ok (false, "action type outside capability")
    else if nonempty c.allowed_purposes && not (contains_lower c.allowed_purposes action.purpose)
    then ok (false, "purpose outside capability")
    else if not (context_permits c.context_constraints action.declared_context)
    then ok (false, "context outside capability")
    else if outside c.allowed_targets action.target
    then ok (false, "target outside capability")
    else if outside c.allowed_resources action.resource
    then ok (false, "resource outside capability")
    else if outside_opt c.allowed_networks action.network
    then ok (false, "network outside capability")
    else if outside_opt c.allowed_assets action.asset
    then ok (false, "asset outside capability")
    else permits_amount action (limit_for c.max_per_action (or_empty action.asset))

pub record RuleMatch : Type 0 where
  pub rule_id : String
  pub severity : Severity

pub record GuardrailDecision : Type 0 where
  pub intent_id : String
  pub agent_id : String
  pub decision : Decision
  pub matched_rules : List RuleMatch
  pub context_digest : String
  pub evaluated_at : ℕ
