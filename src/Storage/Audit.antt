-- ===== src/Storage/Audit.antt =====
-- The audit log of core/storage.py: what is recorded of a decision, and the reads that the rules use.
use verigate.Base.{
  ℕ, String, ◌-◌, ◌*◌, Bool, ◌&&◌, not, List, [], ◌∷◌, ◌++◌, Option, none, some, map, ◌==◌,
  if◌then◌else◌, leb, any, where_rows, count_rows, string_eq, nat_eq, is_none, Result, ok, err,
  ◌>>=◌, value_error,
}
use verigate.Base.Int.{pos}
use verigate.Base.Json.{Value}
use verigate.Money.{Amount, finite, total_of}
use verigate.Models.{block, ActionIntent, PaymentIntent, GuardrailDecision, decision_eq, or_empty}
use verigate.Storage.{Storage, AuditRow}

-- What Python and its SQLite driver do, of which the log makes use: `sha256_json` is SHA-256 of a value's
-- canonical JSON, `float` the constructor on an amount, `rounded` the same on a `Decimal` sum, which
-- never raises, and `column` what a column `REAL NOT NULL` holds of a bound value. It raises
-- `IntegrityError` for a NaN, which the driver binds as NULL.
pub record Python : Type 0 where
  pub sha256_json : Value → String
  pub float : Amount → Result Amount
  pub rounded : Amount → Amount
  pub column : Amount → Result Amount

-- the storage with one more row
abbrev pub with_row : Storage → AuditRow → Storage
with_row s row = record s { audit_log = s.audit_log ++ row ∷ [] }

-- `float(intent.amount) if intent.amount is not None else 0.0`, as the column holds it
abbrev pub action_amount : Python → Option Amount → Result Amount
action_amount python none = python.column (finite (pos 0))
action_amount python (some a) = python.float a >>= python.column

abbrev pub action_row : ActionIntent → GuardrailDecision → Option String → ℕ → Amount → AuditRow
action_row intent decision signature now stored = record {
  intent_id = intent.intent_id;
  agent_id = intent.agent_id;
  payee = intent.target;
  asset = or_empty intent.asset;
  network = or_empty intent.network;
  amount = stored;
  decision = decision.decision;
  matched_rules = decision.matched_rules;
  signature = signature;
  created_at = now;
}

unfoldable pub record_action :
    Python → ActionIntent → GuardrailDecision → Option String → ℕ → Storage → Result Storage
record_action python intent decision signature now s = do
  stored ← action_amount python intent.amount
  ok (with_row s (action_row intent decision signature now stored))

abbrev pub payment_row : PaymentIntent → GuardrailDecision → Option String → ℕ → Amount → AuditRow
payment_row intent decision signature now stored = record {
  intent_id = intent.intent_id;
  agent_id = intent.agent_id;
  payee = intent.payee;
  asset = intent.asset;
  network = intent.network;
  amount = stored;
  decision = decision.decision;
  matched_rules = decision.matched_rules;
  signature = signature;
  created_at = now;
}

-- `Storage.record`
unfoldable pub record_payment :
    Python → PaymentIntent → GuardrailDecision → Option String → ℕ → Storage → Result Storage
record_payment python intent decision signature now s = do
  stored ← python.column intent.amount
  ok (with_row s (payment_row intent decision signature now stored))

abbrev not_blocked : AuditRow → Bool
not_blocked row = not (row.decision == block)

unfoldable pub payee_seen_before : String → String → String → Storage → Bool
unfolding decision_eq
payee_seen_before agent_id payee exclude_intent_id s =
    any
      (λ row.
        row.agent_id == agent_id
        && row.payee == payee
        && not (row.intent_id == exclude_intent_id)
        && not_blocked row)
      s.audit_log

-- the rows that count as spend of an asset since a time
abbrev pub is_spend : String → String → ℕ → AuditRow → Bool
is_spend agent_id asset since row =
    row.agent_id == agent_id && row.asset == asset && leb since row.created_at && not_blocked row

abbrev pub spend_rows : String → String → ℕ → Storage → List AuditRow
spend_rows agent_id asset since s = where_rows (is_spend agent_id asset since) s.audit_log

abbrev pub day : ℕ
day = 24 * 3600

-- the sum of the rows, in `Decimal`
unfoldable pub exact_spend : String → String → ℕ → Storage → Amount
unfolding total_of decision_eq
exact_spend agent_id asset now s =
    total_of (map (λ row. row.amount) (spend_rows agent_id asset (now - day) s))

unfoldable pub spent_today : Python → String → String → ℕ → Storage → Amount
unfolding exact_spend
spent_today python agent_id asset now s = python.rounded (exact_spend agent_id asset now s)

abbrev pub is_call : String → ℕ → AuditRow → Bool
is_call agent_id since row = row.agent_id == agent_id && leb since row.created_at

unfoldable pub calls_last_minute : String → ℕ → Storage → ℕ
calls_last_minute agent_id now s = count_rows (is_call agent_id (now - 60)) s.audit_log

unfoldable pub count_intent : String → Storage → ℕ
count_intent intent_id s = count_rows (λ row. row.intent_id == intent_id) s.audit_log

-- the row that `update_signature` may write
abbrev is_unsigned : String → AuditRow → Bool
is_unsigned intent_id row = row.intent_id == intent_id && is_none row.signature

abbrev sign_rows : String → String → List AuditRow → List AuditRow
sign_rows intent_id signature [] = []
sign_rows intent_id signature (row ∷ rows) =
    (if is_unsigned intent_id row then record row { signature = some signature } else row)
    ∷ sign_rows intent_id signature rows

-- A row count other than one rolls back and raises.
unfoldable pub update_signature : String → String → Storage → Result Storage
update_signature intent_id signature s =
    if count_rows (is_unsigned intent_id) s.audit_log == 1
    then ok (record s { audit_log = sign_rows intent_id signature s.audit_log })
    else err (value_error "intent_id was not found")
