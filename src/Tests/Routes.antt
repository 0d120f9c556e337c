-- ===== src/Tests/Routes.antt =====
-- Runs of the router on small inputs.
use verigate.Base.{
  refl, [], ◌∷◌, none, some, true, false, ok, err, suc, ◌≡◌, string_eq, nat_eq, option_eq, ℕ,
  String, Result, Error, Bool, List, Option, ◌==◌, ◌+◌, if◌then◌else◌, ◌≤◌,
}
use verigate.Base.Json.{Fields, Value, end, field, obj, str, null, value_eq}
use verigate.Storage.{Storage, Receipt, empty}
use verigate.Storage.Nonces.{
  consume_execution_nonce, record_execution_receipt, execution_receipt_by_authorization,
}
use verigate.Bindings.{
  canonical_external_state, validate_external_state_binding, verify_external_state_binding,
}
use verigate.Router.{Envelope, Adapter, ExecutionRouter, adapter_of}
use verigate.Router.Execute.{execute, delivery, verify_execution_path, verify_external_state}
use verigate.Router.Receipts.{
  execute_with_receipt, outcome, attempt, keep_receipt, execute_new, unless_stored, with_key,
}
use verigate.Router.Signing.{
  sign_execution_receipt, transaction_ref_of, Confirmation, confirm_execution_receipt,
}
use verigate.Router.Stored.{execute_with_receipt_again}
use verigate.Router.Rejected.{rejected_envelope_blocks}
use verigate.Router.Effects.{Broadcast, replay, made_for}
use verigate.Enforcement.Once.{spent}
use verigate.Router.Once.{broadcast_at_most_once, receipted, done}

abbrev local_gate : Adapter
local_gate = record {
  validate = λ a now. (true, "");
  request = λ a. ok a.authorization.action;
  bound_request = none;
  execution_external_state_scope = none;
  module_name = "enforcement.local";
  hook = "ExecutionGate";
  execution_enforcement_scope = "direct";
}

abbrev small_router : ExecutionRouter
small_router = record {
  registry = record { by_name = []; by_chain_id = [] };
  private_key = some "key";
  generic_adapters = ("transfer", local_gate) ∷ [];
  external_state_verifier = none;
  external_state_registry = none;
  gate = local_gate;
  evm = local_gate;
  solana = local_gate;
}

abbrev envelope : Envelope
envelope = record {
  authorization = record {
    authorization_id = "authorization";
    intent_id = "intent";
    agent_id = "agent";
    nonce = "intent";
    issued_at = 1;
    action = field "action_type" (str "transfer") end;
  };
  execution_graph = obj end;
  execution_artifact = obj end;
  external_state = obj end;
  external_state_required = false;
  external_state_requirement = null;
  bound = end;
  authority_ledger_head_hash = none;
}

-- the world counts the broadcasts
abbrev broadcaster : Fields → ℕ → Result Value × ℕ
broadcaster request count = (ok (str "0x1"), suc count)

abbrev sign : String → Receipt → String
sign key receipt = key

abbrev hexadecimal : String → Bool
hexadecimal s = true

abbrev accepts : Envelope → ℕ → Bool × String
accepts a now = (true, "valid execution authorization")

abbrev digest : Receipt → String
digest receipt = "digest"

abbrev text : Error → String
text e = ""

abbrev receipt_of : Result Receipt × (Storage × ℕ) → Receipt
receipt_of (ok receipt, st) = receipt
receipt_of (err e, st) = record {
  receipt_id = "";
  authorization_id = "";
  intent_id = "";
  agent_id = "";
  bound = end;
  authority_ledger_head_hash = none;
  network = "";
  status = "";
  transaction_ref = none;
  executor = "";
  error = none;
  previous_receipt_sha256 = none;
  confirmation_ref = none;
  confirmation_data = end;
  execution_external_state_scope = none;
  executed_at = 0;
  signature = "";
}

abbrev first_call : Result Receipt × (Storage × ℕ)
first_call =
    execute_with_receipt sign hexadecimal accepts text broadcaster small_router envelope "verigate"
      "r1" 5 (empty, 0)

abbrev submitted : Receipt
submitted = receipt_of first_call

is_submitted : (submitted.status ≡ "SUBMITTED") × (first_call.1.1 ≡ 1)
unfolding execute_with_receipt with_key unless_stored execute_new attempt execute delivery outcome
    keep_receipt sign_execution_receipt execution_receipt_by_authorization record_execution_receipt
    adapter_of verify_execution_path verify_external_state verify_external_state_binding
    canonical_external_state validate_external_state_binding value_eq string_eq nat_eq option_eq
    transaction_ref_of consume_execution_nonce
is_submitted = (refl, refl)

first_call_ok : first_call ≡ (ok submitted, first_call.1)
unfolding execute_with_receipt with_key unless_stored execute_new attempt execute delivery outcome
    keep_receipt sign_execution_receipt execution_receipt_by_authorization record_execution_receipt
    adapter_of verify_execution_path verify_external_state verify_external_state_binding
    canonical_external_state validate_external_state_binding value_eq string_eq nat_eq option_eq
    transaction_ref_of consume_execution_nonce
first_call_ok = refl

broadcast_at_most_once_example :
    (broadcasts : List Broadcast) × (first_call.1.1 ≡ replay broadcaster broadcasts 0)
    × ((nonce : String)
        → made_for broadcaster nonce broadcasts + (if spent nonce empty then 1 else 0) ≤ 1)
broadcast_at_most_once_example =
    broadcast_at_most_once sign digest hexadecimal accepts text broadcaster {st = (empty, 0)}
      {st' = first_call.1}
      (receipted small_router envelope "verigate" "r1" 5 (empty, 0) first_call.1
        (done first_call.1))

execute_with_receipt_again_example :
    execute_with_receipt sign hexadecimal accepts text broadcaster small_router envelope "other"
      "r2" 9
      (first_call.1.0, 7)
    ≡ (ok submitted, (first_call.1.0, 7))
execute_with_receipt_again_example =
    execute_with_receipt_again sign hexadecimal accepts text broadcaster small_router envelope
      envelope "verigate" "other" "r1" "r2" 5 9 submitted (empty, 0) first_call.1 first_call.1.0 7
      first_call_ok refl refl

abbrev confirmation : Confirmation
confirmation = record {
  state = "CONFIRMED";
  transaction_ref = none;
  error = none;
  confirmation_ref = some "block";
  confirmation_data = end;
}

abbrev store_of : Result (Option Receipt × Storage) → Storage
store_of (ok (answer, s)) = s
store_of (err e) = empty

abbrev answer_of : Result (Option Receipt × Storage) → Option Receipt
answer_of (ok (answer, s)) = answer
answer_of (err e) = none

abbrev confirming : Result (Option Receipt × Storage)
confirming =
    confirm_execution_receipt sign digest small_router submitted confirmation "verigate" 8
      first_call.1.0

-- an envelope of another agent with the same authorization id
abbrev forged : Envelope
forged = record envelope { authorization = record envelope.authorization { agent_id = "mallory" } }

abbrev own_agent : Envelope → ℕ → Bool × String
own_agent a now = (a.authorization.agent_id == "agent", "")

abbrev forged_call : Result Receipt × (Storage × ℕ)
forged_call =
    execute_with_receipt sign hexadecimal own_agent text broadcaster small_router forged "verigate"
      "r1" 5 (empty, 0)

abbrev forged_receipt : Receipt
forged_receipt = receipt_of forged_call

forged_call_ok : forged_call ≡ (ok forged_receipt, forged_call.1)
unfolding execute_with_receipt with_key unless_stored execute_new attempt execute delivery outcome
    keep_receipt sign_execution_receipt execution_receipt_by_authorization record_execution_receipt
    adapter_of verify_execution_path verify_external_state verify_external_state_binding
    canonical_external_state validate_external_state_binding value_eq string_eq nat_eq option_eq
    transaction_ref_of consume_execution_nonce
forged_call_ok = refl

is_rejected : (own_agent forged 5).0 ≡ false
unfolding string_eq
is_rejected = refl

nothing_stored : execution_receipt_by_authorization "authorization" empty ≡ none
unfolding execution_receipt_by_authorization
nothing_stored = refl

rejected_envelope_blocks_example :
    (forged_receipt.status ≡ "FAILED")
    × (forged_call.1.0.execution_nonces ≡ empty.execution_nonces)
    × (forged_call.1.1 ≡ 0)
    × ((a : Envelope) (executor' receipt_id' : String) (later : ℕ) (w : ℕ)
        → a.authorization.authorization_id ≡ "authorization"
        → execute_with_receipt sign hexadecimal own_agent text broadcaster small_router a executor'
            receipt_id' later
            (forged_call.1.0, w)
          ≡ (ok forged_receipt, (forged_call.1.0, w)))
rejected_envelope_blocks_example =
    rejected_envelope_blocks sign hexadecimal own_agent text broadcaster small_router forged
      "verigate" "r1" 5 forged_receipt (empty, 0) forged_call.1 is_rejected nothing_stored
      forged_call_ok
