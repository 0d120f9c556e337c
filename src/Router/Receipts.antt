-- ===== src/Router/Receipts.antt =====
-- enforcement/router.py: the receipts that `execute_with_receipt` signs and keeps.
use verigate.Base.{
  none, some, ok, err, string_eq, nat_eq, option_eq, value_error, Option, String, Result, ℕ, Bool,
  Error,
}
use verigate.Base.Json.{Value, Fields, end, get}
use verigate.Storage.{Storage, Receipt}
use verigate.Storage.Nonces.{record_execution_receipt, execution_receipt_by_authorization}
use verigate.Router.{Envelope, Adapter, ExecutionRouter, adapter_of}
use verigate.Router.Execute.{execute}
use verigate.Router.Signing.{nonempty_text, or_no_text, transaction_ref_of, sign_execution_receipt}

module _ (sign_payload : String → Receipt → String) where
  module _ (is_hexadecimal : String → Bool)
      (verify_execution_authorization : Envelope → ℕ → Bool × String)
      (error_text : Error → String) where
    abbrev pub payload_of :
        Envelope
        → String
        → Option String
        → String
        → Option String
        → String
        → Option String
        → ℕ
        → Receipt
    payload_of a status transaction_ref executor error receipt_id scope now = record {
      receipt_id = receipt_id;
      authorization_id = a.authorization.authorization_id;
      intent_id = a.authorization.intent_id;
      agent_id = a.authorization.agent_id;
      bound = a.bound;
      authority_ledger_head_hash = a.authority_ledger_head_hash;
      network = or_no_text (nonempty_text (get "network" a.authorization.action));
      status = status;
      transaction_ref = transaction_ref;
      executor = executor;
      error = error;
      previous_receipt_sha256 = none;
      confirmation_ref = none;
      confirmation_data = end;
      execution_external_state_scope = scope;
      executed_at = now;
      signature = "";
    }

    abbrev pub scope_of : Result Adapter → Option String
    scope_of (err e) = none
    scope_of (ok adapter) = adapter.execution_external_state_scope

    abbrev pub failed : Envelope → Error → String → String → Option String → ℕ → Receipt
    failed a e executor receipt_id scope now =
        payload_of a "FAILED" none executor (some (error_text e)) receipt_id scope now

    -- The payload of the receipt, by the outcome of the execution.
    abbrev pub reported : Envelope → Option String → String → String → Option String → ℕ → Receipt
    reported a (some ref) executor receipt_id scope now =
        payload_of a "SUBMITTED" (some ref) executor none receipt_id scope now
    reported a none executor receipt_id scope now =
        failed a (value_error "broadcaster returned no transaction reference") executor receipt_id
          scope now

    unfoldable pub outcome : Envelope → Result Value → String → String → Option String → ℕ → Receipt
    unfolding transaction_ref_of
    outcome a (err e) executor receipt_id scope now = failed a e executor receipt_id scope now
    outcome a (ok result) executor receipt_id scope now =
        reported a (transaction_ref_of result) executor receipt_id scope now

    module _ {W : Type 0} (broadcaster : Fields → W → Result Value × W) where
      -- The `try` block: an adapter that cannot be chosen fails before `execute`.
      unfoldable pub attempt :
          Result Adapter
          → ExecutionRouter
          → Envelope
          → ℕ
          → Storage × W
          → Result Value × (Storage × W)
      unfolding execute
      attempt (err e) r a now st = (err e, st)
      attempt (ok adapter) r a now st =
          execute is_hexadecimal verify_execution_authorization broadcaster r a now st

      abbrev pub with_store :
          Receipt → Result Storage → Storage × W → Result Receipt × (Storage × W)
      with_store receipt (err e) st = (err e, st)
      with_store receipt (ok s) st = (ok receipt, (s, st.1))

      unfoldable pub keep_receipt :
          Result Receipt → ℕ → Storage × W → Result Receipt × (Storage × W)
      unfolding record_execution_receipt
      keep_receipt (err e) now st = (err e, st)
      keep_receipt (ok receipt) now st =
          with_store receipt (record_execution_receipt receipt now st.0) st

      unfoldable pub execute_new :
          String
          → ExecutionRouter
          → Envelope
          → String
          → String
          → ℕ
          → Storage × W
          → Result Receipt × (Storage × W)
      unfolding adapter_of outcome attempt keep_receipt sign_execution_receipt
      execute_new private_key r a executor receipt_id now st =
          let adapter = adapter_of r a in
          let done = attempt adapter r a now st in
          keep_receipt
            (sign_execution_receipt sign_payload private_key
              (outcome a done.0 executor receipt_id (scope_of adapter) now))
            now done.1

      unfoldable pub unless_stored :
          Option Receipt
          → String
          → ExecutionRouter
          → Envelope
          → String
          → String
          → ℕ
          → Storage × W
          → Result Receipt × (Storage × W)
      unfolding execute_new
      unless_stored (some existing) private_key r a executor receipt_id now st = (ok existing, st)
      unless_stored none private_key r a executor receipt_id now st =
          execute_new private_key r a executor receipt_id now st

      unfoldable pub with_key :
          Option String
          → ExecutionRouter
          → Envelope
          → String
          → String
          → ℕ
          → Storage × W
          → Result Receipt × (Storage × W)
      unfolding execution_receipt_by_authorization unless_stored
      with_key none r a executor receipt_id now st =
          (err (value_error "execution receipt signing key is required"), st)
      with_key (some private_key) r a executor receipt_id now st =
          unless_stored (execution_receipt_by_authorization a.authorization.authorization_id st.0)
            private_key r a executor receipt_id now st

      -- `execute_with_receipt`
      unfoldable pub execute_with_receipt :
          ExecutionRouter
          → Envelope
          → String
          → String
          → ℕ
          → Storage × W
          → Result Receipt × (Storage × W)
      unfolding with_key
      execute_with_receipt r a executor receipt_id now st =
          with_key r.private_key r a executor receipt_id now st
