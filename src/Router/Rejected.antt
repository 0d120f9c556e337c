-- ===== src/Router/Rejected.antt =====
-- What `execute_with_receipt` of enforcement/router.py keeps of an envelope that its verification rejects.
use verigate.Base.{
  String, refl, none, some, false, ok, err, ◌≡◌, string_eq, nat_eq, option_eq, value_error, Error,
  Bool, ℕ, Result, Option,
}
use verigate.Base.Json.{Value, Fields}
use verigate.Storage.{Storage, Receipt}
use verigate.Router.{Envelope, Adapter, ExecutionRouter, adapter_of}
use verigate.Router.Execute.{execute, delivery}
use verigate.Router.Receipts.{
  execute_with_receipt, outcome, attempt, unless_stored, with_key, execute_new, scope_of,
}
use verigate.Router.Signing.{sign_execution_receipt}
use verigate.Router.Stored.{keep_receipt-stored, signed_for, stored_for, execute_with_receipt_again}
use verigate.Storage.Nonces.{execution_receipt_by_authorization}

module _ (sign_payload : String → Receipt → String) (is_hexadecimal : String → Bool)
    (verify : Envelope → ℕ → Bool × String) (error_text : Error → String) {W : Type 0}
    (broadcaster : Fields → W → Result Value × W) where
  module _ (r : ExecutionRouter) (b : Envelope) (executor receipt_id : String) (now : ℕ)
      (rejected : (verify b now).0 ≡ false) where
    rejected_delivery : delivery is_hexadecimal verify r b now ≡ err (value_error (verify b now).1)
    unfolding delivery
    rejected_delivery = rw rejected refl

    rejected_attempt :
        (adapter : Result Adapter) (st : Storage × W)
        → (e : Error) × (attempt sign_payload is_hexadecimal verify error_text broadcaster adapter r
              b now st
            ≡ (err e, st))
    unfolding attempt execute
    rejected_attempt (err e) st = (e, refl)
    rejected_attempt (ok adapter) st = (value_error (verify b now).1, rw rejected_delivery refl)

    execute_new-rejected :
        (key : String) (receipt : Receipt) (st st' : Storage × W)
        → execute_new sign_payload is_hexadecimal verify error_text broadcaster key r b executor
            receipt_id now st
          ≡ (ok receipt, st')
        → (receipt.status ≡ "FAILED")
          × (st'.0.execution_nonces ≡ st.0.execution_nonces)
          × (st'.1 ≡ st.1)
    unfolding execute_new outcome
    execute_new-rejected key receipt st st' h =
        let (e, nothing) = rejected_attempt (adapter_of r b) st in
        let scope = scope_of sign_payload is_hexadecimal verify error_text (adapter_of r b) in
        let payload =
          outcome sign_payload is_hexadecimal verify error_text b (err e) executor receipt_id scope
            now in
        let (made, found, nonces, world) =
          keep_receipt-stored sign_payload is_hexadecimal verify error_text broadcaster
            (sign_execution_receipt sign_payload key payload) receipt now st st'
            (rw nothing at h) in
        (
          (signed_for sign_payload is_hexadecimal verify error_text broadcaster key payload receipt
              made).1,
          nonces,
          world,
        )

    with_key-rejected :
        (key : Option String) (receipt : Receipt) (st st' : Storage × W)
        → stored_for sign_payload is_hexadecimal verify error_text broadcaster b st.0 ≡ none
        → with_key sign_payload is_hexadecimal verify error_text broadcaster key r b executor
            receipt_id now st
          ≡ (ok receipt, st')
        → (receipt.status ≡ "FAILED")
          × (st'.0.execution_nonces ≡ st.0.execution_nonces)
          × (st'.1 ≡ st.1)
    unfolding with_key unless_stored
    with_key-rejected none receipt st st' free h = cc
    with_key-rejected (some key) receipt st st' free h =
        execute_new-rejected key receipt st st' (rw free at h)

  -- An envelope that the verification rejects leaves a stored receipt: where there was none for its id, a call that
  -- returns has stored a FAILED one, without spending a nonce or broadcasting, and then every call with an
  -- authorization of that id, a valid one included, returns that receipt and broadcasts nothing.
  pub rejected_envelope_blocks :
      (r : ExecutionRouter) (b : Envelope) (executor receipt_id : String) (now : ℕ)
      (receipt : Receipt) (st st' : Storage × W)
      → (verify b now).0 ≡ false
      → execution_receipt_by_authorization b.authorization.authorization_id st.0 ≡ none
      → execute_with_receipt sign_payload is_hexadecimal verify error_text broadcaster r b executor
          receipt_id now st
        ≡ (ok receipt, st')
      → (receipt.status ≡ "FAILED")
        × (st'.0.execution_nonces ≡ st.0.execution_nonces)
        × (st'.1 ≡ st.1)
        × ((a : Envelope) (executor' receipt_id' : String) (later : ℕ) (w : W)
            → a.authorization.authorization_id ≡ b.authorization.authorization_id
            → execute_with_receipt sign_payload is_hexadecimal verify error_text broadcaster r a
                executor' receipt_id' later
                (st'.0, w)
              ≡ (ok receipt, (st'.0, w)))
  unfolding execute_with_receipt
  rejected_envelope_blocks r b executor receipt_id now receipt st st' rejected free h =
      let (status, nonces, world) =
        with_key-rejected r b executor receipt_id now rejected r.private_key receipt st st' free
          h in
      (
        status,
        nonces,
        world,
        λ a executor' receipt_id' later w same.
            execute_with_receipt_again sign_payload is_hexadecimal verify error_text broadcaster r b
              a executor executor' receipt_id receipt_id' now later receipt st st' st'.0 w h same
              refl,
      )
