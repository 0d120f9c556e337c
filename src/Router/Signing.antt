-- ===== src/Router/Signing.antt =====
-- enforcement/router.py: the signature of an execution receipt (`sign_execution_receipt` of attest/receipt.py) and
-- its confirmation. The signature of a receipt's payload and its digest are parameters.
use verigate.Base.{
  [], ◌∷◌, none, some, ok, err, ◌==◌, ◌>>=◌, ◌>>◌, string_eq, nat_eq, option_eq, value_error,
  if◌then◌else◌, Option, List, String, Result, ℕ, contains, raise_if, not, ◌||◌,
}
use verigate.Base.Json.{Value, null, bool, num, str, obj, arr, Fields, get}
use verigate.Storage.{Storage, Receipt}
use verigate.Storage.Nonces.{update_execution_receipt}
use verigate.Router.{ExecutionRouter}

abbrev pub nonempty_text : Value → Option String
nonempty_text (str s) = if s == "" then none else some s
nonempty_text null = none
nonempty_text (bool _) = none
nonempty_text (num _) = none
nonempty_text (obj _) = none
nonempty_text (arr _) = none

abbrev pub or_else : Option String → Option String → Option String
or_else none other = other
or_else (some s) other = some s

-- `_transaction_ref`
unfoldable pub transaction_ref_of : Value → Option String
transaction_ref_of (str s) = nonempty_text (str s)
transaction_ref_of (obj result) =
    or_else (nonempty_text (get "transaction_hash" result))
      (or_else (nonempty_text (get "tx_hash" result)) (nonempty_text (get "signature" result)))
transaction_ref_of null = none
transaction_ref_of (bool _) = none
transaction_ref_of (num _) = none
transaction_ref_of (arr _) = none

abbrev pub or_no_text : Option String → String
or_no_text none = ""
or_no_text (some s) = s

abbrev pub receipt_status : List String
receipt_status = "SUBMITTED" ∷ "CONFIRMED" ∷ "FAILED" ∷ []

pub record Confirmation : Type 0 where
  pub state : String
  pub transaction_ref : Option String
  pub error : Option String
  -- `block_ref or slot`
  pub confirmation_ref : Option String
  pub confirmation_data : Fields

module _ (sign_payload : String → Receipt → String) where
  -- `sign_execution_receipt`: a payload, unsigned, becomes a signed receipt
  unfoldable pub sign_execution_receipt : String → Receipt → Result Receipt
  sign_execution_receipt private_key payload =
      if contains receipt_status payload.status
      then ok (record payload { signature = sign_payload private_key payload })
      else err (value_error "invalid execution receipt status")

  module _ (receipt_digest : Receipt → String) where
    -- The payload of a confirmation: it repeats the receipt's, but for the head of the ledger.
    abbrev pub confirmed_payload : Receipt → Confirmation → String → String → ℕ → Receipt
    confirmed_payload receipt confirmation transaction_ref executor now = record receipt {
      authority_ledger_head_hash = none;
      status = confirmation.state;
      transaction_ref = some transaction_ref;
      executor = executor;
      error = confirmation.error;
      previous_receipt_sha256 = some (receipt_digest receipt);
      confirmation_ref = confirmation.confirmation_ref;
      confirmation_data = confirmation.confirmation_data;
      executed_at = now;
    }

    abbrev pub or_no_reference : Option String → Result String
    or_no_reference none = err (value_error "confirmation is missing transaction reference")
    or_no_reference (some ref) = ok ref

    abbrev pub text_or_none : Option String → Option String
    text_or_none none = none
    text_or_none (some s) = nonempty_text (str s)

    -- The receipt of a submitted execution with its final state.
    unfoldable pub confirm_submitted :
        String → Receipt → Confirmation → String → ℕ → Storage → Result (Option Receipt × Storage)
    unfolding update_execution_receipt sign_execution_receipt
    confirm_submitted private_key receipt confirmation executor now s = do
      raise_if (not (confirmation.state == "CONFIRMED" || confirmation.state == "FAILED"))
          (value_error "invalid confirmation state")
      ref ← or_no_reference (
          or_else (text_or_none confirmation.transaction_ref)
            (text_or_none receipt.transaction_ref))
      raise_if (not (receipt.transaction_ref == some ref))
          (value_error "confirmation transaction reference mismatch")
      updated ←
          sign_execution_receipt private_key
            (confirmed_payload receipt confirmation ref executor now)
      s' ← update_execution_receipt updated now s
      ok (some updated, s')

    unfoldable pub confirm_with :
        Option String
        → Receipt
        → Confirmation
        → String
        → ℕ
        → Storage
        → Result (Option Receipt × Storage)
    unfolding confirm_submitted
    confirm_with none receipt confirmation executor now s =
        err (value_error "execution receipt signing key is required")
    confirm_with (some private_key) receipt confirmation executor now s =
        let confirmed = confirm_submitted private_key receipt confirmation executor now s in
        if confirmation.state == "PENDING"
        then ok (none, s)
        else if not (receipt.status == "SUBMITTED")
        then ok (some receipt, s)
        else confirmed

    -- `confirm_execution_receipt`
    unfoldable pub confirm_execution_receipt :
        ExecutionRouter
        → Receipt
        → Confirmation
        → String
        → ℕ
        → Storage
        → Result (Option Receipt × Storage)
    unfolding confirm_with
    confirm_execution_receipt r receipt confirmation executor now s =
        confirm_with r.private_key receipt confirmation executor now s
