-- ===== src/Storage/Nonces.antt =====
-- Execution nonces and receipts of core/storage.py. A row's other columns repeat the receipt.
use verigate.Base.{
  none, some, [], ◌∷◌, ◌++◌, true, false, ok, err, ◌==◌, string_eq, nat_eq, String, ℕ, Bool, List,
  if◌then◌else◌, ◌||◌, Result, any, count_rows, value_error, Option, some, first_row,
}
use verigate.Storage.{Receipt, ReceiptRow, Storage}

-- The nonce is the primary key: an insert of one that is there fails.
unfoldable pub consume_execution_nonce :
    String → String → String → String → ℕ → Storage → Bool × Storage
consume_execution_nonce nonce authorization_id intent_id agent_id now s =
    if any (λ row. row.nonce == nonce) s.execution_nonces then (false, s) else (
      true,
      record s {
        execution_nonces =
            s.execution_nonces
            ++ (record {
              nonce = nonce;
              authorization_id = authorization_id;
              intent_id = intent_id;
              agent_id = agent_id;
              consumed_at = now;
            })
              ∷ [];
      },
    )

-- The receipt id is the primary key, and the authorization id is unique.
abbrev pub same_receipt : Receipt → ReceiptRow → Bool
same_receipt receipt row =
    row.receipt_id == receipt.receipt_id || row.authorization_id == receipt.authorization_id

unfoldable pub record_execution_receipt : Receipt → ℕ → Storage → Result Storage
record_execution_receipt receipt now s =
    if any (same_receipt receipt) s.execution_receipts
    then err (value_error "execution receipt already recorded")
    else ok (record s {
      execution_receipts =
          s.execution_receipts
          ++ (record {
            receipt_id = receipt.receipt_id;
            authorization_id = receipt.authorization_id;
            receipt = receipt;
            created_at = now;
          })
            ∷ [];
    })

abbrev update_rows : Receipt → ℕ → List ReceiptRow → List ReceiptRow
update_rows receipt now [] = []
update_rows receipt now (row ∷ rows) =
    (if row.authorization_id == receipt.authorization_id
      then record row { receipt = receipt; created_at = now }
      else row)
    ∷ update_rows receipt now rows

abbrev row_receipt : Option ReceiptRow → Option Receipt
row_receipt none = none
row_receipt (some row) = some row.receipt

unfoldable pub execution_receipt_by_authorization : String → Storage → Option Receipt
execution_receipt_by_authorization authorization_id s = row_receipt (
    first_row (λ (row : ReceiptRow). row.authorization_id == authorization_id) s.execution_receipts)

-- A row count other than one rolls back and raises.
unfoldable pub update_execution_receipt : Receipt → ℕ → Storage → Result Storage
update_execution_receipt receipt now s =
    if count_rows (λ (row : ReceiptRow). row.authorization_id == receipt.authorization_id)
        s.execution_receipts
      == 1
    then ok (record s { execution_receipts = update_rows receipt now s.execution_receipts })
    else err (value_error "execution receipt not found")
