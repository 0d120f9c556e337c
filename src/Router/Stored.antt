-- ===== src/Router/Stored.antt =====
-- The receipts that enforcement/router.py keeps.
use verigate.Base.{
  String, inl, inr, refl, [], ◌∷◌, none, some, false, ok, ◌≡◌, ◌==◌, string_eq, nat_eq, option_eq,
  arith, List, ℕ, any, Bool-cases, first_row, ok-injective, first_row-append_new, ==_refl, sym, ap,
  Bool, Error, Result, Option, err, ◌∙◌,
}
use verigate.Storage.{Storage, Receipt, ReceiptRow}
use verigate.Storage.Nonces.{
  record_execution_receipt, execution_receipt_by_authorization, same_receipt,
}
use verigate.Router.{Envelope, ExecutionRouter, adapter_of}
use verigate.Base.Json.{Fields, Value}
use verigate.Router.Receipts.{
  keep_receipt, outcome, with_store, reported, with_key, execute_with_receipt, execute_new,
  unless_stored, attempt, scope_of,
}
use verigate.Router.Signing.{sign_execution_receipt, transaction_ref_of}

none_before :
    (receipt : Receipt) (rows : List ReceiptRow)
    → any (same_receipt receipt) rows ≡ false
    → first_row (λ (row : ReceiptRow). row.authorization_id == receipt.authorization_id) rows ≡ none
none_before receipt [] h = refl
none_before receipt (row ∷ rows) h = ground (arith, none_before receipt rows)

pub record_execution_receipt-stored :
    (receipt : Receipt) (now : ℕ) (s s' : Storage)
    → record_execution_receipt receipt now s ≡ ok s'
    → (execution_receipt_by_authorization receipt.authorization_id s' ≡ some receipt)
      × (s'.execution_nonces ≡ s.execution_nonces)
unfolding record_execution_receipt execution_receipt_by_authorization
record_execution_receipt-stored receipt now s s' h =
    elim (Bool-cases (any (same_receipt receipt) s.execution_receipts)) [
      | inl taken ↦ cc (rw taken at h)
      | inr free ↦
          (let same = ok-injective (rw free at h) in
            let row : ReceiptRow = record {
              receipt_id = receipt.receipt_id;
              authorization_id = receipt.authorization_id;
              receipt = receipt;
              created_at = now;
            } in
            let found =
              first_row-append_new
                (λ (r : ReceiptRow). r.authorization_id == receipt.authorization_id)
                s.execution_receipts row (==_refl receipt.authorization_id)
                (none_before receipt s.execution_receipts free) in
            (rw (sym same, found) refl, sym (ap (λ (t : Storage). t.execution_nonces) same)))
    ]

module _ (sign_payload : String → Receipt → String) (is_hexadecimal : String → Bool)
    (verify : Envelope → ℕ → Bool × String) (error_text : Error → String) {W : Type 0}
    (broadcaster : Fields → W → Result Value × W) where
  -- the receipt stored for an authorization
  abbrev pub stored_for : Envelope → Storage → Option Receipt
  stored_for a s = execution_receipt_by_authorization a.authorization.authorization_id s

  pub keep_receipt-stored :
      (x : Result Receipt) (receipt : Receipt) (now : ℕ) (st st' : Storage × W)
      → keep_receipt sign_payload is_hexadecimal verify error_text broadcaster x now st
        ≡ (ok receipt, st')
      → (x ≡ ok receipt)
        × (execution_receipt_by_authorization receipt.authorization_id st'.0 ≡ some receipt)
        × (st'.0.execution_nonces ≡ st.0.execution_nonces)
        × (st'.1 ≡ st.1)
  unfolding keep_receipt
  keep_receipt-stored (err e) receipt now st st' h = cc
  keep_receipt-stored (ok made) receipt now st st' h =
      go (record_execution_receipt made now st.0) refl h
    where
      go :
          (o : Result Storage)
          → record_execution_receipt made now st.0 ≡ o
          → with_store sign_payload is_hexadecimal verify error_text broadcaster made o st
            ≡ (ok receipt, st')
          → (◌≡◌ {A = Result Receipt} (ok made) (ok receipt))
            × (execution_receipt_by_authorization receipt.authorization_id st'.0 ≡ some receipt)
            × (st'.0.execution_nonces ≡ st.0.execution_nonces)
            × (st'.1 ≡ st.1)
      go (err e) r k = cc
      go (ok s') r k =
          let same : ok made ≡ ok receipt = ap (λ (p : Result Receipt × (Storage × W)). p.0) k in
          let after : s' ≡ st'.0 = ap (λ (p : Result Receipt × (Storage × W)). p.1.0) k in
          let (found, nonces) = record_execution_receipt-stored made now st.0 s' r in
          (
            same,
            rw (sym after, sym (ok-injective same)) found,
            rw (sym after) nonces,
            sym (ap (λ (p : Result Receipt × (Storage × W)). p.1.1) k),
          )

  pub signed_for :
      (key : String) (payload receipt : Receipt)
      → sign_execution_receipt sign_payload key payload ≡ ok receipt
      → (receipt.authorization_id ≡ payload.authorization_id) × (receipt.status ≡ payload.status)
  unfolding sign_execution_receipt
  signed_for key payload receipt h = ground arith

  -- the receipt of an outcome is for the envelope's authorization
  pub outcome_for :
      (a : Envelope) (result : Result Value) (executor receipt_id : String) (scope : Option String)
      (now : ℕ)
      → (outcome sign_payload is_hexadecimal verify error_text a result executor receipt_id scope
          now).authorization_id
        ≡ a.authorization.authorization_id
  unfolding outcome transaction_ref_of
  outcome_for a (err e) executor receipt_id scope now = refl
  outcome_for a (ok result) executor receipt_id scope now = go (transaction_ref_of result)
    where
      go :
          (ref : Option String)
          → (reported sign_payload is_hexadecimal verify error_text a ref executor receipt_id scope
              now).authorization_id
            ≡ a.authorization.authorization_id
      go none = refl
      go (some ref) = refl

  module _ (r : ExecutionRouter) (a : Envelope) (executor receipt_id : String) (now : ℕ) where
    execute_new-stored :
        (key : String) (receipt : Receipt) (st st' : Storage × W)
        → execute_new sign_payload is_hexadecimal verify error_text broadcaster key r a executor
            receipt_id now st
          ≡ (ok receipt, st')
        → stored_for a st'.0 ≡ some receipt
    unfolding execute_new
    execute_new-stored key receipt st st' h =
        let done =
          attempt sign_payload is_hexadecimal verify error_text broadcaster (adapter_of r a) r a now
            st in
        let scope = scope_of sign_payload is_hexadecimal verify error_text (adapter_of r a) in
        let payload =
          outcome sign_payload is_hexadecimal verify error_text a done.0 executor receipt_id scope
            now in
        let (made, found, nonces, world) =
          keep_receipt-stored (sign_execution_receipt sign_payload key payload) receipt now done.1
            st' h in
        let same =
          (signed_for key payload receipt made).0
          ∙ outcome_for a done.0 executor receipt_id scope now in
        rw (sym same) found

    unless_stored-stored :
        (stored : Option Receipt) (key : String) (receipt : Receipt) (st st' : Storage × W)
        → stored_for a st.0 ≡ stored
        → unless_stored sign_payload is_hexadecimal verify error_text broadcaster stored key r a
            executor receipt_id now st
          ≡ (ok receipt, st')
        → stored_for a st'.0 ≡ some receipt
    unfolding unless_stored
    unless_stored-stored none key receipt st st' is_stored h =
        execute_new-stored key receipt st st' h
    unless_stored-stored (some existing) key receipt st st' is_stored h =
        let state : st ≡ st' = ap (λ (p : Result Receipt × (Storage × W)). p.1) h in
        let same : ok existing ≡ ok receipt = ap (λ (p : Result Receipt × (Storage × W)). p.0) h in
        rw (sym state, is_stored) (ap some (ok-injective same))

    with_key-stored :
        (key : Option String) (receipt : Receipt) (st st' : Storage × W)
        → with_key sign_payload is_hexadecimal verify error_text broadcaster key r a executor
            receipt_id now st
          ≡ (ok receipt, st')
        → ((k : String) × (key ≡ some k)) × (stored_for a st'.0 ≡ some receipt)
    unfolding with_key
    with_key-stored none receipt st st' h = cc
    with_key-stored (some key) receipt st st' h =
        ((key, refl), unless_stored-stored (stored_for a st.0) key receipt st st' refl h)

  with_key-again :
      (key : String) (r : ExecutionRouter) (a : Envelope) (executor receipt_id : String) (now : ℕ)
      (receipt : Receipt) (st : Storage × W) (o : Option String)
      → o ≡ some key
      → stored_for a st.0 ≡ some receipt
      → with_key sign_payload is_hexadecimal verify error_text broadcaster o r a executor receipt_id
          now st
        ≡ (ok receipt, st)
  unfolding with_key unless_stored
  with_key-again key r a executor receipt_id now receipt st o h found = rw (h, found) refl

  -- Once `execute_with_receipt` has returned a receipt, every later call with an authorization of that id, whatever
  -- else it holds, returns the same receipt and broadcasts nothing, as long as the stored receipt stays.
  pub execute_with_receipt_again :
      (r : ExecutionRouter) (a b : Envelope) (executor executor' receipt_id receipt_id' : String)
      (now later : ℕ) (receipt : Receipt) (st st' : Storage × W) (s : Storage) (w : W)
      → execute_with_receipt sign_payload is_hexadecimal verify error_text broadcaster r a executor
          receipt_id now st
        ≡ (ok receipt, st')
      → b.authorization.authorization_id ≡ a.authorization.authorization_id
      → execution_receipt_by_authorization a.authorization.authorization_id s
        ≡ execution_receipt_by_authorization a.authorization.authorization_id st'.0
      → execute_with_receipt sign_payload is_hexadecimal verify error_text broadcaster r b executor'
          receipt_id' later
          (s, w)
        ≡ (ok receipt, (s, w))
  unfolding execute_with_receipt
  execute_with_receipt_again r a b executor executor' receipt_id receipt_id' now later receipt st
        st' s w h id kept =
      let ((key, has_key), found) =
        with_key-stored r a executor receipt_id now r.private_key receipt st st' h in
      with_key-again key r b executor' receipt_id' later receipt (s, w) r.private_key has_key
        (ap (λ x. execution_receipt_by_authorization x s) id ∙ kept ∙ found)
