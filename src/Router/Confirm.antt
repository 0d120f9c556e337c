-- ===== src/Router/Confirm.antt =====
-- What `confirm_execution_receipt` of enforcement/router.py changes.
use verigate.Base.{
  inl, inr, none, some, true, ok, ◌≡◌, ◌==◌, string_eq, nat_eq, option_eq, arith, ok-of_bind,
  ok-of_guard, value_error, ok-injective, Bool-cases, String, ℕ, ◌||◌, Option, not, ◌⊎◌, ==_sound,
  sym, ap, ◌∙◌,
}
use verigate.Storage.{Storage, Receipt}
use verigate.Storage.Nonces.{update_execution_receipt}
use verigate.Models.Permits.{not-false}
use verigate.Router.{ExecutionRouter}
use verigate.Router.Signing.{
  confirm_execution_receipt, Confirmation, sign_execution_receipt, confirm_submitted, confirm_with,
  or_no_reference, or_else, text_or_none, confirmed_payload,
}

module _ (sign_payload : String → Receipt → String) (receipt_digest : Receipt → String) where
  -- A confirmation that changes the store.
  pub record Confirmed (receipt : Receipt) (confirmation : Confirmation) (now : ℕ) (s s' : Storage)
      (updated : Receipt) : Type 0 where
    pub final : (confirmation.state == "CONFIRMED" || confirmation.state == "FAILED") ≡ true
    pub status : updated.status ≡ confirmation.state
    pub reference : updated.transaction_ref ≡ receipt.transaction_ref
    pub id : updated.receipt_id ≡ receipt.receipt_id
    pub authorization : updated.authorization_id ≡ receipt.authorization_id
    pub link : updated.previous_receipt_sha256 ≡ some (receipt_digest receipt)
    pub stored : update_execution_receipt updated now s ≡ ok s'

  signed_payload :
      (key : String) (payload updated : Receipt)
      → sign_execution_receipt sign_payload key payload ≡ ok updated
      → updated ≡ record payload { signature = sign_payload key payload }
  unfolding sign_execution_receipt
  signed_payload key payload updated h = ground arith

  module _ (receipt : Receipt) (confirmation : Confirmation) (executor : String) (now : ℕ)
      (s s' : Storage) where
    confirm_submitted-Confirmed :
        (key : String) (answer : Option Receipt)
        → confirm_submitted sign_payload receipt_digest key receipt confirmation executor now s
          ≡ ok (answer, s')
        → (updated : Receipt) × (answer ≡ some updated)
          × Confirmed receipt confirmation now s s' updated
    unfolding confirm_submitted
    confirm_submitted-Confirmed key answer h =
        let (final, h1) =
          ok-of_guard (not (confirmation.state == "CONFIRMED" || confirmation.state == "FAILED"))
            (value_error "invalid confirmation state") _ h in
        let (ref, known, h2) =
          ok-of_bind
            (or_no_reference sign_payload receipt_digest (
              or_else (text_or_none sign_payload receipt_digest confirmation.transaction_ref)
                (text_or_none sign_payload receipt_digest receipt.transaction_ref)))
            _ h1 in
        let (same, h3) =
          ok-of_guard (not (receipt.transaction_ref == some ref))
            (value_error "confirmation transaction reference mismatch") _ h2 in
        let (updated, is_signed, h4) =
          ok-of_bind
            (sign_execution_receipt sign_payload key
              (confirmed_payload sign_payload receipt_digest receipt confirmation ref executor now))
            _ h3 in
        let (t, stored, h5) = ok-of_bind (update_execution_receipt updated now s) _ h4 in
        let payload =
          signed_payload key
            (confirmed_payload sign_payload receipt_digest receipt confirmation ref executor now)
            updated is_signed in
        let reference = ==_sound receipt.transaction_ref (some ref) (not-false _ same) in
        let end = ok-injective h5 in
        (
          updated,
          sym (ap (λ (x : Option Receipt × Storage). x.0) end),
          record {
            final = not-false _ final;
            status = ap (λ (x : Receipt). x.status) payload;
            reference = ap (λ (x : Receipt). x.transaction_ref) payload ∙ sym reference;
            id = ap (λ (x : Receipt). x.receipt_id) payload;
            authorization = ap (λ (x : Receipt). x.authorization_id) payload;
            link = ap (λ (x : Receipt). x.previous_receipt_sha256) payload;
            stored = stored ∙ ap (λ (x : Option Receipt × Storage). ok x.1) end;
          },
        )

    confirm_with-Confirmed :
        (key : Option String) (answer : Option Receipt)
        → confirm_with sign_payload receipt_digest key receipt confirmation executor now s
          ≡ ok (answer, s')
        → (s' ≡ s)
          ⊎ ((receipt.status ≡ "SUBMITTED")
              × ((updated : Receipt) × (answer ≡ some updated)
                  × Confirmed receipt confirmation now s s' updated))
    unfolding confirm_with
    confirm_with-Confirmed none answer h = cc
    confirm_with-Confirmed (some key) answer h =
        elim (Bool-cases (confirmation.state == "PENDING")) [
          | inl pending ↦
              inl
                (sym (ap (λ (x : Option Receipt × Storage). x.1) (ok-injective (rw pending at h))))
          | inr known ↦ elim (Bool-cases (receipt.status == "SUBMITTED")) [
            | inr other ↦ inl (
                sym (
                  ap (λ (x : Option Receipt × Storage). x.1)
                    (ok-injective (rw (known, other) at h))))
            | inl submitted ↦ inr (
              ==_sound receipt.status "SUBMITTED" submitted,
              confirm_submitted-Confirmed key answer (rw (known, submitted) at h),
            )
          ]
        ]

    pub confirm_execution_receipt_cases :
        (r : ExecutionRouter) (answer : Option Receipt)
        → confirm_execution_receipt sign_payload receipt_digest r receipt confirmation executor now
            s
          ≡ ok (answer, s')
        → (s' ≡ s)
          ⊎ ((receipt.status ≡ "SUBMITTED")
              × ((updated : Receipt) × (answer ≡ some updated)
                  × Confirmed receipt confirmation now s s' updated))
    unfolding confirm_execution_receipt
    confirm_execution_receipt_cases r answer h = confirm_with-Confirmed r.private_key answer h
