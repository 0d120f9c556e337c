-- ===== src/Router/Once.antt =====
-- Any calls of `execute`, `execute_with_receipt` and `confirm_execution_receipt` of enforcement/router.py.
use verigate.Router.Execute.{execute}
use verigate.Base.{
  inl, inr, refl, none, some, ok, err, ◌≡◌, string_eq, nat_eq, option_eq, arith, Error, ℕ, String,
  Bool, Result, Option, ◌≤◌, List, ◌+◌, if◌then◌else◌, ap, true,
}
use verigate.Base.Json.{Value, Fields}
use verigate.Storage.{Storage, Receipt}
use verigate.Storage.Nonces.{record_execution_receipt, update_execution_receipt}
use verigate.Router.{Envelope, Adapter, ExecutionRouter, adapter_of}
use verigate.Router.Confirm.{confirm_execution_receipt_cases}
use verigate.Router.Effects.{
  Effect, Effect-kept, Effect-none, Effect-trans, execute-Effect, Broadcast, replay, made_for,
}
use verigate.Router.Stored.{record_execution_receipt-stored}
use verigate.Router.Receipts.{
  execute_with_receipt, attempt, keep_receipt, with_store, execute_new, unless_stored, with_key,
}
use verigate.Router.Signing.{confirm_execution_receipt, Confirmation}
use verigate.Enforcement.Once.{spent_count, spent}

update_execution_receipt-nonces :
    (receipt : Receipt) (now : ℕ) (s s' : Storage)
    → update_execution_receipt receipt now s ≡ ok s'
    → s'.execution_nonces ≡ s.execution_nonces
unfolding update_execution_receipt
update_execution_receipt-nonces receipt now s s' h = ground arith

module _ (sign_payload : String → Receipt → String) (receipt_digest : Receipt → String)
    (is_hexadecimal : String → Bool) (verify : Envelope → ℕ → Bool × String)
    (error_text : Error → String) {W : Type 0} (broadcaster : Fields → W → Result Value × W) where
  keep_receipt-Effect :
      (x : Result Receipt) (now : ℕ) (st : Storage × W)
      → Effect broadcaster st
          (keep_receipt sign_payload is_hexadecimal verify error_text broadcaster x now st).1
  unfolding keep_receipt
  keep_receipt-Effect (err e) now (s, w) = Effect-none broadcaster s s w refl
  keep_receipt-Effect (ok receipt) now (s, w) = go (record_execution_receipt receipt now s) refl
    where
      go :
          (o : Result Storage)
          → record_execution_receipt receipt now s ≡ o
          → Effect broadcaster
              (s, w)
              (with_store sign_payload is_hexadecimal verify error_text broadcaster receipt o
                (s, w)).1
      go (err e) h = Effect-none broadcaster s s w refl
      go (ok s') h =
          Effect-none broadcaster s s' w (record_execution_receipt-stored receipt now s s' h).1

  module _ (r : ExecutionRouter) (a : Envelope) (now : ℕ) where
    attempt-Effect :
        (adapter : Result Adapter) (st : Storage × W)
        → Effect broadcaster st
            (attempt sign_payload is_hexadecimal verify error_text broadcaster adapter r a now st).1
    unfolding attempt
    attempt-Effect (err e) (s, w) = Effect-none broadcaster s s w refl
    attempt-Effect (ok adapter) st = execute-Effect broadcaster is_hexadecimal verify r a now st

    module _ (executor receipt_id : String) where
      execute_new-Effect :
          (private_key : String) (st : Storage × W)
          → Effect broadcaster st
              (execute_new sign_payload is_hexadecimal verify error_text broadcaster private_key r a
                executor receipt_id now st).1
      unfolding execute_new
      execute_new-Effect private_key st =
          Effect-trans broadcaster (attempt-Effect (adapter_of r a) st)
            (keep_receipt-Effect _ now _)

      unless_stored-Effect :
          (stored : Option Receipt) (private_key : String) (st : Storage × W)
          → Effect broadcaster st
              (unless_stored sign_payload is_hexadecimal verify error_text broadcaster stored
                private_key r a executor receipt_id now st).1
      unfolding unless_stored
      unless_stored-Effect none private_key st = execute_new-Effect private_key st
      unless_stored-Effect (some existing) private_key (s, w) = Effect-none broadcaster s s w refl

      with_key-Effect :
          (key : Option String) (st : Storage × W)
          → Effect broadcaster st
              (with_key sign_payload is_hexadecimal verify error_text broadcaster key r a executor
                receipt_id now st).1
      unfolding with_key
      with_key-Effect none (s, w) = Effect-none broadcaster s s w refl
      with_key-Effect (some private_key) st = unless_stored-Effect _ private_key st

      execute_with_receipt-Effect :
          (st : Storage × W)
          → Effect broadcaster st
              (execute_with_receipt sign_payload is_hexadecimal verify error_text broadcaster r a
                executor receipt_id now st).1
      unfolding execute_with_receipt
      execute_with_receipt-Effect st = with_key-Effect r.private_key st

  confirm-nonces :
      (r : ExecutionRouter) (receipt : Receipt) (confirmation : Confirmation) (executor : String)
      (now : ℕ) (s s' : Storage) (answer : Option Receipt)
      → confirm_execution_receipt sign_payload receipt_digest r receipt confirmation executor now s
        ≡ ok (answer, s')
      → s'.execution_nonces ≡ s.execution_nonces
  confirm-nonces r receipt confirmation executor now s s' answer h =
      elim (confirm_execution_receipt_cases sign_payload receipt_digest receipt confirmation
        executor now s s' r answer h) [
          | inl same ↦ ap (λ (t : Storage). t.execution_nonces) same
          | inr (submitted, (updated, is_answer, done)) ↦
              update_execution_receipt-nonces updated now s s' done.stored
        ]

  -- The calls of a router, with those of the rest of the program, such as a bare `consume`, after which every
  -- nonce that was spent is still spent.
  pub data Calls : Storage × W → Storage × W → Type 0 where
    done : (st : Storage × W) → Calls st st
    other :
        (s s' : Storage) (w : W) (st : Storage × W)
        → ((nonce : String) → spent nonce s ≡ true → spent nonce s' ≡ true)
        → Calls (s', w) st
        → Calls (s, w) st
    executed :
        (r : ExecutionRouter) (a : Envelope) (now : ℕ) (st st' : Storage × W)
        → Calls (execute is_hexadecimal verify broadcaster r a now st).1 st'
        → Calls st st'
    receipted :
        (r : ExecutionRouter) (a : Envelope) (executor receipt_id : String) (now : ℕ)
        (st st' : Storage × W)
        → Calls
            (execute_with_receipt sign_payload is_hexadecimal verify error_text broadcaster r a
              executor receipt_id now st).1
            st'
        → Calls st st'
    confirmed :
        (r : ExecutionRouter) (receipt : Receipt) (confirmation : Confirmation) (executor : String)
        (now : ℕ) (s s' : Storage) (answer : Option Receipt) (w : W) (st : Storage × W)
        → confirm_execution_receipt sign_payload receipt_digest r receipt confirmation executor now
            s
          ≡ ok (answer, s')
        → Calls (s', w) st
        → Calls (s, w) st

  Calls-Effect : {st st' : Storage × W} → Calls st st' → Effect broadcaster st st'
  Calls-Effect (done (s, w)) = Effect-none broadcaster s s w refl
  Calls-Effect (other s s' w st e calls) =
      Effect-trans broadcaster (Effect-kept broadcaster s s' w e) (Calls-Effect calls)
  Calls-Effect (executed r a now st st' calls) =
      Effect-trans broadcaster (execute-Effect broadcaster is_hexadecimal verify r a now st)
        (Calls-Effect calls)
  Calls-Effect (receipted r a executor receipt_id now st st' calls) =
      Effect-trans broadcaster (execute_with_receipt-Effect r a now executor receipt_id st)
        (Calls-Effect calls)
  Calls-Effect (confirmed r receipt confirmation executor now s s' answer w st h calls) =
      Effect-trans broadcaster
        (Effect-none broadcaster s s' w
          (confirm-nonces r receipt confirmation executor now s s' answer h))
        (Calls-Effect calls)

  spent_count-le : (nonce : String) (s : Storage) → spent_count nonce s ≤ 1
  unfolding spent_count
  spent_count-le nonce s = ground arith

  -- Whatever the calls of a router, with any other changes of the store that delete no nonce, the world has changed
  -- only by broadcasts, of which each nonce had at most one, and none if it was consumed before.
  pub broadcast_at_most_once :
      {st st' : Storage × W}
      → Calls st st'
      → (broadcasts : List Broadcast) × (st'.1 ≡ replay broadcaster broadcasts st.1)
        × ((nonce : String)
            → made_for broadcaster nonce broadcasts + (if spent nonce st.0 then 1 else 0) ≤ 1)
  unfolding spent_count
  broadcast_at_most_once {st} {st'} calls =
      let e = Calls-Effect calls in
      (e.broadcasts, e.world, λ nonce. omega (arith, e.spending nonce, spent_count-le nonce st'.0))
