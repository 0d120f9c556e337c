-- ===== src/Enforcement.antt =====
-- enforcement/local.py: the gate that spends an authorization's nonce before its side effect. The
-- verification of the signed envelope (attest/receipt.py) is a parameter, a verdict with a reason.
pub mod Once
use verigate.Base.{
  inl, inr, refl, [], ◌∷◌, ◌++◌, none, some, true, false, zero, suc, ok, err, ◌≡◌, ◌==◌, string_eq,
  nat_eq, String, ℕ, Bool, if◌then◌else◌, ltb, Result, permission_error,
}
use verigate.Base.Json.{Fields}
use verigate.Storage.{Storage}
use verigate.Storage.Nonces.{consume_execution_nonce}

-- The fields of an authorization's payload that the gate reads.
pub record Authorization : Type 0 where
  pub authorization_id : String
  pub intent_id : String
  pub agent_id : String
  pub nonce : String
  pub issued_at : ℕ
  pub action : Fields

module _ (verify_execution_authorization : Authorization → ℕ → Bool × String) where
  abbrev not_before : Authorization → ℕ → Bool × String → Bool × String
  not_before authorization now (true, reason) =
      if ltb now authorization.issued_at
      then (false, "execution authorization is not active yet")
      else (true, "execution authorization validated")
  not_before authorization now (false, reason) = (false, reason)

  unfoldable pub validate : Authorization → ℕ → Bool × String
  validate authorization now =
      not_before authorization now (verify_execution_authorization authorization now)

  abbrev consumed : Bool × Storage → (Bool × String) × Storage
  consumed (true, s) = ((true, "execution authorization consumed"), s)
  consumed (false, s) = ((false, "execution authorization already consumed"), s)

  abbrev consume_if : Bool × String → Authorization → ℕ → Storage → (Bool × String) × Storage
  consume_if (false, reason) authorization now s = ((false, reason), s)
  consume_if (true, reason) authorization now s = consumed (
      consume_execution_nonce authorization.nonce authorization.authorization_id
        authorization.intent_id authorization.agent_id now s)

  unfoldable pub consume : Authorization → ℕ → Storage → (Bool × String) × Storage
  unfolding validate consume_execution_nonce
  consume authorization now s = consume_if (validate authorization now) authorization now s

  module _ {W R : Type 0} (side_effect : Fields → W → R × W) where
    unfoldable pub execute_after_consume : Authorization → Storage × W → Result R × (Storage × W)
    execute_after_consume authorization (s, w) =
        (ok (side_effect authorization.action w).0, (s, (side_effect authorization.action w).1))

    abbrev execute_if : (Bool × String) × Storage → Authorization → W → Result R × (Storage × W)
    execute_if ((false, reason), s) authorization w = (err (permission_error reason), (s, w))
    execute_if ((true, reason), s) authorization w = execute_after_consume authorization (s, w)

    -- The side effect acts on a world outside the store.
    unfoldable pub execute : Authorization → ℕ → Storage × W → Result R × (Storage × W)
    unfolding consume execute_after_consume
    execute authorization now (s, w) = execute_if (consume authorization now s) authorization w
