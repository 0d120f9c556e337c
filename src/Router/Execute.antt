-- ===== src/Router/Execute.antt =====
-- enforcement/router.py: the tests of an authorization and `execute`. The verification of the envelope in
-- attest/receipt.py is a parameter, a verdict with a reason; a broadcaster acts on a world outside the store and
-- may raise.
use verigate.Base.{
  none, some, true, false, ok, err, ◌==◌, ◌>>=◌, ◌>>◌, string_eq, nat_eq, option_eq, value_error,
  permission_error, if◌then◌else◌, Option, Bool, Result, String, raise_if, not, ℕ, ◌&&◌, Error,
}
use verigate.Base.Json.{Value, null, str, Fields, end, field, get, value_eq, nonempty_fields}
use verigate.Storage.{Storage}
use verigate.Storage.Nonces.{consume_execution_nonce}
use verigate.Bindings.{
  object_of, verify_execution_graph, verify_execution_artifact, verify_external_state_binding,
  validate_external_state_requirement,
}
use verigate.Router.{Envelope, Adapter, ExecutionRouter, Verifier, adapter_of}

abbrev or_missing_object : Option Fields → String → Result Fields
or_missing_object none message = err (value_error message)
or_missing_object (some fields) message = ok fields

-- `if not ok: raise ValueError(reason)`
abbrev pub accepted : Bool × String → Result (Unit {0})
accepted verdict = raise_if (not verdict.0) (value_error verdict.1)

abbrev actual_path : Adapter → Fields → Fields
actual_path adapter action = field "enforcement_scope" (str adapter.execution_enforcement_scope) (
    field "hook" (str adapter.hook) (
      field "module" (str adapter.module_name)
        (field "router" (str "ExecutionRouter") (field "target" (get "target" action) end))))

-- `_verify_execution_path`, where the authorization declares a graph
abbrev declared_path : Envelope → Adapter → Fields → Result (Unit {0})
unfolding verify_execution_graph verify_execution_artifact
declared_path a adapter end = ok tt
declared_path a adapter (field k v rest) = do
  verdict ← verify_execution_graph (field k v rest) (actual_path adapter a.authorization.action)
  accepted verdict
  expected ←
      or_missing_object (object_of a.execution_artifact)
        "execution authorization is missing execution artifact binding"
  accepted (verify_execution_artifact expected a.authorization.action)

unfoldable pub verify_execution_path : Envelope → Adapter → Result (Unit {0})
unfolding declared_path
verify_execution_path a adapter = do
  expected ←
      or_missing_object (object_of a.execution_graph)
        "execution authorization is missing execution graph binding"
  declared_path a adapter expected

-- the test of the policy's requirement
abbrev meets_requirement : Value → Fields → Option Fields → Result (Unit {0})
unfolding validate_external_state_requirement
meets_requirement requirement expected fields = if requirement == null then ok tt else do
  accepted (validate_external_state_requirement requirement)
  wanted ← or_missing_object fields "external state requirement must be an object"
  raise_if (not (get "kind" expected == get "kind" wanted))
      (value_error "external state kind does not satisfy policy requirement")

abbrev live_verdict : Option Verifier → Option Verifier → Fields → Fields → Result (Bool × String)
live_verdict (some registry) verifier expected action = ok (registry expected action)
live_verdict none (some verifier) expected action = ok (verifier expected action)
live_verdict none none expected action =
    err (value_error "live external state verifier is required before execution")

module _ {W : Type 0} (broadcaster : Fields → W → Result Value × W) where
  abbrev pub deliver : Result Fields → W → Result Value × W
  deliver (err e) w = (err e, w)
  deliver (ok request) w = broadcaster request w

  abbrev pub after_nonce : Bool × Storage → Result Fields → W → Result Value × (Storage × W)
  after_nonce (false, s) request w =
      (err (permission_error "execution authorization already consumed"), (s, w))
  after_nonce (true, s) request w = ((deliver request w).0, (s, (deliver request w).1))

  abbrev pub execute_if :
      Result (Result Fields) → Envelope → ℕ → Storage × W → Result Value × (Storage × W)
  execute_if (err e) a now st = (err e, st)
  execute_if (ok request) a now (s, w) =
      after_nonce
        (consume_execution_nonce a.authorization.nonce a.authorization.authorization_id
          a.authorization.intent_id a.authorization.agent_id now s)
        request w

module _ (is_hexadecimal : String → Bool) where
  abbrev verify_declared_state : ExecutionRouter → Envelope → Fields → Result Fields
  unfolding meets_requirement
  verify_declared_state r a expected = do
    meets_requirement a.external_state_requirement expected (object_of a.external_state_requirement)
    verdict ←
        live_verdict r.external_state_registry r.external_state_verifier expected
          a.authorization.action
    raise_if (not verdict.0) (value_error "external state drift")
    ok expected

  -- `_verify_external_state`: the binding that it has verified, empty where there is none
  unfoldable pub verify_external_state : ExecutionRouter → Envelope → Result Fields
  unfolding verify_external_state_binding verify_declared_state
  verify_external_state r a = do
    expected ←
        or_missing_object (object_of a.external_state)
          "execution authorization is missing external state binding"
    accepted (verify_external_state_binding is_hexadecimal expected a.authorization.action)
    let declared = verify_declared_state r a expected
    let undeclared =
        if a.external_state_required
        then err (value_error "external state binding required before execution")
        else ok end
    (if nonempty_fields expected then declared else undeclared)

  -- what the adapter hands over once the external state is bound to the effect
  abbrev bound_delivery : Adapter → Envelope → Fields → Result (Result Fields)
  bound_delivery adapter a state =
      if not (adapter.execution_external_state_scope == some "atomic")
      then err (value_error "atomic external state enforcement is required")
      else elim adapter.bound_request [
        | none ↦
            err (value_error "atomic external state enforcement is required for this authorization")
        | some request ↦ ok (request a state)
      ]

  module _ (verify_execution_authorization : Envelope → ℕ → Bool × String) where
    -- The tests of `execute` up to the nonce, with what the adapter will hand to the broadcaster.
    unfoldable pub delivery : ExecutionRouter → Envelope → ℕ → Result (Result Fields)
    unfolding adapter_of verify_execution_path verify_external_state
    delivery r a now = do
      accepted (verify_execution_authorization a now)
      adapter ← adapter_of r a
      accepted (adapter.validate a now)
      verify_execution_path a adapter
      state ← verify_external_state r a
      (if a.external_state_required && nonempty_fields state
          then bound_delivery adapter a state
          else ok (adapter.request a))

    module _ {W : Type 0} (broadcaster : Fields → W → Result Value × W) where
      -- `execute`
      unfoldable pub execute :
          ExecutionRouter → Envelope → ℕ → Storage × W → Result Value × (Storage × W)
      unfolding delivery consume_execution_nonce
      execute r a now st = execute_if broadcaster (delivery r a now) a now st

    -- `consume`, which catches what its tests raise
    module _ (error_text : Error → String) where
      abbrev spend : Bool × Storage → (Bool × String) × Storage
      spend (false, s) = ((false, "execution authorization already consumed"), s)
      spend (true, s) = ((true, "execution authorization consumed"), s)

      abbrev consume_if : Result Fields → Envelope → ℕ → Storage → (Bool × String) × Storage
      unfolding consume_execution_nonce
      consume_if (err e) a now s = ((false, error_text e), s)
      consume_if (ok state) a now s = spend (
          consume_execution_nonce a.authorization.nonce a.authorization.authorization_id
            a.authorization.intent_id a.authorization.agent_id now s)

      abbrev consume_tests : ExecutionRouter → Envelope → ℕ → Result Fields
      unfolding adapter_of verify_execution_path verify_external_state
      consume_tests r a now = do
        accepted (verify_execution_authorization a now)
        adapter ← adapter_of r a
        accepted (adapter.validate a now)
        verify_execution_path a adapter
        verify_external_state r a

      unfoldable pub consume : ExecutionRouter → Envelope → ℕ → Storage → (Bool × String) × Storage
      unfolding consume_tests consume_if
      consume r a now s = consume_if (consume_tests r a now) a now s
