-- ===== src/Identity.antt =====
-- core/identity.py: registered keys and the actions that agents sign with them.
pub mod Signed
use verigate.Base.{
  none, some, true, false, ok, err, ◌==◌, ◌>>=◌, ◌>>◌, string_eq, nat_eq, value_error, Option,
  String, ℕ, Result, Bool, lookup_error, raise_if, if◌then◌else◌, ◌&&◌, not, permission_error,
}
use verigate.Base.Json.{Value, Fields, obj, str, end, field}
use verigate.Storage.{Storage}
use verigate.Storage.Registries.{register_identity, identity_of, identity_is_active}
use verigate.Models.{ActionIntent, AgentIdentity}
use verigate.Signatures.{Signatures, signed, verified}

abbrev pub or_unknown : Option AgentIdentity → Result AgentIdentity
or_unknown none = err (lookup_error "identity not found")
or_unknown (some identity) = ok identity

-- `resolve`
unfoldable pub resolve : String → Bool → ℕ → Storage → Result AgentIdentity
unfolding identity_of identity_is_active
resolve identity_id require_active now s = do
  identity ← or_unknown (identity_of identity_id s)
  raise_if (require_active && not (identity_is_active identity_id now s))
      (permission_error "identity is not active")
  ok identity

module _ (crypto : Signatures) where
  abbrev pub decoded_key : Option String → Result String
  decoded_key none = err (value_error "invalid identity public key encoding")
  decoded_key (some raw) = ok raw

  -- `register`
  unfoldable pub register : AgentIdentity → ℕ → Storage → Result Storage
  unfolding register_identity
  register identity now s = do
    raw ← decoded_key (crypto.b64decode identity.public_key_b64)
    raise_if (not (crypto.byte_length raw == 32)) (value_error "invalid identity public key length")
    raise_if (not (identity.key_id == crypto.sha256 raw))
        (value_error "identity key_id does not match public key fingerprint")
    register_identity identity now s

  module _ (as_dict : ActionIntent → Fields) where
    abbrev pub action_payload : String → ActionIntent → Value
    action_payload identity_id action =
        obj (field "action" (obj (as_dict action)) (field "identity_id" (str identity_id) end))

    unfoldable pub sign_action_intent : ActionIntent → String → String → String
    unfolding signed
    sign_action_intent action identity_id private_key =
        signed crypto private_key (action_payload identity_id action)

    -- the tests of the key and of the signature
    abbrev key_verdict : Option String → String → ActionIntent → String → Bool × String
    key_verdict none identity_id action signature =
        (false, "invalid or tampered agent action signature")
    key_verdict (some raw) identity_id action signature =
        if not (crypto.byte_length raw == 32)
        then (false, "invalid identity public key")
        else if verified crypto raw (action_payload identity_id action) signature
        then (true, "valid agent action signature")
        else (false, "invalid or tampered agent action signature")

    unfoldable pub verify_action_signature :
        ActionIntent → String → String → AgentIdentity → Bool × String
    unfolding verified
    verify_action_signature action identity_id signature identity =
        if not (identity.agent_id == action.agent_id)
        then (false, "identity agent mismatch")
        else if identity.public_key_b64 == ""
        then (false, "identity has no public key")
        else key_verdict (crypto.b64decode identity.public_key_b64) identity_id action signature

    unfoldable pub authorize_action :
        String → ActionIntent → String → ℕ → Storage → Result AgentIdentity
    unfolding resolve verify_action_signature
    authorize_action identity_id action agent_signature now s = do
      identity ← resolve identity_id true now s
      let verdict = verify_action_signature action identity_id agent_signature identity
      raise_if (not verdict.0) (permission_error verdict.1)
      ok identity
