-- ===== src/Identity/Signed.antt =====
-- What an agent's own signature is worth to core/identity.py.
use verigate.Base.{
  inl, inr, refl, [], ◌∷◌, ◌++◌, none, some, true, false, ok, ◌≡◌, ◌==◌, string_eq, nat_eq,
  ok-of_bind, ok-of_guard, arith, ℕ, String, Option-cases, ==_refl, not, ap, ◌∙◌, value_error,
  first_row-append_new,
}
use verigate.Storage.{Storage, active, IdentityRow}
use verigate.Storage.Registries.{
  status_eq, identity_of, identity_is_active, register_identity, identity_row,
}
use verigate.Models.{ActionIntent, AgentIdentity, expired}
use verigate.Base.Json.{Fields}
use verigate.Signatures.{Signatures, SignatureLaws, verified-signed}
use verigate.Identity.{
  decoded_key, register, resolve, authorize_action, sign_action_intent, verify_action_signature,
  action_payload,
}

abbrev registered_row : AgentIdentity → ℕ → IdentityRow
registered_row identity now = record {
  identity_id = identity.key_id;
  identity = identity;
  status = active;
  expires_at = identity.expires_at;
  revoked_at = none;
  created_at = now;
}

register_identity-row :
    (identity : AgentIdentity) (now : ℕ) (s s' : Storage)
    → register_identity identity now s ≡ ok s'
    → identity_row identity.key_id s' ≡ some (registered_row identity now)
unfolding register_identity
register_identity-row identity now s s' h = elim (Option-cases (identity_row identity.key_id s)) [
  | inr (row, e) ↦ cc (rw e at h)
  | inl e ↦
      (let same : s' ≡ record s { identities = s.identities ++ registered_row identity now ∷ [] } =
          ground arith in
        ap (identity_row identity.key_id) same
        ∙ first_row-append_new (λ (r : IdentityRow). r.identity_id == identity.key_id) s.identities
            (registered_row identity now) (==_refl identity.key_id) e)
]

module _ (crypto : Signatures) (laws : SignatureLaws crypto) (as_dict : ActionIntent → Fields) where
  verify_signed :
      (action : ActionIntent) (identity : AgentIdentity) (private_key : String)
      → identity.public_key_b64 ≡ crypto.b64encode (crypto.public_bytes private_key)
      → identity.agent_id ≡ action.agent_id
      → verify_action_signature crypto as_dict action identity.key_id
          (sign_action_intent crypto as_dict action identity.key_id private_key)
          identity
        ≡ (true, "valid agent action signature")
  unfolding verify_action_signature sign_action_intent nat_eq
  verify_signed action identity private_key key agent =
      let raw = crypto.public_bytes private_key in
      let length = laws.key_length private_key in
      let decoded = laws.decode_encode raw in
      let full = laws.encode_key raw length in
      let valid =
        verified-signed crypto laws private_key
          (action_payload crypto as_dict identity.key_id action) in
      rw (key, decoded, full, length, valid, agent, ==_refl action.agent_id) refl

  resolved :
      (identity : AgentIdentity) (now : ℕ) (row_time : ℕ) (s : Storage)
      → identity_row identity.key_id s ≡ some (registered_row identity row_time)
      → expired identity.expires_at now ≡ false
      → resolve identity.key_id true now s ≡ ok identity
  unfolding resolve identity_of identity_is_active
  resolved identity now row_time s found current = rw (found, current) (ground arith)

  -- Where base64 and Ed25519 keep their laws, an action signed with the private key of an identity of its agent is
  -- authorized in the store that the registration of the identity left, until the identity expires.
  pub authorize_action-sign :
      (action : ActionIntent) (identity : AgentIdentity) (private_key : String) (then now : ℕ)
      (s s' : Storage)
      → register crypto identity then s ≡ ok s'
      → identity.public_key_b64 ≡ crypto.b64encode (crypto.public_bytes private_key)
      → identity.agent_id ≡ action.agent_id
      → expired identity.expires_at now ≡ false
      → authorize_action crypto as_dict identity.key_id action
          (sign_action_intent crypto as_dict action identity.key_id private_key)
          now
          s'
        ≡ ok identity
  unfolding register authorize_action
  authorize_action-sign action identity private_key then now s s' h key agent current =
      let (raw, decoded, h1) =
        ok-of_bind (decoded_key crypto (crypto.b64decode identity.public_key_b64)) _ h in
      let (length, h2) =
        ok-of_guard (not (crypto.byte_length raw == 32))
          (value_error "invalid identity public key length") _ h1 in
      let (id, h3) =
        ok-of_guard (not (identity.key_id == crypto.sha256 raw))
          (value_error "identity key_id does not match public key fingerprint") _ h2 in
      let found = register_identity-row identity then s s' h3 in
      rw
        (
          resolved identity now then s' found current,
          verify_signed action identity private_key key agent,
        )
        refl
