-- ===== src/Governance/Signed.antt =====
-- Authority resets of core/governance.py that are created and then verified.
use verigate.Base.{
  inl, inr, refl, none, some, true, false, ok, ◌≡◌, ◌==◌, string_eq, nat_eq, arith, Bool-cases,
  ok-of_guard, ok-injective, ◌≤◌, ◌+◌, sym, ==_refl, ==_sound, Option, String, ℕ, ltb, ◌||◌,
}
use verigate.Base.Text.{strip}
use verigate.Signatures.{Signatures, SignatureLaws, verified-signed}
use verigate.Governance.{
  SignedAuthorityReset, create_authority_reset, verify_authority_reset, sign_authority_reset,
  governor_id, given_or, time_or, clock_skew, oldest_age, reset_payload, AuthorityReset,
}

given_or-nonempty :
    (given : Option String) (fresh : String)
    → (fresh == "") ≡ false
    → (given_or given fresh == "") ≡ false
given_or-nonempty none fresh h = h
given_or-nonempty (some given) fresh h = ground arith

strip-nonempty : (s : String) → (strip s == "") ≡ false → (s == "") ≡ false
unfolding strip
strip-nonempty s h = elim (Bool-cases (s == "")) [
  | inr differ ↦ differ
  | inl same ↦
      (let empty : s ≡ "" = ==_sound s "" same in
        let h' = rw empty at h in let same' = ==_refl {A = String} "" in ground arith)
]

module _ (crypto : Signatures) (laws : SignatureLaws crypto) where
  signed_verifies :
      (reset : AuthorityReset) (key : String) (now : ℕ)
      → (reset.reset_id == ""
          || reset.agent_id == ""
          || reset.capability_id == ""
          || reset.governor_id == ""
          || reset.reason == ""
          || reset.nonce == "")
        ≡ false
      → 1 ≤ reset.epoch
      → reset.issued_at ≤ now + clock_skew
      → now ≤ reset.issued_at + oldest_age
      → reset.governor_id ≡ governor_id crypto (crypto.public_bytes key)
      → verify_authority_reset crypto
          (sign_authority_reset crypto reset key)
          (crypto.public_bytes key)
          now
        ≡ (true, "valid authority reset")
  unfolding verify_authority_reset sign_authority_reset
  signed_verifies reset key now named epoch future old governor =
      let valid = verified-signed crypto laws key (reset_payload reset) in ground arith

  -- A reset that `create_authority_reset` has signed is accepted by `verify_authority_reset` under the governor's public
  -- key until 30 days after its time of issue, and not more than a minute before it; its agent, its capability and the
  -- fresh identifiers being nonempty, as is the digest of the key.
  pub verify-create_authority_reset :
      (agent_id capability_id key : String) (epoch : ℕ) (reason : String) (issued_at : Option ℕ)
      (reset_id nonce : Option String) (fresh_id fresh_nonce : String) (created now : ℕ)
      (document : SignedAuthorityReset)
      → (agent_id == "") ≡ false
      → (capability_id == "") ≡ false
      → (fresh_id == "") ≡ false
      → (fresh_nonce == "") ≡ false
      → (governor_id crypto (crypto.public_bytes key) == "") ≡ false
      → time_or issued_at created ≤ now + clock_skew
      → now ≤ time_or issued_at created + oldest_age
      → create_authority_reset crypto agent_id capability_id key epoch reason issued_at reset_id
          nonce fresh_id fresh_nonce created
        ≡ ok document
      → verify_authority_reset crypto document (crypto.public_bytes key) now
        ≡ (true, "valid authority reset")
  unfolding create_authority_reset
  verify-create_authority_reset agent_id capability_id key epoch reason issued_at reset_id nonce
        fresh_id fresh_nonce created now document agent capability fresh fresh' governor future old
        h =
      let (reasoned, h1) = ok-of_guard (strip reason == "") _ _ h in
      let (counted, h2) = ok-of_guard (ltb epoch 1) _ _ h1 in
      let id = given_or-nonempty reset_id fresh_id fresh in
      let once = given_or-nonempty nonce fresh_nonce fresh' in
      let why = strip-nonempty reason reasoned in
      rw (sym (ok-injective h2)) (
        signed_verifies _ key now (rw (id, once, why, agent, capability, governor) refl)
          (ground arith) future old refl)
