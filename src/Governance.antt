-- ===== src/Governance.antt =====
-- core/governance.py: authority resets signed by one governor. A signed document is its record: one whose fields
-- have other types than the code tests for is no value of it.
pub mod Members
pub mod Actions
pub mod Quorum
pub mod Resets
pub mod Approved
pub mod Accepted
pub mod Lifted
pub mod Target
pub mod Applied
pub mod Cases
pub mod Signed
use verigate.Base.{
  inl, inr, refl, [], ◌∷◌, none, some, true, false, ok, err, ◌≡◌, ◌==◌, ◌>>=◌, ◌>>◌, string_eq,
  nat_eq, value_error, if◌then◌else◌, String, ℕ, Option, ◌*◌, Bool, Result, not, raise_if, ◌||◌,
  ltb, ◌+◌,
}
use verigate.Base.Json.{Value, Fields, obj, str, num, end, field}
use verigate.Base.Int.{pos}
use verigate.Base.Text.{strip}
use verigate.Signatures.{Signatures, signed, verified}

pub record AuthorityReset : Type 0 where
  pub reset_id : String
  pub agent_id : String
  pub capability_id : String
  pub governor_id : String
  pub epoch : ℕ
  pub reason : String
  pub issued_at : ℕ
  pub nonce : String

-- `AuthorityReset.as_dict`, by key
abbrev pub reset_payload : AuthorityReset → Value
reset_payload reset = obj (
    field "action" (str "AUTHORITY_RESET") (
      field "agent_id" (str reset.agent_id) (
        field "capability_id" (str reset.capability_id) (
          field "epoch" (num (pos reset.epoch)) (
            field "governance_version" (num (pos 1)) (
              field "governor_id" (str reset.governor_id) (
                field "issued_at" (num (pos reset.issued_at)) (
                  field "nonce" (str reset.nonce) (
                    field "reason" (str reset.reason)
                      (field "reset_id" (str reset.reset_id) end))))))))))

pub record SignedAuthorityReset : Type 0 where
  pub payload : AuthorityReset
  pub signature : String
  pub algorithm : String

-- `now - 30 * 24 * 3600` and `now + 60` are the limits of an action's age, in seconds.
abbrev pub oldest_age : ℕ
oldest_age = 30 * 24 * 3600

abbrev pub clock_skew : ℕ
clock_skew = 60

-- `given or str(uuid.uuid4())`
abbrev pub given_or : Option String → String → String
given_or none fresh = fresh
given_or (some given) fresh = if given == "" then fresh else given

-- `now if issued_at is None else issued_at`
abbrev pub time_or : Option ℕ → ℕ → ℕ
time_or none now = now
time_or (some t) now = t

module _ (crypto : Signatures) where
  unfoldable pub governor_id : String → String
  governor_id public_key = crypto.sha256 public_key

  unfoldable pub sign_authority_reset : AuthorityReset → String → SignedAuthorityReset
  unfolding signed
  sign_authority_reset reset private_key = record {
    payload = reset;
    signature = signed crypto private_key (reset_payload reset);
    algorithm = "Ed25519";
  }

  unfoldable pub verify_authority_reset : SignedAuthorityReset → String → ℕ → Bool × String
  unfolding verified governor_id
  verify_authority_reset document public_key now =
      let payload = document.payload in
      if not (document.algorithm == "Ed25519")
      then (false, "unsupported signature algorithm")
      else if payload.reset_id == ""
          || payload.agent_id == ""
          || payload.capability_id == ""
          || payload.governor_id == ""
          || payload.reason == ""
          || payload.nonce == ""
      then (false, "invalid governance field")
      else if ltb payload.epoch 1
      then (false, "invalid governance epoch")
      else if ltb (now + clock_skew) payload.issued_at
      then (false, "governance action is too far in the future")
      else if ltb (payload.issued_at + oldest_age) now
      then (false, "governance action is too old")
      else if not (payload.governor_id == governor_id public_key)
      then (false, "governor identity mismatch")
      else if verified crypto public_key (reset_payload payload) document.signature
      then (true, "valid authority reset")
      else (false, "invalid or tampered authority reset")

  -- The two fresh identifiers are arguments.
  unfoldable pub create_authority_reset :
      String
      → String
      → String
      → ℕ
      → String
      → Option ℕ
      → Option String
      → Option String
      → String
      → String
      → ℕ
      → Result SignedAuthorityReset
  unfolding sign_authority_reset governor_id strip
  create_authority_reset agent_id capability_id private_key epoch reason issued_at reset_id nonce
        fresh_id fresh_nonce now =
      do
        raise_if (strip reason == "") (value_error "reset reason is required")
        raise_if (ltb epoch 1) (value_error "epoch must be >= 1")
        ok (
            sign_authority_reset
              (record {
                reset_id = given_or reset_id fresh_id;
                agent_id = agent_id;
                capability_id = capability_id;
                governor_id = governor_id (crypto.public_bytes private_key);
                epoch = epoch;
                reason = reason;
                issued_at = time_or issued_at now;
                nonce = given_or nonce fresh_nonce;
              })
              private_key)
