-- ===== src/Signatures.antt =====
-- What attest/ and core/ take from their libraries of cryptography and encoding: a record of operations on byte
-- strings and the laws that they document. Ed25519 keys are byte strings.
use verigate.Base.{some, none, true, false, ◌≡◌, ◌==◌, String, Option, ℕ, Bool, string_eq}
use verigate.Base.Json.{Value}

pub record Signatures : Type 0 where
  -- `b64encode(…).decode("ascii")`
  pub b64encode : String → String
  -- `b64decode(…, validate=True)`, with no value where it raises `ValueError`
  pub b64decode : String → Option String
  pub byte_length : String → ℕ
  -- `private_key.sign(message)`
  pub sign : String → String → String
  -- `public_key.verify(signature, message)`, false where it raises `InvalidSignature`
  pub verify : String → String → String → Bool
  -- the public key of a private key, as raw bytes
  pub public_bytes : String → String
  -- `sha256(…).hexdigest()`
  pub sha256 : String → String
  -- `json.dumps(…, sort_keys=True)`, encoded
  pub canonical : Value → String

pub record SignatureLaws (crypto : Signatures) : Type 0 where
  pub decode_encode : (x : String) → crypto.b64decode (crypto.b64encode x) ≡ some x
  pub encode_key : (x : String) → crypto.byte_length x ≡ 32 → (crypto.b64encode x == "") ≡ false
  pub key_length : (key : String) → crypto.byte_length (crypto.public_bytes key) ≡ 32
  pub verify_sign :
      (key message : String)
      → crypto.verify (crypto.public_bytes key) message (crypto.sign key message) ≡ true

module _ (crypto : Signatures) where
  abbrev verified_bytes : String → Value → Option String → Bool
  verified_bytes raw payload none = false
  verified_bytes raw payload (some signature) =
      crypto.verify raw (crypto.canonical payload) signature

  -- `verify(b64decode(signature, validate=True), _canonical(payload))`
  unfoldable pub verified : String → Value → String → Bool
  verified raw payload signature = verified_bytes raw payload (crypto.b64decode signature)

  -- `b64encode(private_key.sign(_canonical(payload)))`
  unfoldable pub signed : String → Value → String
  signed key payload = crypto.b64encode (crypto.sign key (crypto.canonical payload))

  pub verified-signed :
      SignatureLaws crypto
      → (key : String) (payload : Value)
      → verified (crypto.public_bytes key) payload (signed key payload) ≡ true
  unfolding verified signed
  verified-signed laws key payload =
      rw (laws.decode_encode (crypto.sign key (crypto.canonical payload)))
        (laws.verify_sign key (crypto.canonical payload))
