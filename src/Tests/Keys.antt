-- ===== src/Tests/Keys.antt =====
-- Signatures that a key and its own text stand for, as an instance of the laws.
use Prim.Native.String.{String, [], ◌∷◌, char_at}
use verigate.Base.{
  inl, inr, refl, some, false, ◌≡◌, ◌==◌, string_eq, nat_eq, ==_sound, ==_refl, Bool-cases, ℕ,
}
use verigate.Signatures.{Signatures, SignatureLaws}

abbrev byte_length : String → ℕ
byte_length [] = 0
byte_length (c ∷ s) = 32

abbrev pub public_key : String → String
public_key key = char_at "k" 0 ∷ key

abbrev pub crypto : Signatures
crypto = record {
  b64encode = λ x. x;
  b64decode = λ x. some x;
  byte_length = byte_length;
  sign = λ key message. public_key key;
  verify = λ key message signature. signature == key;
  public_bytes = public_key;
  sha256 = λ x. x;
  canonical = λ v. "";
}

nonempty_key : (x : String) → byte_length x ≡ 32 → (x == "") ≡ false
nonempty_key [] h = cc
nonempty_key (c ∷ s) h = elim (Bool-cases ((c ∷ s) == "")) [
  | inl e ↦ (let same = ==_sound (c ∷ s) "" e in cc)
  | inr e ↦ e
]

pub crypto-laws : SignatureLaws crypto
crypto-laws = record {
  decode_encode = λ x. refl;
  encode_key = nonempty_key;
  key_length = λ key. refl;
  verify_sign = λ key message. ==_refl (public_key key);
}
