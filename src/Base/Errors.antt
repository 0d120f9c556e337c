-- ===== src/Base/Errors.antt =====
-- Python exceptions as values. The text is the message, without what an f-string puts into it.
use Prim.Native.String.{String}
use mathlib.Core.Logic.{◌⊎◌, inl, inr}
use mathlib.Core.Path.{◌≡◌, refl}
use mathlib.Core.Bool.{Bool, true, false}
use native.Mathlib.Omega.{arith}

pub data Error : Type 0 where
  permission_error value_error lookup_error key_error runtime_error unsupported_network
        invalid_operation :
      String → Error

pub data Result {ℓ} (A : Type ℓ) : Type ℓ where
  ok : A → Result A
  err : Error → Result A

infixl 5 ◌>>=◌ ◌>>◌
-- the statements after a call that may raise
abbrev pub ◌>>=◌ {ℓ κ} : {A : Type ℓ} {B : Type κ} → Result A → (A → Result B) → Result B
err raised >>= rest = err raised
ok value >>= rest = rest value

-- the same, where the call returns nothing
abbrev pub ◌>>◌ {ℓ} : {A : Type ℓ} → Result (Unit {0}) → Result A → Result A
first >> rest = first >>= λ done. rest

-- `if c: raise e`
abbrev pub raise_if : Bool → Error → Result (Unit {0})
raise_if true e = err e
raise_if false e = ok tt

pub Result-cases {ℓ} :
    {A : Type ℓ} (r : Result A) → ((a : A) × (r ≡ ok a)) ⊎ ((e : Error) × (r ≡ err e))
Result-cases (ok a) = inl (a, refl)
Result-cases (err e) = inr (e, refl)

pub ok-injective {ℓ} : {A : Type ℓ} {a b : A} → ok a ≡ ok b → a ≡ b
ok-injective h = cc

-- What is known of a call whose continuation has returned, or has raised.
pub ok-of_bind {ℓ κ} :
    {A : Type ℓ} {B : Type κ} (call : Result A) (rest : A → Result B) {result : B}
    → call >>= rest ≡ ok result
    → (value : A) × (call ≡ ok value) × (rest value ≡ ok result)
ok-of_bind (err raised) rest h = cc
ok-of_bind (ok value) rest h = (value, refl, h)

pub err-of_bind {ℓ κ} :
    {A : Type ℓ} {B : Type κ} (call : Result A) (rest : A → Result B) {raised : Error}
    → call >>= rest ≡ err raised
    → (call ≡ err raised) ⊎ ((value : A) × (call ≡ ok value) × (rest value ≡ err raised))
err-of_bind (err other) rest h = inl (ground arith)
err-of_bind (ok value) rest h = inr (value, refl, h)

pub ok-of_guard {ℓ} :
    {A : Type ℓ} (test : Bool) (e : Error) (rest : Result A) {result : A}
    → raise_if test e >> rest ≡ ok result
    → (test ≡ false) × (rest ≡ ok result)
ok-of_guard true e rest h = cc
ok-of_guard false e rest h = (refl, h)
