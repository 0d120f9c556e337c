-- ===== src/Base/Json.antt =====
-- The values of a Python dictionary that came from JSON: declared context, metadata, payloads. A
-- missing key reads as `null`, as `dict.get` does; `obj` lists its fields in the order of their keys.
use Prim.Native.String.{String}
use mathlib.Core.Logic.{inl, inr}
use mathlib.Core.Path.{◌≡◌, refl, ap, sym}
use mathlib.Core.Bool.{Bool, true, false, ◌||◌, ◌&&◌}
use native.Mathlib.Decide.{ℕ_discrete}
use native.Mathlib.Omega.{arith}
use verigate.Base.Tests.{if◌then◌else◌, Bool-cases}
use verigate.Base.Equality.{Eq, ◌==◌, string_eq, ==_sound}
use verigate.Base.Int.{ℤ, pos}

mutual
  pub data Value : Type 0 where
    null : Value
    bool : Bool → Value
    num : ℤ → Value
    str : String → Value
    obj : Fields → Value
    arr : Items → Value

  pub data Fields : Type 0 where
    end : Fields
    field : String → Value → Fields → Fields

  pub data Items : Type 0 where
    nil : Items
    cons : Value → Items → Items

string_dec : Discrete String
unfolding string_eq
string_dec = string_eq.dec

pub Value-discrete : Discrete Value
Value-discrete = hlevel (ℕ_discrete, string_dec)

instance unfoldable pub value_eq : Eq Value
unfolding Value-discrete string_dec
value_eq = record { dec = Value-discrete }

-- `d.get(key)`
abbrev pub get : String → Fields → Value
get key end = null
get key (field k v rest) = if key == k then v else get key rest

-- `key in d`
abbrev pub has_key : String → Fields → Bool
has_key key end = false
has_key key (field k v rest) = key == k || has_key key rest

-- Python's `==` does not tell `True` from 1 and `False` from 0.
abbrev mutual
  pub plain : Value → Value
  plain null = null
  plain (bool true) = num (pos 1)
  plain (bool false) = num (pos 0)
  plain (num n) = num n
  plain (str s) = str s
  plain (obj fields) = obj (plain_fields fields)
  plain (arr items) = arr (plain_items items)

  plain_fields : Fields → Fields
  plain_fields end = end
  plain_fields (field key value rest) = field key (plain value) (plain_fields rest)

  plain_items : Items → Items
  plain_items nil = nil
  plain_items (cons value rest) = cons (plain value) (plain_items rest)

abbrev pub is_arr : Value → Bool
is_arr (arr _) = true
is_arr _ = false

-- `a == b`
abbrev pub same_value : Value → Value → Bool
same_value a b = plain a == plain b

-- `value in xs`
abbrev pub contains_item : Items → Value → Bool
contains_item nil value = false
contains_item (cons x xs) value = same_value value x || contains_item xs value

-- `set(xs).issubset(ys)`
abbrev pub subset_items : Items → Items → Bool
subset_items nil ys = true
subset_items (cons x xs) ys = contains_item ys x && subset_items xs ys

-- `if d:` on a dictionary
abbrev pub nonempty_fields : Fields → Bool
nonempty_fields end = false
nonempty_fields (field _ _ _) = true

pub same_value_trans : (a b c : Value) → same_value a b ≡ true → same_value b c ≡ same_value a c
same_value_trans a b c h = ap (λ v. v == plain c) (sym (==_sound (plain a) (plain b) h))

pub contains_item-same :
    (a b : Value) (xs : Items) → same_value a b ≡ true → contains_item xs b ≡ contains_item xs a
contains_item-same a b nil h = refl
contains_item-same a b (cons x xs) h =
    ground (arith, same_value_trans a b x h, contains_item-same a b xs h)

pub subset_items-contains :
    (v : Value) (xs ys : Items)
    → subset_items xs ys ≡ true
    → contains_item xs v ≡ true
    → contains_item ys v ≡ true
subset_items-contains v nil ys s h = cc
subset_items-contains v (cons x xs) ys s h = elim (Bool-cases (same_value v x)) [
  | inl e ↦ ground (arith, contains_item-same v x ys e)
  | inr n ↦ ground (arith, subset_items-contains v xs ys)
]

get_found : get "b" (field "a" null (field "b" (str "x") end)) ≡ str "x"
unfolding string_eq
get_found = refl

same_values : (arr (cons (str "x") nil) == arr (cons (str "x") nil)) ≡ true
unfolding value_eq string_eq
same_values = refl
