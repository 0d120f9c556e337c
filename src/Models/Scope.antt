-- ===== src/Models/Scope.antt =====
-- What the tests of `Capability.permits` mean: membership in lists, choices of a context, a lifetime.
use verigate.Base.{
  inl, inr, refl, [], ◌∷◌, none, some, true, false, ◌≡◌, ◌==◌, ◌⊎◌, ◌&&◌, ◌<◌, ◌↔◌, string_eq, List,
  String, Option, ℕ, Bool-cases, contains, map, nonempty, not, arith, ==_sound, ==_refl, ap,
}
use verigate.Base.Json.{
  Value, Items, Fields, arr, nil, cons, end, field, get, plain, value_eq, contains_item, same_value,
  bool, num, str, obj, null,
}
use verigate.Base.Text.{lower, contains_lower}
use verigate.Models.{outside, outside_opt, expired, context_matches, context_permits}

-- a value on a list
abbrev pub Member : String → List String → Type 0
Member v [] = ⊥
Member v (x ∷ xs) = (v ≡ x) ⊎ Member v xs

-- a value on a list that restricts, where it is not empty
abbrev pub Among : List String → String → Type 0
Among [] v = Unit
Among (x ∷ xs) v = Member v (x ∷ xs)

abbrev pub AmongOpt : List String → Option String → Type 0
AmongOpt [] value = Unit
AmongOpt (x ∷ xs) none = ⊥
AmongOpt (x ∷ xs) (some v) = Member v (x ∷ xs)

-- the same, whatever the case
abbrev pub AmongLower : List String → String → Type 0
AmongLower [] v = Unit
AmongLower (x ∷ xs) v = (w : String) × Member w (x ∷ xs) × (lower w ≡ lower v)

abbrev pub Choice : Value → Items → Type 0
Choice v nil = ⊥
Choice v (cons x xs) = (plain v ≡ plain x) ⊎ Choice v xs

-- A declared value against a constraint: one of its choices, or equal to it as Python compares.
abbrev pub Satisfies : Value → Value → Type 0
Satisfies (arr choices) actual = Choice actual choices
Satisfies expected actual = plain actual ≡ plain expected

abbrev pub SatisfiesAll : Fields → Fields → Type 0
SatisfiesAll end context = Unit
SatisfiesAll (field key expected rest) context =
    Satisfies expected (get key context) × SatisfiesAll rest context

Member-sound : (v : String) (xs : List String) → contains xs v ≡ true → Member v xs
Member-sound v [] h = cc
Member-sound v (x ∷ xs) h = elim (Bool-cases (v == x)) [
  | inl e ↦ inl (==_sound v x e)
  | inr n ↦ inr (Member-sound v xs (ground arith))
]

Member-complete : (v : String) (xs : List String) → Member v xs → contains xs v ≡ true
Member-complete v [] m = absurd m
Member-complete v (x ∷ xs) (inl e) = ground (arith, ==_refl v)
Member-complete v (x ∷ xs) (inr m) = ground (arith, Member-complete v xs m)

pub Among-iff : (xs : List String) (v : String) → (outside xs v ≡ false) ↔ Among xs v
Among-iff [] v = (λ h. tt, λ m. refl)
Among-iff (x ∷ xs) v = (
  λ h. Member-sound v (x ∷ xs) (ground arith),
  λ m. (let found = Member-complete v (x ∷ xs) m in ground arith),
)

pub AmongOpt-iff :
    (xs : List String) (v : Option String) → (outside_opt xs v ≡ false) ↔ AmongOpt xs v
AmongOpt-iff [] none = (λ h. tt, λ m. refl)
AmongOpt-iff [] (some v) = (λ h. tt, λ m. refl)
AmongOpt-iff (x ∷ xs) none = (λ h. cc, λ m. absurd m)
AmongOpt-iff (x ∷ xs) (some v) = Among-iff (x ∷ xs) v

lower_sound :
    (xs : List String) (v : String)
    → contains (map lower xs) (lower v) ≡ true
    → (w : String) × Member w xs × (lower w ≡ lower v)
lower_sound [] v h = cc
lower_sound (x ∷ xs) v h = elim (Bool-cases (lower v == lower x)) [
  | inl e ↦ (x, inl refl, (let same = ==_sound (lower v) (lower x) e in cc))
  | inr n ↦ (let (w, m, e) = lower_sound xs v (ground arith) in (w, inr m, e))
]

lower_complete :
    (xs : List String) (v w : String)
    → Member w xs
    → lower w ≡ lower v
    → contains (map lower xs) (lower v) ≡ true
lower_complete [] v w m e = absurd m
lower_complete (x ∷ xs) v w (inl same) e =
    let s = ap lower same in ground (arith, ==_refl (lower v))
lower_complete (x ∷ xs) v w (inr m) e = ground (arith, lower_complete xs v w m e)

pub AmongLower-iff :
    (xs : List String) (v : String)
    → ((nonempty xs && not (contains_lower xs v)) ≡ false) ↔ AmongLower xs v
AmongLower-iff [] v = (λ h. tt, λ m. refl)
AmongLower-iff (x ∷ xs) v = (
  λ h. lower_sound (x ∷ xs) v (ground arith),
  λ m. (let found = lower_complete (x ∷ xs) v m.0 m.1 m.2 in ground arith),
)

Choice-sound : (v : Value) (xs : Items) → contains_item xs v ≡ true → Choice v xs
Choice-sound v nil h = cc
Choice-sound v (cons x xs) h = elim (Bool-cases (plain v == plain x)) [
  | inl e ↦ inl (==_sound (plain v) (plain x) e)
  | inr n ↦ inr (Choice-sound v xs (ground arith))
]

Choice-complete : (v : Value) (xs : Items) → Choice v xs → contains_item xs v ≡ true
Choice-complete v nil m = absurd m
Choice-complete v (cons x xs) (inl e) = ground (arith, ==_refl (plain v))
Choice-complete v (cons x xs) (inr m) = ground (arith, Choice-complete v xs m)

same_iff : (a b : Value) → (same_value a b ≡ true) ↔ (plain a ≡ plain b)
same_iff a b = (==_sound (plain a) (plain b), λ e. ground (arith, ==_refl (plain b)))

Satisfies-iff :
    (expected actual : Value) → (context_matches expected actual ≡ true) ↔ Satisfies expected actual
Satisfies-iff null actual = same_iff actual null
Satisfies-iff (bool b) actual = same_iff actual (bool b)
Satisfies-iff (num n) actual = same_iff actual (num n)
Satisfies-iff (str s) actual = same_iff actual (str s)
Satisfies-iff (obj fields) actual = same_iff actual (obj fields)
Satisfies-iff (arr items) actual = (Choice-sound actual items, Choice-complete actual items)

pub SatisfiesAll-iff :
    (constraints context : Fields)
    → (context_permits constraints context ≡ true) ↔ SatisfiesAll constraints context
SatisfiesAll-iff end context = (λ h. tt, λ m. refl)
SatisfiesAll-iff (field key expected rest) context = (
  λ h. (
    (Satisfies-iff expected (get key context)).0 (ground arith),
    (SatisfiesAll-iff rest context).0 (ground arith),
  ),
  λ m.
      (let first = (Satisfies-iff expected (get key context)).1 m.0 in
        let others = (SatisfiesAll-iff rest context).1 m.1 in ground arith),
)

-- before the expiry, where there is one
pub current_iff :
    (expires_at : Option ℕ) (now : ℕ)
    → (expired expires_at now ≡ false) ↔ ((t : ℕ) → expires_at ≡ some t → now < t)
current_iff none now = (λ h t e. cc, λ f. refl)
current_iff (some t) now = (λ h u e. ground arith, λ f. (let before = f t refl in ground arith))
