-- ===== src/Delegation/Scope.antt =====
-- What each part of a valid delegation scope means.
use verigate.Base.{
  inl, inr, refl, [], ◌∷◌, none, some, true, false, ◌≡◌, ◌&&◌, List, String, Option, contains,
  subset, nonempty, arith, map, not, subset-contains, string_eq, ==_sound, ℕ, Bool-cases, ◌==◌, sym,
  ◌∙◌, ap,
}
use verigate.Base.Json.{
  Value, Fields, arr, end, field, null, has_key, get, subset_items-contains, value_eq, plain,
  same_value, is_arr, contains_item-same, same_value_trans, contains_item, Items, bool, num, str,
  obj,
}
use verigate.Delegation.{
  is_subset, constraint_in_scope, context_in_scope, limits_subset, outlives, limits_below,
  has_limits,
}
use verigate.Models.{
  outside, context_matches, context_permits, outside_opt, Limits, has_limit, limit_for, expired,
}
use verigate.Base.Text.{lower, contains_lower}
use verigate.Base.Int.{ℤ, ◌≤ℤ◌}

-- What a child allows, its parent allows.
pub is_subset-outside :
    (child parent : List String) (v : String)
    → is_subset child parent ≡ true
    → outside child v ≡ false
    → outside parent v ≡ false
unfolding is_subset
is_subset-outside [] [] v s h = refl
is_subset-outside (c ∷ cs) [] v s h = refl
is_subset-outside [] (p ∷ ps) v s h = cc
is_subset-outside (c ∷ cs) (p ∷ ps) v s h = ground (arith, subset-contains v (c ∷ cs) (p ∷ ps))

none_outside :
    (child parent : List String)
    → is_subset child parent ≡ true
    → nonempty child ≡ false
    → nonempty parent ≡ false
unfolding is_subset
none_outside child [] s h = refl
none_outside [] (p ∷ ps) s h = cc
none_outside (c ∷ cs) (p ∷ ps) s h = cc

pub is_subset-outside_opt :
    (child parent : List String) (v : Option String)
    → is_subset child parent ≡ true
    → outside_opt child v ≡ false
    → outside_opt parent v ≡ false
is_subset-outside_opt child parent none s h = none_outside child parent s h
is_subset-outside_opt child parent (some v) s h = is_subset-outside child parent v s h

contains-map-lower :
    (x : String) (xs : List String)
    → contains xs x ≡ true
    → contains (map lower xs) (lower x) ≡ true
contains-map-lower x [] h = cc
contains-map-lower x (y ∷ ys) h = ground (arith, contains-map-lower x ys)

subset-map-lower :
    (xs ys : List String) → subset xs ys ≡ true → subset (map lower xs) (map lower ys) ≡ true
subset-map-lower [] ys h = refl
subset-map-lower (x ∷ xs) ys h = ground (arith, contains-map-lower x ys, subset-map-lower xs ys)

pub is_subset-purpose :
    (child parent : List String) (v : String)
    → is_subset child parent ≡ true
    → (nonempty child && not (contains_lower child v)) ≡ false
    → (nonempty parent && not (contains_lower parent v)) ≡ false
unfolding is_subset
is_subset-purpose child [] v s h = refl
is_subset-purpose [] (p ∷ ps) v s h = cc
is_subset-purpose (c ∷ cs) (p ∷ ps) v s h = ground (
  arith,
  subset-map-lower (c ∷ cs) (p ∷ ps),
  subset-contains (lower v) (map lower (c ∷ cs)) (map lower (p ∷ ps)),
)

-- the constraint that a capability sets for a key is met
context_permits-get :
    (key : String) (constraints context : Fields)
    → has_key key constraints ≡ true
    → context_permits constraints context ≡ true
    → context_matches (get key constraints) (get key context) ≡ true
context_permits-get key end context h p = cc
context_permits-get key (field k v rest) context h p =
    ground (arith, context_permits-get key rest context)

is_arr-plain : (v : Value) → is_arr (plain v) ≡ is_arr v
is_arr-plain null = refl
is_arr-plain (bool true) = refl
is_arr-plain (bool false) = refl
is_arr-plain (num n) = refl
is_arr-plain (str s) = refl
is_arr-plain (obj fields) = refl
is_arr-plain (arr items) = refl

matches-same :
    (expected actual : Value)
    → is_arr expected ≡ false
    → context_matches expected actual ≡ same_value actual expected
matches-same null actual h = refl
matches-same (bool b) actual h = refl
matches-same (num n) actual h = refl
matches-same (str s) actual h = refl
matches-same (obj fields) actual h = refl
matches-same (arr items) actual h = cc

in_scope-same :
    (parent child : Value)
    → is_arr parent ≡ false
    → constraint_in_scope parent child ≡ same_value child parent
in_scope-same null child h = refl
in_scope-same (bool b) child h = refl
in_scope-same (num n) child h = refl
in_scope-same (str s) child h = refl
in_scope-same (obj fields) child h = refl
in_scope-same (arr items) child h = cc

same-is_arr : (a b : Value) → same_value a b ≡ true → is_arr a ≡ is_arr b
same-is_arr a b h =
    sym (is_arr-plain a) ∙ ap is_arr (==_sound (plain a) (plain b) h) ∙ is_arr-plain b

not_list-matches :
    (parent child actual : Value)
    → is_arr parent ≡ false
    → constraint_in_scope parent child ≡ true
    → context_matches child actual ≡ true
    → context_matches parent actual ≡ true
not_list-matches parent child actual single s m =
    let same = sym (in_scope-same parent child single) ∙ s in
    let child_single = same-is_arr child parent same ∙ single in
    let equal = sym (matches-same child actual child_single) ∙ m in
    matches-same parent actual single ∙ sym (same_value_trans actual child parent equal) ∙ same

list-matches :
    (ps : Items) (child actual : Value)
    → is_arr child ≡ false
    → contains_item ps child ≡ true
    → context_matches child actual ≡ true
    → contains_item ps actual ≡ true
list-matches ps child actual single s m =
    let equal = sym (matches-same child actual single) ∙ m in
    sym (contains_item-same actual child ps equal) ∙ s

constraint-matches :
    (parent child actual : Value)
    → constraint_in_scope parent child ≡ true
    → context_matches child actual ≡ true
    → context_matches parent actual ≡ true
constraint-matches (arr ps) (arr cs) actual s m = subset_items-contains actual cs ps s m
constraint-matches (arr ps) null actual s m = list-matches ps null actual refl s m
constraint-matches (arr ps) (bool b) actual s m = list-matches ps (bool b) actual refl s m
constraint-matches (arr ps) (num n) actual s m = list-matches ps (num n) actual refl s m
constraint-matches (arr ps) (str t) actual s m = list-matches ps (str t) actual refl s m
constraint-matches (arr ps) (obj fields) actual s m = list-matches ps (obj fields) actual refl s m
constraint-matches null child actual s m = not_list-matches null child actual refl s m
constraint-matches (bool b) child actual s m = not_list-matches (bool b) child actual refl s m
constraint-matches (num n) child actual s m = not_list-matches (num n) child actual refl s m
constraint-matches (str t) child actual s m = not_list-matches (str t) child actual refl s m
constraint-matches (obj fields) child actual s m =
    not_list-matches (obj fields) child actual refl s m

pub context_in_scope-permits :
    (parent child context : Fields)
    → context_in_scope parent child ≡ true
    → context_permits child context ≡ true
    → context_permits parent context ≡ true
unfolding context_in_scope
context_in_scope-permits end child context s p = refl
context_in_scope-permits (field key expected rest) child context s p = ground (
  arith,
  context_permits-get key child context,
  constraint-matches expected (get key child) (get key context),
  context_in_scope-permits rest child context,
)

limits_below-limit_for :
    (asset : String) (child parent : Limits) (c p : ℤ)
    → limits_below child parent ≡ true
    → limit_for child asset ≡ some c
    → limit_for parent asset ≡ some p
    → c ≤ℤ p
limits_below-limit_for asset [] parent c p b h e = cc
limits_below-limit_for asset ((k, l) ∷ rest) parent c p b h e =
    ground (arith, limits_below-limit_for asset rest parent c p)

has_limit-found :
    (asset : String) (child : Limits)
    → has_limit child asset ≡ true
    → (c : ℤ) × (limit_for child asset ≡ some c)
has_limit-found asset [] h = cc
has_limit-found asset ((k, l) ∷ rest) h = elim (Bool-cases (asset == k)) [
  | inl e ↦ (l, ground arith)
  | inr n ↦ let (c, f) = has_limit-found asset rest (ground arith) in (c, ground arith)
]

has_limits-found :
    (asset : String) (child parent : Limits) (p : ℤ)
    → has_limits child parent ≡ true
    → limit_for parent asset ≡ some p
    → has_limit child asset ≡ true
has_limits-found asset child [] p h e = cc
has_limits-found asset child ((k, l) ∷ rest) p h e =
    ground (arith, has_limits-found asset child rest p)

-- Where the parent has a limit for an asset, the child has one, and it is no larger.
pub limits_subset-limit_for :
    (asset : String) (child parent : Limits) (p : ℤ)
    → limits_subset child parent ≡ true
    → limit_for parent asset ≡ some p
    → (c : ℤ) × (limit_for child asset ≡ some c) × (c ≤ℤ p)
unfolding limits_subset
limits_subset-limit_for asset child [] p s e = cc
limits_subset-limit_for asset child (x ∷ parent) p s e =
    let (c, f) =
      has_limit-found asset child (has_limits-found asset child (x ∷ parent) p (ground arith) e) in
    (c, f, limits_below-limit_for asset child (x ∷ parent) c p (ground arith) f e)

pub outlives-expired :
    (child parent : Option ℕ) (now : ℕ)
    → outlives child parent ≡ false
    → expired child now ≡ false
    → expired parent now ≡ false
outlives-expired child none now o h = refl
outlives-expired none (some t) now o h = cc
outlives-expired (some c) (some t) now o h = ground arith
