-- ===== src/Base/Lists.antt =====
-- Lists measured by native numbers, and predicates over them by recursion.
use Prim.Native.Nat.{ℕ, suc, ◌+◌, ◌≤◌}
use mathlib.Core.Path.{◌≡◌, refl}
use mathlib.Core.Bool.{Bool, true, false, ◌&&◌, ◌||◌}
use mathlib.Core.Option.{Option, none, some}
use mathlib.Core.List.{List, [], ◌∷◌, ◌++◌}
use native.Mathlib.Omega.{arith}
use verigate.Base.Tests.{leb, if◌then◌else◌}

module _ {ℓ} {A : Type ℓ} where
  abbrev pub length : List A → ℕ
  length [] = 0
  length (_ ∷ xs) = suc (length xs)

  -- `if xs:` on a Python sequence
  abbrev pub nonempty : List A → Bool
  nonempty [] = false
  nonempty (_ ∷ _) = true

  abbrev pub any : (A → Bool) → List A → Bool
  any p [] = false
  any p (x ∷ xs) = p x || any p xs

  abbrev pub all : (A → Bool) → List A → Bool
  all p [] = true
  all p (x ∷ xs) = p x && all p xs

  -- the rows that a `WHERE` clause selects
  abbrev pub where_rows : (A → Bool) → List A → List A
  where_rows p [] = []
  where_rows p (x ∷ xs) = if p x then x ∷ where_rows p xs else where_rows p xs

  -- `fetchone()`: the first row that a `WHERE` clause selects
  abbrev pub first_row : (A → Bool) → List A → Option A
  first_row p [] = none
  first_row p (x ∷ xs) = if p x then some x else first_row p xs

  abbrev pub count_rows : (A → Bool) → List A → ℕ
  count_rows p [] = 0
  count_rows p (x ∷ xs) = (if p x then 1 else 0) + count_rows p xs

  pub length-append : (xs ys : List A) → length (xs ++ ys) ≡ length xs + length ys
  length-append [] ys = omega arith
  length-append (x ∷ xs) ys = omega (arith, length-append xs ys)

  pub count_rows-append :
      (p : A → Bool) (xs ys : List A) → count_rows p (xs ++ ys) ≡ count_rows p xs + count_rows p ys
  count_rows-append p [] ys = omega arith
  count_rows-append p (x ∷ xs) ys = omega (arith, count_rows-append p xs ys)

module _ {ℓ} {A : Type ℓ} (key : A → ℕ) where
  -- before the first row with a larger key, so that equal keys keep their order
  abbrev pub insert_by : A → List A → List A
  insert_by x [] = x ∷ []
  insert_by x (y ∷ ys) = if leb (key x) (key y) then x ∷ y ∷ ys else y ∷ insert_by x ys

  -- `ORDER BY key ASC`
  abbrev pub order_by : List A → List A
  order_by [] = []
  order_by (x ∷ xs) = insert_by x (order_by xs)

  count_rows-insert_by :
      (p : A → Bool) (x : A) (ys : List A)
      → count_rows p (insert_by x ys) ≡ (if p x then 1 else 0) + count_rows p ys
  count_rows-insert_by p x [] = refl
  count_rows-insert_by p x (y ∷ ys) = ground (arith, count_rows-insert_by p x ys)

  pub count_rows-order_by :
      (p : A → Bool) (xs : List A) → count_rows p (order_by xs) ≡ count_rows p xs
  count_rows-order_by p [] = refl
  count_rows-order_by p (x ∷ xs) =
      omega (arith, count_rows-insert_by p x (order_by xs), count_rows-order_by p xs)

module _ {ℓ} {A : Type ℓ} where
  pub where_rows-append :
      (p : A → Bool) (xs ys : List A) → where_rows p (xs ++ ys) ≡ where_rows p xs ++ where_rows p ys
  where_rows-append p [] ys = refl
  where_rows-append p (x ∷ xs) ys = ground (arith, where_rows-append p xs ys)

  pub any-append : (p : A → Bool) (xs ys : List A) → any p (xs ++ ys) ≡ (any p xs || any p ys)
  any-append p [] ys = refl
  any-append p (x ∷ xs) ys = ground (arith, any-append p xs ys)

  pub count_rows-le :
      (p q : A → Bool) (xs : List A)
      → ((x : A) → p x ≡ true → q x ≡ true)
      → count_rows p xs ≤ count_rows q xs
  count_rows-le p q [] h = omega arith
  count_rows-le p q (x ∷ xs) h = ground (arith, h x, count_rows-le p q xs h)

  pub where_rows-append_kept :
      (p : A → Bool) (xs : List A) (x : A)
      → p x ≡ true
      → where_rows p (xs ++ x ∷ []) ≡ where_rows p xs ++ x ∷ []
  where_rows-append_kept p [] x h = ground arith
  where_rows-append_kept p (y ∷ xs) x h = ground (arith, where_rows-append_kept p xs x h)

  pub where_rows-append_left_out :
      (p : A → Bool) (xs : List A) (x : A)
      → p x ≡ false
      → where_rows p (xs ++ x ∷ []) ≡ where_rows p xs
  where_rows-append_left_out p [] x h = ground arith
  where_rows-append_left_out p (y ∷ xs) x h = ground (arith, where_rows-append_left_out p xs x h)

  pub count_rows-append_kept :
      (p : A → Bool) (xs : List A) (x : A)
      → p x ≡ true
      → count_rows p (xs ++ x ∷ []) ≡ count_rows p xs + 1
  count_rows-append_kept p [] x h = ground arith
  count_rows-append_kept p (y ∷ xs) x h = ground (arith, count_rows-append_kept p xs x h)

  pub count_rows-append_left_out :
      (p : A → Bool) (xs : List A) (x : A)
      → p x ≡ false
      → count_rows p (xs ++ x ∷ []) ≡ count_rows p xs
  count_rows-append_left_out p [] x h = ground arith
  count_rows-append_left_out p (y ∷ xs) x h = ground (arith, count_rows-append_left_out p xs x h)

  pub first_row-append_found :
      (p : A → Bool) (xs ys : List A) (x : A)
      → first_row p xs ≡ some x
      → first_row p (xs ++ ys) ≡ some x
  first_row-append_found p [] ys x h = cc
  first_row-append_found p (y ∷ xs) ys x h = ground (arith, first_row-append_found p xs ys x)

  pub first_row-append_new :
      (p : A → Bool) (xs : List A) (x : A)
      → p x ≡ true
      → first_row p xs ≡ none
      → first_row p (xs ++ x ∷ []) ≡ some x
  first_row-append_new p [] x h e = ground arith
  first_row-append_new p (y ∷ xs) x h e = ground (arith, first_row-append_new p xs x h)
