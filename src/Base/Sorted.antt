-- ===== src/Base/Sorted.antt =====
-- Rows in the order of a key, and the last of them.
use Prim.Native.Nat.{ℕ, ◌≤◌}
use mathlib.Core.Path.{◌≡◌, refl, ap, ◌∙◌}
use mathlib.Core.Bool.{Bool, true, false, ◌&&◌}
use mathlib.Core.Option.{Option, none, some, some-injective}
use mathlib.Core.List.{List, [], ◌∷◌, ◌++◌}
use native.Mathlib.Omega.{arith}
use mathlib.Core.Logic.{inl, inr}
use mathlib.Core.Path.{sym}
use verigate.Base.Tests.{leb, if◌then◌else◌, Bool-cases, Option-cases}
use verigate.Base.Lists.{all, insert_by, order_by}

module _ {ℓ} {A : Type ℓ} where
  abbrev pub last_row : List A → Option A
  last_row [] = none
  last_row (x ∷ []) = some x
  last_row (x ∷ y ∷ xs) = last_row (y ∷ xs)

  pub last_row-append : (xs : List A) (x : A) → last_row (xs ++ x ∷ []) ≡ some x
  last_row-append [] x = refl
  last_row-append (y ∷ []) x = refl
  last_row-append (y ∷ z ∷ xs) x = last_row-append (z ∷ xs) x

  last_row-cons : (x y : A) (ys xs : List A) → xs ≡ y ∷ ys → last_row (x ∷ xs) ≡ last_row xs
  last_row-cons x y ys xs h = rw h refl

  last_row-first : (x : A) (xs : List A) → (y : A) × (last_row (x ∷ xs) ≡ some y)
  last_row-first x [] = (x, refl)
  last_row-first x (y ∷ xs) = last_row-first y xs

module _ {ℓ} {A : Type ℓ} (key : A → ℕ) where
  abbrev pub up_to : ℕ → A → Bool
  up_to n x = leb (key x) n

  pub all-up_to_le :
      (n m : ℕ) (xs : List A) → n ≤ m → all (up_to n) xs ≡ true → all (up_to m) xs ≡ true
  all-up_to_le n m [] le h = refl
  all-up_to_le n m (x ∷ xs) le h = ground (arith, all-up_to_le n m xs le)

  insert_by-append :
      (y x : A) (ys : List A)
      → key y ≤ key x
      → insert_by key y (ys ++ x ∷ []) ≡ insert_by key y ys ++ x ∷ []
  insert_by-append y x [] le = ground arith
  insert_by-append y x (z ∷ ys) le = ground (arith, insert_by-append y x ys le)

  all-insert_by :
      (p : A → Bool) (y : A) (ys : List A) → all p (insert_by key y ys) ≡ (p y && all p ys)
  all-insert_by p y [] = refl
  all-insert_by p y (z ∷ ys) = ground (arith, all-insert_by p y ys)

  pub all-order_by : (p : A → Bool) (xs : List A) → all p (order_by key xs) ≡ all p xs
  all-order_by p [] = refl
  all-order_by p (x ∷ xs) = ground (arith, all-insert_by p x (order_by key xs), all-order_by p xs)

  pub order_by-append :
      (xs : List A) (x : A)
      → all (up_to (key x)) xs ≡ true
      → order_by key (xs ++ x ∷ []) ≡ order_by key xs ++ x ∷ []
  order_by-append [] x h = refl
  order_by-append (y ∷ xs) x h =
      ap (insert_by key y) (order_by-append xs x (ground arith))
      ∙ insert_by-append y x (order_by key xs) (ground arith)

  insert_by-first : (x : A) (xs : List A) → (y : A) × (ys : List A) × (insert_by key x xs ≡ y ∷ ys)
  insert_by-first x [] = (x, [], refl)
  insert_by-first x (y ∷ ys) = go (leb (key x) (key y))
    where
      go :
          (b : Bool)
          → (z : A) × (zs : List A) × ((if b then x ∷ y ∷ ys else y ∷ insert_by key x ys) ≡ z ∷ zs)
      go true = (x, y ∷ ys, refl)
      go false = (y, insert_by key x ys, refl)

  pub last_row-order_by-none : (xs : List A) → last_row (order_by key xs) ≡ none → xs ≡ []
  last_row-order_by-none [] h = refl
  last_row-order_by-none (x ∷ xs) h =
      let (y, ys, first) = insert_by-first x (order_by key xs) in
      let (z, last) = last_row-first y ys in let rewritten = rw first at h in cc

  insert_by-largest :
      (x m : A) (ys : List A)
      → last_row ys ≡ some m
      → all (up_to (key m)) ys ≡ true
      → (top : A) × (last_row (insert_by key x ys) ≡ some top)
        × (all (up_to (key top)) (x ∷ ys) ≡ true)
  insert_by-largest x m [] h le = cc
  insert_by-largest x m (y ∷ []) h le = elim (Bool-cases (leb (key x) (key y))) [
    | inl below ↦ (y, rw below refl, ground arith)
    | inr above ↦ (x, rw above refl, ground arith)
  ]
  insert_by-largest x m (y ∷ z ∷ ys) h le = elim (Bool-cases (leb (key x) (key y))) [
    | inl below ↦ (m, rw below h, ground arith)
    | inr above ↦
        (let (top, last, all_below) = insert_by-largest x m (z ∷ ys) h (ground arith) in
          let (w, ws, first) = insert_by-first x (z ∷ ys) in
          (
            top,
            rw above (last_row-cons y w ws (insert_by key x (z ∷ ys)) first ∙ last),
            ground arith,
          ))
  ]

  pub last_row-order_by :
      (xs : List A) (m : A) → last_row (order_by key xs) ≡ some m → all (up_to (key m)) xs ≡ true
  last_row-order_by [] m h = refl
  last_row-order_by (x ∷ xs) m h = elim (Option-cases (last_row (order_by key xs))) [
    | inl nothing ↦
        (let empty = last_row-order_by-none xs nothing in
          let last = rw empty at h in
          let same : x ≡ m = some-injective x m last in rw (empty, same) (ground arith))
    | inr (old, last) ↦
        (let (top, same, below) =
            insert_by-largest x old (order_by key xs) last
              (all-order_by (up_to (key old)) xs ∙ last_row-order_by xs old last) in
          let is_top : top ≡ m = some-injective top m (sym same ∙ h) in
          let bound = rw is_top at below in ground (arith, all-order_by (up_to (key m)) xs))
  ]
