-- ===== src/Money/Order.antt =====
-- The comparisons of core/money.py as orders between integers.
use verigate.Base.{ℕ, ◌≡◌, ◌↔◌, true, false, arith, refl, ap, List, ◌++◌, ◌+◌, ◌∷◌, [], sym}
use verigate.Base.Int.{ℤ, pos, negsuc, ◌≤ℤ◌, ◌+ℤ◌, int_laws}
use verigate.Money.{
  Amount, finite, not_finite, nan, not_number, is_valid_amount, exceeds, total, total_of,
}

-- a finite amount that is not negative and at most the cap
pub record WithinCap (cap : ℤ) (amount : Amount) : Type 0 where
  pub units : ℕ
  pub is_units : amount ≡ finite (pos units)
  pub below : pos units ≤ℤ cap

abbrev pub IsUnits : Amount → Type 0
IsUnits amount = (n : ℕ) × (amount ≡ finite (pos n))

pub valid_units : (a : Amount) → is_valid_amount a ≡ true → (n : ℕ) × (a ≡ finite (pos n))
unfolding is_valid_amount
valid_units (finite (pos n)) h = (n, refl)
valid_units (finite (negsuc n)) h = cc
valid_units not_finite h = cc
valid_units nan h = cc
valid_units not_number h = cc

pub units_valid : (a : Amount) (n : ℕ) → a ≡ finite (pos n) → is_valid_amount a ≡ true
unfolding is_valid_amount
units_valid a n h = ground arith

pub exceeds_sound : (a : Amount) (cap : ℤ) → exceeds a cap ≡ false → WithinCap cap a
unfolding exceeds
exceeds_sound (finite (pos n)) cap h = record { units = n; is_units = refl; below = ground arith }
exceeds_sound (finite (negsuc n)) cap h = cc
exceeds_sound not_finite cap h = cc
exceeds_sound nan cap h = cc
exceeds_sound not_number cap h = cc

pub exceeds_complete : (a : Amount) (cap : ℤ) → WithinCap cap a → exceeds a cap ≡ false
unfolding exceeds
exceeds_complete (finite (pos n)) cap w = ground (arith, w.is_units, w.below)
exceeds_complete (finite (negsuc n)) cap w = cc (w.is_units)
exceeds_complete not_finite cap w = cc (w.is_units)
exceeds_complete nan cap w = cc (w.is_units)
exceeds_complete not_number cap w = cc (w.is_units)

-- A valid amount is compared with a cap as integers are, and an invalid one always exceeds it.
pub exceeds_iff : (a : Amount) (cap : ℤ) → (exceeds a cap ≡ false) ↔ WithinCap cap a
exceeds_iff a cap = (exceeds_sound a cap, exceeds_complete a cap)

total_assoc : (a b c : Amount) → total (total a b) c ≡ total a (total b c)
unfolding total
total_assoc (finite a) (finite b) (finite c) = ap finite (omega int_laws)
total_assoc (finite a) (finite b) not_finite = refl
total_assoc (finite a) (finite b) nan = refl
total_assoc (finite a) (finite b) not_number = refl
total_assoc (finite a) not_finite c = refl
total_assoc (finite a) nan c = refl
total_assoc (finite a) not_number c = refl
total_assoc not_finite b c = refl
total_assoc nan b c = refl
total_assoc not_number b c = refl

total-zero_comm : (a : Amount) → total a (finite (pos 0)) ≡ total (finite (pos 0)) a
unfolding total
total-zero_comm (finite a) = ap finite (omega int_laws)
total-zero_comm not_finite = refl
total-zero_comm nan = refl
total-zero_comm not_number = refl

-- One more row adds its amount to the sum of the rows before it.
pub total_of-append :
    (xs : List Amount) (a : Amount) → total_of (xs ++ a ∷ []) ≡ total (total_of xs) a
unfolding total_of
total_of-append [] a = total-zero_comm a
total_of-append (x ∷ xs) a = rw (total_of-append xs a) (sym (total_assoc x (total_of xs) a))

pub total-pos : (m n : ℕ) → total (finite (pos m)) (finite (pos n)) ≡ finite (pos (m + n))
unfolding total ◌+ℤ◌
total-pos m n = ground arith
