-- ===== src/Money.antt =====
-- core/money.py: exact comparison of amounts. A finite amount is an integer number of the smallest
-- unit, on one scale for amounts and caps, so that sums and comparisons are exact as in `Decimal`.
pub mod Order
use verigate.Base.{
  ℕ, ◌+◌, ◌*◌, Bool, true, false, List, [], ◌∷◌, Option, none, some, if◌then◌else◌, leb, ltb, not,
}
use verigate.Base.Int.{ℤ, pos, negsuc, ◌+ℤ◌, ◌*ℤ◌, ltb_ℤ}

-- `not_finite` is an infinity; `not_number` is a bool or another object that `Decimal(str(…))` refuses.
pub data Amount : Type 0 where
  finite : ℤ → Amount
  not_finite : Amount
  nan : Amount
  not_number : Amount

unfoldable pub is_valid_amount : Amount → Bool
is_valid_amount (finite (pos _)) = true
is_valid_amount (finite (negsuc _)) = false
is_valid_amount not_finite = false
is_valid_amount nan = false
is_valid_amount not_number = false

-- `to_decimal(amount) > cap`, for an amount that passed `is_valid_amount`
abbrev pub above : Amount → ℤ → Bool
above (finite a) cap = ltb_ℤ cap a
above not_finite cap = true
above nan cap = true
above not_number cap = true

unfoldable pub exceeds : Amount → ℤ → Bool
unfolding is_valid_amount
exceeds amount cap = if not (is_valid_amount amount) then true else above amount cap

-- `total` of two values. Of a sum that is not finite, only that is read.
unfoldable pub total : Amount → Amount → Amount
total (finite a) (finite b) = finite (a +ℤ b)
total not_number _ = not_number
total (finite a) not_number = not_number
total (finite a) not_finite = not_finite
total (finite a) nan = nan
total nan _ = nan
total not_finite _ = not_finite

-- `sum` of the rows' amounts
unfoldable pub total_of : List Amount → Amount
unfolding total
total_of [] = finite (pos 0)
total_of (a ∷ rest) = total a (total_of rest)
