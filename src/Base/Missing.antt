-- ===== src/Base/Missing.antt =====
-- How many of some ids are not on a path: the measure of a search that enters each id once.
use Prim.Native.Nat.{ℕ, ◌≤◌, ◌<◌}
use Prim.Native.String.{String}
use mathlib.Core.Path.{◌≡◌}
use mathlib.Core.Logic.{inl, inr}
use mathlib.Core.Bool.{true, false, not}
use mathlib.Core.List.{List, [], ◌∷◌}
use native.Mathlib.Omega.{arith}
use verigate.Base.Tests.{Bool-cases}
use verigate.Base.Lists.{count_rows, count_rows-le, length}
use verigate.Base.Equality.{◌==◌, string_eq, contains, ==_sound, ==_refl}

-- the ids that are not on the path
abbrev pub missing : List String → List String → ℕ
missing ids visiting = count_rows (λ i. not (contains visiting i)) ids

missing-le :
    (x : String) (ids visiting : List String) → missing ids (x ∷ visiting) ≤ missing ids visiting
missing-le x ids visiting =
    count_rows-le (λ i. not (contains (x ∷ visiting) i)) (λ i. not (contains visiting i)) ids
      λ i h. ground arith

pub missing-lt :
    (x : String) (ids visiting : List String)
    → contains ids x ≡ true
    → contains visiting x ≡ false
    → missing ids (x ∷ visiting) < missing ids visiting
missing-lt x [] visiting h n = cc
missing-lt x (i ∷ ids) visiting h n = elim (Bool-cases (x == i)) [
  | inl e ↦
      (let same = ==_sound x i e in
        let here = ==_refl i in ground (arith, missing-le x ids visiting))
  | inr ne ↦ ground (arith, missing-lt x ids visiting, missing-le x ids visiting)
]

pub missing-start : (ids : List String) → missing ids [] ≤ length ids
missing-start [] = omega arith
missing-start (i ∷ ids) = omega (arith, missing-start ids)
