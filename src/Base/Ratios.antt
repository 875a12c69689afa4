-- ===== src/Base/Ratios.antt =====
-- A non-negative number as an exact quotient, in place of the source's floats.
use Prim.Native.Nat.{ℕ, ◌*◌}
use mathlib.Core.Bool.{Bool}
use echidra_oss.Base.Tests.{ltb, leb, ◌==◌}

pub record Ratio : Type 0 where
  pub numerator : ℕ
  pub denominator : ℕ

abbrev pub whole : ℕ → Ratio
whole n = record { numerator = n; denominator = 1 }

abbrev pub ratio_ltb : Ratio → Ratio → Bool
ratio_ltb a b = ltb (a.numerator * b.denominator) (b.numerator * a.denominator)

abbrev pub ratio_leb : Ratio → Ratio → Bool
ratio_leb a b = leb (a.numerator * b.denominator) (b.numerator * a.denominator)

abbrev pub ratio_eq : Ratio → Ratio → Bool
ratio_eq a b = a.numerator * b.denominator == b.numerator * a.denominator
