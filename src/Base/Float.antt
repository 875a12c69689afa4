-- ===== src/Base/Float.antt =====
-- Non-negative floats of Python, the finite doubles, each as its multiple of the least one,
-- 2 ^ -1074: sums, quotients and the literals of hundredths, rounded as IEEE 754 says, and `round`.
-- Overflow is not modelled.
use Prim.Native.Nat.{ℕ, zero, suc, ◌+◌, ◌*◌, ◌/◌, ◌^◌, ◌≤◌, ◌<◌}
use mathlib.Core.Path.{◌≡◌}
use mathlib.Core.Bool.{false}
use mathlib.Core.Logic.{inl, inr}
use native.Mathlib.Omega.{arith}
use native.Mathlib.Nat.{pow-succ'}
use echidra_oss.Base.Tests.{ltb, leb, if◌then◌else◌, Bool-cases}
use echidra_oss.Base.Round.{round_half_even, le-round_half_even, round_half_even-le}

abbrev pub Float : Type 0
Float = ℕ

-- 1.0
abbrev pub one : Float
one = 2 ^ 1074

-- By how many bits a number is longer than the 53 of a double. All doubles are below 2 ^ 2098 in
-- this unit, so fuel of 2,200 is enough for them (excess_enough).
unfoldable pub excess : ℕ → ℕ → ℕ
excess zero n = 0
excess (suc fuel) n = let more = suc (excess fuel (n / 2)) in if ltb n (2 ^ 53) then 0 else more

-- The double that is nearest to a quotient, a half to the even one.
unfoldable pub nearest : ℕ → ℕ → Float
nearest n d = let unit = 2 ^ excess 2200 (n / d) in round_half_even n (d * unit) * unit

-- The literal of a number of hundredths
unfoldable pub of_hundredths : ℕ → Float
of_hundredths n = nearest (n * 2 ^ 1074) 100

-- `a + b`
unfoldable pub add_float : Float → Float → Float
add_float a b = nearest (a + b) 1

-- `round(min(a, 1.0), 2)`, in hundredths
unfoldable pub hundredths_of : Float → ℕ
hundredths_of a = if leb one a then 100 else round_half_even (100 * a) one

pub power_of_excess : (fuel n : ℕ) → 0 < n → 2 ^ excess fuel n ≤ n
unfolding excess
power_of_excess zero n h = omega (arith, h)
power_of_excess (suc fuel) n h = elim (Bool-cases (ltb n (2 ^ 53))) [
  | inl e ↦ rw e (omega (arith, h))
  | inr e ↦ rw e (
      let half : 0 < n / 2 = ground arith in
      let rest = power_of_excess fuel (n / 2) half in
      let doubled = pow-succ' 2 (excess fuel (n / 2)) in omega (arith, rest, doubled))
]

-- With enough fuel the number without its excess has at most 53 bits.
excess_enough : (fuel n : ℕ) → n < 2 ^ 53 * 2 ^ fuel → n < 2 ^ 53 * 2 ^ excess fuel n
unfolding excess
excess_enough zero n h = h
excess_enough (suc fuel) n h = elim (Bool-cases (ltb n (2 ^ 53))) [
  | inl e ↦ rw e (ground arith)
  | inr e ↦ rw e (
      let shorter : n / 2 < 2 ^ 53 * 2 ^ fuel = omega (arith, h, pow-succ' 2 fuel) in
      let rest = excess_enough fuel (n / 2) shorter in
      omega (arith, rest, pow-succ' 2 (excess fuel (n / 2))))
]

power_positive : (n : ℕ) → 0 < 2 ^ n
power_positive zero = omega arith
power_positive (suc n) = grind (arith, power_positive n)

product_positive : (a b : ℕ) → 0 < a → 0 < b → 0 < a * b
product_positive a b h k = grind arith

fits_quotient : (n d u : ℕ) → 0 < d → u ≤ n / d → 1 * (d * u) ≤ n
fits_quotient n d u pos h = grind arith

-- A quotient of at least 1 is not rounded to nothing.
pub nearest-positive : (n d : ℕ) → 0 < d → 0 < n / d → 0 < nearest n d
unfolding nearest
nearest-positive n d pos h =
    let unit = 2 ^ excess 2200 (n / d) in
    let unit_positive = power_positive (excess 2200 (n / d)) in
    let room = product_positive d unit pos unit_positive in
    product_positive (round_half_even n (d * unit)) unit
      (le-round_half_even 1 n (d * unit) room
        (fits_quotient n d unit pos (power_of_excess 2200 (n / d) h)))
      unit_positive

pub add_float-positive : (a b : Float) → 0 < a + b → 0 < add_float a b
unfolding add_float
add_float-positive a b h = nearest-positive (a + b) 1 (omega arith) (omega (arith, h))

pub of_hundredths-positive : (n : ℕ) → 0 < n → 0 < of_hundredths n
unfolding of_hundredths
of_hundredths-positive n h = nearest-positive (n * 2 ^ 1074) 100 (omega arith) (omega (arith, h))

one_positive : 0 < one
one_positive = power_positive 1074

below_one : (a : ℕ) → leb one a ≡ false → 100 * a ≤ 100 * one
below_one a h = ground arith

pub hundredths_of-le : (a : Float) → hundredths_of a ≤ 100
unfolding hundredths_of
hundredths_of-le a = elim (Bool-cases (leb one a)) [
  | inl e ↦ rw e (omega arith)
  | inr e ↦ rw e (round_half_even-le 100 (100 * a) one one_positive (below_one a e))
]
