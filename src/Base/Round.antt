-- ===== src/Base/Round.antt =====
-- Python's `round` on an exact quotient: to the nearest whole number, a half to the even one.
use Prim.Native.Nat.{ℕ, ◌+◌, ◌*◌, ◌/◌, ◌%◌, ◌≤◌, ◌<◌}
use mathlib.Core.Path.{◌≡◌}
use native.Mathlib.Omega.{arith}
use echidra_oss.Base.Tests.{ltb, ◌==◌, if◌then◌else◌}

-- `round(n / d)` for a positive `d`.
unfoldable pub round_half_even : ℕ → ℕ → ℕ
round_half_even n d =
    let q = n / d in
    let r = n % d in
    if ltb (2 * r) d then q else if ltb d (2 * r) then q + 1 else if q % 2 == 0 then q else q + 1

le_div : (lo n d : ℕ) → 0 < d → lo * d ≤ n → lo ≤ n / d
le_div lo n d pos h = grind arith

div_le : (hi n d : ℕ) → 0 < d → n ≤ hi * d → n / d ≤ hi
div_le hi n d pos h = grind arith

-- A quotient that reaches its bound leaves no remainder.
no_rest : (hi n d : ℕ) → 0 < d → n ≤ hi * d → n / d ≡ hi → n % d ≡ 0
no_rest hi n d pos h e = grind arith

-- A quotient of at least `lo` is not rounded below it.
pub le-round_half_even : (lo n d : ℕ) → 0 < d → lo * d ≤ n → lo ≤ round_half_even n d
unfolding round_half_even
le-round_half_even lo n d pos h = ground (arith, le_div lo n d pos h)

pub round_half_even-le : (hi n d : ℕ) → 0 < d → n ≤ hi * d → round_half_even n d ≤ hi
unfolding round_half_even
round_half_even-le hi n d pos h = ground (arith, div_le hi n d pos h, no_rest hi n d pos h)
