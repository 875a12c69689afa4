-- ===== src/Features/Timing/Nearest.antt =====
-- The score of the timing is the nearest hundredth of its place between the two paces.
use echidra_oss.Features.Timing.{microseconds, average_of, score_hundredths, human_timing_score}
use echidra_oss.Base.Ratios.{Ratio}
use echidra_oss.Base.{
  ℕ, ◌+◌, ◌*◌, ◌/◌, ◌%◌, ◌≤◌, ◌<◌, ◌≡◌, arith, Bool-cases, List, min, leb, ltb, length, Option,
  false, inl, inr, none, some, sum_of, leb→le, refl, if_either, [], ◌∷◌, ◌==◌, ◌-◌,
}
use echidra_oss.Base.Round.{round_half_even, round_half_even-le}

-- A whole number `q` that is nearest to `n / d`.
abbrev pub IsNearest : ℕ → ℕ → ℕ → Type 0
IsNearest q n d = (2 * (q * d) ≤ 2 * n + d) × (2 * n ≤ 2 * (q * d) + d)

div_mod : (n d : ℕ) → 0 < d → n ≡ n / d * d + n % d
div_mod n d pos = grind arith

mod_lt : (n d : ℕ) → 0 < d → n % d < d
mod_lt n d pos = grind arith

below-IsNearest : (q r d n : ℕ) → n ≡ q * d + r → 2 * r ≤ d → IsNearest q n d
below-IsNearest q r d n e h = (grind arith, grind arith)

suc_mul : (q d : ℕ) → (q + 1) * d ≡ q * d + d
suc_mul q d = grind arith

above-IsNearest : (q r d n : ℕ) → n ≡ q * d + r → r < d → d ≤ 2 * r → IsNearest (q + 1) n d
above-IsNearest q r d n e lt h = let s = suc_mul q d in (grind arith, grind arith)

round_half_even-IsNearest : (n d : ℕ) → 0 < d → IsNearest (round_half_even n d) n d
unfolding round_half_even
round_half_even-IsNearest n d pos =
    let e = div_mod n d pos in
    let lt = mod_lt n d pos in
    elim (Bool-cases (ltb (2 * (n % d)) d)) [
      | inl low ↦ rw low (below-IsNearest (n / d) (n % d) d n e (ground arith))
      | inr not_low ↦ rw not_low (elim (Bool-cases (ltb d (2 * (n % d)))) [
        | inl high ↦ rw high (above-IsNearest (n / d) (n % d) d n e lt (ground arith))
        | inr not_high ↦ rw not_high (
            if_either (λ q. IsNearest q n d) (n / d % 2 == 0) _ _
              (below-IsNearest (n / d) (n % d) d n e (ground arith))
              (above-IsNearest (n / d) (n % d) d n e lt (ground arith)))
      ])
    ]

-- A score of times between commands: nothing without a time, and else the nearest hundredth of
-- where the average lies between half a second and five seconds, at most one.
abbrev pub above_bot_speed : List ℕ → ℕ
above_bot_speed times =
    min (9 * (length times * microseconds))
      (2 * sum_of (λ t. t) times - length times * microseconds)

abbrev pub IsScoreOf : List ℕ → Option Ratio → Type 0
IsScoreOf [] score = score ≡ none
IsScoreOf (t ∷ times) score =
    (q : ℕ) × (score ≡ some (record { numerator = q; denominator = 100 }))
    × (q ≤ 100)
    × IsNearest q (100 * above_bot_speed (t ∷ times)) (9 * (length (t ∷ times) * microseconds))

hundred-IsNearest : (above span : ℕ) → span ≤ above → IsNearest 100 (100 * min span above) span
hundred-IsNearest above span h = (grind arith, grind arith)

min_right : (a b : ℕ) → leb a b ≡ false → min a b ≡ b
min_right a b h = ground arith

score_hundredths-IsNearest :
    (a : Ratio)
    → 0 < a.denominator
    → (score_hundredths a ≤ 100)
      × IsNearest
          (score_hundredths a)
          (100 * min (9 * a.denominator) (2 * a.numerator - a.denominator))
          (9 * a.denominator)
unfolding score_hundredths
score_hundredths-IsNearest a pos =
    let above = 2 * a.numerator - a.denominator in
    let span = 9 * a.denominator in
    elim (Bool-cases (leb span above)) [
      | inl h ↦ rw h (omega arith, hundred-IsNearest above span (leb→le span above h))
      | inr h ↦
          rw (h, min_right span above h)
            (
              round_half_even-le 100 (100 * above) span (omega (arith, pos)) (ground arith),
              round_half_even-IsNearest (100 * above) span (omega (arith, pos)),
            )
    ]

-- The score is nothing if there are fewer than two commands. Else it is the hundredth nearest to
-- the place of the average time between commands from half a second, at zero or below, to five
-- seconds, at one or above.
pub human_timing_score-IsScoreOf :
    (times : List ℕ) → IsScoreOf times (human_timing_score (average_of times))
unfolding human_timing_score
human_timing_score-IsScoreOf [] = refl
human_timing_score-IsScoreOf (t ∷ times) =
    let scored =
      score_hundredths-IsNearest
        (record {
          numerator = sum_of (λ x. x) (t ∷ times);
          denominator = length (t ∷ times) * microseconds;
        })
        (omega arith) in
    (_, refl, scored.0, scored.1)
