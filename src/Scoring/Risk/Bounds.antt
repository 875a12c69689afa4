-- ===== src/Scoring/Risk/Bounds.antt =====
-- The combined risk score is a weighted mean: it lies between the scores that it combines.
use echidra_oss.Base.{ℕ, ◌*◌, ◌≤◌, ◌<◌, List, [], ◌∷◌, ◌≡◌, arith, sum_of, All, ◌↔◌}
use echidra_oss.Base.Round.{le-round_half_even, round_half_even-le}
use echidra_oss.Rules.{RuleMatch}
use echidra_oss.Scoring.Risk.{RiskLevel, weighted, max_risk, combined_risk_score, risk_level}

module _ (hi : ℕ) where
  weighted-le :
      (ms : List RuleMatch)
      → All (λ m. m.risk_score ≤ hi) ms
      → sum_of weighted ms ≤ hi * sum_of RuleMatch.confidence ms
  weighted-le [] h = omega arith
  weighted-le (m ∷ ms) (p, h) = grind (arith, weighted-le ms h)

  max_risk-le : (ms : List RuleMatch) → All (λ m. m.risk_score ≤ hi) ms → max_risk ms ≤ hi
  unfolding max_risk
  max_risk-le [] h = omega arith
  max_risk-le (m ∷ ms) (p, h) = omega (arith, max_risk-le ms h)

le-max_risk : (m : RuleMatch) (ms : List RuleMatch) → m.risk_score ≤ max_risk (m ∷ ms)
unfolding max_risk
le-max_risk m ms = omega arith

module _ (lo : ℕ) where
  le-weighted :
      (ms : List RuleMatch)
      → All (λ m. lo ≤ m.risk_score) ms
      → lo * sum_of RuleMatch.confidence ms ≤ sum_of weighted ms
  le-weighted [] h = omega arith
  le-weighted (m ∷ ms) (p, h) = grind (arith, le-weighted ms h)

-- For at least one match, every bound on the matched rules' scores, above or below, bounds the
-- combined score too, whether the confidences are all zero or not.
pub combined_risk_score_bounds :
    (lo hi : ℕ) (m : RuleMatch) (ms : List RuleMatch)
    → All (λ r. lo ≤ r.risk_score) (m ∷ ms)
    → All (λ r. r.risk_score ≤ hi) (m ∷ ms)
    → (lo ≤ combined_risk_score (m ∷ ms)) × (combined_risk_score (m ∷ ms) ≤ hi)
unfolding combined_risk_score
combined_risk_score_bounds lo hi m ms below above =
    let all = m ∷ ms in
    let total = sum_of RuleMatch.confidence all in
    let scored = sum_of weighted all in
    ground (
      arith,
      max_risk-le hi all above,
      le-max_risk m ms,
      le-round_half_even lo scored total,
      round_half_even-le hi scored total,
      le-weighted lo all below,
      weighted-le hi all above,
    )

-- The levels partition the scores: each level holds exactly from its own threshold on.
risk_level-thresholds :
    (score : ℕ)
    → ((risk_level score ≡ RiskLevel.critical) ↔ (85 ≤ score))
      × ((risk_level score ≡ RiskLevel.high) ↔ ((65 ≤ score) × (score < 85)))
      × ((risk_level score ≡ RiskLevel.medium) ↔ ((40 ≤ score) × (score < 65)))
      × ((risk_level score ≡ RiskLevel.low) ↔ ((1 ≤ score) × (score < 40)))
      × ((risk_level score ≡ RiskLevel.none) ↔ (score ≡ 0))
unfolding risk_level
risk_level-thresholds score = ground arith
