-- ===== src/Scoring/Risk.antt =====
-- classifier/scoring/session.py: `_combined_risk_score` and `_risk_level`.
pub mod Bounds
use echidra_oss.Base.{ℕ, ◌*◌, List, [], ◌∷◌, leb, ◌==◌, if◌then◌else◌, sum_of, max}
use echidra_oss.Base.Round.{round_half_even}
use echidra_oss.Rules.{RuleMatch}

-- `RiskLevel`
pub data RiskLevel : Type 0 where
  none low medium high critical : RiskLevel

-- `_HIGH_RISK_SCORE`
abbrev pub high_risk_score : ℕ
high_risk_score = 65

abbrev pub weighted : RuleMatch → ℕ
weighted m = m.risk_score * m.confidence

-- `max(match.risk_score for match in matches)`; the caller has at least one match.
unfoldable pub max_risk : List RuleMatch → ℕ
max_risk [] = 0
max_risk (m ∷ ms) = max m.risk_score (max_risk ms)

-- `_combined_risk_score`
unfoldable pub combined_risk_score : List RuleMatch → ℕ
combined_risk_score matches =
    let total = sum_of RuleMatch.confidence matches in
    if total == 0 then max_risk matches else round_half_even (sum_of weighted matches) total

-- `_risk_level`
unfoldable pub risk_level : ℕ → RiskLevel
risk_level score =
    if leb 85 score
    then critical
    else if leb high_risk_score score
    then high
    else if leb 40 score
    then medium
    else if leb 1 score
    then low
    else none
