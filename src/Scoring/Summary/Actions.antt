-- ===== src/Scoring/Summary/Actions.antt =====
-- What a summary asks for: bounds that its fields declare, and actions that fit the risk score.
use mathlib.Core.Logic.Iff
use echidra_oss.Scoring.Stage.{BehaviorStage, Intent}
use echidra_oss.Base.{
  ℕ, ◌≤◌, ◌<◌, List, String, [], ◌∷◌, ◌≡◌, ◌↔◌, arith, All, All-map, length, true, Option, none,
  some, is_some,
}
use echidra_oss.Features.{SessionFeatures}
use echidra_oss.Rules.{RuleMatch, IsValid, RuleEvaluation}
use echidra_oss.Scoring.Risk.{RiskLevel, risk_level, combined_risk_score}
use echidra_oss.Scoring.Risk.Bounds.{combined_risk_score_bounds}
use echidra_oss.Scoring.Vote.Decisive.{actor_vote-confidence-le}
use echidra_oss.Scoring.Advice.{
  EvidenceItem, PersonaContext, AnalystRecommendation, DeceptionAction, deception_action,
  alert_action, analyst_recommendation, Recommended, is_severe,
}
use echidra_oss.Scoring.Summary.{
  ClassificationSummary, summarize_rule_evaluation, summarize_matches, matched_summary,
  empty_summary, summarize_matches,
}

-- The bounds of the fields of `ClassificationSummary` and of the actions inside it.
pub record IsInRange (s : ClassificationSummary) : Type 0 where
  pub confidence-le : s.confidence ≤ 100
  pub risk_score-le : s.risk_score ≤ 100
  pub delay-le : (a : DeceptionAction) → s.deception_action ≡ some a → a.delay_milliseconds ≤ 10000

deception_action-delay :
    (level : RiskLevel) (a : DeceptionAction)
    → deception_action level ≡ some a
    → a.delay_milliseconds ≤ 2000
unfolding deception_action
deception_action-delay RiskLevel.none a e = ground arith
deception_action-delay level a e = ground arith

matched-IsInRange :
    (version : String) (m : RuleMatch) (ms : List RuleMatch) (features : Option SessionFeatures)
    → All IsValid (m ∷ ms)
    → IsInRange (matched_summary version (m ∷ ms) features)
unfolding matched_summary
matched-IsInRange version m ms features valid =
    let rated : All (λ r. r.risk_score ≤ 100) (m ∷ ms) =
      All-map (m ∷ ms) (λ r v. v.risk_score-le) valid in
    let nonneg : All (λ r. 0 ≤ r.risk_score) (m ∷ ms) =
      All-map (m ∷ ms) (λ r v. omega arith) valid in
    record {
      confidence-le = actor_vote-confidence-le (m ∷ ms);
      risk_score-le = (combined_risk_score_bounds 0 100 m ms nonneg rated).1;
      delay-le = λ a e. omega (arith, deception_action-delay _ a e);
    }

-- Matches within their declared bounds give a summary within its own: the confidence is at most 1,
-- the risk score at most 100, and a delay of an adaptive action at most 10 seconds.
pub summarize_rule_evaluation-IsInRange :
    (evaluation : RuleEvaluation) (features : Option SessionFeatures)
    → All IsValid evaluation.matched_rules
    → IsInRange (summarize_rule_evaluation evaluation features)
unfolding summarize_rule_evaluation empty_summary
summarize_rule_evaluation-IsInRange evaluation features valid = go evaluation.matched_rules valid
  where
    go :
        (ms : List RuleMatch)
        → All IsValid ms
        → IsInRange (summarize_matches evaluation.rules_version ms features)
    go [] v = record {
      confidence-le = omega arith;
      risk_score-le = omega arith;
      delay-le = λ a e. cc;
    }
    go (m ∷ ms) v = matched-IsInRange evaluation.rules_version m ms features v

-- The action that is recommended, if any.
abbrev pub recommended_action : Option AnalystRecommendation → Option Recommended
recommended_action none = none
recommended_action (some r) = some r.action

-- What a summary asks for, read off its risk score and the matched rules.
pub record FitsRisk (matched : List RuleMatch) (s : ClassificationSummary) : Type 0 where
  pub notified : (is_some s.alert_action ≡ true) ↔ (40 ≤ s.risk_score)
  pub slowed : (is_some s.deception_action ≡ true) ↔ (40 ≤ s.risk_score)
  pub recommended : (is_some s.analyst_recommendation ≡ true) ↔ (0 < length matched)
  pub labelled : (is_some s.actor_label ≡ true) ↔ (0 < length matched)
  pub escalated :
      (recommended_action s.analyst_recommendation ≡ some Recommended.escalate_incident_review)
      ↔ (65 ≤ s.risk_score)

alert_action-notable :
    (score : ℕ) (evidence : List EvidenceItem)
    → (is_some (alert_action (risk_level score) evidence) ≡ true) ↔ (40 ≤ score)
unfolding alert_action risk_level
alert_action-notable score evidence = ground arith

deception_action-notable :
    (score : ℕ) → (is_some (deception_action (risk_level score)) ≡ true) ↔ (40 ≤ score)
unfolding deception_action risk_level
deception_action-notable score = ground arith

is_severe_iff : (score : ℕ) → (is_severe (risk_level score) ≡ true) ↔ (65 ≤ score)
unfolding risk_level
is_severe_iff score = ground arith

escalates_iff :
    (level : RiskLevel) (stage : BehaviorStage) (intent : Intent) (persona : PersonaContext)
    (evidence : List EvidenceItem)
    → (recommended_action (some (analyst_recommendation level stage intent persona evidence))
        ≡ some Recommended.escalate_incident_review)
      ↔ (is_severe level ≡ true)
unfolding analyst_recommendation
escalates_iff level stage intent persona evidence = ground arith

matched-FitsRisk :
    (version : String) (m : RuleMatch) (ms : List RuleMatch) (features : Option SessionFeatures)
    → FitsRisk (m ∷ ms) (matched_summary version (m ∷ ms) features)
unfolding matched_summary
matched-FitsRisk version m ms features =
    let score = combined_risk_score (m ∷ ms) in
    let severe = is_severe_iff score in
    record {
      notified = alert_action-notable score _;
      slowed = deception_action-notable score;
      recommended = ground arith;
      labelled = ground arith;
      escalated = Iff.trans (escalates_iff (risk_level score) _ _ _ _) (is_severe_iff score);
    }

-- Of every summary: the analyst is notified exactly if the risk score is at least 40, and answers
-- are slowed down exactly then; a recommendation and an actor label are given exactly if a rule
-- matched; and the recommendation is to escalate exactly if the score is at least 65.
pub summarize_rule_evaluation-FitsRisk :
    (evaluation : RuleEvaluation) (features : Option SessionFeatures)
    → FitsRisk evaluation.matched_rules (summarize_rule_evaluation evaluation features)
unfolding summarize_rule_evaluation empty_summary
summarize_rule_evaluation-FitsRisk evaluation features = go evaluation.matched_rules
  where
    go :
        (ms : List RuleMatch) → FitsRisk ms (summarize_matches evaluation.rules_version ms features)
    go [] = ground arith
    go (m ∷ ms) = matched-FitsRisk evaluation.rules_version m ms features
