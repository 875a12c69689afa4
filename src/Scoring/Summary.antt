-- ===== src/Scoring/Summary.antt =====
-- classifier/scoring/session.py: `summarize_rule_evaluation` and the summary that it builds.
pub mod Actions
use echidra_oss.Base.{ℕ, String, List, [], ◌∷◌, ◌++◌, Bool, Option, none, some, map}
use echidra_oss.Base.Ratios.{Ratio}
use echidra_oss.Rules.{ActorLabel, RuleMatch, RuleEvaluation}
use echidra_oss.Features.{SessionFeatures}
use echidra_oss.Scoring.Risk.{RiskLevel, combined_risk_score, risk_level}
use echidra_oss.Scoring.Vote.{Votes, actor_vote, actor_vote_tally}
use echidra_oss.Scoring.Status.{ClassificationStatus, classification_status}
use echidra_oss.Scoring.Tags.{tags_by_seriousness}
use echidra_oss.Scoring.Stage.{BehaviorStage, Intent, behavior_stage_and_intent}
use echidra_oss.Scoring.Advice.{
  EvidenceItem, PersonaContext, DeceptionAction, AlertAction, AnalystRecommendation,
  deception_action, alert_action, analyst_recommendation,
}

-- `FeatureSummary`
pub record FeatureSummary : Type 0 where
  pub session_id : String
  pub protocol : String
  pub duration_seconds : Ratio
  pub command_count : ℕ
  pub commands_per_minute : Ratio
  pub discovery_command_count : ℕ
  pub file_read_count : ℕ
  pub sensitive_file_read_count : ℕ
  pub decoy_files_surfaced_count : ℕ
  pub exit_command_present : Bool
  pub human_timing_score : Option Ratio

-- `ClassificationSummary`
pub record ClassificationSummary : Type 0 where
  pub classifier_version : String
  pub rules_version : String
  pub classification_status : ClassificationStatus
  pub insufficient_data_reason : Option String
  pub actor_label : Option ActorLabel
  pub actor_votes : Votes
  pub confidence : ℕ
  pub risk_score : ℕ
  pub risk_level : RiskLevel
  pub behavior_stage : BehaviorStage
  pub intent : Intent
  pub persona_context : PersonaContext
  pub feature_summary : Option FeatureSummary
  pub deception_action : Option DeceptionAction
  pub alert_action : Option AlertAction
  pub analyst_recommendation : Option AnalystRecommendation
  pub mitre_tags : List String
  pub evidence : List EvidenceItem
  pub matched_rule_ids : List String

-- `CLASSIFIER_VERSION`
abbrev pub classifier_version : String
classifier_version = "1.0.0"

-- `_persona_context`
unfoldable pub persona_context : Option SessionFeatures → PersonaContext
persona_context none = record { persona_id = none; decoy_files_surfaced = [] }
persona_context (some features) = record {
  persona_id = some features.persona_id;
  decoy_files_surfaced = features.decoy_files_surfaced;
}

-- `_feature_summary`
unfoldable pub feature_summary : Option SessionFeatures → Option FeatureSummary
feature_summary none = none
feature_summary (some features) = some (record {
  session_id = features.session_id;
  protocol = features.protocol;
  duration_seconds = features.duration_seconds;
  command_count = features.command_count;
  commands_per_minute = features.commands_per_minute;
  discovery_command_count = features.discovery_command_count;
  file_read_count = features.file_read_count;
  sensitive_file_read_count = features.sensitive_file_read_count;
  decoy_files_surfaced_count = features.decoy_files_surfaced_count;
  exit_command_present = features.exit_command_present;
  human_timing_score = features.human_timing_score;
})

-- `[EvidenceItem(rule_id=match.rule_id, text=text) for match in ... for text in match.evidence]`
unfoldable pub evidence_of : List RuleMatch → List EvidenceItem
evidence_of [] = []
evidence_of (m ∷ ms) =
    map (λ text. record { rule_id = m.rule_id; text = text }) m.evidence ++ evidence_of ms

-- The early return, when no rule matched.
unfoldable pub empty_summary : String → Option SessionFeatures → ClassificationSummary
empty_summary rules_version features =
    let (status, reason) = classification_status features [] in
    record {
      classifier_version = classifier_version;
      rules_version = rules_version;
      classification_status = status;
      insufficient_data_reason = reason;
      actor_label = none;
      actor_votes = actor_vote_tally [];
      confidence = 0;
      risk_score = 0;
      risk_level = RiskLevel.none;
      behavior_stage = BehaviorStage.none;
      intent = Intent.unknown;
      persona_context = persona_context features;
      feature_summary = feature_summary features;
      deception_action = none;
      alert_action = none;
      analyst_recommendation = none;
      mitre_tags = [];
      evidence = [];
      matched_rule_ids = [];
    }

-- The rest of the function, for at least one match.
unfoldable pub matched_summary :
    String → List RuleMatch → Option SessionFeatures → ClassificationSummary
matched_summary rules_version matched_rules features =
    let (status, reason) = classification_status features matched_rules in
    let score = combined_risk_score matched_rules in
    let (label, confidence) = actor_vote matched_rules in
    let level = risk_level score in
    let tags = tags_by_seriousness matched_rules in
    let (stage, intent) = behavior_stage_and_intent matched_rules tags features in
    let evidence = evidence_of matched_rules in
    let context = persona_context features in
    record {
      classifier_version = classifier_version;
      rules_version = rules_version;
      classification_status = status;
      insufficient_data_reason = reason;
      actor_label = some label;
      actor_votes = actor_vote_tally matched_rules;
      confidence = confidence;
      risk_score = score;
      risk_level = level;
      behavior_stage = stage;
      intent = intent;
      persona_context = context;
      feature_summary = feature_summary features;
      deception_action = deception_action level;
      alert_action = alert_action level evidence;
      analyst_recommendation = some (analyst_recommendation level stage intent context evidence);
      mitre_tags = tags;
      evidence = evidence;
      matched_rule_ids = map RuleMatch.rule_id matched_rules;
    }

abbrev pub summarize_matches :
    String → List RuleMatch → Option SessionFeatures → ClassificationSummary
summarize_matches rules_version [] features = empty_summary rules_version features
summarize_matches rules_version (m ∷ ms) features = matched_summary rules_version (m ∷ ms) features

-- `summarize_rule_evaluation`
unfoldable pub summarize_rule_evaluation :
    RuleEvaluation → Option SessionFeatures → ClassificationSummary
summarize_rule_evaluation evaluation features =
    summarize_matches evaluation.rules_version evaluation.matched_rules features
