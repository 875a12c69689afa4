-- ===== src/Scoring/Advice.antt =====
-- classifier/scoring/session.py: `_deception_action`, `_alert_action` and
-- `_analyst_recommendation`. Delays are in milliseconds.
use echidra_oss.Base.{
  ℕ, String, List, Bool, true, false, ◌&&◌, Option, none, some, if◌then◌else◌, nonempty, map,
}
use echidra_oss.Scoring.Risk.{RiskLevel}
use echidra_oss.Scoring.Stage.{BehaviorStage, Intent}

-- `EvidenceItem`
pub record EvidenceItem : Type 0 where
  pub rule_id : String
  pub text : String

-- `PersonaContext`
pub record PersonaContext : Type 0 where
  pub persona_id : Option String
  pub decoy_files_surfaced : List String

-- `SafeguardPriority`
pub data SafeguardPriority : Type 0 where
  low medium high critical : SafeguardPriority

-- `DeceptionAction`
pub record DeceptionAction : Type 0 where
  pub delay_milliseconds : ℕ
  pub rationale : String

-- `AlertAction`
pub record AlertAction : Type 0 where
  pub priority : SafeguardPriority
  pub minimum_risk_level : RiskLevel
  pub rationale : String
  pub supporting_evidence : List String

-- `AnalystRecommendationName`
pub data Recommended : Type 0 where
  increase_source_monitoring preserve_session_transcript review_decoy_exposure : Recommended
  rotate_exposed_credentials escalate_incident_review : Recommended

-- `AnalystRecommendation`
pub record AnalystRecommendation : Type 0 where
  pub action : Recommended
  pub priority : SafeguardPriority
  pub rationale : String
  pub supporting_evidence : List String

abbrev pub slow_down : ℕ → Option DeceptionAction
slow_down delay = some (record {
  delay_milliseconds = delay;
  rationale = "Slow suspicious interaction while preserving a believable session.";
})

-- `_deception_action`
unfoldable pub deception_action : RiskLevel → Option DeceptionAction
deception_action RiskLevel.none = none
deception_action RiskLevel.low = none
deception_action RiskLevel.medium = slow_down 500
deception_action RiskLevel.high = slow_down 1000
deception_action RiskLevel.critical = slow_down 2000

abbrev pub texts : List EvidenceItem → List String
texts evidence = map EvidenceItem.text evidence

abbrev pub notify : SafeguardPriority → RiskLevel → List EvidenceItem → Option AlertAction
notify priority level evidence = some (record {
  priority = priority;
  minimum_risk_level = level;
  rationale = "The observed session crossed the live analyst notification threshold.";
  supporting_evidence = texts evidence;
})

-- `_alert_action`
unfoldable pub alert_action : RiskLevel → List EvidenceItem → Option AlertAction
alert_action RiskLevel.none evidence = none
alert_action RiskLevel.low evidence = none
alert_action RiskLevel.medium evidence = notify SafeguardPriority.medium RiskLevel.medium evidence
alert_action RiskLevel.high evidence = notify SafeguardPriority.high RiskLevel.high evidence
alert_action RiskLevel.critical evidence =
    notify SafeguardPriority.critical RiskLevel.critical evidence

-- `risk_level in {"high", "critical"}`
abbrev pub is_severe : RiskLevel → Bool
is_severe RiskLevel.high = true
is_severe RiskLevel.critical = true
is_severe _ = false

-- `risk_level in {"medium", "high", "critical"}`
abbrev pub is_notable : RiskLevel → Bool
is_notable RiskLevel.none = false
is_notable RiskLevel.low = false
is_notable _ = true

abbrev pub is_critical : RiskLevel → Bool
is_critical RiskLevel.critical = true
is_critical _ = false

abbrev pub is_theft : Intent → Bool
is_theft Intent.credential_theft = true
is_theft _ = false

abbrev pub is_exploit : Intent → Bool
is_exploit Intent.vulnerability_exploitation = true
is_exploit _ = false

abbrev pub is_collection : BehaviorStage → Bool
is_collection BehaviorStage.collection = true
is_collection _ = false

abbrev pub is_discovery : BehaviorStage → Bool
is_discovery BehaviorStage.discovery = true
is_discovery _ = false

abbrev pub is_execution : BehaviorStage → Bool
is_execution BehaviorStage.execution = true
is_execution _ = false

abbrev pub recommend :
    Recommended → SafeguardPriority → String → List String → AnalystRecommendation
recommend action priority rationale supporting_evidence = record {
  action = action;
  priority = priority;
  rationale = rationale;
  supporting_evidence = supporting_evidence;
}

-- `_analyst_recommendation`
unfoldable pub analyst_recommendation :
    RiskLevel → BehaviorStage → Intent → PersonaContext → List EvidenceItem → AnalystRecommendation
analyst_recommendation level stage intent persona evidence =
    let supporting_evidence = texts evidence in
    if is_severe level
    then recommend Recommended.escalate_incident_review
        (if is_critical level then SafeguardPriority.critical else SafeguardPriority.high)
        "High-risk classifier output should be reviewed before any external enforcement action."
        supporting_evidence
    else if is_theft intent
    then recommend Recommended.rotate_exposed_credentials SafeguardPriority.high
        "Credential-access behavior indicates possible interest in reusable secrets."
        supporting_evidence
    else if is_exploit intent
    then recommend Recommended.increase_source_monitoring SafeguardPriority.high
        "An exploit or exploit tool was aimed directly at the service, warranting closer monitoring of this source."
        supporting_evidence
    else if is_collection stage && nonempty persona.decoy_files_surfaced
    then recommend Recommended.review_decoy_exposure SafeguardPriority.medium
        "Surfaced decoy files provide analyst context for follow-up investigation."
        persona.decoy_files_surfaced
    else if is_discovery stage
    then recommend Recommended.increase_source_monitoring
        (if is_notable level then SafeguardPriority.medium else SafeguardPriority.low)
        "Discovery activity may precede credential access, collection, or exploitation attempts."
        supporting_evidence
    else if is_execution stage
    then recommend Recommended.preserve_session_transcript SafeguardPriority.medium
        "Interactive execution behavior is useful for analyst review and replay."
        supporting_evidence
    else recommend Recommended.increase_source_monitoring
        (if is_notable level then SafeguardPriority.medium else SafeguardPriority.low)
        "This session matched a classification rule; monitor the source for further activity even though no more specific follow-up action is indicated yet."
        supporting_evidence
