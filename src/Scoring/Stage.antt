-- ===== src/Scoring/Stage.antt =====
-- classifier/scoring/session.py: `_behavior_stage_and_intent`.
pub mod Pairs
use echidra_oss.Base.{
  String, List, [], ◌∷◌, ◌++◌, Bool, Option, ltb, if◌then◌else◌, keep, nonempty, any, map, ℕ,
}
use echidra_oss.Rules.{RuleMatch}
use echidra_oss.Features.{SessionFeatures}
use echidra_oss.Scoring.Tags.{elem}
use echidra_oss.Scoring.Vote.{is_decisive}

-- `BehaviorStage`
pub data BehaviorStage : Type 0 where
  none discovery credential_access collection execution persistence : BehaviorStage

-- `Intent`
pub data Intent : Type 0 where
  unknown reconnaissance credential_theft data_access interactive_operation : Intent
  vulnerability_exploitation payload_delivery persistence : Intent

-- `{tag for match in matches for tag in match.mitre_tags}`
abbrev pub tags_of : List RuleMatch → List String
tags_of [] = []
tags_of (m ∷ ms) = m.mitre_tags ++ tags_of ms

-- `tag_set & {...}` is not empty.
abbrev pub meets : List String → List String → Bool
meets tag_set tags = any (λ t. elem t tag_set) tags

-- The tags that decide: those of the rules rated high, when any matched.
unfoldable pub deciding_tags : List RuleMatch → List String → List String
deciding_tags matches mitre_tags =
    let decisive = keep is_decisive matches in
    if nonempty decisive then tags_of decisive else mitre_tags

-- A count of the features; without features nothing was counted.
abbrev pub seen : (SessionFeatures → ℕ) → Option SessionFeatures → ℕ
seen count Option.none = 0
seen count (Option.some features) = count features

-- The last tests, which no tag has decided.
unfoldable pub untagged_stage : List RuleMatch → Option SessionFeatures → BehaviorStage × Intent
untagged_stage matches features =
    if ltb 0 (seen SessionFeatures.sensitive_file_read_count features)
    then (BehaviorStage.collection, Intent.data_access)
    else if ltb 0 (seen SessionFeatures.discovery_command_count features)
    then (BehaviorStage.discovery, Intent.reconnaissance)
    else if elem "interactive_low_and_slow" (map RuleMatch.rule_id matches)
    then (BehaviorStage.execution, Intent.interactive_operation)
    else (BehaviorStage.none, Intent.unknown)

-- The chain of tests on the tags.
unfoldable pub tagged_stage : List String → BehaviorStage × Intent → BehaviorStage × Intent
tagged_stage tag_set otherwise =
    if elem "T1105" tag_set
    then (BehaviorStage.execution, Intent.payload_delivery)
    else if elem "T1098.004" tag_set
    then (BehaviorStage.persistence, Intent.persistence)
    else if meets tag_set ("T1552.001" ∷ "T1110" ∷ "T1110.001" ∷ "T1078.001" ∷ [])
    then (BehaviorStage.credential_access, Intent.credential_theft)
    else if elem "T1005" tag_set
    then (BehaviorStage.collection, Intent.data_access)
    else if elem "T1190" tag_set
    then (BehaviorStage.execution, Intent.vulnerability_exploitation)
    else if meets tag_set
        ("T1087" ∷ "T1082" ∷ "T1595" ∷ "T1595.002" ∷ "T1592" ∷ "T1090" ∷ "T1046" ∷ [])
    then (BehaviorStage.discovery, Intent.reconnaissance)
    else if elem "T1059" tag_set
    then (BehaviorStage.execution, Intent.interactive_operation)
    else otherwise

-- `_behavior_stage_and_intent`
unfoldable pub behavior_stage_and_intent :
    List RuleMatch → List String → Option SessionFeatures → BehaviorStage × Intent
behavior_stage_and_intent matches mitre_tags features =
    tagged_stage (deciding_tags matches mitre_tags) (untagged_stage matches features)
