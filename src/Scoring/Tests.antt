-- ===== src/Scoring/Tests.antt =====
-- Runs of the scoring on two matches, and each of its theorems at a concrete input.
use echidra_oss.Scoring.Vote.Ballot.{ballot}
use echidra_oss.Scoring.Vote.Winner.{Loses, actor_vote_wins}
use echidra_oss.Base.Float.{add_float, of_hundredths, nearest, excess, hundredths_of}
use echidra_oss.Base.{
  ℕ, ◌≤◌, ◌<◌, List, String, [], ◌∷◌, ◌≡◌, ◌↔◌, refl, arith, All, none, ltb, true, length,
}
use echidra_oss.Base.Dict.{lookup, insert}
use echidra_oss.Base.Round.{round_half_even}
use echidra_oss.Features.{SessionFeatures}
use echidra_oss.Rules.{
  commodity_bot, brute_force_bot, label_eq, RuleMatch, IsValid, RuleEvaluation, ActorLabel,
}
use echidra_oss.Scoring.Risk.{combined_risk_score}
use echidra_oss.Scoring.Risk.Bounds.{combined_risk_score_bounds}
use echidra_oss.Scoring.Vote.{
  voters, vote_confidence, count_votes, add_votes, best, actor_vote, weight_of,
}
use echidra_oss.Scoring.Vote.Decisive.{actor_vote_decisive}
use echidra_oss.Scoring.Status.{complete, insufficient_data, classification_status}
use echidra_oss.Scoring.Status.Complete.{classification_status_iff}
use echidra_oss.Scoring.Tags.{elem, tags_by_seriousness}
use echidra_oss.Scoring.Tags.Unique.{IsDistinct}
use echidra_oss.Scoring.Tags.Order.{tags_by_seriousness-elem}
use echidra_oss.Scoring.Tags.Lead.{Leads, tags_by_seriousness-Leads}
use echidra_oss.Scoring.Stage.{seen, tags_of}
use echidra_oss.Scoring.Summary.{summarize_rule_evaluation}
use echidra_oss.Scoring.Summary.Actions.{
  IsInRange, FitsRisk, summarize_rule_evaluation-IsInRange, summarize_rule_evaluation-FitsRisk,
}
use mathlib.Core.List.{Memᴰ}

abbrev login : RuleMatch
login = record {
  rule_id = "authentication_attempt";
  name = "Authentication attempt observed";
  actor_label = brute_force_bot;
  confidence = 70;
  risk_score = 55;
  mitre_tags = "T1110" ∷ [];
  evidence = "A complete credential submission was observed." ∷ [];
}

abbrev loader : RuleMatch
loader = record {
  rule_id = "remote_fetch_and_run";
  name = "Fetched and ran a program";
  actor_label = commodity_bot;
  confidence = 85;
  risk_score = 80;
  mitre_tags = "T1059" ∷ "T1105" ∷ "T1110" ∷ "T1098.004" ∷ [];
  evidence = "A download tool was used." ∷ [];
}

abbrev matched : List RuleMatch
matched = login ∷ loader ∷ []

abbrev evaluation : RuleEvaluation
evaluation = record { rules_version = "1.0.0"; matched_rules = matched }

matched-IsValid : All IsValid matched
matched-IsValid = ground arith

-- (55 * 0.70 + 80 * 0.85) / 1.55 = 68.7...
combined : combined_risk_score matched ≡ 69
unfolding combined_risk_score round_half_even
combined = refl

-- Only the loader votes: 0.85 for a commodity bot, though the login rule matched too.
vote : actor_vote matched ≡ (commodity_bot, 85)
unfolding actor_vote voters count_votes add_votes best vote_confidence lookup insert round_half_even
    add_float of_hundredths nearest excess hundredths_of
vote = refl

tags : tags_by_seriousness matched ≡ "T1098.004" ∷ "T1059" ∷ "T1105" ∷ "T1110" ∷ []
unfolding tags_by_seriousness
tags = refl

combined_risk_score_bounds_example :
    (55 ≤ combined_risk_score matched) × (combined_risk_score matched ≤ 80)
combined_risk_score_bounds_example =
    combined_risk_score_bounds 55 80 login (loader ∷ []) (omega arith) (omega arith)

actor_vote_decisive_example :
    (m : RuleMatch) × Memᴰ m matched
    × (65 ≤ m.risk_score)
    × (m.actor_label ≡ (actor_vote matched).0)
actor_vote_decisive_example =
    actor_vote_decisive matched loader (Memᴰ.tail (Memᴰ.head refl)) (omega arith) (omega arith)

classification_status_iff_example :
    let (status, reason) = classification_status none matched in
    let commands = seen SessionFeatures.command_count none in
    ((status ≡ complete) ↔ ((2 ≤ commands) × (0 < 2)))
    × ((status ≡ insufficient_data) ↔ ((commands < 2) × (◌≡◌ {A = ℕ} 2 0)))
    × ((reason ≡ none) ↔ (status ≡ complete))
classification_status_iff_example = classification_status_iff none matched

tags_by_seriousness-elem_example :
    ((t : String) → elem t (tags_by_seriousness matched) ≡ elem t (tags_of matched))
    × IsDistinct (tags_by_seriousness matched)
tags_by_seriousness-elem_example = tags_by_seriousness-elem matched

tags_by_seriousness-Leads_example : Leads matched "T1098.004"
tags_by_seriousness-Leads_example =
    tags_by_seriousness-Leads matched "T1098.004" ("T1059" ∷ "T1105" ∷ "T1110" ∷ []) tags

summarize_rule_evaluation-IsInRange_example : IsInRange (summarize_rule_evaluation evaluation none)
summarize_rule_evaluation-IsInRange_example =
    summarize_rule_evaluation-IsInRange evaluation none matched-IsValid

summarize_rule_evaluation-FitsRisk_example :
    FitsRisk matched (summarize_rule_evaluation evaluation none)
summarize_rule_evaluation-FitsRisk_example = summarize_rule_evaluation-FitsRisk evaluation none

-- 0.55 + 0.75 is more than 0.6 + 0.7.
sums_differ :
    ltb
      (add_float (of_hundredths 60) (of_hundredths 70))
      (add_float (of_hundredths 55) (of_hundredths 75))
    ≡ true
unfolding add_float of_hundredths nearest excess round_half_even
sums_differ = refl

-- (0.10 + 0.21) / 2 is rounded to 0.15.
halved : hundredths_of (nearest (add_float (of_hundredths 10) (of_hundredths 21)) 2) ≡ 15
unfolding hundredths_of add_float of_hundredths nearest excess round_half_even
halved = refl

actor_vote_wins_example :
    let (label, confidence) = actor_vote matched in
    let weight = ballot add_float weight_of (voters matched) in
    ((l : ActorLabel) → Loses (l, weight l) (label, weight label))
    × (confidence ≡ vote_confidence (weight label) (length (voters matched)))
actor_vote_wins_example = actor_vote_wins matched
