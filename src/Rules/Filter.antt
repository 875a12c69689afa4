-- ===== src/Rules/Filter.antt =====
-- classifier/rules/engine.py: what an evaluation returns, as a filter of the ruleset.
use mathlib.Core.List.{append-nil, append_assoc}
use echidra_oss.Base.{
  List, [], ◌∷◌, ◌++◌, Bool, true, false, ◌≡◌, refl, sym, ap, all, keep, map, All, Bool-cases, inl,
  inr,
}
use echidra_oss.Features.{SessionFeatures}
use echidra_oss.Rules.{RuleMatch}
use echidra_oss.Rules.Evaluate.{
  RuleCondition, ClassificationRule, RuleSet, Result, ok, err, condition_matches, all_match,
  match_of, evaluate_from, evaluate_rules,
}

abbrev pub is_ok_true : Result Bool → Bool
is_ok_true (ok b) = b
is_ok_true (err e) = false

-- Whether every condition of a rule holds.
abbrev pub applies : SessionFeatures → ClassificationRule → Bool
applies features r = all (λ c. is_ok_true (condition_matches features c)) r.conditions

-- A condition that can be evaluated: its field is known, and its values can be compared.
abbrev pub Settles : SessionFeatures → RuleCondition → Type 0
Settles features c = (b : Bool) × (condition_matches features c ≡ ok b)

abbrev pub AllSettle : SessionFeatures → List ClassificationRule → Type 0
AllSettle features rules = All (λ r. All (Settles features) r.conditions) rules

all_match_if :
    (features : SessionFeatures) (cs : List RuleCondition)
    → All (Settles features) cs
    → all_match features cs ≡ ok (all (λ c. is_ok_true (condition_matches features c)) cs)
unfolding all_match
all_match_if features [] h = refl
all_match_if features (c ∷ cs) ((true, e), h) = rw (e, all_match_if features cs h) refl
all_match_if features (c ∷ cs) ((false, e), h) = rw e refl

evaluate_from_if :
    (features : SessionFeatures) (rules : List ClassificationRule) (ms : List RuleMatch)
    → AllSettle features rules
    → evaluate_from features rules ms ≡ ok (ms ++ map match_of (keep (applies features) rules))
unfolding evaluate_from
evaluate_from_if features [] ms h = ap ok (sym (append-nil ms))
evaluate_from_if features (r ∷ rules) ms (k, h) = elim (Bool-cases (applies features r)) [
  | inl e ↦
      rw
        (
          all_match_if features r.conditions k,
          e,
          evaluate_from_if features rules (ms ++ match_of r ∷ []) h,
        )
        (ap ok (append_assoc ms (match_of r ∷ []) _))
  | inr e ↦ rw (all_match_if features r.conditions k, e, evaluate_from_if features rules ms h) refl
]

-- If every condition can be evaluated, an evaluation succeeds, and its matches are those of the
-- rules all of whose conditions hold, in the order of the ruleset.
pub evaluate_rules_filters :
    (features : SessionFeatures) (rule_set : RuleSet)
    → AllSettle features rule_set.rules
    → evaluate_rules features rule_set
      ≡ ok (record {
        rules_version = rule_set.rules_version;
        matched_rules = map match_of (keep (applies features) rule_set.rules);
      })
unfolding evaluate_rules
evaluate_rules_filters features rule_set h = rw (evaluate_from_if features rule_set.rules [] h) refl
