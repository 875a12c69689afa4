-- ===== src/Rules/Evaluate.antt =====
-- classifier/rules/engine.py: conditions, rulesets, their validation and their evaluation.
use echidra_oss.Base.{
  ℕ, String, List, [], ◌∷◌, ◌++◌, Bool, true, false, not, ◌&&◌, ◌||◌, Option, none, some,
  if◌then◌else◌, str_eq, any, all, nonempty, leb, ltb, ◌==◌,
}
use echidra_oss.Base.Ratios.{Ratio, ratio_ltb, ratio_leb, whole}
use echidra_oss.Base.Text.{Text, codes, is_space}
use echidra_oss.Features.{SessionFeatures}
use echidra_oss.Rules.{ActorLabel, RuleMatch, RuleEvaluation}
use echidra_oss.Rules.Value.{
  Value, null, text, items, Values, nil, cons, as_number, value_eq, contained, text_ltb,
  is_non_string_iterable,
}
use echidra_oss.Rules.Fields.{get_field}

-- `RuleOperator`
pub data RuleOperator : Type 0 where
  contains contains_any equals gt gte is_in lt lte not_equals : RuleOperator

-- `RuleCondition`
pub record RuleCondition : Type 0 where
  pub field : String
  pub operator : RuleOperator
  pub value : Value

-- `ClassificationRule`
pub record ClassificationRule : Type 0 where
  pub id : String
  pub name : String
  pub actor_label : ActorLabel
  pub confidence : ℕ
  pub risk_score : ℕ
  pub mitre_tags : List String
  pub evidence : List String
  pub conditions : List RuleCondition

-- `RuleSet`
pub record RuleSet : Type 0 where
  pub rules_version : String
  pub rules : List ClassificationRule

-- The exceptions of an evaluation: two ValueErrors and Python's TypeError for a mixed order.
pub data RuleError : Type 0 where
  unknown_field not_iterable : String → RuleError
  type_error : RuleError

pub data Result (A : Type 0) : Type 0 where
  ok : A → Result A
  err : RuleError → Result A

infixl 5 ◌>>=◌
abbrev pub ◌>>=◌ : {A B : Type 0} → Result A → (A → Result B) → Result B
ok a >>= f = f a
err e >>= f = err e

abbrev pub shape_of : RuleOperator → Value → Bool
shape_of is_in v = is_non_string_iterable v
shape_of contains_any v = is_non_string_iterable v
shape_of _ v = true

-- `validate_operator_value_shape`: whether the condition is accepted.
unfoldable pub has_valid_shape : RuleCondition → Bool
has_valid_shape c = not (str_eq c.field "") && shape_of c.operator c.value

-- `rule_ids_must_be_unique`
unfoldable pub has_unique_ids : List ClassificationRule → Bool
has_unique_ids [] = true
has_unique_ids (r ∷ rs) = not (any (λ s. str_eq r.id s.id) rs) && has_unique_ids rs

-- `mitre_tags_must_not_be_empty` and `evidence_items_must_not_be_empty`
abbrev pub is_blank : String → Bool
is_blank s = all is_space (codes s)

-- What `RuleSet.model_validate` checks of a rule beyond the types of its fields.
unfoldable pub is_valid_rule : ClassificationRule → Bool
unfolding is_space has_valid_shape
is_valid_rule r =
    not (str_eq r.id "")
    && not (str_eq r.name "")
    && leb r.confidence 100
    && leb r.risk_score 100
    && not (any is_blank r.mitre_tags)
    && not (any is_blank r.evidence)
    && nonempty r.conditions
    && all has_valid_shape r.conditions

unfoldable pub is_valid_rule_set : RuleSet → Bool
unfolding is_valid_rule has_unique_ids
is_valid_rule_set rule_set =
    nonempty rule_set.rules && all is_valid_rule rule_set.rules && has_unique_ids rule_set.rules

-- The order of two numbers, by a test on numbers.
abbrev pub order_numbers : (Ratio → Ratio → Bool) → Option Ratio → Option Ratio → Result Bool
order_numbers test (some a) (some b) = ok (test a b)
order_numbers test _ _ = err type_error

-- `actual < expected` and its like, where `actual` is not None: two texts, two lists by their first
-- difference, or two numbers.
unfoldable mutual
  pub order : (Ratio → Ratio → Bool) → (Text → Text → Bool) → Value → Value → Result Bool
  order test text_test (text s) (text t) = ok (text_test s t)
  order test text_test (items xs) (items ys) = order_items test text_test xs ys
  order test text_test a b = order_numbers test (as_number a) (as_number b)

  pub order_items : (Ratio → Ratio → Bool) → (Text → Text → Bool) → Values → Values → Result Bool
  order_items test text_test nil nil = ok (test (whole 0) (whole 0))
  order_items test text_test nil (cons y ys) = ok (test (whole 0) (whole 1))
  order_items test text_test (cons x xs) nil = ok (test (whole 1) (whole 0))
  order_items test text_test (cons x xs) (cons y ys) =
      let rest = order_items test text_test xs ys in
      let here = order test text_test x y in if value_eq x y then rest else here

-- `actual is not None and actual < expected`
abbrev pub order_if_set :
    (Ratio → Ratio → Bool) → (Text → Text → Bool) → Value → Value → Result Bool
order_if_set test text_test null expected = ok false
order_if_set test text_test actual expected = order test text_test actual expected

-- `any(candidate in actual for candidate in expected)`
unfoldable pub any_contained : Values → Values → Bool
any_contained nil actual = false
any_contained (cons candidate expected) actual =
    contained candidate actual || any_contained expected actual

abbrev pub contained_in : Value → Value → Option Bool
contained_in v (items xs) = some (contained v xs)
contained_in v _ = none

abbrev pub any_contained_in : Value → Value → Option Bool
any_contained_in (items expected) (items actual) = some (any_contained expected actual)
any_contained_in _ _ = none

abbrev pub or_error : RuleError → Option Bool → Result Bool
or_error e none = err e
or_error e (some b) = ok b

-- The branches of `_condition_matches`, on the feature's value.
unfoldable pub apply_operator : String → RuleOperator → Value → Value → Result Bool
apply_operator field contains actual expected =
    or_error (not_iterable field) (contained_in expected actual)
apply_operator field contains_any actual expected =
    or_error (not_iterable field) (any_contained_in expected actual)
apply_operator field equals actual expected = ok (value_eq actual expected)
apply_operator field gt actual expected =
    order_if_set (λ a b. ratio_ltb b a) (λ s t. text_ltb t s) actual expected
apply_operator field gte actual expected =
    order_if_set (λ a b. ratio_leb b a) (λ s t. not (text_ltb s t)) actual expected
apply_operator field is_in actual expected = or_error type_error (contained_in actual expected)
apply_operator field lt actual expected =
    order_if_set ratio_ltb (λ s t. text_ltb s t) actual expected
apply_operator field lte actual expected =
    order_if_set ratio_leb (λ s t. not (text_ltb t s)) actual expected
apply_operator field not_equals actual expected = ok (not (value_eq actual expected))

abbrev pub apply_to_field : RuleCondition → Option Value → Result Bool
apply_to_field c none = err (unknown_field c.field)
apply_to_field c (some actual) = apply_operator c.field c.operator actual c.value

-- `_condition_matches`
unfoldable pub condition_matches : SessionFeatures → RuleCondition → Result Bool
condition_matches features c = apply_to_field c (get_field features c.field)

-- `all(_condition_matches(features, c) for c in conditions)`, which stops at the first that fails.
unfoldable pub all_match : SessionFeatures → List RuleCondition → Result Bool
all_match features [] = ok true
all_match features (c ∷ cs) = do
  matches ← condition_matches features c
  let rest = all_match features cs
  if matches then rest else ok false

abbrev pub match_of : ClassificationRule → RuleMatch
match_of r = record {
  rule_id = r.id;
  name = r.name;
  actor_label = r.actor_label;
  confidence = r.confidence;
  risk_score = r.risk_score;
  mitre_tags = r.mitre_tags;
  evidence = r.evidence;
}

-- The loop of `evaluate_rules`, with the matches so far.
unfoldable pub evaluate_from :
    SessionFeatures → List ClassificationRule → List RuleMatch → Result (List RuleMatch)
evaluate_from features [] matches = ok matches
evaluate_from features (r ∷ rs) matches = do
  matched ← all_match features r.conditions
  evaluate_from features rs (if matched then matches ++ match_of r ∷ [] else matches)

-- `evaluate_rules`, on a ruleset.
unfoldable pub evaluate_rules : SessionFeatures → RuleSet → Result RuleEvaluation
evaluate_rules features rule_set = do
  matches ← evaluate_from features rule_set.rules []
  ok (record { rules_version = rule_set.rules_version; matched_rules = matches })

-- `key=lambda match: (match.confidence, match.risk_score)`, compared as tuples.
abbrev pub outranks : RuleMatch → RuleMatch → Bool
outranks a b =
    ltb b.confidence a.confidence || (b.confidence == a.confidence && ltb b.risk_score a.risk_score)

unfoldable pub best_from : RuleMatch → List RuleMatch → RuleMatch
best_from held [] = held
best_from held (m ∷ ms) = best_from (if outranks m held then m else held) ms

abbrev pub best_of : List RuleMatch → Option RuleMatch
best_of [] = none
best_of (m ∷ ms) = some (best_from m ms)

-- `RuleEvaluation.best_match`
unfoldable pub best_match : RuleEvaluation → Option RuleMatch
best_match evaluation = best_of evaluation.matched_rules
