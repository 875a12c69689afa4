-- ===== src/Rules.antt =====
-- classifier/rules/engine.py: the rules, their matches and the evaluation of a ruleset.
-- A confidence is written in hundredths; the bundled rules give two decimals.
pub mod Value
pub mod Fields
pub mod Evaluate
pub mod Filter
pub mod Best
mod Tests
use echidra_oss.Base.{ℕ, ◌≤◌, String, List, [], ◌∷◌, true, ◌≡◌, ◌==◌, ==_iff, arith, ap, ◌↔◌}
use echidra_oss.Base.Dict.{Eq}

pub data ActorLabel : Type 0 where
  automated_scanner brute_force_bot commodity_bot script_kiddie skilled_human_operator : ActorLabel

-- `ACTOR_LABELS`
abbrev pub actor_labels : List ActorLabel
actor_labels =
    automated_scanner ∷ brute_force_bot ∷ commodity_bot ∷ script_kiddie ∷ skilled_human_operator
    ∷ []

-- The place of a label in the order of the texts, which is the order of `ACTOR_LABELS`.
abbrev pub rank : ActorLabel → ℕ
rank automated_scanner = 0
rank brute_force_bot = 1
rank commodity_bot = 2
rank script_kiddie = 3
rank skilled_human_operator = 4

pub rank_injective : (a b : ActorLabel) → rank a ≡ rank b → a ≡ b
rank_injective a b h = ground arith

pub label_beq_iff : (a b : ActorLabel) → ((rank a == rank b) ≡ true) ↔ (a ≡ b)
label_beq_iff a b = (λ h. rank_injective a b ((==_iff _ _).0 h), λ e. (==_iff _ _).1 (ap rank e))

instance abbrev pub label_eq : Eq ActorLabel
label_eq = record { beq = λ a b. rank a == rank b; beq_iff = label_beq_iff }

-- `RuleMatch`
pub record RuleMatch : Type 0 where
  pub rule_id : String
  pub name : String
  pub actor_label : ActorLabel
  pub confidence : ℕ
  pub risk_score : ℕ
  pub mitre_tags : List String
  pub evidence : List String

-- The bounds that the fields declare: `Field(ge=0, le=1)` and `Field(ge=0, le=100)`.
pub record IsValid (m : RuleMatch) : Type 0 where
  pub confidence-le : m.confidence ≤ 100
  pub risk_score-le : m.risk_score ≤ 100

-- `RuleEvaluation`
pub record RuleEvaluation : Type 0 where
  pub rules_version : String
  pub matched_rules : List RuleMatch
