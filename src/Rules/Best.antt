-- ===== src/Rules/Best.antt =====
-- classifier/rules/engine.py: which match `best_match` picks.
use mathlib.Core.List.{append-nil, append_assoc}
use mathlib.Core.Path.{subst}
use echidra_oss.Base.{
  ap, All-append, ◌≤◌, ◌<◌, List, [], ◌∷◌, ◌++◌, true, false, ◌≡◌, ◌⊎◌, inl, inr, refl, arith, All,
  All-map, Bool-cases, none, some,
}
use echidra_oss.Rules.{RuleMatch, RuleEvaluation}
use echidra_oss.Rules.Evaluate.{outranks, best_from, best_of, best_match}

-- `a` comes strictly after `b` in the order of (confidence, risk score).
abbrev pub IsAbove : RuleMatch → RuleMatch → Type 0
IsAbove a b =
    (b.confidence < a.confidence) ⊎ ((b.confidence ≡ a.confidence) × (b.risk_score < a.risk_score))

abbrev pub IsNotBelow : RuleMatch → RuleMatch → Type 0
IsNotBelow a b =
    (b.confidence < a.confidence) ⊎ ((b.confidence ≡ a.confidence) × (b.risk_score ≤ a.risk_score))

-- The match stands in the list, above all before it and not below any after it.
pub record Picks (b : RuleMatch) (ms : List RuleMatch) : Type 0 where
  pub before : List RuleMatch
  pub after : List RuleMatch
  pub split : ms ≡ before ++ b ∷ after
  pub above : All (IsAbove b) before
  pub not_below : All (IsNotBelow b) after

outranks-IsAbove : (a b : RuleMatch) → outranks a b ≡ true → IsAbove a b
outranks-IsAbove a b h = ground arith

outranks_fails : (a b : RuleMatch) → outranks a b ≡ false → IsNotBelow b a
outranks_fails a b h = ground arith

IsAbove-trans : (a b c : RuleMatch) → IsAbove a b → IsNotBelow b c → IsAbove a c
IsAbove-trans a b c g h = ground arith

IsAbove-weaken : (a b c : RuleMatch) → IsAbove a b → IsAbove b c → IsAbove a c
IsAbove-weaken a b c g h = ground arith

-- A run of the maximum that holds `held`, after `before` and `after`.
best_from-Picks :
    (held : RuleMatch) (before after ms : List RuleMatch)
    → All (IsAbove held) before
    → All (IsNotBelow held) after
    → Picks (best_from held ms) (before ++ held ∷ (after ++ ms))
unfolding best_from
best_from-Picks held before after [] g h = record {
  before = before;
  after = after;
  split = ap (λ (l : List RuleMatch). before ++ held ∷ l) (append-nil after);
  above = g;
  not_below = h;
}
best_from-Picks held before after (m ∷ ms) g h = elim (Bool-cases (outranks m held)) [
  | inl e ↦ rw e (
      subst (Picks (best_from m ms)) (append_assoc before (held ∷ after) (m ∷ ms)) (
        best_from-Picks m (before ++ held ∷ after) [] ms
          (All-append (IsAbove m) before (held ∷ after)
            (All-map before (λ x. IsAbove-weaken m held x (outranks-IsAbove m held e)) g)
            (
              outranks-IsAbove m held e,
              All-map after (λ x. IsAbove-trans m held x (outranks-IsAbove m held e)) h,
            ))
          tt))
  | inr e ↦ rw e (
      subst (λ l. Picks (best_from held ms) (before ++ held ∷ l)) (append_assoc after (m ∷ []) ms)
        (best_from-Picks held before (after ++ m ∷ []) ms g
          (All-append (IsNotBelow held) after (m ∷ []) h (outranks_fails m held e, tt))))
]

-- The best match, which there is exactly if a rule matched, is in the list of matches; its pair of
-- confidence and risk score is above those of the matches before it, and not below those of the
-- matches after it.
pub best_match-Picks :
    (evaluation : RuleEvaluation)
    → (best_match evaluation ≡ none) × (evaluation.matched_rules ≡ [])
      ⊎ ((b : RuleMatch) × (best_match evaluation ≡ some b) × Picks b evaluation.matched_rules)
unfolding best_match
best_match-Picks evaluation = picked evaluation.matched_rules
  where
    picked :
        (ms : List RuleMatch)
        → ((best_of ms ≡ none) × (ms ≡ [])) ⊎ ((b : RuleMatch) × (best_of ms ≡ some b) × Picks b ms)
    picked [] = inl (refl, refl)
    picked (m ∷ ms) = inr (best_from m ms, refl, best_from-Picks m [] [] ms tt tt)
