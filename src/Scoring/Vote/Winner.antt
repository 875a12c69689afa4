-- ===== src/Scoring/Vote/Winner.antt =====
-- The label that `_actor_vote` names has the most votes, and only decisive rules vote when any
-- matched.
use echidra_oss.Base.Float.{add_float}
use mathlib.Core.Path.{subst}
use echidra_oss.Base.{
  if_either, if◌then◌else◌, All, length, ℕ, ◌≤◌, ◌<◌, List, [], ◌∷◌, ◌≡◌, ◌⊎◌, inr, refl, arith,
  All, ap,
}
use echidra_oss.Rules.{
  brute_force_bot, commodity_bot, script_kiddie, skilled_human_operator, ActorLabel,
  automated_scanner, rank, label_eq, RuleMatch,
}
use echidra_oss.Scoring.Vote.{Votes, beats, best, voters, vote_confidence, actor_vote, weight_of}
use echidra_oss.Scoring.Vote.Ballot.{ballot, votes_of, count_votes-no_votes, lookup-votes_of}

-- The first has fewer votes, or as many and no later a label.
abbrev pub Loses : ActorLabel × ℕ → ActorLabel × ℕ → Type 0
Loses (l, v) (k, w) = (v < w) ⊎ ((v ≡ w) × (rank l ≤ rank k))

Loses-trans : (a b c : ActorLabel × ℕ) → Loses a b → Loses b c → Loses a c
Loses-trans a b c h k = ground arith

Loses-kept :
    (item held : ActorLabel × ℕ)
    → let w = if beats item held then item else held in Loses item w × Loses held w
Loses-kept item held = ground arith

best-Loses :
    (held : ActorLabel × ℕ) (items : Votes)
    → Loses held (best held items) × All (λ x. Loses x (best held items)) items
unfolding best
best-Loses held [] = (inr (refl, omega arith), tt)
best-Loses held (item ∷ items) =
    let next = if beats item held then item else held in
    let (new_wins, old_wins) = Loses-kept item held in
    let (above, rest) = best-Loses next items in
    (Loses-trans held next _ old_wins above, (Loses-trans item next _ new_wins above, rest))

best-either {κ} :
    (P : ActorLabel × ℕ → Type κ) (held : ActorLabel × ℕ) (items : Votes)
    → P held
    → All P items
    → P (best held items)
unfolding best
best-either P held [] p h = p
best-either P held (item ∷ items) p (q, h) =
    best-either P (if beats item held then item else held) items
      (if_either P (beats item held) item held q p) h

All-votes_of {κ} :
    (P : ActorLabel × ℕ → Type κ) (f : ActorLabel → ℕ)
    → ((l : ActorLabel) → P (l, f l))
    → All P (votes_of f)
All-votes_of P f h = (
  h automated_scanner,
  (h brute_force_bot, (h commodity_bot, (h script_kiddie, (h skilled_human_operator, tt)))),
)

votes_of-All {κ} :
    (P : ActorLabel × ℕ → Type κ) (f : ActorLabel → ℕ) (l : ActorLabel)
    → All P (votes_of f)
    → P (l, f l)
votes_of-All P f automated_scanner h = h.0
votes_of-All P f brute_force_bot h = h.1.0
votes_of-All P f commodity_bot h = h.1.1.0
votes_of-All P f script_kiddie h = h.1.1.1.0
votes_of-All P f skilled_human_operator h = h.1.1.1.1.0

-- The winner of a ballot, as the code finds it.
abbrev chosen : (ActorLabel → ℕ) → ActorLabel × ℕ
chosen f = best (automated_scanner, f automated_scanner) (votes_of f)

chosen-own : (f : ActorLabel → ℕ) → (chosen f).1 ≡ f (chosen f).0
chosen-own f =
    best-either (λ x. x.1 ≡ f x.0) _ (votes_of f) refl
      (All-votes_of (λ x. x.1 ≡ f x.0) f (λ l. refl))

chosen-Loses : (f : ActorLabel → ℕ) (l : ActorLabel) → Loses (l, f l) (chosen f)
chosen-Loses f l = votes_of-All (λ x. Loses x (chosen f)) f l (best-Loses _ (votes_of f)).1

abbrev weights : List RuleMatch → ActorLabel → ℕ
weights ms = ballot add_float weight_of (voters ms)

actor_vote-chosen :
    (ms : List RuleMatch)
    → actor_vote ms
      ≡ ((chosen (weights ms)).0, vote_confidence (chosen (weights ms)).1 (length (voters ms)))
unfolding actor_vote
actor_vote-chosen ms =
    rw (count_votes-no_votes add_float weight_of (voters ms))
      (rw (lookup-votes_of (weights ms) automated_scanner))

-- The vote of a label is the sum of the confidences of the voting rules that name it, as floats in
-- their order. No label has a higher vote than the label that `_actor_vote` names, and none that
-- has as high a vote comes later in the order of the labels; the confidence that is returned is the
-- named label's vote divided by the number of voters, at most 1 and rounded to hundredths.
pub actor_vote_wins :
    (ms : List RuleMatch)
    → let (label, confidence) = actor_vote ms in
      let weight = ballot add_float weight_of (voters ms) in
      ((l : ActorLabel) → Loses (l, weight l) (label, weight label))
      × (confidence ≡ vote_confidence (weight label) (length (voters ms)))
actor_vote_wins ms =
    let w = weights ms in
    let own = chosen-own w in
    rw (actor_vote-chosen ms) (
      (λ l. subst (λ v. Loses (l, w l) ((chosen w).0, v)) own (chosen-Loses w l)),
      ap (λ v. vote_confidence v (length (voters ms))) own,
    )
