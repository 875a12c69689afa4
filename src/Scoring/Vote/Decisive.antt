-- ===== src/Scoring/Vote/Decisive.antt =====
-- When a rule rated high matched, only such rules name the actor; and the bounds of the
-- confidence that is returned.
use echidra_oss.Base.Float.{
  of_hundredths-positive, add_float, add_float-positive, nearest, hundredths_of-le,
}
use mathlib.Core.Path.{subst}
use echidra_oss.Base.{
  leb→le, ap, sym, ◌∙◌, ℕ, ◌≤◌, ◌<◌, List, [], ◌∷◌, ◌≡◌, inl, inr, refl, arith, keep, nonempty,
  All_at, true, Bool-cases, keep_passes, Memᴰ_of_keep, ◌==◌, ap, sym, ◌∙◌, if_either,
}
use echidra_oss.Rules.{ActorLabel, rank, rank_injective, label_eq, RuleMatch}
use echidra_oss.Scoring.Vote.{voters, vote_confidence, actor_vote, is_decisive, weight_of}
use echidra_oss.Scoring.Vote.Ballot.{ballot, ballot_from}
use echidra_oss.Scoring.Vote.Winner.{actor_vote_wins}
use mathlib.Core.List.{Memᴰ}

-- A label with some weight was named by a match of the ballot.
named_of_ballot :
    (ms : List RuleMatch) (l : ActorLabel)
    → 0 < ballot add_float weight_of ms l
    → (m : RuleMatch) × Memᴰ m ms × (m.actor_label ≡ l)
named_of_ballot [] l h = absurd (omega arith)
named_of_ballot (m ∷ ms) l h = elim (Bool-cases (rank m.actor_label == rank l)) [
  | inl same ↦ (m, Memᴰ.head refl, rank_injective _ _ (ground arith))
  | inr other ↦
      let (w, there, named) = named_of_ballot ms l (rw other at h) in (w, Memᴰ.tail there, named)
]

-- Votes that a label has are not lost.
ballot_positive :
    (ms : List RuleMatch) (held : ℕ) (l : ActorLabel)
    → 0 < held
    → 0 < ballot_from add_float weight_of ms held l
ballot_positive [] held l h = h
ballot_positive (m ∷ ms) held l h = ballot_positive ms _ l (
    if_either (λ n. 0 < n) (rank m.actor_label == rank l) (add_float held (weight_of m)) held
      (add_float-positive held (weight_of m) (omega (arith, h))) h)

ballot_of_Memᴰ :
    {d : RuleMatch} {ms : List RuleMatch} (held : ℕ)
    → Memᴰ d ms
    → 0 < d.confidence
    → 0 < ballot_from add_float weight_of ms held d.actor_label
ballot_of_Memᴰ {d} held (Memᴰ.head {x = x} {xs = xs} e) sure =
    rw (← e, same_rank d.actor_label)
      (ballot_positive xs (add_float held (weight_of d)) d.actor_label (
        add_float-positive held (weight_of d)
          (omega (arith, of_hundredths-positive d.confidence sure))))
  where
    same_rank : (l : ActorLabel) → (rank l == rank l) ≡ true
    same_rank l = ground arith
ballot_of_Memᴰ {d} held (Memᴰ.tail m) sure = ballot_of_Memᴰ _ m sure

pub Memᴰ-keep :
    {d : RuleMatch} (ms : List RuleMatch)
    → Memᴰ d ms
    → is_decisive d ≡ true
    → Memᴰ d (keep is_decisive ms)
Memᴰ-keep [] m h = elim m [ ]
Memᴰ-keep (x ∷ ms) (Memᴰ.head e) h = rw (ap is_decisive (sym e) ∙ h) (Memᴰ.head e)
Memᴰ-keep (x ∷ ms) (Memᴰ.tail m) h = elim (Bool-cases (is_decisive x)) [
  | inl e ↦ rw e (Memᴰ.tail (Memᴰ-keep ms m h))
  | inr e ↦ rw e (Memᴰ-keep ms m h)
]

pub nonempty_of_Memᴰ : {d : RuleMatch} {ms : List RuleMatch} → Memᴰ d ms → nonempty ms ≡ true
nonempty_of_Memᴰ (Memᴰ.head e) = refl
nonempty_of_Memᴰ (Memᴰ.tail m) = refl

voters_decisive :
    {d : RuleMatch} (ms : List RuleMatch)
    → Memᴰ d (keep is_decisive ms)
    → voters ms ≡ keep is_decisive ms
unfolding voters
voters_decisive ms m = rw (nonempty_of_Memᴰ m)

-- If a matched rule is rated high and has any confidence, then the label that is named is that of
-- a matched rule that is rated high, whatever the other matches are.
pub actor_vote_decisive :
    (ms : List RuleMatch) (d : RuleMatch)
    → Memᴰ d ms
    → 65 ≤ d.risk_score
    → 0 < d.confidence
    → (m : RuleMatch) × Memᴰ m ms × (65 ≤ m.risk_score) × (m.actor_label ≡ (actor_vote ms).0)
actor_vote_decisive ms d there rated sure =
    let kept = Memᴰ-keep ms there (ground arith) in
    let same = voters_decisive ms kept in
    let backed : 0 < ballot add_float weight_of (voters ms) d.actor_label =
      rw same (ballot_of_Memᴰ 0 kept sure) in
    let won = (actor_vote_wins ms).0 d.actor_label in
    let (m, chosen, named) = named_of_ballot (voters ms) (actor_vote ms).0 (omega arith) in
    let voted = subst (λ v. Memᴰ m v) same chosen in
    let high = All_at (λ r. is_decisive r ≡ true) voted (keep_passes is_decisive ms) in
    (m, Memᴰ_of_keep is_decisive m ms voted, leb→le 65 m.risk_score high, named)

vote_confidence-le : (vote n : ℕ) → vote_confidence vote n ≤ 100
unfolding vote_confidence
vote_confidence-le vote n = hundredths_of-le (nearest vote n)

-- The confidence is at most 1, whatever the matches are.
pub actor_vote-confidence-le : (ms : List RuleMatch) → (actor_vote ms).1 ≤ 100
actor_vote-confidence-le ms = rw (actor_vote_wins ms).1 (vote_confidence-le _ _)
