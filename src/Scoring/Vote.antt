-- ===== src/Scoring/Vote.antt =====
-- classifier/scoring/session.py: `_actor_vote`, whose votes are floats, and `_actor_vote_tally`.
pub mod Ballot
pub mod Winner
pub mod Decisive
use echidra_oss.Base.Float.{Float, of_hundredths, add_float, nearest, hundredths_of}
use echidra_oss.Base.{
  ℕ, ◌+◌, ◌*◌, List, [], ◌∷◌, Bool, ◌&&◌, ◌||◌, Option, none, some, leb, ltb, ◌==◌, if◌then◌else◌,
  keep, length, nonempty, map,
}
use echidra_oss.Base.Dict.{Dict, lookup, insert}
use echidra_oss.Base.Round.{round_half_even}
use echidra_oss.Rules.{ActorLabel, automated_scanner, actor_labels, rank, label_eq, RuleMatch}
use echidra_oss.Scoring.Risk.{high_risk_score}

abbrev pub Votes : Type 0
Votes = Dict ActorLabel ℕ

-- `{actor_label: 0 for actor_label in ACTOR_LABELS}`
abbrev pub no_votes : Votes
no_votes = map (λ l. (l, 0)) actor_labels

abbrev pub held_votes : Option ℕ → ℕ
held_votes none = 0
held_votes (some n) = n

-- `votes[label] += weight`, with the addition of floats or of whole numbers; every label has an
-- entry.
unfoldable pub add_votes : (ℕ → ℕ → ℕ) → ActorLabel → ℕ → Votes → Votes
add_votes add label weight votes = insert label (add (held_votes (lookup label votes)) weight) votes

-- The loop of both functions, with the weight that a match adds.
unfoldable pub count_votes : (ℕ → ℕ → ℕ) → (RuleMatch → ℕ) → List RuleMatch → Votes → Votes
count_votes add weight [] votes = votes
count_votes add weight (m ∷ ms) votes =
    count_votes add weight ms (add_votes add m.actor_label (weight m) votes)

-- The float of a match's confidence
abbrev pub weight_of : RuleMatch → Float
weight_of m = of_hundredths m.confidence

-- `key=lambda item: (item[1], item[0])`, compared as tuples.
abbrev pub beats : ActorLabel × ℕ → ActorLabel × ℕ → Bool
beats (l, v) (k, w) = ltb w v || (w == v && ltb (rank k) (rank l))

-- Python's `max` over the items: a later item replaces one that it beats.
unfoldable pub best : ActorLabel × ℕ → Votes → ActorLabel × ℕ
best held [] = held
best held (item ∷ items) = best (if beats item held then item else held) items

abbrev pub is_decisive : RuleMatch → Bool
is_decisive m = leb high_risk_score m.risk_score

-- `decisive or matches`
unfoldable pub voters : List RuleMatch → List RuleMatch
voters matches =
    let decisive = keep is_decisive matches in if nonempty decisive then decisive else matches

-- `round(min(vote / n, 1.0), 2)`, in hundredths.
unfoldable pub vote_confidence : Float → ℕ → ℕ
vote_confidence vote n = hundredths_of (nearest vote n)

-- `_actor_vote`
unfoldable pub actor_vote : List RuleMatch → ActorLabel × ℕ
actor_vote matches =
    let chosen = voters matches in
    let votes = count_votes add_float weight_of chosen no_votes in
    let (label, vote) =
      best (automated_scanner, held_votes (lookup automated_scanner votes)) votes in
    (label, vote_confidence vote (length chosen))

-- `_actor_vote_tally`
unfoldable pub actor_vote_tally : List RuleMatch → Votes
actor_vote_tally matches = count_votes (λ a b. a + b) (λ _. 1) matches no_votes
