-- ===== src/Scoring/Vote/Ballot.antt =====
-- The dictionary of votes in closed form: what each label holds after the loop.
use echidra_oss.Base.{ℕ, List, [], ◌∷◌, ◌≡◌, refl, map, ◌==◌, if◌then◌else◌, some}
use echidra_oss.Base.Dict.{lookup, insert}
use echidra_oss.Rules.{
  ActorLabel, automated_scanner, brute_force_bot, commodity_bot, script_kiddie,
  skilled_human_operator, actor_labels, rank, label_eq, RuleMatch,
}
use echidra_oss.Scoring.Vote.{Votes, no_votes, add_votes, count_votes}

-- The loop on the entry of one label.
abbrev pub ballot_from : (ℕ → ℕ → ℕ) → (RuleMatch → ℕ) → List RuleMatch → ℕ → ActorLabel → ℕ
ballot_from add weight [] held label = held
ballot_from add weight (m ∷ ms) held label =
    ballot_from add weight ms
      (if rank m.actor_label == rank label then add held (weight m) else held) label

-- The weight of the matches that name a label, added up in their order.
abbrev pub ballot : (ℕ → ℕ → ℕ) → (RuleMatch → ℕ) → List RuleMatch → ActorLabel → ℕ
ballot add weight ms label = ballot_from add weight ms 0 label

abbrev pub votes_of : (ActorLabel → ℕ) → Votes
votes_of f = map (λ l. (l, f l)) actor_labels

add_votes-votes_of :
    (add : ℕ → ℕ → ℕ) (f : ActorLabel → ℕ) (l : ActorLabel) (w : ℕ)
    → add_votes add l w (votes_of f) ≡ votes_of (λ k. if rank l == rank k then add (f k) w else f k)
unfolding add_votes lookup insert
add_votes-votes_of add f automated_scanner w = refl
add_votes-votes_of add f brute_force_bot w = refl
add_votes-votes_of add f commodity_bot w = refl
add_votes-votes_of add f script_kiddie w = refl
add_votes-votes_of add f skilled_human_operator w = refl

-- After the loop each label holds what it started with and the weight of its matches.
pub count_votes-votes_of :
    (add : ℕ → ℕ → ℕ) (weight : RuleMatch → ℕ) (ms : List RuleMatch) (f : ActorLabel → ℕ)
    → count_votes add weight ms (votes_of f) ≡ votes_of (λ k. ballot_from add weight ms (f k) k)
unfolding count_votes
count_votes-votes_of add weight [] f = refl
count_votes-votes_of add weight (m ∷ ms) f =
    rw (add_votes-votes_of add f m.actor_label (weight m)) (
      count_votes-votes_of add weight ms
        (λ k. if rank m.actor_label == rank k then add (f k) (weight m) else f k))

pub count_votes-no_votes :
    (add : ℕ → ℕ → ℕ) (weight : RuleMatch → ℕ) (ms : List RuleMatch)
    → count_votes add weight ms no_votes ≡ votes_of (ballot add weight ms)
count_votes-no_votes add weight ms = count_votes-votes_of add weight ms (λ _. 0)

pub lookup-votes_of : (f : ActorLabel → ℕ) (l : ActorLabel) → lookup l (votes_of f) ≡ some (f l)
unfolding lookup
lookup-votes_of f automated_scanner = refl
lookup-votes_of f brute_force_bot = refl
lookup-votes_of f commodity_bot = refl
lookup-votes_of f script_kiddie = refl
lookup-votes_of f skilled_human_operator = refl
