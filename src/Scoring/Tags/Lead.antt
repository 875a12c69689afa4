-- ===== src/Scoring/Tags/Lead.antt =====
-- The first tag of a summary, whose fix an alert shows.
use echidra_oss.Base.{
  ℕ, ◌+◌, ◌≤◌, List, String, [], ◌∷◌, ◌++◌, true, false, ◌≡◌, refl, arith, map, ◌∙◌, sym, All,
  All-map, All-append, All-Permᴰ, nonempty, str_eq_iff,
}
use echidra_oss.Base.Sort.{sorted, sorted-Permᴰ, sorted-IsSorted, IsSorted}
use echidra_oss.Rules.{RuleMatch}
use echidra_oss.Scoring.Tags.{
  elem, RankedTag, comes_first, rank_tags, rank_matches, unique_ordered, tags_by_seriousness,
}
use echidra_oss.Scoring.Tags.Unique.{unique_ordered-head}
use echidra_oss.Scoring.Tags.Order.{comes_first-asym, comes_first-through}
use mathlib.Core.List.{Permᴰ, Memᴰ}
use mathlib.Core.List.Permᴰ
use native.Mathlib.Nat.{le_refl}

-- Where a ranked tag comes from.
record ComesFrom (ms : List RuleMatch) (r : RankedTag) : Type 0 where
  source : RuleMatch
  listed : Memᴰ source ms
  carried : elem r.tag source.mitre_tags ≡ true
  rated : r.risk_score ≡ source.risk_score

-- The tags of one match, from a suffix of its list on.
rank_tags-ComesFrom :
    (ms : List RuleMatch) (m : RuleMatch)
    → Memᴰ m ms
    → (i j : ℕ) (tags : List String)
    → ((t : String) → elem t tags ≡ true → elem t m.mitre_tags ≡ true)
    → All (ComesFrom ms) (rank_tags m.risk_score i j tags)
unfolding rank_tags
rank_tags-ComesFrom ms m there i j [] within = tt
rank_tags-ComesFrom ms m there i j (x ∷ xs) within = (
  record {
    source = m;
    listed = there;
    carried = within x (ground (arith, str_eq_iff x x));
    rated = refl;
  },
  rank_tags-ComesFrom ms m there i (j + 1) xs (λ t h. within t (ground arith)),
)

rank_matches-ComesFrom :
    (all : List RuleMatch) (i : ℕ) (ms : List RuleMatch)
    → ((m : RuleMatch) → Memᴰ m ms → Memᴰ m all)
    → All (ComesFrom all) (rank_matches i ms)
unfolding rank_matches
rank_matches-ComesFrom all i [] within = tt
rank_matches-ComesFrom all i (m ∷ ms) within =
    All-append (ComesFrom all) _ _
      (rank_tags-ComesFrom all m (within m (Memᴰ.head refl)) i 0 m.mitre_tags (λ t h. h))
      (rank_matches-ComesFrom all (i + 1) ms (λ r k. within r (Memᴰ.tail k)))

All-append_right : (P : RankedTag → Type 0) (xs ys : List RankedTag) → All P (xs ++ ys) → All P ys
All-append_right P [] ys h = h
All-append_right P (x ∷ xs) ys h = All-append_right P xs ys h.1

-- A bound on the ranked tags bounds every match that has a tag.
bound-matches :
    (bound i : ℕ) (ms : List RuleMatch)
    → All (λ r. r.risk_score ≤ bound) (rank_matches i ms)
    → All (λ m. nonempty m.mitre_tags ≡ true → m.risk_score ≤ bound) ms
unfolding rank_matches rank_tags
bound-matches bound i [] h = tt
bound-matches bound i (m ∷ ms) h = (
  first m.mitre_tags h,
  bound-matches bound (i + 1) ms (All-append_right _ (rank_tags m.risk_score i 0 m.mitre_tags) _ h),
)
  where
    first :
        (tags : List String)
        → All
            (λ r. r.risk_score ≤ bound)
            (rank_tags m.risk_score i 0 tags ++ rank_matches (i + 1) ms)
        → nonempty tags ≡ true
        → m.risk_score ≤ bound
    first [] k e = cc
    first (x ∷ xs) k e = k.0

comes_first-risk : (a b : RankedTag) → comes_first a b ≡ false → a.risk_score ≤ b.risk_score
unfolding comes_first
comes_first-risk a b h = ground arith

-- A match that carries the tag, and that no match with a tag outranks.
pub record Leads (ms : List RuleMatch) (t : String) : Type 0 where
  pub source : RuleMatch
  pub listed : Memᴰ source ms
  pub carried : elem t source.mitre_tags ≡ true
  pub highest : All (λ m. nonempty m.mitre_tags ≡ true → m.risk_score ≤ source.risk_score) ms

nil_unique : unique_ordered [] ≡ []
unfolding unique_ordered
nil_unique = refl

lead_of_sorted :
    (ms : List RuleMatch) (t : String) (rest : List String) (s : List RankedTag)
    → Permᴰ s (rank_matches 0 ms)
    → IsSorted comes_first s
    → unique_ordered (map RankedTag.tag s) ≡ t ∷ rest
    → Leads ms t
lead_of_sorted ms t rest [] same order e = cc (sym nil_unique ∙ e)
lead_of_sorted ms t rest (x ∷ xs) same (first, later) e =
    let origin = All-Permᴰ _ (Permᴰ.symm same) (rank_matches-ComesFrom ms 0 ms (λ r k. k)) in
    let lead = origin.0 in
    let bounded : All (λ y. y.risk_score ≤ x.risk_score) (x ∷ xs) =
      (le_refl x.risk_score, All-map xs (λ y h. comes_first-risk y x h) first) in
    let head_is : x.tag ≡ t = cc (sym (unique_ordered-head x.tag (map RankedTag.tag xs)) ∙ e) in
    record {
      source = lead.source;
      listed = lead.listed;
      carried = rw (← head_is) lead.carried;
      highest = rw (← lead.rated) (bound-matches x.risk_score 0 ms (All-Permᴰ _ same bounded));
    }

-- The first tag of a summary is carried by a matched rule whose risk score no matched rule with a
-- tag exceeds.
pub tags_by_seriousness-Leads :
    (ms : List RuleMatch) (t : String) (rest : List String)
    → tags_by_seriousness ms ≡ t ∷ rest
    → Leads ms t
unfolding tags_by_seriousness
tags_by_seriousness-Leads ms t rest e =
    lead_of_sorted ms t rest (sorted comes_first (rank_matches 0 ms))
      (sorted-Permᴰ comes_first (rank_matches 0 ms))
      (sorted-IsSorted comes_first comes_first-asym comes_first-through (rank_matches 0 ms)) e
