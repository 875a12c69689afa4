-- ===== src/Scoring/Tags/Order.antt =====
-- The tags of a summary: each tag of a matched rule once, the most serious first.
use echidra_oss.Base.{
  ℕ, ◌+◌, List, String, [], ◌∷◌, ◌++◌, Bool, true, false, ◌||◌, ◌≡◌, refl, arith, str_eq, any, map,
  ◌∙◌, sym,
}
use echidra_oss.Base.Sort.{sorted, sorted-Permᴰ}
use echidra_oss.Rules.{RuleMatch}
use echidra_oss.Scoring.Tags.{
  elem, RankedTag, comes_first, rank_tags, rank_matches, tags_by_seriousness,
}
use echidra_oss.Scoring.Tags.Unique.{IsDistinct, unique_ordered-elem, unique_ordered-IsDistinct}
use echidra_oss.Scoring.Stage.{tags_of}
use mathlib.Core.List.{Permᴰ}
use mathlib.Core.Path.{ap₂}

pub elem-append : (t : String) (xs ys : List String) → elem t (xs ++ ys) ≡ (elem t xs || elem t ys)
elem-append t [] ys = refl
elem-append t (x ∷ xs) ys = ground (arith, elem-append t xs ys)

-- Membership does not depend on the order.
any-Permᴰ : (p : RankedTag → Bool) {xs ys : List RankedTag} → Permᴰ xs ys → any p xs ≡ any p ys
any-Permᴰ p Permᴰ.nil = refl
any-Permᴰ p (Permᴰ.cons e r) = rw (e, any-Permᴰ p r)
any-Permᴰ p (Permᴰ.swap {a = a} {b = b} d e) = rw (← d, ← e) (ground arith)
any-Permᴰ p (Permᴰ.trans r s) = any-Permᴰ p r ∙ any-Permᴰ p s

elem-map :
    (t : String) (rs : List RankedTag)
    → elem t (map RankedTag.tag rs) ≡ any (λ r. str_eq t r.tag) rs
elem-map t [] = refl
elem-map t (r ∷ rs) = rw (elem-map t rs)

rank_tags-elem :
    (t : String) (risk i j : ℕ) (tags : List String)
    → any (λ r. str_eq t r.tag) (rank_tags risk i j tags) ≡ elem t tags
unfolding rank_tags
rank_tags-elem t risk i j [] = refl
rank_tags-elem t risk i j (x ∷ xs) = rw (rank_tags-elem t risk i (j + 1) xs)

any-append :
    (p : RankedTag → Bool) (xs ys : List RankedTag) → any p (xs ++ ys) ≡ (any p xs || any p ys)
any-append p [] ys = refl
any-append p (x ∷ xs) ys = ground (arith, any-append p xs ys)

rank_matches-elem :
    (t : String) (i : ℕ) (ms : List RuleMatch)
    → any (λ r. str_eq t r.tag) (rank_matches i ms) ≡ elem t (tags_of ms)
unfolding rank_matches
rank_matches-elem t i [] = refl
rank_matches-elem t i (m ∷ ms) =
    any-append _ (rank_tags m.risk_score i 0 m.mitre_tags) (rank_matches (i + 1) ms)
    ∙ ap₂ ◌||◌ (rank_tags-elem t m.risk_score i 0 m.mitre_tags) (rank_matches-elem t (i + 1) ms)
    ∙ sym (elem-append t m.mitre_tags (tags_of ms))

-- The summary's tags are exactly the tags of the matched rules, and none stands twice.
pub tags_by_seriousness-elem :
    (ms : List RuleMatch)
    → ((t : String) → elem t (tags_by_seriousness ms) ≡ elem t (tags_of ms))
      × IsDistinct (tags_by_seriousness ms)
unfolding tags_by_seriousness
tags_by_seriousness-elem ms = (
  λ t.
      unique_ordered-elem t _
      ∙ elem-map t (sorted comes_first (rank_matches 0 ms))
      ∙ any-Permᴰ _ (sorted-Permᴰ comes_first (rank_matches 0 ms))
      ∙ rank_matches-elem t 0 ms,
  unique_ordered-IsDistinct _,
)

pub comes_first-asym : (a b : RankedTag) → comes_first a b ≡ true → comes_first b a ≡ false
unfolding comes_first
comes_first-asym a b h = ground arith

pub comes_first-through :
    (a b c : RankedTag)
    → comes_first b a ≡ false
    → comes_first c b ≡ false
    → comes_first c a ≡ false
unfolding comes_first
comes_first-through a b c h k = ground arith
