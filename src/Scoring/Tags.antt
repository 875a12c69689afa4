-- ===== src/Scoring/Tags.antt =====
-- classifier/scoring/session.py: `_tags_by_seriousness` and `_unique_ordered`.
pub mod Unique
pub mod Order
pub mod Lead
use echidra_oss.Base.{
  ℕ, ◌+◌, String, List, [], ◌∷◌, ◌++◌, Bool, true, false, ◌&&◌, ◌||◌, ltb, ◌==◌, if◌then◌else◌,
  str_eq, any, map, not,
}
use echidra_oss.Base.Sort.{sorted}
use echidra_oss.Rules.{RuleMatch}
use Prim.Native.Char.{code}

-- `value in values`
abbrev pub elem : String → List String → Bool
elem value values = any (str_eq value) values

-- `"." in tag`
unfoldable pub has_dot : String → Bool
has_dot String.[] = false
has_dot (String.◌∷◌ c s) = code c == b'.' || has_dot s

-- `(-risk_score, "." not in tag, rule_position, tag_position, tag)`
pub record RankedTag : Type 0 where
  pub risk_score : ℕ
  pub is_general : Bool
  pub rule_position : ℕ
  pub tag_position : ℕ
  pub tag : String

abbrev pub bit : Bool → ℕ
bit false = 0
bit true = 1

-- The order of the tuples. Two of them never agree on both positions, so the tags at their ends
-- are not compared.
unfoldable pub comes_first : RankedTag → RankedTag → Bool
comes_first a b =
    ltb b.risk_score a.risk_score
    || (a.risk_score == b.risk_score
        && (ltb (bit a.is_general) (bit b.is_general)
            || (bit a.is_general == bit b.is_general
                && (ltb a.rule_position b.rule_position
                    || (a.rule_position == b.rule_position && ltb a.tag_position b.tag_position)))))

unfoldable pub rank_tags : ℕ → ℕ → ℕ → List String → List RankedTag
unfolding has_dot
rank_tags risk rule_position tag_position [] = []
rank_tags risk rule_position tag_position (tag ∷ tags) =
    record {
      risk_score = risk;
      is_general = not (has_dot tag);
      rule_position = rule_position;
      tag_position = tag_position;
      tag = tag;
    }
    ∷ rank_tags risk rule_position (tag_position + 1) tags

-- The two loops of the comprehension, from a rule's position on.
unfoldable pub rank_matches : ℕ → List RuleMatch → List RankedTag
unfolding rank_tags
rank_matches rule_position [] = []
rank_matches rule_position (m ∷ ms) =
    rank_tags m.risk_score rule_position 0 m.mitre_tags ++ rank_matches (rule_position + 1) ms

-- The loop of `_unique_ordered`, with the values seen so far.
unfoldable pub unique_from : List String → List String → List String
unique_from seen [] = []
unique_from seen (value ∷ values) =
    let rest = unique_from (value ∷ seen) values in
    let skipped = unique_from seen values in if elem value seen then skipped else value ∷ rest

-- `_unique_ordered`
unfoldable pub unique_ordered : List String → List String
unfolding unique_from
unique_ordered values = unique_from [] values

-- `_tags_by_seriousness`
unfoldable pub tags_by_seriousness : List RuleMatch → List String
unfolding rank_matches comes_first unique_ordered sorted
tags_by_seriousness matches =
    unique_ordered (map RankedTag.tag (sorted comes_first (rank_matches 0 matches)))
