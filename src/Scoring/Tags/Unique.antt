-- ===== src/Scoring/Tags/Unique.antt =====
-- `_unique_ordered` keeps each value once, at its first place.
use echidra_oss.Base.{List, String, [], ◌∷◌, false, not, ◌&&◌, ◌≡◌, refl, arith, str_eq_iff}
use echidra_oss.Scoring.Tags.{elem, unique_from, unique_ordered}

-- No value stands twice.
abbrev pub IsDistinct : List String → Type 0
IsDistinct [] = Unit
IsDistinct (x ∷ xs) = (elem x xs ≡ false) × IsDistinct xs

unique_from-elem :
    (t : String) (seen xs : List String)
    → elem t (unique_from seen xs) ≡ (elem t xs && not (elem t seen))
unfolding unique_from
unique_from-elem t seen [] = refl
unique_from-elem t seen (x ∷ xs) =
    ground (arith, str_eq_iff t x, unique_from-elem t (x ∷ seen) xs, unique_from-elem t seen xs)

unique_from-IsDistinct : (seen xs : List String) → IsDistinct (unique_from seen xs)
unfolding unique_from
unique_from-IsDistinct seen [] = tt
unique_from-IsDistinct seen (x ∷ xs) = ground (
  arith,
  str_eq_iff x x,
  unique_from-IsDistinct (x ∷ seen) xs,
  unique_from-IsDistinct seen xs,
  unique_from-elem x (x ∷ seen) xs,
)

pub unique_ordered-elem : (t : String) (xs : List String) → elem t (unique_ordered xs) ≡ elem t xs
unfolding unique_ordered
unique_ordered-elem t xs = ground (arith, unique_from-elem t [] xs)

pub unique_ordered-IsDistinct : (xs : List String) → IsDistinct (unique_ordered xs)
unfolding unique_ordered
unique_ordered-IsDistinct xs = unique_from-IsDistinct [] xs

-- The first value stays the first.
pub unique_ordered-head :
    (x : String) (xs : List String) → unique_ordered (x ∷ xs) ≡ x ∷ unique_from (x ∷ []) xs
unfolding unique_ordered unique_from
unique_ordered-head x xs = refl
