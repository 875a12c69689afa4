-- ===== src/Rules/Value.antt =====
-- classifier/rules/engine.py: the values that a YAML condition and a feature hold, compared the
-- way Python compares them. A Boolean is a number there; texts are ordered by code points.
-- There are no negative numbers, no NaN, no sets and no mappings among these values.
use echidra_oss.Base.{ℕ, [], ◌∷◌, Bool, true, false, ◌&&◌, ◌||◌, Option, none, some, ltb, ◌==◌}
use echidra_oss.Base.Ratios.{Ratio, whole, ratio_eq}
use echidra_oss.Base.Text.{Text, text_eq}

mutual
  pub data Value : Type 0 where
    null : Value
    bool : Bool → Value
    number : Ratio → Value
    text : Text → Value
    items : Values → Value

  pub data Values : Type 0 where
    nil : Values
    cons : Value → Values → Values

abbrev pub of_bool : Bool → ℕ
of_bool true = 1
of_bool false = 0

-- The number that a value counts as in a comparison, if any.
abbrev pub as_number : Value → Option Ratio
as_number (bool b) = some (whole (of_bool b))
as_number (number n) = some n
as_number _ = none

abbrev pub both_equal : Option Ratio → Option Ratio → Bool
both_equal (some a) (some b) = ratio_eq a b
both_equal _ _ = false

-- `a == b`
unfoldable mutual
  pub value_eq : Value → Value → Bool
  value_eq null null = true
  value_eq (text s) (text t) = text_eq s t
  value_eq (items xs) (items ys) = values_eq xs ys
  value_eq (bool a) v = both_equal (some (whole (of_bool a))) (as_number v)
  value_eq (number a) v = both_equal (some a) (as_number v)
  value_eq _ _ = false

  pub values_eq : Values → Values → Bool
  values_eq nil nil = true
  values_eq (cons x xs) (cons y ys) = value_eq x y && values_eq xs ys
  values_eq _ _ = false

-- `a in xs`
unfoldable pub contained : Value → Values → Bool
contained v nil = false
contained v (cons x xs) = value_eq v x || contained v xs

-- The order of texts.
abbrev pub text_ltb : Text → Text → Bool
text_ltb [] [] = false
text_ltb [] (_ ∷ _) = true
text_ltb (_ ∷ _) [] = false
text_ltb (c ∷ s) (d ∷ t) = ltb c d || (c == d && text_ltb s t)

-- `isinstance(value, Iterable) and not isinstance(value, (str, bytes))`
abbrev pub is_non_string_iterable : Value → Bool
is_non_string_iterable (items _) = true
is_non_string_iterable _ = false
