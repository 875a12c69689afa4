-- ===== src/Python/Split.antt =====
-- The methods of Python texts that take a text apart.
use echidra_oss.Base.{ℕ, List, [], ◌∷◌, Option, none, some, if◌then◌else◌, ◌==◌}
use echidra_oss.Base.Text.{Text, is_space, lower_code}
use mathlib.Core.List.{reverse, map}

-- `s.lower()`, on ASCII letters.
abbrev pub lower : Text → Text
lower s = map lower_code s

-- A word that is done, if one was begun.
abbrev pub word_done : Text → List Text → List Text
word_done [] words = words
word_done (c ∷ word) words = reverse (c ∷ word) ∷ words

-- `s.split()`, with the word begun in reverse.
unfoldable pub words_from : Text → Text → List Text
words_from word [] = word_done word []
words_from word (c ∷ s) =
    let rest = words_from [] s in
    let longer = words_from (c ∷ word) s in if is_space c then word_done word rest else longer

unfoldable pub split_words : Text → List Text
split_words s = words_from [] s

abbrev pub before_more : ℕ → Option (Text × Text) → Option (Text × Text)
before_more c none = none
before_more c (some (before, after)) = some (c ∷ before, after)

-- `s.split(sep, 1)` and `s.partition(sep)`, for one character: the parts before and behind the
-- first one, if there is one.
unfoldable pub split_once : ℕ → Text → Option (Text × Text)
split_once sep [] = none
split_once sep (c ∷ s) = if c == sep then some ([], s) else before_more c (split_once sep s)

abbrev pub before_or_all : Text → Option (Text × Text) → Text
before_or_all s none = s
before_or_all s (some (before, after)) = before

abbrev pub after_or_none : Option (Text × Text) → Text
after_or_none none = []
after_or_none (some (before, after)) = after

-- `s.split(sep, 1)[0]`, and what is behind the first separator.
abbrev pub before_first : ℕ → Text → Text
before_first sep s = before_or_all s (split_once sep s)

abbrev pub after_first : ℕ → Text → Text
after_first sep s = after_or_none (split_once sep s)

-- `s.split(sep)`, for one character, with the part begun in reverse.
unfoldable pub split_from : ℕ → Text → Text → List Text
split_from sep part [] = reverse part ∷ []
split_from sep part (c ∷ s) =
    let rest = split_from sep [] s in
    let longer = split_from sep (c ∷ part) s in if c == sep then reverse part ∷ rest else longer

unfoldable pub split_on : ℕ → Text → List Text
split_on sep s = split_from sep [] s
