-- ===== src/Python/Regex.antt =====
-- Python's `re`, as far as the source asks whether a pattern is found: by derivatives.
-- A text is searched between two marks, so an anchor is the class of the mark, and a lookbehind or
-- lookahead of one character, at an end of a pattern, is the class of the characters it allows.
pub mod Matches
pub mod Decides
pub mod Parts
use echidra_oss.Base.{
  ℕ, suc, ◌+◌, String, List, [], ◌∷◌, ◌++◌, Bool, true, false, not, ◌&&◌, ◌||◌, if◌then◌else◌, any,
  leb, ◌==◌,
}
use echidra_oss.Base.Text.{Text, codes, within}

-- A regular expression over characters; a class is its test.
pub data Regex : Type 0 where
  fails empty : Regex
  class : (ℕ → Bool) → Regex
  both either : Regex → Regex → Regex
  many : Regex → Regex

-- Whether the empty text matches.
abbrev pub nullable : Regex → Bool
nullable fails = false
nullable empty = true
nullable (class p) = false
nullable (both r s) = nullable r && nullable s
nullable (either r s) = nullable r || nullable s
nullable (many r) = true

abbrev pub is_fails : Regex → Bool
is_fails fails = true
is_fails _ = false

abbrev pub is_empty : Regex → Bool
is_empty empty = true
is_empty _ = false

-- `both` and `either`, where a part that fails or is empty is left out.
abbrev pub both_of : Regex → Regex → Regex
both_of r s = if is_fails r then fails else if is_empty r then s else both r s

abbrev pub either_of : Regex → Regex → Regex
either_of r s = if is_fails r then s else if is_fails s then r else either r s

-- What has to match behind a character.
abbrev pub deriv : ℕ → Regex → Regex
deriv c fails = fails
deriv c empty = fails
deriv c (class p) = if p c then empty else fails
deriv c (both r s) =
    let later = deriv c s in
    let first = both_of (deriv c r) s in if nullable r then either_of first later else first
deriv c (either r s) = either_of (deriv c r) (deriv c s)
deriv c (many r) = both_of (deriv c r) (many r)

-- Whether the pattern matches at the start of the text, and anywhere in it.
unfoldable pub starts : Regex → Text → Bool
starts r [] = nullable r
starts r (c ∷ s) = nullable r || starts (deriv c r) s

unfoldable pub found_in : Regex → Text → Bool
found_in r [] = starts r []
found_in r (c ∷ s) = starts r (c ∷ s) || found_in r s

-- The marks before and behind a text, which are no characters.
abbrev pub start_mark : ℕ
start_mark = 0x110000

abbrev pub end_mark : ℕ
end_mark = 0x110001

-- `pattern.search(text) is not None`
unfoldable pub search_in : Regex → Text → Bool
search_in r s = found_in r (start_mark ∷ s ++ end_mark ∷ [])

-- Classes.
abbrev pub is_character : ℕ → Bool
is_character c = leb c 0x10FFFF

abbrev pub one_of_chars : Text → ℕ → Bool
one_of_chars s c = any (λ d. c == d) s

abbrev pub char : ℕ → Regex
char c = class (λ d. d == c)

-- A class of which the marks are never part, and one that holds at the marks too: a character that
-- does not follow, or does not precede.
abbrev pub none_of : (ℕ → Bool) → Regex
none_of p = class (λ c. is_character c && not (p c))

abbrev pub no_neighbour : (ℕ → Bool) → Regex
no_neighbour p = class (λ c. not (p c))

-- A literal text.
abbrev pub literal_text : Text → Regex
literal_text [] = empty
literal_text (c ∷ []) = char c
literal_text (c ∷ s) = both (char c) (literal_text s)

abbrev pub literal : String → Regex
literal s = literal_text (codes s)

abbrev pub one_literal_of : List String → Regex
one_literal_of [] = fails
one_literal_of (s ∷ []) = literal s
one_literal_of (s ∷ ss) = either (literal s) (one_literal_of ss)

abbrev pub one_of_regexes : List Regex → Regex
one_of_regexes [] = fails
one_of_regexes (r ∷ []) = r
one_of_regexes (r ∷ rs) = either r (one_of_regexes rs)

abbrev pub optional : Regex → Regex
optional r = either r empty

abbrev pub some_of : Regex → Regex
some_of r = both r (many r)

infixr 60 ◌>>◌
abbrev pub ◌>>◌ : Regex → Regex → Regex
r >> s = both r s

abbrev pub is_digit : ℕ → Bool
is_digit c = within b'0' b'9' c

abbrev pub is_lower : ℕ → Bool
is_lower c = within b'a' b'z' c

abbrev pub is_alnum : ℕ → Bool
is_alnum c = is_digit c || is_lower c || within b'A' b'Z' c
