-- ===== src/Python/Shlex.antt =====
-- `shlex.split`, which reads a line the way a POSIX shell reads words.
pub mod Words
use echidra_oss.Base.{
  ℕ, List, [], ◌∷◌, ◌++◌, Bool, true, false, ◌||◌, Option, none, some, if◌then◌else◌, nonempty,
  ◌==◌,
}
use echidra_oss.Base.Text.{Text}
use mathlib.Core.List.{reverse}

-- Where the reader stands: between words, in a word, in a quoted part, or behind a backslash in a
-- word or in a double-quoted part.
pub data Mode : Type 0 where
  between within_word within_single within_double escaped_word escaped_double : Mode

pub data Class : Type 0 where
  blank single double backslash other : Class

abbrev pub class_of : ℕ → Class
class_of c =
    if c == 32 || c == 9 || c == 13 || c == 10
    then blank
    else if c == 39
    then single
    else if c == 34
    then double
    else if c == 92
    then backslash
    else other

-- The words done, the word begun in reverse, and whether a part of it was quoted.
pub record Reader : Type 0 where
  pub mode : Mode
  pub words : List Text
  pub word : Text
  pub quoted : Bool

abbrev pub new_reader : Reader
new_reader = record { mode = between; words = []; word = []; quoted = false }

abbrev pub end_word : Reader → Reader
end_word r =
    if nonempty r.word || r.quoted
    then record {
      mode = between;
      words = r.words ++ reverse r.word ∷ [];
      word = [];
      quoted = false;
    }
    else record r { mode = between }

abbrev pub add_char : ℕ → Mode → Reader → Reader
add_char c mode r = record r { mode = mode; word = c ∷ r.word }

-- One character, by the mode and the class of the character.
abbrev pub read_char : Mode → Class → ℕ → Reader → Reader
read_char between blank c r = end_word r
read_char between single c r = record r { mode = within_single; quoted = true }
read_char between double c r = record r { mode = within_double; quoted = true }
read_char between backslash c r = record r { mode = escaped_word }
read_char between other c r = add_char c within_word r
read_char within_word blank c r = end_word r
read_char within_word single c r = record r { mode = within_single; quoted = true }
read_char within_word double c r = record r { mode = within_double; quoted = true }
read_char within_word backslash c r = record r { mode = escaped_word }
read_char within_word other c r = add_char c within_word r
read_char within_single single c r = record r { mode = within_word }
read_char within_single _ c r = add_char c within_single r
read_char within_double double c r = record r { mode = within_word }
read_char within_double backslash c r = record r { mode = escaped_double }
read_char within_double _ c r = add_char c within_double r
read_char escaped_word _ c r = add_char c within_word r
read_char escaped_double double c r = add_char c within_double r
read_char escaped_double backslash c r = add_char c within_double r
read_char escaped_double _ c r = record r { mode = within_double; word = c ∷ 92 ∷ r.word }

unfoldable pub read_all : Text → Reader → Reader
read_all [] r = r
read_all (c ∷ s) r = read_all s (read_char r.mode (class_of c) c r)

-- At the end of the line a quotation or an escape must not be open.
abbrev pub end_line : Mode → Reader → Option (List Text)
end_line between r = some r.words
end_line within_word r = some (end_word r).words
end_line _ r = none

-- `shlex.split(s)`; nothing where it raises ValueError.
unfoldable pub shlex_split : Text → Option (List Text)
shlex_split s = let r = read_all s new_reader in end_line r.mode r
