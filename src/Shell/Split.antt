-- ===== src/Shell/Split.antt =====
-- honeypot/core/engine.py: a line is split at separators that stand outside quotes.
use echidra_oss.Base.{
  ℕ, zero, suc, ◌-◌, List, [], ◌∷◌, not, ◌||◌, Option, none, some, if◌then◌else◌, nonempty, length,
  ◌==◌,
}
use echidra_oss.Base.Text.{Text, codes, starts_with, strip, text_eq}
use mathlib.Core.List.{reverse}

-- The parts of a line, each with the separator before it; or the token of a syntax error.
pub data Split : Type 0 where
  parts : List (Text × Text) → Split
  bad : Text → Split

abbrev pub part_before : Text × Text → Split → Split
part_before part (parts later) = parts (part ∷ later)
part_before part (bad token) = bad token

-- Where the scanner stands: outside quotes, in single or double quotes, or behind a backslash.
-- A backslash at the end of the line escapes nothing.
pub data Mode : Type 0 where
  bare single double escaped_bare escaped_double : Mode

-- `next((sep for sep in separators if line.startswith(sep, index)), None)`
abbrev pub first_separator : List Text → Text → Option Text
first_separator [] line = none
first_separator (sep ∷ separators) line =
    if starts_with line sep then some sep else first_separator separators line

-- At a separator, given what the rest of the line comes to behind it; or at another character.
abbrev pub at_separator : Option Text → Text → Text → (Text → Split) → Split → Split
at_separator none operator text behind longer = longer
at_separator (some sep) operator text behind longer =
    if not (nonempty text) || text_eq sep (codes ";;")
    then bad sep
    else part_before (operator, text) (behind sep)

abbrev pub last_part : Text → Text → Split
last_part operator text = if nonempty text then parts ((operator, text) ∷ []) else parts []

-- The loop, with the characters of a separator still to skip, the separator before the part that
-- was begun, and that part in reverse.
unfoldable pub split_from : List Text → ℕ → Mode → Text → Text → Text → Split
split_from separators skip mode operator current [] = last_part operator (strip (reverse current))
split_from separators (suc skip) mode operator current (c ∷ line) =
    split_from separators skip mode operator current line
split_from separators zero single operator current (c ∷ line) =
    let inside = split_from separators zero single operator (c ∷ current) line in
    let behind = split_from separators zero bare operator (c ∷ current) line in
    if c == 39 then behind else inside
split_from separators zero double operator current (c ∷ line) =
    let inside = split_from separators zero double operator (c ∷ current) line in
    let escaped = split_from separators zero escaped_double operator (c ∷ current) line in
    let behind = split_from separators zero bare operator (c ∷ current) line in
    if c == 92 then escaped else if c == 34 then behind else inside
split_from separators zero escaped_bare operator current (c ∷ line) =
    split_from separators zero bare operator (c ∷ current) line
split_from separators zero escaped_double operator current (c ∷ line) =
    split_from separators zero double operator (c ∷ current) line
split_from separators zero bare operator current (c ∷ line) =
    let in_single = split_from separators zero single operator (c ∷ current) line in
    let in_double = split_from separators zero double operator (c ∷ current) line in
    let escaped = split_from separators zero escaped_bare operator (c ∷ current) line in
    let longer = split_from separators zero bare operator (c ∷ current) line in
    let next : Text → Split = λ sep. split_from separators (length sep - 1) bare sep [] line in
    if c == 39
    then in_single
    else if c == 34
    then in_double
    else if c == 92
    then escaped
    else at_separator (first_separator separators (c ∷ line)) operator (strip (reverse current))
        next longer

-- `_split_unquoted`
unfoldable pub split_unquoted : Text → List Text → Split
split_unquoted line separators = split_from separators zero bare [] [] line

-- `_LIST_SEPARATORS`
abbrev pub list_separators : List Text
list_separators = codes "&&" ∷ codes "||" ∷ codes ";;" ∷ codes ";" ∷ []
