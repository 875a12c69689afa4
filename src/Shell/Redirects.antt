-- ===== src/Shell/Redirects.antt =====
-- honeypot/core/engine.py: redirects are taken out of a simple command.
use echidra_oss.Base.{
  ℕ, zero, suc, ◌+◌, List, [], ◌∷◌, Bool, true, false, ◌&&◌, ◌||◌, Option, none, some,
  if◌then◌else◌, nonempty, all, ◌==◌, ◌++◌,
}
use echidra_oss.Base.Text.{Text, codes, strip, text_eq, is_space, drop_text}
use echidra_oss.Python.Regex.{is_digit}
use echidra_oss.Python.Shlex.{shlex_split}
use echidra_oss.Shell.Split.{Mode, bare, single, double, escaped_bare, escaped_double}

-- The stream, whether it is appended to, and the target.
pub record Redirect : Type 0 where
  pub stream : Text
  pub append : Bool
  pub target : Text

-- A command without its redirects, and these; or nothing, where a redirect has no target.
abbrev pub Redirected : Type 0
Redirected = Option (Text × List Redirect)

abbrev pub is_blank : ℕ → Bool
is_blank c = c == 32 || c == 9

-- The pieces of a command: a character each, or a backslash with the character that it escapes
-- outside quotes. The last piece stands first.
abbrev pub Pieces : Type 0
Pieces = List Text

-- `"".join(pieces)`
unfoldable pub joined : Pieces → Text
joined [] = []
joined (piece ∷ pieces) = joined pieces ++ piece

abbrev pub is_space_piece : Text → Bool
is_space_piece piece = all is_space piece

-- The pieces of the last word, and those before it.
unfoldable pub last_word : Pieces → Pieces × Pieces
last_word [] = ([], [])
last_word (piece ∷ pieces) =
    let earlier = last_word pieces in
    if is_space_piece piece then ([], piece ∷ pieces) else (piece ∷ earlier.0, earlier.1)

-- `word.isdigit()`
abbrev pub is_number : Text → Bool
is_number word = nonempty word && all is_digit word

abbrev pub names_stream : Text → Bool
names_stream word = is_number word || text_eq word (codes "&")

-- The length of the target at the start of a text: up to white space or another redirect outside
-- quotes. A backslash takes the next character with it, also one that is not there.
unfoldable pub target_length : Mode → Text → ℕ
target_length mode [] = zero
target_length single (c ∷ s) =
    let inside = target_length single s in
    let behind = target_length bare s in if c == 39 then suc behind else suc inside
target_length double (c ∷ s) =
    let inside = target_length double s in
    let escaped = target_length escaped_double s in
    let behind = target_length bare s in
    if c == 92 then suc escaped else if c == 34 then suc behind else suc inside
target_length escaped_bare (c ∷ s) = suc (target_length bare s)
target_length escaped_double (c ∷ s) = suc (target_length double s)
target_length bare (c ∷ s) =
    let in_single = target_length single s in
    let in_double = target_length double s in
    let escaped = target_length escaped_bare s in
    let longer = target_length bare s in
    if c == 39
    then suc in_single
    else if c == 34
    then suc in_double
    else if c == 92
    then suc escaped
    else if is_space c || c == b'<' || c == b'>'
    then zero
    else suc longer

abbrev pub take_text : ℕ → Text → Text
take_text zero s = []
take_text (suc n) [] = []
take_text (suc n) (c ∷ s) = c ∷ take_text n s

abbrev pub target_of : Text → Option (List Text) → Text
target_of raw (some (word ∷ [])) = word
target_of raw _ = raw

-- What is written behind a `>`: how many characters belong to the sign, and what they say.
pub record Sign : Type 0 where
  pub size : ℕ
  pub append : Bool
  pub duplicate : Bool

abbrev pub sign_of : Text → Sign
sign_of [] = record { size = 0; append = false; duplicate = false }
sign_of (c ∷ s) =
    if c == b'>'
    then record { size = 1; append = true; duplicate = false }
    else if c == b'&'
    then record { size = 1; append = false; duplicate = true }
    else if c == b'|'
    then record { size = 1; append = false; duplicate = false }
    else record { size = 0; append = false; duplicate = false }

-- `>& file` is `&> file`, and `2>&1` has the target `&1`.
abbrev pub redirect_of : Text → Sign → Text → Redirect
redirect_of stream sign target =
    if sign.duplicate
    then (if is_number target || text_eq target (codes "-")
        then record { stream = stream; append = sign.append; target = b'&' ∷ target }
        else record { stream = b'&' ∷ []; append = sign.append; target = target })
    else record { stream = stream; append = sign.append; target = target }

abbrev pub with_redirect : Redirect → Redirected → Redirected
with_redirect redirect none = none
with_redirect redirect (some (command, redirects)) = some (command, redirect ∷ redirects)

abbrev pub stream_of : Text → Text
stream_of word = if names_stream word then word else b'1' ∷ []

abbrev pub kept_of : Pieces → Pieces × Pieces → Pieces
kept_of pieces (word, before) = if names_stream (joined word) then before else pieces

-- The blanks at the start of a text.
abbrev pub blanks : Text → ℕ
blanks [] = zero
blanks (c ∷ s) = if is_blank c then suc (blanks s) else zero

-- At a `>`: the rest of the line behind it, and what the scanner makes of it from a number of
-- characters on, with the pieces that are kept.
abbrev pub at_redirect : Pieces → Text → (ℕ → Pieces → Redirected) → Redirected
at_redirect pieces line behind =
    let sign = sign_of line in
    let start = sign.size + blanks (drop_text sign.size line) in
    let size = target_length bare (drop_text start line) in
    let raw = take_text size (drop_text start line) in
    let named = last_word pieces in
    let redirect =
      redirect_of (stream_of (joined named.0)) sign (target_of raw (shlex_split raw)) in
    if nonempty raw
    then with_redirect redirect (behind (start + size) (kept_of pieces named))
    else none

-- The command at the end of the line; a backslash there escapes nothing.
abbrev pub end_command : Mode → Pieces → Redirected
end_command escaped_bare pieces = some (strip (joined pieces ++ 92 ∷ []), [])
end_command mode pieces = some (strip (joined pieces), [])

-- The loop, with the characters of a redirect still to skip and the pieces of the command so far.
unfoldable pub redirects_from : ℕ → Mode → Pieces → Text → Redirected
redirects_from skip mode pieces [] = end_command mode pieces
redirects_from (suc skip) mode pieces (c ∷ line) = redirects_from skip mode pieces line
redirects_from zero single pieces (c ∷ line) =
    let inside = redirects_from zero single ((c ∷ []) ∷ pieces) line in
    let behind = redirects_from zero bare ((c ∷ []) ∷ pieces) line in
    if c == 39 then behind else inside
redirects_from zero double pieces (c ∷ line) =
    let inside = redirects_from zero double ((c ∷ []) ∷ pieces) line in
    let escaped = redirects_from zero escaped_double ((c ∷ []) ∷ pieces) line in
    let behind = redirects_from zero bare ((c ∷ []) ∷ pieces) line in
    if c == 92 then escaped else if c == 34 then behind else inside
redirects_from zero escaped_bare pieces (c ∷ line) =
    redirects_from zero bare ((92 ∷ c ∷ []) ∷ pieces) line
redirects_from zero escaped_double pieces (c ∷ line) =
    redirects_from zero double ((c ∷ []) ∷ pieces) line
redirects_from zero bare pieces (c ∷ line) =
    let in_single = redirects_from zero single ((c ∷ []) ∷ pieces) line in
    let in_double = redirects_from zero double ((c ∷ []) ∷ pieces) line in
    let escaped = redirects_from zero escaped_bare pieces line in
    let longer = redirects_from zero bare ((c ∷ []) ∷ pieces) line in
    let behind : ℕ → Pieces → Redirected = λ skip kept. redirects_from skip bare kept line in
    if c == 39
    then in_single
    else if c == 34
    then in_double
    else if c == 92
    then escaped
    else if c == b'>'
    then at_redirect pieces line behind
    else longer

-- `_split_redirects`
unfoldable pub split_redirects : Text → Redirected
split_redirects command = redirects_from zero bare [] command
