-- ===== src/Python/Base64.antt =====
-- `base64.b64decode(token, validate=True)`, as of Python 3.11.
pub mod Encode
use echidra_oss.Base.{ℕ, ◌+◌, ◌-◌, ◌*◌, ◌/◌, ◌%◌, [], ◌∷◌, Option, none, some, if◌then◌else◌, ◌==◌}
use echidra_oss.Base.Text.{Text, within}

-- A character of the token: six bits, padding, or none of the alphabet.
pub data Symbol : Type 0 where
  six : ℕ → Symbol
  pad foreign : Symbol

abbrev pub symbol_of : ℕ → Symbol
symbol_of c =
    if within b'A' b'Z' c
    then six (c - 65)
    else if within b'a' b'z' c
    then six (c - 71)
    else if within b'0' b'9' c
    then six (c + 4)
    else if c == b'+'
    then six 62
    else if c == b'/'
    then six 63
    else if c == b'='
    then pad
    else foreign

abbrev pub three_bytes : ℕ → ℕ → ℕ → ℕ → Option Text → Option Text
three_bytes a b c d none = none
three_bytes a b c d (some rest) =
    some ((4 * a + b / 16) ∷ (16 * (b % 16) + c / 4) ∷ (64 * (c % 4) + d) ∷ rest)

-- Four characters; padding is only at the end of the token.
abbrev pub quad : Symbol → Symbol → Symbol → Symbol → Text → Option Text → Option Text
quad (six a) (six b) (six c) (six d) s rest = three_bytes a b c d rest
quad (six a) (six b) (six c) pad [] rest = some ((4 * a + b / 16) ∷ (16 * (b % 16) + c / 4) ∷ [])
quad (six a) (six b) pad pad [] rest = some ((4 * a + b / 16) ∷ [])
quad _ _ _ _ _ rest = none

-- Nothing where it raises.
unfoldable pub b64decode : Text → Option Text
b64decode [] = some []
b64decode (a ∷ b ∷ c ∷ d ∷ s) =
    let rest = b64decode s in quad (symbol_of a) (symbol_of b) (symbol_of c) (symbol_of d) s rest
b64decode _ = none
