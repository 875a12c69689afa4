-- ===== src/Python/Url.antt =====
-- `urllib.parse`: percent decoding, and the fields of a query.
use echidra_oss.Base.{
  ℕ, zero, suc, ◌+◌, ◌-◌, ◌*◌, List, [], ◌∷◌, ◌++◌, Option, none, some, if◌then◌else◌, any, ltb,
  nonempty, keep, map, ◌==◌,
}
use echidra_oss.Base.Text.{Text, within}
use echidra_oss.Python.Split.{before_first, after_first, split_on}
use echidra_oss.Python.Utf8.{decode_replace}
use mathlib.Core.List.{reverse}

abbrev pub hex_value : ℕ → Option ℕ
hex_value c =
    if within b'0' b'9' c
    then some (c - 48)
    else if within b'a' b'f' c
    then some (c - 87)
    else if within b'A' b'F' c
    then some (c - 55)
    else none

abbrev pub hex_pair : Option ℕ → Option ℕ → Option ℕ
hex_pair (some a) (some b) = some (16 * a + b)
hex_pair _ _ = none

-- The byte that two hexadecimal digits behind a percent sign stand for.
abbrev pub escape_of : Text → Option ℕ
escape_of (c ∷ d ∷ s) = hex_pair (hex_value c) (hex_value d)
escape_of _ = none

abbrev pub unescaped : Option ℕ → Text → Text → Text
unescaped none plain behind = plain
unescaped (some byte) plain behind = byte ∷ behind

-- `unquote_to_bytes`, with the digits still to skip.
unfoldable pub percent_from : ℕ → Text → Text
percent_from skip [] = []
percent_from (suc skip) (c ∷ s) = percent_from skip s
percent_from zero (c ∷ s) =
    let behind = percent_from 2 s in
    let plain = percent_from 0 s in
    if c == b'%' then unescaped (escape_of s) (c ∷ plain) behind else c ∷ plain

-- Each run of ASCII characters is decoded on its own; it is kept in reverse.
unfoldable pub decode_runs : Text → Text → Text
decode_runs run [] = decode_replace (percent_from 0 (reverse run))
decode_runs run (c ∷ s) =
    let longer = decode_runs (c ∷ run) s in
    let rest = decode_runs [] s in
    if ltb c 128 then longer else decode_replace (percent_from 0 (reverse run)) ++ c ∷ rest

-- `unquote(s)`
unfoldable pub unquote : Text → Text
unquote s = if any (λ c. c == b'%') s then decode_runs [] s else s

abbrev pub plus_to_space : ℕ → ℕ
plus_to_space c = if c == b'+' then 32 else c

-- `unquote_plus(s)`
unfoldable pub unquote_plus : Text → Text
unquote_plus s = unquote (map plus_to_space s)

abbrev pub field_of : Text → Text × Text
field_of part = (unquote_plus (before_first b'=' part), unquote_plus (after_first b'=' part))

-- `parse_qsl(query, keep_blank_values=True)`
unfoldable pub parse_qsl : Text → List (Text × Text)
parse_qsl query = map field_of (keep nonempty (split_on b'&' query))
