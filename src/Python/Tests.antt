-- ===== src/Python/Tests.antt =====
-- The methods of the standard library at single inputs.
use echidra_oss.Python.Utf8.Escapes.{
  to_visible, decode_replaced, encode_escaped, encode_replaced, decode_from, escape_bytes,
}
use echidra_oss.Python.Split.{split_on, split_from, split_once}
use echidra_oss.Python.Utf8.{decode_replace, put_bytes}
use echidra_oss.Base.{[], ◌∷◌, none, some, ◌≡◌, refl}
use echidra_oss.Base.Text.{codes}
use echidra_oss.Python.Base64.{b64decode}
use echidra_oss.Python.Shlex.{shlex_split, read_all}
use echidra_oss.Python.Url.{unquote, parse_qsl, decode_runs, percent_from, unquote_plus}

shlex_words :
    shlex_split (codes "cat '/etc/my file' \"a\\\"b\" ''")
    ≡ some (codes "cat" ∷ codes "/etc/my file" ∷ codes "a\"b" ∷ [] ∷ [])
unfolding shlex_split read_all
shlex_words = refl

shlex_open : shlex_split (codes "echo 'a") ≡ none
unfolding shlex_split read_all
shlex_open = refl

unquoted : unquote (codes "/%2e%2E/%zz%C3%A9") ≡ codes "/../%zzé"
unfolding unquote decode_runs decode_replace put_bytes percent_from
unquoted = refl

token : b64decode (codes "YWRtaW46YQ==") ≡ some (codes "admin:a")
unfolding b64decode
token = refl

token_cut : b64decode (codes "YWRtaW46Y=") ≡ none
unfolding b64decode
token_cut = refl

fields :
    parse_qsl (codes "user=a+b&&x&pwd=%41=")
    ≡ (codes "user", codes "a b") ∷ (codes "x", []) ∷ (codes "pwd", codes "A=") ∷ []
unfolding parse_qsl split_on split_from unquote_plus unquote split_once decode_runs decode_replace
    put_bytes percent_from
fields = refl

-- A command with a byte that is no UTF-8.
visible : to_visible (b'a' ∷ 0xDCFF ∷ 0xE9 ∷ []) ≡ b'a' ∷ 92 ∷ b'x' ∷ b'f' ∷ b'f' ∷ 0xE9 ∷ []
unfolding to_visible decode_replaced encode_escaped decode_from escape_bytes
visible = refl

-- An escape of half a character, which is broken off.
cut :
    to_visible (0xDCE2 ∷ 0xDC82 ∷ b'a' ∷ [])
    ≡ 92 ∷ b'x' ∷ b'e' ∷ b'2' ∷ 92 ∷ b'x' ∷ b'8' ∷ b'2' ∷ b'a' ∷ []
unfolding to_visible decode_replaced encode_escaped decode_from escape_bytes
cut = refl

high_surrogate : to_visible (0xD800 ∷ []) ≡ 92 ∷ b'u' ∷ b'd' ∷ b'8' ∷ b'0' ∷ b'0' ∷ []
unfolding to_visible decode_replaced encode_escaped encode_replaced decode_from escape_bytes
high_surrogate = refl
