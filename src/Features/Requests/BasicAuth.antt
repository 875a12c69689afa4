-- ===== src/Features/Requests/BasicAuth.antt =====
-- The pair that a client puts into an Authorization header is the pair that the features have.
use echidra_oss.Base.{[], ◌∷◌, ◌++◌, some, ◌≡◌, refl, arith, All-map, ltb→lt, true, nonempty}
use echidra_oss.Base.Text.{Text, codes, strip, is_space}
use echidra_oss.Base.Plain.{IsPlain, strip-plain, rstrip_by-plain_end}
use echidra_oss.Features.Requests.{basic_auth_pair, has_colon, decoded_token}
use echidra_oss.Python.Base64.{b64decode}
use echidra_oss.Python.Base64.Encode.{
  AreBytes, b64encode, b64decode-encode, b64encode-IsPlain, nonempty-b64encode,
}
use echidra_oss.Python.Split.{lower, split_once}
use echidra_oss.Python.Utf8.Ascii.{IsAscii, decode_ascii}

strip-basic :
    (t : Text) → IsPlain t → nonempty t ≡ true → strip (codes " Basic " ++ t) ≡ codes "Basic " ++ t
unfolding is_space
strip-basic t h k = rstrip_by-plain_end (codes "Basic ") t h k

IsAscii-AreBytes : (s : Text) → IsAscii s → AreBytes s
IsAscii-AreBytes s h = All-map s (λ c p. omega (arith, ltb→lt c 128 p)) h

nonempty_of_colon : (s : Text) → has_colon s ≡ true → nonempty s ≡ true
nonempty_of_colon [] h = h
nonempty_of_colon (c ∷ s) h = refl

basic_auth_pair-token :
    (t : Text)
    → IsPlain t
    → nonempty t ≡ true
    → basic_auth_pair (codes " Basic " ++ t) ≡ decoded_token (b64decode t)
unfolding basic_auth_pair split_once
basic_auth_pair-token t h k = rw (strip-basic t h k, strip-plain t h, k) refl

-- If a header has the scheme Basic and the base64 token of an ASCII text with a colon, the pair
-- found is that text in small letters.
pub basic_auth_pair-encode :
    (pair : Text)
    → IsAscii pair
    → has_colon pair ≡ true
    → basic_auth_pair (codes " Basic " ++ b64encode pair) ≡ some (lower pair)
basic_auth_pair-encode pair h colon =
    let bytes = IsAscii-AreBytes pair h in
    rw
      (
        basic_auth_pair-token (b64encode pair) (b64encode-IsPlain pair bytes)
            (nonempty-b64encode pair (nonempty_of_colon pair colon)),
        b64decode-encode pair bytes,
        decode_ascii pair h,
        colon,
      )
      refl
