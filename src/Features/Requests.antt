-- ===== src/Features/Requests.antt =====
-- classifier/features/session.py: what one logged line says, by the helpers of the extraction.
pub mod BasicAuth
pub mod SensitivePath
use echidra_oss.Base.{
  String, List, [], ◌∷◌, ◌++◌, Bool, false, not, ◌||◌, Option, none, some, if◌then◌else◌, nonempty,
  any, ◌==◌, ◌&&◌,
}
use echidra_oss.Base.Text.{Text, codes, text_eq, starts_with, rstrip_by, strip}
use echidra_oss.Features.Patterns.{
  http_username_field_names, http_password_field_names, http_probe_targets,
  sensitive_path_marker_pattern,
}
use echidra_oss.Python.Base64.{b64decode}
use echidra_oss.Python.Regex.{search_in}
use echidra_oss.Python.Shlex.{shlex_split}
use echidra_oss.Python.Split.{lower, split_words, before_first, after_first}
use echidra_oss.Python.Url.{unquote, parse_qsl}
use echidra_oss.Python.Utf8.{decode}

-- The words of a line, also of one that `shlex` refuses.
abbrev pub words_or : Text → Option (List Text) → List Text
words_or raw_command none = split_words raw_command
words_or raw_command (some words) = words

abbrev pub name_and_args : List Text → Text × List Text
name_and_args [] = ([], [])
name_and_args (name ∷ args) = (lower name, args)

-- `_parse_command`
unfoldable pub parse_command : Text → Text × List Text
parse_command raw_command = name_and_args (words_or raw_command (shlex_split raw_command))

abbrev pub ends_with_colon : Text → Bool
ends_with_colon [] = false
ends_with_colon (c ∷ []) = c == b':'
ends_with_colon (c ∷ s) = ends_with_colon s

-- `_http_request_target`: a line without a space has an empty second part here.
unfoldable pub http_request_target : Text → Option Text
http_request_target line =
    let method = before_first 32 line in
    let target = before_first 32 (after_first 32 line) in
    if not (nonempty target)
    then none
    else if text_eq (lower method) (codes "post") && ends_with_colon target
    then none
    else some target

-- The loop over the products.
unfoldable pub product_of : Text → List (String × String) → Option Text
product_of path [] = none
product_of path ((prefix, product) ∷ targets) =
    if text_eq path (codes prefix) || starts_with path (codes prefix ++ b'/' ∷ [])
    then some (codes product)
    else product_of path targets

-- `_http_probe_target`
unfoldable pub http_probe_target : Text → Option Text
http_probe_target target =
    product_of (rstrip_by (λ c. c == b'/') (lower (unquote (before_first b'?' target))))
      http_probe_targets

abbrev pub has_colon : Text → Bool
has_colon s = any (λ c. c == b':') s

abbrev pub lowered_pair : Option Text → Option Text
lowered_pair none = none
lowered_pair (some decoded) = if has_colon decoded then some (lower decoded) else none

abbrev pub decoded_token : Option Text → Option Text
decoded_token none = none
decoded_token (some bytes) = lowered_pair (decode bytes)

-- `_basic_auth_pair`
unfoldable pub basic_auth_pair : Text → Option Text
basic_auth_pair header_value =
    let value = strip header_value in
    let token = strip (after_first 32 value) in
    if not (text_eq (lower (before_first 32 value)) (codes "basic")) || not (nonempty token)
    then none
    else decoded_token (b64decode token)

-- `fields.get(name)`: of the fields with one name the last counts; none and a blank one are alike.
unfoldable pub field_value : Text → List (Text × Text) → Text
field_value name [] = []
field_value name ((key, value) ∷ fields) =
    let later = field_value name fields in
    let there = any (λ field. text_eq (lower field.0) name) fields in
    if there then later else if text_eq (lower key) name then value else []

-- The first of the names whose field is not blank.
unfoldable pub first_value : List (Text × Text) → List String → Text
first_value fields [] = []
first_value fields (name ∷ names) =
    let value = field_value (codes name) fields in
    if nonempty value then value else first_value fields names

-- `f"{user.lower()}:{password.lower()}"`
abbrev pub pair_text : Text → Text → Text
pair_text user password = user ++ b':' ∷ password

-- `_extract_http_credential_pair`
unfoldable pub extract_http_credential_pair : Text → Option Text
extract_http_credential_pair body =
    let fields = parse_qsl body in
    let user = first_value fields http_username_field_names in
    let password = first_value fields http_password_field_names in
    if nonempty user && nonempty password
    then some (pair_text (lower user) (lower password))
    else none

-- `_is_sensitive_path`
unfoldable pub is_sensitive_path : Text → Bool
is_sensitive_path path = search_in sensitive_path_marker_pattern (lower path)
