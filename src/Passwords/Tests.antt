-- ===== src/Passwords/Tests.antt =====
-- Passwords and hashes at single inputs.
use echidra_oss.Python.Split.{split_once}
use echidra_oss.Python.Utf8.{encode}
use echidra_oss.Base.{◌++◌, none, some, ◌≡◌, refl, [], ◌∷◌}
use echidra_oss.Base.Text.{Text, codes, is_space}
use echidra_oss.Passwords.{
  Derive, right, wrong, hash_password, verify_password, validate_password_format, int_of,
  digits_from, stored_of,
}
use echidra_oss.Passwords.Checks.{Fits, verify_password-hash, verify_password-Fits}

-- A derivation that just copies what it is given.
abbrev copy : Derive
copy password salt n = some (salt ++ password)

underscores : int_of (codes " 390_000 ") ≡ some 390000
unfolding int_of digits_from is_space
underscores = refl

doubled : int_of (codes "39__0") ≡ none
unfolding int_of digits_from is_space
doubled = refl

short_hash : verify_password copy (codes "pass1word") (codes "pbkdf2_sha256$1$ab") ≡ wrong
unfolding verify_password stored_of split_once
short_hash = refl

abbrev own_hash : Text
own_hash = codes "pbkdf2_sha256$390000$0a1b$0a1bpass1word"

derived :
    copy (encode (codes "pass1word")) (encode (codes "0a1b")) 390000 ≡ some (codes "0a1bpass1word")
unfolding encode
derived = refl

hashed : hash_password copy (codes "0a1b") (codes "pass1word") ≡ some own_hash
unfolding hash_password encode
hashed = refl

own_hash_right : verify_password copy (codes "pass1word") own_hash ≡ right
unfolding verify_password stored_of split_once int_of digits_from is_space encode
own_hash_right = refl

verify_password-hash_example : verify_password copy (codes "pass1word") own_hash ≡ right
verify_password-hash_example =
    verify_password-hash copy (codes "0a1b") (codes "pass1word") (codes "0a1bpass1word") own_hash
      refl refl derived hashed

verify_password-Fits_example : Fits copy (codes "pass1word") own_hash
verify_password-Fits_example = verify_password-Fits copy (codes "pass1word") own_hash own_hash_right

-- An Arabic-Indic digit counts as a number.
unicode_digit : validate_password_format (codes "password" ++ 0x663 ∷ []) ≡ none
unfolding validate_password_format is_space
unicode_digit = refl
