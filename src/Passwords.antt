-- ===== src/Passwords.antt =====
-- classifier/passwords.py: the rules for dashboard passwords, and their hashes. The derivation of a
-- key, `hashlib.pbkdf2_hmac(...).hex()`, is an argument; it gives nothing where it raises
-- ValueError.
pub mod Checks
mod Tests
use echidra_oss.Base.{
  ℕ, ◌+◌, ◌-◌, ◌*◌, String, List, [], ◌∷◌, ◌++◌, Bool, true, false, not, ◌&&◌, ◌||◌, Option, none,
  some, if◌then◌else◌, any, all, length, ltb, ◌==◌,
}
use echidra_oss.Base.Text.{Text, codes, is_space, text_eq, within, strip}
use echidra_oss.Python.Regex.{is_digit}
use echidra_oss.Python.Split.{split_once}
use echidra_oss.Python.Utf8.{encode}

abbrev pub password_hash_iterations : ℕ
password_hash_iterations = 390000

abbrev pub min_password_length : ℕ
min_password_length = 8

abbrev pub max_password_length : ℕ
max_password_length = 128

abbrev pub is_letter : ℕ → Bool
is_letter c = within b'A' b'Z' c || within b'a' b'z' c

-- The first digits of the runs of ten that `\d` matches: Unicode's decimal digits.
abbrev pub decimal_zeros : List ℕ
decimal_zeros =
    0x30 ∷ 0x660 ∷ 0x6F0 ∷ 0x7C0 ∷ 0x966 ∷ 0x9E6 ∷ 0xA66 ∷ 0xAE6 ∷ 0xB66 ∷ 0xBE6 ∷ 0xC66 ∷ 0xCE6
    ∷ 0xD66 ∷ 0xDE6 ∷ 0xE50 ∷ 0xED0 ∷ 0xF20 ∷ 0x1040 ∷ 0x1090 ∷ 0x17E0 ∷ 0x1810 ∷ 0x1946 ∷ 0x19D0
    ∷ 0x1A80 ∷ 0x1A90 ∷ 0x1B50 ∷ 0x1BB0 ∷ 0x1C40 ∷ 0x1C50 ∷ 0xA620 ∷ 0xA8D0 ∷ 0xA900 ∷ 0xA9D0
    ∷ 0xA9F0 ∷ 0xAA50 ∷ 0xABF0 ∷ 0xFF10 ∷ 0x104A0 ∷ 0x10D30 ∷ 0x11066 ∷ 0x110F0 ∷ 0x11136 ∷ 0x111D0
    ∷ 0x112F0 ∷ 0x11450 ∷ 0x114D0 ∷ 0x11650 ∷ 0x116C0 ∷ 0x11730 ∷ 0x118E0 ∷ 0x11950 ∷ 0x11C50
    ∷ 0x11D50 ∷ 0x11DA0 ∷ 0x11F50 ∷ 0x16A60 ∷ 0x16AC0 ∷ 0x16B50 ∷ 0x1D7CE ∷ 0x1D7D8 ∷ 0x1D7E2
    ∷ 0x1D7EC ∷ 0x1D7F6 ∷ 0x1E140 ∷ 0x1E2F0 ∷ 0x1E4F0 ∷ 0x1E950 ∷ 0x1FBF0 ∷ []

abbrev pub is_decimal : ℕ → Bool
is_decimal c = any (λ zero_digit. within zero_digit (zero_digit + 9) c) decimal_zeros

-- `validate_password_format`: the message of the ValueError, or nothing.
unfoldable pub validate_password_format : Text → Option String
validate_password_format value =
    if ltb (length value) min_password_length
    then some "Password must be at least 8 characters."
    else if ltb max_password_length (length value)
    then some "Password must be at most 128 characters."
    else if any is_space value
    then some "Password must not contain spaces."
    else if not (any is_letter value)
    then some "Password must contain a letter."
    else if not (any is_decimal value)
    then some "Password must contain a number."
    else none

-- The derivation of a key: of the password, the salt and the number of iterations.
abbrev pub Derive : Type 0
Derive = Text → Text → ℕ → Option Text

abbrev pub stored_with : Text → Option Text → Option Text
stored_with salt none = none
stored_with salt (some digest) = some (codes "pbkdf2_sha256$390000$" ++ salt ++ b'$' ∷ digest)

-- `hash_password`, with the fresh salt.
unfoldable pub hash_password : Derive → Text → Text → Option Text
hash_password derive salt password =
    stored_with salt (derive (encode password) (encode salt) password_hash_iterations)

-- A stored hash: the algorithm, the iterations, the salt and the digest.
pub record Stored : Type 0 where
  pub algorithm : Text
  pub iterations : Text
  pub salt : Text
  pub digest : Text

abbrev pub with_digest : Text → Text → Option (Text × Text) → Option Stored
with_digest algorithm iterations none = none
with_digest algorithm iterations (some (salt, digest)) =
    some (record { algorithm = algorithm; iterations = iterations; salt = salt; digest = digest })

abbrev pub with_salt : Text → Option (Text × Text) → Option Stored
with_salt algorithm none = none
with_salt algorithm (some (iterations, rest)) =
    with_digest algorithm iterations (split_once b'$' rest)

abbrev pub with_iterations : Option (Text × Text) → Option Stored
with_iterations none = none
with_iterations (some (algorithm, rest)) = with_salt algorithm (split_once b'$' rest)

-- `password_hash.split("$", 3)`, where it has four parts.
unfoldable pub stored_of : Text → Option Stored
stored_of password_hash = with_iterations (split_once b'$' password_hash)

-- The digits of a number, with its value so far and whether the last character was a digit; one
-- underscore may stand between digits.
unfoldable pub digits_from : ℕ → Bool → Text → Option ℕ
digits_from value seen [] = if seen then some value else none
digits_from value seen (c ∷ s) =
    let longer = digits_from (10 * value + (c - 48)) true s in
    let apart = digits_from value false s in
    if is_digit c then longer else if c == b'_' && seen then apart else none

abbrev pub without_plus : Text → Text
without_plus [] = []
without_plus (c ∷ s) = if c == b'+' then s else c ∷ s

-- `int(text)`; nothing where it raises, and for a negative number, which no derivation takes.
unfoldable pub int_of : Text → Option ℕ
int_of text = digits_from 0 false (without_plus (strip text))

-- What a check says: the password is right, or wrong, or a TypeError is raised.
pub data Verdict : Type 0 where
  right wrong type_error : Verdict

abbrev pub is_ascii : Text → Bool
is_ascii s = all (λ c. ltb c 128) s

-- `hmac.compare_digest`, of texts.
abbrev pub compare_digest : Text → Text → Verdict
compare_digest a b =
    if is_ascii a && is_ascii b then (if text_eq a b then right else wrong) else type_error

abbrev pub compare_candidate : Option Text → Text → Verdict
compare_candidate none digest = wrong
compare_candidate (some candidate) digest = compare_digest candidate digest

abbrev pub verify_iterations : Derive → Text → Stored → Option ℕ → Verdict
verify_iterations derive password s none = wrong
verify_iterations derive password s (some iterations) =
    compare_candidate (derive (encode password) (encode s.salt) iterations) s.digest

abbrev pub verify_stored : Derive → Text → Option Stored → Verdict
verify_stored derive password none = wrong
verify_stored derive password (some s) =
    if text_eq s.algorithm (codes "pbkdf2_sha256")
    then verify_iterations derive password s (int_of s.iterations)
    else wrong

-- `verify_password`
unfoldable pub verify_password : Derive → Text → Text → Verdict
verify_password derive password password_hash =
    verify_stored derive password (stored_of password_hash)
