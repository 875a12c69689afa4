-- ===== src/Python/Base64/Encode.antt =====
-- The encoder, and that the decoder undoes it.
use echidra_oss.Base.{
  ℕ, ◌+◌, ◌-◌, ◌*◌, ◌/◌, ◌%◌, ◌<◌, [], ◌∷◌, some, ◌≡◌, refl, arith, All, if◌then◌else◌, ltb, ◌==◌,
  true, nonempty,
}
use echidra_oss.Base.Text.{Text, within}
use echidra_oss.Base.Plain.{IsPlain}
use echidra_oss.Python.Base64.{six, symbol_of, b64decode}

-- The character of six bits.
unfoldable pub character_of : ℕ → ℕ
character_of v =
    if ltb v 26
    then v + 65
    else if ltb v 52
    then v + 71
    else if ltb v 62
    then v - 4
    else if v == 62
    then b'+'
    else b'/'

-- `base64.b64encode`
unfoldable pub b64encode : Text → Text
b64encode [] = []
b64encode (a ∷ []) = character_of (a / 4) ∷ character_of (16 * (a % 4)) ∷ b'=' ∷ b'=' ∷ []
b64encode (a ∷ b ∷ []) =
    character_of (a / 4)
    ∷ character_of (16 * (a % 4) + b / 16)
    ∷ character_of (4 * (b % 16))
    ∷ b'='
    ∷ []
b64encode (a ∷ b ∷ c ∷ s) =
    character_of (a / 4)
    ∷ character_of (16 * (a % 4) + b / 16)
    ∷ character_of (4 * (b % 16) + c / 64)
    ∷ character_of (c % 64)
    ∷ b64encode s

abbrev pub AreBytes : Text → Type 0
AreBytes s = All (λ c. c < 256) s

symbol_of-character : (v : ℕ) → v < 64 → symbol_of (character_of v) ≡ six v
unfolding character_of
symbol_of-character v h = ground arith

character_of-plain : (v : ℕ) → v < 64 → within 33 126 (character_of v) ≡ true
unfolding character_of
character_of-plain v h = ground arith

first : (a b : ℕ) → a < 256 → b < 256 → 4 * (a / 4) + (16 * (a % 4) + b / 16) / 16 ≡ a
first a b h k = omega arith

second :
    (a b c : ℕ)
    → a < 256
    → b < 256
    → c < 256
    → 16 * ((16 * (a % 4) + b / 16) % 16) + (4 * (b % 16) + c / 64) / 4 ≡ b
second a b c h k m = omega arith

third : (b c : ℕ) → b < 256 → c < 256 → 64 * ((4 * (b % 16) + c / 64) % 4) + c % 64 ≡ c
third b c h k = omega arith

pair_second :
    (a b : ℕ) → a < 256 → b < 256 → 16 * ((16 * (a % 4) + b / 16) % 16) + 4 * (b % 16) / 4 ≡ b
pair_second a b h k = omega arith

one : (a : ℕ) → 4 * (a / 4) + 16 * (a % 4) / 16 ≡ a
one a = omega arith

-- Decoding an encoded text of bytes gives the bytes back.
pub b64decode-encode : (s : Text) → AreBytes s → b64decode (b64encode s) ≡ some s
unfolding b64decode b64encode
b64decode-encode [] h = refl
b64decode-encode (a ∷ []) (h, _) =
    rw
      (
        symbol_of-character (a / 4) (omega arith),
        symbol_of-character (16 * (a % 4)) (omega arith),
        one a,
      )
      refl
b64decode-encode (a ∷ b ∷ []) (h, (k, _)) =
    rw
      (
        symbol_of-character (a / 4) (omega arith),
        symbol_of-character (16 * (a % 4) + b / 16) (omega arith),
        symbol_of-character (4 * (b % 16)) (omega arith),
        first a b h k,
        pair_second a b h k,
      )
      refl
b64decode-encode (a ∷ b ∷ c ∷ s) (h, (k, (m, n))) =
    rw
      (
        symbol_of-character (a / 4) (omega arith),
        symbol_of-character (16 * (a % 4) + b / 16) (omega arith),
        symbol_of-character (4 * (b % 16) + c / 64) (omega arith),
        symbol_of-character (c % 64) (omega arith),
        b64decode-encode s n,
        first a b h k,
        second a b c h k m,
        third b c k m,
      )
      refl

pub b64encode-IsPlain : (s : Text) → AreBytes s → IsPlain (b64encode s)
unfolding b64encode
b64encode-IsPlain [] h = tt
b64encode-IsPlain (a ∷ []) (h, _) = (
  character_of-plain (a / 4) (omega arith),
  (character_of-plain (16 * (a % 4)) (omega arith), (refl, (refl, tt))),
)
b64encode-IsPlain (a ∷ b ∷ []) (h, (k, _)) = (
  character_of-plain (a / 4) (omega arith),
  (
    character_of-plain (16 * (a % 4) + b / 16) (omega arith),
    (character_of-plain (4 * (b % 16)) (omega arith), (refl, tt)),
  ),
)
b64encode-IsPlain (a ∷ b ∷ c ∷ s) (h, (k, (m, n))) = (
  character_of-plain (a / 4) (omega arith),
  (
    character_of-plain (16 * (a % 4) + b / 16) (omega arith),
    (
      character_of-plain (4 * (b % 16) + c / 64) (omega arith),
      (character_of-plain (c % 64) (omega arith), b64encode-IsPlain s n),
    ),
  ),
)

pub nonempty-b64encode : (s : Text) → nonempty s ≡ true → nonempty (b64encode s) ≡ true
unfolding b64encode
nonempty-b64encode [] h = h
nonempty-b64encode (a ∷ []) h = refl
nonempty-b64encode (a ∷ b ∷ []) h = refl
nonempty-b64encode (a ∷ b ∷ c ∷ s) h = refl
