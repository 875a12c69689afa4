-- ===== src/Python/Utf8.antt =====
-- The UTF-8 codec: encoding, and decoding with the policies "replace", "ignore" and "strict".
pub mod Ascii
pub mod Escapes
pub mod Visible
use echidra_oss.Base.{
  ℕ, ◌+◌, ◌-◌, ◌*◌, ◌/◌, ◌%◌, [], ◌∷◌, ◌++◌, Bool, true, false, Option, none, some, if◌then◌else◌,
  ltb, ◌==◌,
}
use echidra_oss.Base.Text.{Text, within}

-- The bytes of a character.
abbrev pub encode_char : ℕ → Text
encode_char c =
    if ltb c 128
    then c ∷ []
    else if ltb c 2048
    then (192 + c / 64) ∷ (128 + c % 64) ∷ []
    else if ltb c 65536
    then (224 + c / 4096) ∷ (128 + c / 64 % 64) ∷ (128 + c % 64) ∷ []
    else (240 + c / 262144) ∷ (128 + c / 4096 % 64) ∷ (128 + c / 64 % 64) ∷ (128 + c % 64) ∷ []

unfoldable pub encode : Text → Text
encode [] = []
encode (c ∷ s) = encode_char c ++ encode s

-- A sequence begun: the bytes that it still needs, its value so far, and the range of the next
-- byte.
pub record Begun : Type 0 where
  pub needed : ℕ
  pub value : ℕ
  pub low : ℕ
  pub high : ℕ

-- What a byte at the start of a sequence is: a character, a sequence, or no start at all.
pub data Lead : Type 0 where
  whole : ℕ → Lead
  begins : Begun → Lead
  wrong : Lead

abbrev pub lead_of : ℕ → Lead
lead_of b =
    if ltb b 128
    then whole b
    else if within 194 223 b
    then begins (record { needed = 1; value = b - 192; low = 128; high = 191 })
    else if b == 224
    then begins (record { needed = 2; value = 0; low = 160; high = 191 })
    else if b == 237
    then begins (record { needed = 2; value = 13; low = 128; high = 159 })
    else if within 225 239 b
    then begins (record { needed = 2; value = b - 224; low = 128; high = 191 })
    else if b == 240
    then begins (record { needed = 3; value = 0; low = 144; high = 191 })
    else if within 241 243 b
    then begins (record { needed = 3; value = b - 240; low = 128; high = 191 })
    else if b == 244
    then begins (record { needed = 3; value = 4; low = 128; high = 143 })
    else wrong

-- The decoder: the characters so far, the sequence begun, and whether a byte was wrong.
pub record Decoder : Type 0 where
  pub text : Text
  pub begun : Option Begun
  pub bad : Bool

abbrev pub new_decoder : Decoder
new_decoder = record { text = []; begun = none; bad = false }

-- What a policy puts for wrong bytes.
abbrev pub replacement : Text
replacement = 0xFFFD ∷ []

abbrev pub put_lead : Text → Lead → Decoder → Decoder
put_lead mark (whole c) d = record { text = d.text ++ c ∷ []; begun = none; bad = d.bad }
put_lead mark (begins g) d = record { text = d.text; begun = some g; bad = d.bad }
put_lead mark wrong d = record { text = d.text ++ mark; begun = none; bad = true }

abbrev pub continue_with : ℕ → Begun → Decoder → Decoder
continue_with b g d =
    let value = g.value * 64 + (b - 128) in
    if g.needed == 1
    then record { text = d.text ++ value ∷ []; begun = none; bad = d.bad }
    else record {
      text = d.text;
      begun = some (record { needed = g.needed - 1; value = value; low = 128; high = 191 });
      bad = d.bad;
    }

abbrev pub break_off : Text → Decoder → Decoder
break_off mark d = record { text = d.text ++ mark; begun = none; bad = true }

-- One byte: it goes on with the sequence begun, or ends it as wrong and starts anew.
abbrev pub put_byte : Text → ℕ → Option Begun → Decoder → Decoder
put_byte mark b none d = put_lead mark (lead_of b) d
put_byte mark b (some g) d =
    if within g.low g.high b
    then continue_with b g d
    else put_lead mark (lead_of b) (break_off mark d)

unfoldable pub put_bytes : Text → Text → Decoder → Decoder
put_bytes mark [] d = d
put_bytes mark (b ∷ bytes) d = put_bytes mark bytes (put_byte mark b d.begun d)

abbrev pub end_bytes : Text → Option Begun → Decoder → Decoder
end_bytes mark none d = d
end_bytes mark (some g) d = break_off mark d

abbrev pub decoded : Text → Text → Decoder
decoded mark bytes = let d = put_bytes mark bytes new_decoder in end_bytes mark d.begun d

-- `bytes.decode("utf-8", "replace")`
unfoldable pub decode_replace : Text → Text
decode_replace bytes = (decoded replacement bytes).text

-- `bytes.decode("utf-8", "ignore")`
unfoldable pub decode_ignore : Text → Text
decode_ignore bytes = (decoded [] bytes).text

-- `bytes.decode("utf-8")`; nothing where it raises UnicodeDecodeError.
unfoldable pub decode : Text → Option Text
decode bytes = let d = decoded [] bytes in if d.bad then none else some d.text
