-- ===== src/Python/Utf8/Escapes.antt =====
-- The UTF-8 codec with the policies "surrogateescape" and "backslashreplace". A text may have lone
-- surrogates; bytes that are not valid UTF-8 come back as `\xNN`.
use echidra_oss.Base.{
  ℕ, ◌+◌, ◌-◌, ◌*◌, ◌/◌, ◌%◌, [], ◌∷◌, ◌++◌, Bool, Option, none, some, if◌then◌else◌, ltb, ◌==◌,
}
use echidra_oss.Base.Text.{Text, within}
use echidra_oss.Python.Utf8.{encode_char, Begun, Lead, whole, begins, wrong, lead_of}

abbrev pub is_surrogate : ℕ → Bool
is_surrogate c = within 0xD800 0xDFFF c

-- `text.encode("utf-8", "surrogateescape")`: a surrogate that stands for a byte is that byte; there
-- is nothing where it raises UnicodeEncodeError.
abbrev pub put_before : Text → Option Text → Option Text
put_before bytes none = none
put_before bytes (some rest) = some (bytes ++ rest)

unfoldable pub encode_escaped : Text → Option Text
encode_escaped [] = some []
encode_escaped (c ∷ s) =
    let rest = encode_escaped s in
    if within 0xDC80 0xDCFF c
    then put_before ((c - 0xDC00) ∷ []) rest
    else if is_surrogate c
    then none
    else put_before (encode_char c) rest

abbrev pub hex_digit : ℕ → ℕ
hex_digit n = if ltb n 10 then 48 + n else 87 + n

-- `\xNN` for a byte, and `\uNNNN` for a surrogate.
abbrev pub escape_byte : ℕ → Text
escape_byte b = 92 ∷ b'x' ∷ hex_digit (b / 16 % 16) ∷ hex_digit (b % 16) ∷ []

abbrev pub escape_surrogate : ℕ → Text
escape_surrogate c =
    92
    ∷ b'u'
    ∷ hex_digit (c / 4096 % 16)
    ∷ hex_digit (c / 256 % 16)
    ∷ hex_digit (c / 16 % 16)
    ∷ hex_digit (c % 16)
    ∷ []

-- `text.encode("utf-8", "backslashreplace")`
unfoldable pub encode_replaced : Text → Text
encode_replaced [] = []
encode_replaced (c ∷ s) =
    (if is_surrogate c then escape_surrogate c else encode_char c) ++ encode_replaced s

unfoldable pub escape_bytes : Text → Text
escape_bytes [] = []
escape_bytes (b ∷ bytes) = escape_byte b ++ escape_bytes bytes

-- A sequence begun, with its bytes.
abbrev pub Pending : Type 0
Pending = Option (Begun × Text)

-- What a byte at the start of a sequence gives.
abbrev pub start_with : ℕ → Lead → Text × Pending
start_with b (whole c) = (c ∷ [], none)
start_with b (begins g) = ([], some (g, b ∷ []))
start_with b wrong = (escape_byte b, none)

abbrev pub after_broken : Text → Text × Pending → Text × Pending
after_broken raw (text, pending) = (escape_bytes raw ++ text, pending)

abbrev pub go_on : ℕ → Begun → Text → Text × Pending
go_on b g raw =
    let value = g.value * 64 + (b - 128) in
    if g.needed == 1 then (value ∷ [], none) else (
      [],
      some (record { needed = g.needed - 1; value = value; low = 128; high = 191 }, raw ++ b ∷ []),
    )

abbrev pub put : ℕ → Pending → Text × Pending
put b none = start_with b (lead_of b)
put b (some (g, raw)) =
    if within g.low g.high b then go_on b g raw else after_broken raw (start_with b (lead_of b))

abbrev pub flush : Pending → Text
flush none = []
flush (some (g, raw)) = escape_bytes raw

unfoldable pub decode_from : Pending → Text → Text
decode_from pending [] = flush pending
decode_from pending (b ∷ bytes) = let p = put b pending in p.0 ++ decode_from p.1 bytes

-- `bytes.decode("utf-8", "backslashreplace")`
unfoldable pub decode_replaced : Text → Text
decode_replaced bytes = decode_from none bytes

abbrev pub or_replaced : Text → Option Text → Text
or_replaced text none = encode_replaced text
or_replaced text (some bytes) = bytes

-- The two attempts to encode a text, and its decoding.
unfoldable pub to_visible : Text → Text
to_visible text = decode_replaced (or_replaced text (encode_escaped text))
