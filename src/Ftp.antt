-- ===== src/Ftp.antt =====
-- honeypot/network/ftp_handler.py: the fake FTP login.
pub mod Bounds
pub mod Login
mod Tests
use echidra_oss.Base.{
  ℕ, suc, ◌/◌, ◌%◌, List, [], ◌∷◌, ◌++◌, Bool, true, false, ◌&&◌, ◌||◌, Option, none, some,
  if◌then◌else◌, String, ltb, nonempty, ◌==◌, ◌+◌, map, zero,
}
use echidra_oss.Base.Text.{
  Text, codes, starts_with, strip, rstrip_by, drop_text, within, upper_code,
}
use echidra_oss.Network.{
  Outcome, timeout_error, cancelled_error, connection_error, other_error, Connection, Answer,
  returns, raises, Io, and_then, ◌>>=◌, await_one, log_line, done, os_error,
}
use echidra_oss.Python.Utf8.{decode_ignore}

-- `_send`, of ASCII texts.
unfoldable pub send : String → Io Text
send text c = await_one (record c { sent = c.sent ++ codes text ∷ [] })

-- The printable characters at the start of a text, at most a number of them.
unfoldable pub printable_prefix : ℕ → Text → Text
printable_prefix zero s = []
printable_prefix (suc n) [] = []
printable_prefix (suc n) (c ∷ s) = if within 33 126 c then c ∷ printable_prefix n s else []

-- `_RDP_COOKIE_PATTERN.search(data).group(1)`, or nothing.
unfoldable pub rdp_cookie : Text → Text
rdp_cookie [] = []
rdp_cookie (c ∷ bytes) =
    let value = printable_prefix 64 (drop_text 9 (c ∷ bytes)) in
    let later = rdp_cookie bytes in
    if starts_with (c ∷ bytes) (codes "mstshash=") && nonempty value then value else later

abbrev pub hex_digit : ℕ → ℕ
hex_digit n = if ltb n 10 then n + 48 else n + 87

abbrev pub hex_byte : ℕ → Text
hex_byte b = hex_digit (b / 16) ∷ hex_digit (b % 16) ∷ []

-- `data[:n].hex(' ')`
unfoldable pub hex_prefix : ℕ → Text → Text
hex_prefix zero bytes = []
hex_prefix (suc n) [] = []
hex_prefix (suc n) (b ∷ []) = hex_byte b
hex_prefix (suc zero) (b ∷ bytes) = hex_byte b
hex_prefix (suc n) (b ∷ bytes) = hex_byte b ++ 32 ∷ hex_prefix n bytes

abbrev pub is_line_end : ℕ → Bool
is_line_end c = c == 13 || c == 10

-- `data.decode(errors="ignore").rstrip("\r\n")`
unfoldable pub decode_line : Text → Text
decode_line bytes = rstrip_by is_line_end (decode_ignore bytes)

abbrev pub is_tls : Text → Bool
is_tls (b ∷ []) = b == 0x16
is_tls (b ∷ c ∷ bytes) = b == 0x16 && c == 0x03
is_tls [] = false

abbrev pub is_rdp : Text → Bool
is_rdp bytes = starts_with bytes (0x03 ∷ 0x00 ∷ [])

abbrev pub with_cookie : Text → Text
with_cookie [] = []
with_cookie (c ∷ cookie) = codes " mstshash=" ++ c ∷ cookie

-- `_describe_first_message`
unfoldable pub describe_first_message : Text → Text
describe_first_message bytes =
    if is_tls bytes
    then codes "[TLS handshake] " ++ hex_prefix 16 bytes
    else if is_rdp bytes
    then codes "[RDP connection request]" ++ with_cookie (rdp_cookie bytes)
    else decode_line bytes

abbrev pub starts_binary : Text → Bool
starts_binary [] = false
starts_binary (b ∷ first) = b == 0x16 || b == 0x03

-- The rest of a binary opening: a timeout brings nothing.
abbrev pub nothing_if_late : Answer Text × Connection → Answer Text × Connection
nothing_if_late (raises timeout_error, c) = (returns [], c)
nothing_if_late (answer, c) = (answer, c)

abbrev pub read_rest : Text → Io Text
read_rest first c = if starts_binary first then nothing_if_late (await_one c) else await_one c

abbrev pub first_message : Text → Io Text
first_message first =
    if nonempty first
    then (read_rest first >>= λ rest. done (describe_first_message (first ++ rest)))
    else done []

-- `_read_first_message`: nothing and an empty text are alike to the caller.
unfoldable pub read_first_message : Io Text
read_first_message = await_one >>= first_message

-- `_read_command`, likewise.
unfoldable pub read_command : Io Text
read_command = await_one >>= λ bytes. done (decode_line bytes)

abbrev pub upper : Text → Text
upper s = map upper_code s

abbrev pub is_command : String → Text → Bool
is_command name line = starts_with (upper line) (codes name)

-- The end of the dialogue, from the second message on.
unfoldable pub answer_password : Text → Io Text
answer_password password =
    if nonempty password
    then (log_line (
          if is_command "PASS" password
          then codes "PASS " ++ strip (drop_text 4 password)
          else password)
        >>= λ _. send "530 Login incorrect.\r\n" >>= λ _. send "421 Timeout.\r\n")
    else done []

-- A `USER` command and the message behind it, and any other first message.
unfoldable pub answer_user : Text → Io Text
answer_user username = log_line (codes "USER " ++ strip (drop_text 4 username)) >>= λ _.
    send "331 Please specify the password.\r\n" >>= λ _. read_command >>= answer_password

unfoldable pub refuse : Text → Io Text
refuse username = log_line username >>= λ _. send "530 Login incorrect.\r\n"

-- From the first message on.
unfoldable pub answer_username : Text → Io Text
answer_username username =
    if nonempty username
    then (if is_command "USER" username then answer_user username else refuse username)
    else done []

-- The body of `handle`.
unfoldable pub dialogue : Io Text
dialogue = send "220 (vsFTPd 3.0.3)\r\n" >>= λ _. read_first_message >>= answer_username

abbrev pub reason_of : Answer Text → String
reason_of (returns _) = "disconnect"
reason_of (raises timeout_error) = "timeout"
reason_of (raises cancelled_error) = "shutdown"
reason_of (raises connection_error) = "error"
reason_of (raises os_error) = "error"
reason_of (raises other_error) = "error"

-- `handle`: the end reason, the texts sent and the commands logged.
unfoldable pub handle : List Outcome → String × Connection
handle script =
    let ran = dialogue (record { script = script; sent = []; logged = [] }) in
    (reason_of ran.0, ran.1)
