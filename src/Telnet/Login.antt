-- ===== src/Telnet/Login.antt =====
-- honeypot/network/telnet_handler.py: the login dialogue.
use echidra_oss.Base.{
  ℕ, zero, suc, List, [], ◌++◌, Bool, true, false, ◌&&◌, ◌||◌, Option, none, some, String,
  if◌then◌else◌, nonempty,
}
use echidra_oss.Base.Text.{Text, codes, strip}
use echidra_oss.Telnet.{send, max_login_attempts}
use echidra_oss.Network.{
  and_then, Outcome, timeout_error, cancelled_error, connection_error, other_error, Connection,
  Answer, returns, raises, Io, ◌>>=◌, await_one, await_at_most, os_error, log_line, done,
}
use echidra_oss.Telnet.Line.{Line, Drained, parse_line, has_line_end, drain_from}

-- A line that was parsed, with the line end echoed where one was seen and echo is on.
unfoldable pub echo_line : Bool → Line → Io (Option Text × Text)
echo_line echo line =
    if echo && line.ended
    then (send (codes "\r\n") >>= λ _. done (some line.text, line.rest))
    else done (some line.text, line.rest)

abbrev pub with_more : Bool → Text → Text → Io (Option Text × Text)
with_more echo bytes more =
    if nonempty more || nonempty bytes
    then echo_line echo (parse_line (bytes ++ more))
    else done (none, [])

-- `_read_line`
unfoldable pub read_line : Bool → Text → Io (Option Text × Text)
read_line echo initial =
    if has_line_end initial
    then echo_line echo (parse_line initial)
    else await_one >>= with_more echo initial

-- `if text: session.log_command(prefix + text)`, on the stripped text.
unfoldable pub log_stripped : String → Text → Io Text
log_stripped prefix text =
    if nonempty (strip text) then log_line (codes prefix ++ strip text) else done []

-- The end of one attempt: the delay, and the rejection.
unfoldable pub reject : Io Text
reject = await_one >>= λ _. send (codes "\r\nLogin incorrect\r\n")

abbrev pub after_password : Option Text × Text → Io (Option Text)
after_password (none, rest) = done none
after_password (some password, rest) =
    log_stripped "password: " password >>= λ _. reject >>= λ _. done (some rest)

abbrev pub after_username : Option Text × Text → Io (Option Text)
after_username (none, rest) = done none
after_username (some username, rest) = log_stripped "login: " username >>= λ _.
    send (codes "Password: ") >>= λ _. read_line false rest >>= after_password

-- One turn of the loop: the bytes left over, or nothing where the stream is at its end.
unfoldable pub attempt : Text → Text → Io (Option Text)
attempt prompt leftover = send prompt >>= λ _. read_line true leftover >>= after_username

abbrev pub and_again : (Text → Io Text) → Option Text → Io Text
and_again again none = done []
and_again again (some rest) = again rest

-- The loop over the attempts.
unfoldable pub attempts : ℕ → Text → Text → Io Text
attempts zero prompt leftover = done []
attempts (suc n) prompt leftover = attempt prompt leftover >>= and_again (attempts n prompt)

-- `except OSError`, of which a time-out and a broken connection are kinds: no bytes, or no answer.
abbrev pub forgive : Answer Text × Connection → Answer Text × Connection
forgive (raises timeout_error, c) = (returns [], c)
forgive (raises connection_error, c) = (returns [], c)
forgive (raises os_error, c) = (returns [], c)
forgive (answer, c) = (answer, c)

unfoldable pub reply_to : Drained → Io Text
reply_to d c =
    if nonempty d.reply
    then and_then (λ _. done d.leftover) (forgive (send d.reply c))
    else done d.leftover c

-- `_drain_iac`
unfoldable pub drain_iac : Io Text
drain_iac = (λ c. forgive (await_at_most 64 c)) >>= λ bytes.
    reply_to (drain_from 0 (record { reply = []; leftover = [] }) bytes)

-- The body of `handle`.
unfoldable pub dialogue : Text → Text → Io Text
dialogue banner prompt =
    drain_iac >>= λ leftover. send banner >>= λ _. attempts max_login_attempts prompt leftover

abbrev pub reason_of : Answer Text → String
reason_of (returns _) = "disconnect"
reason_of (raises timeout_error) = "timeout"
reason_of (raises cancelled_error) = "shutdown"
reason_of (raises connection_error) = "disconnect"
reason_of (raises os_error) = "error"
reason_of (raises other_error) = "error"

-- `handle`: the end reason, the texts sent and the commands logged.
unfoldable pub handle : Text → Text → List Outcome → String × Connection
handle banner prompt script =
    let ran = dialogue banner prompt (record { script = script; sent = []; logged = [] }) in
    (reason_of ran.0, ran.1)
